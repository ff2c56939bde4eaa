-- ===== src/Nucleus/Types/Runs.antt =====
-- The type predicates keep what each step keeps, and do not depend on the fuel.
use akx.Base.Text.{Bytes, codes}
use akx.Cell.{
  CellPtr, CellType, type_symbol, type_string_literal, type_integer_literal, type_real_literal,
  type_quoted, type_lambda,
}
use akx.Rt.{Runtime, Env, Evaluator}
use akx.Rt.Within.{IsKept, Runs, Agrees, Runs-pure, Runs-handle, Runs-if, Runs-fail}
use akx.Nucleus.Types.{
  is_nil_impl, is_type_impl, is_int_impl, is_real_impl, is_lambda_impl, is_str_impl, is_quote_impl,
  is_sym_impl,
}

module _ {Ctx : Type 0} {env : Env Ctx} {R : Runtime Ctx → Runtime Ctx → Type 0}
    (kept : IsKept env R) (ev ev' : Evaluator Ctx) (same : Agrees R ev ev') where
  pub is_nil_impl-Runs : (args : CellPtr) → Runs R (is_nil_impl ev args) (is_nil_impl ev' args)
  unfolding is_nil_impl
  is_nil_impl-Runs args =
      search (Runs-if kept, Runs-fail kept, Runs-handle kept, Runs-pure kept, same.agree) depth 14

  is_type_impl-Runs :
      (name : Bytes) (t : CellType) (args : CellPtr)
      → Runs R (is_type_impl name t ev args) (is_type_impl name t ev' args)
  unfolding is_type_impl
  is_type_impl-Runs name t args =
      search (Runs-if kept, Runs-fail kept, Runs-handle kept, Runs-pure kept, same.agree) depth 14

  pub is_int_impl-Runs : (args : CellPtr) → Runs R (is_int_impl ev args) (is_int_impl ev' args)
  unfolding is_int_impl
  is_int_impl-Runs = is_type_impl-Runs (codes "?int") type_integer_literal

  pub is_real_impl-Runs : (args : CellPtr) → Runs R (is_real_impl ev args) (is_real_impl ev' args)
  unfolding is_real_impl
  is_real_impl-Runs = is_type_impl-Runs (codes "?real") type_real_literal

  pub is_lambda_impl-Runs :
      (args : CellPtr) → Runs R (is_lambda_impl ev args) (is_lambda_impl ev' args)
  unfolding is_lambda_impl
  is_lambda_impl-Runs = is_type_impl-Runs (codes "?lambda") type_lambda

  pub is_str_impl-Runs : (args : CellPtr) → Runs R (is_str_impl ev args) (is_str_impl ev' args)
  unfolding is_str_impl
  is_str_impl-Runs = is_type_impl-Runs (codes "?str") type_string_literal

  pub is_quote_impl-Runs :
      (args : CellPtr) → Runs R (is_quote_impl ev args) (is_quote_impl ev' args)
  unfolding is_quote_impl
  is_quote_impl-Runs = is_type_impl-Runs (codes "?quote") type_quoted

  pub is_sym_impl-Runs : (args : CellPtr) → Runs R (is_sym_impl ev args) (is_sym_impl ev' args)
  unfolding is_sym_impl
  is_sym_impl-Runs = is_type_impl-Runs (codes "?sym") type_symbol
