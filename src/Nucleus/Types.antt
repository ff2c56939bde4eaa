-- ===== src/Nucleus/Types.antt =====
-- nucleus/types: the predicates on the type of a value. The evaluation of the argument may return
-- NULL, which only `?nil` answers with 1; its error stays recorded.
pub mod Runs
use akx.Base.{Bool, true, false, ◌++◌, ◌==◌, if◌then◌else◌}
use akx.Base.Text.{Bytes, codes, strcmp_eq}
use akx.Cell.{
  CellPtr, null, node, symbol, CellType, type_symbol, type_string_literal, type_integer_literal,
  type_real_literal, type_quoted, type_lambda, type_eq, cell_get_type, truth,
}
use akx.Cell.Chain.{list_length, list_nth}
use akx.Rt.{M, Evaluator, plain, handle, pure, fail}

unfoldable pub is_nil_symbol : CellPtr → Bool
unfolding strcmp_eq
is_nil_symbol (node _ (symbol s) _) = strcmp_eq s (codes "nil")
is_nil_symbol _ = false

module _ {Ctx : Type 0} where
  unfoldable pub is_nil_impl : Evaluator Ctx → CellPtr → M Ctx CellPtr
  unfolding is_nil_symbol
  is_nil_impl ev args =
      if list_length args == 1
      then handle (ev plain (list_nth args 0)) (pure (truth true))
          (λ evaled. pure (truth (is_nil_symbol evaled)))
      else fail (codes "?nil requires exactly 1 argument")

  -- The shape of the other six files.
  unfoldable pub is_type_impl : Bytes → CellType → Evaluator Ctx → CellPtr → M Ctx CellPtr
  is_type_impl name t ev args =
      if list_length args == 1
      then handle (ev plain (list_nth args 0)) (pure (truth false))
          (λ evaled. pure (truth (type_eq (cell_get_type evaled) t)))
      else fail (name ++ codes " requires exactly 1 argument")

  unfoldable pub is_int_impl : Evaluator Ctx → CellPtr → M Ctx CellPtr
  unfolding is_type_impl
  is_int_impl = is_type_impl (codes "?int") type_integer_literal

  unfoldable pub is_real_impl : Evaluator Ctx → CellPtr → M Ctx CellPtr
  unfolding is_type_impl
  is_real_impl = is_type_impl (codes "?real") type_real_literal

  unfoldable pub is_lambda_impl : Evaluator Ctx → CellPtr → M Ctx CellPtr
  unfolding is_type_impl
  is_lambda_impl = is_type_impl (codes "?lambda") type_lambda

  unfoldable pub is_str_impl : Evaluator Ctx → CellPtr → M Ctx CellPtr
  unfolding is_type_impl
  is_str_impl = is_type_impl (codes "?str") type_string_literal

  unfoldable pub is_quote_impl : Evaluator Ctx → CellPtr → M Ctx CellPtr
  unfolding is_type_impl
  is_quote_impl = is_type_impl (codes "?quote") type_quoted

  unfoldable pub is_sym_impl : Evaluator Ctx → CellPtr → M Ctx CellPtr
  unfolding is_type_impl
  is_sym_impl = is_type_impl (codes "?sym") type_symbol
