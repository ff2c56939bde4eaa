-- ===== src/Nucleus/Files/Runs.antt =====
-- The helpers of the nuclei on files keep what each step keeps, and do not depend on the fuel.
use akx.Base.Text.{Bytes}
use akx.Cell.{CellPtr, null, node, symbol, string_literal}
use akx.Nucleus.Files.{
  text_of_string, string_arg, int_option, string_option, keyword_loop, actual_path,
}
use akx.Rt.{Runtime, Env, M, Evaluator, plain}
use akx.Rt.Options.{is_keyword}
use akx.Rt.Within.{
  IsKept, Runs, Agrees, Runs-pure, Runs-bind, Runs-handle, Runs-if, Runs-fail, Runs-asks,
  Runs-assert,
}

module _ {Ctx : Type 0} {env : Env Ctx} {R : Runtime Ctx → Runtime Ctx → Type 0}
    (kept : IsKept env R) where
  text_of_string-Runs :
      (message : Bytes) (p : CellPtr) → Runs R (text_of_string message p) (text_of_string message p)
  text_of_string-Runs message (node _ (string_literal s) _) = Runs-pure kept _
  text_of_string-Runs message _ = Runs-fail kept message

  pub actual_path-Runs : (path : Bytes) → Runs R (actual_path env path) (actual_path env path)
  unfolding actual_path
  actual_path-Runs path = Runs-asks kept _ (Runs-pure kept)

  module _ (ev ev' : Evaluator Ctx) (same : Agrees R ev ev') where
    pub string_arg-Runs :
        (expr : CellPtr) (message : Bytes)
        → Runs R (string_arg ev expr message) (string_arg ev' expr message)
    unfolding string_arg
    string_arg-Runs expr message =
        Runs-handle kept (same.agree plain expr) (Runs-fail kept message)
          (text_of_string-Runs message)

    pub int_option-Runs :
        (expr : CellPtr) (message : Bytes)
        → Runs R (int_option ev expr message) (int_option ev' expr message)
    unfolding int_option
    int_option-Runs expr message =
        Runs-bind kept (Runs-assert kept expr _ message same) λ value. Runs-pure kept _

    pub string_option-Runs :
        (expr : CellPtr) (message : Bytes)
        → Runs R (string_option ev expr message) (string_option ev' expr message)
    unfolding string_option
    string_option-Runs expr message =
        Runs-bind kept (Runs-assert kept expr _ message same) λ value. Runs-pure kept _

  pub keyword_loop-Runs :
      {A : Type 0} (name expected : Bytes) (option option' : Bytes → CellPtr → A → M Ctx A)
      → ((keyword : Bytes) (value : CellPtr) (a : A)
          → Runs R (option keyword value a) (option' keyword value a))
      → (args : CellPtr) (a : A)
      → Runs R
          (keyword_loop name expected option args a)
          (keyword_loop name expected option' args a)
  unfolding keyword_loop
  keyword_loop-Runs name expected option option' h null a = Runs-pure kept a
  keyword_loop-Runs name expected option option' h (node _ (symbol keyword) null) a =
      Runs-if kept (is_keyword keyword) (Runs-fail kept _) (Runs-fail kept _)
  keyword_loop-Runs name expected option option' h (node _ (symbol keyword) (node r c next)) a =
      Runs-if kept (is_keyword keyword)
        (Runs-bind kept (h keyword (node r c next) a)
          (keyword_loop-Runs name expected option option' h next))
        (Runs-fail kept _)
  keyword_loop-Runs name expected option option' h (node _ (string_literal _) _) a =
      Runs-fail kept _
  keyword_loop-Runs name expected option option' h _ a = Runs-fail kept _
