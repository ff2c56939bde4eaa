-- ===== src/Nucleus/Putf/Runs.antt =====
-- `io/putf` keeps what each step keeps, and does not depend on the fuel.
use akx.Base.{ℕ, ◌+◌, [], ◌∷◌, Option, none, some, ◌==◌}
use akx.Base.Text.{Bytes, c_string}
use akx.Cell.{CellPtr, null, node, string_literal}
use akx.Nucleus.Putf.{
  Printed, directive, print_or_fail, print_value, put_directive, put_count, put_format,
  put_formatted, putf_impl,
}
use akx.Rt.{Runtime, Env, M, Evaluator, plain}
use akx.Rt.Within.{
  IsKept, Runs, Agrees, Runs-pure, Runs-null, Runs-bind, Runs-then, Runs-handle, Runs-if, Runs-fail,
  Runs-print,
}

module _ {Ctx : Type 0} {env : Env Ctx} {R : Runtime Ctx → Runtime Ctx → Type 0}
    (kept : IsKept env R) (ev ev' : Evaluator Ctx) (same : Agrees R ev ev') where
  print_or_fail-Runs :
      (o : Option Printed) (message : Bytes) (n : ℕ) (go go' : ℕ → M Ctx CellPtr)
      → ((m : ℕ) → Runs R (go m) (go' m))
      → Runs R (print_or_fail env (o, message) n go) (print_or_fail env (o, message) n go')
  print_or_fail-Runs none message n go go' h = Runs-fail kept message
  print_or_fail-Runs (some (text, len)) message n go go' h =
      Runs-then kept (Runs-print kept text) (h (n + len))

  print_value-Runs :
      (p : ℕ) (arg : CellPtr) (n : ℕ) (go go' : ℕ → M Ctx CellPtr)
      → ((m : ℕ) → Runs R (go m) (go' m))
      → Runs R (print_value env p arg n go) (print_value env p arg n go')
  print_value-Runs p null n go go' h = Runs-null kept
  print_value-Runs p (node r c next) n go go' h =
      print_or_fail-Runs (directive env p c).0 (directive env p c).1 n go go' h

  put_directive-Runs :
      (p : ℕ) (args : CellPtr) (n : ℕ) (go go' : CellPtr → ℕ → M Ctx CellPtr)
      → ((rest : CellPtr) (m : ℕ) → Runs R (go rest m) (go' rest m))
      → Runs R (put_directive env ev p args n go) (put_directive env ev' p args n go')
  unfolding put_directive
  put_directive-Runs p null n go go' h =
      Runs-if kept (p == b'%') (Runs-then kept (Runs-print kept _) (h null (n + 1)))
        (Runs-fail kept _)
  put_directive-Runs p (node r c next) n go go' h =
      Runs-if kept (p == b'%') (Runs-then kept (Runs-print kept _) (h (node r c next) (n + 1))) (
        Runs-bind kept (same.agree plain (node r c next))
          λ arg. print_value-Runs p arg n _ _ (h next))

  put_count-Runs : (args : CellPtr) (n : ℕ) → Runs R (put_count env args n) (put_count env args n)
  put_count-Runs args n = Runs-pure kept _

  put_format-Runs :
      (format : Bytes) (args : CellPtr) (n : ℕ)
      → Runs R (put_format env ev format args n) (put_format env ev' format args n)
  unfolding put_format
  put_format-Runs [] args n = put_count-Runs args n
  put_format-Runs (c ∷ []) args n =
      Runs-if kept (c == b'\\') (Runs-then kept (Runs-print kept _) (put_count-Runs args (n + 1))) (
        Runs-if kept (c == b'%') (put_directive-Runs 0 args n _ _ put_count-Runs)
          (Runs-then kept (Runs-print kept _) (put_count-Runs args (n + 1))))
  put_format-Runs (c ∷ d ∷ format) args n =
      Runs-if kept (c == b'\\')
        (Runs-then kept (Runs-print kept _) (put_format-Runs format args (n + 1)))
        (Runs-if kept (c == b'%') (put_directive-Runs d args n _ _ (put_format-Runs format))
          (Runs-then kept (Runs-print kept _) (put_format-Runs (d ∷ format) args (n + 1))))

  put_formatted-Runs :
      (args format : CellPtr)
      → Runs R (put_formatted env ev args format) (put_formatted env ev' args format)
  put_formatted-Runs args (node _ (string_literal s) _) = put_format-Runs (c_string s) _ 0
  put_formatted-Runs args _ = Runs-fail kept _

  pub putf_impl-Runs : (args : CellPtr) → Runs R (putf_impl env ev args) (putf_impl env ev' args)
  unfolding putf_impl
  putf_impl-Runs null = Runs-fail kept _
  putf_impl-Runs (node r c next) =
      Runs-handle kept (same.agree plain (node r c next)) (Runs-fail kept _)
        (put_formatted-Runs (node r c next))
