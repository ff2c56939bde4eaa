-- ===== src/Nucleus/Scanf/Runs.antt =====
-- `io/scanf` keeps what each step keeps, and more fuel changes nothing.
use akx.Base.{ℕ, zero, suc, ◌≤◌, ◌&&◌, ltb, List, [], ◌∷◌, Option, none, some, ◌==◌, arith}
use akx.Base.Text.{Bytes, c_string}
use akx.Cell.{Cell, CellPtr, null, node, string_literal}
use akx.Nucleus.Scanf.{
  is_space, if_char, after_char, skip_spaces, value_or_fail, scan_value, scan_directive, finish,
  scan_format, scan_formatted, scanf_impl,
}
use akx.Rt.{Runtime, Env, M, Evaluator, plain}
use akx.Rt.Within.{
  IsKept, Runs, Agrees, Runs-pure, Runs-fuel, Runs-bind, Runs-then, Runs-handle, Runs-if, Runs-fail,
  Runs-call,
}

module _ {Ctx : Type 0} {env : Env Ctx} {R : Runtime Ctx → Runtime Ctx → Type 0}
    (kept : IsKept env R) where
  if_char-Runs :
      (expected : ℕ) (message : Bytes) (go go' : M Ctx CellPtr)
      → Runs R go go'
      → (o : Option ℕ)
      → Runs R (if_char env expected message go o) (if_char env expected message go' o)
  if_char-Runs expected message go go' h none = Runs-fail kept message
  if_char-Runs expected message go go' h (some ch) =
      Runs-if kept (ch == expected && ltb expected 128) h (Runs-fail kept message)

  value_or_fail-Runs :
      {A : Type 0} (message : Bytes) (cell : A → Cell) (o : Option A)
      → Runs R (value_or_fail env message cell o) (value_or_fail env message cell o)
  value_or_fail-Runs message cell none = Runs-fail kept message
  value_or_fail-Runs message cell (some a) = Runs-pure kept _

  finish-Runs : (values : List Cell) → Runs R (finish env values) (finish env values)
  finish-Runs values = Runs-pure kept _

  after_char-Runs :
      (again again' : M Ctx (Unit {0}))
      → Runs R again again'
      → (o : Option ℕ) → Runs R (after_char env again o) (after_char env again' o)
  after_char-Runs again again' h none = Runs-pure kept _
  after_char-Runs again again' h (some c) = Runs-if kept (is_space c) h (Runs-call kept _ _)

  skip_spaces-Runs : (f g : ℕ) → f ≤ g → Runs R (skip_spaces env f) (skip_spaces env g)
  unfolding skip_spaces
  skip_spaces-Runs zero g le = Runs-fuel kept _
  skip_spaces-Runs (suc f) zero le = absurd (omega arith)
  skip_spaces-Runs (suc f) (suc g) le =
      Runs-bind kept (Runs-call kept _ _) (after_char-Runs _ _ (skip_spaces-Runs f g (omega arith)))

  module _ (f g : ℕ) (le : f ≤ g) where
    scan_value-Runs : (p : ℕ) → Runs R (scan_value env f p) (scan_value env g p)
    unfolding scan_value
    scan_value-Runs p =
        Runs-if kept (p == b'd') (Runs-bind kept (Runs-call kept _ _) (value_or_fail-Runs _ _)) (
          Runs-if kept (p == b'f') (Runs-bind kept (Runs-call kept _ _) (value_or_fail-Runs _ _)) (
            Runs-if kept (p == b's') (Runs-bind kept (Runs-call kept _ _) (value_or_fail-Runs _ _))
              (Runs-if kept (p == b'c')
                (Runs-bind kept (Runs-call kept _ _) (value_or_fail-Runs _ _))
                (Runs-if kept (p == b'l')
                  (Runs-then kept (skip_spaces-Runs f g le)
                    (Runs-bind kept (Runs-call kept _ _) (value_or_fail-Runs _ _)))
                  (Runs-fail kept _)))))

    scan_directive-Runs :
        (p : ℕ) (values : List Cell) (go go' : List Cell → M Ctx CellPtr)
        → ((more : List Cell) → Runs R (go more) (go' more))
        → Runs R (scan_directive env f p values go) (scan_directive env g p values go')
    scan_directive-Runs p values go go' h =
        Runs-if kept (p == b'%')
          (Runs-bind kept (Runs-call kept _ _) (if_char-Runs _ _ _ _ (h values)))
          (Runs-bind kept (scan_value-Runs p) λ value. h _)

    scan_format-Runs :
        (format : Bytes) (values : List Cell)
        → Runs R (scan_format env f format values) (scan_format env g format values)
    unfolding scan_format
    scan_format-Runs [] values = finish-Runs values
    scan_format-Runs (c ∷ []) values =
        Runs-if kept (c == b'%') (scan_directive-Runs 0 values _ _ finish-Runs) (
          Runs-if kept (c == b'\\')
            (Runs-bind kept (Runs-call kept _ _) (if_char-Runs _ _ _ _ (finish-Runs values)))
            (Runs-if kept (c == b' ')
              (Runs-then kept (skip_spaces-Runs f g le) (finish-Runs values))
              (Runs-bind kept (Runs-call kept _ _) (if_char-Runs _ _ _ _ (finish-Runs values)))))
    scan_format-Runs (c ∷ d ∷ format) values =
        Runs-if kept (c == b'%') (scan_directive-Runs d values _ _ (scan_format-Runs format)) (
          Runs-if kept (c == b'\\')
            (Runs-bind kept (Runs-call kept _ _)
              (if_char-Runs _ _ _ _ (scan_format-Runs format values)))
            (Runs-if kept (c == b' ')
              (Runs-then kept (skip_spaces-Runs f g le) (scan_format-Runs (d ∷ format) values))
              (Runs-bind kept (Runs-call kept _ _)
                (if_char-Runs _ _ _ _ (scan_format-Runs (d ∷ format) values)))))

    scan_formatted-Runs :
        (format : CellPtr) → Runs R (scan_formatted env f format) (scan_formatted env g format)
    scan_formatted-Runs (node _ (string_literal s) _) = scan_format-Runs (c_string s) []
    scan_formatted-Runs _ = Runs-fail kept _

    pub scanf_impl-Runs :
        (ev ev' : Evaluator Ctx)
        → Agrees R ev ev'
        → (args : CellPtr) → Runs R (scanf_impl env f ev args) (scanf_impl env g ev' args)
    unfolding scanf_impl
    scanf_impl-Runs ev ev' same null = Runs-fail kept _
    scanf_impl-Runs ev ev' same (node r c next) =
        Runs-handle kept (same.agree plain (node r c next)) (Runs-fail kept _) scan_formatted-Runs
