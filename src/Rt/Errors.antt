-- ===== src/Rt/Errors.antt =====
-- The error list of a run.
use akx.Base.{
  ℕ, ◌+◌, ◌≡◌, ◌∙◌, refl, sym, List, [], ◌++◌, append-nil, append_assoc, length, length-append,
  some, arith,
}
use akx.Cell.{CellPtr}
use native.Mathlib.Nat.{le_refl}
use akx.Rt.Eval.{eval}
use akx.Rt.Eval.Runs.{eval-Agrees}
use akx.Rt.Within.{IsKept, Within-final}
use akx.Rt.{RtError, Runtime, Env, Mode, final, add_error}

module _ {Ctx : Type 0} where
  -- `rest` was appended to the error list, and counted.
  abbrev pub Logged : Runtime Ctx → Runtime Ctx → Type 0
  Logged rt rt' =
      (rest : List RtError) × (rt'.errors ≡ rt.errors ++ rest)
      × (rt'.error_count ≡ rt.error_count + length rest)

  Logged-refl : (rt : Runtime Ctx) → Logged rt rt
  Logged-refl rt = ([], sym (append-nil rt.errors), omega arith)

  Logged-trans : (a b c : Runtime Ctx) → Logged a b → Logged b c → Logged a c
  Logged-trans a b c (s, p, m) (t, q, n) =
      (s ++ t, q ∙ rw (p, append_assoc) refl, omega (arith, m, n, length-append s t))

  module _ (env : Env Ctx) where
    Logged-IsKept : IsKept env Logged
    unfolding add_error
    Logged-IsKept = record {
      here = Logged-refl;
      after = Logged-trans;
      on_error = λ _ _ rt. (_, refl, refl);
      on_module = λ _ rt. Logged-refl rt;
      on_tail = λ _ _ h. h;
      on_scope = λ _ _ h. h;
      on_set = λ _ _ rt. Logged-refl rt;
      on_assign = λ _ _ rt. Logged-refl rt;
      on_new = λ _ rt. Logged-refl rt;
      on_handle = λ _ _ rt. Logged-refl rt;
      on_system = λ _ rt. Logged-refl rt;
      on_free = λ _ rt. Logged-refl rt;
      on_args = λ _ _ _ h. h;
      on_print = λ _ rt. Logged-refl rt;
      on_result = λ _ _ _ rt _. Logged-refl rt;
    }

    -- No evaluation removes, changes or reorders an error that was recorded before it, and the
    -- error count goes up by the number of errors that it appends.
    pub eval-Logged :
        (f : ℕ) (mode : Mode) (expr : CellPtr) (rt rt' : Runtime Ctx)
        → final (eval env f mode expr rt) ≡ some rt'
        → Logged rt rt'
    eval-Logged f mode expr rt rt' e =
        (Within-final (((eval-Agrees Logged-IsKept f f (le_refl f)).agree mode expr).run rt) e).0
