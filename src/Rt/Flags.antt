-- ===== src/Rt/Flags.antt =====
-- The tail flag of the runtime.
use akx.Base.{ℕ, ◌≡◌, ◌∙◌, refl, some}
use akx.Cell.{CellPtr}
use native.Mathlib.Nat.{le_refl}
use akx.Rt.Eval.{eval}
use akx.Rt.Eval.Runs.{eval-Agrees}
use akx.Rt.Within.{IsKept, Within-final}
use akx.Rt.{Runtime, Env, Mode, final, add_error}

module _ {Ctx : Type 0} (env : Env Ctx) where
  same_flag-IsKept : IsKept env (λ rt rt'. rt'.in_tail_position ≡ rt.in_tail_position)
  unfolding add_error
  same_flag-IsKept = record {
    here = λ _. refl;
    after = λ _ _ _ h k. k ∙ h;
    on_error = λ _ _ _. refl;
    on_module = λ _ _. refl;
    on_tail = λ _ _ _. refl;
    on_scope = λ _ _ h. h;
    on_set = λ _ _ _. refl;
    on_assign = λ _ _ _. refl;
    on_new = λ _ _. refl;
    on_handle = λ _ _ _. refl;
    on_system = λ _ _. refl;
    on_free = λ _ _. refl;
    on_args = λ _ _ _ h. h;
    on_print = λ _ _. refl;
    on_result = λ _ _ _ _ _. refl;
  }

  -- Evaluation, also in tail position and also where it fails, leaves the tail flag as it was.
  pub eval_tail_flag :
      (f : ℕ) (mode : Mode) (expr : CellPtr) (rt rt' : Runtime Ctx)
      → final (eval env f mode expr rt) ≡ some rt'
      → rt'.in_tail_position ≡ rt.in_tail_position
  eval_tail_flag f mode expr rt rt' e =
      (Within-final (((eval-Agrees same_flag-IsKept f f (le_refl f)).agree mode expr).run rt) e).0
