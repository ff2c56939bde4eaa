-- ===== src/Rt/Args.antt =====
-- The arguments of the running script.
use akx.Base.{ℕ, ◌≡◌, ◌∙◌, refl, some}
use akx.Cell.{CellPtr}
use native.Mathlib.Nat.{le_refl}
use akx.Rt.Eval.{eval}
use akx.Rt.Eval.Runs.{eval-Agrees}
use akx.Rt.Within.{IsKept, Within-final}
use akx.Rt.{Runtime, Env, Mode, final, add_error}

module _ {Ctx : Type 0} (env : Env Ctx) where
  same_args-IsKept : IsKept env (λ rt rt'. rt'.script_args ≡ rt.script_args)
  unfolding add_error
  same_args-IsKept = record {
    here = λ _. refl;
    after = λ _ _ _ h k. k ∙ h;
    on_error = λ _ _ _. refl;
    on_module = λ _ _. refl;
    on_tail = λ _ _ h. h;
    on_scope = λ _ _ h. h;
    on_set = λ _ _ _. refl;
    on_assign = λ _ _ _. refl;
    on_new = λ _ _. refl;
    on_handle = λ _ _ _. refl;
    on_system = λ _ _. refl;
    on_free = λ _ _. refl;
    on_args = λ _ _ _ _. refl;
    on_print = λ _ _. refl;
    on_result = λ _ _ _ _ _. refl;
  }

  -- Evaluation leaves the arguments of the script as they were, also where it fails and whatever files
  -- `akx/exec` runs with arguments of their own on the way.
  pub eval_script_args :
      (f : ℕ) (mode : Mode) (expr : CellPtr) (rt rt' : Runtime Ctx)
      → final (eval env f mode expr rt) ≡ some rt'
      → rt'.script_args ≡ rt.script_args
  eval_script_args f mode expr rt rt' e =
      (Within-final (((eval-Agrees same_args-IsKept f f (le_refl f)).agree mode expr).run rt) e).0
