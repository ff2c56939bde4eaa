-- ===== src/Rt/Scope.antt =====
-- The scope discipline: every scope that an evaluation opens is closed when it ends.
use akx.Base.{ℕ, suc, ◌≡◌, ◌∙◌, refl, Option, some}
use akx.Base.Text.{Bytes}
use akx.Cell.{CellPtr}
use native.Mathlib.Nat.{le_refl}
use akx.Rt.Eval.{eval}
use akx.Rt.Eval.Runs.{eval-Agrees}
use akx.Rt.Within.{IsKept, Within-final}
use akx.Rt.{Runtime, Env, Mode, final, add_error}

-- What `ak_context_t` promises of the number of open scopes.
pub record HasDepth {Ctx : Type 0} (env : Env Ctx) (depth : Ctx → ℕ) : Type 0 where
  pub depth-push : (c : Ctx) → depth (env.push c) ≡ suc (depth c)
  pub depth-pop : (c : Ctx) (n : ℕ) → depth c ≡ suc n → depth (env.pop c) ≡ n
  pub depth-set : (c : Ctx) (key : Bytes) (value : CellPtr) → depth (env.set c key value) ≡ depth c
  pub depth-set_handle :
      (c : Ctx) (key : Bytes) (handle : Option ℕ) → depth (env.set_handle c key handle) ≡ depth c
  pub depth-assign :
      (c : Ctx) (key : Bytes) (value : CellPtr) → depth (env.assign c key value) ≡ depth c

module _ {Ctx : Type 0} {env : Env Ctx} {depth : Ctx → ℕ} (laws : HasDepth env depth) where
  abbrev pub SameDepth : Runtime Ctx → Runtime Ctx → Type 0
  SameDepth rt rt' = depth rt'.current_context ≡ depth rt.current_context

  pub SameDepth-IsKept : IsKept env SameDepth
  unfolding add_error
  SameDepth-IsKept = record {
    here = λ _. refl;
    after = λ _ _ _ h k. k ∙ h;
    on_error = λ _ _ _. refl;
    on_module = λ _ _. refl;
    on_tail = λ _ _ h. h;
    on_scope = λ rt rt' h. laws.depth-pop _ _ (h ∙ laws.depth-push rt.current_context);
    on_set = λ key value rt. laws.depth-set rt.current_context key value;
    on_assign = λ key value rt. laws.depth-assign rt.current_context key value;
    on_new = λ _ _. refl;
    on_handle = λ key handle rt. laws.depth-set_handle rt.current_context key handle;
    on_system = λ _ _. refl;
    on_free = λ _ _. refl;
    on_args = λ _ _ _ h. h;
    on_print = λ _ _. refl;
    on_result = λ _ _ _ _ _. refl;
  }

  -- Whether an expression gives a value or an error, plainly or in tail position, the number of
  -- open scopes after it is the number before it.
  pub eval_balanced :
      (f : ℕ) (mode : Mode) (expr : CellPtr) (rt rt' : Runtime Ctx)
      → final (eval env f mode expr rt) ≡ some rt'
      → depth rt'.current_context ≡ depth rt.current_context
  eval_balanced f mode expr rt rt' e =
      (Within-final (((eval-Agrees SameDepth-IsKept f f (le_refl f)).agree mode expr).run rt) e).0
