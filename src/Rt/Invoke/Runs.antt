-- ===== src/Rt/Invoke/Runs.antt =====
-- Calls of lambdas keep what each step keeps, and do not depend on the fuel.
use akx.Base.{ℕ, zero, suc, ◌≤◌, Option, none, some, arith}
use akx.Cell.{CellPtr, null, node, lambda, continuation}
use akx.Nucleus.Lambda.Runs.{lambda_invoke_impl-Runs}
use akx.Rt.Invoke.{call_lambda, after_call, trampoline, invoke_lambda}
use akx.Rt.{LambdaContext, Runtime, Env, M, Evaluator}
use akx.Rt.Within.{
  IsKept, Runs, Agrees, Runs-pure, Runs-null, Runs-fuel, Runs-bind, Runs-then, Runs-asks, Runs-fail,
  Runs-scoped,
}

module _ {Ctx : Type 0} {env : Env Ctx} {R : Runtime Ctx → Runtime Ctx → Type 0}
    (kept : IsKept env R) (ev ev' : Evaluator Ctx) (same : Agrees R ev ev') where
  call_lambda-Runs :
      (l : ℕ) (c : Option LambdaContext) (args : CellPtr)
      → Runs R (call_lambda env ev l c args) (call_lambda env ev' l c args)
  unfolding call_lambda
  call_lambda-Runs l none args = Runs-fail kept _
  call_lambda-Runs l (some c) args = Runs-scoped kept (
      Runs-then kept (lambda_invoke_impl-Runs kept ev ev' same l c args)
        (Runs-asks kept _ (Runs-pure kept)))

  after_call-Runs :
      (again again' : CellPtr → CellPtr → M Ctx CellPtr)
      → ((l args : CellPtr) → Runs R (again l args) (again' l args))
      → (result : CellPtr) → Runs R (after_call env again result) (after_call env again' result)
  unfolding after_call
  after_call-Runs again again' h null = Runs-pure kept _
  after_call-Runs again again' h (node _ (continuation l args) _) = h l args
  after_call-Runs again again' h (node _ _ _) = Runs-pure kept _

  trampoline-Runs :
      (f g : ℕ)
      → f ≤ g
      → (l args : CellPtr) → Runs R (trampoline env f ev l args) (trampoline env g ev' l args)
  unfolding trampoline
  trampoline-Runs zero g le l args = Runs-fuel kept _
  trampoline-Runs (suc f) zero le l args = absurd (omega arith)
  trampoline-Runs (suc f) (suc g) le (node _ (lambda l) _) args =
      Runs-bind kept (Runs-asks kept _ λ c. call_lambda-Runs l c args)
        (after_call-Runs _ _ (trampoline-Runs f g (omega arith)))
  trampoline-Runs (suc f) (suc g) le _ args = Runs-fail kept _

  pub invoke_lambda-Runs :
      (f g : ℕ)
      → f ≤ g
      → (l args : CellPtr) → Runs R (invoke_lambda env f ev l args) (invoke_lambda env g ev' l args)
  unfolding invoke_lambda
  invoke_lambda-Runs f g le (node r (lambda l) next) args = trampoline-Runs f g le _ args
  invoke_lambda-Runs f g le _ args = Runs-null kept
