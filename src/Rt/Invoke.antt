-- ===== src/Rt/Invoke.antt =====
-- `akx_rt_invoke_lambda` of pkg/rt/akx_rt.c: the trampoline.
pub mod Runs
pub mod Rounds
use akx.Base.{ℕ, zero, suc, Option, none, some}
use akx.Base.Text.{codes}
use akx.Cell.{CellPtr, null, node, lambda, continuation, nil}
use akx.Nucleus.Lambda.{lambda_invoke_impl}
use akx.Rt.{
  LambdaContext, Runtime, Env, M, Evaluator, ◌>>=◌, ◌>>◌, pure, return_null, fail, asks,
  out_of_fuel, scoped, lambda_context,
}

abbrev pub result_of : Option LambdaContext → CellPtr
result_of none = null
result_of (some c) = c.result

module _ {Ctx : Type 0} (env : Env Ctx) where
  -- One round: the call in a scope of its own, and the `result` field of the context after it.
  unfoldable pub call_lambda : Evaluator Ctx → ℕ → Option LambdaContext → CellPtr → M Ctx CellPtr
  call_lambda ev l none args = fail (codes "invalid lambda cell - no lambda data")
  call_lambda ev l (some c) args =
      scoped env
        (do lambda_invoke_impl env ev l c args; asks (λ rt. result_of (lambda_context rt l)) pure)

  -- A result that is a continuation is called next; no result at all is the symbol `nil`.
  unfoldable pub after_call : (CellPtr → CellPtr → M Ctx CellPtr) → CellPtr → M Ctx CellPtr
  after_call again null = pure nil
  after_call again (node _ (continuation next_lambda next_args) _) = again next_lambda next_args
  after_call again (node r c next) = pure (node r c next)

  -- `while (1)`, with fuel for the rounds.
  unfoldable pub trampoline : ℕ → Evaluator Ctx → CellPtr → CellPtr → M Ctx CellPtr
  unfolding after_call call_lambda
  trampoline zero ev current_lambda current_args = out_of_fuel
  trampoline (suc fuel) ev (node _ (lambda l) _) current_args = do
    result ← asks (λ rt. lambda_context rt l) (λ c. call_lambda ev l c current_args)
    after_call (trampoline fuel ev) result
  trampoline (suc fuel) ev _ current_args = fail (codes "invalid lambda cell in trampoline")

  -- No error is recorded where the first cell is no lambda.
  unfoldable pub invoke_lambda : ℕ → Evaluator Ctx → CellPtr → CellPtr → M Ctx CellPtr
  unfolding trampoline
  invoke_lambda fuel ev (node r (lambda l) next) args =
      trampoline fuel ev (node r (lambda l) next) args
  invoke_lambda fuel ev _ args = return_null
