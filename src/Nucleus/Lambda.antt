-- ===== src/Nucleus/Lambda.antt =====
-- nucleus/core/lambda.c: making a lambda, and what `ak_lambda_invoke` calls. `ak_lambda_new` stores
-- the captured context, and a lambda is called with unevaluated arguments.
pub mod Runs
use akx.Base.{
  ℕ, zero, suc, ◌+◌, Bool, true, false, List, [], ◌∷◌, ◌++◌, Option, none, some, length, ◌==◌,
  if◌then◌else◌,
}
use akx.Base.Text.{Bytes, codes, decimal}
use akx.Cell.{CellPtr, null, node, Cell, symbol, list, square, lambda, set_next, alloc_cell}
use akx.Cell.Chain.{list_length, list_nth}
use akx.Cell.Clone.{clone}
use akx.Rt.{
  LambdaContext, Runtime, Env, Outcome, timeout, failed, aborted, done, M, Evaluator, plain,
  in_tail, ◌>>=◌, ◌>>◌, pure, return_null, fail, asks, modify, scope_set, lambda_context,
  set_result, new_lambda,
}

-- The names in a parameter list, if all its cells are symbols.
unfoldable pub collect_params : CellPtr → Option (List Bytes)
collect_params null = some []
collect_params (node _ (symbol s) next) = elim (collect_params next) [
  | none ↦ none
  | some names ↦ some (s ∷ names)
]
collect_params _ = none

-- The body's expressions are cloned one by one and linked again.
unfoldable pub clone_body : CellPtr → CellPtr
clone_body null = null
clone_body (node r c next) = set_next (clone (node r c next)) (clone_body next)

module _ {Ctx : Type 0} where
  make_lambda : Option (List Bytes) → CellPtr → M Ctx CellPtr
  make_lambda none body = fail (codes "lambda: all parameters must be symbols")
  make_lambda (some names) null = fail (codes "lambda: missing body")
  make_lambda (some names) (node r c next) = do
    l ←
        new_lambda
          (record { param_names = names; body = clone_body (node r c next); result = null })
    pure (alloc_cell (lambda l))

  lambda_over : CellPtr → CellPtr → M Ctx CellPtr
  lambda_over (node _ (list square params) _) body = make_lambda (collect_params params) body
  lambda_over _ body =
      fail (codes "lambda: first argument must be a square-bracket list of parameter names")

  unfoldable pub lambda_impl : CellPtr → M Ctx CellPtr
  unfolding lambda_over make_lambda collect_params clone_body
  lambda_impl args = lambda_over (list_nth args 0) (list_nth args 1)

  -- All expressions of the body but the last are evaluated plainly, the last one in tail position.
  unfoldable pub run_body : Evaluator Ctx → CellPtr → M Ctx CellPtr
  run_body ev null = return_null
  run_body ev (node r c null) = ev in_tail (node r c null)
  run_body ev (node r c (node s d next)) = do
    evaled ← ev plain (node r c (node s d next))
    run_body ev (node s d next)

  module _ (env : Env Ctx) where
    -- Each argument is evaluated in the new scope and bound there.
    unfoldable pub bind_params : Evaluator Ctx → List Bytes → ℕ → CellPtr → M Ctx (Unit {0})
    bind_params ev [] i args = pure tt
    bind_params ev (name ∷ names) i args = do
      evaled ← ev plain (list_nth args i)
      scope_set env name evaled
      bind_params ev names (i + 1) args

    -- What runs between `lambda_ctx->result = NULL` and `lambda_ctx->result = result`.
    unfoldable pub call_body : Evaluator Ctx → LambdaContext → CellPtr → M Ctx CellPtr
    unfolding bind_params run_body
    call_body ev c args =
        if list_length args == length c.param_names
        then (do bind_params ev c.param_names 0 args; run_body ev c.body)
        else fail (
            codes "lambda: expected "
            ++ (decimal (length c.param_names)
                ++ (codes " arguments, got " ++ decimal (list_length args))))

    abbrev pub store_result : ℕ → Outcome Ctx CellPtr → Outcome Ctx (Unit {0})
    store_result l timeout = timeout
    store_result l (failed rt) = done tt rt
    store_result l (aborted rt) = aborted rt
    store_result l (done p rt) = done tt (set_result l p rt)

    -- `akx_lambda_invoke_impl` returns nothing: after an error the result is what it was.
    unfoldable pub lambda_invoke_impl :
        Evaluator Ctx → ℕ → LambdaContext → CellPtr → M Ctx (Unit {0})
    unfolding call_body
    lambda_invoke_impl ev l c args rt = store_result l (call_body ev c args (set_result l null rt))
