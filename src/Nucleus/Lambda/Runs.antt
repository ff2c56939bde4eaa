-- ===== src/Nucleus/Lambda/Runs.antt =====
-- Making a lambda and running its body keep what each step keeps, and do not depend on the fuel.
use akx.Base.{◌≡◌, refl, ℕ, ◌+◌, List, [], ◌∷◌, Option, none, some}
use akx.Base.Text.{Bytes}
use akx.Cell.{CellPtr, null, node, list, square}
use akx.Cell.Chain.{list_nth}
use akx.Rt.{
  LambdaContext, Runtime, Env, Outcome, Evaluator, plain, in_tail, set_result, lambda_context,
  set_result_in,
}
use akx.Rt.Within.{
  IsKept, Within, ran_out, fails, aborts, ends, Runs, Agrees, Runs-pure, Runs-null, Runs-bind,
  Runs-then, Runs-if, Runs-fail, Runs-new_lambda, Runs-scope_set, Within-after,
}
use akx.Nucleus.Lambda.{
  make_lambda, lambda_over, lambda_impl, run_body, bind_params, call_body, store_result,
  lambda_invoke_impl,
}

module _ {Ctx : Type 0} {env : Env Ctx} {R : Runtime Ctx → Runtime Ctx → Type 0}
    (kept : IsKept env R) where
  make_lambda-Runs :
      (names : Option (List Bytes)) (body : CellPtr)
      → Runs R (make_lambda names body) (make_lambda names body)
  unfolding make_lambda
  make_lambda-Runs none body = Runs-fail kept _
  make_lambda-Runs (some names) null = Runs-fail kept _
  make_lambda-Runs (some names) (node r c next) =
      search (Runs-bind kept, Runs-new_lambda kept, Runs-pure kept) depth 10

  lambda_over-Runs :
      (params body : CellPtr) → Runs R (lambda_over params body) (lambda_over params body)
  unfolding lambda_over
  lambda_over-Runs (node _ (list square params) _) body = make_lambda-Runs _ body
  lambda_over-Runs _ body = Runs-fail kept _

  pub lambda_impl-Runs : (args : CellPtr) → Runs R (lambda_impl args) (lambda_impl args)
  unfolding lambda_impl
  lambda_impl-Runs args = lambda_over-Runs (list_nth args 0) (list_nth args 1)

  set_result-kept : (l : ℕ) (p : CellPtr) (rt : Runtime Ctx) → R rt (set_result l p rt)
  set_result-kept l p rt = by_context (lambda_context rt l) refl
    where
      by_context :
          (o : Option LambdaContext) → lambda_context rt l ≡ o → R rt (set_result_in o l p rt)
      by_context none e = kept.here rt
      by_context (some c) e = kept.on_result l p c rt e

  store-Within :
      (l : ℕ) (rt : Runtime Ctx) {o o' : Outcome Ctx CellPtr}
      → Within R rt o o'
      → Within R rt (store_result env l o) (store_result env l o')
  store-Within l rt ran_out = ran_out
  store-Within l rt (fails h) = ends h
  store-Within l rt aborts = aborts
  store-Within l rt (ends {a} {rt'} h) = ends (kept.after rt rt' _ h (set_result-kept l a rt'))

  module _ (ev ev' : Evaluator Ctx) (same : Agrees R ev ev') where
    run_body-Runs : (body : CellPtr) → Runs R (run_body ev body) (run_body ev' body)
    unfolding run_body
    run_body-Runs null = Runs-null kept
    run_body-Runs (node r c null) = same.agree in_tail _
    run_body-Runs (node r c (node s d next)) =
        Runs-bind kept (same.agree plain _) λ _. run_body-Runs (node s d next)

    bind_params-Runs :
        (names : List Bytes) (i : ℕ) (args : CellPtr)
        → Runs R (bind_params env ev names i args) (bind_params env ev' names i args)
    unfolding bind_params
    bind_params-Runs [] i args = Runs-pure kept tt
    bind_params-Runs (name ∷ names) i args =
        Runs-bind kept (same.agree plain (list_nth args i)) λ evaled.
          Runs-then kept (Runs-scope_set kept name evaled) (bind_params-Runs names (i + 1) args)

    pub call_body-Runs :
        (c : LambdaContext) (args : CellPtr)
        → Runs R (call_body env ev c args) (call_body env ev' c args)
    unfolding call_body
    call_body-Runs c args =
        search (Runs-if kept, Runs-then kept, Runs-fail kept, bind_params-Runs, run_body-Runs) depth
          12

    pub lambda_invoke_impl-Runs :
        (l : ℕ) (c : LambdaContext) (args : CellPtr)
        → Runs R (lambda_invoke_impl env ev l c args) (lambda_invoke_impl env ev' l c args)
    unfolding lambda_invoke_impl
    lambda_invoke_impl-Runs l c args = record {
      run = λ rt.
          Within-after kept rt (set_result l null rt) (set_result-kept l null rt)
            (store-Within l _ ((call_body-Runs c args).run (set_result l null rt)));
    }
