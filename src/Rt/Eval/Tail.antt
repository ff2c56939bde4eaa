-- ===== src/Rt/Eval/Tail.antt =====
-- Tail calls: a body that ends in a call of a lambda, and the trampoline behind it.
use akx.Base.{ℕ, suc, ◌≡◌, ◌∙◌, refl, true, List, Option, none, some, length, ◌==◌}
use akx.Base.Text.{Bytes}
use akx.Cell.{
  Brackets, Cell, CellPtr, SourceRange, null, node, symbol, list, lambda, continuation, alloc_cell,
}
use akx.Cell.Chain.{list_length}
use akx.Nucleus.Args.{Evaluated, none_yet, one_more}
use akx.Nucleus.Lambda.{run_body, bind_params, call_body}
use akx.Nucleus.Lambda.Runs.{call_body-Runs}
use native.Mathlib.Nat.{le_refl}
use akx.Rt.Eval.{
  eval, eval_step, eval_cell, eval_list_cell, call_named, call_stored, alloc_continuation,
  tail_position, restore_tail,
}
use akx.Rt.Eval.Runs.{eval-Agrees}
use akx.Rt.Invoke.{invoke_lambda}
use akx.Rt.Invoke.Rounds.{entered, invoke_lambda_tail}
use akx.Rt.Scope.{HasDepth, SameDepth-IsKept}
use akx.Rt.Within.{Within-final}
use akx.Rt.{
  LambdaContext, Runtime, Env, Evaluator, in_tail, done, ◌>>=◌, ◌>>◌, pure, asks, lambda_context,
  set_result, pop_scope,
}

module _ {Ctx : Type 0} where
  -- All expressions but the last were evaluated.
  run_body-last :
      (ev : Evaluator Ctx) {body : CellPtr} {vs : List CellPtr} {rt rt' : Runtime Ctx}
      (q : Option SourceRange) (c : Cell)
      → Evaluated ev body rt vs (node q c null) rt'
      → run_body ev body rt ≡ ev in_tail (node q c null) rt'
  unfolding run_body ◌>>=◌
  run_body-last ev q c none_yet = refl
  run_body-last ev q c (one_more e none_yet) = rw e refl
  run_body-last ev q c (one_more e (one_more e' more)) =
      rw e (run_body-last ev q c (one_more e' more))

  module _ (env : Env Ctx) where
    -- In tail position a call of a name that holds a lambda calls nothing and evaluates no argument.
    eval_tail_call :
        (f : ℕ) (q s t : Option SourceRange) (k : Brackets) (name : Bytes) (l : ℕ)
        (args next behind : CellPtr) (rt : Runtime Ctx)
        → env.builtin name ≡ none
        → env.get rt.current_context name ≡ node t (lambda l) next
        → eval env (suc f) in_tail (node q (list k (node s (symbol name) args)) behind) rt
          ≡ done (alloc_cell (continuation (node t (lambda l) next) args)) rt
    unfolding eval eval_step eval_cell eval_list_cell call_named call_stored alloc_continuation
        tail_position restore_tail asks pure
    eval_tail_call f q s t k name l args next behind rt no_builtin holds =
        rw (no_builtin, holds) refl

    -- The state in which the second lambda is called: the continuation is the result of the first one,
    -- and its scope is closed.
    abbrev pub tail_called : ℕ → CellPtr → CellPtr → Runtime Ctx → Runtime Ctx
    tail_called l lambda_cell args rt =
        pop_scope env (set_result l (alloc_cell (continuation lambda_cell args)) rt)

    module _ {depth : Ctx → ℕ} (laws : HasDepth env depth) where
      -- A lambda whose parameters are bound and whose body ends in a call of a name that holds a
      -- lambda, the expressions before it evaluated: the call of the first lambda is the call of the
      -- second one by the same trampoline, with its arguments not yet evaluated, in the state that the
      -- expressions before it left, with the continuation kept as the result of the first lambda and
      -- with as many scopes open as before the first call, where the parameters of the first lambda
      -- are gone.
      pub invoke_lambda-tail_call :
          (fuel f : ℕ) (r q s t : Option SourceRange) (k : Brackets) (name : Bytes) (l l' : ℕ)
          (next next' args args' : CellPtr) (c c' : LambdaContext) (vs : List CellPtr)
          (rt rt1 rt2 : Runtime Ctx)
          → lambda_context rt l ≡ some c
          → (list_length args == length c.param_names) ≡ true
          → bind_params env
              (eval env (suc f))
              c.param_names
              0
              args
              (entered env (eval env (suc f)) l rt)
            ≡ done tt rt1
          → Evaluated
              (eval env (suc f))
              c.body
              rt1
              vs
              (node q (list k (node s (symbol name) args')) null)
              rt2
          → env.builtin name ≡ none
          → env.get rt2.current_context name ≡ node t (lambda l') next'
          → lambda_context rt2 l ≡ some c'
          → (invoke_lambda env (suc fuel) (eval env (suc f)) (node r (lambda l) next) args rt
              ≡ invoke_lambda env fuel
                  (eval env (suc f))
                  (node t (lambda l') next')
                  args'
                  (tail_called l (node t (lambda l') next') args' rt2))
            × ((tail_called l (node t (lambda l') next') args' rt2).current_context
                ≡ env.pop rt2.current_context)
            × (depth (tail_called l (node t (lambda l') next') args' rt2).current_context
                ≡ depth rt.current_context)
      unfolding call_body ◌>>=◌ ◌>>◌
      invoke_lambda-tail_call fuel f r q s t k name l l' next next' args args' c c' vs rt rt1 rt2 is
            arity binds before no_builtin holds is' =
          let result = alloc_cell (continuation (node t (lambda l') next') args') in
          let body : call_body env (eval env (suc f)) c args (entered env (eval env (suc f)) l rt)
              ≡ done result rt2 =
            rw
              (
                arity,
                binds,
                run_body-last (eval env (suc f)) q (list k (node s (symbol name) args')) before,
              )
              (eval_tail_call f q s t k name l' args' next' null rt2 no_builtin holds) in
          let kept =
            (Within-final {rt' = rt2}
              ((call_body-Runs (SameDepth-IsKept laws) (eval env (suc f)) (eval env (suc f))
                  (eval-Agrees (SameDepth-IsKept laws) (suc f) (suc f) (le_refl (suc f))) c
                  args).run
                (entered env (eval env (suc f)) l rt))
              (rw body refl)).0 in
          let opened : depth (entered env (eval env (suc f)) l rt).current_context
              ≡ suc (depth rt.current_context) =
            rw is (laws.depth-push rt.current_context) in
          (
            invoke_lambda_tail env (eval env (suc f)) fuel r none t l l' next next' args args' null
                c c' rt rt2 is body is',
            rw is' refl,
            rw is' (laws.depth-pop rt2.current_context (depth rt.current_context) (kept ∙ opened)),
          )
