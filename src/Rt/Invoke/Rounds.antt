-- ===== src/Rt/Invoke/Rounds.antt =====
-- What a call of a lambda gives, by what its body gives.
use akx.Base.{
  ℕ, zero, suc, ◌+◌, ◌≡◌, refl, Bool, true, false, List, [], ◌∷◌, ◌++◌, Option, none, some,
  get_elem?, set, length, ◌==◌, arith, take,
}
use akx.Base.Text.{Bytes, codes, decimal}
use akx.Cell.{Cell, CellPtr, SourceRange, null, node, lambda, continuation, nil}
use akx.Cell.Chain.{list_length}
use akx.Nucleus.Lambda.{lambda_invoke_impl, call_body}
use akx.Rt.{
  LambdaContext, Runtime, RtError, Env, Evaluator, M, failed, done, ◌>>=◌, ◌>>◌, pure, fail, asks,
  scoped, lambda_context, set_result, push_scope, pop_scope, rt_error, modify, add_error,
  return_null,
}
use akx.Rt.Invoke.{invoke_lambda, trampoline, call_lambda, after_call}

get-set :
    {A : Type 0} (xs : List A) (i : ℕ) (x y : A)
    → get_elem? xs i ≡ some x
    → get_elem? (set xs i y) i ≡ some y
get-set [] i x y h = grind arith
get-set (z ∷ xs) zero x y h = refl
get-set (z ∷ xs) (suc i) x y h = get-set xs i x y h

abbrev pub is_continuation : Cell → Bool
is_continuation (continuation _ _) = true
is_continuation _ = false

module _ {Ctx : Type 0} (env : Env Ctx) (ev : Evaluator Ctx) where
  -- The state in which the body of the lambda `l` begins: a scope of its own, and no result yet.
  abbrev pub entered : ℕ → Runtime Ctx → Runtime Ctx
  entered l rt = set_result l null (push_scope env rt)

  after_value :
      (again : CellPtr → CellPtr → M Ctx CellPtr) (q : Option SourceRange) (v : Cell) (n : CellPtr)
      → is_continuation v ≡ false
      → after_call env again (node q v n) ≡ pure (node q v n)
  unfolding after_call
  after_value again q (continuation _ _) n h = grind arith
  after_value again q _ n h = refl

  -- If the body gives a value that is no continuation, the call gives this value, in the state
  -- that the body left with the scope of the call closed.
  invoke_lambda_value :
      (fuel : ℕ) (r q : Option SourceRange) (l : ℕ) (next args n : CellPtr) (c c' : LambdaContext)
      (v : Cell) (rt rt1 : Runtime Ctx)
      → lambda_context rt l ≡ some c
      → call_body env ev c args (entered l rt) ≡ done (node q v n) rt1
      → lambda_context rt1 l ≡ some c'
      → is_continuation v ≡ false
      → invoke_lambda env (suc fuel) ev (node r (lambda l) next) args rt
        ≡ done (node q v n) (pop_scope env (set_result l (node q v n) rt1))
  unfolding invoke_lambda trampoline call_lambda after_call lambda_invoke_impl ◌>>=◌ ◌>>◌ asks pure
      scoped
  invoke_lambda_value fuel r q l next args n c c' v rt rt1 is body is' plain =
      rw
        (
          is,
          body,
          is',
          get-set rt1.lambdas l c' (record c' { result = node q v n }) is',
          after_value (trampoline env fuel ev) q v n plain,
        )
        refl

  -- If the body gives a continuation, the next call is made by the same trampoline after the scope
  -- of this call is closed: a tail call opens no scope inside the scope of its caller.
  pub invoke_lambda_tail :
      (fuel : ℕ) (r q r' : Option SourceRange) (l l' : ℕ) (next next' args args' n : CellPtr)
      (c c' : LambdaContext) (rt rt1 : Runtime Ctx)
      → lambda_context rt l ≡ some c
      → call_body env ev c args (entered l rt)
        ≡ done (node q (continuation (node r' (lambda l') next') args') n) rt1
      → lambda_context rt1 l ≡ some c'
      → invoke_lambda env (suc fuel) ev (node r (lambda l) next) args rt
        ≡ invoke_lambda env fuel ev (node r' (lambda l') next') args' (
            pop_scope env
              (set_result l (node q (continuation (node r' (lambda l') next') args') n) rt1))
  unfolding invoke_lambda trampoline call_lambda after_call lambda_invoke_impl ◌>>=◌ ◌>>◌ asks pure
      scoped
  invoke_lambda_tail fuel r q r' l l' next next' args args' n c c' rt rt1 is body is' =
      rw
        (
          is,
          body,
          is',
          get-set rt1.lambdas l c'
              (record c' { result = node q (continuation (node r' (lambda l') next') args') n })
              is',
        )
        refl

  -- If the body fails and no inner call of the lambda left a result, the call does not fail: it
  -- gives the symbol `nil`, with the errors that the body recorded and its scope closed.
  pub invoke_lambda_error :
      (fuel : ℕ) (r : Option SourceRange) (l : ℕ) (next args : CellPtr) (c c' : LambdaContext)
      (rt rt1 : Runtime Ctx)
      → lambda_context rt l ≡ some c
      → call_body env ev c args (entered l rt) ≡ failed rt1
      → lambda_context rt1 l ≡ some c'
      → c'.result ≡ null
      → invoke_lambda env (suc fuel) ev (node r (lambda l) next) args rt
        ≡ done nil (pop_scope env rt1)
  unfolding invoke_lambda trampoline call_lambda after_call lambda_invoke_impl ◌>>=◌ ◌>>◌ asks pure
      scoped
  invoke_lambda_error fuel r l next args c c' rt rt1 is body is' none_left =
      rw (is, body, is', none_left) refl

  abbrev arity_message : LambdaContext → CellPtr → Bytes
  arity_message c args =
      codes "lambda: expected "
      ++ (decimal (length c.param_names)
          ++ (codes " arguments, got " ++ decimal (list_length args)))

  call_body_arity :
      (args : CellPtr) (c : LambdaContext) (rt : Runtime Ctx)
      → (list_length args == length c.param_names) ≡ false
      → call_body env ev c args rt ≡ failed (add_error none (arity_message c args) rt)
  unfolding call_body fail rt_error modify add_error return_null ◌>>=◌ ◌>>◌
  call_body_arity args c rt wrong = rw wrong refl

  -- A call with a wrong number of arguments evaluates neither an argument nor the body: one error
  -- is recorded, a scope is opened and closed, and the value is the symbol `nil`.
  invoke_lambda_arity :
      (fuel : ℕ) (r : Option SourceRange) (l : ℕ) (next args : CellPtr) (c : LambdaContext)
      (rt : Runtime Ctx)
      → lambda_context rt l ≡ some c
      → (list_length args == length c.param_names) ≡ false
      → (e : RtError) × (rt' : Runtime Ctx) × (invoke_lambda env
            (suc fuel)
            ev
            (node r (lambda l) next)
            args
            rt
          ≡ done nil rt')
        × (rt'.errors ≡ rt.errors ++ e ∷ [])
        × (rt'.error_count ≡ rt.error_count + 1)
        × (rt'.current_context ≡ env.pop (env.push rt.current_context))
  unfolding add_error
  invoke_lambda_arity fuel r l next args c rt is wrong = (
    record { location = none; message = take 255 (arity_message c args) },
    pop_scope env (add_error none (arity_message c args) (entered l rt)),
    invoke_lambda_error fuel r l next args c (record c { result = null }) rt
        (add_error none (arity_message c args) (entered l rt)) is
        (call_body_arity args c (entered l rt) wrong)
        (rw is (get-set rt.lambdas l c (record c { result = null }) is)) refl,
    rw is refl,
    rw is refl,
    rw is refl,
  )
