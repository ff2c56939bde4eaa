-- ===== src/Rt/Within.antt =====
-- What a run may do to the state, and that more fuel does not change how it ends: one relation
-- with a rule for each way in which the runtime composes computations.
use akx.Base.{
  List, [], ◌∷◌, ◌++◌, set, ℕ, ◌≡◌, refl, Bool, true, false, Option, none, some, if◌then◌else◌,
}
use mathlib.Core.Path.{subst}
use akx.Base.Text.{Bytes}
use akx.Cell.{CellPtr, null, node, CellType, type_eq, cell_get_type}
use akx.System.{SysCall, SystemState}
use akx.Rt.{
  LambdaContext, Runtime, Env, final, Outcome, timeout, failed, aborted, done, with_system,
  sys_call, abort, set_handle_at, set_script_args, M, Evaluator, Mode, plain, ◌>>=◌, ◌>>◌, handle,
  pure, return_null, out_of_fuel, return_ptr, asks, modify, add_error, print, rt_error,
  bind_outcome, handle_outcome, pop_after, rt_error_at, fail, eval_and_assert, lambda_context,
  new_lambda, enter_module, set_tail, push_scope, pop_scope, scope_set, scoped,
}

module _ {Ctx : Type 0} where
  -- `R` relates the state before a step to the state after it, for each step that the runtime
  -- makes, and for a scope that is opened and closed again.
  pub record IsKept (env : Env Ctx) (R : Runtime Ctx → Runtime Ctx → Type 0) : Type 0 where
    pub here : (rt : Runtime Ctx) → R rt rt
    pub after : (a b c : Runtime Ctx) → R a b → R b c → R a c
    pub on_error :
        (location : Option ℕ) (message : Bytes) (rt : Runtime Ctx)
        → R rt (add_error location message rt)
    pub on_module : (name : Option Bytes) (rt : Runtime Ctx) → R rt (enter_module name rt)
    pub on_tail :
        (rt rt' : Runtime Ctx) → R (set_tail true rt) rt' → R rt (set_tail rt.in_tail_position rt')
    pub on_scope : (rt rt' : Runtime Ctx) → R (push_scope env rt) rt' → R rt (pop_scope env rt')
    pub on_set :
        (key : Bytes) (value : CellPtr) (rt : Runtime Ctx)
        → R rt (record rt { current_context = env.set rt.current_context key value })
    pub on_assign :
        (key : Bytes) (value : CellPtr) (rt : Runtime Ctx)
        → R rt (record rt { current_context = env.assign rt.current_context key value })
    pub on_new :
        (c : LambdaContext) (rt : Runtime Ctx) → R rt (record rt { lambdas = rt.lambdas ++ c ∷ [] })
    pub on_free :
        (contexts : List LambdaContext) (rt : Runtime Ctx) → R rt (record rt { lambdas = contexts })
    pub on_print :
        (text : Bytes) (rt : Runtime Ctx) → R rt (record rt { output = rt.output ++ text })
    pub on_handle :
        (key : Bytes) (handle : Option ℕ) (rt : Runtime Ctx)
        → R rt (record rt { current_context = env.set_handle rt.current_context key handle })
    pub on_system : (s : SystemState) (rt : Runtime Ctx) → R rt (record rt { system = s })
    pub on_args :
        (argv : List Bytes) (rt rt' : Runtime Ctx)
        → R (set_script_args argv rt) rt'
        → R rt (set_script_args rt.script_args rt')
    pub on_result :
        (l : ℕ) (p : CellPtr) (c : LambdaContext) (rt : Runtime Ctx)
        → lambda_context rt l ≡ some c
        → R rt (record rt { lambdas = set rt.lambdas l (record c { result = p }) })

  -- The second outcome is the first one, unless the first ran out of fuel; and the state that it
  -- returns in is related to `rt`.
  pub data Within (R : Runtime Ctx → Runtime Ctx → Type 0) (rt : Runtime Ctx) {A : Type 0}
      : Outcome Ctx A → Outcome Ctx A → Type 0 where
    ran_out : {o : Outcome Ctx A} → Within R rt timeout o
    fails : {rt' : Runtime Ctx} → R rt rt' → Within R rt (failed rt') (failed rt')
    aborts : {rt' : Runtime Ctx} → Within R rt (aborted rt') (aborted rt')
    ends : {a : A} {rt' : Runtime Ctx} → R rt rt' → Within R rt (done a rt') (done a rt')

  -- From every state the second computation ends as the first one, within `R`.
  pub record Runs (R : Runtime Ctx → Runtime Ctx → Type 0) {A : Type 0} (m m' : M Ctx A)
      : Type 0 where
    pub run : (rt : Runtime Ctx) → Within R rt (m rt) (m' rt)

  -- The same of two evaluators.
  pub record Agrees (R : Runtime Ctx → Runtime Ctx → Type 0) (ev ev' : Evaluator Ctx) : Type 0 where
    pub agree : (mode : Mode) (expr : CellPtr) → Runs R (ev mode expr) (ev' mode expr)

module _ {Ctx : Type 0} {env : Env Ctx} {R : Runtime Ctx → Runtime Ctx → Type 0}
    (kept : IsKept env R) where
  pub Within-after :
      {A : Type 0} (rt rt' : Runtime Ctx) {o o' : Outcome Ctx A}
      → R rt rt'
      → Within R rt' o o'
      → Within R rt o o'
  Within-after rt rt' r ran_out = ran_out
  Within-after rt rt' r (fails {rt' = s} h) = fails (kept.after rt rt' s r h)
  Within-after rt rt' r aborts = aborts
  Within-after rt rt' r (ends {rt' = s} h) = ends (kept.after rt rt' s r h)

  pub Runs-pure : {A : Type 0} (a : A) → Runs R (pure a) (pure a)
  unfolding pure
  Runs-pure a = record { run = λ rt. ends (kept.here rt) }

  pub Runs-null : {A : Type 0} → Runs R {A = A} return_null return_null
  unfolding return_null
  Runs-null = record { run = λ rt. fails (kept.here rt) }

  pub Runs-fuel : {A : Type 0} (m : M Ctx A) → Runs R out_of_fuel m
  unfolding out_of_fuel
  Runs-fuel m = record { run = λ rt. ran_out }

  pub Runs-ptr : (p : CellPtr) → Runs R (return_ptr p) (return_ptr p)
  unfolding return_ptr
  Runs-ptr null = record { run = λ rt. fails (kept.here rt) }
  Runs-ptr (node _ _ _) = record { run = λ rt. ends (kept.here rt) }

  bind-Within :
      {A B : Type 0} (rt : Runtime Ctx) {o o' : Outcome Ctx A} (f f' : A → M Ctx B)
      → Within R rt o o'
      → ((a : A) → Runs R (f a) (f' a))
      → Within R rt (bind_outcome o f) (bind_outcome o' f')
  bind-Within rt f f' ran_out k = ran_out
  bind-Within rt f f' (fails h) k = fails h
  bind-Within rt f f' aborts k = aborts
  bind-Within rt f f' (ends {a} {rt'} h) k = Within-after rt rt' h ((k a).run rt')

  pub Runs-bind :
      {A B : Type 0} {m m' : M Ctx A} {f f' : A → M Ctx B}
      → Runs R m m'
      → ((a : A) → Runs R (f a) (f' a))
      → Runs R (m >>= f) (m' >>= f')
  unfolding ◌>>=◌
  Runs-bind {f} {f'} h k = record { run = λ rt. bind-Within rt f f' (h.run rt) k }

  pub Runs-then :
      {B : Type 0} {m m' : M Ctx (Unit {0})} {f f' : M Ctx B}
      → Runs R m m'
      → Runs R f f'
      → Runs R (m >> f) (m' >> f')
  unfolding ◌>>◌
  Runs-then {f} {f'} h k = record {
    run = λ rt. bind-Within rt (λ _. f) (λ _. f') (h.run rt) (λ _. k);
  }

  handle-Within :
      {A B : Type 0} (rt : Runtime Ctx) {o o' : Outcome Ctx A} (n n' : M Ctx B) (f f' : A → M Ctx B)
      → Within R rt o o'
      → Runs R n n'
      → ((a : A) → Runs R (f a) (f' a))
      → Within R rt (handle_outcome o n f) (handle_outcome o' n' f')
  handle-Within rt n n' f f' ran_out z k = ran_out
  handle-Within rt n n' f f' (fails {rt'} h) z k = Within-after rt rt' h (z.run rt')
  handle-Within rt n n' f f' aborts z k = aborts
  handle-Within rt n n' f f' (ends {a} {rt'} h) z k = Within-after rt rt' h ((k a).run rt')

  pub Runs-handle :
      {A B : Type 0} {m m' : M Ctx A} {n n' : M Ctx B} {f f' : A → M Ctx B}
      → Runs R m m'
      → Runs R n n'
      → ((a : A) → Runs R (f a) (f' a))
      → Runs R (handle m n f) (handle m' n' f')
  unfolding handle
  Runs-handle {n} {n'} {f} {f'} h z k = record {
    run = λ rt. handle-Within rt n n' f f' (h.run rt) z k;
  }

  pub Runs-asks :
      {A B : Type 0} (read : Runtime Ctx → B) {f f' : B → M Ctx A}
      → ((b : B) → Runs R (f b) (f' b))
      → Runs R (asks read f) (asks read f')
  unfolding asks
  Runs-asks read k = record { run = λ rt. (k (read rt)).run rt }

  pub Runs-if :
      {A : Type 0} (b : Bool) {m m' n n' : M Ctx A}
      → Runs R m m'
      → Runs R n n'
      → Runs R (if b then m else n) (if b then m' else n')
  Runs-if true h k = h
  Runs-if false h k = k

  pub Runs-modify :
      (f : Runtime Ctx → Runtime Ctx)
      → ((rt : Runtime Ctx) → R rt (f rt))
      → Runs R (modify f) (modify f)
  unfolding modify
  Runs-modify f h = record { run = λ rt. ends (h rt) }

  pub Runs-print : (text : Bytes) → Runs R (print text) (print text)
  unfolding print
  Runs-print text = record { run = λ rt. ends (kept.on_print text rt) }

  pub Runs-system :
      {A : Type 0} (f : SystemState → A × SystemState) → Runs R (with_system f) (with_system f)
  unfolding with_system
  Runs-system f = record { run = λ rt. ends (kept.on_system (f rt.system).1 rt) }

  pub Runs-call :
      {A : Type 0} (c : SysCall) (answer : List SysCall → A)
      → Runs R (sys_call c answer) (sys_call c answer)
  unfolding sys_call
  Runs-call c answer = Runs-system _

  pub Runs-abort : {A : Type 0} → Runs R {A = A} abort abort
  unfolding abort
  Runs-abort = record { run = λ rt. aborts }

  pub Runs-set_handle :
      (key : Bytes) (handle : Option ℕ)
      → Runs R (set_handle_at env key handle) (set_handle_at env key handle)
  unfolding set_handle_at
  Runs-set_handle key handle = record { run = λ rt. ends (kept.on_handle key handle rt) }

  pub Runs-error : (message : Bytes) → Runs R (rt_error message) (rt_error message)
  unfolding rt_error
  Runs-error message = record { run = λ rt. ends (kept.on_error none message rt) }

  pub Runs-error_at :
      (cell : CellPtr) (message : Bytes)
      → Runs R (rt_error_at cell message) (rt_error_at cell message)
  unfolding rt_error_at
  Runs-error_at cell message = record { run = λ rt. ends (kept.on_error _ message rt) }

  pub Runs-fail : {A : Type 0} (message : Bytes) → Runs R {A = A} (fail message) (fail message)
  unfolding fail
  Runs-fail message = record { run = λ rt. fails (kept.on_error none message rt) }

  pub Runs-new_lambda : (c : LambdaContext) → Runs R (new_lambda c) (new_lambda c)
  unfolding new_lambda
  Runs-new_lambda c = record { run = λ rt. ends (kept.on_new c rt) }

  pub Runs-scope_set :
      (key : Bytes) (value : CellPtr) → Runs R (scope_set env key value) (scope_set env key value)
  unfolding scope_set
  Runs-scope_set key value = record { run = λ rt. ends (kept.on_set key value rt) }

  scoped-Within :
      {A : Type 0} (rt : Runtime Ctx) {o o' : Outcome Ctx A}
      → Within R (push_scope env rt) o o'
      → Within R rt (pop_after env o) (pop_after env o')
  scoped-Within rt ran_out = ran_out
  scoped-Within rt (fails {rt'} h) = fails (kept.on_scope rt rt' h)
  scoped-Within rt aborts = aborts
  scoped-Within rt (ends {rt'} h) = ends (kept.on_scope rt rt' h)

  pub Runs-scoped :
      {A : Type 0} {m m' : M Ctx A} → Runs R m m' → Runs R (scoped env m) (scoped env m')
  unfolding scoped
  Runs-scoped h = record { run = λ rt. scoped-Within rt (h.run (push_scope env rt)) }

  -- The nuclei and the evaluator are built from these.
  pub Runs-assert :
      {ev ev' : Evaluator Ctx} (expr : CellPtr) (expected : CellType) (message : Bytes)
      → Agrees R ev ev'
      → Runs R
          (eval_and_assert ev expr expected message)
          (eval_and_assert ev' expr expected message)
  unfolding eval_and_assert
  Runs-assert null expected message h = Runs-null
  Runs-assert (node r c next) expected message h =
      Runs-bind (h.agree plain (node r c next)) λ result.
        Runs-if (type_eq (cell_get_type result) expected) (Runs-pure result) (Runs-fail message)

-- Where the first run ends, it ends within `R`, and the second one ends in the same way.
pub Within-final :
    {Ctx A : Type 0} {R : Runtime Ctx → Runtime Ctx → Type 0} {rt rt' : Runtime Ctx}
    {o o' : Outcome Ctx A}
    → Within R rt o o'
    → final o ≡ some rt'
    → R rt rt' × (o' ≡ o)
Within-final ran_out e = cc
Within-final aborts e = cc
Within-final {R} {rt} (fails h) e = (subst (R rt) (cc) h, refl)
Within-final {R} {rt} (ends h) e = (subst (R rt) (cc) h, refl)
