-- ===== src/Rt.antt =====
-- pkg/rt/akx_rt.c: evaluation as a monad over the runtime's state. Every evaluation takes fuel, and
-- `timeout` means that the fuel ran out.
pub mod Within
pub mod Invoke
pub mod Builtins
pub mod Eval
pub mod Scope
pub mod Errors
pub mod Flags
pub mod Args
pub mod Expand
pub mod Registry
pub mod Compiler
pub mod Options
pub use akx.State.{RtError, LambdaContext, Runtime, Env}
use akx.Base.{
  ℕ, ◌+◌, suc, Bool, true, false, List, [], ◌∷◌, ◌++◌, Option, none, some, length, get_elem?, set,
  take, if◌then◌else◌,
}
use akx.Base.Text.{Bytes}
use akx.System.{SysCall, System, SystemState}
use akx.Cell.{Cell, CellPtr, null, node, CellType, type_eq, cell_get_type, sourceloc, SourceRange}

-- How a C function ends: `failed` is the return of NULL, `aborted` the end of the process, or of what
-- is modelled of it.
pub data Outcome (Ctx A : Type 0) : Type 0 where
  timeout : Outcome Ctx A
  failed : Runtime Ctx → Outcome Ctx A
  aborted : Runtime Ctx → Outcome Ctx A
  done : A → Runtime Ctx → Outcome Ctx A

abbrev pub M : Type 0 → Type 0 → Type 0
M Ctx A = Runtime Ctx → Outcome Ctx A

-- Which of `akx_rt_eval` and `akx_rt_eval_tail` is called.
pub data Mode : Type 0 where
  plain in_tail : Mode

abbrev pub Evaluator : Type 0 → Type 0
Evaluator Ctx = Mode → CellPtr → M Ctx CellPtr

-- `sourceloc->start`
abbrev pub start_offset : Option SourceRange → Option ℕ
start_offset none = none
start_offset (some r) = some r.start

module _ {Ctx : Type 0} where
  -- The state in which a run returns, if its fuel lasts and the process does not end before.
  abbrev pub final : {A : Type 0} → Outcome Ctx A → Option (Runtime Ctx)
  final timeout = none
  final (failed rt) = some rt
  final (aborted rt) = none
  final (done a rt) = some rt

  -- `x = m(); if (!x) return NULL; f(x)`
  abbrev pub bind_outcome : {A B : Type 0} → Outcome Ctx A → (A → M Ctx B) → Outcome Ctx B
  bind_outcome timeout f = timeout
  bind_outcome (failed rt) f = failed rt
  bind_outcome (aborted rt) f = aborted rt
  bind_outcome (done a rt) f = f a rt

  infixl 5 ◌>>=◌ ◌>>◌
  unfoldable pub ◌>>=◌ : {A B : Type 0} → M Ctx A → (A → M Ctx B) → M Ctx B
  ◌>>=◌ m f rt = bind_outcome (m rt) f

  unfoldable pub ◌>>◌ : {B : Type 0} → M Ctx (Unit {0}) → M Ctx B → M Ctx B
  unfolding ◌>>=◌
  m >> k = m >>= λ _. k

  -- A call whose NULL is handled by `on_null`.
  abbrev pub handle_outcome :
      {A B : Type 0} → Outcome Ctx A → M Ctx B → (A → M Ctx B) → Outcome Ctx B
  handle_outcome timeout on_null f = timeout
  handle_outcome (failed rt) on_null f = on_null rt
  handle_outcome (aborted rt) on_null f = aborted rt
  handle_outcome (done a rt) on_null f = f a rt

  unfoldable pub handle : {A B : Type 0} → M Ctx A → M Ctx B → (A → M Ctx B) → M Ctx B
  handle m on_null f rt = handle_outcome (m rt) on_null f

  unfoldable pub pure : {A : Type 0} → A → M Ctx A
  pure a rt = done a rt

  unfoldable pub return_null : {A : Type 0} → M Ctx A
  return_null rt = failed rt

  unfoldable pub out_of_fuel : {A : Type 0} → M Ctx A
  out_of_fuel rt = timeout

  -- The return of a pointer that may be NULL.
  unfoldable pub return_ptr : CellPtr → M Ctx CellPtr
  return_ptr null rt = failed rt
  return_ptr (node r c next) rt = done (node r c next) rt

  -- The rest of a computation that reads the state.
  unfoldable pub asks : {A B : Type 0} → (Runtime Ctx → B) → (B → M Ctx A) → M Ctx A
  asks read f rt = f (read rt) rt

  -- A change of the state, with nothing returned.
  unfoldable pub modify : (Runtime Ctx → Runtime Ctx) → M Ctx (Unit {0})
  modify f rt = done tt (f rt)

  -- `putchar`, and `printf` of a text
  unfoldable pub print : Bytes → M Ctx (Unit {0})
  unfolding modify
  print text = modify λ rt. record rt { output = rt.output ++ text }

  -- What a system call answers, with the call kept.
  unfoldable pub with_system : {A : Type 0} → (SystemState → A × SystemState) → M Ctx A
  with_system f rt = done (f rt.system).0 (record rt { system = (f rt.system).1 })

  unfoldable pub sys_call : {A : Type 0} → SysCall → (List SysCall → A) → M Ctx A
  unfolding with_system
  sys_call c answer = with_system λ s. (answer s.calls, record s { calls = c ∷ s.calls })

  -- `raise(SIGABRT)`; the handler of cmd/akx/main.c ends the process.
  unfoldable pub abort : {A : Type 0} → M Ctx A
  abort rt = aborted rt

  -- The error is appended; `snprintf` keeps 255 bytes of the message.
  unfoldable pub add_error : Option ℕ → Bytes → Runtime Ctx → Runtime Ctx
  add_error location message rt = record rt {
    errors = rt.errors ++ (record { location = location; message = take 255 message } ∷ []);
    error_count = rt.error_count + 1;
  }

  -- `akx_rt_error`, `akx_rt_error_fmt`
  unfoldable pub rt_error : Bytes → M Ctx (Unit {0})
  unfolding modify
  rt_error message = modify (add_error none message)

  -- `akx_rt_error_at`
  unfoldable pub rt_error_at : CellPtr → Bytes → M Ctx (Unit {0})
  unfolding modify
  rt_error_at cell message = modify (add_error (start_offset (sourceloc cell)) message)

  -- `akx_rt_error(rt, message); return NULL;`
  unfoldable pub fail : {A : Type 0} → Bytes → M Ctx A
  unfolding rt_error return_null ◌>>◌
  fail message = rt_error message >> return_null

  -- `akx_rt_eval_and_assert`
  unfoldable pub eval_and_assert : Evaluator Ctx → CellPtr → CellType → Bytes → M Ctx CellPtr
  unfolding ◌>>=◌ pure fail
  eval_and_assert ev null expected message = return_null
  eval_and_assert ev (node r c next) expected message = do
    result ← ev plain (node r c next)
    if type_eq (cell_get_type result) expected then pure result else fail message

  -- the captured context of a lambda
  abbrev pub lambda_context : Runtime Ctx → ℕ → Option LambdaContext
  lambda_context rt l = get_elem? rt.lambdas l

  abbrev pub set_result_in : Option LambdaContext → ℕ → CellPtr → Runtime Ctx → Runtime Ctx
  set_result_in none l p rt = rt
  set_result_in (some c) l p rt = record rt { lambdas = set rt.lambdas l (record c { result = p }) }

  -- `lambda_ctx->result = p`
  abbrev pub set_result : ℕ → CellPtr → Runtime Ctx → Runtime Ctx
  set_result l p rt = set_result_in (lambda_context rt l) l p rt

  -- A new captured context; its number is its place in the table.
  unfoldable pub new_lambda : LambdaContext → M Ctx ℕ
  new_lambda c rt = done (length rt.lambdas) (record rt { lambdas = rt.lambdas ++ c ∷ [] })

  abbrev pub enter_module : Option Bytes → Runtime Ctx → Runtime Ctx
  enter_module name rt = record rt { current_module_name = name }

  -- `akx_runtime_set_script_args`
  abbrev pub set_script_args : List Bytes → Runtime Ctx → Runtime Ctx
  set_script_args argv rt = record rt { script_args = argv }

  abbrev pub set_tail : Bool → Runtime Ctx → Runtime Ctx
  set_tail b rt = record rt { in_tail_position = b }

  module _ (env : Env Ctx) where
    -- `akx_rt_push_scope`, `akx_rt_pop_scope`
    abbrev pub push_scope : Runtime Ctx → Runtime Ctx
    push_scope rt = record rt { current_context = env.push rt.current_context }

    abbrev pub pop_scope : Runtime Ctx → Runtime Ctx
    pop_scope rt = record rt { current_context = env.pop rt.current_context }

    -- `akx_rt_scope_set`
    unfoldable pub scope_set : Bytes → CellPtr → M Ctx (Unit {0})
    unfolding modify
    scope_set key value =
        modify λ rt. record rt { current_context = env.set rt.current_context key value }

    -- `akx_rt_scope_set` with a file handle
    unfoldable pub set_handle_at : Bytes → Option ℕ → M Ctx (Unit {0})
    unfolding modify
    set_handle_at key handle =
        modify λ rt. record rt { current_context = env.set_handle rt.current_context key handle }

    -- `akx_rt_scope_get`
    abbrev pub scope_get : Runtime Ctx → Bytes → CellPtr
    scope_get rt key = env.get rt.current_context key

    abbrev pub pop_after : {A : Type 0} → Outcome Ctx A → Outcome Ctx A
    pop_after timeout = timeout
    pop_after (failed rt) = failed (pop_scope rt)
    pop_after (aborted rt) = aborted rt
    pop_after (done a rt) = done a (pop_scope rt)

    -- `akx_rt_push_scope(rt); m; akx_rt_pop_scope(rt);`, where the pop also stands before the
    -- return of NULL.
    unfoldable pub scoped : {A : Type 0} → M Ctx A → M Ctx A
    scoped m rt = pop_after (m (push_scope rt))
