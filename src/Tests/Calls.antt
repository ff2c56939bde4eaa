-- ===== src/Tests/Calls.antt =====
-- The theorems on lambda calls, bindings and loops at concrete cells.
use akx.Base.{
  ap, Bool-cases, inl, inr, ◌≤◌, ◌-◌, ℕ, ◌+◌, ◌≡◌, ◌≢◌, refl, List, [], ◌∷◌, none, some, arith,
  true, false, ltb,
}
use akx.Base.Text.{Bytes, bytes_eq, bytes_eq_iff, codes}
use akx.Base.Int.{wrap, ◌+ℤ◌}
use akx.Cell.{round, CellPtr, null, node, symbol, lambda, alloc_cell, nil, truth}
use akx.Cell.Chain.{list_nth, list_length}
use akx.Cell.Clone.{clone}
use akx.Nucleus.Core.{let_impl, is_one, begin_exprs, loop_rounds}
use akx.Nucleus.Core.Bindings.{HasKeys, let_impl_lem}
use akx.Nucleus.Core.Loops.{Round, stops, goes_on, loop_rounds_total}
use akx.Nucleus.Lambda.{bind_params, call_body}
use akx.Rt.Invoke.{invoke_lambda}
use akx.Rt.Invoke.Rounds.{entered, invoke_lambda_error}
use akx.Rt.{
  Runtime, LambdaContext, Evaluator, plain, Outcome, timeout, failed, aborted, done, lambda_context,
  return_null, rt_error_at, add_error, pop_scope, ◌>>=◌, ◌>>◌, asks, pure, scope_set, scoped,
  eval_and_assert,
}
use akx.Nucleus.Numbers.{add}
use akx.Rt.Eval.Tail.{tail_called, invoke_lambda-tail_call}
use akx.Nucleus.Args.{none_yet}
use akx.Tests.Evaluation.{frames_depth}
use akx.Rt.Eval.{eval}
use akx.Tests.{
  Frame, is_some, or_null, find_in, assign_frames, assign_in, get_in, Frames, frames_env,
  start_runtime, chain, sym, int, call, depth_of,
}

-- Lambda 0 adds 1, lambda 1 tail-calls lambda 0, and lambda 2 uses a name that is not bound.
abbrev adds_one : LambdaContext
adds_one = record {
  param_names = codes "x" ∷ [];
  body = alloc_cell (call (sym (codes "+") ∷ sym (codes "x") ∷ int 1 ∷ []));
  result = null;
}

abbrev calls_f : LambdaContext
calls_f = record {
  param_names = [];
  body = alloc_cell (call (sym (codes "f") ∷ int 5 ∷ []));
  result = null;
}

abbrev names_y : LambdaContext
names_y = record { param_names = []; body = alloc_cell (sym (codes "y")); result = null }

abbrev lambdas_runtime : Runtime Frames
lambdas_runtime = record start_runtime {
  current_context = ((codes "f", alloc_cell (lambda 0)) ∷ [], []);
  lambdas = adds_one ∷ calls_f ∷ names_y ∷ [];
}

abbrev ev : Evaluator Frames
unfolding eval
ev = eval frames_env 5

abbrev state_of : Outcome Frames CellPtr → Runtime Frames
state_of timeout = start_runtime
state_of (failed rt) = rt
state_of (aborted rt) = rt
state_of (done p rt) = rt

abbrev stopped : Runtime Frames
unfolding call_body
stopped = state_of (call_body frames_env ev names_y null (entered frames_env ev 2 lambdas_runtime))

body_fails :
    call_body frames_env ev names_y null (entered frames_env ev 2 lambdas_runtime) ≡ failed stopped
unfolding call_body eval bytes_eq asks list_nth ◌>>=◌ pure ◌>>◌ scope_set list_length clone add
    eval_and_assert wrap ◌+ℤ◌ rt_error_at add_error return_null
body_fails = refl

has_names_y : lambda_context stopped 2 ≡ some names_y
unfolding call_body eval bytes_eq asks list_nth ◌>>=◌ pure ◌>>◌ scope_set list_length clone add
    eval_and_assert wrap ◌+ℤ◌ rt_error_at add_error return_null
has_names_y = refl

abbrev after_call_1 : Runtime Frames
after_call_1 =
    tail_called frames_env 1 (alloc_cell (lambda 0)) (chain (int 5 ∷ []))
      (entered frames_env ev 1 lambdas_runtime)

-- The second lambda calls the first one in tail position.
invoke_lambda-tail_call_example :
    (invoke_lambda frames_env 3 ev (alloc_cell (lambda 1)) null lambdas_runtime
      ≡ invoke_lambda frames_env 2 ev (alloc_cell (lambda 0)) (chain (int 5 ∷ [])) after_call_1)
    × (after_call_1.current_context ≡ lambdas_runtime.current_context)
    × (depth_of after_call_1.current_context ≡ depth_of lambdas_runtime.current_context)
unfolding bind_params pure list_length bytes_eq ev eval
invoke_lambda-tail_call_example =
    invoke_lambda-tail_call frames_env frames_depth 2 4 none none none none round (codes "f") 1 0
      null null null (chain (int 5 ∷ [])) calls_f calls_f [] lambdas_runtime
      (entered frames_env ev 1 lambdas_runtime) (entered frames_env ev 1 lambdas_runtime) refl refl
      refl none_yet refl refl refl

invoke_lambda_error_example :
    invoke_lambda frames_env 3 ev (alloc_cell (lambda 2)) null lambdas_runtime
    ≡ done nil (pop_scope frames_env stopped)
invoke_lambda_error_example =
    invoke_lambda_error frames_env ev 2 none 2 null null names_y names_y lambdas_runtime stopped
      refl body_fails has_names_y refl

bytes_eq_self : (k : Bytes) → bytes_eq k k ≡ true
bytes_eq_self k = (bytes_eq_iff k k).1 refl

find-assign_frames :
    (fs : List Frame) (key : Bytes) (value : CellPtr)
    → is_some (find_in fs key) ≡ true
    → or_null (find_in (assign_frames fs key value) key) ≡ value
find-assign_frames [] key value h = grind arith
find-assign_frames (frame ∷ fs) key value h =
    ground (arith, find-assign_frames fs key value, bytes_eq_self key)

get-assign_in :
    (c : Frames) (key : Bytes) (value : CellPtr)
    → frames_env.has c key ≡ true
    → get_in (assign_in c key value) key ≡ value
get-assign_in (frame, fs) key value h =
    ground (arith, find-assign_frames fs key value, bytes_eq_self key)

bytes_eq_other : (key other : Bytes) → other ≢ key → bytes_eq key other ≡ false
bytes_eq_other key other ne = elim (Bool-cases (bytes_eq key other)) [
  | inl same ↦ absurd (ne (rw ((bytes_eq_iff key other).0 same) refl))
  | inr differ ↦ differ
]

frames_keys : HasKeys frames_env
frames_keys = record {
  get-set = λ c key value. rw (bytes_eq_self key) refl;
  get-set_other = λ c key other value ne. rw (bytes_eq_other key other ne) refl;
  has_local-set = λ c key value. rw (bytes_eq_self key) refl;
  get-assign = get-assign_in;
}

abbrev name_a : Bytes
name_a = codes "a"

-- (let a 3), and (set f 4)
abbrev let_args : CellPtr
let_args = chain (sym name_a ∷ int 3 ∷ [])

second_arg : list_nth let_args 1 ≡ alloc_cell (int 3)
unfolding list_nth
second_arg = refl

first_arg : list_nth let_args 0 ≡ node none (symbol name_a) (alloc_cell (int 3))
unfolding list_nth
first_arg = refl

three : ev plain (alloc_cell (int 3)) lambdas_runtime ≡ done (alloc_cell (int 3)) lambdas_runtime
unfolding eval pure clone
three = refl

abbrev first_byte : Bytes → ℕ
first_byte [] = 0
first_byte (c ∷ cs) = c

not_f : name_a ≢ codes "f"
not_f e = let same : 97 ≡ 102 = ap first_byte e in absurd (omega (arith, same))

is_fresh : frames_env.has_local lambdas_runtime.current_context name_a ≡ false
unfolding bytes_eq
is_fresh = refl

let_impl_lem_example :
    (rt2 : Runtime Frames) × (let_impl frames_env ev let_args lambdas_runtime
      ≡ done (alloc_cell (int 3)) rt2)
    × (eval frames_env 1 plain (node none (symbol name_a) (alloc_cell (int 3))) rt2
        ≡ done (alloc_cell (int 3)) rt2)
    × (get_in rt2.current_context (codes "f") ≡ get_in lambdas_runtime.current_context (codes "f"))
    × ((rt3 : Runtime Frames) × (let_impl frames_env ev let_args rt2 ≡ failed rt3))
let_impl_lem_example =
    let_impl_lem frames_keys ev 0 let_args null none none none name_a (codes "f") (int 3) (int 3)
      null (alloc_cell (int 3)) null lambdas_runtime lambdas_runtime first_arg second_arg is_fresh
      three (λ e. not_f (rw e refl))

-- A symbol asks whether the error count is below three, and everything else raises it.
abbrev counter : Evaluator Frames
counter mode (node _ (symbol _) _) rt = done (truth (ltb rt.error_count 3)) rt
counter mode _ rt = done nil (record rt { error_count = rt.error_count + 1 })

abbrev BelowFour : Runtime Frames → Type 0
BelowFour rt = rt.error_count ≤ 3

abbrev left_to_three : Runtime Frames → ℕ
left_to_three rt = 3 - rt.error_count

abbrev question : CellPtr
question = alloc_cell (sym (codes "c"))

abbrev raise : CellPtr
raise = alloc_cell (int 0)

each-Round :
    (last : CellPtr) (rt : Runtime Frames)
    → BelowFour rt
    → Round frames_env counter BelowFour left_to_three question raise last rt
unfolding is_one begin_exprs scoped ◌>>=◌ pure
each-Round last rt h = elim (Bool-cases (ltb rt.error_count 3)) [
  | inl low ↦
      goes_on (truth true) nil rt (record rt { error_count = rt.error_count + 1 }) (rw low refl)
        refl refl (ground arith) (ground arith)
  | inr high ↦ stops (truth false) rt (rw high refl) refl h
]

loop_rounds_total_example :
    (p v : CellPtr) × (rt0 rt' : Runtime Frames) × (loop_rounds frames_env 9 counter question raise
        null start_runtime
      ≡ done p rt')
    × BelowFour rt'
    × (counter plain question rt0 ≡ done v rt')
    × (is_one v ≡ false)
loop_rounds_total_example =
    loop_rounds_total frames_env counter BelowFour left_to_three question raise each-Round 9 null
      start_runtime (omega arith) (omega arith)
