-- ===== src/Tests/Evaluation.antt =====
-- The theorems on evaluation at a small program.
use akx.Base.{ℕ, suc, ◌≡◌, refl, List, [], ◌∷◌, some, length, arith}
use akx.Base.Text.{Bytes, bytes_eq, decimal}
use akx.Base.Int.{wrap, ◌+ℤ◌}
use akx.Cell.Chain.{list_nth, list_length}
use akx.Cell.Clone.{clone}
use akx.Nucleus.Core.{let_impl}
use akx.Nucleus.Lambda.{lambda_impl, lambda_invoke_impl}
use akx.Nucleus.Numbers.{add}
use akx.Rt.Invoke.{invoke_lambda}
use akx.Rt.{asks, ◌>>=◌, new_lambda, pure, scope_set, scoped, eval_and_assert, fail, add_error}
use akx.Cell.{CellPtr}
use akx.Rt.{Runtime, Outcome, plain, final, ◌>>◌, failed, aborted, done, timeout}
use akx.Rt.Args.{eval_script_args}
use akx.Rt.Errors.{Logged, eval-Logged}
use akx.Rt.Eval.{eval}
use akx.Rt.Flags.{eval_tail_flag}
use akx.Rt.Scope.{HasDepth, eval_balanced}
use akx.Tests.{
  Frame, assign_frames, depth_of, Frames, frames_env, pop_in, assign_in, start_runtime, define_f,
  call_f, call_f_wrong,
}

abbrev state_of : Outcome Frames CellPtr → Runtime Frames
state_of timeout = start_runtime
state_of (failed rt) = rt
state_of (aborted rt) = rt
state_of (done p rt) = rt

abbrev defined_state : Runtime Frames
unfolding eval
defined_state = state_of (eval frames_env 6 plain define_f start_runtime)

abbrev called_state : Runtime Frames
unfolding eval
called_state = state_of (eval frames_env 6 plain call_f defined_state)

abbrev wrong_state : Runtime Frames
unfolding eval
wrong_state = state_of (eval frames_env 6 plain call_f_wrong defined_state)

called : final (eval frames_env 6 plain call_f defined_state) ≡ some called_state
unfolding eval bytes_eq asks let_impl list_nth ◌>>=◌ lambda_impl new_lambda pure ◌>>◌ scope_set
    invoke_lambda scoped lambda_invoke_impl list_length clone add eval_and_assert wrap ◌+ℤ◌ fail
    add_error decimal
called = refl

called_wrong : final (eval frames_env 6 plain call_f_wrong defined_state) ≡ some wrong_state
unfolding eval bytes_eq asks let_impl list_nth ◌>>=◌ lambda_impl new_lambda pure ◌>>◌ scope_set
    invoke_lambda scoped lambda_invoke_impl list_length clone add eval_and_assert wrap ◌+ℤ◌ fail
    add_error decimal
called_wrong = refl

depth_of-pop_in : (c : Frames) (n : ℕ) → depth_of c ≡ suc n → depth_of (pop_in c) ≡ n
depth_of-pop_in (frame, []) n h = omega (arith, h)
depth_of-pop_in (frame, next ∷ frames) n h = omega (arith, h)

length-assign_frames :
    (fs : List Frame) (key : Bytes) (value : CellPtr)
    → length (assign_frames fs key value) ≡ length fs
length-assign_frames [] key value = refl
length-assign_frames (frame ∷ fs) key value = ground (arith, length-assign_frames fs key value)

depth_of-assign_in :
    (c : Frames) (key : Bytes) (value : CellPtr) → depth_of (assign_in c key value) ≡ depth_of c
depth_of-assign_in (frame, fs) key value = ground (arith, length-assign_frames fs key value)

pub frames_depth : HasDepth frames_env depth_of
frames_depth = record {
  depth-push = λ c. refl;
  depth-pop = depth_of-pop_in;
  depth-set = λ c key value. refl;
  depth-assign = depth_of-assign_in;
  depth-set_handle = λ c key handle. refl;
}

-- The call with too many arguments closes its scope too.
eval_balanced_example :
    depth_of wrong_state.current_context ≡ depth_of defined_state.current_context
eval_balanced_example =
    eval_balanced frames_depth 6 plain call_f_wrong defined_state wrong_state called_wrong

eval-Logged_example : Logged defined_state wrong_state
eval-Logged_example =
    eval-Logged frames_env 6 plain call_f_wrong defined_state wrong_state called_wrong

eval_tail_flag_example : called_state.in_tail_position ≡ defined_state.in_tail_position
eval_tail_flag_example = eval_tail_flag frames_env 6 plain call_f defined_state called_state called

eval_script_args_example : wrong_state.script_args ≡ defined_state.script_args
eval_script_args_example =
    eval_script_args frames_env 6 plain call_f_wrong defined_state wrong_state called_wrong
