-- ===== src/Rt/Eval/Runs.antt =====
-- Evaluation keeps what each step keeps, and does not depend on the fuel: every part of the switch,
-- then the evaluators by induction on the fuel.
use akx.Base.{ℕ, zero, suc, ◌≤◌, true, Option, none, some, arith}
use akx.Base.Text.{Bytes}
use akx.Cell.{
  CellPtr, null, node, symbol, string_literal, integer_literal, real_literal, list, quoted, lambda,
  continuation,
}
use akx.Rt.Builtins.Runs.{run_builtin-Runs}
use akx.Rt.Eval.{
  leave_module, in_module, eval_symbol, call_stored, call_named, not_a_call, call_value,
  eval_list_cell, eval_cell, alloc_continuation, restore_tail, tail_position, eval_step, eval,
}
use akx.Rt.Invoke.Runs.{invoke_lambda-Runs}
use akx.Rt.{Runtime, Env, Outcome, M, Evaluator, Mode, plain, in_tail, set_tail, enter_module}
use akx.State.{Builtin}
use akx.Rt.Within.{
  IsKept, Within, ran_out, fails, aborts, ends, Runs, Agrees, Within-after, Runs-pure, Runs-null,
  Runs-fuel, Runs-ptr, Runs-then, Runs-handle, Runs-asks, Runs-error_at, Runs-fail,
}

module _ {Ctx : Type 0} {env : Env Ctx} {R : Runtime Ctx → Runtime Ctx → Type 0}
    (kept : IsKept env R) where
  leave-Within :
      (rt : Runtime Ctx) {o o' : Outcome Ctx CellPtr}
      → Within R rt o o'
      → Within R rt (leave_module env o) (leave_module env o')
  unfolding leave_module
  leave-Within rt ran_out = ran_out
  leave-Within rt (fails {rt'} h) = fails (kept.after rt rt' _ h (kept.on_module none rt'))
  leave-Within rt aborts = aborts
  leave-Within rt (ends {rt'} h) = ends (kept.after rt rt' _ h (kept.on_module none rt'))

  in_module-Runs :
      (name : Bytes) {m m' : M Ctx CellPtr}
      → Runs R m m'
      → Runs R (in_module env name m) (in_module env name m')
  unfolding in_module
  in_module-Runs name h = record {
    run = λ rt.
        Within-after kept rt (enter_module (some name) rt) (kept.on_module (some name) rt)
          (leave-Within _ (h.run (enter_module (some name) rt)));
  }

  restore-Within :
      (rt : Runtime Ctx) {o o' : Outcome Ctx CellPtr}
      → Within R (set_tail true rt) o o'
      → Within R rt
          (restore_tail env rt.in_tail_position o)
          (restore_tail env rt.in_tail_position o')
  unfolding restore_tail
  restore-Within rt ran_out = ran_out
  restore-Within rt (fails {rt'} h) = fails (kept.on_tail rt rt' h)
  restore-Within rt aborts = aborts
  restore-Within rt (ends {rt'} h) = ends (kept.on_tail rt rt' h)

  tail_position-Runs :
      {m m' : M Ctx CellPtr} → Runs R m m' → Runs R (tail_position env m) (tail_position env m')
  unfolding tail_position
  tail_position-Runs h = record { run = λ rt. restore-Within rt (h.run (set_tail true rt)) }

  eval_symbol-Runs :
      (expr : CellPtr) (name : Bytes) (stored : CellPtr)
      → Runs R (eval_symbol env expr name stored) (eval_symbol env expr name stored)
  unfolding eval_symbol
  eval_symbol-Runs expr name null = Runs-then kept (Runs-error_at kept _ _) (Runs-null kept)
  eval_symbol-Runs expr name (node r (lambda l) next) = Runs-pure kept _
  eval_symbol-Runs expr name _ = Runs-pure kept _

  module _ (f g : ℕ) (le : f ≤ g) (ev ev' : Evaluator Ctx) (same : Agrees R ev ev') where
    module _ (call call' : CellPtr → CellPtr → M Ctx CellPtr)
        (calls : (l args : CellPtr) → Runs R (call l args) (call' l args)) where
      call_stored-Runs :
          (head : CellPtr) (name : Bytes) (args stored : CellPtr)
          → Runs R
              (call_stored env call head name args stored)
              (call_stored env call' head name args stored)
      unfolding call_stored
      call_stored-Runs head name args (node r (lambda l) next) = calls _ args
      call_stored-Runs head name args _ = Runs-then kept (Runs-error_at kept _ _) (Runs-null kept)

      call_named-Runs :
          (head : CellPtr) (name : Bytes) (args : CellPtr) (b : Option Builtin)
          → Runs R
              (call_named env f ev call head name args b)
              (call_named env g ev' call' head name args b)
      unfolding call_named
      call_named-Runs head name args (some b) =
          in_module-Runs name (run_builtin-Runs kept f g le ev ev' same b args)
      call_named-Runs head name args none = Runs-asks kept _ (call_stored-Runs head name args)

      not_a_call-Runs :
          (expr : CellPtr)
          → Runs R (not_a_call env f ev call expr) (not_a_call env g ev' call' expr)
      unfolding not_a_call
      not_a_call-Runs expr = Runs-then kept (Runs-error_at kept _ _) (Runs-null kept)

      call_value-Runs :
          (expr args value : CellPtr)
          → Runs R
              (call_value env f ev call expr args value)
              (call_value env g ev' call' expr args value)
      unfolding call_value
      call_value-Runs expr args (node r (lambda l) next) = calls _ args
      call_value-Runs expr args _ = not_a_call-Runs expr

      eval_list_cell-Runs :
          (expr head : CellPtr)
          → Runs R
              (eval_list_cell env f ev call expr head)
              (eval_list_cell env g ev' call' expr head)
      unfolding eval_list_cell
      eval_list_cell-Runs expr null = Runs-pure kept _
      eval_list_cell-Runs expr (node r (symbol name) args) =
          call_named-Runs _ name args (env.builtin name)
      eval_list_cell-Runs expr (node r c args) =
          Runs-handle kept (same.agree plain _) (not_a_call-Runs expr) (call_value-Runs expr args)

      eval_cell-Runs :
          (expr : CellPtr) → Runs R (eval_cell env f ev call expr) (eval_cell env g ev' call' expr)
      unfolding eval_cell
      eval_cell-Runs null = Runs-null kept
      eval_cell-Runs (node r (integer_literal i) next) = Runs-pure kept _
      eval_cell-Runs (node r (real_literal x) next) = Runs-pure kept _
      eval_cell-Runs (node r (string_literal s) next) = Runs-pure kept _
      eval_cell-Runs (node r (symbol name) next) = Runs-asks kept _ (eval_symbol-Runs _ name)
      eval_cell-Runs (node r (list k head) next) = eval_list_cell-Runs _ head
      eval_cell-Runs (node r (quoted text) next) = Runs-ptr kept _
      eval_cell-Runs (node r (lambda l) next) = Runs-fail kept _
      eval_cell-Runs (node r (continuation l args) next) = Runs-fail kept _

    alloc_continuation-Runs :
        (l args : CellPtr) → Runs R (alloc_continuation env l args) (alloc_continuation env l args)
    unfolding alloc_continuation
    alloc_continuation-Runs l args = Runs-pure kept _

    eval_step-Runs :
        (mode : Mode) (expr : CellPtr)
        → Runs R (eval_step env f ev mode expr) (eval_step env g ev' mode expr)
    unfolding eval_step
    eval_step-Runs plain expr = eval_cell-Runs _ _ (invoke_lambda-Runs kept ev ev' same f g le) expr
    eval_step-Runs in_tail null = Runs-null kept
    eval_step-Runs in_tail (node r c next) =
        tail_position-Runs (eval_cell-Runs _ _ alloc_continuation-Runs (node r c next))

  pub eval-Agrees : (f g : ℕ) → f ≤ g → Agrees R (eval env f) (eval env g)
  unfolding eval
  eval-Agrees zero g le = record { agree = λ mode expr. Runs-fuel kept _ }
  eval-Agrees (suc f) zero le = absurd (omega arith)
  eval-Agrees (suc f) (suc g) le = record {
    agree =
        eval_step-Runs f g (omega arith) (eval env f) (eval env g) (eval-Agrees f g (omega arith));
  }
