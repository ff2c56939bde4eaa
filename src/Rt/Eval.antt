-- ===== src/Rt/Eval.antt =====
-- `akx_rt_eval`, `akx_rt_eval_tail`, `akx_runtime_start` and `akx_rt_eval_list` of pkg/rt/akx_rt.c.
-- The two evaluators have one switch, and differ in what a call of a lambda does and in the tail
-- flag. Each call of an evaluator from a nucleus has one unit of fuel less.
pub mod Kinds
pub mod Results
pub mod Truths
pub mod Typed
pub mod Runs
pub mod Start
pub mod Tail
use akx.Base.{
  ℕ, zero, suc, List, [], ◌∷◌, Bool, true, false, Option, none, some, ◌++◌, if◌then◌else◌,
}
use akx.Base.Text.{Bytes, codes}
use akx.Cell.{
  CellPtr, null, node, Cell, symbol, string_literal, integer_literal, real_literal, list, quoted,
  lambda, continuation, cell_get_type, is_null, alloc_cell, nil,
}
use akx.Cell.Clone.{clone}
use akx.Nucleus.Compare.{eq_impl, neq_impl, lt_impl, lte_impl, gt_impl, gte_impl}
use akx.Nucleus.Core.{if_impl, let_impl, set_impl, begin_impl, loop_impl, defined_impl}
use akx.Nucleus.Iter.{iter_impl}
use akx.Nucleus.Lambda.{lambda_impl}
use akx.Nucleus.Putf.{putf_impl}
use akx.Nucleus.Lists.{cons_impl, car_impl, cdr_impl}
use akx.Nucleus.Logic.{and_impl, or_impl, not_impl}
use akx.Nucleus.Numbers.{add, sub, mul, akx_div, akx_mod, akx_eq}
use akx.Nucleus.Strings.{str_concat_impl}
use akx.Nucleus.Strings.Split.{str_split_impl}
use akx.Nucleus.Types.{
  is_nil_impl, is_int_impl, is_real_impl, is_lambda_impl, is_str_impl, is_quote_impl, is_sym_impl,
}
use akx.Rt.Builtins.{run_builtin}
use akx.Rt.Invoke.{invoke_lambda}
use akx.Nucleus.Reals.{
  real_add, real_sub, real_mul, real_div, real_mod, real_eq_impl, real_neq_impl, real_lt_impl,
  real_lte_impl, real_gt_impl, real_gte_impl, real_and_impl, real_or_impl, real_not_impl,
}
use akx.Rt.{
  Runtime, Env, Outcome, timeout, failed, aborted, done, M, Evaluator, Mode, plain, in_tail, ◌>>=◌,
  ◌>>◌, handle, pure, return_null, return_ptr, rt_error, rt_error_at, fail, asks, out_of_fuel,
  modify, enter_module, set_tail, scope_get,
}
use akx.State.{
  real_add_nucleus, real_sub_nucleus, real_mul_nucleus, real_div_nucleus, real_mod_nucleus,
  real_eq_nucleus, real_neq_nucleus, real_lt_nucleus, real_lte_nucleus, real_gt_nucleus,
  real_gte_nucleus, real_and_nucleus, real_or_nucleus, real_not_nucleus, Builtin, if_nucleus,
  let_nucleus, set_nucleus, begin_nucleus, loop_nucleus, lambda_nucleus, defined_nucleus,
  cons_nucleus, car_nucleus, cdr_nucleus, add_nucleus, sub_nucleus, mul_nucleus, div_nucleus,
  mod_nucleus, math_eq_nucleus, eq_nucleus, neq_nucleus, lt_nucleus, lte_nucleus, gt_nucleus,
  gte_nucleus, and_nucleus, or_nucleus, not_nucleus, is_nil_nucleus, is_int_nucleus,
  is_real_nucleus, is_lambda_nucleus, is_str_nucleus, is_quote_nucleus, is_sym_nucleus,
  concat_nucleus, split_nucleus, iter_nucleus, putf_nucleus,
}

module _ {Ctx : Type 0} (env : Env Ctx) where
  leave_module : Outcome Ctx CellPtr → Outcome Ctx CellPtr
  leave_module timeout = timeout
  leave_module (failed rt) = failed (enter_module none rt)
  leave_module (aborted rt) = aborted rt
  leave_module (done p rt) = done p (enter_module none rt)

  -- The current module name is set for the call, and then cleared.
  unfoldable pub in_module : Bytes → M Ctx CellPtr → M Ctx CellPtr
  unfolding leave_module
  in_module name m rt = leave_module (m (enter_module (some name) rt))

  -- A stored lambda is returned itself, any other value as a clone.
  unfoldable pub eval_symbol : CellPtr → Bytes → CellPtr → M Ctx CellPtr
  eval_symbol expr name null = rt_error_at expr (codes "undefined symbol: " ++ name) >> return_null
  eval_symbol expr name (node r (lambda l) next) = pure (node r (lambda l) next)
  eval_symbol expr name stored = pure (clone stored)

  -- What the first cell of a list names, if it is no builtin.
  call_stored :
      (CellPtr → CellPtr → M Ctx CellPtr) → CellPtr → Bytes → CellPtr → CellPtr → M Ctx CellPtr
  call_stored call head name args (node r (lambda l) next) = call (node r (lambda l) next) args
  call_stored call head name args _ =
      rt_error_at head (codes "undefined function: " ++ name) >> return_null

  module _ (fuel : ℕ) (ev : Evaluator Ctx) (call : CellPtr → CellPtr → M Ctx CellPtr) where
    call_named : CellPtr → Bytes → CellPtr → Option Builtin → M Ctx CellPtr
    call_named head name args (some b) = in_module name (run_builtin env fuel ev b args)
    call_named head name args none =
        asks (λ rt. scope_get env rt name) (call_stored call head name args)

    not_a_call : CellPtr → M Ctx CellPtr
    not_a_call expr =
        rt_error_at expr (codes "cannot evaluate list - not a function call") >> return_null

    call_value : CellPtr → CellPtr → CellPtr → M Ctx CellPtr
    call_value expr args (node r (lambda l) next) = call (node r (lambda l) next) args
    call_value expr args _ = not_a_call expr

    -- A list: `expr` is the list, and the last argument is its first cell.
    eval_list_cell : CellPtr → CellPtr → M Ctx CellPtr
    eval_list_cell expr null = pure nil
    eval_list_cell expr (node r (symbol name) args) =
        call_named (node r (symbol name) args) name args (env.builtin name)
    eval_list_cell expr (node r c args) =
        handle (ev plain (node r c args)) (not_a_call expr) (call_value expr args)

    eval_cell : CellPtr → M Ctx CellPtr
    eval_cell null = return_null
    eval_cell (node r (integer_literal i) next) = pure (clone (node r (integer_literal i) next))
    eval_cell (node r (real_literal x) next) = pure (clone (node r (real_literal x) next))
    eval_cell (node r (string_literal s) next) = pure (clone (node r (string_literal s) next))
    eval_cell (node r (symbol name) next) =
        asks (λ rt. scope_get env rt name) (eval_symbol (node r (symbol name) next) name)
    eval_cell (node r (list k head) next) = eval_list_cell (node r (list k head) next) head
    eval_cell (node r (quoted text) next) = return_ptr (env.unwrap text)
    eval_cell (node r (lambda l) next) = fail (codes "unknown cell type in eval")
    eval_cell (node r (continuation l args) next) = fail (codes "unknown cell type in eval")

  -- `akx_rt_alloc_continuation`
  alloc_continuation : CellPtr → CellPtr → M Ctx CellPtr
  alloc_continuation lambda_cell args = pure (alloc_cell (continuation lambda_cell args))

  restore_tail : Bool → Outcome Ctx CellPtr → Outcome Ctx CellPtr
  restore_tail saved timeout = timeout
  restore_tail saved (failed rt) = failed (set_tail saved rt)
  restore_tail saved (aborted rt) = aborted rt
  restore_tail saved (done p rt) = done p (set_tail saved rt)

  tail_position : M Ctx CellPtr → M Ctx CellPtr
  tail_position m rt = restore_tail rt.in_tail_position (m (set_tail true rt))

  -- One call of either evaluator.
  unfoldable pub eval_step : ℕ → Evaluator Ctx → Evaluator Ctx
  unfolding eval_cell eval_list_cell call_value not_a_call call_named call_stored eval_symbol
      in_module run_builtin alloc_continuation tail_position restore_tail
  eval_step fuel ev plain expr = eval_cell fuel ev (invoke_lambda env fuel ev) expr
  eval_step fuel ev in_tail null = return_null
  eval_step fuel ev in_tail (node r c next) =
      tail_position (eval_cell fuel ev alloc_continuation (node r c next))

  unfoldable pub eval : ℕ → Evaluator Ctx
  unfolding eval_step
  eval zero mode expr = out_of_fuel
  eval (suc fuel) mode expr = eval_step fuel (eval fuel) mode expr

  -- The top-level expressions one after the other; an expression that fails stops the run.
  unfoldable pub runtime_start : ℕ → List CellPtr → M Ctx (Unit {0})
  runtime_start fuel [] = pure tt
  runtime_start fuel (cell ∷ cells) = do result ← eval fuel plain cell; runtime_start fuel cells

  -- The next pointer of a value is set; a stored lambda that is linked so is a copy here.
  abbrev pub with_next : CellPtr → CellPtr → CellPtr
  with_next null next = null
  with_next (node r c _) next = node r c next

  -- `akx_rt_eval_list`: the values of the cells, linked in their order. The last one keeps what
  -- stands behind it.
  unfoldable pub eval_list : Evaluator Ctx → CellPtr → M Ctx CellPtr
  eval_list ev null = return_null
  eval_list ev (node r c null) = ev plain (node r c null)
  eval_list ev (node r c (node s d next)) = do
    evaled ← ev plain (node r c (node s d next))
    more ← eval_list ev (node s d next)
    pure (with_next evaled more)
