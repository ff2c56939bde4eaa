-- ===== src/Rt/Builtins/Runs.antt =====
-- Every builtin keeps what each step keeps, and does not depend on the fuel.
use akx.Base.{ℕ, ◌≤◌}
use akx.Cell.{CellPtr}
use akx.Nucleus.Compare.Runs.{
  eq_impl-Runs, neq_impl-Runs, lt_impl-Runs, lte_impl-Runs, gt_impl-Runs, gte_impl-Runs,
}
use akx.Nucleus.Core.Runs.{
  if_impl-Runs, let_impl-Runs, set_impl-Runs, begin_impl-Runs, loop_impl-Runs, defined_impl-Runs,
}
use akx.Nucleus.Strings.Split.Runs.{str_split_impl-Runs}
use akx.Nucleus.Putf.Runs.{putf_impl-Runs}
use akx.Nucleus.Iter.Runs.{iter_impl-Runs}
use akx.Nucleus.Lambda.Runs.{lambda_impl-Runs}
use akx.Nucleus.Lists.Runs.{cons_impl-Runs, car_impl-Runs, cdr_impl-Runs}
use akx.Nucleus.Logic.Runs.{and_impl-Runs, or_impl-Runs, not_impl-Runs}
use akx.Nucleus.Numbers.Runs.{add-Runs, sub-Runs, mul-Runs, akx_div-Runs, akx_mod-Runs, akx_eq-Runs}
use akx.Nucleus.Strings.Runs.{str_concat_impl-Runs}
use akx.Nucleus.Types.Runs.{
  is_nil_impl-Runs, is_int_impl-Runs, is_real_impl-Runs, is_lambda_impl-Runs, is_str_impl-Runs,
  is_quote_impl-Runs, is_sym_impl-Runs,
}
use akx.Rt.Invoke.Runs.{invoke_lambda-Runs}
use akx.Nucleus.Reals.Runs.{
  real_add-Runs, real_sub-Runs, real_mul-Runs, real_div-Runs, real_mod-Runs, real_eq_impl-Runs,
  real_neq_impl-Runs, real_lt_impl-Runs, real_lte_impl-Runs, real_gt_impl-Runs, real_gte_impl-Runs,
  real_and_impl-Runs, real_or_impl-Runs, real_not_impl-Runs,
}
use akx.Rt.{Runtime, Env, Evaluator}
use akx.State.{
  real_add_nucleus, real_sub_nucleus, real_mul_nucleus, real_div_nucleus, real_mod_nucleus,
  real_eq_nucleus, real_neq_nucleus, real_lt_nucleus, real_lte_nucleus, real_gt_nucleus,
  real_gte_nucleus, real_and_nucleus, real_or_nucleus, real_not_nucleus, Builtin, if_nucleus,
  let_nucleus, set_nucleus, begin_nucleus, loop_nucleus, lambda_nucleus, defined_nucleus,
  cons_nucleus, car_nucleus, cdr_nucleus, add_nucleus, sub_nucleus, mul_nucleus, div_nucleus,
  mod_nucleus, math_eq_nucleus, eq_nucleus, neq_nucleus, lt_nucleus, lte_nucleus, gt_nucleus,
  gte_nucleus, and_nucleus, or_nucleus, not_nucleus, is_nil_nucleus, is_int_nucleus,
  is_real_nucleus, is_lambda_nucleus, is_str_nucleus, is_quote_nucleus, is_sym_nucleus,
  assert_true_nucleus, assert_false_nucleus, assert_eq_nucleus, assert_ne_nucleus, exists_nucleus,
  is_file_nucleus, is_dir_nucleus, delete_nucleus, mkdir_nucleus, rmdir_nucleus, stat_nucleus,
  list_dir_nucleus, read_file_nucleus, write_file_nucleus, rename_nucleus, path_join_nucleus,
  dirname_nucleus, basename_nucleus, os_chdir_nucleus, os_cwd_nucleus, os_args_nucleus,
  os_env_nucleus, open_nucleus, close_nucleus, seek_nucleus, tell_nucleus, file_write_nucleus,
  file_read_nucleus, import_nucleus, exec_nucleus, scanf_nucleus, concat_nucleus, split_nucleus,
  iter_nucleus, putf_nucleus,
}
use akx.Rt.Within.{IsKept, Runs, Agrees}
use akx.Nucleus.Assert.Runs.{
  assert_true_impl-Runs, assert_false_impl-Runs, assert_eq_impl-Runs, assert_ne_impl-Runs,
}
use akx.Nucleus.Fs.Runs.{
  exists_impl-Runs, is_file_impl-Runs, is_dir_impl-Runs, delete_impl-Runs, mkdir_impl-Runs,
  rmdir_impl-Runs, stat_impl-Runs, list_dir_impl-Runs, read_file_impl-Runs, write_file_impl-Runs,
  rename_impl-Runs,
}
use akx.Nucleus.Fs.Paths.Runs.{
  path_join_impl-Runs, dirname_impl-Runs, basename_impl-Runs, os_chdir_impl-Runs, os_cwd_impl-Runs,
  os_args_impl-Runs, os_env_impl-Runs,
}
use akx.Nucleus.Fs.Handles.Runs.{open_impl-Runs, close_impl-Runs, seek_impl-Runs, tell_impl-Runs}
use akx.Nucleus.Fs.Write.Runs.{file_write_impl-Runs}
use akx.Nucleus.Fs.Read.Runs.{file_read_impl-Runs}
use akx.Nucleus.Import.Runs.{import_impl-Runs, exec_impl-Runs}
use akx.Nucleus.Scanf.Runs.{scanf_impl-Runs}
use akx.Rt.Builtins.{run_builtin}

module _ {Ctx : Type 0} {env : Env Ctx} {R : Runtime Ctx → Runtime Ctx → Type 0}
    (kept : IsKept env R) where
  module _ (f g : ℕ) (le : f ≤ g) (ev ev' : Evaluator Ctx) (same : Agrees R ev ev') where
    pub run_builtin-Runs :
        (b : Builtin) (args : CellPtr)
        → Runs R (run_builtin env f ev b args) (run_builtin env g ev' b args)
    unfolding run_builtin
    run_builtin-Runs if_nucleus = if_impl-Runs kept ev ev' same
    run_builtin-Runs let_nucleus = let_impl-Runs kept ev ev' same
    run_builtin-Runs set_nucleus = set_impl-Runs kept ev ev' same
    run_builtin-Runs begin_nucleus = begin_impl-Runs kept ev ev' same
    run_builtin-Runs loop_nucleus = loop_impl-Runs kept ev ev' same f g le
    run_builtin-Runs lambda_nucleus = lambda_impl-Runs kept
    run_builtin-Runs defined_nucleus = defined_impl-Runs kept
    run_builtin-Runs cons_nucleus = cons_impl-Runs kept ev ev' same
    run_builtin-Runs car_nucleus = car_impl-Runs kept ev ev' same
    run_builtin-Runs cdr_nucleus = cdr_impl-Runs kept ev ev' same
    run_builtin-Runs add_nucleus = add-Runs kept ev ev' same
    run_builtin-Runs sub_nucleus = sub-Runs kept ev ev' same
    run_builtin-Runs mul_nucleus = mul-Runs kept ev ev' same
    run_builtin-Runs div_nucleus = akx_div-Runs kept ev ev' same
    run_builtin-Runs mod_nucleus = akx_mod-Runs kept ev ev' same
    run_builtin-Runs math_eq_nucleus = akx_eq-Runs kept ev ev' same
    run_builtin-Runs eq_nucleus = eq_impl-Runs kept ev ev' same
    run_builtin-Runs neq_nucleus = neq_impl-Runs kept ev ev' same
    run_builtin-Runs lt_nucleus = lt_impl-Runs kept ev ev' same
    run_builtin-Runs lte_nucleus = lte_impl-Runs kept ev ev' same
    run_builtin-Runs gt_nucleus = gt_impl-Runs kept ev ev' same
    run_builtin-Runs gte_nucleus = gte_impl-Runs kept ev ev' same
    run_builtin-Runs and_nucleus = and_impl-Runs kept ev ev' same
    run_builtin-Runs or_nucleus = or_impl-Runs kept ev ev' same
    run_builtin-Runs not_nucleus = not_impl-Runs kept ev ev' same
    run_builtin-Runs is_nil_nucleus = is_nil_impl-Runs kept ev ev' same
    run_builtin-Runs is_int_nucleus = is_int_impl-Runs kept ev ev' same
    run_builtin-Runs is_real_nucleus = is_real_impl-Runs kept ev ev' same
    run_builtin-Runs is_lambda_nucleus = is_lambda_impl-Runs kept ev ev' same
    run_builtin-Runs is_str_nucleus = is_str_impl-Runs kept ev ev' same
    run_builtin-Runs is_quote_nucleus = is_quote_impl-Runs kept ev ev' same
    run_builtin-Runs is_sym_nucleus = is_sym_impl-Runs kept ev ev' same
    run_builtin-Runs concat_nucleus = str_concat_impl-Runs kept ev ev' same
    run_builtin-Runs split_nucleus = str_split_impl-Runs kept ev ev' same
    run_builtin-Runs putf_nucleus = putf_impl-Runs kept ev ev' same
    run_builtin-Runs iter_nucleus =
        iter_impl-Runs kept _ _ (invoke_lambda-Runs kept ev ev' same f g le) ev ev' same
    run_builtin-Runs real_add_nucleus = real_add-Runs kept ev ev' same
    run_builtin-Runs real_sub_nucleus = real_sub-Runs kept ev ev' same
    run_builtin-Runs real_mul_nucleus = real_mul-Runs kept ev ev' same
    run_builtin-Runs real_div_nucleus = real_div-Runs kept ev ev' same
    run_builtin-Runs real_mod_nucleus = real_mod-Runs kept ev ev' same
    run_builtin-Runs real_eq_nucleus = real_eq_impl-Runs kept ev ev' same
    run_builtin-Runs real_neq_nucleus = real_neq_impl-Runs kept ev ev' same
    run_builtin-Runs real_lt_nucleus = real_lt_impl-Runs kept ev ev' same
    run_builtin-Runs real_lte_nucleus = real_lte_impl-Runs kept ev ev' same
    run_builtin-Runs real_gt_nucleus = real_gt_impl-Runs kept ev ev' same
    run_builtin-Runs real_gte_nucleus = real_gte_impl-Runs kept ev ev' same
    run_builtin-Runs real_and_nucleus = real_and_impl-Runs kept ev ev' same
    run_builtin-Runs real_or_nucleus = real_or_impl-Runs kept ev ev' same
    run_builtin-Runs real_not_nucleus = real_not_impl-Runs kept ev ev' same
    run_builtin-Runs assert_true_nucleus = assert_true_impl-Runs kept ev ev' same
    run_builtin-Runs assert_false_nucleus = assert_false_impl-Runs kept ev ev' same
    run_builtin-Runs assert_eq_nucleus = assert_eq_impl-Runs kept ev ev' same
    run_builtin-Runs assert_ne_nucleus = assert_ne_impl-Runs kept ev ev' same
    run_builtin-Runs exists_nucleus = exists_impl-Runs kept ev ev' same
    run_builtin-Runs is_file_nucleus = is_file_impl-Runs kept ev ev' same
    run_builtin-Runs is_dir_nucleus = is_dir_impl-Runs kept ev ev' same
    run_builtin-Runs delete_nucleus = delete_impl-Runs kept ev ev' same
    run_builtin-Runs mkdir_nucleus = mkdir_impl-Runs kept ev ev' same
    run_builtin-Runs rmdir_nucleus = rmdir_impl-Runs kept ev ev' same
    run_builtin-Runs stat_nucleus = stat_impl-Runs kept ev ev' same
    run_builtin-Runs list_dir_nucleus = list_dir_impl-Runs kept ev ev' same
    run_builtin-Runs read_file_nucleus = read_file_impl-Runs kept ev ev' same
    run_builtin-Runs write_file_nucleus = write_file_impl-Runs kept ev ev' same
    run_builtin-Runs rename_nucleus = rename_impl-Runs kept ev ev' same
    run_builtin-Runs path_join_nucleus = path_join_impl-Runs kept ev ev' same
    run_builtin-Runs dirname_nucleus = dirname_impl-Runs kept ev ev' same
    run_builtin-Runs basename_nucleus = basename_impl-Runs kept ev ev' same
    run_builtin-Runs os_chdir_nucleus = os_chdir_impl-Runs kept ev ev' same
    run_builtin-Runs os_cwd_nucleus = os_cwd_impl-Runs kept ev ev' same
    run_builtin-Runs os_args_nucleus = os_args_impl-Runs kept ev ev' same
    run_builtin-Runs os_env_nucleus = os_env_impl-Runs kept ev ev' same
    run_builtin-Runs open_nucleus = open_impl-Runs kept ev ev' same
    run_builtin-Runs close_nucleus = close_impl-Runs kept ev ev' same
    run_builtin-Runs seek_nucleus = seek_impl-Runs kept ev ev' same
    run_builtin-Runs tell_nucleus = tell_impl-Runs kept ev ev' same
    run_builtin-Runs file_write_nucleus = file_write_impl-Runs kept ev ev' same
    run_builtin-Runs file_read_nucleus = file_read_impl-Runs kept ev ev' same
    run_builtin-Runs import_nucleus = import_impl-Runs kept ev ev' same
    run_builtin-Runs exec_nucleus = exec_impl-Runs kept ev ev' same
    run_builtin-Runs scanf_nucleus = scanf_impl-Runs kept f g le ev ev' same
