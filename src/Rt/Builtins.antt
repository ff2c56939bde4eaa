-- ===== src/Rt/Builtins.antt =====
-- `info->function`: which function a builtin is, by the registry that is generated from
-- nucleus/manifest.txt.
pub mod Runs
use akx.Base.{
  ℕ, zero, suc, List, [], ◌∷◌, Bool, true, false, Option, none, some, ◌++◌, if◌then◌else◌,
}
use akx.Base.Text.{Bytes, codes}
use akx.Cell.{
  CellPtr, null, node, Cell, symbol, string_literal, integer_literal, real_literal, list, quoted,
  lambda, continuation, cell_get_type, is_null, alloc_cell, nil,
}
use akx.Cell.Clone.{clone}
use akx.Nucleus.Compare.{eq_impl, neq_impl, lt_impl, lte_impl, gt_impl, gte_impl}
use akx.Nucleus.Core.{if_impl, let_impl, set_impl, begin_impl, loop_impl, defined_impl}
use akx.Nucleus.Iter.{iter_impl}
use akx.Nucleus.Lambda.{lambda_impl}
use akx.Nucleus.Putf.{putf_impl}
use akx.Nucleus.Lists.{cons_impl, car_impl, cdr_impl}
use akx.Nucleus.Logic.{and_impl, or_impl, not_impl}
use akx.Nucleus.Numbers.{add, sub, mul, akx_div, akx_mod, akx_eq}
use akx.Nucleus.Strings.{str_concat_impl}
use akx.Nucleus.Strings.Split.{str_split_impl}
use akx.Nucleus.Types.{
  is_nil_impl, is_int_impl, is_real_impl, is_lambda_impl, is_str_impl, is_quote_impl, is_sym_impl,
}
use akx.Rt.Invoke.{invoke_lambda}
use akx.Nucleus.Reals.{
  real_add, real_sub, real_mul, real_div, real_mod, real_eq_impl, real_neq_impl, real_lt_impl,
  real_lte_impl, real_gt_impl, real_gte_impl, real_and_impl, real_or_impl, real_not_impl,
}
use akx.Rt.{
  Runtime, Env, Outcome, timeout, failed, aborted, done, M, Evaluator, Mode, plain, in_tail, ◌>>=◌,
  ◌>>◌, handle, pure, return_null, return_ptr, rt_error, rt_error_at, fail, asks, out_of_fuel,
  modify, enter_module, set_tail, scope_get,
}
use akx.State.{
  real_add_nucleus, real_sub_nucleus, real_mul_nucleus, real_div_nucleus, real_mod_nucleus,
  real_eq_nucleus, real_neq_nucleus, real_lt_nucleus, real_lte_nucleus, real_gt_nucleus,
  real_gte_nucleus, real_and_nucleus, real_or_nucleus, real_not_nucleus, Builtin, if_nucleus,
  let_nucleus, set_nucleus, begin_nucleus, loop_nucleus, lambda_nucleus, defined_nucleus,
  cons_nucleus, car_nucleus, cdr_nucleus, add_nucleus, sub_nucleus, mul_nucleus, div_nucleus,
  mod_nucleus, math_eq_nucleus, eq_nucleus, neq_nucleus, lt_nucleus, lte_nucleus, gt_nucleus,
  gte_nucleus, and_nucleus, or_nucleus, not_nucleus, is_nil_nucleus, is_int_nucleus,
  is_real_nucleus, is_lambda_nucleus, is_str_nucleus, is_quote_nucleus, is_sym_nucleus,
  assert_true_nucleus, assert_false_nucleus, assert_eq_nucleus, assert_ne_nucleus, exists_nucleus,
  is_file_nucleus, is_dir_nucleus, delete_nucleus, mkdir_nucleus, rmdir_nucleus, stat_nucleus,
  list_dir_nucleus, read_file_nucleus, write_file_nucleus, rename_nucleus, path_join_nucleus,
  dirname_nucleus, basename_nucleus, os_chdir_nucleus, os_cwd_nucleus, os_args_nucleus,
  os_env_nucleus, open_nucleus, close_nucleus, seek_nucleus, tell_nucleus, file_write_nucleus,
  file_read_nucleus, import_nucleus, exec_nucleus, scanf_nucleus, concat_nucleus, split_nucleus,
  iter_nucleus, putf_nucleus,
}
use akx.Nucleus.Assert.{assert_true_impl, assert_false_impl, assert_eq_impl, assert_ne_impl}
use akx.Nucleus.Fs.{
  exists_impl, is_file_impl, is_dir_impl, delete_impl, mkdir_impl, rmdir_impl, stat_impl,
  list_dir_impl, read_file_impl, write_file_impl, rename_impl,
}
use akx.Nucleus.Fs.Paths.{
  path_join_impl, dirname_impl, basename_impl, os_chdir_impl, os_cwd_impl, os_args_impl,
  os_env_impl,
}
use akx.Nucleus.Fs.Handles.{open_impl, close_impl, seek_impl, tell_impl}
use akx.Nucleus.Fs.Write.{file_write_impl}
use akx.Nucleus.Fs.Read.{file_read_impl}
use akx.Nucleus.Import.{import_impl, exec_impl}
use akx.Nucleus.Scanf.{scanf_impl}

module _ {Ctx : Type 0} (env : Env Ctx) where
  unfoldable pub run_builtin : ℕ → Evaluator Ctx → Builtin → CellPtr → M Ctx CellPtr
  run_builtin fuel ev if_nucleus = if_impl ev
  run_builtin fuel ev let_nucleus = let_impl env ev
  run_builtin fuel ev set_nucleus = set_impl env ev
  run_builtin fuel ev begin_nucleus = begin_impl ev
  run_builtin fuel ev loop_nucleus = loop_impl env fuel ev
  run_builtin fuel ev lambda_nucleus = lambda_impl
  run_builtin fuel ev defined_nucleus = defined_impl env
  run_builtin fuel ev cons_nucleus = cons_impl ev
  run_builtin fuel ev car_nucleus = car_impl ev
  run_builtin fuel ev cdr_nucleus = cdr_impl ev
  run_builtin fuel ev add_nucleus = add ev
  run_builtin fuel ev sub_nucleus = sub ev
  run_builtin fuel ev mul_nucleus = mul ev
  run_builtin fuel ev div_nucleus = akx_div ev
  run_builtin fuel ev mod_nucleus = akx_mod ev
  run_builtin fuel ev math_eq_nucleus = akx_eq env ev
  run_builtin fuel ev eq_nucleus = eq_impl env ev
  run_builtin fuel ev neq_nucleus = neq_impl env ev
  run_builtin fuel ev lt_nucleus = lt_impl env ev
  run_builtin fuel ev lte_nucleus = lte_impl env ev
  run_builtin fuel ev gt_nucleus = gt_impl env ev
  run_builtin fuel ev gte_nucleus = gte_impl env ev
  run_builtin fuel ev and_nucleus = and_impl ev
  run_builtin fuel ev or_nucleus = or_impl ev
  run_builtin fuel ev not_nucleus = not_impl ev
  run_builtin fuel ev is_nil_nucleus = is_nil_impl ev
  run_builtin fuel ev is_int_nucleus = is_int_impl ev
  run_builtin fuel ev is_real_nucleus = is_real_impl ev
  run_builtin fuel ev is_lambda_nucleus = is_lambda_impl ev
  run_builtin fuel ev is_str_nucleus = is_str_impl ev
  run_builtin fuel ev is_quote_nucleus = is_quote_impl ev
  run_builtin fuel ev is_sym_nucleus = is_sym_impl ev
  run_builtin fuel ev concat_nucleus = str_concat_impl ev
  run_builtin fuel ev split_nucleus = str_split_impl ev
  run_builtin fuel ev putf_nucleus = putf_impl env ev
  run_builtin fuel ev iter_nucleus = iter_impl (invoke_lambda env fuel ev) ev
  run_builtin fuel ev real_add_nucleus = real_add env ev
  run_builtin fuel ev real_sub_nucleus = real_sub env ev
  run_builtin fuel ev real_mul_nucleus = real_mul env ev
  run_builtin fuel ev real_div_nucleus = real_div env ev
  run_builtin fuel ev real_mod_nucleus = real_mod env ev
  run_builtin fuel ev real_eq_nucleus = real_eq_impl env ev
  run_builtin fuel ev real_neq_nucleus = real_neq_impl env ev
  run_builtin fuel ev real_lt_nucleus = real_lt_impl env ev
  run_builtin fuel ev real_lte_nucleus = real_lte_impl env ev
  run_builtin fuel ev real_gt_nucleus = real_gt_impl env ev
  run_builtin fuel ev real_gte_nucleus = real_gte_impl env ev
  run_builtin fuel ev real_and_nucleus = real_and_impl env ev
  run_builtin fuel ev real_or_nucleus = real_or_impl env ev
  run_builtin fuel ev real_not_nucleus = real_not_impl env ev
  run_builtin fuel ev assert_true_nucleus = assert_true_impl env ev
  run_builtin fuel ev assert_false_nucleus = assert_false_impl env ev
  run_builtin fuel ev assert_eq_nucleus = assert_eq_impl env ev
  run_builtin fuel ev assert_ne_nucleus = assert_ne_impl env ev
  run_builtin fuel ev exists_nucleus = exists_impl env ev
  run_builtin fuel ev is_file_nucleus = is_file_impl env ev
  run_builtin fuel ev is_dir_nucleus = is_dir_impl env ev
  run_builtin fuel ev delete_nucleus = delete_impl env ev
  run_builtin fuel ev mkdir_nucleus = mkdir_impl env ev
  run_builtin fuel ev rmdir_nucleus = rmdir_impl env ev
  run_builtin fuel ev stat_nucleus = stat_impl env ev
  run_builtin fuel ev list_dir_nucleus = list_dir_impl env ev
  run_builtin fuel ev read_file_nucleus = read_file_impl env ev
  run_builtin fuel ev write_file_nucleus = write_file_impl env ev
  run_builtin fuel ev rename_nucleus = rename_impl env ev
  run_builtin fuel ev path_join_nucleus = path_join_impl env ev
  run_builtin fuel ev dirname_nucleus = dirname_impl env ev
  run_builtin fuel ev basename_nucleus = basename_impl env ev
  run_builtin fuel ev os_chdir_nucleus = os_chdir_impl env ev
  run_builtin fuel ev os_cwd_nucleus = os_cwd_impl env ev
  run_builtin fuel ev os_args_nucleus = os_args_impl env ev
  run_builtin fuel ev os_env_nucleus = os_env_impl env ev
  run_builtin fuel ev open_nucleus = open_impl env ev
  run_builtin fuel ev close_nucleus = close_impl env ev
  run_builtin fuel ev seek_nucleus = seek_impl env ev
  run_builtin fuel ev tell_nucleus = tell_impl env ev
  run_builtin fuel ev file_write_nucleus = file_write_impl env ev
  run_builtin fuel ev file_read_nucleus = file_read_impl env ev
  run_builtin fuel ev import_nucleus = import_impl env ev
  run_builtin fuel ev exec_nucleus = exec_impl env ev
  run_builtin fuel ev scanf_nucleus = scanf_impl env fuel ev
