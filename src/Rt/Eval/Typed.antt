-- ===== src/Rt/Eval/Typed.antt =====
-- Which builtins of nucleus/manifest.txt return values of one kind, and that `run_builtin` does so.
use akx.Base.{ℕ, ◌≡◌, Option, none, some}
use mathlib.Core.Path.{subst}
use akx.Cell.{CellPtr}
use akx.Rt.{Env, Evaluator, M, Runtime, done}
use akx.State.{
  assert_true_nucleus, assert_false_nucleus, assert_eq_nucleus, assert_ne_nucleus, exists_nucleus,
  is_file_nucleus, is_dir_nucleus, delete_nucleus, mkdir_nucleus, rmdir_nucleus, stat_nucleus,
  list_dir_nucleus, read_file_nucleus, write_file_nucleus, rename_nucleus, path_join_nucleus,
  dirname_nucleus, basename_nucleus, os_chdir_nucleus, os_cwd_nucleus, os_args_nucleus,
  os_env_nucleus, open_nucleus, close_nucleus, seek_nucleus, tell_nucleus, file_write_nucleus,
  file_read_nucleus, import_nucleus, exec_nucleus, scanf_nucleus, if_nucleus, let_nucleus,
  set_nucleus, begin_nucleus, loop_nucleus, lambda_nucleus, defined_nucleus, cons_nucleus,
  car_nucleus, cdr_nucleus, split_nucleus, iter_nucleus, putf_nucleus, add_nucleus, sub_nucleus,
  mul_nucleus, div_nucleus, mod_nucleus, math_eq_nucleus, and_nucleus, or_nucleus, not_nucleus,
  real_and_nucleus, real_or_nucleus, real_not_nucleus, eq_nucleus, neq_nucleus, real_eq_nucleus,
  real_neq_nucleus, lt_nucleus, lte_nucleus, gt_nucleus, gte_nucleus, real_lt_nucleus,
  real_lte_nucleus, real_gt_nucleus, real_gte_nucleus, is_nil_nucleus, is_int_nucleus,
  is_real_nucleus, is_lambda_nucleus, is_str_nucleus, is_quote_nucleus, is_sym_nucleus,
  real_add_nucleus, real_sub_nucleus, real_mul_nucleus, real_div_nucleus, real_mod_nucleus,
  concat_nucleus, Builtin,
}
use akx.Rt.Builtins.{run_builtin}
use akx.Rt.Eval.Kinds.{
  Kind, a_truth, an_int, a_real, a_string, a_word, IsOfKind, Ends, Gives, Ends-value,
}
use akx.Rt.Eval.Results.{
  add-Gives, sub-Gives, mul-Gives, akx_div-Gives, akx_mod-Gives, real_add-Gives, real_sub-Gives,
  real_mul-Gives, real_div-Gives, real_mod-Gives, str_concat_impl-Gives,
}
use akx.Rt.Eval.Truths.{
  akx_eq-Gives, and_impl-Gives, or_impl-Gives, not_impl-Gives, real_and_impl-Gives,
  real_or_impl-Gives, real_not_impl-Gives, eq_impl-Gives, neq_impl-Gives, real_eq_impl-Gives,
  real_neq_impl-Gives, lt_impl-Gives, lte_impl-Gives, gt_impl-Gives, gte_impl-Gives,
  real_lt_impl-Gives, real_lte_impl-Gives, real_gt_impl-Gives, real_gte_impl-Gives,
  is_nil_impl-Gives, is_int_impl-Gives, is_real_impl-Gives, is_lambda_impl-Gives, is_str_impl-Gives,
  is_quote_impl-Gives, is_sym_impl-Gives,
}

-- The kind that all values of a builtin have, where there is one.
abbrev pub value_kind : Builtin → Option Kind
value_kind add_nucleus = some an_int
value_kind sub_nucleus = some an_int
value_kind mul_nucleus = some an_int
value_kind div_nucleus = some an_int
value_kind mod_nucleus = some an_int
value_kind math_eq_nucleus = some a_word
value_kind and_nucleus = some a_truth
value_kind or_nucleus = some a_truth
value_kind not_nucleus = some a_truth
value_kind real_and_nucleus = some a_truth
value_kind real_or_nucleus = some a_truth
value_kind real_not_nucleus = some a_truth
value_kind eq_nucleus = some a_truth
value_kind neq_nucleus = some a_truth
value_kind real_eq_nucleus = some a_truth
value_kind real_neq_nucleus = some a_truth
value_kind lt_nucleus = some a_truth
value_kind lte_nucleus = some a_truth
value_kind gt_nucleus = some a_truth
value_kind gte_nucleus = some a_truth
value_kind real_lt_nucleus = some a_truth
value_kind real_lte_nucleus = some a_truth
value_kind real_gt_nucleus = some a_truth
value_kind real_gte_nucleus = some a_truth
value_kind is_nil_nucleus = some a_truth
value_kind is_int_nucleus = some a_truth
value_kind is_real_nucleus = some a_truth
value_kind is_lambda_nucleus = some a_truth
value_kind is_str_nucleus = some a_truth
value_kind is_quote_nucleus = some a_truth
value_kind is_sym_nucleus = some a_truth
value_kind real_add_nucleus = some a_real
value_kind real_sub_nucleus = some a_real
value_kind real_mul_nucleus = some a_real
value_kind real_div_nucleus = some a_real
value_kind real_mod_nucleus = some a_real
value_kind concat_nucleus = some a_string
value_kind _ = none

abbrev GivesKind : {Ctx : Type 0} → Option Kind → M Ctx CellPtr → Type 0
GivesKind none m = Unit
GivesKind (some k) m = Gives k m

module _ {Ctx : Type 0} (env : Env Ctx) (fuel : ℕ) (ev : Evaluator Ctx) (args : CellPtr) where
  run_builtin-Gives : (b : Builtin) → GivesKind (value_kind b) (run_builtin env fuel ev b args)
  unfolding run_builtin
  run_builtin-Gives add_nucleus = add-Gives env ev args
  run_builtin-Gives sub_nucleus = sub-Gives env ev args
  run_builtin-Gives mul_nucleus = mul-Gives env ev args
  run_builtin-Gives div_nucleus = akx_div-Gives env ev args
  run_builtin-Gives mod_nucleus = akx_mod-Gives env ev args
  run_builtin-Gives math_eq_nucleus = akx_eq-Gives env ev args
  run_builtin-Gives and_nucleus = and_impl-Gives env ev args
  run_builtin-Gives or_nucleus = or_impl-Gives env ev args
  run_builtin-Gives not_nucleus = not_impl-Gives env ev args
  run_builtin-Gives real_and_nucleus = real_and_impl-Gives env ev args
  run_builtin-Gives real_or_nucleus = real_or_impl-Gives env ev args
  run_builtin-Gives real_not_nucleus = real_not_impl-Gives env ev args
  run_builtin-Gives eq_nucleus = eq_impl-Gives env ev args
  run_builtin-Gives neq_nucleus = neq_impl-Gives env ev args
  run_builtin-Gives real_eq_nucleus = real_eq_impl-Gives env ev args
  run_builtin-Gives real_neq_nucleus = real_neq_impl-Gives env ev args
  run_builtin-Gives lt_nucleus = lt_impl-Gives env ev args
  run_builtin-Gives lte_nucleus = lte_impl-Gives env ev args
  run_builtin-Gives gt_nucleus = gt_impl-Gives env ev args
  run_builtin-Gives gte_nucleus = gte_impl-Gives env ev args
  run_builtin-Gives real_lt_nucleus = real_lt_impl-Gives env ev args
  run_builtin-Gives real_lte_nucleus = real_lte_impl-Gives env ev args
  run_builtin-Gives real_gt_nucleus = real_gt_impl-Gives env ev args
  run_builtin-Gives real_gte_nucleus = real_gte_impl-Gives env ev args
  run_builtin-Gives is_nil_nucleus = is_nil_impl-Gives env ev args
  run_builtin-Gives is_int_nucleus = is_int_impl-Gives env ev args
  run_builtin-Gives is_real_nucleus = is_real_impl-Gives env ev args
  run_builtin-Gives is_lambda_nucleus = is_lambda_impl-Gives env ev args
  run_builtin-Gives is_str_nucleus = is_str_impl-Gives env ev args
  run_builtin-Gives is_quote_nucleus = is_quote_impl-Gives env ev args
  run_builtin-Gives is_sym_nucleus = is_sym_impl-Gives env ev args
  run_builtin-Gives real_add_nucleus = real_add-Gives env ev args
  run_builtin-Gives real_sub_nucleus = real_sub-Gives env ev args
  run_builtin-Gives real_mul_nucleus = real_mul-Gives env ev args
  run_builtin-Gives real_div_nucleus = real_div-Gives env ev args
  run_builtin-Gives real_mod_nucleus = real_mod-Gives env ev args
  run_builtin-Gives concat_nucleus = str_concat_impl-Gives env ev args
  run_builtin-Gives if_nucleus = tt
  run_builtin-Gives let_nucleus = tt
  run_builtin-Gives set_nucleus = tt
  run_builtin-Gives begin_nucleus = tt
  run_builtin-Gives loop_nucleus = tt
  run_builtin-Gives lambda_nucleus = tt
  run_builtin-Gives defined_nucleus = tt
  run_builtin-Gives cons_nucleus = tt
  run_builtin-Gives car_nucleus = tt
  run_builtin-Gives cdr_nucleus = tt
  run_builtin-Gives split_nucleus = tt
  run_builtin-Gives iter_nucleus = tt
  run_builtin-Gives putf_nucleus = tt
  run_builtin-Gives assert_true_nucleus = tt
  run_builtin-Gives assert_false_nucleus = tt
  run_builtin-Gives assert_eq_nucleus = tt
  run_builtin-Gives assert_ne_nucleus = tt
  run_builtin-Gives exists_nucleus = tt
  run_builtin-Gives is_file_nucleus = tt
  run_builtin-Gives is_dir_nucleus = tt
  run_builtin-Gives delete_nucleus = tt
  run_builtin-Gives mkdir_nucleus = tt
  run_builtin-Gives rmdir_nucleus = tt
  run_builtin-Gives stat_nucleus = tt
  run_builtin-Gives list_dir_nucleus = tt
  run_builtin-Gives read_file_nucleus = tt
  run_builtin-Gives write_file_nucleus = tt
  run_builtin-Gives rename_nucleus = tt
  run_builtin-Gives path_join_nucleus = tt
  run_builtin-Gives dirname_nucleus = tt
  run_builtin-Gives basename_nucleus = tt
  run_builtin-Gives os_chdir_nucleus = tt
  run_builtin-Gives os_cwd_nucleus = tt
  run_builtin-Gives os_args_nucleus = tt
  run_builtin-Gives os_env_nucleus = tt
  run_builtin-Gives open_nucleus = tt
  run_builtin-Gives close_nucleus = tt
  run_builtin-Gives seek_nucleus = tt
  run_builtin-Gives tell_nucleus = tt
  run_builtin-Gives file_write_nucleus = tt
  run_builtin-Gives file_read_nucleus = tt
  run_builtin-Gives import_nucleus = tt
  run_builtin-Gives exec_nucleus = tt
  run_builtin-Gives scanf_nucleus = tt

  -- Whatever its arguments evaluate to, a builtin that returns a value returns one of its kind, a
  -- single cell: the operators on integers an integer that fits 32 bits, the comparisons, the logic
  -- and the type predicates the integer 0 or 1, `=` the symbol `true` or `false`, the operators on
  -- doubles a double, and `str/+` a string.
  pub run_builtin-IsOfKind :
      (b : Builtin) (k : Kind) (p : CellPtr) (rt rt' : Runtime Ctx)
      → value_kind b ≡ some k
      → run_builtin env fuel ev b args rt ≡ done p rt'
      → IsOfKind k p
  run_builtin-IsOfKind b k p rt rt' e h =
      let gives : Gives k (run_builtin env fuel ev b args) =
        subst (λ o. GivesKind o (run_builtin env fuel ev b args)) e (run_builtin-Gives b) in
      Ends-value (subst (Ends k) h (gives.give rt))
