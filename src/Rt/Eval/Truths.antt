-- ===== src/Rt/Eval/Truths.antt =====
-- The nuclei that answer with the integer 0 or 1, or with the symbol `true` or `false`.
use akx.Base.{ℕ, Bool}
use akx.Base.Int.{ℤ}
use akx.Base.Text.{Bytes}
use akx.Cell.{CellPtr, null, node, integer_literal, real_literal}
use akx.Nucleus.Compare.{
  eq_impl, neq_impl, lt_impl, lte_impl, gt_impl, gte_impl, compare_impl, compare_numbers,
}
use akx.Nucleus.Core.{is_one}
use akx.Nucleus.Logic.{and_loop, and_impl, or_loop, or_impl, not_impl}
use akx.Nucleus.Numbers.{akx_eq}
use akx.Nucleus.Reals.{
  real_eq_impl, real_neq_impl, real_lt_impl, real_lte_impl, real_gt_impl, real_gte_impl,
  real_compare_impl, real_and_loop, real_and_impl, real_or_loop, real_or_impl, real_not_impl,
  is_real_true,
}
use akx.Nucleus.Types.{
  is_nil_impl, is_type_impl, is_int_impl, is_real_impl, is_lambda_impl, is_str_impl, is_quote_impl,
  is_sym_impl,
}
use akx.Rt.{Env, Evaluator}
use akx.Rt.Eval.Kinds.{
  a_truth, a_word, Gives, Gives-fail, Gives-bind, Gives-handle, Gives-if, Gives-truth, Gives-yes,
  Gives-no, Gives-word,
}

ruleset truths = (Gives-if, Gives-fail, Gives-bind, Gives-handle, Gives-truth, Gives-yes, Gives-no)

module _ {Ctx : Type 0} (env : Env Ctx) (ev : Evaluator Ctx) where
  and_loop-Gives : (args : CellPtr) → Gives a_truth (and_loop ev args)
  unfolding and_loop
  and_loop-Gives null = search (truths)
  and_loop-Gives (node r c next) =
      Gives-bind _ λ evaled. Gives-if (is_one evaled) (and_loop-Gives next) Gives-no

  or_loop-Gives : (args : CellPtr) → Gives a_truth (or_loop ev args)
  unfolding or_loop
  or_loop-Gives null = search (truths)
  or_loop-Gives (node r c next) =
      Gives-bind _ λ evaled. Gives-if (is_one evaled) Gives-yes (or_loop-Gives next)

  real_and_loop-Gives : (args : CellPtr) → Gives a_truth (real_and_loop env ev args)
  unfolding real_and_loop
  real_and_loop-Gives null = search (truths)
  real_and_loop-Gives (node r c next) =
      Gives-bind _ λ evaled. Gives-if (is_real_true env evaled) (real_and_loop-Gives next) Gives-no

  real_or_loop-Gives : (args : CellPtr) → Gives a_truth (real_or_loop env ev args)
  unfolding real_or_loop
  real_or_loop-Gives null = search (truths)
  real_or_loop-Gives (node r c next) =
      Gives-bind _ λ evaled. Gives-if (is_real_true env evaled) Gives-yes (real_or_loop-Gives next)

  compare_numbers-Gives :
      (name : Bytes) (on_int : ℤ → ℤ → Bool) (on_real : ℕ → ℕ → Bool) (left right : CellPtr)
      → Gives a_truth (compare_numbers {Ctx = Ctx} name on_int on_real left right)
  unfolding compare_numbers
  compare_numbers-Gives name on_int on_real (node _ (integer_literal a) _)
        (node _ (integer_literal b) _) =
      Gives-truth _
  compare_numbers-Gives name on_int on_real (node _ (real_literal a) _)
        (node _ (real_literal b) _) =
      Gives-truth _
  compare_numbers-Gives name on_int on_real left right = search (truths) depth 12

  pub and_impl-Gives : (args : CellPtr) → Gives a_truth (and_impl ev args)
  unfolding and_impl
  and_impl-Gives args = search (truths, and_loop-Gives) depth 14

  pub or_impl-Gives : (args : CellPtr) → Gives a_truth (or_impl ev args)
  unfolding or_impl
  or_impl-Gives args = search (truths, or_loop-Gives) depth 14

  pub not_impl-Gives : (args : CellPtr) → Gives a_truth (not_impl ev args)
  unfolding not_impl
  not_impl-Gives args = search (truths) depth 14

  pub real_not_impl-Gives : (args : CellPtr) → Gives a_truth (real_not_impl env ev args)
  unfolding real_not_impl
  real_not_impl-Gives args = search (truths) depth 14

  pub real_and_impl-Gives : (args : CellPtr) → Gives a_truth (real_and_impl env ev args)
  unfolding real_and_impl
  real_and_impl-Gives args = search (truths, real_and_loop-Gives) depth 14

  pub real_or_impl-Gives : (args : CellPtr) → Gives a_truth (real_or_impl env ev args)
  unfolding real_or_impl
  real_or_impl-Gives args = search (truths, real_or_loop-Gives) depth 14

  pub eq_impl-Gives : (args : CellPtr) → Gives a_truth (eq_impl env ev args)
  unfolding eq_impl
  eq_impl-Gives args = search (truths) depth 14

  pub neq_impl-Gives : (args : CellPtr) → Gives a_truth (neq_impl env ev args)
  unfolding neq_impl
  neq_impl-Gives args = search (truths) depth 14

  pub real_eq_impl-Gives : (args : CellPtr) → Gives a_truth (real_eq_impl env ev args)
  unfolding real_eq_impl
  real_eq_impl-Gives args = search (truths) depth 14

  pub real_neq_impl-Gives : (args : CellPtr) → Gives a_truth (real_neq_impl env ev args)
  unfolding real_neq_impl
  real_neq_impl-Gives args = search (truths) depth 14

  pub lt_impl-Gives : (args : CellPtr) → Gives a_truth (lt_impl env ev args)
  unfolding lt_impl compare_impl
  lt_impl-Gives args = search (truths, compare_numbers-Gives) depth 14

  pub lte_impl-Gives : (args : CellPtr) → Gives a_truth (lte_impl env ev args)
  unfolding lte_impl compare_impl
  lte_impl-Gives args = search (truths, compare_numbers-Gives) depth 14

  pub gt_impl-Gives : (args : CellPtr) → Gives a_truth (gt_impl env ev args)
  unfolding gt_impl compare_impl
  gt_impl-Gives args = search (truths, compare_numbers-Gives) depth 14

  pub gte_impl-Gives : (args : CellPtr) → Gives a_truth (gte_impl env ev args)
  unfolding gte_impl compare_impl
  gte_impl-Gives args = search (truths, compare_numbers-Gives) depth 14

  pub real_lt_impl-Gives : (args : CellPtr) → Gives a_truth (real_lt_impl env ev args)
  unfolding real_lt_impl real_compare_impl
  real_lt_impl-Gives args = search (truths) depth 14

  pub real_lte_impl-Gives : (args : CellPtr) → Gives a_truth (real_lte_impl env ev args)
  unfolding real_lte_impl real_compare_impl
  real_lte_impl-Gives args = search (truths) depth 14

  pub real_gt_impl-Gives : (args : CellPtr) → Gives a_truth (real_gt_impl env ev args)
  unfolding real_gt_impl real_compare_impl
  real_gt_impl-Gives args = search (truths) depth 14

  pub real_gte_impl-Gives : (args : CellPtr) → Gives a_truth (real_gte_impl env ev args)
  unfolding real_gte_impl real_compare_impl
  real_gte_impl-Gives args = search (truths) depth 14

  pub is_nil_impl-Gives : (args : CellPtr) → Gives a_truth (is_nil_impl ev args)
  unfolding is_nil_impl
  is_nil_impl-Gives args = search (truths) depth 14

  pub is_int_impl-Gives : (args : CellPtr) → Gives a_truth (is_int_impl ev args)
  unfolding is_int_impl is_type_impl
  is_int_impl-Gives args = search (truths) depth 14

  pub is_real_impl-Gives : (args : CellPtr) → Gives a_truth (is_real_impl ev args)
  unfolding is_real_impl is_type_impl
  is_real_impl-Gives args = search (truths) depth 14

  pub is_lambda_impl-Gives : (args : CellPtr) → Gives a_truth (is_lambda_impl ev args)
  unfolding is_lambda_impl is_type_impl
  is_lambda_impl-Gives args = search (truths) depth 14

  pub is_str_impl-Gives : (args : CellPtr) → Gives a_truth (is_str_impl ev args)
  unfolding is_str_impl is_type_impl
  is_str_impl-Gives args = search (truths) depth 14

  pub is_quote_impl-Gives : (args : CellPtr) → Gives a_truth (is_quote_impl ev args)
  unfolding is_quote_impl is_type_impl
  is_quote_impl-Gives args = search (truths) depth 14

  pub is_sym_impl-Gives : (args : CellPtr) → Gives a_truth (is_sym_impl ev args)
  unfolding is_sym_impl is_type_impl
  is_sym_impl-Gives args = search (truths) depth 14

  pub akx_eq-Gives : (args : CellPtr) → Gives a_word (akx_eq env ev args)
  unfolding akx_eq
  akx_eq-Gives args = search (truths, Gives-word) depth 14
