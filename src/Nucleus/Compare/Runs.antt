-- ===== src/Nucleus/Compare/Runs.antt =====
-- The comparisons keep what each step keeps, and do not depend on the fuel.
use akx.Base.{◌∷◌, ℕ, Bool, not}
use akx.Base.Int.{ℤ, ltb_ℤ}
use akx.Base.Text.{Bytes, codes}
use akx.Cell.{CellPtr, null, node, integer_literal, real_literal}
use akx.Rt.{Runtime, Env, Evaluator, plain}
use akx.Rt.Within.{IsKept, Runs, Agrees, Runs-pure, Runs-bind, Runs-if, Runs-fail}
use akx.Nucleus.Compare.{
  eval_args, eq_impl, neq_impl, compare_numbers, compare_impl, lt_impl, lte_impl, gt_impl, gte_impl,
}

module _ {Ctx : Type 0} {env : Env Ctx} {R : Runtime Ctx → Runtime Ctx → Type 0}
    (kept : IsKept env R) (ev ev' : Evaluator Ctx) (same : Agrees R ev ev') where
  eval_args-Runs : (args : CellPtr) → Runs R (eval_args ev args) (eval_args ev' args)
  unfolding eval_args
  eval_args-Runs null = search (Runs-pure kept)
  eval_args-Runs (node r c next) =
      Runs-bind kept (same.agree plain (node r c next))
        λ evaled. Runs-bind kept (eval_args-Runs next) λ rest. Runs-pure kept (evaled ∷ rest)

  pub eq_impl-Runs : (args : CellPtr) → Runs R (eq_impl env ev args) (eq_impl env ev' args)
  unfolding eq_impl
  eq_impl-Runs args =
      search (Runs-if kept, Runs-fail kept, Runs-bind kept, Runs-pure kept, eval_args-Runs) depth 14

  pub neq_impl-Runs : (args : CellPtr) → Runs R (neq_impl env ev args) (neq_impl env ev' args)
  unfolding neq_impl
  neq_impl-Runs args =
      search (Runs-if kept, Runs-fail kept, Runs-bind kept, Runs-pure kept, eval_args-Runs) depth 14

  module _ (name : Bytes) (on_int : ℤ → ℤ → Bool) (on_real : ℕ → ℕ → Bool) where
    compare_numbers-Runs :
        (left right : CellPtr)
        → Runs R
            (compare_numbers name on_int on_real left right)
            (compare_numbers name on_int on_real left right)
    unfolding compare_numbers
    compare_numbers-Runs (node _ (integer_literal a) _) (node _ (integer_literal b) _) =
        Runs-pure kept _
    compare_numbers-Runs (node _ (real_literal a) _) (node _ (real_literal b) _) = Runs-pure kept _
    compare_numbers-Runs left right = search (Runs-if kept, Runs-fail kept) depth 12

    compare_impl-Runs :
        (args : CellPtr)
        → Runs R
            (compare_impl name on_int on_real ev args)
            (compare_impl name on_int on_real ev' args)
    unfolding compare_impl
    compare_impl-Runs args =
        search (Runs-if kept, Runs-fail kept, Runs-bind kept, compare_numbers-Runs, same.agree)
          depth 14

  pub lt_impl-Runs : (args : CellPtr) → Runs R (lt_impl env ev args) (lt_impl env ev' args)
  unfolding lt_impl
  lt_impl-Runs = compare_impl-Runs (codes "lt") ltb_ℤ env.real_lt

  pub lte_impl-Runs : (args : CellPtr) → Runs R (lte_impl env ev args) (lte_impl env ev' args)
  unfolding lte_impl
  lte_impl-Runs = compare_impl-Runs (codes "lte") (λ a b. not (ltb_ℤ b a)) env.real_le

  pub gt_impl-Runs : (args : CellPtr) → Runs R (gt_impl env ev args) (gt_impl env ev' args)
  unfolding gt_impl
  gt_impl-Runs = compare_impl-Runs (codes "gt") (λ a b. ltb_ℤ b a) (λ a b. env.real_lt b a)

  pub gte_impl-Runs : (args : CellPtr) → Runs R (gte_impl env ev args) (gte_impl env ev' args)
  unfolding gte_impl
  gte_impl-Runs = compare_impl-Runs (codes "gte") (λ a b. not (ltb_ℤ a b)) (λ a b. env.real_le b a)
