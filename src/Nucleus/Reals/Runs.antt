-- ===== src/Nucleus/Reals/Runs.antt =====
-- The operators on doubles keep what each step keeps, and do not depend on the fuel.
use akx.Base.{ℕ, Bool}
use akx.Base.Text.{Bytes, codes}
use akx.Cell.{type_real_literal, CellPtr, null, node}
use akx.Rt.{Runtime, Env, Evaluator, plain}
use akx.Rt.Within.{IsKept, Runs, Agrees, Runs-pure, Runs-bind, Runs-if, Runs-fail, Runs-assert}
use akx.Nucleus.Reals.{
  real_loop, real_args, real_compare_impl, real_add, real_mul, real_sub, real_div_loop, real_div,
  real_mod, real_eq_impl, real_neq_impl, real_lt_impl, real_lte_impl, real_gt_impl, real_gte_impl,
  real_and_loop, real_and_impl, real_or_loop, real_or_impl, real_not_impl, is_real_true,
}

module _ {Ctx : Type 0} {env : Env Ctx} {R : Runtime Ctx → Runtime Ctx → Type 0}
    (kept : IsKept env R) (ev ev' : Evaluator Ctx) (same : Agrees R ev ev') where
  real_loop-Runs :
      (message : Bytes) (op : ℕ → ℕ → ℕ) (args : CellPtr) (acc : ℕ)
      → Runs R (real_loop message op ev args acc) (real_loop message op ev' args acc)
  unfolding real_loop
  real_loop-Runs message op null acc = search (Runs-pure kept)
  real_loop-Runs message op (node r c next) acc =
      search (Runs-bind kept, Runs-assert kept, same, real_loop-Runs message op next) depth 14

  real_args-Runs :
      (message : Bytes) (args : CellPtr)
      → Runs R (real_args message ev args) (real_args message ev' args)
  unfolding real_args
  real_args-Runs message null = search (Runs-pure kept)
  real_args-Runs message (node r c next) =
      Runs-bind kept (Runs-assert kept (node r c next) type_real_literal message same)
        λ evaled. Runs-bind kept (real_args-Runs message next) λ rest. Runs-pure kept _

  pub real_compare_impl-Runs :
      (name : Bytes) (test : ℕ → ℕ → Bool) (args : CellPtr)
      → Runs R (real_compare_impl name test ev args) (real_compare_impl name test ev' args)
  unfolding real_compare_impl
  real_compare_impl-Runs name test args =
      search (Runs-if kept, Runs-fail kept, Runs-bind kept, Runs-pure kept, Runs-assert kept, same)
        depth 14

  pub real_add-Runs : (args : CellPtr) → Runs R (real_add env ev args) (real_add env ev' args)
  unfolding real_add
  real_add-Runs args = search (Runs-if kept, Runs-fail kept, real_loop-Runs) depth 14

  pub real_mul-Runs : (args : CellPtr) → Runs R (real_mul env ev args) (real_mul env ev' args)
  unfolding real_mul
  real_mul-Runs args = search (Runs-if kept, Runs-fail kept, real_loop-Runs) depth 14

  pub real_sub-Runs : (args : CellPtr) → Runs R (real_sub env ev args) (real_sub env ev' args)
  unfolding real_sub
  real_sub-Runs args =
      search (Runs-if kept, Runs-fail kept, Runs-bind kept, Runs-assert kept, same, real_loop-Runs)
        depth 14

  real_div_loop-Runs :
      (args : CellPtr) (acc : ℕ)
      → Runs R (real_div_loop env ev args acc) (real_div_loop env ev' args acc)
  unfolding real_div_loop
  real_div_loop-Runs null acc = search (Runs-pure kept)
  real_div_loop-Runs (node r c next) acc =
      search
        (
          Runs-bind kept,
          Runs-if kept,
          Runs-fail kept,
          Runs-assert kept,
          same,
          real_div_loop-Runs next,
        )
        depth 14

  pub real_div-Runs : (args : CellPtr) → Runs R (real_div env ev args) (real_div env ev' args)
  unfolding real_div
  real_div-Runs args =
      search
        (Runs-if kept, Runs-fail kept, Runs-bind kept, Runs-assert kept, same, real_div_loop-Runs)
        depth 14

  pub real_mod-Runs : (args : CellPtr) → Runs R (real_mod env ev args) (real_mod env ev' args)
  unfolding real_mod
  real_mod-Runs args =
      search (Runs-if kept, Runs-fail kept, Runs-bind kept, Runs-pure kept, Runs-assert kept, same)
        depth 14

  pub real_eq_impl-Runs :
      (args : CellPtr) → Runs R (real_eq_impl env ev args) (real_eq_impl env ev' args)
  unfolding real_eq_impl
  real_eq_impl-Runs args =
      search (Runs-if kept, Runs-fail kept, Runs-bind kept, Runs-pure kept, real_args-Runs) depth 14

  pub real_neq_impl-Runs :
      (args : CellPtr) → Runs R (real_neq_impl env ev args) (real_neq_impl env ev' args)
  unfolding real_neq_impl
  real_neq_impl-Runs args =
      search (Runs-if kept, Runs-fail kept, Runs-bind kept, Runs-pure kept, real_args-Runs) depth 14

  pub real_lt_impl-Runs :
      (args : CellPtr) → Runs R (real_lt_impl env ev args) (real_lt_impl env ev' args)
  unfolding real_lt_impl
  real_lt_impl-Runs args = real_compare_impl-Runs (codes "real/lt") env.real_lt args

  pub real_lte_impl-Runs :
      (args : CellPtr) → Runs R (real_lte_impl env ev args) (real_lte_impl env ev' args)
  unfolding real_lte_impl
  real_lte_impl-Runs args = real_compare_impl-Runs (codes "real/lte") env.real_le args

  pub real_gt_impl-Runs :
      (args : CellPtr) → Runs R (real_gt_impl env ev args) (real_gt_impl env ev' args)
  unfolding real_gt_impl
  real_gt_impl-Runs args = real_compare_impl-Runs (codes "real/gt") (λ a b. env.real_lt b a) args

  pub real_gte_impl-Runs :
      (args : CellPtr) → Runs R (real_gte_impl env ev args) (real_gte_impl env ev' args)
  unfolding real_gte_impl
  real_gte_impl-Runs args = real_compare_impl-Runs (codes "real/gte") (λ a b. env.real_le b a) args

  real_and_loop-Runs :
      (args : CellPtr) → Runs R (real_and_loop env ev args) (real_and_loop env ev' args)
  unfolding real_and_loop
  real_and_loop-Runs null = search (Runs-pure kept)
  real_and_loop-Runs (node r c next) =
      Runs-bind kept (same.agree plain (node r c next)) λ evaled.
        Runs-if kept (is_real_true env evaled) (real_and_loop-Runs next) (Runs-pure kept _)

  pub real_and_impl-Runs :
      (args : CellPtr) → Runs R (real_and_impl env ev args) (real_and_impl env ev' args)
  unfolding real_and_impl
  real_and_impl-Runs args = search (Runs-if kept, Runs-fail kept, real_and_loop-Runs) depth 14

  real_or_loop-Runs :
      (args : CellPtr) → Runs R (real_or_loop env ev args) (real_or_loop env ev' args)
  unfolding real_or_loop
  real_or_loop-Runs null = search (Runs-pure kept)
  real_or_loop-Runs (node r c next) =
      Runs-bind kept (same.agree plain (node r c next))
        λ evaled. Runs-if kept (is_real_true env evaled) (Runs-pure kept _) (real_or_loop-Runs next)

  pub real_or_impl-Runs :
      (args : CellPtr) → Runs R (real_or_impl env ev args) (real_or_impl env ev' args)
  unfolding real_or_impl
  real_or_impl-Runs args = search (Runs-if kept, Runs-fail kept, real_or_loop-Runs) depth 14

  pub real_not_impl-Runs :
      (args : CellPtr) → Runs R (real_not_impl env ev args) (real_not_impl env ev' args)
  unfolding real_not_impl
  real_not_impl-Runs args =
      search (Runs-if kept, Runs-fail kept, Runs-bind kept, Runs-pure kept, same.agree) depth 14
