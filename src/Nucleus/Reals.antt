-- ===== src/Nucleus/Reals.antt =====
-- nucleus/math/real_*.c, nucleus/cmp/real_*.c and nucleus/logic/real_*.c: the operators on doubles.
pub mod Runs
use akx.Base.{ℕ, Bool, true, false, not, List, [], ◌∷◌, ◌&&◌, ◌++◌, ltb, ◌==◌, if◌then◌else◌}
use akx.Base.Text.{Bytes, codes}
use akx.Cell.{
  CellPtr, null, node, real_literal, type_real_literal, type_eq, cell_get_type, cell_as_real,
  cell_next, alloc_cell, truth,
}
use akx.Cell.Chain.{list_length, list_nth}
use akx.Rt.{Env, M, Evaluator, plain, ◌>>=◌, pure, fail, eval_and_assert}

abbrev pub real_cell : ℕ → CellPtr
real_cell x = alloc_cell (real_literal x)

-- The patterns of 0.0 and 1.0.
abbrev pub real_zero : ℕ
real_zero = 0

abbrev pub real_one : ℕ
real_one = 4607182418800017408

module _ {Ctx : Type 0} where
  -- The loop of `real_add`, `real_sub` and `real_mul`.
  unfoldable pub real_loop : Bytes → (ℕ → ℕ → ℕ) → Evaluator Ctx → CellPtr → ℕ → M Ctx CellPtr
  real_loop message op ev null acc = pure (real_cell acc)
  real_loop message op ev (node r c next) acc = do
    evaled ← eval_and_assert ev (node r c next) type_real_literal message
    real_loop message op ev next (op acc (cell_as_real evaled))

  -- The array `evaled_args` of real_eq.c and real_neq.c, as numbers.
  unfoldable pub real_args : Bytes → Evaluator Ctx → CellPtr → M Ctx (List ℕ)
  real_args message ev null = pure []
  real_args message ev (node r c next) = do
    evaled ← eval_and_assert ev (node r c next) type_real_literal message
    rest ← real_args message ev next
    pure (cell_as_real evaled ∷ rest)

  -- The shape of real_lt.c, real_lte.c, real_gt.c and real_gte.c.
  unfoldable pub real_compare_impl :
      Bytes → (ℕ → ℕ → Bool) → Evaluator Ctx → CellPtr → M Ctx CellPtr
  real_compare_impl name test ev args =
      if list_length args == 2
      then (do
        first ←
            eval_and_assert ev (list_nth args 0) type_real_literal
              (name ++ codes " requires real arguments")
        second ←
            eval_and_assert ev (list_nth args 1) type_real_literal
              (name ++ codes " requires real arguments")
        pure (truth (test (cell_as_real first) (cell_as_real second))))
      else fail (name ++ codes " requires exactly 2 arguments")

  module _ (env : Env Ctx) where
    unfoldable pub real_add : Evaluator Ctx → CellPtr → M Ctx CellPtr
    unfolding real_loop
    real_add ev args =
        if ltb (list_length args) 2
        then fail (codes "real/+ requires at least 2 arguments")
        else real_loop (codes "real/+ requires real arguments") env.real_plus ev args real_zero

    unfoldable pub real_mul : Evaluator Ctx → CellPtr → M Ctx CellPtr
    unfolding real_loop
    real_mul ev args =
        if ltb (list_length args) 2
        then fail (codes "real/* requires at least 2 arguments")
        else real_loop (codes "real/* requires real arguments") env.real_times ev args real_one

    unfoldable pub real_sub : Evaluator Ctx → CellPtr → M Ctx CellPtr
    unfolding real_loop
    real_sub ev args =
        if ltb (list_length args) 2
        then fail (codes "real/- requires at least 2 arguments")
        else (do
          first ←
              eval_and_assert ev (list_nth args 0) type_real_literal
                (codes "real/- requires real arguments")
          real_loop (codes "real/- requires real arguments") env.real_minus ev (cell_next args)
              (cell_as_real first))

    unfoldable pub real_div_loop : Evaluator Ctx → CellPtr → ℕ → M Ctx CellPtr
    real_div_loop ev null result_val = pure (real_cell result_val)
    real_div_loop ev (node r c next) result_val = do
      evaled ←
          eval_and_assert ev (node r c next) type_real_literal
            (codes "real// requires real arguments")
      if env.is_tiny (cell_as_real evaled)
          then fail (codes "real//: division by zero")
          else real_div_loop ev next (env.real_over result_val (cell_as_real evaled))

    unfoldable pub real_div : Evaluator Ctx → CellPtr → M Ctx CellPtr
    unfolding real_div_loop
    real_div ev args =
        if ltb (list_length args) 2
        then fail (codes "real// requires at least 2 arguments")
        else (do
          first ←
              eval_and_assert ev (list_nth args 0) type_real_literal
                (codes "real// requires real arguments")
          real_div_loop ev (cell_next args) (cell_as_real first))

    unfoldable pub real_mod : Evaluator Ctx → CellPtr → M Ctx CellPtr
    real_mod ev args =
        if list_length args == 2
        then (do
          first ←
              eval_and_assert ev (list_nth args 0) type_real_literal
                (codes "real/% requires real arguments")
          second ←
              eval_and_assert ev (list_nth args 1) type_real_literal
                (codes "real/% requires real arguments")
          if env.is_tiny (cell_as_real second)
              then fail (codes "real/%: modulo by zero")
              else pure (real_cell (env.real_fmod (cell_as_real first) (cell_as_real second))))
        else fail (codes "real/% requires exactly 2 arguments")

    -- `fabs(first_val - current_val) > 1e-10` ends the loop.
    abbrev all_near : ℕ → List ℕ → Bool
    all_near first [] = true
    all_near first (x ∷ xs) = not (env.is_sizable (env.real_minus first x)) && all_near first xs

    abbrev all_near_args : List ℕ → Bool
    all_near_args [] = true
    all_near_args (x ∷ xs) = all_near x xs

    unfoldable pub real_eq_impl : Evaluator Ctx → CellPtr → M Ctx CellPtr
    unfolding real_args
    real_eq_impl ev args =
        if ltb (list_length args) 2
        then fail (codes "real/eq requires at least 2 arguments")
        else (do
          evaled ← real_args (codes "real/eq requires real arguments") ev args
          pure (truth (all_near_args evaled)))

    -- `fabs(val_i - val_j) < 1e-10` ends both loops.
    abbrev none_near : ℕ → List ℕ → Bool
    none_near x [] = true
    none_near x (y ∷ ys) = not (env.is_tiny (env.real_minus x y)) && none_near x ys

    abbrev all_apart : List ℕ → Bool
    all_apart [] = true
    all_apart (x ∷ xs) = none_near x xs && all_apart xs

    unfoldable pub real_neq_impl : Evaluator Ctx → CellPtr → M Ctx CellPtr
    unfolding real_args
    real_neq_impl ev args =
        if ltb (list_length args) 2
        then fail (codes "real/neq requires at least 2 arguments")
        else (do
          evaled ← real_args (codes "real/neq requires real arguments") ev args
          pure (truth (all_apart evaled)))

    unfoldable pub real_lt_impl : Evaluator Ctx → CellPtr → M Ctx CellPtr
    unfolding real_compare_impl
    real_lt_impl = real_compare_impl (codes "real/lt") env.real_lt

    unfoldable pub real_lte_impl : Evaluator Ctx → CellPtr → M Ctx CellPtr
    unfolding real_compare_impl
    real_lte_impl = real_compare_impl (codes "real/lte") env.real_le

    unfoldable pub real_gt_impl : Evaluator Ctx → CellPtr → M Ctx CellPtr
    unfolding real_compare_impl
    real_gt_impl = real_compare_impl (codes "real/gt") (λ a b. env.real_lt b a)

    unfoldable pub real_gte_impl : Evaluator Ctx → CellPtr → M Ctx CellPtr
    unfolding real_compare_impl
    real_gte_impl = real_compare_impl (codes "real/gte") (λ a b. env.real_le b a)

    -- A double that is not close to 0.
    unfoldable pub is_real_true : CellPtr → Bool
    is_real_true p = type_eq (cell_get_type p) type_real_literal && env.is_sizable (cell_as_real p)

    unfoldable pub real_and_loop : Evaluator Ctx → CellPtr → M Ctx CellPtr
    unfolding is_real_true
    real_and_loop ev null = pure (truth true)
    real_and_loop ev (node r c next) = do
      evaled ← ev plain (node r c next)
      if is_real_true evaled then real_and_loop ev next else pure (truth false)

    unfoldable pub real_and_impl : Evaluator Ctx → CellPtr → M Ctx CellPtr
    unfolding real_and_loop
    real_and_impl ev args =
        if ltb (list_length args) 2
        then fail (codes "real/and: requires at least 2 arguments")
        else real_and_loop ev args

    unfoldable pub real_or_loop : Evaluator Ctx → CellPtr → M Ctx CellPtr
    unfolding is_real_true
    real_or_loop ev null = pure (truth false)
    real_or_loop ev (node r c next) = do
      evaled ← ev plain (node r c next)
      if is_real_true evaled then pure (truth true) else real_or_loop ev next

    unfoldable pub real_or_impl : Evaluator Ctx → CellPtr → M Ctx CellPtr
    unfolding real_or_loop
    real_or_impl ev args =
        if ltb (list_length args) 2
        then fail (codes "real/or: requires at least 2 arguments")
        else real_or_loop ev args

    unfoldable pub real_not_impl : Evaluator Ctx → CellPtr → M Ctx CellPtr
    unfolding is_real_true
    real_not_impl ev args =
        if list_length args == 1
        then (do evaled ← ev plain (list_nth args 0); pure (truth (not (is_real_true evaled))))
        else fail (codes "real/not: requires exactly 1 argument")
