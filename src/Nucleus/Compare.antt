-- ===== src/Nucleus/Compare.antt =====
-- nucleus/cmp: `eq` and `neq` on any number of values, and the four orders on two numbers.
pub mod Runs
pub mod Orders
use akx.Base.{ℕ, Bool, true, false, not, List, [], ◌∷◌, ◌&&◌, ◌||◌, ◌++◌, ltb, ◌==◌, if◌then◌else◌}
use akx.Base.Int.{ℤ, eqb_ℤ, ltb_ℤ}
use akx.Base.Text.{Bytes, codes, strcmp_eq}
use akx.Cell.{
  CellPtr, null, node, symbol, string_literal, integer_literal, real_literal, lambda, type_eq,
  cell_get_type, truth,
}
use akx.Cell.Chain.{list_length, list_nth}
use akx.Rt.{Env, M, Evaluator, plain, ◌>>=◌, pure, fail}

module _ {Ctx : Type 0} where
  -- The array `evaled_args`.
  unfoldable pub eval_args : Evaluator Ctx → CellPtr → M Ctx (List CellPtr)
  eval_args ev null = pure []
  eval_args ev (node r c next) = do
    evaled ← ev plain (node r c next)
    rest ← eval_args ev next
    pure (evaled ∷ rest)

  module _ (env : Env Ctx) where
    -- `cells_equal` of neq.c, and the switch of eq.c.
    unfoldable pub cells_equal : CellPtr → CellPtr → Bool
    unfolding strcmp_eq
    cells_equal (node _ (integer_literal a) _) (node _ (integer_literal b) _) = eqb_ℤ a b
    cells_equal (node _ (real_literal a) _) (node _ (real_literal b) _) = env.real_eq a b
    cells_equal (node _ (string_literal a) _) (node _ (string_literal b) _) = strcmp_eq a b
    cells_equal (node _ (symbol a) _) (node _ (symbol b) _) = strcmp_eq a b
    cells_equal (node _ (lambda a) _) (node _ (lambda b) _) = env.same_lambda a b
    cells_equal _ _ = false

    -- Each later value is compared with the first.
    unfoldable pub all_equal : CellPtr → List CellPtr → Bool
    all_equal first [] = true
    all_equal first (p ∷ ps) = cells_equal first p && all_equal first ps

    abbrev pub all_equal_args : List CellPtr → Bool
    all_equal_args [] = true
    all_equal_args (p ∷ ps) = all_equal p ps

    unfoldable pub eq_impl : Evaluator Ctx → CellPtr → M Ctx CellPtr
    unfolding all_equal cells_equal eval_args
    eq_impl ev args =
        if ltb (list_length args) 2
        then fail (codes "eq requires at least 2 arguments")
        else (do evaled ← eval_args ev args; pure (truth (all_equal_args evaled)))

    unfoldable pub none_equal : CellPtr → List CellPtr → Bool
    none_equal p [] = true
    none_equal p (q ∷ qs) = not (cells_equal p q) && none_equal p qs

    unfoldable pub all_different : List CellPtr → Bool
    unfolding none_equal
    all_different [] = true
    all_different (p ∷ ps) = none_equal p ps && all_different ps

    unfoldable pub neq_impl : Evaluator Ctx → CellPtr → M Ctx CellPtr
    unfolding all_different cells_equal eval_args
    neq_impl ev args =
        if ltb (list_length args) 2
        then fail (codes "neq requires at least 2 arguments")
        else (do evaled ← eval_args ev args; pure (truth (all_different evaled)))

  -- The shape of lt.c, lte.c, gt.c and gte.c.
  unfoldable pub compare_numbers :
      Bytes → (ℤ → ℤ → Bool) → (ℕ → ℕ → Bool) → CellPtr → CellPtr → M Ctx CellPtr
  compare_numbers name on_int on_real (node _ (integer_literal a) _)
        (node _ (integer_literal b) _) =
      pure (truth (on_int a b))
  compare_numbers name on_int on_real (node _ (real_literal a) _) (node _ (real_literal b) _) =
      pure (truth (on_real a b))
  compare_numbers name on_int on_real left right =
      if type_eq (cell_get_type left) (cell_get_type right)
      then fail (name ++ codes ": operands must be integer or real")
      else fail (name ++ codes ": both operands must be the same type")

  unfoldable pub compare_impl :
      Bytes → (ℤ → ℤ → Bool) → (ℕ → ℕ → Bool) → Evaluator Ctx → CellPtr → M Ctx CellPtr
  compare_impl name on_int on_real ev args =
      if list_length args == 2
      then (do
        left ← ev plain (list_nth args 0)
        right ← ev plain (list_nth args 1)
        compare_numbers name on_int on_real left right)
      else fail (name ++ codes " requires exactly 2 arguments")

  module _ (env : Env Ctx) where
    unfoldable pub lt_impl : Evaluator Ctx → CellPtr → M Ctx CellPtr
    unfolding compare_impl compare_numbers
    lt_impl = compare_impl (codes "lt") ltb_ℤ env.real_lt

    unfoldable pub lte_impl : Evaluator Ctx → CellPtr → M Ctx CellPtr
    unfolding compare_impl compare_numbers
    lte_impl = compare_impl (codes "lte") (λ a b. not (ltb_ℤ b a)) env.real_le

    unfoldable pub gt_impl : Evaluator Ctx → CellPtr → M Ctx CellPtr
    unfolding compare_impl compare_numbers
    gt_impl = compare_impl (codes "gt") (λ a b. ltb_ℤ b a) (λ a b. env.real_lt b a)

    unfoldable pub gte_impl : Evaluator Ctx → CellPtr → M Ctx CellPtr
    unfolding compare_impl compare_numbers
    gte_impl = compare_impl (codes "gte") (λ a b. not (ltb_ℤ a b)) (λ a b. env.real_le b a)
