-- ===== src/Nucleus/Compare/Orders.antt =====
-- The comparisons of two values agree with each other.
use akx.Base.{Option, ◌≡◌, refl, ap, Bool, true, false, not, ◌&&◌, ◌||◌, arith}
use akx.Base.Int.{ℤ, eqb_ℤ, ltb_ℤ}
use akx.Cell.{Cell, SourceRange, CellPtr, null, node, integer_literal, truth}
use akx.Cell.Chain.{list_length, list_nth}
use akx.Nucleus.Compare.{
  eval_args, cells_equal, all_equal, eq_impl, all_different, neq_impl, compare_numbers, lt_impl,
  lte_impl, gt_impl, gte_impl, compare_impl, none_equal,
}
use akx.Rt.{Env, Runtime, Evaluator, plain, done, ◌>>=◌, pure}

-- Exactly one of three answers is yes.
abbrev pub one_of : Bool → Bool → Bool → Bool
one_of true false false = true
one_of false true false = true
one_of false false true = true
one_of _ _ _ = false

trichotomy : (a b : ℤ) → one_of (ltb_ℤ a b) (eqb_ℤ a b) (ltb_ℤ b a) ≡ true
trichotomy a b = ground arith

not_less : (a b : ℤ) → not (ltb_ℤ b a) ≡ (ltb_ℤ a b || eqb_ℤ a b)
not_less a b = ground arith

not_more : (a b : ℤ) → not (ltb_ℤ a b) ≡ (ltb_ℤ b a || eqb_ℤ a b)
not_more a b = ground arith

and_true : (b : Bool) → (b && true) ≡ b
and_true true = refl
and_true false = refl

and_true_twice : (b : Bool) → ((b && true) && true) ≡ b
and_true_twice true = refl
and_true_twice false = refl

module _ {Ctx : Type 0} (env : Env Ctx) (ev : Evaluator Ctx) where
  -- Two arguments with integer values: exactly one of `lt`, `eq` and `gt` answers 1, `lte` is `lt`
  -- or `eq`, `gte` is `gt` or `eq`, and `neq` is the negation of `eq`.
  pub orders_agree :
      (args : CellPtr) (r s p q : Option SourceRange) (c d : Cell) (n m : CellPtr) (a b : ℤ)
      (rt rt1 rt2 : Runtime Ctx)
      → args ≡ node r c (node s d null)
      → ev plain (node r c (node s d null)) rt ≡ done (node p (integer_literal a) n) rt1
      → ev plain (node s d null) rt1 ≡ done (node q (integer_literal b) m) rt2
      → (less same more : Bool) × (one_of less same more ≡ true)
        × (lt_impl env ev args rt ≡ done (truth less) rt2)
        × (eq_impl env ev args rt ≡ done (truth same) rt2)
        × (gt_impl env ev args rt ≡ done (truth more) rt2)
        × (lte_impl env ev args rt ≡ done (truth (less || same)) rt2)
        × (gte_impl env ev args rt ≡ done (truth (more || same)) rt2)
        × (neq_impl env ev args rt ≡ done (truth (not same)) rt2)
  unfolding lt_impl lte_impl gt_impl gte_impl eq_impl neq_impl compare_numbers compare_impl
      all_equal all_different none_equal cells_equal eval_args ◌>>=◌ pure list_length list_nth
  orders_agree args r s p q c d n m a b rt rt1 rt2 is e1 e2 = (
    ltb_ℤ a b,
    eqb_ℤ a b,
    ltb_ℤ b a,
    trichotomy a b,
    rw (is, e1, e2) refl,
    rw (is, e1, e2) (ap (λ b. done (truth b) rt2) (and_true (eqb_ℤ a b))),
    rw (is, e1, e2) refl,
    rw (is, e1, e2, ← not_less a b) refl,
    rw (is, e1, e2, ← not_more a b) refl,
    rw (is, e1, e2) (ap (λ b. done (truth b) rt2) (and_true_twice (not (eqb_ℤ a b)))),
  )

  -- Two arguments with values of any types: `eq` answers whether the two are equal cells, and `neq`
  -- the opposite, both in the state that the second argument left.
  neq-eq :
      (args : CellPtr) (r s : Option SourceRange) (c d : Cell) (v w : CellPtr)
      (rt rt1 rt2 : Runtime Ctx)
      → args ≡ node r c (node s d null)
      → ev plain (node r c (node s d null)) rt ≡ done v rt1
      → ev plain (node s d null) rt1 ≡ done w rt2
      → (eq_impl env ev args rt ≡ done (truth (cells_equal env v w)) rt2)
        × (neq_impl env ev args rt ≡ done (truth (not (cells_equal env v w))) rt2)
  unfolding eq_impl neq_impl all_equal all_different none_equal eval_args ◌>>=◌ pure list_length
  neq-eq args r s c d v w rt rt1 rt2 is e1 e2 = (
    rw (is, e1, e2) (ap (λ b. done (truth b) rt2) (and_true (cells_equal env v w))),
    rw (is, e1, e2) (ap (λ b. done (truth b) rt2) (and_true_twice (not (cells_equal env v w)))),
  )
