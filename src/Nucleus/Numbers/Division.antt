-- ===== src/Nucleus/Numbers/Division.antt =====
-- `/` and `%` belong together.
use akx.Base.{ℕ, suc, ◌<◌, ◌≡◌, refl, false, arith}
use native.Mathlib.Nat.{div-add-mod', mod-lt}
use akx.Cell.{Cell, SourceRange, CellPtr, null, node, integer_literal}
use akx.Base.{Option}
use akx.Cell.Chain.{list_length, list_nth}
use akx.Nucleus.Numbers.{akx_div, akx_mod, int_cell}
use akx.Rt.{Runtime, Evaluator, plain, done, ◌>>=◌, pure, eval_and_assert}
use akx.Base.Int.{ℤ, pos, negsuc, ◌+ℤ◌, ◌*ℤ◌, sub_ℕ, quot, rem, eqb_ℤ, wrap_self, IsInt}

-- The absolute value.
abbrev pub abs : ℤ → ℕ
abs (pos n) = n
abs (negsuc n) = suc n

quot-rem : (a b : ℤ) → eqb_ℤ b (pos 0) ≡ false → quot a b *ℤ b +ℤ rem a b ≡ a
unfolding quot rem ◌*ℤ◌ ◌+ℤ◌ sub_ℕ
quot-rem (pos a) (pos b) h = ground (arith, div-add-mod' a b)
quot-rem (pos a) (negsuc b) h = ground (arith, div-add-mod' a (suc b))
quot-rem (negsuc a) (pos b) h = ground (arith, div-add-mod' (suc a) b)
quot-rem (negsuc a) (negsuc b) h = ground (arith, div-add-mod' (suc a) (suc b))

abs-rem : (a b : ℤ) → eqb_ℤ b (pos 0) ≡ false → abs (rem a b) < abs b
unfolding rem sub_ℕ
abs-rem (pos a) (pos b) h = ground (arith, mod-lt a {m = b})
abs-rem (pos a) (negsuc b) h = ground (arith, mod-lt a {m = suc b})
abs-rem (negsuc a) (pos b) h = ground (arith, mod-lt (suc a) {m = b})
abs-rem (negsuc a) (negsuc b) h = ground (arith, mod-lt (suc a) {m = suc b})

IsInt-smaller : (a b : ℤ) → IsInt b → abs a < abs b → IsInt a
IsInt-smaller a b h l = ground arith

module _ {Ctx : Type 0} (ev : Evaluator Ctx) where
  -- Two arguments with integer values `a` and `b`, where `b` is not 0 and the quotient is in range:
  -- `/` and `%` give integers `q` and `r` with q * b + r = a exactly, and `r` is smaller than `b` in
  -- absolute value.
  pub div-mod :
      (args : CellPtr) (r s p q : Option SourceRange) (c d : Cell) (n m : CellPtr) (a b : ℤ)
      (rt rt1 rt2 : Runtime Ctx)
      → args ≡ node r c (node s d null)
      → ev plain (node r c (node s d null)) rt ≡ done (node p (integer_literal a) n) rt1
      → ev plain (node s d null) rt1 ≡ done (node q (integer_literal b) m) rt2
      → IsInt b
      → eqb_ℤ b (pos 0) ≡ false
      → IsInt (quot a b)
      → (akx_div ev args rt ≡ done (int_cell (quot a b)) rt2)
        × (akx_mod ev args rt ≡ done (int_cell (rem a b)) rt2)
        × (quot a b *ℤ b +ℤ rem a b ≡ a)
        × (abs (rem a b) < abs b)
  unfolding akx_div akx_mod ◌>>=◌ pure eval_and_assert list_length list_nth
  div-mod args r s p q c d n m a b rt rt1 rt2 is e1 e2 int nz fits =
      let small = abs-rem a b nz in
      (
        rw (is, e1, e2, nz, wrap_self (quot a b) fits) refl,
        rw (is, e1, e2, nz, wrap_self (rem a b) (IsInt-smaller (rem a b) b int small)) refl,
        quot-rem a b nz,
        small,
      )
