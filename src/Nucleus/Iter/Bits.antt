-- ===== src/Nucleus/Iter/Bits.antt =====
-- `iter` on the bits of numbers: a lambda that gives back each bit gives back the number.
use native.Mathlib.Nat.{
  add-zero, mod-one, one-le-pow, zero-add, div-add-mod', div-div-eq-div-mul, div-eq_of_lt, mod-lt,
  mod-eq_of_lt, pow-suc,
}
use akx.Base.{
  ℕ, zero, suc, ◌+◌, ◌*◌, ◌/◌, ◌%◌, ◌^◌, ◌<◌, ◌≡◌, refl, sym, ap, ◌∙◌, arith, Option, if◌then◌else◌,
}
use akx.Base.Int.{ℤ, pos, negsuc, wrap, to_bits, IsInt, eqb_ℤ}
use akx.Cell.{CellPtr, node, integer_literal, real_literal, alloc_cell, SourceRange}
use akx.Nucleus.Iter.{bit_at, put_bit, iter_bits, iter_integer, iter_real, iter_value}
use akx.Rt.{Runtime, done, M, ◌>>=◌, pure}

mod_twice : (b w : ℕ) → b % (w * 2) ≡ b % w + b / w % 2 * w
mod_twice b w = omega (
  arith,
  div-add-mod' b w,
  div-add-mod' b (w * 2),
  ap (λ x. x * w) (div-add-mod' (b / w) 2),
  ap (λ x. x * (w * 2)) (div-div-eq-div-mul b w 2),
)

mod_two_pow_suc : (b p : ℕ) → b % 2 ^ suc p ≡ b % 2 ^ p + bit_at b p * 2 ^ p
mod_two_pow_suc b p = rw (pow-suc 2 p) (mod_twice b (2 ^ p))

bit_of_lt : (r p : ℕ) → r < 2 ^ p → bit_at r p ≡ 0
bit_of_lt r p h = rw (div-eq_of_lt h) refl

put_bit-back :
    (b p : ℕ)
    → put_bit (b % 2 ^ p) p (alloc_cell (integer_literal (pos (bit_at b p)))) ≡ b % 2 ^ suc p
put_bit-back b p =
    let low : b % 2 ^ p < 2 ^ p = mod-lt b (one-le-pow p 2 (omega arith)) in
    let same : (if eqb_ℤ (pos (bit_at b p)) (pos 0) then 0 else 1) ≡ bit_at b p = ground arith in
    rw (bit_of_lt (b % 2 ^ p) p low, same, mod_two_pow_suc b p) (omega arith)

plus-suc : (n p : ℕ) → n + suc p ≡ suc n + p
plus-suc n p = omega arith

to_bits-lt : (v : ℤ) → to_bits v < 2 ^ 32
to_bits-lt (pos n) = omega arith
to_bits-lt (negsuc n) = omega arith

wrap-to_bits : (v : ℤ) → IsInt v → wrap (pos (to_bits v)) ≡ v
unfolding wrap
wrap-to_bits (pos n) h = ground arith
wrap-to_bits (negsuc n) h = ground arith

-- The lambda gives back each bit, and keeps what it takes for that to be so.
abbrev pub GivesBack :
    {Ctx : Type 0} → (CellPtr → CellPtr → M Ctx CellPtr) → CellPtr → (Runtime Ctx → Type 0) → Type 0
GivesBack {Ctx} call lambda_cell Good =
    (rt : Runtime Ctx) (bit : ℕ)
    → Good rt
    → (rt' : Runtime Ctx) × (call lambda_cell (alloc_cell (integer_literal (pos bit))) rt
        ≡ done (alloc_cell (integer_literal (pos bit))) rt')
      × Good rt'

module _ {Ctx : Type 0} (call : CellPtr → CellPtr → M Ctx CellPtr) (lambda_cell : CellPtr)
    (Good : Runtime Ctx → Type 0) (back : GivesBack call lambda_cell Good) where
  iter_bits-back :
      (bits n p : ℕ) (rt : Runtime Ctx)
      → Good rt
      → (rt' : Runtime Ctx) × (iter_bits call lambda_cell bits n p (bits % 2 ^ p) rt
          ≡ done (bits % 2 ^ (n + p)) rt')
        × Good rt'
  unfolding iter_bits pure ◌>>=◌
  iter_bits-back bits zero p rt g = (rt, rw (zero-add p) refl, g)
  iter_bits-back bits (suc n) p rt g =
      let (s, e, h) = back rt (bit_at bits p) g in
      let (t, k, i) = iter_bits-back bits n (suc p) s h in
      (t, rw (e, put_bit-back bits p, k) (ap (λ x. done (bits % 2 ^ x) t) (plus-suc n p)), i)

  iter_bits-whole :
      (bits n : ℕ) (rt : Runtime Ctx)
      → bits < 2 ^ n
      → Good rt
      → (rt' : Runtime Ctx) × (iter_bits call lambda_cell bits n 0 0 rt ≡ done bits rt') × Good rt'
  iter_bits-whole bits n rt l g =
      let (s, e, i) = iter_bits-back bits n 0 rt g in
      let start : bits % 2 ^ 0 ≡ 0 = mod-one bits in
      let finish : bits % 2 ^ (n + 0) ≡ bits = rw (add-zero n) (mod-eq_of_lt l) in
      (
        s,
        ap (λ r. iter_bits call lambda_cell bits n 0 r rt) (sym start)
            ∙ e
            ∙ ap (λ r. done r s) finish,
        i,
      )

  -- An `int` in range and a double of 64 bits come back as they were.
  pub iter_value-back :
      (r : Option SourceRange) (next : CellPtr) (v : ℤ) (x : ℕ) (rt : Runtime Ctx)
      → IsInt v
      → x < 2 ^ 64
      → Good rt
      → ((rt' : Runtime Ctx) × (iter_value call (node r (integer_literal v) next) lambda_cell rt
            ≡ done (alloc_cell (integer_literal v)) rt')
          × Good rt')
        × ((rt' : Runtime Ctx) × (iter_value call (node r (real_literal x) next) lambda_cell rt
              ≡ done (alloc_cell (real_literal x)) rt')
            × Good rt')
  unfolding iter_value iter_integer iter_real ◌>>=◌ pure
  iter_value-back r next v x rt h k g =
      let (s, e, i) = iter_bits-whole (to_bits v) 32 rt (to_bits-lt v) g in
      let (t, d, j) = iter_bits-whole x 64 rt k g in
      ((s, rw (e, wrap-to_bits v h) refl, i), (t, rw d refl, j))
