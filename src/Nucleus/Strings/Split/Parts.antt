-- ===== src/Nucleus/Strings/Split/Parts.antt =====
-- What `str/split` cuts a string into.
use native.Mathlib.Nat.{zero-add, suc-add}
use akx.Base.{
  ℕ, zero, suc, ◌+◌, ◌<◌, ◌≤◌, ◌≡◌, refl, sym, ap, ◌∙◌, arith, true, false, [], ◌∷◌, ◌++◌, Option,
  none, some, Bool-cases, inl, inr, length, take, drop, take-drop, length-take, IsPrefix, ltb, leb,
  ◌||◌,
}
use akx.Base.Int.{ℤ, pos, negsuc, ltb_ℤ}
use akx.Base.Text.{Bytes, c_string, codes}
use akx.Cell.{CellPtr, string_literal, alloc_cell}
use akx.Nucleus.Strings.Split.{begins_with, strstr, two_cells, split_at, split_around, split_sub}
use akx.Rt.{Runtime, Outcome, done, pure, fail}

begins_with-true : (sub text : Bytes) → begins_with sub text ≡ true → IsPrefix sub text
begins_with-true [] text h = (text, refl)
begins_with-true (c ∷ sub) [] h = absurd (ground arith)
begins_with-true (c ∷ sub) (d ∷ text) h =
    let same : c ≡ d = ground arith in
    let (r, e) = begins_with-true sub text (ground arith) in (r, cc)

begins_with-false : (sub text : Bytes) → begins_with sub text ≡ false → ¬ IsPrefix sub text
begins_with-false [] text h p = absurd (ground arith)
begins_with-false (c ∷ sub) [] h (r, e) = absurd (ground arith)
begins_with-false (c ∷ sub) (d ∷ text) h (r, e) =
    let same : d ≡ c = cc in
    let more : text ≡ sub ++ r = cc in begins_with-false sub text (ground arith) (r, more)

-- The substring stands nowhere in the text, or first at the position.
pub data Finds (text sub : Bytes) : Option ℕ → Type 0 where
  nowhere : ((n : ℕ) → ¬ IsPrefix sub (drop n text)) → Finds text sub none
  first :
      {n : ℕ}
      → IsPrefix sub (drop n text)
      → ((m : ℕ) → m < n → ¬ IsPrefix sub (drop m text))
      → Finds text sub (some n)

everywhere :
    (c : ℕ) (text sub : Bytes)
    → ¬ IsPrefix sub (c ∷ text)
    → ((n : ℕ) → ¬ IsPrefix sub (drop n text))
    → (n : ℕ) → ¬ IsPrefix sub (drop n (c ∷ text))
everywhere c text sub h k zero = h
everywhere c text sub h k (suc n) = k n

later :
    (c : ℕ) (text sub : Bytes) {o : Option ℕ}
    → ¬ IsPrefix sub (c ∷ text)
    → Finds text sub o
    → Finds (c ∷ text) sub (elim o [ none ↦ none | some n ↦ some (suc n) ])
later c text sub h (nowhere k) = nowhere (everywhere c text sub h k)
later c text sub h (first {n} p k) = first p λ m.
    elim m as (λ m. m < suc n → ¬ IsPrefix sub (drop m (c ∷ text))) [
      | zero ↦ λ l. h
      | suc i ↦ λ l. k i (omega (arith, l))
    ]

strstr-Finds : (text sub : Bytes) → Finds text sub (strstr text sub)
unfolding strstr
strstr-Finds [] sub = elim (Bool-cases (begins_with sub [])) [
  | inl here ↦
      rw here (first {n = 0} (begins_with-true sub [] here) (λ m l. absurd (omega (arith, l))))
  | inr not_here ↦ rw not_here (
      nowhere λ n. elim n as (λ n. ¬ IsPrefix sub (drop n [])) [
        | zero ↦ begins_with-false sub [] not_here
        | suc i ↦ begins_with-false sub [] not_here
      ])
]
strstr-Finds (c ∷ text) sub = elim (Bool-cases (begins_with sub (c ∷ text))) [
  | inl here ↦
      rw here
        (first {n = 0} (begins_with-true sub (c ∷ text) here) (λ m l. absurd (omega (arith, l))))
  | inr not_here ↦
      rw not_here
        (later c text sub (begins_with-false sub (c ∷ text) not_here) (strstr-Finds text sub))
]

drop-nil : (k : ℕ) → drop {A = ℕ} k [] ≡ []
drop-nil zero = refl
drop-nil (suc k) = refl

drop-add : (n m : ℕ) (xs : Bytes) → drop (n + m) xs ≡ drop m (drop n xs)
drop-add zero m xs = ap (λ k. drop k xs) (zero-add m)
drop-add (suc n) m [] = rw (suc-add n m, drop-nil m) refl
drop-add (suc n) m (x ∷ xs) = rw (suc-add n m) (drop-add n m xs)

drop-append : (xs ys : Bytes) → drop (length xs) (xs ++ ys) ≡ ys
drop-append [] ys = refl
drop-append (x ∷ xs) ys = drop-append xs ys

-- What `:sub` gives: the whole text where the substring stands nowhere in it, else what stands before
-- and behind its first place.
pub data SplitAround (text sub : Bytes) : CellPtr → Type 0 where
  whole :
      ((n : ℕ) → ¬ IsPrefix sub (drop n text))
      → SplitAround text sub (alloc_cell (string_literal text))
  cut :
      {left right : Bytes}
      → text ≡ left ++ (sub ++ right)
      → ((m : ℕ) → m < length left → ¬ IsPrefix sub (drop m text))
      → SplitAround text sub (two_cells left right)

split_around-SplitAround :
    (text sub : Bytes) {o : Option ℕ}
    → Finds text sub o
    → SplitAround text sub (split_around text sub o)
split_around-SplitAround text sub (nowhere k) = whole k
split_around-SplitAround text sub (first {n} (r, e) k) =
    let right : drop (n + length sub) text ≡ r =
      drop-add n (length sub) text ∙ ap (drop (length sub)) e ∙ drop-append sub r in
    cut (sym (take-drop n text) ∙ ap (λ t. take n text ++ t) (e ∙ ap (λ t. sub ++ t) (sym right)))
      (λ m l. k m (omega (arith, l, length-take n text)))

-- The string is cut around the first place of the substring, and is whole where there is none.
pub split_sub-SplitAround :
    (input_str substring : Bytes)
    → SplitAround (c_string input_str) (c_string substring) (split_sub input_str substring)
unfolding split_sub
split_sub-SplitAround input_str substring =
    split_around-SplitAround (c_string input_str) (c_string substring)
      (strstr-Finds (c_string input_str) (c_string substring))

as_long : (i : ℕ) (text : Bytes) → i ≤ length text → i ≡ length (take i text)
as_long i text h = omega (arith, length-take i text)

out_of_bounds :
    (i : ℕ) (text : Bytes) → length text < i → (ltb_ℤ (pos i) (pos 0) || ltb (length text) i) ≡ true
out_of_bounds i text h = ground arith

in_bounds :
    (i : ℕ) (text : Bytes)
    → i ≤ length text
    → (ltb_ℤ (pos i) (pos 0) || ltb (length text) i) ≡ false
in_bounds i text h = ground arith

negative : (i : ℕ) (text : Bytes) → (ltb_ℤ (negsuc i) (pos 0) || ltb (length text) 0) ≡ true
negative i text = ground arith

module _ {Ctx : Type 0} where
  -- What `:idx` gives: two parts that make up the text, the first as long as the index says, or an
  -- error where the index is not between 0 and the length.
  pub data SplitIndex (text : Bytes) (idx : ℤ) (rt : Runtime Ctx)
      : Outcome Ctx CellPtr → Type 0 where
    parts :
        {left right : Bytes}
        → left ++ right ≡ text
        → idx ≡ pos (length left)
        → SplitIndex text idx rt (done (two_cells left right) rt)
    outside :
        ((n : ℕ) → idx ≡ pos n → length text < n)
        → SplitIndex text idx rt (fail (codes "str/split: index out of bounds") rt)

  -- On every index.
  pub split_at-SplitIndex :
      (input_str : Bytes) (idx : ℤ) (rt : Runtime Ctx)
      → SplitIndex (c_string input_str) idx rt (split_at input_str idx rt)
  unfolding split_at pure
  split_at-SplitIndex input_str (pos i) rt =
      elim (Bool-cases (leb i (length (c_string input_str)))) [
        | inl within ↦ rw (in_bounds i (c_string input_str) (ground arith)) (
            parts (take-drop i (c_string input_str))
              (ap pos (as_long i (c_string input_str) (ground arith))))
        | inr beyond ↦
            rw (out_of_bounds i (c_string input_str) (ground arith)) (outside (λ n e. ground arith))
      ]
  split_at-SplitIndex input_str (negsuc i) rt =
      rw (negative i (c_string input_str)) (outside (λ n e. absurd (ground arith)))
