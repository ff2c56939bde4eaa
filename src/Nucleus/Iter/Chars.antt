-- ===== src/Nucleus/Iter/Chars.antt =====
-- `iter` on the characters of strings.
use akx.Base.{
  ℕ, zero, suc, ◌<◌, ◌≤◌, ◌≡◌, refl, ◌∙◌, arith, List, [], ◌∷◌, ◌++◌, append-nil, append_assoc,
  length, take, drop, take-drop, length-take, length-drop,
}
use akx.Base.Text.{concat, Bytes, c_string, HasNoNul, c_string-HasNoNul, c_string_self}
use akx.Cell.{CellPtr, string_literal, alloc_cell}
use akx.Nucleus.Iter.{utf8_char_length, utf8_chars, iter_chars, iter_string}
use akx.Rt.{Runtime, done, M, ◌>>=◌, pure}

-- Every character has at least one byte, and with its NUL it fits the buffer of five bytes.
abbrev pub FitBuffer : List Bytes → Type 0
FitBuffer [] = Unit
FitBuffer (c ∷ chars) = (0 < length c) × (length c < 5) × FitBuffer chars

utf8_char_length-bounds : (c : ℕ) → (0 < utf8_char_length c) × (utf8_char_length c < 5)
utf8_char_length-bounds c = (ground arith, ground arith)

-- The characters of a string are the string cut into pieces.
pub utf8_chars-concat :
    (fuel : ℕ) (s : Bytes)
    → length s ≤ fuel
    → (concat (utf8_chars fuel s) ≡ s) × FitBuffer (utf8_chars fuel s)
unfolding utf8_chars
utf8_chars-concat fuel [] h = (refl, tt)
utf8_chars-concat zero (c ∷ cs) h = absurd (omega (arith, h))
utf8_chars-concat (suc fuel) (c ∷ cs) h =
    let (a, b) = utf8_char_length-bounds c in
    let n : length (take (utf8_char_length c) (c ∷ cs)) ≡ _ =
      length-take (utf8_char_length c) (c ∷ cs) in
    let m = length-drop (utf8_char_length c) (c ∷ cs) in
    let (e, f) =
      utf8_chars-concat fuel (drop (utf8_char_length c) (c ∷ cs)) (omega (arith, m, a, h)) in
    (rw e (take-drop (utf8_char_length c) (c ∷ cs)), (omega (arith, n, a), omega (arith, n, b), f))

abbrev pub NoNuls : List Bytes → Type 0
NoNuls [] = Unit
NoNuls (c ∷ chars) = HasNoNul c × NoNuls chars

take-HasNoNul : (n : ℕ) (s : Bytes) → HasNoNul s → HasNoNul (take n s)
take-HasNoNul zero s h = tt
take-HasNoNul (suc n) [] h = tt
take-HasNoNul (suc n) (c ∷ s) (z, h) = (z, take-HasNoNul n s h)

drop-HasNoNul : (n : ℕ) (s : Bytes) → HasNoNul s → HasNoNul (drop n s)
drop-HasNoNul zero s h = h
drop-HasNoNul (suc n) [] h = tt
drop-HasNoNul (suc n) (c ∷ s) (z, h) = drop-HasNoNul n s h

utf8_chars-NoNuls : (fuel : ℕ) (s : Bytes) → HasNoNul s → NoNuls (utf8_chars fuel s)
unfolding utf8_chars
utf8_chars-NoNuls fuel [] h = tt
utf8_chars-NoNuls zero (c ∷ cs) h = tt
utf8_chars-NoNuls (suc fuel) (c ∷ cs) h = (
  take-HasNoNul (utf8_char_length c) (c ∷ cs) h,
  utf8_chars-NoNuls fuel _ (drop-HasNoNul (utf8_char_length c) (c ∷ cs) h),
)

-- The lambda gives back each string, and keeps what it takes for that to be so.
abbrev pub GivesBackStrings :
    {Ctx : Type 0} → (CellPtr → CellPtr → M Ctx CellPtr) → CellPtr → (Runtime Ctx → Type 0) → Type 0
GivesBackStrings {Ctx} call lambda_cell Good =
    (rt : Runtime Ctx) (s : Bytes)
    → Good rt
    → (rt' : Runtime Ctx) × (call lambda_cell (alloc_cell (string_literal s)) rt
        ≡ done (alloc_cell (string_literal s)) rt')
      × Good rt'

module _ {Ctx : Type 0} (call : CellPtr → CellPtr → M Ctx CellPtr) (lambda_cell : CellPtr)
    (Good : Runtime Ctx → Type 0) (back : GivesBackStrings call lambda_cell Good) where
  iter_chars-back :
      (chars : List Bytes) (result : Bytes) (rt : Runtime Ctx)
      → NoNuls chars
      → Good rt
      → (rt' : Runtime Ctx) × (iter_chars call lambda_cell chars result rt
          ≡ done (alloc_cell (string_literal (result ++ concat chars))) rt')
        × Good rt'
  unfolding iter_chars pure ◌>>=◌
  iter_chars-back [] result rt n g = (rt, rw (append-nil result) refl, g)
  iter_chars-back (c ∷ chars) result rt (z, n) g =
      let (s, e, h) = back rt c g in
      let (t, k, i) = iter_chars-back chars (result ++ c) s n h in
      (t, rw (e, c_string_self c z, k, append_assoc result c (concat chars)) refl, i)

  -- A string comes back up to its first NUL, cut into characters that fit the buffer.
  pub iter_string-back :
      (s : Bytes) (rt : Runtime Ctx)
      → Good rt
      → FitBuffer (utf8_chars (length (c_string s)) (c_string s))
        × ((rt' : Runtime Ctx) × (iter_string call s lambda_cell rt
              ≡ done (alloc_cell (string_literal (c_string s))) rt')
            × Good rt')
  unfolding iter_string
  iter_string-back s rt g =
      let (e, f) = utf8_chars-concat (length (c_string s)) (c_string s) (omega arith) in
      let (t, k, i) =
        iter_chars-back (utf8_chars (length (c_string s)) (c_string s)) [] rt
          (utf8_chars-NoNuls _ (c_string s) (c_string-HasNoNul s)) g in
      (f, (t, k ∙ rw e refl, i))
