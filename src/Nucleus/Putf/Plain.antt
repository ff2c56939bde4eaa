-- ===== src/Nucleus/Putf/Plain.antt =====
-- Any text can be printed: `io/putf` on a format in which each backslash and each `%` is doubled.
use native.Mathlib.Nat.{add-zero, zero-add}
use akx.Base.{
  ℕ, suc, ◌+◌, ◌≡◌, refl, ap, ◌∙◌, Bool, true, false, Bool-cases, inl, inr, [], ◌∷◌, ◌++◌,
  append-nil, append_assoc, Option, ◌==◌, ◌||◌, if◌then◌else◌, length, arith,
}
use akx.Base.Int.{pos, wrap}
use akx.Base.Text.{Bytes, HasNoNul, c_string_self}
use akx.Cell.{Cell, CellPtr, node, string_literal, integer_literal, alloc_cell, SourceRange}
use akx.Nucleus.Putf.{put_directive, put_count, put_format, putf_impl}
use akx.Rt.{Runtime, Env, Evaluator, plain, done, ◌>>◌, handle, pure, print}

abbrev pub doubled : ℕ → Bool
doubled c = c == b'\\' || c == b'%'

-- The format that prints the text.
unfoldable pub literal : Bytes → Bytes
literal [] = []
literal (c ∷ text) = let rest = literal text in if doubled c then c ∷ c ∷ rest else c ∷ rest

literal-HasNoNul : (text : Bytes) → HasNoNul text → HasNoNul (literal text)
unfolding literal
literal-HasNoNul [] h = tt
literal-HasNoNul (c ∷ text) (z, h) =
    elim (doubled c) as (λ b. HasNoNul (if b then c ∷ c ∷ literal text else c ∷ literal text)) [
      | true ↦ (z, (z, literal-HasNoNul text h))
      | false ↦ (z, literal-HasNoNul text h)
    ]

-- The state with the text printed.
abbrev pub printed : {Ctx : Type 0} → Bytes → Runtime Ctx → Runtime Ctx
printed text rt = record rt { output = rt.output ++ text }

plus-suc : (n m : ℕ) → n + 1 + m ≡ n + suc m
plus-suc n m = omega arith

module _ {Ctx : Type 0} (env : Env Ctx) (ev : Evaluator Ctx) where
  put_format-twice :
      (c : ℕ) (format : Bytes) (args : CellPtr) (n : ℕ) (rt : Runtime Ctx)
      → doubled c ≡ true
      → put_format env ev (c ∷ c ∷ format) args n rt
        ≡ put_format env ev format args (n + 1) (printed (c ∷ []) rt)
  unfolding put_format put_directive print ◌>>◌
  put_format-twice c format args n rt h = elim (Bool-cases (c == b'\\')) [
    | inl e ↦ let same : c ≡ b'\\' = ground arith in rw same refl
    | inr e ↦ let same : c ≡ b'%' = ground arith in rw same refl
  ]

  put_format-once :
      (c : ℕ) (format : Bytes) (args : CellPtr) (n : ℕ) (rt : Runtime Ctx)
      → doubled c ≡ false
      → put_format env ev (c ∷ format) args n rt
        ≡ put_format env ev format args (n + 1) (printed (c ∷ []) rt)
  unfolding put_format print ◌>>◌
  put_format-once c [] args n rt h =
      let a : (c == b'\\') ≡ false = ground arith in
      let b : (c == b'%') ≡ false = ground arith in rw (a, b) refl
  put_format-once c (d ∷ format) args n rt h =
      let a : (c == b'\\') ≡ false = ground arith in
      let b : (c == b'%') ≡ false = ground arith in rw (a, b) refl

  -- A byte and the text behind it are printed one after the other.
  one_more :
      (c : ℕ) (text : Bytes) (args : CellPtr) (n : ℕ) (rt : Runtime Ctx)
      → put_count env args (n + 1 + length text) (printed text (printed (c ∷ []) rt))
        ≡ put_count env args (n + suc (length text)) (printed (c ∷ text) rt)
  one_more c text args n rt =
      rw (append_assoc rt.output (c ∷ []) text)
        (ap (λ k. put_count env args k (printed (c ∷ text) rt)) (plus-suc n (length text)))

  put_format-literal :
      (text : Bytes) (args : CellPtr) (n : ℕ) (rt : Runtime Ctx)
      → put_format env ev (literal text) args n rt
        ≡ put_count env args (n + length text) (printed text rt)
  unfolding literal put_format pure
  put_format-literal [] args n rt = rw (add-zero n, append-nil rt.output) refl
  put_format-literal (c ∷ text) args n rt =
      let more =
        put_format-literal text args (n + 1) (printed (c ∷ []) rt) ∙ one_more c text args n rt in
      elim (Bool-cases (doubled c)) [
        | inl h ↦ rw h (put_format-twice c (literal text) args n rt h ∙ more)
        | inr h ↦ rw h (put_format-once c (literal text) args n rt h ∙ more)
      ]

  -- The text is printed as it is, and its length returned.
  pub putf_impl-literal :
      (text : Bytes) (r p : Option SourceRange) (c : Cell) (next m : CellPtr) (rt rt' : Runtime Ctx)
      → HasNoNul text
      → ev plain (node r c next) rt ≡ done (node p (string_literal (literal text)) m) rt'
      → putf_impl env ev (node r c next) rt
        ≡ done (alloc_cell (integer_literal (wrap (pos (length text))))) (printed text rt')
  unfolding putf_impl handle pure
  putf_impl-literal text r p c next m rt rt' z e =
      rw (e, c_string_self (literal text) (literal-HasNoNul text z))
        (put_format-literal text next 0 rt'
          ∙ ap (λ k. put_count env next k (printed text rt')) (zero-add (length text)))
