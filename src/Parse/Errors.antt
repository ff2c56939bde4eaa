-- ===== src/Parse/Errors.antt =====
-- `add_parse_error` of pkg/cell/akx_cell.c: the list of errors of one source file, with the offset
-- of each. The tail pointer of the C list makes the append constant-time, and nothing else.
use akx.Base.{
  ℕ, ◌≡◌, refl, Bool, true, false, List, [], ◌∷◌, ◌++◌, arith, ◌==◌, if◌then◌else◌, take,
  Bool-cases, inl, inr, IsPrefix, append-nil, sym,
}
use akx.Base.Text.{Bytes}

pub record ParseError : Type 0 where
  pub offset : ℕ
  pub message : Bytes

-- Whether an error has the offset.
unfoldable pub reported_at : ℕ → List ParseError → Bool
reported_at offset [] = false
reported_at offset (e ∷ errors) = if e.offset == offset then true else reported_at offset errors

abbrev parse_error : ℕ → Bytes → ParseError
parse_error offset message = record { offset = offset; message = take 255 message }

unfoldable pub add_parse_error : ℕ → Bytes → List ParseError → List ParseError
unfolding reported_at
add_parse_error offset message errors =
    if reported_at offset errors then errors else errors ++ parse_error offset message ∷ []

-- No two errors have one offset.
abbrev pub Distinct : List ParseError → Type 0
Distinct [] = Unit
Distinct (e ∷ errors) = (reported_at e.offset errors ≡ false) × Distinct errors

reported_at-append :
    (offset : ℕ) (errors : List ParseError) (e : ParseError)
    → reported_at offset (errors ++ e ∷ [])
      ≡ (if reported_at offset errors then true else e.offset == offset)
unfolding reported_at
reported_at-append offset [] e = ground arith
reported_at-append offset (x ∷ errors) e = ground (arith, reported_at-append offset errors e)

Distinct-append :
    (errors : List ParseError) (e : ParseError)
    → Distinct errors
    → reported_at e.offset errors ≡ false
    → Distinct (errors ++ e ∷ [])
unfolding reported_at
Distinct-append [] e d h = (refl, tt)
Distinct-append (x ∷ errors) e d h = (
  ground (arith, reported_at-append x.offset errors e),
  Distinct-append errors e d.1 (ground arith),
)

pub add_parse_error-IsPrefix :
    (offset : ℕ) (message : Bytes) (errors : List ParseError)
    → IsPrefix errors (add_parse_error offset message errors)
unfolding add_parse_error
add_parse_error-IsPrefix offset message errors = elim (Bool-cases (reported_at offset errors)) [
  | inl known ↦ rw known ([], sym (append-nil errors))
  | inr fresh ↦ rw fresh (parse_error offset message ∷ [], refl)
]

-- An error list without repeated offsets stays so, keeps the errors that it has in their order,
-- and has an error at the offset afterwards; a second report at that offset changes nothing.
pub add_parse_error_once :
    (offset : ℕ) (message again : Bytes) (errors : List ParseError)
    → Distinct errors
    → Distinct (add_parse_error offset message errors)
      × IsPrefix errors (add_parse_error offset message errors)
      × (reported_at offset (add_parse_error offset message errors) ≡ true)
      × (add_parse_error offset again (add_parse_error offset message errors)
          ≡ add_parse_error offset message errors)
unfolding add_parse_error
add_parse_error_once offset message again errors d = elim (Bool-cases (reported_at offset errors)) [
  | inl known ↦ rw (known, known) (d, ([], sym (append-nil errors)), refl, refl)
  | inr fresh ↦
      let e = parse_error offset message in
      let now : reported_at offset (errors ++ e ∷ []) ≡ true =
        ground (arith, reported_at-append offset errors e) in
      rw fresh (Distinct-append errors e d fresh, (e ∷ [], refl), now, rw now)
]
