-- ===== src/Parse/Escape.antt =====
-- `process_escape_sequences` of pkg/cell/akx_cell.c. `dst` is what the function writes, so its length
-- is the `dst_pos` that it returns.
use akx.Base.{
  ℕ, ◌≤◌, ◌≡◌, refl, ap, ◌∙◌, true, false, [], ◌∷◌, ◌++◌, arith, ◌==◌, if◌then◌else◌, length,
  length-append,
}
use akx.Base.Text.{Bytes}

-- What is written for a backslash and the byte behind it.
unfoldable pub unescape : ℕ → Bytes
unescape c =
    if c == b'n'
    then b'\n' ∷ []
    else if c == b't'
    then b'\t' ∷ []
    else if c == b'r'
    then b'\r' ∷ []
    else if c == b'\\'
    then b'\\' ∷ []
    else if c == b'"'
    then b'"' ∷ []
    else if c == b'0'
    then 0 ∷ []
    else b'\\' ∷ c ∷ []

unfoldable pub process_escape_sequences : Bytes → Bytes
unfolding unescape
process_escape_sequences [] = []
process_escape_sequences (c ∷ []) = c ∷ []
process_escape_sequences (c ∷ d ∷ src) = elim (c == b'\\') [
  | true ↦ unescape d ++ process_escape_sequences src
  | false ↦ c ∷ process_escape_sequences (d ∷ src)
]

length-unescape : (c : ℕ) → length (unescape c) ≤ 2
unfolding unescape
length-unescape c = ground arith

-- Never more bytes are written than were read, so that the string's buffer, one byte larger than
-- the literal, holds the result and the NUL behind it.
length-process : (src : Bytes) → length (process_escape_sequences src) ≤ length src
unfolding process_escape_sequences
length-process [] = omega arith
length-process (c ∷ []) = omega arith
length-process (c ∷ d ∷ src) = ground (
  arith,
  length-process src,
  length-process (d ∷ src),
  length-unescape d,
  length-append (unescape d) (process_escape_sequences src),
)

-- How a literal spells one byte.
abbrev pub escape_byte : ℕ → Bytes
escape_byte c =
    if c == b'\n'
    then b'\\' ∷ b'n' ∷ []
    else if c == b'\t'
    then b'\\' ∷ b't' ∷ []
    else if c == b'\r'
    then b'\\' ∷ b'r' ∷ []
    else if c == b'\\'
    then b'\\' ∷ b'\\' ∷ []
    else if c == b'"'
    then b'\\' ∷ b'"' ∷ []
    else if c == 0
    then b'\\' ∷ b'0' ∷ []
    else c ∷ []

abbrev pub escape : Bytes → Bytes
escape [] = []
escape (c ∷ cs) = escape_byte c ++ escape cs

process-cons :
    (c : ℕ) (src : Bytes)
    → (c == b'\\') ≡ false
    → process_escape_sequences (c ∷ src) ≡ c ∷ process_escape_sequences src
unfolding process_escape_sequences
process-cons c [] h = refl
process-cons c (d ∷ src) h = ground arith

process-escape_byte :
    (c : ℕ) (src : Bytes)
    → process_escape_sequences (escape_byte c ++ src) ≡ c ∷ process_escape_sequences src
unfolding process_escape_sequences
process-escape_byte c src = ground (arith, process-cons c src)

-- A literal that spells each byte of a string by its escape reads back as that string, whatever
-- bytes it holds.
pub process-escape : (s : Bytes) → process_escape_sequences (escape s) ≡ s
unfolding process_escape_sequences
process-escape [] = refl
process-escape (c ∷ cs) = process-escape_byte c (escape cs) ∙ ap (◌∷◌ c) (process-escape cs)
