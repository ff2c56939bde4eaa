-- ===== src/Repl/Display.antt =====
-- pkg/repl/repl_display.c: the text that the REPL shows for a value. `format` is `%f` of a double.
use akx.Base.{ℕ, [], ◌∷◌, ◌++◌}
use akx.Base.Text.{Bytes, codes, c_string}
use akx.Cell.{
  Cell, CellPtr, null, node, Brackets, round, square, curly, temple, symbol, string_literal,
  integer_literal, real_literal, list, quoted, lambda, continuation,
}
use akx.Nucleus.Putf.{signed_decimal}

abbrev pub open_bracket : Brackets → ℕ
open_bracket round = b'('
open_bracket square = b'['
open_bracket curly = b'{'
open_bracket temple = b'<'

abbrev pub close_bracket : Brackets → ℕ
close_bracket round = b')'
close_bracket square = b']'
close_bracket curly = b'}'
close_bracket temple = b'>'

unfoldable mutual
  pub display_value : (ℕ → Bytes) → Cell → Bytes
  display_value format (integer_literal i) = signed_decimal i
  display_value format (real_literal x) = format x
  display_value format (string_literal s) = b'"' ∷ c_string s ++ b'"' ∷ []
  display_value format (symbol s) = c_string s
  display_value format (list b head) =
      open_bracket b ∷ display_elements format head ++ close_bracket b ∷ []
  display_value format (quoted text) = b'\'' ∷ c_string text
  display_value format (lambda l) = codes "<lambda>"
  display_value format (continuation l args) = codes "<unknown>"

  -- The elements with a space between them.
  pub display_elements : (ℕ → Bytes) → CellPtr → Bytes
  display_elements format null = []
  display_elements format (node r c null) = display_value format c
  display_elements format (node r c (node s d next)) =
      display_value format c ++ b' ' ∷ display_elements format (node s d next)

-- The value alone, not the cells behind it.
abbrev pub display_cell : (ℕ → Bytes) → CellPtr → Bytes
display_cell format null = codes "nil"
display_cell format (node r c next) = display_value format c
