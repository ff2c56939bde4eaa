-- ===== src/Repl/Buffer.antt =====
-- pkg/repl/repl_buffer.c: the lines typed so far, and whether every bracket is closed.
pub mod Balance
use akx.Base.{
  ℕ, zero, suc, ◌+◌, ◌≡◌, Bool, true, false, not, ◌&&◌, List, [], ◌∷◌, ◌++◌, ◌==◌, if◌then◌else◌,
}
use akx.Base.Int.{ℤ, pos, ◌+ℤ◌, ◌-ℤ◌, eqb_ℤ}
use akx.Base.Text.{Bytes}

-- `repl_buffer_t`
pub record ReplBuffer : Type 0 where
  pub content : Bytes
  pub line_count : ℕ
  pub paren_depth : ℤ
  pub bracket_depth : ℤ
  pub brace_depth : ℤ
  pub temple_depth : ℤ

abbrev pub repl_buffer_new : ReplBuffer
repl_buffer_new = record {
  content = [];
  line_count = 0;
  paren_depth = pos 0;
  bracket_depth = pos 0;
  brace_depth = pos 0;
  temple_depth = pos 0;
}

-- The line and a newline behind it; the depths wait for the next test.
unfoldable pub repl_buffer_append_line : ReplBuffer → Bytes → ReplBuffer
repl_buffer_append_line buf line = record buf {
  content = buf.content ++ (line ++ b'\n' ∷ []);
  line_count = buf.line_count + 1;
}

unfoldable pub repl_buffer_clear : ReplBuffer → ReplBuffer
repl_buffer_clear buf = record buf {
  content = [];
  line_count = 0;
  paren_depth = pos 0;
  bracket_depth = pos 0;
  brace_depth = pos 0;
  temple_depth = pos 0;
}

unfoldable pub repl_buffer_is_empty : ReplBuffer → Bool
repl_buffer_is_empty buf = elim buf.content [ [] ↦ true | _ ∷ _ ↦ false ]

-- The local variables of `repl_buffer_is_balanced`.
pub record Scan : Type 0 where
  pub paren : ℤ
  pub bracket : ℤ
  pub brace : ℤ
  pub temple : ℤ
  pub in_string : Bool
  pub escape_next : Bool

abbrev pub scan_start : Scan
scan_start = record {
  paren = pos 0;
  bracket = pos 0;
  brace = pos 0;
  temple = pos 0;
  in_string = false;
  escape_next = false;
}

-- The switch, outside a string.
unfoldable pub count_bracket : Scan → ℕ → Scan
count_bracket s c =
    if c == b'('
    then record s { paren = s.paren +ℤ pos 1 }
    else if c == b')'
    then record s { paren = s.paren -ℤ pos 1 }
    else if c == b'['
    then record s { bracket = s.bracket +ℤ pos 1 }
    else if c == b']'
    then record s { bracket = s.bracket -ℤ pos 1 }
    else if c == b'{'
    then record s { brace = s.brace +ℤ pos 1 }
    else if c == b'}'
    then record s { brace = s.brace -ℤ pos 1 }
    else if c == b'<'
    then record s { temple = s.temple +ℤ pos 1 }
    else if c == b'>'
    then record s { temple = s.temple -ℤ pos 1 }
    else s

-- One round of the loop.
unfoldable pub scan_byte : Scan → ℕ → Scan
unfolding count_bracket
scan_byte s c =
    if s.escape_next
    then record s { escape_next = false }
    else if c == b'\\' && s.in_string
    then record s { escape_next = true }
    else if c == b'"'
    then record s { in_string = not s.in_string }
    else if s.in_string
    then s
    else count_bracket s c

unfoldable pub scan_bytes : Scan → Bytes → Scan
unfolding scan_byte
scan_bytes s [] = s
scan_bytes s (c ∷ cs) = scan_bytes (scan_byte s c) cs

-- `repl_buffer_is_balanced`: the depths are stored, and the answer looks at nothing else.
unfoldable pub repl_buffer_is_balanced : ReplBuffer → ReplBuffer × Bool
unfolding scan_bytes
repl_buffer_is_balanced buf =
    let s = scan_bytes scan_start buf.content in
    (
      record buf {
        paren_depth = s.paren;
        bracket_depth = s.bracket;
        brace_depth = s.brace;
        temple_depth = s.temple;
      },
      eqb_ℤ s.paren (pos 0)
          && (eqb_ℤ s.bracket (pos 0) && (eqb_ℤ s.brace (pos 0) && eqb_ℤ s.temple (pos 0))),
    )
