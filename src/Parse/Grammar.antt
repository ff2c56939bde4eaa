-- ===== src/Parse/Grammar.antt =====
-- The recursive descent of pkg/cell/akx_cell.c. NULL is `nothing`. What a call leaves of the input is
-- no structural part of it, so each call has one unit of fuel less; `starved` says that it ran out.
pub mod Reads
pub mod Values
pub mod Groups
pub mod Total
use akx.Base.{
  ℕ, zero, suc, ◌+◌, ◌-◌, ◌*◌, Bool, true, false, ◌||◌, List, [], ◌∷◌, ◌++◌, Option, none, some,
  ltb, leb, ◌==◌, if◌then◌else◌, length, take, drop, get_elem?,
}
use akx.Base.Text.{Bytes, codes}
use akx.Cell.{
  Cell, CellPtr, null, node, symbol, string_literal, integer_literal, real_literal, list, quoted,
  Brackets, round, square, curly, temple, SourceRange,
}
use akx.Cell.Chain.{list_append}
use akx.Parse.Errors.{ParseError, add_parse_error}
use akx.Parse.Escape.{process_escape_sequences}
use akx.Parse.Scanner.{
  Buffer, StaticBase, base_integer, base_real, base_symbol, base_other, StaticResult, GroupResult,
  group_missing, group_found, Moved, Scanner,
}
use akx.Parse.Unterminated.{last_open_pos}

-- The position of the scanner and `parse_context_t`.
pub record ParseState : Type 0 where
  pub position : ℕ
  pub errors : List ParseError

pub data Parsed : Type 0 where
  starved : Parsed
  nothing : ParseState → Parsed
  parsed : CellPtr → ParseState → Parsed

abbrev pub Parser : Type 0
Parser = Buffer → ParseState → Parsed

-- `scanner->position = p`
abbrev pub move_to : ℕ → ParseState → ParseState
move_to p s = record s { position = p }

-- `add_parse_error` at a position of the buffer.
abbrev pub error_at : Buffer → ℕ → Bytes → ParseState → ParseState
error_at buf p message s = record s {
  errors = add_parse_error (p + buf.origin_offset) message s.errors;
}

-- `create_cell` with the range between two positions.
abbrev pub create_cell : Cell → Buffer → ℕ → ℕ → CellPtr
create_cell c buf start_pos end_pos =
    node
      (some (record { start = start_pos + buf.origin_offset; end = end_pos + buf.origin_offset })) c
      null

abbrev pub byte_or_zero : Option ℕ → ℕ
byte_or_zero none = 0
byte_or_zero (some c) = c

-- `buf_data[p]`, which the code reads at positions in the buffer only.
abbrev pub byte_at : Bytes → ℕ → ℕ
byte_at b p = byte_or_zero (get_elem? b p)

abbrev pub slice : Bytes → ℕ → ℕ → Bytes
slice b start len = take len (drop start b)

abbrev pub is_newline : ℕ → Bool
is_newline c = c == b'\n' || c == b'\r'

abbrev pub any_newline : Bytes → Bool
any_newline [] = false
any_newline (c ∷ cs) = if is_newline c then true else any_newline cs

-- What a call of the parser is followed by, where it gives NULL and where it gives a cell.
abbrev pub on_result : Parsed → (ParseState → Parsed) → (CellPtr → ParseState → Parsed) → Parsed
on_result starved on_null on_cell = starved
on_result (nothing s) on_null on_cell = on_null s
on_result (parsed c s) on_null on_cell = on_cell c s

module _ (sc : Scanner) where
  abbrev pub static_cell : Buffer → ℕ → StaticResult → ParseState → Parsed
  static_cell buf start_pos r s = elim r.base [
    | none ↦ nothing (move_to r.position s)
    | some base_integer ↦
        parsed (create_cell (integer_literal (sc.atoi (take 31 r.text))) buf start_pos r.position)
          (move_to r.position s)
    | some base_real ↦
        parsed (create_cell (real_literal (sc.atof (take 63 r.text))) buf start_pos r.position)
          (move_to r.position s)
    | some base_symbol ↦
        parsed (create_cell (symbol r.text) buf start_pos r.position) (move_to r.position s)
    | some base_other ↦ nothing (move_to r.position s)
  ]

  unfoldable pub parse_static_type : Parser
  parse_static_type buf s =
      static_cell buf s.position (sc.read_static_base_type buf.bytes s.position) s

  abbrev pub string_cell : Buffer → ParseState → GroupResult → Parsed
  string_cell buf s (group_missing p) =
      nothing (move_to p (error_at buf s.position (codes "unterminated string literal") s))
  string_cell buf s (group_found i j) =
      parsed
        (create_cell
          (string_literal (process_escape_sequences (slice buf.bytes (i + 1) (j - (i + 1))))) buf
          s.position (j + 1))
        (move_to (j + 1) s)

  unfoldable pub parse_string_literal : Parser
  parse_string_literal buf s =
      string_cell buf s (sc.find_group buf.bytes s.position b'"' b'"' (some b'\\') false)

  -- `items` reads the elements in a buffer of their own.
  abbrev pub list_content : (Buffer → ParseState → Parsed) → Option Buffer → ParseState → Parsed
  list_content items none s = parsed null s
  list_content items (some sub) s = items sub (move_to 0 s)

  abbrev pub list_cell :
      (Buffer → ParseState → Parsed) → ℕ → ℕ → Brackets → Buffer → ParseState → GroupResult → Parsed
  list_cell items o c k buf s (group_missing p) = nothing (
      move_to p (
        error_at buf (last_open_pos o c buf.bytes p s.position)
          (codes "unterminated list - missing closing '" ++ (c ∷ b'\'' ∷ [])) s))
  list_cell items o c k buf s (group_found i j) =
      on_result
        (if ltb 0 (j - (i + 1))
          then list_content items (sc.sub_buffer buf (i + 1) (j - (i + 1))) s
          else parsed null s)
        (λ s'. parsed (create_cell (list k null) buf s.position (j + 1)) (move_to (j + 1) s'))
        (λ head s'. parsed (create_cell (list k head) buf s.position (j + 1)) (move_to (j + 1) s'))

  unfoldable pub parse_explicit_list_generic :
      (Buffer → ParseState → Parsed) → ℕ → ℕ → Brackets → Parser
  parse_explicit_list_generic items o c k buf s =
      list_cell items o c k buf s (sc.find_group buf.bytes s.position o c none true)

  -- The quoted text is what `argument` consumed behind the quote.
  unfoldable pub parse_quoted : Parser → Parser
  parse_quoted argument buf s =
      on_result (argument buf (move_to (s.position + 1) s))
        (λ s'. nothing (error_at buf s.position (codes "invalid expression after quote") s'))
        (λ inner s'.
          parsed
            (create_cell
              (quoted (slice buf.bytes (s.position + 1) (s'.position - (s.position + 1)))) buf
              s.position s'.position)
            s')

  -- The four kinds of explicit lists and the quoted expressions, with what else a byte begins.
  abbrev pub parse_by_delimiter : (Buffer → ParseState → Parsed) → Parser → Parser → ℕ → Parser
  parse_by_delimiter items argument otherwise current buf s =
      if current == b'('
      then parse_explicit_list_generic items b'(' b')' round buf s
      else if current == b'['
      then parse_explicit_list_generic items b'[' b']' square buf s
      else if current == b'{'
      then parse_explicit_list_generic items b'{' b'}' curly buf s
      else if current == b'<'
      then parse_explicit_list_generic items b'<' b'>' temple buf s
      else if current == b'\''
      then parse_quoted argument buf s
      else otherwise buf s

  abbrev pub parse_value : ℕ → Parser
  parse_value current buf s =
      if current == b'"' then parse_string_literal buf s else parse_static_type buf s

  -- The skip in front of an argument; NULL where it fails or nothing is left.
  abbrev pub after_skip :
      Moved → (ParseState → Parsed) → (ParseState → Parsed) → Buffer → ParseState → Parsed
  after_skip m at_end go_on buf s = elim m.ok [
    | false ↦ at_end (move_to m.position s)
    | true ↦ elim (leb (length buf.bytes) m.position) [
      | true ↦ at_end (move_to m.position s)
      | false ↦ go_on (move_to m.position s)
    ]
  ]

  unfoldable mutual
    pub parse_argument : ℕ → Parser
    parse_argument zero buf s = starved
    parse_argument (suc f) buf s =
        after_skip (sc.skip_whitespace_and_comments buf.bytes s.position) nothing
          (λ s'.
            parse_by_delimiter (parse_items f null) (parse_argument f)
              (parse_value (byte_at buf.bytes s'.position)) (byte_at buf.bytes s'.position) buf s')
          buf s

    -- The loop over the elements of an explicit list; `head` is what was read before.
    pub parse_items : ℕ → CellPtr → Parser
    parse_items zero head buf s = starved
    parse_items (suc f) head buf s = elim (leb (length buf.bytes) s.position) [
      | true ↦ parsed head s
      | false ↦
          after_skip (sc.skip_whitespace_and_comments buf.bytes s.position) (parsed head)
            (λ s'.
              on_result (parse_argument f buf s') (parsed head)
                (λ arg s''. parse_items f (list_append head arg) buf s''))
            buf s
    ]
