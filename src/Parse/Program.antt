-- ===== src/Parse/Program.antt =====
-- The top level of the parser in pkg/cell/akx_cell.c: virtual lists, `akx_cell_parse_buffer` and
-- `akx_cell_unwrap_quoted`.
pub mod Virtual
pub mod Total
pub mod Stops
use akx.Base.{
  ℕ, zero, suc, ◌+◌, ◌-◌, ◌*◌, Bool, not, true, false, ◌||◌, List, [], ◌∷◌, ◌++◌, Option, none,
  some, leb, ◌==◌, if◌then◌else◌, length,
}
use akx.Base.Text.{Bytes}
use akx.Cell.{Cell, CellPtr, null, node, symbol, list, round, quoted}
use akx.Cell.Chain.{list_append}
use akx.Parse.Errors.{ParseError}
use akx.Parse.Grammar.{
  ParseState, Parsed, starved, nothing, parsed, Parser, move_to, create_cell, byte_at, slice,
  is_newline, any_newline, on_result, after_skip, parse_static_type, parse_by_delimiter,
  parse_argument, parse_items,
}
use akx.Parse.Scanner.{Buffer, Moved, Scanner}

-- `akx_parse_result_t`, without the source file.
pub record ParseResult : Type 0 where
  pub cells : List CellPtr
  pub errors : List ParseError

-- `list_cell` around the elements, from `start_pos` to where the scanner stands.
abbrev pub close_virtual_list : Buffer → ℕ → Parsed → Parsed
close_virtual_list buf start_pos starved = starved
close_virtual_list buf start_pos (nothing s) = nothing s
close_virtual_list buf start_pos (parsed head s) =
    parsed (create_cell (list round head) buf start_pos s.position) s

-- Each cell of the chain is pushed on its own.
abbrev pub singles : CellPtr → List CellPtr
singles null = []
singles (node r c next) = node r c null ∷ singles next

abbrev pub parse_result : List CellPtr → ParseState → Option ParseResult
parse_result cells s = some (record { cells = cells; errors = s.errors })

abbrev pub on_expression :
    Parsed
    → (ParseState → Option ParseResult)
    → (CellPtr → ParseState → Option ParseResult)
    → Option ParseResult
on_expression starved on_null on_cell = none
on_expression (nothing s) on_null on_cell = on_null s
on_expression (parsed c s) on_null on_cell = on_cell c s

abbrev pub first_cell : Option ParseResult → CellPtr
first_cell none = null
first_cell (some r) = elim r.cells [ [] ↦ null | c ∷ _ ↦ c ]

module _ (sc : Scanner) where
  -- The elements behind the first symbol, up to a newline or a comment.
  unfoldable pub virtual_items : ℕ → CellPtr → Parser
  unfolding parse_argument
  virtual_items zero head buf s = starved
  virtual_items (suc f) head buf s = elim (leb (length buf.bytes) s.position) [
    | true ↦ parsed head s
    | false ↦
        let m = sc.goto_next_non_white buf.bytes s.position in
        let s' = move_to m.position s in
        elim (not m.ok
          || (any_newline (slice buf.bytes s.position (m.position - s.position))
              || (leb (length buf.bytes) m.position
                  || (byte_at buf.bytes m.position == b';'
                      || is_newline (byte_at buf.bytes m.position))))) [
                        | true ↦ parsed head s'
                        | false ↦
                            on_result (parse_argument sc f buf s') (parsed head)
                              (λ arg s''. virtual_items f (list_append head arg) buf s'')
                      ]
  ]

  abbrev pub virtual_list_from : ℕ → Buffer → ℕ → Parsed → Parsed
  virtual_list_from f buf start_pos starved = starved
  virtual_list_from f buf start_pos (nothing s) = nothing s
  virtual_list_from f buf start_pos (parsed (node r (symbol name) next) s) =
      close_virtual_list buf start_pos (virtual_items f (node r (symbol name) next) buf s)
  virtual_list_from f buf start_pos (parsed _ s) = nothing s

  unfoldable pub parse_virtual_list : ℕ → Parser
  unfolding virtual_items
  parse_virtual_list f buf s = virtual_list_from f buf s.position (parse_static_type sc buf s)

  -- The switch of `akx_cell_parse_buffer`.
  unfoldable pub parse_expression : ℕ → ℕ → Parser
  unfolding parse_virtual_list
  parse_expression f current =
      parse_by_delimiter sc (parse_items sc f null) (parse_argument sc f) (parse_virtual_list f)
        current

  -- The loop; the expressions are read with fuel `f`.
  unfoldable pub parse_loop : ℕ → ℕ → Buffer → List CellPtr → ParseState → Option ParseResult
  unfolding parse_expression
  parse_loop f zero buf cells s = none
  parse_loop f (suc rounds) buf cells s = elim (leb (length buf.bytes) s.position) [
    | true ↦ parse_result cells s
    | false ↦
        let m = sc.skip_whitespace_and_comments buf.bytes s.position in
        let s' = move_to m.position s in
        elim (not m.ok || leb (length buf.bytes) m.position) [
          | true ↦ parse_result cells s'
          | false ↦
              on_expression (parse_expression f (byte_at buf.bytes m.position) buf s')
                (parse_result cells)
                (λ expr s''. parse_loop f rounds buf (cells ++ singles expr) s'')
        ]
  ]

  -- `none` says that the fuel ran out.
  unfoldable pub akx_cell_parse_buffer : Buffer → Option ParseResult
  unfolding parse_loop
  akx_cell_parse_buffer buf =
      parse_loop (2 * length buf.bytes + 2) (length buf.bytes + 1) buf []
        (record { position = 0; errors = [] })

  -- The first cell of the quoted text.
  unfoldable pub akx_cell_unwrap_quoted : CellPtr → CellPtr
  unfolding akx_cell_parse_buffer
  akx_cell_unwrap_quoted (node _ (quoted text) _) =
      first_cell (akx_cell_parse_buffer (record { bytes = text; origin_offset = sc.new_origin }))
  akx_cell_unwrap_quoted _ = null
