-- ===== src/Parse/Program/Total.antt =====
-- The parser always comes to an end with its fuel; its cells lie in the source one behind the other.
use akx.Base.{
  ℕ, zero, suc, ◌+◌, ◌-◌, ◌*◌, ◌<◌, ◌≤◌, ◌≡◌, refl, Bool, true, false, not, ◌||◌, List, [], ◌++◌,
  Option, none, some, arith, leb, length,
}
use akx.Cell.{CellPtr, null, node}
use akx.Parse.Errors.{Distinct}
use akx.Parse.Grammar.{ParseState, Parsed, move_to, byte_at, parse_argument, parse_items}
use akx.Parse.Grammar.Reads.{Moves, Reads, gives_null, gives_cell, Moves-trans, Moves-move_to}
use akx.Parse.Grammar.Total.{parse_argument-Reads, parse_items-Reads}
use akx.Parse.Grammar.Groups.{parse_by_delimiter-Reads}
use akx.Parse.Grammar.Values.{parse_static_type-Reads}
use akx.Parse.Placed.{Placed, PlacedCells, PlacedCells-mono, PlacedCells-append}
use akx.Parse.Program.{
  ParseResult, parse_virtual_list, parse_expression, singles, parse_result, on_expression,
  parse_loop, akx_cell_parse_buffer,
}
use akx.Parse.Scanner.{Buffer, Moved, Scanner, StaysInside}
use akx.Parse.Program.Virtual.{virtual_list_from-Reads}

singles-PlacedCells : (lo hi : ℕ) (c : CellPtr) → Placed lo hi c → PlacedCells lo hi (singles c)
unfolding Placed PlacedCells
singles-PlacedCells lo hi null h = tt
singles-PlacedCells lo hi (node none c next) h = elim h [ ]
singles-PlacedCells lo hi (node (some r) c next) (a, b, d, i, n) =
    ((a, b, d, i, tt), refl, singles-PlacedCells r.end hi next n)

-- The parse came to an end: the cells lie in the buffer's part of the source one behind the other,
-- and no two errors have the same offset.
abbrev pub Completes : Buffer → Option ParseResult → Type 0
Completes buf o =
    (r : ParseResult) × (o ≡ some r)
    × PlacedCells buf.origin_offset (length buf.bytes + buf.origin_offset) r.cells
    × Distinct r.errors

module _ {sc : Scanner} (laws : StaysInside sc) where
  parse_expression-Reads :
      (f current : ℕ) (buf : Buffer) (s : ParseState)
      → s.position < length buf.bytes
      → suc (2 * (length buf.bytes - s.position)) < f
      → Reads buf s (parse_expression sc f current buf s)
  unfolding parse_expression parse_virtual_list Placed
  parse_expression-Reads f current buf s i e =
      parse_by_delimiter-Reads laws (parse_items sc f null) (parse_argument sc f)
        (parse_virtual_list sc f) current buf s
        (λ sub t z n.
          parse_items-Reads laws f null sub sub.origin_offset t (omega (arith, z))
            (omega (arith, e, n, z)) (omega arith) tt)
        (parse_argument-Reads laws f buf (move_to (s.position + 1) s) (omega (arith, i))
          (omega (arith, e)))
        (virtual_list_from-Reads laws f buf s e
          (parse_static_type-Reads laws buf s (omega (arith, i))))
        i

  parse_loop-Completes :
      (f rounds : ℕ) (buf : Buffer) (cells : List CellPtr) (s : ParseState)
      → suc (2 * length buf.bytes) < f
      → length buf.bytes - s.position < rounds
      → s.position ≤ length buf.bytes
      → PlacedCells buf.origin_offset (s.position + buf.origin_offset) cells
      → Distinct s.errors
      → Completes buf (parse_loop sc f rounds buf cells s)
  unfolding parse_loop
  parse_loop-Completes f zero buf cells s e n i p d = absurd (omega (arith, n))
  parse_loop-Completes f (suc rounds) buf cells s e n i p d =
      ends (leb (length buf.bytes) s.position) (λ l.
        around (parse_expression-Reads f (byte_at buf.bytes m.position) buf s' l (omega (arith, e)))
          (λ c t k q g.
            parse_loop-Completes f rounds buf (cells ++ singles c) t e
              (omega (arith, n, k, moved.forward, l)) (omega (arith, g.inside))
              (PlacedCells-append buf.origin_offset (m.position + buf.origin_offset) _ cells
                (singles c) (omega arith) (omega (arith, k)) (grown s' moved)
                (singles-PlacedCells _ _ c q))
              (g.reports.1 d)))
    where
      m : Moved
      m = sc.skip_whitespace_and_comments buf.bytes s.position

      s' : ParseState
      s' = move_to m.position s

      moved : Moves buf s s'
      moved =
          Moves-move_to buf m.position s (laws.skip_forward buf.bytes s.position i)
            (laws.skip_inside buf.bytes s.position i)

      grown :
          (t : ParseState)
          → Moves buf s t
          → PlacedCells buf.origin_offset (t.position + buf.origin_offset) cells
      grown t g = PlacedCells-mono _ _ _ _ cells (omega arith) (omega (arith, g.forward)) p

      stop : (t : ParseState) → Moves buf s t → Completes buf (parse_result cells t)
      stop t g = (
        _,
        refl,
        PlacedCells-mono _ _ _ _ cells (omega arith) (omega (arith, g.inside)) (grown t g),
        g.reports.1 d,
      )

      go_on : Option ParseResult
      go_on =
          on_expression (parse_expression sc f (byte_at buf.bytes m.position) buf s')
            (parse_result cells) (λ expr t. parse_loop sc f rounds buf (cells ++ singles expr) t)

      around :
          {o : Parsed}
          → Reads buf s' o
          → ((c : CellPtr) (t : ParseState)
              → m.position < t.position
              → Placed (m.position + buf.origin_offset) (t.position + buf.origin_offset) c
              → Moves buf s' t
              → Completes buf (parse_loop sc f rounds buf (cells ++ singles c) t))
          → Completes buf (
              on_expression o
                (parse_result cells)
                (λ expr t. parse_loop sc f rounds buf (cells ++ singles expr) t))
      around (gives_null {s' = t} g) rest = stop t (Moves-trans buf s s' t moved g)
      around (gives_cell {c} {s' = t} g l q) rest = rest c t l q g

      passes :
          (a b : Bool)
          → leb (length buf.bytes) m.position ≡ b
          → (m.position < length buf.bytes → Completes buf go_on)
          → Completes buf (elim (a || b) [ true ↦ parse_result cells s' | false ↦ go_on ])
      passes true b h k = stop s' moved
      passes false true h k = stop s' moved
      passes false false h k = k (ground arith)

      ends :
          (b : Bool)
          → (m.position < length buf.bytes → Completes buf go_on)
          → Completes buf (elim b [
            | true ↦ parse_result cells s
            | false ↦ elim (not m.ok || leb (length buf.bytes) m.position) [
              | true ↦ parse_result cells s'
              | false ↦ go_on
            ]
          ])
      ends true k = stop s (Moves-move_to buf s.position s (omega arith) i)
      ends false k = passes (not m.ok) _ refl k

  -- Where the scanner stays in its buffer, the parser comes to an end on every input.
  pub akx_cell_parse_buffer-Completes :
      (buf : Buffer) → Completes buf (akx_cell_parse_buffer sc buf)
  unfolding akx_cell_parse_buffer PlacedCells
  akx_cell_parse_buffer-Completes buf =
      parse_loop-Completes (2 * length buf.bytes + 2) (length buf.bytes + 1) buf [] _ (omega arith)
        (omega arith) (omega arith) tt tt
