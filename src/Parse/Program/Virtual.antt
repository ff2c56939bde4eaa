-- ===== src/Parse/Program/Virtual.antt =====
-- What a virtual list does to the position and the errors, and where its cells lie.
use akx.Base.{
  ℕ, zero, suc, ◌+◌, ◌-◌, ◌*◌, ◌<◌, ◌≤◌, Bool, true, false, not, ◌||◌, arith, leb, ◌==◌, length,
}
use akx.Cell.{CellPtr, node, symbol, list, round}
use akx.Cell.Chain.{list_append}
use akx.Parse.Grammar.{
  ParseState, Parsed, parsed, move_to, byte_at, slice, is_newline, any_newline, on_result,
  parse_argument,
}
use akx.Parse.Grammar.Reads.{
  Moves, Reads, gives_null, gives_cell, ReadsItems, gives_chain, Moves-trans, Moves-move_to,
  ReadsItems-after,
}
use akx.Parse.Grammar.Total.{on_result-ReadsItems, parse_argument-Reads}
use akx.Parse.Grammar.Values.{create_cell-Reads}
use akx.Parse.Placed.{Placed, Placed-mono}
use akx.Parse.Program.{virtual_items, close_virtual_list, virtual_list_from}
use akx.Parse.Scanner.{Buffer, Moved, Scanner, StaysInside}

module _ {sc : Scanner} (laws : StaysInside sc) where
  virtual_items-ReadsItems :
      (f : ℕ) (head : CellPtr) (buf : Buffer) (lo : ℕ) (s : ParseState)
      → s.position ≤ length buf.bytes
      → suc (2 * (length buf.bytes - s.position)) < f
      → lo ≤ s.position + buf.origin_offset
      → Placed lo (s.position + buf.origin_offset) head
      → ReadsItems buf lo s (virtual_items sc f head buf s)
  unfolding virtual_items
  virtual_items-ReadsItems zero head buf lo s i e b p = absurd (omega (arith, e))
  virtual_items-ReadsItems (suc f) head buf lo s i e b p =
      ends (leb (length buf.bytes) s.position) (
        ReadsItems-after buf lo s s' moved (
          on_result-ReadsItems buf lo s' head (λ h t. virtual_items sc f h buf t)
            (omega (arith, b, moved.forward)) head_moved
            (parse_argument-Reads laws f buf s' moved.inside (omega (arith, e, moved.forward)))
            (λ h t n k q.
              virtual_items-ReadsItems f h buf lo t n.inside
                (omega (arith, e, n.inside, k, moved.forward)) (omega (arith, b, k, moved.forward))
                q)))
    where
      m : Moved
      m = sc.goto_next_non_white buf.bytes s.position

      s' : ParseState
      s' = move_to m.position s

      moved : Moves buf s s'
      moved =
          Moves-move_to buf m.position s (laws.goto_forward buf.bytes s.position i)
            (laws.goto_inside buf.bytes s.position i)

      head_moved : Placed lo (m.position + buf.origin_offset) head
      head_moved = Placed-mono lo lo _ _ head (omega arith) (omega (arith, moved.forward)) p

      go_on : Parsed
      go_on =
          on_result (parse_argument sc f buf s') (parsed head)
            (λ arg t. virtual_items sc f (list_append head arg) buf t)

      Stops : Bool → Type 0
      Stops b = ReadsItems buf lo s (elim b [ true ↦ parsed head s' | false ↦ go_on ])

      stops : (b : Bool) → ReadsItems buf lo s go_on → Stops b
      stops true h = gives_chain moved head_moved
      stops false h = h

      ends :
          (b : Bool)
          → ReadsItems buf lo s go_on
          → ReadsItems buf lo s (elim b [
            | true ↦ parsed head s
            | false ↦
                elim (not m.ok
                  || (any_newline (slice buf.bytes s.position (m.position - s.position))
                      || (leb (length buf.bytes) m.position
                          || (byte_at buf.bytes m.position == b';'
                              || is_newline (byte_at buf.bytes m.position))))) [
                                | true ↦ parsed head s'
                                | false ↦ go_on
                              ]
          ])
      ends true h = gives_chain (Moves-move_to buf s.position s (omega arith) i) p
      ends false h = stops _ h

  close_virtual_list-Reads :
      (buf : Buffer) (s t : ParseState) {o : Parsed}
      → Moves buf s t
      → s.position < t.position
      → ReadsItems buf (s.position + buf.origin_offset) t o
      → Reads buf s (close_virtual_list buf s.position o)
  unfolding Placed
  close_virtual_list-Reads buf s t m l (gives_chain {c} {s' = u} n p) =
      create_cell-Reads buf s u (list round c) (Moves-trans buf s t u m n)
        (omega (arith, l, n.forward)) p

  pub virtual_list_from-Reads :
      (f : ℕ) (buf : Buffer) (s : ParseState) {o : Parsed}
      → suc (2 * (length buf.bytes - s.position)) < f
      → Reads buf s o
      → Reads buf s (virtual_list_from sc f buf s.position o)
  virtual_list_from-Reads f buf s e (gives_null m) = gives_null m
  virtual_list_from-Reads f buf s e (gives_cell {c = node r (symbol name) next} {s' = t} m l p) =
      close_virtual_list-Reads buf s t m l (
        virtual_items-ReadsItems f (node r (symbol name) next) buf _ t m.inside
          (omega (arith, e, l)) (omega (arith, l)) p)
  virtual_list_from-Reads f buf s e (gives_cell {c} m l p) = gives_null m
