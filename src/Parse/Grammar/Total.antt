-- ===== src/Parse/Grammar/Total.antt =====
-- The recursive descent always comes to an end, moves forward, stays in its buffer, only appends
-- errors, and gives cells that are placed where they were read.
use akx.Base.{
  ℕ, zero, suc, ◌+◌, ◌-◌, ◌*◌, ◌<◌, ◌≤◌, ◌≡◌, refl, Bool, true, false, arith, leb, length,
}
use akx.Cell.{CellPtr, null}
use akx.Cell.Chain.{list_append}
use akx.Parse.Grammar.{
  ParseState, Parsed, nothing, parsed, move_to, byte_at, on_result, parse_by_delimiter, parse_value,
  after_skip, parse_argument, parse_items,
}
use akx.Parse.Grammar.Reads.{
  Moves, Reads, gives_null, gives_cell, ReadsItems, gives_chain, Moves-move_to, Reads-after,
  ReadsItems-after,
}
use akx.Parse.Placed.{Placed, Placed-list_append, Placed-mono}
use akx.Parse.Scanner.{Buffer, Moved, Scanner, StaysInside}
use akx.Parse.Grammar.Groups.{parse_by_delimiter-Reads}
use akx.Parse.Grammar.Values.{parse_value-Reads}

-- What holds at the end and of what follows a skip that stays in the buffer.
pub after_skip-by :
    (sc : Scanner) (P : Parsed → Type 0) (m : Moved) (at_end go_on : ParseState → Parsed)
    (buf : Buffer) (s : ParseState)
    → P (at_end (move_to m.position s))
    → (m.position < length buf.bytes → P (go_on (move_to m.position s)))
    → P (after_skip sc m at_end go_on buf s)
after_skip-by sc P m at_end go_on buf s e g = skipped m.ok
  where
    bounded :
        (b : Bool)
        → leb (length buf.bytes) m.position ≡ b
        → P (elim b [ true ↦ at_end (move_to m.position s) | false ↦ go_on (move_to m.position s) ])
    bounded true h = e
    bounded false h = g (ground arith)

    skipped : (b : Bool) → P (after_skip sc (record m { ok = b }) at_end go_on buf s)
    skipped false = e
    skipped true = bounded (leb (length buf.bytes) m.position) refl

-- One element is read and appended to the chain, and the loop goes on behind it.
pub on_result-ReadsItems :
    (buf : Buffer) (lo : ℕ) (s : ParseState) (head : CellPtr)
    (items : CellPtr → ParseState → Parsed) {o : Parsed}
    → lo ≤ s.position + buf.origin_offset
    → Placed lo (s.position + buf.origin_offset) head
    → Reads buf s o
    → ((h : CellPtr) (t : ParseState)
        → Moves buf s t
        → s.position < t.position
        → Placed lo (t.position + buf.origin_offset) h
        → ReadsItems buf lo t (items h t))
    → ReadsItems buf lo s (on_result o (parsed head) (λ arg t. items (list_append head arg) t))
on_result-ReadsItems buf lo s head items b p (gives_null {s' = t} n) rest =
    gives_chain n (Placed-mono lo lo _ _ head (omega arith) (omega (arith, n.forward)) p)
on_result-ReadsItems buf lo s head items b p (gives_cell {c} {s' = t} n k q) rest =
    ReadsItems-after buf lo s t n (
      rest (list_append head c) t n k (
        Placed-list_append lo (s.position + buf.origin_offset) _ head c b (omega (arith, n.forward))
          p q))

module _ {sc : Scanner} (laws : StaysInside sc) where
  -- What is left of the buffer bounds the fuel that a call needs.
  unfoldable mutual
    unfolding parse_argument parse_items Placed

    pub parse_argument-Reads :
        (f : ℕ) (buf : Buffer) (s : ParseState)
        → s.position ≤ length buf.bytes
        → 2 * (length buf.bytes - s.position) < f
        → Reads buf s (parse_argument sc f buf s)
    parse_argument-Reads zero buf s i e = absurd (omega (arith, e))
    parse_argument-Reads (suc f) buf s i e =
        after_skip-by sc (Reads buf s) m nothing at_byte buf s (gives_null moved) (λ l.
          Reads-after buf s s' moved (
            parse_by_delimiter-Reads laws (parse_items sc f null) (parse_argument sc f)
              (parse_value sc (byte_at buf.bytes m.position)) (byte_at buf.bytes m.position) buf s'
              (λ sub t z n.
                parse_items-Reads f null sub sub.origin_offset t (omega (arith, z))
                  (omega (arith, e, n, z, i, moved.forward)) (omega arith) tt)
              (parse_argument-Reads f buf (move_to (m.position + 1) s') (omega (arith, l))
                (omega (arith, e, l, moved.forward)))
              (parse_value-Reads laws (byte_at buf.bytes m.position) buf s' moved.inside) l))
      where
        m : Moved
        m = sc.skip_whitespace_and_comments buf.bytes s.position

        s' : ParseState
        s' = move_to m.position s

        moved : Moves buf s s'
        moved =
            Moves-move_to buf m.position s (laws.skip_forward buf.bytes s.position i)
              (laws.skip_inside buf.bytes s.position i)

        at_byte : ParseState → Parsed
        at_byte t =
            parse_by_delimiter sc (parse_items sc f null) (parse_argument sc f)
              (parse_value sc (byte_at buf.bytes t.position)) (byte_at buf.bytes t.position) buf t

    pub parse_items-Reads :
        (f : ℕ) (head : CellPtr) (buf : Buffer) (lo : ℕ) (s : ParseState)
        → s.position ≤ length buf.bytes
        → suc (2 * (length buf.bytes - s.position)) < f
        → lo ≤ s.position + buf.origin_offset
        → Placed lo (s.position + buf.origin_offset) head
        → ReadsItems buf lo s (parse_items sc f head buf s)
    parse_items-Reads zero head buf lo s i e b p = absurd (omega (arith, e))
    parse_items-Reads (suc f) head buf lo s i e b p =
        elim (leb (length buf.bytes) s.position)
          as (λ x. ReadsItems buf lo s (elim x [
            | true ↦ parsed head s
            | false ↦ after_skip sc m (parsed head) at_element buf s
          ])) [
            | true ↦ gives_chain (Moves-move_to buf s.position s (omega arith) i) p
            | false ↦
                after_skip-by sc (ReadsItems buf lo s) m (parsed head) at_element buf s
                  (gives_chain moved head_moved)
                  (λ l. ReadsItems-after buf lo s s' moved (
                    on_result-ReadsItems buf lo s' head (λ h t. parse_items sc f h buf t)
                      (omega (arith, b, moved.forward)) head_moved
                      (parse_argument-Reads f buf s' moved.inside (omega (arith, e, moved.forward)))
                      (λ h t n k q.
                        parse_items-Reads f h buf lo t n.inside
                          (omega (arith, e, l, k, moved.forward))
                          (omega (arith, b, k, moved.forward)) q)))
          ]
      where
        m : Moved
        m = sc.skip_whitespace_and_comments buf.bytes s.position

        s' : ParseState
        s' = move_to m.position s

        moved : Moves buf s s'
        moved =
            Moves-move_to buf m.position s (laws.skip_forward buf.bytes s.position i)
              (laws.skip_inside buf.bytes s.position i)

        head_moved : Placed lo (m.position + buf.origin_offset) head
        head_moved = Placed-mono lo lo _ _ head (omega arith) (omega (arith, moved.forward)) p

        at_element : ParseState → Parsed
        at_element t =
            on_result (parse_argument sc f buf t) (parsed head)
              (λ arg t'. parse_items sc f (list_append head arg) buf t')
