-- ===== src/Parse/Grammar/Values.antt =====
-- What each kind of value of the recursive descent does to the position and the errors, and where the
-- cell that it gives lies.
use akx.Base.{
  ℕ, ◌+◌, ◌<◌, ◌≤◌, ◌≡◌, refl, true, false, Option, none, some, arith, ◌==◌, if◌then◌else◌, length,
}
use akx.Cell.{Cell}
use akx.Parse.Grammar.{
  ParseState, parsed, error_at, move_to, static_cell, parse_static_type, string_cell,
  parse_string_literal, parse_value, create_cell,
}
use akx.Parse.Grammar.Reads.{
  Moves, Reads, gives_null, gives_cell, Moves-trans, Moves-error_at, Moves-move_to,
}
use akx.Parse.Placed.{Placed, PlacedInside}
use akx.Parse.Scanner.{
  Buffer, StaticBase, base_integer, base_real, base_symbol, base_other, StaticResult, GroupResult,
  group_missing, group_found, Scanner, StaysInside,
}

-- A cell made of what was read, with its range.
pub create_cell-Reads :
    (buf : Buffer) (s s' : ParseState) (c : Cell)
    → Moves buf s s'
    → s.position < s'.position
    → PlacedInside (s.position + buf.origin_offset) (s'.position + buf.origin_offset) c
    → Reads buf s (parsed (create_cell c buf s.position s'.position) s')
unfolding Placed
create_cell-Reads buf s s' c m l i =
    gives_cell m l (omega arith, omega (arith, l), omega arith, i, tt)

module _ {sc : Scanner} (laws : StaysInside sc) where
  static_cell-Reads :
      (buf : Buffer) (s : ParseState) (r : StaticResult)
      → s.position ≤ r.position
      → r.position ≤ length buf.bytes
      → ((b : StaticBase) → r.base ≡ some b → s.position < r.position)
      → Reads buf s (static_cell sc buf s.position r s)
  unfolding Placed
  static_cell-Reads buf s r f i l = go r.base refl
    where
      moved : Moves buf s (move_to r.position s)
      moved = Moves-move_to buf r.position s f i

      go :
          (b : Option StaticBase)
          → r.base ≡ b
          → Reads buf s (static_cell sc buf s.position (record r { base = b }) s)
      go none e = gives_null moved
      go (some base_integer) e = create_cell-Reads buf s _ _ moved (l base_integer e) tt
      go (some base_real) e = create_cell-Reads buf s _ _ moved (l base_real e) tt
      go (some base_symbol) e = create_cell-Reads buf s _ _ moved (l base_symbol e) tt
      go (some base_other) e = gives_null moved

  pub parse_static_type-Reads :
      (buf : Buffer) (s : ParseState)
      → s.position ≤ length buf.bytes
      → Reads buf s (parse_static_type sc buf s)
  unfolding parse_static_type
  parse_static_type-Reads buf s i =
      static_cell-Reads buf s (sc.read_static_base_type buf.bytes s.position)
        (laws.static_forward buf.bytes s.position i) (laws.static_inside buf.bytes s.position i)
        (λ b e. laws.static_reads buf.bytes s.position b i e)

  string_cell-Reads :
      (buf : Buffer) (s : ParseState) (g : GroupResult)
      → s.position ≤ length buf.bytes
      → sc.find_group buf.bytes s.position b'"' b'"' (some b'\\') false ≡ g
      → Reads buf s (string_cell sc buf s g)
  unfolding Placed
  string_cell-Reads buf s (group_missing p) i e =
      let (f, b) = laws.group_missing_inside buf.bytes s.position _ _ _ _ p i e in
      gives_null (
        Moves-trans buf s (error_at buf s.position _ s) _
          (Moves-error_at buf s.position _ s s (Moves-move_to buf s.position s (omega arith) i))
          (Moves-move_to buf p _ f b))
  string_cell-Reads buf s (group_found j k) i e =
      let (f, b, l) = laws.group_found_inside buf.bytes s.position _ _ _ _ j k i e in
      create_cell-Reads buf s (move_to (k + 1) s) _
        (Moves-move_to buf (k + 1) s (omega (arith, f, b)) (omega (arith, l))) (omega (arith, f, b))
        tt

  pub parse_value-Reads :
      (current : ℕ) (buf : Buffer) (s : ParseState)
      → s.position ≤ length buf.bytes
      → Reads buf s (parse_value sc current buf s)
  unfolding parse_string_literal
  parse_value-Reads current buf s i =
      elim (current == b'"')
        as (λ x.
          Reads buf s (if x then parse_string_literal sc buf s else parse_static_type sc buf s)) [
            | true ↦
                string_cell-Reads buf s
                  (sc.find_group buf.bytes s.position b'"' b'"' (some b'\\') false) i refl
            | false ↦ parse_static_type-Reads buf s i
          ]
