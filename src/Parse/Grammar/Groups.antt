-- ===== src/Parse/Grammar/Groups.antt =====
-- What lists and quoted expressions do to the position and the errors, and where their cells lie.
use akx.Base.{
  ℕ, ◌+◌, ◌-◌, ◌<◌, ◌≤◌, ◌≡◌, refl, Bool, true, false, Option, none, some, arith, ltb, ◌==◌,
  if◌then◌else◌, length,
}
use akx.Base.Text.{codes}
use akx.Cell.{null, Brackets, round, square, curly, temple, list, quoted}
use akx.Parse.Grammar.{
  ParseState, Parsed, nothing, parsed, Parser, error_at, move_to, on_result, list_content,
  list_cell, parse_explicit_list_generic, parse_quoted, parse_by_delimiter, create_cell, slice,
}
use akx.Parse.Grammar.Reads.{
  Moves, Reads, gives_null, gives_cell, ReadsItems, gives_chain, Moves-trans, Moves-error_at,
  Moves-move_to,
}
use akx.Parse.Unterminated.{last_open_pos}
use akx.Parse.Placed.{Placed, Placed-mono}
use akx.Parse.Scanner.{Buffer, GroupResult, group_missing, group_found, Scanner, StaysInside}
use akx.Parse.Grammar.Values.{create_cell-Reads}

module _ {sc : Scanner} (laws : StaysInside sc) where
  -- The reader of elements, on every buffer that is shorter than what is left.
  abbrev pub ReadsShorter : (Buffer → ParseState → Parsed) → ℕ → Type 0
  ReadsShorter items rem =
      (sub : Buffer) (t : ParseState)
      → t.position ≡ 0
      → length sub.bytes < rem
      → ReadsItems sub sub.origin_offset t (items sub t)

  list_content-Reads :
      (items : Buffer → ParseState → Parsed) (buf : Buffer) (s : ParseState) (k : Brackets)
      (i j : ℕ)
      → ReadsShorter items (length buf.bytes - s.position)
      → s.position ≤ i
      → i < j
      → j < length buf.bytes
      → (sub : Option Buffer) → sc.sub_buffer buf (i + 1) (j - (i + 1)) ≡ sub
      → Reads buf s (
          on_result
            (list_content sc items sub s)
            (λ s'. parsed (create_cell (list k null) buf s.position (j + 1)) (move_to (j + 1) s'))
            (λ head s'.
              parsed (create_cell (list k head) buf s.position (j + 1)) (move_to (j + 1) s')))
  unfolding Placed
  list_content-Reads items buf s k i j h f b l none e =
      create_cell-Reads buf s (move_to (j + 1) s) _
        (Moves-move_to buf (j + 1) s (omega (arith, f, b)) (omega (arith, l))) (omega (arith, f, b))
        tt
  list_content-Reads items buf s k i j h f b l (some sub) e =
      let (n, o) = laws.sub_buffer_inside buf (i + 1) (j - (i + 1)) sub (omega (arith, b, l)) e in
      around n o (h sub (move_to 0 s) refl (omega (arith, n, f, b, l)))
    where
      around :
          {o : Parsed}
          → length sub.bytes ≤ j - (i + 1)
          → sub.origin_offset ≡ buf.origin_offset + (i + 1)
          → ReadsItems sub sub.origin_offset (move_to 0 s) o
          → Reads buf s (
              on_result o
                (λ s'.
                  parsed (create_cell (list k null) buf s.position (j + 1)) (move_to (j + 1) s'))
                (λ head s'.
                  parsed (create_cell (list k head) buf s.position (j + 1)) (move_to (j + 1) s')))
      around n o (gives_chain {c} {s' = t} m p) =
          create_cell-Reads buf s (move_to (j + 1) t) (list k c)
            (record {
              forward = omega (arith, f, b);
              inside = omega (arith, l);
              reports = m.reports;
            })
            (omega (arith, f, b))
            (Placed-mono sub.origin_offset _ (t.position + sub.origin_offset) _ c
              (omega (arith, o, f)) (omega (arith, o, n, m.inside, b, l)) p)

  list_cell-Reads :
      (items : Buffer → ParseState → Parsed) (o c : ℕ) (k : Brackets) (buf : Buffer)
      (s : ParseState)
      → ReadsShorter items (length buf.bytes - s.position)
      → s.position ≤ length buf.bytes
      → (g : GroupResult) → sc.find_group buf.bytes s.position o c none true ≡ g
      → Reads buf s (list_cell sc items o c k buf s g)
  unfolding Placed
  list_cell-Reads items o c k buf s h i (group_missing p) e =
      let (f, b) = laws.group_missing_inside buf.bytes s.position _ _ _ _ p i e in
      let m =
        Moves-error_at buf (last_open_pos o c buf.bytes p s.position) _ s s
          (Moves-move_to buf s.position s (omega arith) i) in
      gives_null (Moves-trans buf s _ _ m (Moves-move_to buf p _ f b))
  list_cell-Reads items o c k buf s h i (group_found u v) e =
      let (f, b, l) = laws.group_found_inside buf.bytes s.position _ _ _ _ u v i e in
      elim (ltb 0 (v - (u + 1)))
        as (λ x. Reads buf s (
          on_result
            (if x
              then list_content sc items (sc.sub_buffer buf (u + 1) (v - (u + 1))) s
              else parsed null s)
            (λ s'. parsed (create_cell (list k null) buf s.position (v + 1)) (move_to (v + 1) s'))
            (λ head s'.
              parsed (create_cell (list k head) buf s.position (v + 1)) (move_to (v + 1) s')))) [
                | true ↦
                    list_content-Reads items buf s k u v h f b l
                      (sc.sub_buffer buf (u + 1) (v - (u + 1))) refl
                | false ↦
                    create_cell-Reads buf s (move_to (v + 1) s) _
                      (Moves-move_to buf (v + 1) s (omega (arith, f, b)) (omega (arith, l)))
                      (omega (arith, f, b)) tt
              ]

  pub parse_explicit_list_generic-Reads :
      (items : Buffer → ParseState → Parsed) (o c : ℕ) (k : Brackets) (buf : Buffer)
      (s : ParseState)
      → ReadsShorter items (length buf.bytes - s.position)
      → s.position ≤ length buf.bytes
      → Reads buf s (parse_explicit_list_generic sc items o c k buf s)
  unfolding parse_explicit_list_generic
  parse_explicit_list_generic-Reads items o c k buf s h i =
      list_cell-Reads items o c k buf s h i (sc.find_group buf.bytes s.position o c none true) refl

  pub parse_quoted-Reads :
      (argument : Parser) (buf : Buffer) (s : ParseState)
      → s.position < length buf.bytes
      → Reads buf (move_to (s.position + 1) s) (argument buf (move_to (s.position + 1) s))
      → Reads buf s (parse_quoted sc argument buf s)
  unfolding parse_quoted Placed
  parse_quoted-Reads argument buf s i h = around h
    where
      step : Moves buf s (move_to (s.position + 1) s)
      step = Moves-move_to buf (s.position + 1) s (omega arith) (omega (arith, i))

      around :
          {o : Parsed}
          → Reads buf (move_to (s.position + 1) s) o
          → Reads buf s (
              on_result o
                (λ s'.
                  nothing (error_at buf s.position (codes "invalid expression after quote") s'))
                (λ inner s'.
                  parsed
                    (create_cell
                      (quoted (slice buf.bytes (s.position + 1) (s'.position - (s.position + 1))))
                      buf
                      s.position
                      s'.position)
                    s'))
      around (gives_null {s' = t} m) =
          gives_null (Moves-error_at buf s.position _ s t (Moves-trans buf s _ t step m))
      around (gives_cell {s' = t} m l p) =
          create_cell-Reads buf s t _ (Moves-trans buf s _ t step m) (omega (arith, l)) tt

  pub parse_by_delimiter-Reads :
      (items : Buffer → ParseState → Parsed) (argument otherwise : Parser) (current : ℕ)
      (buf : Buffer) (s : ParseState)
      → ReadsShorter items (length buf.bytes - s.position)
      → Reads buf (move_to (s.position + 1) s) (argument buf (move_to (s.position + 1) s))
      → Reads buf s (otherwise buf s)
      → s.position < length buf.bytes
      → Reads buf s (parse_by_delimiter sc items argument otherwise current buf s)
  parse_by_delimiter-Reads items argument otherwise current buf s h a o i =
      choose (current == b'(') (explicit b'(' b')' round) (
        choose (current == b'[') (explicit b'[' b']' square) (
          choose (current == b'{') (explicit b'{' b'}' curly) (
            choose (current == b'<') (explicit b'<' b'>' temple)
              (choose (current == b'\'') (parse_quoted-Reads argument buf s i a) o))))
    where
      choose :
          {x y : Parsed} (b : Bool)
          → Reads buf s x
          → Reads buf s y
          → Reads buf s (if b then x else y)
      choose true p q = p
      choose false p q = q

      explicit :
          (o c : ℕ) (k : Brackets) → Reads buf s (parse_explicit_list_generic sc items o c k buf s)
      explicit o c k = parse_explicit_list_generic-Reads items o c k buf s h (omega (arith, i))
