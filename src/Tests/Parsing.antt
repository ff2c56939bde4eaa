-- ===== src/Tests/Parsing.antt =====
-- A concrete scanner, and the theorems on the parser at a small program.
use mathlib.Core.Path.{subst}
use akx.Base.{
  ℕ, suc, ◌+◌, ◌-◌, ◌*◌, ◌<◌, ◌≤◌, ◌≡◌, refl, Bool, true, false, ◌||◌, ◌&&◌, not, List, [], ◌∷◌,
  Option, none, some, leb, ltb, ◌==◌, if◌then◌else◌, length, take, drop, length-take, length-drop,
  arith,
}
use akx.Base.Int.{pos}
use akx.Base.Text.{Bytes, codes}
use akx.Cell.{CellPtr, null, node}
use akx.Parse.Grammar.{parse_explicit_list_generic, parse_static_type}
use akx.Parse.Program.{ParseResult, akx_cell_parse_buffer, parse_loop}
use akx.Parse.Program.Stops.{parse_loop-stops}
use akx.Parse.Program.Total.{Completes, akx_cell_parse_buffer-Completes}
use akx.Parse.Scanner.{
  Buffer, StaticBase, base_integer, base_symbol, StaticResult, GroupResult, group_missing,
  group_found, Moved, Scanner, StaysInside,
}

abbrev is_blank : ℕ → Bool
is_blank c = c == b' ' || c == b'\n'

abbrev is_digit : ℕ → Bool
is_digit c = leb b'0' c && leb c b'9'

abbrev in_word : ℕ → Bool
in_word c = not (is_blank c || (c == b'(' || c == b')'))

-- How many bytes at the front have the property.
abbrev span : (ℕ → Bool) → Bytes → ℕ
span p [] = 0
span p (c ∷ cs) = let rest = span p cs in if p c then suc rest else 0

span_lem : (p : ℕ → Bool) (b : Bytes) → span p b ≤ length b
span_lem p [] = omega arith
span_lem p (c ∷ cs) = elim (p c) as (λ x. (if x then suc (span p cs) else 0) ≤ length (c ∷ cs)) [
  | true ↦ omega (arith, span_lem p cs)
  | false ↦ omega arith
]

abbrev base_of : Bytes → Option StaticBase
base_of [] = none
base_of (c ∷ cs) = if is_digit c then some base_integer else some base_symbol

abbrev skip_blanks : Bytes → ℕ → Moved
skip_blanks b p = record { position = p + span is_blank (drop p b); ok = true }

abbrev word_at : Bytes → ℕ → Bytes
word_at b p = take (span in_word (drop p b)) (drop p b)

abbrev read_word : Bytes → ℕ → StaticResult
read_word b p = record {
  position = p + length (word_at b p);
  base = base_of (word_at b p);
  text = word_at b p;
}

-- The next closing delimiter; groups in groups are left out.
abbrev find_close : Bytes → ℕ → ℕ → ℕ → Option ℕ → Bool → GroupResult
find_close b p o c e nested =
    if ltb (suc p + span (λ x. not (x == c)) (drop (suc p) b)) (length b)
    then group_found p (suc p + span (λ x. not (x == c)) (drop (suc p) b))
    else group_missing (length b)

abbrev decimal : ℕ → Bytes → ℕ
decimal n [] = n
decimal n (c ∷ cs) = decimal (10 * n + (c - b'0')) cs

abbrev word_scanner : Scanner
word_scanner = record {
  skip_whitespace_and_comments = skip_blanks;
  goto_next_non_white = skip_blanks;
  read_static_base_type = read_word;
  find_group = find_close;
  sub_buffer = λ b start len.
      some
        (record { bytes = take len (drop start b.bytes); origin_offset = b.origin_offset + start });
  atoi = λ text. pos (decimal 0 text);
  atof = λ text. 0;
  new_origin = 0;
}

skip_blanks_lem : (b : Bytes) (p : ℕ) → p ≤ length b → p + span is_blank (drop p b) ≤ length b
skip_blanks_lem b p h = omega (arith, span_lem is_blank (drop p b), length-drop p b, h)

read_word_lem : (b : Bytes) (p : ℕ) → p ≤ length b → p + length (word_at b p) ≤ length b
read_word_lem b p h =
    omega (arith, length-take (span in_word (drop p b)) (drop p b), length-drop p b, h)

base_of-reads : (w : Bytes) (p : ℕ) (base : StaticBase) → base_of w ≡ some base → p < p + length w
base_of-reads [] p base e = ground arith
base_of-reads (c ∷ cs) p base e = omega arith

find_close-missing :
    (b : Bytes) (p o c : ℕ) (e : Option ℕ) (nested : Bool) (q : ℕ)
    → p ≤ length b
    → find_close b p o c e nested ≡ group_missing q
    → (p ≤ q) × (q ≤ length b)
find_close-missing b p o c e nested q h k = (ground arith, ground arith)

find_close-found :
    (b : Bytes) (p o c : ℕ) (e : Option ℕ) (nested : Bool) (i j : ℕ)
    → p ≤ length b
    → find_close b p o c e nested ≡ group_found i j
    → (p ≤ i) × (i < j) × (j < length b)
find_close-found b p o c e nested i j h k = (ground arith, ground arith, ground arith)

sub_bytes_lem :
    (b : Buffer) (start len : ℕ) (sub : Buffer)
    → start + len ≤ length b.bytes
    → word_scanner.sub_buffer b start len ≡ some sub
    → (length sub.bytes ≤ len) × (sub.origin_offset ≡ b.origin_offset + start)
sub_bytes_lem b start len sub h e =
    subst (λ o. (length (some_bytes o) ≤ len) × (some_origin o ≡ b.origin_offset + start)) e
      (omega (arith, length-take len (drop start b.bytes)), refl)
  where
    some_bytes : Option Buffer → Bytes
    some_bytes none = []
    some_bytes (some t) = t.bytes

    some_origin : Option Buffer → ℕ
    some_origin none = 0
    some_origin (some t) = t.origin_offset

word_scanner-StaysInside : StaysInside word_scanner
word_scanner-StaysInside = record {
  skip_forward = λ b p h. omega arith;
  skip_inside = skip_blanks_lem;
  goto_forward = λ b p h. omega arith;
  goto_inside = skip_blanks_lem;
  static_forward = λ b p h. omega arith;
  static_inside = read_word_lem;
  static_reads = λ b p base h e. base_of-reads (word_at b p) p base e;
  group_missing_inside = find_close-missing;
  group_found_inside = find_close-found;
  sub_buffer_inside = sub_bytes_lem;
}

abbrev program : Buffer
program = record { bytes = codes "add 1 (b 2)\n5 (c)"; origin_offset = 10 }

akx_cell_parse_buffer-Completes_example :
    Completes program (akx_cell_parse_buffer word_scanner program)
akx_cell_parse_buffer-Completes_example =
    akx_cell_parse_buffer-Completes word_scanner-StaysInside program

-- The call behind the number is lost.
abbrev number_first : Buffer
number_first = record { bytes = codes "5 (c)"; origin_offset = 0 }

not_symbol : ¬ ((word_scanner.read_static_base_type number_first.bytes 0).base ≡ some base_symbol)
not_symbol e = cc

parse_loop-stops_example :
    parse_loop word_scanner 12 6 number_first [] (record { position = 0; errors = [] })
    ≡ some (record { cells = []; errors = [] })
parse_loop-stops_example =
    parse_loop-stops word_scanner 12 5 number_first [] _ 0 (omega arith) refl (omega arith) refl
      not_symbol

-- Where the cells begin and end.
abbrev end_of : List CellPtr → List ℕ
end_of [] = []
end_of (null ∷ cs) = end_of cs
end_of (node none c next ∷ cs) = end_of cs
end_of (node (some r) c next ∷ cs) = r.start ∷ r.end ∷ end_of cs

abbrev ends_of : Option ParseResult → List ℕ
ends_of none = []
ends_of (some r) = end_of r.cells

program_cells : ends_of (akx_cell_parse_buffer word_scanner program) ≡ 10 ∷ 22 ∷ []
unfolding akx_cell_parse_buffer parse_explicit_list_generic parse_static_type
program_cells = refl
