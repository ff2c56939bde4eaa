-- ===== src/Parse/Grammar/Reads.antt =====
-- What a parse does to the position and the errors, and where the cells that it gives lie.
use akx.Base.{
  ℕ, ◌+◌, ◌<◌, ◌≤◌, refl, List, [], ◌++◌, append-nil, append_assoc, sym, IsPrefix, length, arith,
  ◌∙◌,
}
use akx.Base.Text.{Bytes}
use akx.Cell.{CellPtr}
use akx.Parse.Errors.{
  ParseError, Distinct, add_parse_error, add_parse_error_once, add_parse_error-IsPrefix,
}
use akx.Parse.Grammar.{ParseState, Parsed, nothing, parsed, error_at, move_to}
use akx.Parse.Placed.{Placed, Placed-mono}
use akx.Parse.Scanner.{Buffer}

-- Errors are only appended, and no two have one offset if it was so before.
abbrev pub Reports : List ParseError → List ParseError → Type 0
Reports es es' = IsPrefix es es' × (Distinct es → Distinct es')

pub Reports-refl : (es : List ParseError) → Reports es es
Reports-refl es = (([], sym (append-nil es)), λ d. d)

pub Reports-trans : (a b c : List ParseError) → Reports a b → Reports b c → Reports a c
Reports-trans a b c ((r, e), d) ((s, k), g) =
    ((r ++ s, k ∙ rw (e, append_assoc a r s) refl), λ h. g (d h))

-- The state moves forward in the buffer, and reports.
pub record Moves (buf : Buffer) (s s' : ParseState) : Type 0 where
  pub forward : s.position ≤ s'.position
  pub inside : s'.position ≤ length buf.bytes
  pub reports : Reports s.errors s'.errors

-- A parse gives NULL, or a cell that lies between the positions before and after it, which differ.
pub data Reads (buf : Buffer) (s : ParseState) : Parsed → Type 0 where
  gives_null : {s' : ParseState} → Moves buf s s' → Reads buf s (nothing s')
  gives_cell :
      {c : CellPtr} {s' : ParseState}
      → Moves buf s s'
      → s.position < s'.position
      → Placed (s.position + buf.origin_offset) (s'.position + buf.origin_offset) c
      → Reads buf s (parsed c s')

-- A loop over elements always gives the chain, which lies between `lo` and the position after it.
pub data ReadsItems (buf : Buffer) (lo : ℕ) (s : ParseState) : Parsed → Type 0 where
  gives_chain :
      {c : CellPtr} {s' : ParseState}
      → Moves buf s s'
      → Placed lo (s'.position + buf.origin_offset) c
      → ReadsItems buf lo s (parsed c s')

add_parse_error-Reports :
    (offset : ℕ) (message : Bytes) (es : List ParseError)
    → Reports es (add_parse_error offset message es)
add_parse_error-Reports offset message es = (
  add_parse_error-IsPrefix offset message es,
  λ d. (add_parse_error_once offset message message es d).0,
)

pub Moves-trans :
    (buf : Buffer) (a b c : ParseState) → Moves buf a b → Moves buf b c → Moves buf a c
Moves-trans buf a b c m n = record {
  forward = omega (arith, m.forward, n.forward);
  inside = n.inside;
  reports = Reports-trans a.errors b.errors c.errors m.reports n.reports;
}

pub Moves-error_at :
    (buf : Buffer) (p : ℕ) (message : Bytes) (s s' : ParseState)
    → Moves buf s s'
    → Moves buf s (error_at buf p message s')
Moves-error_at buf p message s s' m = record {
  forward = m.forward;
  inside = m.inside;
  reports =
      Reports-trans s.errors s'.errors _ m.reports
        (add_parse_error-Reports (p + buf.origin_offset) message s'.errors);
}

-- The position of the scanner is written.
pub Moves-move_to :
    (buf : Buffer) (p : ℕ) (s : ParseState)
    → s.position ≤ p
    → p ≤ length buf.bytes
    → Moves buf s (move_to p s)
Moves-move_to buf p s f i = record { forward = f; inside = i; reports = Reports-refl s.errors }

pub Reads-after :
    (buf : Buffer) (s s' : ParseState) {o : Parsed}
    → Moves buf s s'
    → Reads buf s' o
    → Reads buf s o
Reads-after buf s s' m (gives_null {s' = t} n) = gives_null (Moves-trans buf s s' t m n)
Reads-after buf s s' m (gives_cell {c} {s' = t} n l p) =
    gives_cell (Moves-trans buf s s' t m n) (omega (arith, l, m.forward)) (
      Placed-mono (s'.position + buf.origin_offset) (s.position + buf.origin_offset) _ _ c
        (omega (arith, m.forward)) (omega arith) p)

pub ReadsItems-after :
    (buf : Buffer) (lo : ℕ) (s s' : ParseState) {o : Parsed}
    → Moves buf s s'
    → ReadsItems buf lo s' o
    → ReadsItems buf lo s o
ReadsItems-after buf lo s s' m (gives_chain {s' = t} n p) =
    gives_chain (Moves-trans buf s s' t m n) p
