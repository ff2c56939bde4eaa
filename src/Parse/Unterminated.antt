-- ===== src/Parse/Unterminated.antt =====
-- Where `parse_explicit_list_generic` of pkg/cell/akx_cell.c reports a list without its closing
-- delimiter: the scan of the rest of the buffer. `depth` is counted and never used.
use akx.Base.{
  ℕ, ◌+◌, ◌-◌, ◌≡◌, ◌≢◌, ◌⊎◌, inl, inr, refl, ap, ==_iff, false, [], ◌∷◌, ◌++◌, arith, ltb, ◌==◌,
  if◌then◌else◌, length, drop,
}
use native.Mathlib.Decide.{ℕ_discrete}
use akx.Base.Text.{Bytes}

-- The loop, over the bytes from position `i` on.
unfoldable pub scan_open : ℕ → ℕ → Bytes → ℕ → ℕ → ℕ → ℕ
scan_open open_delim close_delim [] i last_open_pos depth = last_open_pos
scan_open open_delim close_delim (c ∷ cs) i last_open_pos depth =
    scan_open open_delim close_delim cs (i + 1) (if c == open_delim then i else last_open_pos) (
      if c == open_delim
      then depth + 1
      else if c == close_delim
      then (if ltb 0 depth then depth - 1 else depth)
      else depth)

-- The list opened at `start_pos`; the scanner stands at `position`.
unfoldable pub last_open_pos : ℕ → ℕ → Bytes → ℕ → ℕ → ℕ
unfolding scan_open
last_open_pos open_delim close_delim text position start_pos =
    scan_open open_delim close_delim (drop (position + 1) text) (position + 1) start_pos 0

-- The byte does not occur.
abbrev pub Lacks : ℕ → Bytes → Type 0
Lacks b [] = Unit
Lacks b (c ∷ cs) = (c ≢ b) × Lacks b cs

-- `pos` is where the last `b` of `cs` stands, whose bytes stand at `i` and on; it is `start`, if
-- there is none.
abbrev pub IsLast : ℕ → Bytes → ℕ → ℕ → ℕ → Type 0
IsLast b cs i start pos =
    (Lacks b cs × (pos ≡ start))
    ⊎ ((before : Bytes) × (behind : Bytes) × (cs ≡ before ++ b ∷ behind)
        × (pos ≡ i + length before)
        × Lacks b behind)

-- The byte in front is `b` itself, or another one.
IsLast-cons_self :
    (b : ℕ) (cs : Bytes) (i start pos : ℕ)
    → IsLast b cs (i + 1) i pos
    → IsLast b (b ∷ cs) i start pos
IsLast-cons_self b cs i start pos (inl (l, e)) = inr ([], cs, refl, omega arith, l)
IsLast-cons_self b cs i start pos (inr (before, behind, e, p, l)) =
    inr (b ∷ before, behind, ap (◌∷◌ b) e, omega arith, l)

IsLast-cons_ne :
    (b x : ℕ) (cs : Bytes) (i start pos : ℕ)
    → x ≢ b
    → IsLast b cs (i + 1) start pos
    → IsLast b (x ∷ cs) i start pos
IsLast-cons_ne b x cs i start pos ne (inl (l, e)) = inl ((ne, l), e)
IsLast-cons_ne b x cs i start pos ne (inr (before, behind, e, p, l)) =
    inr (x ∷ before, behind, ap (◌∷◌ x) e, omega arith, l)

scan_open-IsLast :
    (o c : ℕ) (cs : Bytes) (i start depth : ℕ)
    → IsLast o cs i start (scan_open o c cs i start depth)
unfolding scan_open
scan_open-IsLast o c [] i start depth = inl (tt, refl)
scan_open-IsLast o c (x ∷ cs) i start depth = elim (ℕ_discrete x o) [
  | yes e ↦
      rw (e, (==_iff o o).1 refl) (IsLast-cons_self o cs i start _ (scan_open-IsLast o c cs _ _ _))
  | no ne ↦
      let other : (x == o) ≡ false = ground arith in
      rw other (IsLast-cons_ne o x cs i start _ ne (scan_open-IsLast o c cs _ _ _))
]

-- The position that is reported is that of the last opening delimiter behind the scanner's position,
-- and `start_pos` only if there is none: whether that delimiter is closed again makes no
-- difference.
last_open_pos-IsLast :
    (open_delim close_delim : ℕ) (text : Bytes) (position start_pos : ℕ)
    → IsLast open_delim
        (drop (position + 1) text)
        (position + 1)
        start_pos
        (last_open_pos open_delim close_delim text position start_pos)
unfolding last_open_pos
last_open_pos-IsLast o c text position start_pos =
    scan_open-IsLast o c (drop (position + 1) text) (position + 1) start_pos 0
