-- ===== src/Repl/Buffer/Balance.antt =====
-- The balance test against an independent description: drop the string literals, then count the
-- delimiters of each kind.
use akx.Base.{ℕ, ◌+◌, ◌≡◌, ◌↔◌, ◌∙◌, refl, true, ◌&&◌, [], ◌∷◌, arith, ◌==◌, if◌then◌else◌}
use akx.Base.Int.{ℤ, pos, ◌+ℤ◌, ◌-ℤ◌, sub_ℕ, eqb_ℤ, int_laws}
use akx.Base.Text.{Bytes}
use akx.Repl.Buffer.{ReplBuffer, Scan, scan_start, scan_byte, scan_bytes, repl_buffer_is_balanced}

-- Where a byte stands: in code, in a string, or behind a backslash in a string.
pub data Place : Type 0 where
  code text escaped : Place

abbrev pub next_place : Place → ℕ → Place
next_place code c = if c == b'"' then text else code
next_place text c = if c == b'\\' then escaped else if c == b'"' then code else text
next_place escaped c = text

abbrev keep_code : Place → ℕ → Bytes → Bytes
keep_code code c rest = if c == b'"' then rest else c ∷ rest
keep_code text c rest = rest
keep_code escaped c rest = rest

-- The bytes that stand in code, without the quotes of the strings.
abbrev pub code_bytes : Place → Bytes → Bytes
code_bytes p [] = []
code_bytes p (c ∷ cs) = keep_code p c (code_bytes (next_place p c) cs)

abbrev pub count : ℕ → Bytes → ℕ
count b [] = 0
count b (c ∷ cs) = (if c == b then 1 else 0) + count b cs

place_of : Scan → Place
place_of s = if s.escape_next then escaped else if s.in_string then text else code

scan_byte-place :
    (s : Scan) (c : ℕ)
    → (s.escape_next ≡ true → s.in_string ≡ true)
    → (place_of (scan_byte s c) ≡ next_place (place_of s) c)
      × ((scan_byte s c).escape_next ≡ true → (scan_byte s c).in_string ≡ true)
unfolding place_of scan_byte
scan_byte-place s c h = (ground arith, λ e. ground arith)

regroup : (a : ℤ) (m n p q : ℕ) → a +ℤ sub_ℕ m n +ℤ sub_ℕ p q ≡ a +ℤ sub_ℕ (m + p) (n + q)
regroup a m n p q = omega int_laws

count-keep_code :
    (b : ℕ) (p : Place) (c : ℕ) (rest : Bytes)
    → count b (keep_code p c rest) ≡ count b (keep_code p c []) + count b rest
count-keep_code b code c rest = ground arith
count-keep_code b text c rest = omega arith
count-keep_code b escaped c rest = omega arith

-- A depth of the scan goes up at the byte `o`, down at the byte `c`, and only in code.
abbrev Steps : (Scan → ℤ) → ℕ → ℕ → Type 0
Steps depth o c =
    (s : Scan) (x : ℕ)
    → depth (scan_byte s x)
      ≡ depth s
        +ℤ sub_ℕ (count o (keep_code (place_of s) x [])) (count c (keep_code (place_of s) x []))

-- Over a whole text such a depth changes by the difference of the counts in its code.
scan_bytes-count :
    (depth : Scan → ℤ) (o c : ℕ)
    → Steps depth o c
    → (cs : Bytes) (s : Scan) → (s.escape_next ≡ true → s.in_string ≡ true)
    → depth (scan_bytes s cs)
      ≡ depth s
        +ℤ sub_ℕ (count o (code_bytes (place_of s) cs)) (count c (code_bytes (place_of s) cs))
unfolding scan_bytes
scan_bytes-count depth o c steps [] s h = omega int_laws
scan_bytes-count depth o c steps (x ∷ cs) s h =
    let (placed, keeps) = scan_byte-place s x h in
    scan_bytes-count depth o c steps cs (scan_byte s x) keeps
    ∙ rw
        (
          placed,
          steps s x,
          count-keep_code o (place_of s) x (code_bytes (next_place (place_of s) x) cs),
          count-keep_code c (place_of s) x (code_bytes (next_place (place_of s) x) cs),
        )
        (regroup (depth s) _ _ _ _)

plus_zero : (a : ℤ) → a +ℤ sub_ℕ 0 0 ≡ a
plus_zero a = omega int_laws

plus_one : (a : ℤ) → a +ℤ sub_ℕ 1 0 ≡ a +ℤ pos 1
plus_one a = omega int_laws

minus_one : (a : ℤ) → a +ℤ sub_ℕ 0 1 ≡ a -ℤ pos 1
minus_one a = omega int_laws

paren-Steps : Steps (λ s. s.paren) b'(' b')'
unfolding scan_byte place_of
paren-Steps s x = ground (arith, plus_zero s.paren, plus_one s.paren, minus_one s.paren)

bracket-Steps : Steps (λ s. s.bracket) b'[' b']'
unfolding scan_byte place_of
bracket-Steps s x = ground (arith, plus_zero s.bracket, plus_one s.bracket, minus_one s.bracket)

brace-Steps : Steps (λ s. s.brace) b'{' b'}'
unfolding scan_byte place_of
brace-Steps s x = ground (arith, plus_zero s.brace, plus_one s.brace, minus_one s.brace)

temple-Steps : Steps (λ s. s.temple) b'<' b'>'
unfolding scan_byte place_of
temple-Steps s x = ground (arith, plus_zero s.temple, plus_one s.temple, minus_one s.temple)

eqb-count : (d : ℤ) (m n : ℕ) → d ≡ pos 0 +ℤ sub_ℕ m n → eqb_ℤ d (pos 0) ≡ (m == n)
unfolding ◌+ℤ◌ sub_ℕ
eqb-count d m n h = ground arith

-- The code of a text has as many `o` as `c`.
abbrev pub Even : ℕ → ℕ → Bytes → Type 0
Even o c cs = count o (code_bytes code cs) ≡ count c (code_bytes code cs)

module _ (cs : Bytes) where
  scanned :
      (depth : Scan → ℤ) (o c : ℕ)
      → Steps depth o c
      → depth scan_start ≡ pos 0
      → eqb_ℤ (depth (scan_bytes scan_start cs)) (pos 0)
        ≡ (count o (code_bytes code cs) == count c (code_bytes code cs))
  unfolding place_of
  scanned depth o c steps z =
      eqb-count _ _ _ (scan_bytes-count depth o c steps cs scan_start (λ e. cc) ∙ rw z)

-- A buffer counts as balanced exactly when each of the four kinds of brackets is opened as often as
-- it is closed outside of string literals; neither order nor nesting plays a part. The test
-- leaves the text and the line count alone.
pub repl_buffer_is_balanced_iff :
    (buf : ReplBuffer)
    → (((repl_buffer_is_balanced buf).1 ≡ true) ↔ (
        Even b'(' b')' buf.content
        × Even b'[' b']' buf.content
        × Even b'{' b'}' buf.content
        × Even b'<' b'>' buf.content))
      × ((repl_buffer_is_balanced buf).0.content ≡ buf.content)
      × ((repl_buffer_is_balanced buf).0.line_count ≡ buf.line_count)
unfolding repl_buffer_is_balanced
repl_buffer_is_balanced_iff buf = (
  rw
      (
        scanned buf.content (λ s. s.paren) b'(' b')' paren-Steps refl,
        scanned buf.content (λ s. s.bracket) b'[' b']' bracket-Steps refl,
        scanned buf.content (λ s. s.brace) b'{' b'}' brace-Steps refl,
        scanned buf.content (λ s. s.temple) b'<' b'>' temple-Steps refl,
      )
      (four_tests _ _ _ _ _ _ _ _),
  refl,
  refl,
)
  where
    four_tests :
        (a b c d e f g h : ℕ)
        → (((a == b) && ((c == d) && ((e == f) && (g == h)))) ≡ true)
          ↔ ((a ≡ b) × (c ≡ d) × (e ≡ f) × (g ≡ h))
    four_tests a b c d e f g h = ground arith
