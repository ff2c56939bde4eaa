-- ===== src/Parse/Program/Stops.antt =====
-- Where the loop of `akx_cell_parse_buffer` ends before the input does.
use Prim.Native.Nat.{compare, Ordering}
use akx.Base.{
  ℕ, suc, ◌∙◌, ◌<◌, ◌≡◌, refl, Bool, true, false, ◌||◌, List, Option, none, some, ap, arith, ◌==◌,
  length,
}
use akx.Cell.{CellPtr, null}
use akx.Parse.Grammar.{
  ParseState, Parsed, Parser, nothing, parse_by_delimiter, parse_items, parse_argument, move_to,
  byte_at, parse_static_type, static_cell,
}
use akx.Parse.Program.{parse_virtual_list, virtual_list_from, parse_expression, parse_loop}
use akx.Parse.Scanner.{
  Buffer, StaticBase, base_integer, base_real, base_symbol, base_other, StaticResult, Scanner,
}

-- The bytes of the switch.
abbrev pub begins_explicit : ℕ → Bool
begins_explicit c = c == b'(' || (c == b'[' || (c == b'{' || (c == b'<' || c == b'\'')))

compare_gt : (a b : ℕ) → b < a → compare a b ≡ Ordering.gt
compare_gt a b h = ground arith

module _ (sc : Scanner) where
  virtual_list_from-static_cell :
      (f : ℕ) (buf : Buffer) (s : ParseState) (p : ℕ) (r : StaticResult) (b : Option StaticBase)
      → ¬ (b ≡ some base_symbol)
      → (t : ParseState) × (virtual_list_from sc f buf p
            (static_cell sc buf p (record r { base = b }) s)
          ≡ nothing t)
        × (t.errors ≡ s.errors)
  virtual_list_from-static_cell f buf s p r none n = (_, refl, refl)
  virtual_list_from-static_cell f buf s p r (some base_integer) n = (_, refl, refl)
  virtual_list_from-static_cell f buf s p r (some base_real) n = (_, refl, refl)
  virtual_list_from-static_cell f buf s p r (some base_symbol) n = absurd (n refl)
  virtual_list_from-static_cell f buf s p r (some base_other) n = (_, refl, refl)

  parse_by_delimiter-otherwise :
      (items : Buffer → ParseState → Parsed) (argument otherwise : Parser) (c : ℕ) (buf : Buffer)
      (s : ParseState)
      → begins_explicit c ≡ false
      → parse_by_delimiter sc items argument otherwise c buf s ≡ otherwise buf s
  parse_by_delimiter-otherwise items argument otherwise c buf s h = ground arith

  parse_expression-otherwise :
      (f c : ℕ) (buf : Buffer) (s : ParseState) (r : StaticResult)
      → begins_explicit c ≡ false
      → sc.read_static_base_type buf.bytes s.position ≡ r
      → ¬ (r.base ≡ some base_symbol)
      → (t : ParseState) × (parse_expression sc f c buf s ≡ nothing t) × (t.errors ≡ s.errors)
  unfolding parse_expression parse_virtual_list parse_static_type
  parse_expression-otherwise f c buf s r d h n =
      let (t, e, g) = virtual_list_from-static_cell f buf s s.position r r.base n in
      (
        t,
        parse_by_delimiter-otherwise (parse_items sc f null) (parse_argument sc f)
              (parse_virtual_list sc f) c buf s d
            ∙ ap (λ x. virtual_list_from sc f buf s.position (static_cell sc buf s.position x s)) h
            ∙ e,
        g,
      )

  -- An expression that begins with neither a delimiter nor a symbol is dropped with all that follows
  -- it, and no error is reported.
  pub parse_loop-stops :
      (f rounds : ℕ) (buf : Buffer) (cells : List CellPtr) (s : ParseState) (p : ℕ)
      → s.position < length buf.bytes
      → sc.skip_whitespace_and_comments buf.bytes s.position ≡ record { position = p; ok = true }
      → p < length buf.bytes
      → begins_explicit (byte_at buf.bytes p) ≡ false
      → ¬ ((sc.read_static_base_type buf.bytes p).base ≡ some base_symbol)
      → parse_loop sc f (suc rounds) buf cells s
        ≡ some (record { cells = cells; errors = s.errors })
  unfolding parse_loop
  parse_loop-stops f rounds buf cells s p i m l d n =
      let (t, e, g) =
        parse_expression-otherwise f (byte_at buf.bytes p) buf (move_to p s) _ d refl n in
      rw (compare_gt (length buf.bytes) s.position i, parse_loop)
        (rw m (rw (compare_gt (length buf.bytes) p l) (rw m (rw (e, g) refl))))
