-- ===== src/Nucleus/Scanf.antt =====
-- nucleus/io/scanf.c: `io/scanf` reads values from the terminal by a format.
pub mod Runs
use akx.Base.{
  ℕ, zero, suc, Bool, true, false, ◌||◌, ◌&&◌, ltb, List, [], ◌∷◌, ◌++◌, Option, none, some, ◌==◌,
  if◌then◌else◌,
}
use akx.Base.Int.{ℤ, wrap}
use akx.Base.Text.{Bytes, codes, c_string}
use akx.Cell.{
  Cell, CellPtr, null, node, string_literal, integer_literal, real_literal, alloc_cell, nil,
}
use akx.Nucleus.Putf.{escaped}
use akx.Rt.{Env, M, Evaluator, plain, ◌>>=◌, ◌>>◌, handle, pure, fail, sys_call, out_of_fuel}
use akx.System.{SysCall, getchar, ungetc, scan_int, scan_real, scan_word, read_line}

abbrev pub is_space : ℕ → Bool
is_space c = c == b' ' || (c == b'\t' || (c == b'\n' || c == b'\r'))

-- The line without its newline.
unfoldable pub chomp : Bytes → Bytes
chomp [] = []
chomp (c ∷ []) = if c == b'\n' then [] else c ∷ []
chomp (c ∷ d ∷ cs) = c ∷ chomp (d ∷ cs)

unfoldable pub link_values : List Cell → CellPtr
link_values [] = null
link_values (c ∷ cs) = node none c (link_values cs)

-- The values in no list; `nil` if there are none.
abbrev pub values_or_nil : List Cell → CellPtr
values_or_nil [] = nil
values_or_nil (c ∷ cs) = link_values (c ∷ cs)

module _ {Ctx : Type 0} (env : Env Ctx) where
  -- `getchar()`, where none is EOF.
  abbrev pub get_char : M Ctx (Option ℕ)
  get_char = sys_call getchar λ calls. env.sys.next_char calls

  -- What is done with the next character if it is the expected one. A `char` of 128 or more is
  -- negative, where `char` is signed, and no character that is read equals it.
  abbrev pub if_char : ℕ → Bytes → M Ctx CellPtr → Option ℕ → M Ctx CellPtr
  if_char expected message go_on none = fail message
  if_char expected message go_on (some ch) =
      if ch == expected && ltb expected 128 then go_on else fail message

  abbrev pub put_back : Option ℕ → M Ctx (Unit {0})
  put_back none = pure tt
  put_back (some ch) = sys_call (ungetc ch) λ calls. tt

  abbrev pub after_char : M Ctx (Unit {0}) → Option ℕ → M Ctx (Unit {0})
  after_char again none = pure tt
  after_char again (some c) = if is_space c then again else put_back (some c)

  -- White space is read, and the character behind it put back.
  unfoldable pub skip_spaces : ℕ → M Ctx (Unit {0})
  skip_spaces zero = out_of_fuel
  skip_spaces (suc fuel) = get_char >>= after_char (skip_spaces fuel)

  abbrev pub value_or_fail : {A : Type 0} → Bytes → (A → Cell) → Option A → M Ctx Cell
  value_or_fail message cell none = fail message
  value_or_fail message cell (some a) = pure (cell a)

  -- The value of a directive, by the byte behind the `%`.
  unfoldable pub scan_value : ℕ → ℕ → M Ctx Cell
  unfolding skip_spaces
  scan_value fuel p =
      if p == b'd'
      then (sys_call scan_int (λ calls. env.sys.next_int calls)
          >>= value_or_fail (codes "io/scanf: failed to read integer")
              (λ i. integer_literal (wrap i)))
      else if p == b'f'
      then (sys_call scan_real (λ calls. env.sys.next_real calls)
          >>= value_or_fail (codes "io/scanf: failed to read real") real_literal)
      else if p == b's'
      then (sys_call scan_word (λ calls. env.sys.next_word calls)
          >>= value_or_fail (codes "io/scanf: failed to read string")
              (λ text. string_literal (c_string text)))
      else if p == b'c'
      then (get_char
          >>= value_or_fail (codes "io/scanf: failed to read character")
              (λ ch. string_literal (c_string (ch ∷ []))))
      else if p == b'l'
      then (do
        skip_spaces fuel
        line ← sys_call read_line (λ calls. env.sys.next_line calls)
        value_or_fail (codes "io/scanf: failed to read line")
            (λ text. string_literal (chomp (c_string text))) line)
      else fail (c_string (codes "io/scanf: unknown format specifier '%" ++ (p ∷ b'\'' ∷ [])))

  abbrev pub scan_directive : ℕ → ℕ → List Cell → (List Cell → M Ctx CellPtr) → M Ctx CellPtr
  scan_directive fuel p values go_on =
      if p == b'%'
      then get_char >>= if_char b'%' (codes "io/scanf: expected '%' in input") (go_on values)
      else scan_value fuel p >>= λ value. go_on (values ++ value ∷ [])

  -- The error of a character that is not the expected one.
  abbrev pub escape_error : ℕ → Bytes
  escape_error c = c_string (codes "io/scanf: expected character '\\" ++ (c ∷ codes "' in input"))

  abbrev pub char_error : ℕ → Bytes
  char_error c = codes "io/scanf: expected character '" ++ (c ∷ codes "' in input")

  abbrev pub finish : List Cell → M Ctx CellPtr
  finish values = pure (values_or_nil values)

  -- The loop over the format. Behind a backslash at its end the code expects a NUL, and if it gets one
  -- reads on behind the string, which is left out.
  unfoldable pub scan_format : ℕ → Bytes → List Cell → M Ctx CellPtr
  unfolding scan_value skip_spaces link_values
  scan_format fuel [] values = finish values
  scan_format fuel (c ∷ []) values =
      if c == b'%'
      then scan_directive fuel 0 values finish
      else if c == b'\\'
      then get_char >>= if_char 0 (escape_error 0) (finish values)
      else if c == b' '
      then skip_spaces fuel >> finish values
      else get_char >>= if_char c (char_error c) (finish values)
  scan_format fuel (c ∷ d ∷ format) values =
      let behind_two = scan_format fuel format in
      let behind_one = scan_format fuel (d ∷ format) in
      if c == b'%'
      then scan_directive fuel d values behind_two
      else if c == b'\\'
      then get_char >>= if_char (escaped d) (escape_error d) (behind_two values)
      else if c == b' '
      then skip_spaces fuel >> behind_one values
      else get_char >>= if_char c (char_error c) (behind_one values)

  abbrev pub scan_formatted : ℕ → CellPtr → M Ctx CellPtr
  scan_formatted fuel (node _ (string_literal s) _) = scan_format fuel (c_string s) []
  scan_formatted fuel _ = fail (codes "io/scanf: first argument must be a string")

  unfoldable pub scanf_impl : ℕ → Evaluator Ctx → CellPtr → M Ctx CellPtr
  unfolding scan_format
  scanf_impl fuel ev null = fail (codes "io/scanf requires at least a format string")
  scanf_impl fuel ev (node r c next) =
      handle (ev plain (node r c next)) (fail (codes "io/scanf: first argument must be a string"))
        (scan_formatted fuel)
