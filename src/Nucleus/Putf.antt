-- ===== src/Nucleus/Putf.antt =====
-- nucleus/io/putf.c: `io/putf` prints a format with its arguments.
pub mod Runs
pub mod Plain
use akx.Base.{
  ℕ, ◌+◌, Bool, true, false, List, [], ◌∷◌, ◌++◌, Option, none, some, ◌==◌, if◌then◌else◌, length,
  take,
}
use akx.Base.Int.{ℤ, pos, negsuc, wrap}
use akx.Base.Text.{Bytes, codes, c_string, decimal}
use akx.Cell.{
  Cell, CellPtr, null, node, CellType, type_symbol, type_string_literal, type_integer_literal,
  type_real_literal, type_list, type_list_square, type_list_curly, type_list_temple, type_quoted,
  type_lambda, type_continuation, symbol, string_literal, integer_literal, real_literal, list,
  quoted, lambda, continuation, type_of, is_list_type, cell_get_type, cell_is_type, cell_next,
  alloc_cell,
}
use akx.Nucleus.Strings.{text_of}
use akx.Rt.{Env, M, Evaluator, plain, ◌>>=◌, ◌>>◌, handle, pure, return_null, fail, print}

-- The byte that an escape prints.
abbrev pub escaped : ℕ → ℕ
escaped c = if c == b'n' then b'\n' else if c == b't' then b'\t' else if c == b'r' then b'\r' else c

-- `%d` of an `int`.
abbrev pub signed_decimal : ℤ → Bytes
signed_decimal (pos n) = decimal n
signed_decimal (negsuc n) = b'-' ∷ decimal (n + 1)

abbrev pub type_name : CellType → Bytes
type_name type_symbol = codes "symbol"
type_name type_string_literal = codes "string"
type_name type_integer_literal = codes "integer"
type_name type_real_literal = codes "real"
type_name type_list = codes "list"
type_name type_list_square = codes "list-square"
type_name type_list_curly = codes "list-curly"
type_name type_list_temple = codes "list-temple"
type_name type_quoted = codes "quoted"
type_name type_lambda = codes "lambda"
type_name type_continuation = codes "continuation"

-- The text that a directive prints, and the length that it counts.
abbrev pub Printed : Type 0
Printed = Bytes × ℕ

abbrev pub counted : Bytes → Printed
counted text = (text, length text)

-- A double is printed from a buffer of 64 bytes, and counted in full.
abbrev pub real_text : Bytes → Printed
real_text text = (take 63 text, length text)

-- A text, or the error that the argument has another type.
abbrev pub if_type : Bool → Printed → Bytes → Option Printed × Bytes
if_type true p message = (some p, message)
if_type false p message = (none, message)

module _ {Ctx : Type 0} (env : Env Ctx) where
  -- `%v`, which takes any argument.
  abbrev pub value_text : Cell → Printed
  value_text (symbol s) = counted (c_string s)
  value_text (string_literal s) = counted (c_string s)
  value_text (integer_literal i) = counted (signed_decimal i)
  value_text (real_literal x) = real_text (env.format_real x)
  value_text (lambda l) = counted (codes "<lambda>")
  value_text (list k head) = counted (codes "<list>")
  value_text (quoted text) = counted (codes "'")
  value_text (continuation l args) = counted (codes "<continuation>")

  abbrev pub is_cell_type : CellType → Cell → Bool
  is_cell_type t c = cell_is_type (alloc_cell c) t

  -- The directives, by the byte behind the `%`.
  unfoldable pub directive : ℕ → Cell → Option Printed × Bytes
  directive p c =
      if p == b'd'
      then if_type (is_cell_type type_integer_literal c) (value_text c)
          (codes "io/putf: %d expects integer")
      else if p == b'f'
      then if_type (is_cell_type type_real_literal c) (value_text c)
          (codes "io/putf: %f expects real")
      else if p == b's'
      then if_type (is_cell_type type_string_literal c) (value_text c)
          (codes "io/putf: %s expects string")
      else if p == b'y'
      then if_type (is_cell_type type_symbol c) (value_text c) (codes "io/putf: %y expects symbol")
      else if p == b'l'
      then if_type (is_cell_type type_lambda c) (value_text c) (codes "io/putf: %l expects lambda")
      else if p == b'q'
      then if_type (is_cell_type type_quoted c) (value_text c) (codes "io/putf: %q expects quoted")
      else if p == b'L'
      then if_type (is_list_type (type_of c)) (value_text c) (codes "io/putf: %L expects list")
      else if p == b't'
      then (some (counted (type_name (type_of c))), [])
      else if p == b'v'
      then (some (value_text c), [])
      else (none, c_string (codes "io/putf: unknown format specifier '%" ++ (p ∷ b'\'' ∷ [])))

  abbrev pub print_or_fail : Option Printed × Bytes → ℕ → (ℕ → M Ctx CellPtr) → M Ctx CellPtr
  print_or_fail (none, message) char_count go_on = fail message
  print_or_fail (some (text, len), message) char_count go_on =
      print text >> go_on (char_count + len)

  abbrev pub print_value : ℕ → CellPtr → ℕ → (ℕ → M Ctx CellPtr) → M Ctx CellPtr
  print_value p null char_count go_on = return_null
  print_value p (node r c next) char_count go_on = print_or_fail (directive p c) char_count go_on

  -- `%p`; `go_on` has the arguments that are left.
  unfoldable pub put_directive :
      Evaluator Ctx → ℕ → CellPtr → ℕ → (CellPtr → ℕ → M Ctx CellPtr) → M Ctx CellPtr
  unfolding directive
  put_directive ev p args char_count go_on =
      if p == b'%' then print (b'%' ∷ []) >> go_on args (char_count + 1) else elim args [
        | null ↦ fail (codes "io/putf: not enough arguments for format string")
        | node r c next ↦
            ev plain (node r c next) >>= λ arg. print_value p arg char_count (go_on next)
      ]

  abbrev pub put_count : CellPtr → ℕ → M Ctx CellPtr
  put_count args char_count = pure (alloc_cell (integer_literal (wrap (pos char_count))))

  -- The loop over the format. Behind a backslash at its end the code goes on to read the memory
  -- behind the string, which is left out here; a `%` at its end is a directive for NUL.
  unfoldable pub put_format : Evaluator Ctx → Bytes → CellPtr → ℕ → M Ctx CellPtr
  unfolding put_directive wrap
  put_format ev [] args char_count = put_count args char_count
  put_format ev (c ∷ []) args char_count =
      if c == b'\\'
      then print (0 ∷ []) >> put_count args (char_count + 1)
      else if c == b'%'
      then put_directive ev 0 args char_count put_count
      else print (c ∷ []) >> put_count args (char_count + 1)
  put_format ev (c ∷ d ∷ format) args char_count =
      let behind_two = put_format ev format in
      let behind_one = put_format ev (d ∷ format) in
      if c == b'\\'
      then print (escaped d ∷ []) >> behind_two args (char_count + 1)
      else if c == b'%'
      then put_directive ev d args char_count behind_two
      else print (c ∷ []) >> behind_one args (char_count + 1)

  abbrev pub put_formatted : Evaluator Ctx → CellPtr → CellPtr → M Ctx CellPtr
  put_formatted ev args (node _ (string_literal s) _) =
      put_format ev (c_string s) (cell_next args) 0
  put_formatted ev args _ = fail (codes "io/putf: first argument must be a string")

  unfoldable pub putf_impl : Evaluator Ctx → CellPtr → M Ctx CellPtr
  unfolding put_format
  putf_impl ev null = fail (codes "io/putf requires at least a format string")
  putf_impl ev (node r c next) =
      handle (ev plain (node r c next)) (fail (codes "io/putf: first argument must be a string"))
        (put_formatted ev (node r c next))
