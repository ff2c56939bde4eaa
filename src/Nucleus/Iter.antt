-- ===== src/Nucleus/Iter.antt =====
-- nucleus/iter/iter.c: `iter` calls a lambda on the elements of a list, the characters of a string or
-- the bits of a number. `call` is `akx_rt_invoke_lambda`; it evaluates the cells that it is given.
-- The code writes the next pointer of a transformed element in place. Every value is a cell of its own
-- but a lambda, which may be the cell that a scope holds; what such a write does is not modelled, and
-- the run ends there, so that nothing is said of it.
pub mod Runs
pub mod Bits
pub mod Chars
pub mod Lists
use akx.Base.{
  ℕ, zero, suc, ◌+◌, ◌-◌, ◌*◌, ◌/◌, ◌%◌, ◌^◌, Bool, true, false, List, [], ◌∷◌, ◌++◌, Option, none,
  some, ◌==◌, if◌then◌else◌, length, take, drop, not,
}
use akx.Base.Int.{ℤ, pos, wrap, to_bits, eqb_ℤ}
use akx.Base.Text.{Bytes, codes, c_string, decimal, strcmp_eq}
use akx.Cell.{
  CellPtr, null, node, Cell, symbol, string_literal, integer_literal, real_literal, list, round,
  quoted, lambda, continuation, cell_get_type, type_of, type_eq, type_code, type_lambda, alloc_cell,
  nil, set_next, CellType,
}
use akx.Cell.Chain.{list_length, list_nth}
use akx.Cell.Clone.{clone}
use akx.Rt.{M, Evaluator, plain, ◌>>=◌, pure, fail, abort}

-- By the upper bits of the byte, which is an `unsigned char`.
abbrev pub utf8_char_length : ℕ → ℕ
utf8_char_length c =
    if c / 128 % 2 == 0
    then 1
    else if c / 32 % 8 == 6
    then 2
    else if c / 16 % 16 == 14
    then 3
    else if c / 8 % 32 == 30
    then 4
    else 1

-- The characters that the loop of `iter_string` cuts off one after the other, each of as many bytes
-- as its first one says, or of those that are left.
unfoldable pub utf8_chars : ℕ → Bytes → List Bytes
utf8_chars fuel [] = []
utf8_chars zero (c ∷ cs) = []
utf8_chars (suc fuel) (c ∷ cs) =
    take (utf8_char_length c) (c ∷ cs) ∷ utf8_chars fuel (drop (utf8_char_length c) (c ∷ cs))

abbrev pub is_lambda : CellPtr → Bool
is_lambda (node _ (lambda _) _) = true
is_lambda _ = false

-- Each transformed element, none of them a lambda but the last, is linked behind the one before it, and what stood behind that is lost.
unfoldable pub link : List CellPtr → CellPtr
link [] = null
link (p ∷ []) = p
link (p ∷ q ∷ ps) = set_next p (link (q ∷ ps))

-- What a transformed character adds to the result.
abbrev pub text_of_char : CellPtr → Bytes
text_of_char (node _ (string_literal s) _) = c_string s
text_of_char _ = []

-- `(bits >> p) & 1`
abbrev pub bit_at : ℕ → ℕ → ℕ
bit_at bits p = bits / 2 ^ p % 2

-- `(result & ~(1 << p)) | (bit << p)`
abbrev pub set_bit : ℕ → ℕ → ℕ → ℕ
set_bit result p bit = (result - bit_at result p * 2 ^ p) + bit * 2 ^ p

-- The result with the bit that the transformed cell gives.
abbrev pub put_bit : ℕ → ℕ → CellPtr → ℕ
put_bit result p (node _ (integer_literal i) _) =
    set_bit result p (if eqb_ℤ i (pos 0) then 0 else 1)
put_bit result p _ = result

abbrev pub names_nil : CellPtr → Bool
names_nil (node _ (symbol s) _) = strcmp_eq s (codes "nil")
names_nil _ = false

-- The transformed elements in a list of their own.
abbrev pub list_of : List CellPtr → CellPtr
list_of [] = nil
list_of (p ∷ ps) = alloc_cell (list round (link (p ∷ ps)))

module _ {Ctx : Type 0} (call : CellPtr → CellPtr → M Ctx CellPtr) where
  -- The loop of `iter_list`: each element is cloned without the ones behind it. `result_tail` is the
  -- transformed element before it, whose next pointer is written once the element is transformed.
  unfoldable pub transform_list : CellPtr → CellPtr → CellPtr → M Ctx (List CellPtr)
  transform_list lambda_cell result_tail null = pure []
  transform_list lambda_cell result_tail (node r c next) = do
    transformed ← call lambda_cell (set_next (clone (node r c next)) null)
    if is_lambda result_tail
        then abort
        else (do rest ← transform_list lambda_cell transformed next; pure (transformed ∷ rest))

  unfoldable pub iter_list : CellPtr → CellPtr → M Ctx CellPtr
  unfolding transform_list
  iter_list items lambda_cell = do
    transformed ← transform_list lambda_cell null items
    pure (list_of transformed)

  unfoldable pub iter_chars : CellPtr → List Bytes → Bytes → M Ctx CellPtr
  iter_chars lambda_cell [] result = pure (alloc_cell (string_literal result))
  iter_chars lambda_cell (utf8_char ∷ chars) result = do
    transformed ← call lambda_cell (alloc_cell (string_literal utf8_char))
    iter_chars lambda_cell chars (result ++ text_of_char transformed)

  unfoldable pub iter_string : Bytes → CellPtr → M Ctx CellPtr
  unfolding iter_chars utf8_chars
  iter_string str lambda_cell =
      iter_chars lambda_cell (utf8_chars (length (c_string str)) (c_string str)) []

  -- The loop over `n` bits from `bit_pos` on, which `iter_integer` and `iter_real` both have.
  unfoldable pub iter_bits : CellPtr → ℕ → ℕ → ℕ → ℕ → M Ctx ℕ
  iter_bits lambda_cell bits zero bit_pos result = pure result
  iter_bits lambda_cell bits (suc n) bit_pos result = do
    transformed ← call lambda_cell (alloc_cell (integer_literal (pos (bit_at bits bit_pos))))
    iter_bits lambda_cell bits n (suc bit_pos) (put_bit result bit_pos transformed)

  unfoldable pub iter_integer : ℤ → CellPtr → M Ctx CellPtr
  unfolding iter_bits wrap
  iter_integer value lambda_cell = do
    result ← iter_bits lambda_cell (to_bits value) 32 0 0
    pure (alloc_cell (integer_literal (wrap (pos result))))

  unfoldable pub iter_real : ℕ → CellPtr → M Ctx CellPtr
  unfolding iter_bits
  iter_real value lambda_cell = do
    result ← iter_bits lambda_cell value 64 0 0
    pure (alloc_cell (real_literal result))

  unfoldable pub iter_value : CellPtr → CellPtr → M Ctx CellPtr
  unfolding iter_list iter_string iter_integer iter_real
  iter_value (node _ (list _ head) _) lambda_cell = iter_list head lambda_cell
  iter_value (node _ (string_literal s) _) lambda_cell = iter_string s lambda_cell
  iter_value (node _ (integer_literal i) _) lambda_cell = iter_integer i lambda_cell
  iter_value (node _ (real_literal x) _) lambda_cell = iter_real x lambda_cell
  iter_value p lambda_cell = fail (
      codes "iter: cannot iterate over type "
      ++ (decimal (type_code (cell_get_type p))
          ++ codes " (lambda, symbol, quoted, or continuation)"))

  unfoldable pub iter_impl : Evaluator Ctx → CellPtr → M Ctx CellPtr
  unfolding iter_value
  iter_impl ev args =
      if list_length args == 2
      then (do
        evaled_value ← ev plain (list_nth args 0)
        lambda_cell ← ev plain (list_nth args 1)
        if not (type_eq (cell_get_type lambda_cell) type_lambda)
            then fail (codes "iter: second argument must be a lambda")
            else if names_nil evaled_value
            then pure nil
            else iter_value evaled_value lambda_cell)
      else fail (codes "iter: requires exactly 2 arguments (value lambda)")
