-- ===== src/Nucleus/Strings/Split.antt =====
-- nucleus/str/split.c: `str/split` cuts a string at an index or around a substring. It returns two
-- cells that are linked, the first of them where a list of its own would be expected.
pub mod Runs
pub mod Parts
use akx.Base.{
  ℕ, zero, suc, ◌+◌, Bool, true, false, ◌||◌, not, List, [], ◌∷◌, ◌++◌, Option, none, some, ltb,
  ◌==◌, if◌then◌else◌, length, take, drop,
}
use akx.Base.Int.{ℤ, pos, negsuc, pos_part, ltb_ℤ}
use akx.Base.Text.{Bytes, codes, c_string, strcmp_eq}
use akx.Cell.{
  CellPtr, null, node, symbol, string_literal, type_string_literal, type_integer_literal,
  cell_as_string, cell_as_int, alloc_cell,
}
use akx.Cell.Chain.{list_length, list_nth}
use akx.Nucleus.Strings.{text_of}
use akx.Rt.{M, Evaluator, ◌>>=◌, pure, fail, eval_and_assert}

-- Whether the text begins with the substring.
abbrev pub begins_with : Bytes → Bytes → Bool
begins_with [] text = true
begins_with (c ∷ sub) [] = false
begins_with (c ∷ sub) (d ∷ text) = if c == d then begins_with sub text else false

-- `strstr(text, sub) - text`
unfoldable pub strstr : Bytes → Bytes → Option ℕ
strstr [] sub = if begins_with sub [] then some 0 else none
strstr (c ∷ text) sub =
    let later = strstr text sub in
    if begins_with sub (c ∷ text)
    then some 0
    else elim later [ none ↦ none | some n ↦ some (suc n) ]

-- The two parts, linked.
abbrev pub two_cells : Bytes → Bytes → CellPtr
two_cells left right = node none (string_literal left) (alloc_cell (string_literal right))

abbrev pub split_around : Bytes → Bytes → Option ℕ → CellPtr
split_around text sub none = alloc_cell (string_literal text)
split_around text sub (some left_len) =
    two_cells (take left_len text) (drop (left_len + length sub) text)

unfoldable pub split_sub : Bytes → Bytes → CellPtr
unfolding strstr
split_sub input_str substring =
    split_around (c_string input_str) (c_string substring)
      (strstr (c_string input_str) (c_string substring))

module _ {Ctx : Type 0} where
  unfoldable pub split_at : Bytes → ℤ → M Ctx CellPtr
  split_at input_str split_idx =
      if ltb_ℤ split_idx (pos 0) || ltb (length (c_string input_str)) (pos_part split_idx)
      then fail (codes "str/split: index out of bounds")
      else pure (
          two_cells (take (pos_part split_idx) (c_string input_str))
            (drop (pos_part split_idx) (c_string input_str)))

  unfoldable pub split_mode : Evaluator Ctx → CellPtr → Bytes → CellPtr → M Ctx CellPtr
  unfolding split_at split_sub
  split_mode ev args input_str (node _ (symbol (c ∷ mode)) _) =
      if not (c == b':')
      then fail (codes "str/split: keywords must start with ':'")
      else if strcmp_eq mode (codes "idx")
      then (do
        evaled_idx ←
            eval_and_assert ev (list_nth args 2) type_integer_literal
              (codes "str/split :idx requires integer index")
        split_at input_str (cell_as_int evaled_idx))
      else if strcmp_eq mode (codes "sub")
      then (do
        evaled_sub ←
            eval_and_assert ev (list_nth args 2) type_string_literal
              (codes "str/split :sub requires string substring")
        pure (split_sub input_str (text_of (cell_as_string evaled_sub))))
      else fail (codes "str/split: unknown keyword: " ++ c_string (c ∷ mode))
  split_mode ev args input_str (node _ (symbol []) _) =
      fail (codes "str/split: keywords must start with ':'")
  split_mode ev args input_str _ = fail (codes "str/split: second argument must be :idx or :sub")

  unfoldable pub str_split_impl : Evaluator Ctx → CellPtr → M Ctx CellPtr
  unfolding split_mode
  str_split_impl ev args =
      if ltb (list_length args) 3
      then fail (
          codes "str/split requires at least 3 arguments (string :idx N or string :sub \"substr\")")
      else (do
        evaled_str ←
            eval_and_assert ev (list_nth args 0) type_string_literal
              (codes "str/split: first argument must be a string")
        split_mode ev args (text_of (cell_as_string evaled_str)) (list_nth args 1))
