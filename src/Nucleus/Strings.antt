-- ===== src/Nucleus/Strings.antt =====
-- nucleus/str/concat.c: `str/+`. A string ends at its first NUL.
pub mod Runs
pub mod Joined
pub mod Split
use akx.Base.{Bool, true, false, [], ◌++◌, Option, none, some, ltb, if◌then◌else◌}
use akx.Base.Text.{Bytes, codes, c_string}
use akx.Cell.{CellPtr, null, node, string_literal, type_string_literal, cell_as_string, alloc_cell}
use akx.Cell.Chain.{list_length}
use akx.Rt.{M, Evaluator, ◌>>=◌, pure, fail, eval_and_assert}

abbrev pub text_of : Option Bytes → Bytes
text_of none = []
text_of (some s) = c_string s

module _ {Ctx : Type 0} where
  -- `strcat` of the values, from left to right.
  unfoldable pub concat_args : Evaluator Ctx → CellPtr → Bytes → M Ctx CellPtr
  unfolding c_string
  concat_args ev null result_str = pure (alloc_cell (string_literal result_str))
  concat_args ev (node r c next) result_str = do
    evaled ←
        eval_and_assert ev (node r c next) type_string_literal
          (codes "str/+ requires string arguments")
    concat_args ev next (result_str ++ text_of (cell_as_string evaled))

  unfoldable pub str_concat_impl : Evaluator Ctx → CellPtr → M Ctx CellPtr
  unfolding concat_args
  str_concat_impl ev args =
      if ltb (list_length args) 1
      then fail (codes "str/+ requires at least 1 argument")
      else concat_args ev args []
