-- ===== src/Nucleus/Files.antt =====
-- What the nuclei on files share: an argument that is a path, and keyword arguments.
pub mod Runs
use akx.Base.{Bool, true, false, List, [], ◌∷◌, ◌++◌, Option, none, some, ◌==◌, if◌then◌else◌}
use akx.Base.Int.{ℤ, pos, wrap}
use akx.Base.Text.{Bytes, codes, c_string}
use akx.Cell.{
  CellPtr, null, node, symbol, string_literal, integer_literal, type_integer_literal,
  type_string_literal, cell_as_int, cell_as_string, alloc_cell,
}
use akx.Nucleus.Strings.{text_of}
use akx.Rt.{
  Env, M, Evaluator, plain, ◌>>=◌, ◌>>◌, handle, pure, fail, asks, eval_and_assert, Runtime,
}
use akx.Rt.Expand.{Libc, ResultBuffer, expand_env_vars}
use akx.Rt.Options.{is_keyword}
use akx.System.{SysCall}

-- `akx_rt_set_string` on a new cell: the text ends at its first NUL.
abbrev pub string_cell : Bytes → CellPtr
string_cell text = alloc_cell (string_literal (c_string text))

-- `akx_rt_set_int` of a value that is cast to `int`.
abbrev pub int_of : ℤ → CellPtr
int_of i = alloc_cell (integer_literal (wrap i))

abbrev pub text_or : Bytes → Option ResultBuffer → Bytes
text_or path none = path
text_or path (some expanded) = expanded.result

module _ {Ctx : Type 0} where
  abbrev pub text_of_string : Bytes → CellPtr → M Ctx Bytes
  text_of_string message (node _ (string_literal s) _) = pure (c_string s)
  text_of_string message _ = fail message

  -- The text of an argument; the same error stands behind NULL and behind another type.
  unfoldable pub string_arg : Evaluator Ctx → CellPtr → Bytes → M Ctx Bytes
  string_arg ev expr message = handle (ev plain expr) (fail message) (text_of_string message)

  -- `akx_rt_eval_and_assert` for an integer and for a string.
  unfoldable pub int_option : Evaluator Ctx → CellPtr → Bytes → M Ctx ℤ
  int_option ev expr message = do
    value ← eval_and_assert ev expr type_integer_literal message
    pure (cell_as_int value)

  unfoldable pub string_option : Evaluator Ctx → CellPtr → Bytes → M Ctx Bytes
  string_option ev expr message = do
    value ← eval_and_assert ev expr type_string_literal message
    pure (text_of (cell_as_string value))

  -- The loop over the keywords of a nucleus `name`, each with the cell behind it.
  unfoldable pub keyword_loop :
      {A : Type 0} → Bytes → Bytes → (Bytes → CellPtr → A → M Ctx A) → CellPtr → A → M Ctx A
  keyword_loop name expected option null a = pure a
  keyword_loop name expected option (node _ (symbol keyword) null) a =
      if is_keyword keyword
      then fail (name ++ (codes ": missing value for keyword " ++ c_string keyword))
      else fail (name ++ (codes ": keywords must start with ':', got: " ++ c_string keyword))
  keyword_loop name expected option (node _ (symbol keyword) (node r c next)) a =
      if is_keyword keyword
      then (do more ← option keyword (node r c next) a; keyword_loop name expected option next more)
      else fail (name ++ (codes ": keywords must start with ':', got: " ++ c_string keyword))
  keyword_loop name expected option _ a = fail (name ++ expected)

  abbrev pub unknown_keyword : {A : Type 0} → Bytes → Bytes → M Ctx A
  unknown_keyword name keyword = fail (name ++ (codes ": unknown keyword: " ++ c_string keyword))

  module _ (env : Env Ctx) where
    abbrev pub libc_at : List SysCall → Libc
    libc_at calls = record {
      isalnum = env.sys.isalnum;
      getenv = env.sys.getenv calls;
      join_akx = env.sys.join_akx;
    }

    -- `actual_path`: the expanded path, or the path itself where the expansion gives NULL.
    unfoldable pub actual_path : Bytes → M Ctx Bytes
    actual_path path =
        asks (λ rt. text_or path (expand_env_vars (libc_at rt.system.calls) path)) pure
