-- ===== src/Nucleus/Fs/Paths.antt =====
-- nucleus/fs/path_join.c, dirname.c and basename.c, and the nuclei of nucleus/os.
pub mod Runs
use akx.Base.{
  ℕ, Bool, true, false, List, [], ◌∷◌, ◌++◌, Option, none, some, leb, length, if◌then◌else◌,
}
use akx.Base.Text.{Bytes, codes, c_string, strcmp_eq}
use akx.Cell.{CellPtr, null, node, symbol, truth, nil}
use akx.Nucleus.Files.{string_cell, string_arg, string_option, unknown_keyword}
use akx.Nucleus.Fs.{with_path, answer_of, string_chain, chain_or_nil}
use akx.Rt.{Env, M, Evaluator, plain, ◌>>=◌, ◌>>◌, pure, fail, asks, sys_call}
use akx.Rt.Options.{is_keyword}
use akx.System.{chdir, setenv}

module _ {Ctx : Type 0} where
  -- The array `paths`.
  unfoldable pub path_args : Evaluator Ctx → CellPtr → M Ctx (List Bytes)
  path_args ev null = pure []
  path_args ev (node r c next) = do
    path ← string_arg ev (node r c next) (codes "fs/path-join: all arguments must be strings")
    paths ← path_args ev next
    pure (path ∷ paths)

  abbrev pub text_or_fail : Bytes → Option Bytes → M Ctx CellPtr
  text_or_fail message none = fail message
  text_or_fail message (some text) = pure (string_cell text)

  module _ (env : Env Ctx) where
    unfoldable pub path_join_impl : Evaluator Ctx → CellPtr → M Ctx CellPtr
    unfolding path_args
    path_join_impl ev null = fail (codes "fs/path-join: requires at least one path component")
    path_join_impl ev (node r c next) = do
      paths ← path_args ev (node r c next)
      if leb (length paths) 5
          then text_or_fail (codes "fs/path-join: failed to join paths") (env.sys.join paths)
          else fail (codes "fs/path-join: maximum 5 path components supported")

    -- The shape of dirname.c and basename.c.
    unfoldable pub part_of_path :
        (Bytes → Option Bytes) → Bytes → Bytes → Bytes → Evaluator Ctx → CellPtr → M Ctx CellPtr
    part_of_path part missing wrong_type failure ev null = fail missing
    part_of_path part missing wrong_type failure ev (node r c next) = do
      path ← string_arg ev (node r c next) wrong_type
      text_or_fail failure (part path)

    unfoldable pub dirname_impl : Evaluator Ctx → CellPtr → M Ctx CellPtr
    unfolding part_of_path
    dirname_impl =
        part_of_path env.sys.dirname (codes "fs/dirname: requires a path")
          (codes "fs/dirname: path must be a string")
          (codes "fs/dirname: failed to extract dirname")

    unfoldable pub basename_impl : Evaluator Ctx → CellPtr → M Ctx CellPtr
    unfolding part_of_path
    basename_impl =
        part_of_path env.sys.basename (codes "fs/basename: requires a path")
          (codes "fs/basename: path must be a string")
          (codes "fs/basename: failed to extract basename")

    unfoldable pub os_chdir_impl : Evaluator Ctx → CellPtr → M Ctx CellPtr
    unfolding with_path
    os_chdir_impl =
        with_path env (codes "os/chdir: requires a directory path")
          (codes "os/chdir: path must be a string")
          (λ path. answer_of env (chdir path) λ calls. env.sys.change_dir calls path)

    unfoldable pub os_cwd_impl : Evaluator Ctx → CellPtr → M Ctx CellPtr
    os_cwd_impl ev args =
        asks (λ rt. env.sys.getcwd rt.system.calls)
          (text_or_fail (codes "os/cwd: failed to get current working directory"))

    unfoldable pub os_args_impl : Evaluator Ctx → CellPtr → M Ctx CellPtr
    unfolding string_chain
    os_args_impl ev args =
        asks (λ rt. rt.script_args) λ argv. pure (chain_or_nil (string_chain argv))

    abbrev pub var_result : Option Bytes → M Ctx CellPtr
    var_result none = pure nil
    var_result (some value) = pure (string_cell value)

    unfoldable pub get_var : Evaluator Ctx → CellPtr → M Ctx CellPtr
    unfolding string_option
    get_var ev value = do
      name ← string_option ev value (codes "os/env: variable name must be a string")
      asks (λ rt. env.sys.getenv rt.system.calls name) var_result

    unfoldable pub set_var : Evaluator Ctx → CellPtr → CellPtr → M Ctx CellPtr
    unfolding string_option
    set_var ev value null = do
      name ← string_option ev value (codes "os/env: variable name must be a string")
      fail (codes "os/env: :set requires variable name and value")
    set_var ev value (node r c next) = do
      name ← string_option ev value (codes "os/env: variable name must be a string")
      text ← string_option ev (node r c next) (codes "os/env: variable value must be a string")
      answer_of env (setenv name text) λ calls. env.sys.set_var calls name text

    -- Every keyword returns, so that the loop over the keywords has one round.
    unfoldable pub os_env_impl : Evaluator Ctx → CellPtr → M Ctx CellPtr
    unfolding get_var set_var
    os_env_impl ev null = fail (codes "os/env: requires keyword argument")
    os_env_impl ev (node _ (symbol keyword) null) =
        if is_keyword keyword
        then fail (codes "os/env: missing value for keyword " ++ c_string keyword)
        else fail (codes "os/env: keywords must start with ':', got: " ++ c_string keyword)
    os_env_impl ev (node _ (symbol keyword) (node r c next)) =
        if is_keyword keyword
        then (if strcmp_eq keyword (codes ":get")
            then get_var ev (node r c next)
            else if strcmp_eq keyword (codes ":set")
            then set_var ev (node r c next) next
            else unknown_keyword (codes "os/env") keyword)
        else fail (codes "os/env: keywords must start with ':', got: " ++ c_string keyword)
    os_env_impl ev _ = fail (codes "os/env: expected keyword (symbol starting with ':')")
