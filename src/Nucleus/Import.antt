-- ===== src/Nucleus/Import.antt =====
-- nucleus/core/import.c and nucleus/akx/exec.c: a file is parsed and evaluated; `akx/exec` gives it
-- arguments of its own, and puts the old ones back.
pub mod Runs
pub mod Cells
use akx.Base.{
  ℕ, Bool, true, false, List, [], ◌∷◌, ◌++◌, Option, none, some, take, length, if◌then◌else◌,
}
use akx.Base.Text.{Bytes, codes, c_string}
use akx.Cell.{
  Cell, CellPtr, null, node, symbol, string_literal, integer_literal, real_literal, is_null,
}
use akx.Cell.Chain.{list_nth}
use akx.Nucleus.Assert.{t_cell}
use akx.Nucleus.Files.{libc_at}
use akx.Nucleus.Putf.{signed_decimal}
use akx.Rt.{
  Env, M, Evaluator, Outcome, timeout, failed, aborted, done, plain, ◌>>=◌, ◌>>◌, pure, return_null,
  fail, rt_error, asks, sys_call, set_script_args,
}
use akx.Rt.Expand.{ResultBuffer, expand_env_vars}
use akx.System.{SysCall, read_file, log_error}

-- `akx_parse_result_t`: the cells, and the messages of the errors.
abbrev pub Parsed : Type 0
Parsed = List CellPtr × List Bytes

module _ {Ctx : Type 0} where
  -- The last value of the cells, one behind the other; the first that fails ends it.
  unfoldable pub eval_cells : Evaluator Ctx → List CellPtr → CellPtr → M Ctx CellPtr
  eval_cells ev [] last_result = pure last_result
  eval_cells ev (p ∷ ps) last_result = do result ← ev plain p; eval_cells ev ps result

  -- One error for each message, cut to the 512 bytes of `error_msg`.
  unfoldable pub report_errors : Bytes → Bytes → List Bytes → M Ctx CellPtr
  report_errors name path [] = return_null
  report_errors name path (message ∷ messages) = do
    rt_error (take 511 (name ++ (codes ": parse error in '" ++ (path ++ (codes "': " ++ message)))))
    report_errors name path messages

  -- What is done with the parsed file; a file without cells gives `t`.
  unfoldable pub run_parsed : Bytes → Bytes → Evaluator Ctx → Parsed → M Ctx CellPtr
  unfolding eval_cells report_errors
  run_parsed name path ev (cells, message ∷ messages) = report_errors name path (message ∷ messages)
  run_parsed name path ev (cells, []) = eval_cells ev cells t_cell

  abbrev pub restore_args : List Bytes → Outcome Ctx CellPtr → Outcome Ctx CellPtr
  restore_args saved timeout = timeout
  restore_args saved (failed rt) = failed (set_script_args saved rt)
  restore_args saved (aborted rt) = aborted rt
  restore_args saved (done p rt) = done p (set_script_args saved rt)

  -- What runs between the two calls of `akx_runtime_set_script_args`.
  unfoldable pub with_args : List Bytes → M Ctx CellPtr → M Ctx CellPtr
  with_args argv m rt = restore_args rt.script_args (m (set_script_args argv rt))

  module _ (env : Env Ctx) where
    -- A file that cannot be read is logged, and gives no cells and no errors.
    abbrev pub parsed : Bytes → Option Bytes → M Ctx Parsed
    parsed path none =
        sys_call (log_error (codes "Failed to read file: " ++ path)) λ calls. ([], [])
    parsed path (some content) = pure (env.parse content)

    -- `akx_cell_parse_file`
    unfoldable pub parse_file : Bytes → M Ctx Parsed
    parse_file path =
        sys_call (read_file path) (λ calls. env.sys.contents calls path) >>= parsed path

    abbrev pub run_expanded : Bytes → Bytes → Evaluator Ctx → Option ResultBuffer → M Ctx CellPtr
    run_expanded name path ev none = fail (name ++ codes ": failed to expand path")
    run_expanded name path ev (some expanded) =
        parse_file expanded.result >>= run_parsed name path ev

    -- The expansion, the parser and the evaluation of the cells.
    unfoldable pub run_file : Bytes → Bytes → Evaluator Ctx → M Ctx CellPtr
    unfolding parse_file run_parsed
    run_file name path ev =
        asks (λ rt. expand_env_vars (libc_at env rt.system.calls) path) (run_expanded name path ev)

    abbrev pub import_value : Evaluator Ctx → CellPtr → M Ctx CellPtr
    import_value ev (node _ (string_literal s) _) = run_file (codes "import") (c_string s) ev
    import_value ev _ = fail (codes "import: file path must be a string")

    unfoldable pub import_impl : Evaluator Ctx → CellPtr → M Ctx CellPtr
    unfolding run_file
    import_impl ev args =
        if is_null (list_nth args 0)
        then fail (codes "import: missing file path argument")
        else ev plain (list_nth args 0) >>= import_value ev

    -- The text of an argument, in the buffers of 32 and 64 bytes for numbers.
    abbrev pub arg_text : CellPtr → Bytes
    arg_text (node _ (string_literal s) _) = c_string s
    arg_text (node _ (integer_literal i) _) = signed_decimal i
    arg_text (node _ (real_literal x) _) = take 63 (env.format_real x)
    arg_text (node _ (symbol s) _) = c_string s
    arg_text _ = codes "<value>"

    unfoldable pub exec_args : Evaluator Ctx → CellPtr → M Ctx (List Bytes)
    exec_args ev null = pure []
    exec_args ev (node r c next) = do
      evaled ← ev plain (node r c next)
      texts ← exec_args ev next
      pure (arg_text evaled ∷ texts)

    -- The arguments behind the path are those of the script, whose first is the path.
    abbrev pub exec_value : Evaluator Ctx → CellPtr → CellPtr → M Ctx CellPtr
    exec_value ev next (node _ (string_literal s) _) = do
      texts ← exec_args ev next
      with_args (c_string s ∷ texts) (run_file (codes "akx/exec") (c_string s) ev)
    exec_value ev next _ = fail (codes "akx/exec: file path must be a string")

    unfoldable pub exec_impl : Evaluator Ctx → CellPtr → M Ctx CellPtr
    unfolding exec_args with_args run_file
    exec_impl ev null = fail (codes "akx/exec: missing file path argument")
    exec_impl ev (node r c next) = ev plain (node r c next) >>= exec_value ev next
