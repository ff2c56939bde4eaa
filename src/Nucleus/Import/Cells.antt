-- ===== src/Nucleus/Import/Cells.antt =====
-- `import` as a run of the program in the file.
use akx.Base.{ℕ, ◌≡◌, refl, List, [], ◌∷◌, ◌++◌, Option, none, some}
use akx.Base.Text.{Bytes, codes, c_string}
use akx.Cell.{Cell, SourceRange, CellPtr, node, string_literal}
use akx.Cell.Chain.{list_nth}
use akx.Nucleus.Assert.{t_cell}
use akx.Nucleus.Files.{libc_at}
use akx.Nucleus.Import.{eval_cells, run_parsed, parse_file, run_file, import_impl}
use akx.Rt.{
  Runtime, Env, Outcome, timeout, failed, aborted, done, plain, ◌>>=◌, pure, asks, sys_call,
  with_system, bind_outcome,
}
use akx.Rt.Eval.{eval, runtime_start}
use akx.Rt.Expand.{ResultBuffer, expand_env_vars}
use akx.System.{SysCall, read_file, log_error}

module _ {Ctx : Type 0} where
  -- The outcome without the value.
  abbrev pub forget : Outcome Ctx CellPtr → Outcome Ctx (Unit {0})
  forget timeout = timeout
  forget (failed rt) = failed rt
  forget (aborted rt) = aborted rt
  forget (done p rt) = done tt rt

  -- The state after a system call.
  abbrev pub called : SysCall → Runtime Ctx → Runtime Ctx
  called c rt = record rt { system = record (rt.system) { calls = c ∷ rt.system.calls } }

  module _ (env : Env Ctx) where
    forget-bind :
        (o : Outcome Ctx CellPtr) (f : ℕ) (cells : List CellPtr)
        → ((p : CellPtr) (rt : Runtime Ctx)
            → forget (eval_cells (eval env f) cells p rt) ≡ runtime_start env f cells rt)
        → forget (bind_outcome o (eval_cells (eval env f) cells))
          ≡ bind_outcome o (λ _. runtime_start env f cells)
    forget-bind timeout f cells h = refl
    forget-bind (failed rt) f cells h = refl
    forget-bind (aborted rt) f cells h = refl
    forget-bind (done p rt) f cells h = h p rt

    eval_cells-runtime_start :
        (f : ℕ) (cells : List CellPtr) (last : CellPtr) (rt : Runtime Ctx)
        → forget (eval_cells (eval env f) cells last rt) ≡ runtime_start env f cells rt
    unfolding eval_cells runtime_start ◌>>=◌ pure
    eval_cells-runtime_start f [] last rt = refl
    eval_cells-runtime_start f (p ∷ ps) last rt =
        forget-bind (eval env f plain p rt) f ps (eval_cells-runtime_start f ps)

    module _ (f : ℕ) (args next behind : CellPtr) (r q : Option SourceRange) (c : Cell)
        (path : Bytes) (rt rt1 : Runtime Ctx) (expanded : ResultBuffer)
        (first : list_nth args 0 ≡ node r c next)
        (value : eval env f plain (node r c next) rt
          ≡ done (node q (string_literal path) behind) rt1)
        (expands : expand_env_vars (libc_at env rt1.system.calls) (c_string path)
          ≡ some expanded) where
      -- Where the path expands and the file is read and parsed without an error, `import` leaves the
      -- state that `akx_runtime_start` leaves behind the expressions of the file, fails where one of
      -- them fails, and evaluates none behind that.
      pub import-runtime_start :
          (content : Bytes) (cells : List CellPtr)
          → env.sys.contents rt1.system.calls expanded.result ≡ some content
          → env.parse content ≡ (cells, [])
          → forget (import_impl env (eval env f) args rt)
            ≡ runtime_start env f cells (called (read_file expanded.result) rt1)
      unfolding import_impl run_file parse_file run_parsed ◌>>=◌ pure asks sys_call with_system
      import-runtime_start content cells reads parses =
          rw (first, value, expands, reads, parses)
            (eval_cells-runtime_start f cells t_cell (called (read_file expanded.result) rt1))

      -- Where the path expands and the file cannot be read, `import` succeeds with the symbol `t`, and
      -- records no error.
      pub import_unreadable :
          env.sys.contents rt1.system.calls expanded.result ≡ none
          → (rt2 : Runtime Ctx) × (import_impl env (eval env f) args rt ≡ done t_cell rt2)
            × (rt2.errors ≡ rt1.errors)
      unfolding import_impl run_file parse_file run_parsed eval_cells ◌>>=◌ pure asks sys_call
          with_system
      import_unreadable missing = (
        called (log_error (codes "Failed to read file: " ++ expanded.result))
            (called (read_file expanded.result) rt1),
        rw (first, value, expands, missing) refl,
        refl,
      )
