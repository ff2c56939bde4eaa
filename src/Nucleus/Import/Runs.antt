-- ===== src/Nucleus/Import/Runs.antt =====
-- `import` and `akx/exec` keep what each step keeps, and do not depend on the fuel.
use akx.Base.{List, [], ◌∷◌, Option, none, some}
use akx.Base.Text.{Bytes}
use akx.Cell.{CellPtr, null, node, string_literal, is_null}
use akx.Cell.Chain.{list_nth}
use akx.Nucleus.Import.{
  Parsed, eval_cells, report_errors, run_parsed, restore_args, with_args, parsed, parse_file,
  run_expanded, run_file, import_value, import_impl, exec_args, exec_value, exec_impl,
}
use akx.Rt.Expand.{ResultBuffer}
use akx.Rt.{set_script_args, Outcome}
use akx.Rt.{Runtime, Env, M, Evaluator, plain}
use akx.Rt.Within.{
  IsKept, Runs, Agrees, Runs-pure, Runs-null, Runs-bind, Runs-then, Runs-if, Runs-fail, Runs-asks,
  Runs-call, Runs-error, Within, ran_out, fails, aborts, ends,
}

module _ {Ctx : Type 0} {env : Env Ctx} {R : Runtime Ctx → Runtime Ctx → Type 0}
    (kept : IsKept env R) where
  parsed-Runs : (path : Bytes) (o : Option Bytes) → Runs R (parsed env path o) (parsed env path o)
  parsed-Runs path none = Runs-call kept _ _
  parsed-Runs path (some content) = Runs-pure kept _

  parse_file-Runs : (path : Bytes) → Runs R (parse_file env path) (parse_file env path)
  unfolding parse_file
  parse_file-Runs path = Runs-bind kept (Runs-call kept _ _) (parsed-Runs path)

  report_errors-Runs :
      (name path : Bytes) (messages : List Bytes)
      → Runs R (report_errors name path messages) (report_errors name path messages)
  unfolding report_errors
  report_errors-Runs name path [] = Runs-null kept
  report_errors-Runs name path (message ∷ messages) =
      Runs-then kept (Runs-error kept _) (report_errors-Runs name path messages)

  restore-Within :
      (argv : List Bytes) (rt : Runtime Ctx) {o o' : Outcome Ctx CellPtr}
      → Within R (set_script_args argv rt) o o'
      → Within R rt (restore_args rt.script_args o) (restore_args rt.script_args o')
  restore-Within argv rt ran_out = ran_out
  restore-Within argv rt (fails {rt'} h) = fails (kept.on_args argv rt rt' h)
  restore-Within argv rt aborts = aborts
  restore-Within argv rt (ends {rt'} h) = ends (kept.on_args argv rt rt' h)

  with_args-Runs :
      (argv : List Bytes) {m m' : M Ctx CellPtr}
      → Runs R m m'
      → Runs R (with_args argv m) (with_args argv m')
  unfolding with_args
  with_args-Runs argv h = record {
    run = λ rt. restore-Within argv rt (h.run (set_script_args argv rt));
  }

  module _ (ev ev' : Evaluator Ctx) (same : Agrees R ev ev') where
    eval_cells-Runs :
        (cells : List CellPtr) (last : CellPtr)
        → Runs R (eval_cells ev cells last) (eval_cells ev' cells last)
    unfolding eval_cells
    eval_cells-Runs [] last = Runs-pure kept last
    eval_cells-Runs (p ∷ ps) last = Runs-bind kept (same.agree plain p) (eval_cells-Runs ps)

    run_parsed-Runs :
        (name path : Bytes) (p : Parsed)
        → Runs R (run_parsed name path ev p) (run_parsed name path ev' p)
    unfolding run_parsed
    run_parsed-Runs name path (cells, []) = eval_cells-Runs cells _
    run_parsed-Runs name path (cells, message ∷ messages) =
        report_errors-Runs name path (message ∷ messages)

    run_expanded-Runs :
        (name path : Bytes) (o : Option ResultBuffer)
        → Runs R (run_expanded env name path ev o) (run_expanded env name path ev' o)
    run_expanded-Runs name path none = Runs-fail kept _
    run_expanded-Runs name path (some expanded) =
        Runs-bind kept (parse_file-Runs _) (run_parsed-Runs name path)

    run_file-Runs :
        (name path : Bytes) → Runs R (run_file env name path ev) (run_file env name path ev')
    unfolding run_file
    run_file-Runs name path = Runs-asks kept _ (run_expanded-Runs name path)

    import_value-Runs :
        (value : CellPtr) → Runs R (import_value env ev value) (import_value env ev' value)
    import_value-Runs (node _ (string_literal s) _) = run_file-Runs _ _
    import_value-Runs _ = Runs-fail kept _

    pub import_impl-Runs :
        (args : CellPtr) → Runs R (import_impl env ev args) (import_impl env ev' args)
    unfolding import_impl
    import_impl-Runs args =
        Runs-if kept (is_null (list_nth args 0)) (Runs-fail kept _)
          (Runs-bind kept (same.agree plain _) import_value-Runs)

    exec_args-Runs : (args : CellPtr) → Runs R (exec_args env ev args) (exec_args env ev' args)
    unfolding exec_args
    exec_args-Runs null = Runs-pure kept _
    exec_args-Runs (node r c next) =
        Runs-bind kept (same.agree plain _)
          λ evaled. Runs-bind kept (exec_args-Runs next) λ texts. Runs-pure kept _

    exec_value-Runs :
        (next value : CellPtr)
        → Runs R (exec_value env ev next value) (exec_value env ev' next value)
    exec_value-Runs next (node _ (string_literal s) _) =
        Runs-bind kept (exec_args-Runs next) λ texts. with_args-Runs _ (run_file-Runs _ _)
    exec_value-Runs next _ = Runs-fail kept _

    pub exec_impl-Runs : (args : CellPtr) → Runs R (exec_impl env ev args) (exec_impl env ev' args)
    unfolding exec_impl
    exec_impl-Runs null = Runs-fail kept _
    exec_impl-Runs (node r c next) = Runs-bind kept (same.agree plain _) (exec_value-Runs next)
