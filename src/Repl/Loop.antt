-- ===== src/Repl/Loop.antt =====
-- pkg/repl/repl.c. The lines are those that `linenoise` gives before it returns NULL or
-- `keep_running` is cleared; a line that comes with the cleared flag is dropped. The two ways to end
-- do the same.
pub mod Entry
pub mod Reports
use akx.Base.{
  ℕ, ◌+◌, Bool, true, false, ◌&&◌, List, [], ◌∷◌, ◌++◌, Option, none, some, ◌==◌, if◌then◌else◌,
}
use akx.Base.Text.{Bytes, codes, c_string, decimal}
use akx.Cell.{CellPtr}
use akx.Nucleus.Fs.{is_regular}
use akx.Nucleus.Import.{Parsed, parse_file}
use akx.Repl.Buffer.{
  ReplBuffer, repl_buffer_new, repl_buffer_append_line, repl_buffer_clear, repl_buffer_is_empty,
  repl_buffer_is_balanced,
}
use akx.Repl.Display.{display_cell}
use akx.Rt.{RtError, Env, M, Evaluator, plain, ◌>>=◌, ◌>>◌, handle, pure, asks, print, sys_call}
use akx.System.{SysCall, stat}

-- What the terminal keeps: the entries of its history, and the messages of the errors that
-- `akx_sv_show_location` was called with.
pub record Terminal : Type 0 where
  pub history : List Bytes
  pub reports : List Bytes

abbrev pub show_errors : List Bytes → Terminal → Terminal
show_errors messages t = record t { reports = t.reports ++ messages }

unfoldable pub messages_of : List RtError → List Bytes
messages_of [] = []
messages_of (e ∷ es) = e.message ∷ messages_of es

-- A newline in the history is a space.
unfoldable pub history_entry : Bytes → Bytes
history_entry [] = []
history_entry (c ∷ cs) = (if c == b'\n' then b' ' else c) ∷ history_entry cs

abbrev pub is_blank : Bytes → Bool
is_blank [] = true
is_blank (_ ∷ _) = false

abbrev pub or_home : Option Bytes → Option Bytes → (Bytes → Option Bytes) → Option Bytes
or_home (some akx_home) home join = some akx_home
or_home none none join = none
or_home none (some home) join = join home

module _ {Ctx : Type 0} where
  -- All errors of the runtime are shown, and the loop goes on.
  abbrev pub show_failure : Terminal → M Ctx Terminal
  show_failure t = asks (λ rt. rt.errors) λ errors. pure (show_errors (messages_of errors) t)

  module _ (env : Env Ctx) where
    abbrev pub show_value : Terminal → CellPtr → M Ctx Terminal
    show_value t p = print (display_cell env.format_real p ++ b'\n' ∷ []) >> pure t

    -- Each expression is evaluated, also behind one that failed.
    unfoldable pub eval_shown : Evaluator Ctx → List CellPtr → Terminal → M Ctx Terminal
    unfolding messages_of
    eval_shown ev [] t = pure t
    eval_shown ev (p ∷ ps) t =
        handle (ev plain p) (show_failure t) (show_value t) >>= eval_shown ev ps

    abbrev pub run_entry : Evaluator Ctx → Parsed → Terminal → M Ctx Terminal
    run_entry ev (cells, message ∷ messages) t = pure (show_errors (message ∷ messages) t)
    run_entry ev (cells, []) t = eval_shown ev cells t

    -- The text goes into the history, to the parser and to the evaluator.
    unfoldable pub submit : Evaluator Ctx → Bytes → Terminal → M Ctx Terminal
    unfolding eval_shown history_entry
    submit ev text t =
        run_entry ev (env.parse text)
          (record t { history = t.history ++ history_entry (c_string text) ∷ [] })

    -- What is done behind the balance test.
    abbrev pub if_balanced :
        Evaluator Ctx → ReplBuffer × Bool → Terminal → M Ctx (ReplBuffer × Terminal)
    if_balanced ev (buffer, false) t = pure (buffer, t)
    if_balanced ev (buffer, true) t =
        if repl_buffer_is_empty buffer
        then pure (repl_buffer_clear buffer, t)
        else submit ev buffer.content t >>= λ t'. pure (repl_buffer_clear buffer, t')

    -- One round of the loop. An empty line is not added to the buffer.
    unfoldable pub read_line :
        Evaluator Ctx → Bytes → ReplBuffer × Terminal → M Ctx (ReplBuffer × Terminal)
    unfolding submit repl_buffer_is_empty repl_buffer_is_balanced repl_buffer_append_line
        repl_buffer_clear
    read_line ev line (buffer, t) =
        if is_blank line
        then (if repl_buffer_is_empty buffer
            then pure (buffer, t)
            else if_balanced ev (repl_buffer_is_balanced buffer) t)
        else if_balanced ev (repl_buffer_is_balanced (repl_buffer_append_line buffer line)) t

    unfoldable pub read_lines :
        Evaluator Ctx → List Bytes → ReplBuffer × Terminal → M Ctx (ReplBuffer × Terminal)
    unfolding read_line
    read_lines ev [] s = pure s
    read_lines ev (line ∷ lines) s = read_line ev line s >>= read_lines ev lines

    abbrev pub prelude_failed : ℕ → Terminal → M Ctx (ℕ × Terminal)
    prelude_failed count t =
        print (codes "Error executing repl.akx (expression " ++ (decimal count ++ codes "):\n"))
        >> (show_failure t >>= λ t'. pure (count, t'))

    -- The expressions of repl.akx up to the first that fails, with their number.
    unfoldable pub eval_prelude : Evaluator Ctx → List CellPtr → ℕ → Terminal → M Ctx (ℕ × Terminal)
    unfolding messages_of
    eval_prelude ev [] count t = pure (count, t)
    eval_prelude ev (p ∷ ps) count t =
        handle (ev plain p) (prelude_failed (count + 1) t) (λ _. eval_prelude ev ps (count + 1) t)

    abbrev pub prelude_loaded : ℕ × Terminal → M Ctx Terminal
    prelude_loaded (count, t) =
        if count == 0
        then pure t
        else print (codes "Loaded " ++ (decimal count ++ codes " expressions from repl.akx\n"))
          >> pure t

    abbrev pub run_prelude : Evaluator Ctx → Terminal → Parsed → M Ctx Terminal
    run_prelude ev t (cells, message ∷ messages) =
        print (codes "Error loading repl.akx:\n") >> pure (show_errors (message ∷ messages) t)
    run_prelude ev t (cells, []) = eval_prelude ev cells 0 t >>= prelude_loaded

    abbrev pub load_if_file : Evaluator Ctx → Bytes → Terminal → Bool → M Ctx Terminal
    load_if_file ev path t false = pure t
    load_if_file ev path t true = parse_file env path >>= run_prelude ev t

    abbrev pub load_from : Evaluator Ctx → Terminal → Option Bytes → M Ctx Terminal
    load_from ev t none = pure t
    load_from ev t (some path) =
        sys_call (stat path) (λ calls. is_regular (env.sys.file_stat calls path))
        >>= load_if_file ev path t

    abbrev pub load_home : Evaluator Ctx → Terminal → Option Bytes → M Ctx Terminal
    load_home ev t none = pure t
    load_home ev t (some akx_home) =
        load_from ev t (env.sys.join (akx_home ∷ codes "repl.akx" ∷ []))

    -- The file repl.akx in the home directory of AKX, if there is one.
    unfoldable pub load_prelude : Evaluator Ctx → Terminal → M Ctx Terminal
    unfolding eval_prelude
    load_prelude ev t =
        asks
          (λ rt.
            or_home (env.sys.getenv rt.system.calls (codes "AKX_HOME"))
              (env.sys.getenv rt.system.calls (codes "HOME")) env.sys.join_akx)
          (load_home ev t)

    -- `akx_repl_start`, without the files that the history is kept in.
    unfoldable pub repl_start : Evaluator Ctx → List Bytes → Terminal → M Ctx Terminal
    unfolding load_prelude read_lines
    repl_start ev lines t = do
      loaded ← load_prelude ev t
      print (codes "\nAKX REPL v0.1.0\n")
      print (codes "Type expressions or press Ctrl+D to exit\n\n")
      last ← read_lines ev lines (repl_buffer_new, loaded)
      print (codes "\nGoodbye!\n")
      pure last.1
