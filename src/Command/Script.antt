-- ===== src/Command/Script.antt =====
-- How the run of a script ends.
use akx.Base.{none, some, ℕ, ◌≡◌, refl, List, [], ◌∷◌, Option-cases, inl, inr}
use std.Path.{subst}
use akx.Base.Text.{Bytes}
use akx.Cell.{CellPtr}
use akx.Command.{interpret_parsed, akx_interpret_file, run_file_command}
use akx.Nucleus.Import.{Parsed, parse_file}
use akx.Repl.Loop.{messages_of}
use akx.Rt.{
  Runtime, Env, Outcome, timeout, failed, aborted, done, plain, M, ◌>>=◌, ◌>>◌, pure, handle, asks,
  modify, sys_call, with_system, bind_outcome, handle_outcome,
}
use akx.Rt.Args.{eval_script_args}
use akx.Rt.Eval.{eval, runtime_start}
use akx.System.{read_file}

module _ {Ctx : Type 0} where
  -- The arguments of the script are these in the state that is left, if one is.
  abbrev pub LeavesArgs : {A : Type 0} → List Bytes → Outcome Ctx A → Type 0
  LeavesArgs args timeout = Unit
  LeavesArgs args (failed rt) = rt.script_args ≡ args
  LeavesArgs args (aborted rt) = Unit
  LeavesArgs args (done a rt) = rt.script_args ≡ args

  bind-LeavesArgs :
      {A B : Type 0} (args : List Bytes) (o : Outcome Ctx A) (f : A → M Ctx B)
      → LeavesArgs args o
      → ((a : A) (rt : Runtime Ctx) → rt.script_args ≡ args → LeavesArgs args (f a rt))
      → LeavesArgs args (bind_outcome o f)
  bind-LeavesArgs args timeout f l k = tt
  bind-LeavesArgs args (failed rt) f l k = l
  bind-LeavesArgs args (aborted rt) f l k = tt
  bind-LeavesArgs args (done a rt) f l k = k a rt l

  -- The state in which the script is read.
  abbrev pub reading : Bytes → List Bytes → Runtime Ctx → Runtime Ctx
  reading file args rt = record rt {
    script_args = args;
    system = record (rt.system) { calls = read_file file ∷ rt.system.calls };
  }

  module _ (env : Env Ctx) where
    eval-LeavesArgs :
        (f : ℕ) (p : CellPtr) (rt : Runtime Ctx) (o : Outcome Ctx CellPtr)
        → eval env f plain p rt ≡ o
        → LeavesArgs rt.script_args o
    eval-LeavesArgs f p rt timeout e = tt
    eval-LeavesArgs f p rt (failed rt1) e = eval_script_args env f plain p rt rt1 (rw e refl)
    eval-LeavesArgs f p rt (aborted rt1) e = tt
    eval-LeavesArgs f p rt (done q rt1) e = eval_script_args env f plain p rt rt1 (rw e refl)

    runtime_start-LeavesArgs :
        (f : ℕ) (args : List Bytes) (cells : List CellPtr) (rt : Runtime Ctx)
        → rt.script_args ≡ args
        → LeavesArgs args (runtime_start env f cells rt)
    unfolding runtime_start ◌>>=◌ pure
    runtime_start-LeavesArgs f args [] rt h = h
    runtime_start-LeavesArgs f args (p ∷ ps) rt h =
        bind-LeavesArgs args (eval env f plain p rt) _
          (subst (λ x. LeavesArgs x (eval env f plain p rt)) h (eval-LeavesArgs f p rt _ refl))
          (λ _ rt1 k. runtime_start-LeavesArgs f args ps rt1 k)

    -- Nothing to run: the file cannot be read.
    abbrev pub IsMissing : Bytes → Runtime Ctx → Type 0
    IsMissing file rt = env.sys.contents rt.system.calls file ≡ none

    -- The file is read, and the parser gives this.
    abbrev pub Holds : Bytes → Runtime Ctx → Parsed → Type 0
    Holds file rt found =
        (content : Bytes) × (env.sys.contents rt.system.calls file ≡ some content)
        × (env.parse content ≡ found)

    -- The file is read without an error, and its expressions end so.
    abbrev pub RunsTo : ℕ → Bytes → List Bytes → Runtime Ctx → Outcome Ctx (Unit {0}) → Type 0
    RunsTo f file args rt o =
        (cells : List CellPtr) × Holds file rt (cells, [])
        × (runtime_start env f cells (reading file args rt) ≡ o)

    -- Why the run of a script ends with this exit code, and what is shown.
    pub data Exit (f : ℕ) (file : Bytes) (args : List Bytes) (rt : Runtime Ctx)
        : ℕ → List Bytes → Runtime Ctx → Type 0 where
      missing : {rt' : Runtime Ctx} → IsMissing file rt → Exit f file args rt 0 [] rt'
      unparsed :
          (cells : List CellPtr) {message : Bytes} {messages : List Bytes} {rt' : Runtime Ctx}
          → Holds file rt (cells, message ∷ messages)
          → Exit f file args rt 1 (message ∷ messages) rt'
      failed_with :
          {rt' : Runtime Ctx}
          → RunsTo f file args rt (failed rt')
          → Exit f file args rt 1 (messages_of rt'.errors) rt'
      succeeded :
          {rt' : Runtime Ctx} → RunsTo f file args rt (done tt rt') → Exit f file args rt 0 [] rt'

    -- The arguments and the reason of an exit; the fuel may run out and the process end only where
    -- they do so in the expressions of the script.
    abbrev pub ExitsWell :
        ℕ → Bytes → List Bytes → Runtime Ctx → Outcome Ctx (ℕ × List Bytes) → Type 0
    ExitsWell f file args rt timeout = RunsTo f file args rt timeout
    ExitsWell f file args rt (failed rt') = ⊥
    ExitsWell f file args rt (aborted rt') = RunsTo f file args rt (aborted rt')
    ExitsWell f file args rt (done (code, shown) rt') =
        (rt'.script_args ≡ args) × Exit f file args rt code shown rt'

    started-ExitsWell :
        (f : ℕ) (file : Bytes) (args : List Bytes) (rt : Runtime Ctx) (o : Outcome Ctx (Unit {0}))
        → LeavesArgs args o
        → RunsTo f file args rt o
        → ExitsWell f file args rt (
            handle_outcome o
              (asks (λ rt. rt.errors) λ errors. pure (1, messages_of errors))
              (λ _. pure (0, [])))
    unfolding asks pure
    started-ExitsWell f file args rt timeout l runs = runs
    started-ExitsWell f file args rt (failed rt') l runs = (l, failed_with runs)
    started-ExitsWell f file args rt (aborted rt') l runs = runs
    started-ExitsWell f file args rt (done tt rt') l runs = (l, succeeded runs)

    parsed-ExitsWell :
        (f : ℕ) (file : Bytes) (args : List Bytes) (rt : Runtime Ctx) (found : Parsed)
        → Holds file rt found
        → ExitsWell f file args rt (interpret_parsed env f found (reading file args rt))
    unfolding handle pure
    parsed-ExitsWell f file args rt (cells, []) holds =
        started-ExitsWell f file args rt (runtime_start env f cells (reading file args rt))
          (runtime_start-LeavesArgs f args cells (reading file args rt) refl) (cells, holds, refl)
    parsed-ExitsWell f file args rt (cells, message ∷ messages) holds = (refl, unparsed cells holds)

    -- The run of a script never returns NULL and leaves the arguments of the script as they were
    -- given. Its exit code is 0, with nothing shown, only if the expressions of the file ran to their
    -- end or the file cannot be read; it is 1, with the errors of the parser shown, if the parser found
    -- some in the file, and 1, with all errors of the runtime shown, if an expression failed. The fuel
    -- runs out or the process ends only where it does in the expressions of the file.
    pub run_file_command-ExitsWell :
        (f : ℕ) (file : Bytes) (args : List Bytes) (rt : Runtime Ctx)
        → ExitsWell f file args rt (run_file_command env f file args rt)
    unfolding run_file_command akx_interpret_file parse_file runtime_start ◌>>=◌ ◌>>◌ modify
        sys_call with_system handle pure
    run_file_command-ExitsWell f file args rt =
        elim (Option-cases (env.sys.contents rt.system.calls file)) [
          | inl e ↦ rw e (refl, missing e)
          | inr (content, e) ↦
              rw e (parsed-ExitsWell f file args rt (env.parse content) (content, e, refl))
        ]
