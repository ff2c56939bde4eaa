-- ===== src/Tests/Terminal.antt =====
-- The theorems on the REPL, at concrete entries.
use akx.Base.{◌≡◌, refl, List, [], ◌∷◌, ◌++◌, none}
use akx.Base.Int.{◌+ℤ◌, ◌-ℤ◌}
use akx.Base.Text.{codes, c_string, decimal, bytes_eq}
use akx.Cell.{CellPtr, symbol, alloc_cell}
use akx.Cell.Clone.{clone}
use akx.Repl.Buffer.{repl_buffer_new}
use akx.Repl.Display.{display_value}
use akx.Repl.Loop.{Terminal, messages_of, history_entry, eval_shown, submit, read_lines}
use akx.Repl.Loop.Entry.{Completes, entered, text_is_balanced, lines-submitted}
use akx.Repl.Loop.Reports.{failure-reports}
use akx.Rt.{
  RtError, Runtime, Env, Outcome, timeout, failed, aborted, done, plain, ◌>>=◌, ◌>>◌, handle, pure,
  print, asks, modify, rt_error_at, return_null, add_error,
}
use akx.Rt.Eval.{eval}
use akx.Tests.{Frames, frames_env, start_runtime, int}

abbrev silent : Terminal
silent = record { history = []; reports = [] }

-- The parser finds two numbers.
abbrev two_env : Env Frames
two_env = record frames_env { parse = λ text. (alloc_cell (int 1) ∷ alloc_cell (int 2) ∷ [], []) }

three_complete : Completes [] (codes "(+ 1" ∷ [] ∷ codes "2)" ∷ [])
unfolding text_is_balanced ◌+ℤ◌ ◌-ℤ◌
three_complete = (refl, (refl, refl))

-- An entry of three lines, of which one is blank.
lines-submitted_example :
    read_lines two_env
      (eval two_env 2)
      (codes "(+ 1" ∷ [] ∷ codes "2)" ∷ [])
      (repl_buffer_new, silent)
      start_runtime
    ≡ done
        (repl_buffer_new, record { history = codes "(+ 1 2) " ∷ []; reports = [] })
        (record start_runtime { output = codes "1\n2\n" })
unfolding submit eval_shown history_entry entered eval clone display_value decimal handle pure print
    modify c_string ◌>>=◌ ◌>>◌
lines-submitted_example =
    lines-submitted two_env (eval two_env 2) silent start_runtime (codes "(+ 1")
      ([] ∷ codes "2)" ∷ []) refl three_complete

-- A name that is not bound.
abbrev unbound : CellPtr
unbound = alloc_cell (symbol (codes "x"))

abbrev after_failure : Outcome Frames CellPtr → Runtime Frames
after_failure timeout = start_runtime
after_failure (failed rt) = rt
after_failure (aborted rt) = rt
after_failure (done p rt) = rt

-- A state that recorded an error before.
abbrev spoiled : Runtime Frames
unfolding add_error
spoiled = add_error none (codes "old") start_runtime

abbrev spoiled_twice : Runtime Frames
unfolding eval
spoiled_twice = after_failure (eval frames_env 1 plain unbound spoiled)

fails_again : eval frames_env 1 plain unbound spoiled ≡ failed spoiled_twice
unfolding eval bytes_eq asks spoiled ◌>>◌ rt_error_at return_null
fails_again = refl

failure-reports_example :
    (new : List RtError) × (spoiled_twice.errors ≡ spoiled.errors ++ new)
    × (eval_shown frames_env (eval frames_env 1) (unbound ∷ alloc_cell (int 7) ∷ []) silent spoiled
        ≡ eval_shown frames_env
            (eval frames_env 1)
            (alloc_cell (int 7) ∷ [])
            (record { history = []; reports = codes "old" ∷ messages_of new })
            spoiled_twice)
unfolding messages_of spoiled
failure-reports_example =
    failure-reports frames_env 1 unbound (alloc_cell (int 7) ∷ []) silent spoiled spoiled_twice
      fails_again
