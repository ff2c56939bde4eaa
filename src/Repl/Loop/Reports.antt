-- ===== src/Repl/Loop/Reports.antt =====
-- The errors that the REPL shows.
use akx.Base.{ℕ, ◌≡◌, refl, ap, List, [], ◌∷◌, ◌++◌}
use akx.Cell.{CellPtr}
use akx.Repl.Loop.{Terminal, messages_of, eval_shown}
use akx.Rt.{RtError, Runtime, Env, failed, plain, ◌>>=◌, handle, pure, asks}
use akx.Rt.Errors.{eval-Logged}
use akx.Rt.Eval.{eval}

messages_of-append :
    (es fs : List RtError) → messages_of (es ++ fs) ≡ messages_of es ++ messages_of fs
unfolding messages_of
messages_of-append [] fs = refl
messages_of-append (e ∷ es) fs = ap (◌∷◌ e.message) (messages_of-append es fs)

module _ {Ctx : Type 0} (env : Env Ctx) where
  -- Behind an expression that fails the REPL goes on with the next one; it shows the errors of this
  -- expression, and before them again all errors that were recorded since the start.
  pub failure-reports :
      (f : ℕ) (p : CellPtr) (ps : List CellPtr) (t : Terminal) (rt rt1 : Runtime Ctx)
      → eval env f plain p rt ≡ failed rt1
      → (new : List RtError) × (rt1.errors ≡ rt.errors ++ new)
        × (eval_shown env (eval env f) (p ∷ ps) t rt
            ≡ eval_shown env
                (eval env f)
                ps
                (record t { reports = t.reports ++ (messages_of rt.errors ++ messages_of new) })
                rt1)
  unfolding eval_shown ◌>>=◌ handle asks pure
  failure-reports f p ps t rt rt1 e =
      let (new, more, _) = eval-Logged env f plain p rt rt1 (rw e refl) in
      (new, more, rw (e, more, messages_of-append) refl)
