-- ===== src/Rt/Eval/Start.antt =====
-- `akx_runtime_start` on a program in two parts.
use akx.Base.{ℕ, ◌≡◌, refl, List, [], ◌∷◌, ◌++◌}
use akx.Cell.{CellPtr}
use akx.Rt.{
  Env, Runtime, Outcome, timeout, failed, aborted, done, plain, ◌>>=◌, ◌>>◌, pure, bind_outcome,
}
use akx.Rt.Eval.{eval, runtime_start}

module _ {Ctx : Type 0} (env : Env Ctx) where
  split_after :
      (f : ℕ) (xs ys : List CellPtr) (o : Outcome Ctx CellPtr)
      → ((rt : Runtime Ctx)
          → runtime_start env f (xs ++ ys) rt
            ≡ bind_outcome (runtime_start env f xs rt) (λ _. runtime_start env f ys))
      → bind_outcome o (λ _. runtime_start env f (xs ++ ys))
        ≡ bind_outcome (bind_outcome o (λ _. runtime_start env f xs)) (λ _. runtime_start env f ys)
  split_after f xs ys timeout h = refl
  split_after f xs ys (failed rt) h = refl
  split_after f xs ys (aborted rt) h = refl
  split_after f xs ys (done p rt) h = h rt

  -- A program in two parts runs as the first part and then, if that did not fail, the second part
  -- in the state that the first one left.
  runtime_start-append :
      (f : ℕ) (xs ys : List CellPtr) (rt : Runtime Ctx)
      → runtime_start env f (xs ++ ys) rt ≡ (runtime_start env f xs >> runtime_start env f ys) rt
  unfolding runtime_start ◌>>=◌ ◌>>◌ pure
  runtime_start-append f [] ys rt = refl
  runtime_start-append f (x ∷ xs) ys rt =
      split_after f xs ys (eval env f plain x rt) (runtime_start-append f xs ys)
