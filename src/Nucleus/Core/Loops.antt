-- ===== src/Nucleus/Core/Loops.antt =====
-- Total correctness of `loop`.
use akx.Base.{ℕ, zero, suc, ◌<◌, ◌≡◌, refl, true, false, if◌then◌else◌, arith}
use akx.Cell.{CellPtr, is_null, nil}
use akx.Nucleus.Core.{is_one, begin_exprs, loop_rounds}
use akx.Rt.{Env, Runtime, Evaluator, plain, done, ◌>>=◌, pure, scoped}

module _ {Ctx : Type 0} (env : Env Ctx) (ev : Evaluator Ctx) where
  -- What one round does from a state in the invariant: the condition gives a value and keeps the
  -- invariant; if it is true, so does the body, and the measure gets smaller.
  pub data Round (invariant : Runtime Ctx → Type 0) (measure : Runtime Ctx → ℕ)
      (condition body last : CellPtr) (rt : Runtime Ctx) : Type 0 where
    stops :
        (v : CellPtr) (rt1 : Runtime Ctx)
        → ev plain condition rt ≡ done v rt1
        → is_one v ≡ false
        → invariant rt1
        → Round invariant measure condition body last rt
    goes_on :
        (v w : CellPtr) (rt1 rt2 : Runtime Ctx)
        → ev plain condition rt ≡ done v rt1
        → is_one v ≡ true
        → scoped env (begin_exprs ev body last) rt1 ≡ done w rt2
        → invariant rt2
        → measure rt2 < measure rt
        → Round invariant measure condition body last rt

  -- If every round keeps the invariant and makes the measure smaller, then with more fuel than the
  -- measure the loop ends, in a state where the invariant holds and that the condition left when it
  -- was evaluated to a value that is not 1.
  pub loop_rounds_total :
      (invariant : Runtime Ctx → Type 0) (measure : Runtime Ctx → ℕ) (condition body : CellPtr)
      → ((last : CellPtr) (rt : Runtime Ctx)
          → invariant rt
          → Round invariant measure condition body last rt)
      → (fuel : ℕ) (last : CellPtr) (rt : Runtime Ctx) → invariant rt
      → measure rt < fuel
      → (p v : CellPtr) × (rt0 rt' : Runtime Ctx) × (loop_rounds env fuel ev condition body last rt
          ≡ done p rt')
        × invariant rt'
        × (ev plain condition rt0 ≡ done v rt')
        × (is_one v ≡ false)
  unfolding loop_rounds ◌>>=◌ pure
  loop_rounds_total i m condition body round zero last rt h l = absurd (omega (arith, l))
  loop_rounds_total i m condition body round (suc fuel) last rt h l = elim (round last rt h) [
    | stops v rt1 e not_one h1 ↦
        (if is_null last then nil else last, v, rt, rt1, rw (e, not_one) refl, h1, e, not_one)
    | goes_on v w rt1 rt2 e one e2 h2 less ↦
        let (p, u, rt0, rt', run, at_end, last_test, not_one) =
          loop_rounds_total i m condition body round fuel w rt2 h2 (omega arith) in
        (p, u, rt0, rt', rw (e, one, e2) run, at_end, last_test, not_one)
  ]
