-- ===== src/Nucleus/Assert/Holds.antt =====
-- What the assertions let pass.
use akx.Base.{Option, ◌≡◌, refl, Bool, true, false, not, if◌then◌else◌}
use akx.Base.Text.{Bytes, codes}
use akx.Cell.{Cell, SourceRange, CellPtr, null, node, string_literal}
use akx.Cell.Chain.{list_nth}
use akx.Nucleus.Assert.{
  t_cell, log, log_value, assertion_failed, assert_two, assert_eq_impl, assert_ne_impl,
}
use akx.Nucleus.Numbers.{same_atom}
use akx.Rt.{
  Runtime, Env, Outcome, timeout, failed, aborted, done, Evaluator, plain, ◌>>=◌, ◌>>◌, handle,
  pure, sys_call, abort, handle_outcome,
}

module _ {Ctx : Type 0} where
  -- The process ends, unless the fuel runs out on the way.
  abbrev pub NeverReturns : Outcome Ctx CellPtr → Type 0
  NeverReturns timeout = Unit
  NeverReturns (failed rt) = ⊥
  NeverReturns (aborted rt) = Unit
  NeverReturns (done p rt) = ⊥

  -- What an assertion does behind its arguments, by its test.
  abbrev pub Decides : Bool → Runtime Ctx → Outcome Ctx CellPtr → Type 0
  Decides true rt o = o ≡ done t_cell rt
  Decides false rt o = NeverReturns o

  log_value-NeverReturns :
      (general : Bytes) (p : CellPtr) (rt : Runtime Ctx) → NeverReturns (log_value general p rt)
  unfolding sys_call abort ◌>>◌
  log_value-NeverReturns general (node _ (string_literal s) _) rt = tt
  log_value-NeverReturns general _ rt = tt

  message-NeverReturns :
      (general : Bytes) (o : Outcome Ctx CellPtr)
      → NeverReturns (handle_outcome o (log general) (log_value general))
  unfolding sys_call abort ◌>>◌
  message-NeverReturns general timeout = tt
  message-NeverReturns general (failed rt) = tt
  message-NeverReturns general (aborted rt) = tt
  message-NeverReturns general (done p rt) = log_value-NeverReturns general p rt

  assertion_failed-NeverReturns :
      (ev : Evaluator Ctx) (general : Bytes) (p : CellPtr) (rt : Runtime Ctx)
      → NeverReturns (assertion_failed ev general p rt)
  unfolding assertion_failed handle sys_call abort ◌>>◌
  assertion_failed-NeverReturns ev general null rt = tt
  assertion_failed-NeverReturns ev general (node r c next) rt =
      message-NeverReturns general (ev plain (node r c next) rt)

  Decides-if :
      (ev : Evaluator Ctx) (general : Bytes) (p : CellPtr) (rt : Runtime Ctx) (b : Bool)
      → Decides b rt ((if b then pure t_cell else assertion_failed ev general p) rt)
  unfolding pure
  Decides-if ev general p rt true = refl
  Decides-if ev general p rt false = assertion_failed-NeverReturns ev general p rt

  module _ (env : Env Ctx) (ev : Evaluator Ctx) (r s : Option SourceRange) (c d : Cell)
      (rest v w : CellPtr) (rt rt1 rt2 : Runtime Ctx) where
    two-Decides :
        (holds : CellPtr → CellPtr → Bool) (missing general : Bytes)
        → ev plain (node r c (node s d rest)) rt ≡ done v rt1
        → ev plain (node s d rest) rt1 ≡ done w rt2
        → Decides
            (holds v w)
            rt2
            (assert_two env holds missing general ev (node r c (node s d rest)) rt)
    unfolding assert_two list_nth ◌>>=◌
    two-Decides holds missing general e f =
        rw (e, f) (Decides-if ev general (list_nth rest 0) rt2 (holds v w))

    -- On two arguments with values, and with a message or without one, `assert/eq` returns `t` in the
    -- state that the second argument left if the values are equal numbers, strings or symbols, and
    -- else it does not return; `assert/ne` returns `t` exactly where `assert/eq` does not.
    pub assert_eq-assert_ne :
        ev plain (node r c (node s d rest)) rt ≡ done v rt1
        → ev plain (node s d rest) rt1 ≡ done w rt2
        → Decides (same_atom env v w) rt2 (assert_eq_impl env ev (node r c (node s d rest)) rt)
          × Decides
              (not (same_atom env v w))
              rt2
              (assert_ne_impl env ev (node r c (node s d rest)) rt)
    unfolding assert_eq_impl assert_ne_impl
    assert_eq-assert_ne e f = (
      two-Decides (same_atom env) (codes "assert/eq: requires two arguments")
          (codes "values not equal") e f,
      two-Decides (λ a b. not (same_atom env a b)) (codes "assert/ne: requires two arguments")
          (codes "values are equal") e f,
    )
