-- ===== src/Nucleus/Assert/Runs.antt =====
-- The assertions keep what each step keeps, and do not depend on the fuel.
use akx.Base.{Bool}
use akx.Base.Text.{Bytes}
use akx.Cell.{CellPtr, null, node, string_literal}
use akx.Nucleus.Assert.{
  log, log_value, assertion_failed, assert_one, assert_two, assert_true_impl, assert_false_impl,
  assert_eq_impl, assert_ne_impl,
}
use akx.Rt.{Runtime, Env, Evaluator, plain}
use akx.Rt.Within.{
  IsKept, Runs, Agrees, Runs-pure, Runs-bind, Runs-then, Runs-handle, Runs-if, Runs-fail, Runs-call,
  Runs-abort,
}

module _ {Ctx : Type 0} {env : Env Ctx} {R : Runtime Ctx → Runtime Ctx → Type 0}
    (kept : IsKept env R) (ev ev' : Evaluator Ctx) (same : Agrees R ev ev') where
  log-Runs : (message : Bytes) → Runs R (log message) (log message)
  log-Runs message = Runs-then kept (Runs-call kept _ _) (Runs-abort kept)

  log_value-Runs :
      (general : Bytes) (p : CellPtr) → Runs R (log_value general p) (log_value general p)
  log_value-Runs general (node _ (string_literal s) _) = log-Runs _
  log_value-Runs general _ = log-Runs general

  assertion_failed-Runs :
      (general : Bytes) (p : CellPtr)
      → Runs R (assertion_failed ev general p) (assertion_failed ev' general p)
  unfolding assertion_failed
  assertion_failed-Runs general null = log-Runs general
  assertion_failed-Runs general (node r c next) =
      Runs-handle kept (same.agree plain (node r c next)) (log-Runs general)
        (log_value-Runs general)

  assert_one-Runs :
      (holds : CellPtr → Bool) (missing general : Bytes) (args : CellPtr)
      → Runs R
          (assert_one env holds missing general ev args)
          (assert_one env holds missing general ev' args)
  unfolding assert_one
  assert_one-Runs holds missing general args =
      search
        (
          Runs-if kept,
          Runs-fail kept,
          Runs-bind kept,
          Runs-pure kept,
          assertion_failed-Runs,
          same.agree,
        )
        depth 14

  assert_two-Runs :
      (holds : CellPtr → CellPtr → Bool) (missing general : Bytes) (args : CellPtr)
      → Runs R
          (assert_two env holds missing general ev args)
          (assert_two env holds missing general ev' args)
  unfolding assert_two
  assert_two-Runs holds missing general args =
      search
        (
          Runs-if kept,
          Runs-fail kept,
          Runs-bind kept,
          Runs-pure kept,
          assertion_failed-Runs,
          same.agree,
        )
        depth 14

  pub assert_true_impl-Runs :
      (args : CellPtr) → Runs R (assert_true_impl env ev args) (assert_true_impl env ev' args)
  unfolding assert_true_impl
  assert_true_impl-Runs = assert_one-Runs _ _ _

  pub assert_false_impl-Runs :
      (args : CellPtr) → Runs R (assert_false_impl env ev args) (assert_false_impl env ev' args)
  unfolding assert_false_impl
  assert_false_impl-Runs = assert_one-Runs _ _ _

  pub assert_eq_impl-Runs :
      (args : CellPtr) → Runs R (assert_eq_impl env ev args) (assert_eq_impl env ev' args)
  unfolding assert_eq_impl
  assert_eq_impl-Runs = assert_two-Runs _ _ _

  pub assert_ne_impl-Runs :
      (args : CellPtr) → Runs R (assert_ne_impl env ev args) (assert_ne_impl env ev' args)
  unfolding assert_ne_impl
  assert_ne_impl-Runs = assert_two-Runs _ _ _
