-- ===== src/Nucleus/Assert.antt =====
-- nucleus/assert: an assertion that fails logs a message and ends the process.
pub mod Runs
pub mod Holds
use akx.Base.{Bool, true, false, not, ◌&&◌, ◌||◌, ◌++◌, if◌then◌else◌}
use akx.Base.Int.{pos, eqb_ℤ}
use akx.Base.Text.{Bytes, codes, c_string, strcmp_eq}
use akx.Cell.{
  CellPtr, null, node, symbol, string_literal, integer_literal, real_literal, alloc_cell, is_null,
}
use akx.Cell.Chain.{list_nth}
use akx.Nucleus.Numbers.{same_atom}
use akx.Nucleus.Reals.{real_zero}
use akx.Rt.{Env, M, Evaluator, plain, ◌>>=◌, ◌>>◌, handle, pure, fail, sys_call, abort}
use akx.System.{log_error}

-- The symbol that an assertion which holds returns.
abbrev pub t_cell : CellPtr
t_cell = alloc_cell (symbol (codes "t"))

module _ {Ctx : Type 0} where
  abbrev pub log : Bytes → M Ctx CellPtr
  log message = sys_call (log_error (codes "Assertion failed: " ++ message)) (λ calls. tt) >> abort

  -- The message of the assertion if it is a string, and else the general one.
  abbrev pub log_value : Bytes → CellPtr → M Ctx CellPtr
  log_value general (node _ (string_literal s) _) = log (c_string s)
  log_value general _ = log general

  -- `raise(SIGABRT)` behind the log; the argument for the message may be missing or fail.
  unfoldable pub assertion_failed : Evaluator Ctx → Bytes → CellPtr → M Ctx CellPtr
  assertion_failed ev general null = log general
  assertion_failed ev general (node r c next) =
      handle (ev plain (node r c next)) (log general) (log_value general)

  module _ (env : Env Ctx) where
    unfoldable pub is_truthy : CellPtr → Bool
    unfolding strcmp_eq
    is_truthy null = false
    is_truthy (node _ (symbol s) _) = not (strcmp_eq s (codes "nil") || strcmp_eq s (codes "false"))
    is_truthy (node _ (integer_literal i) _) = not (eqb_ℤ i (pos 0))
    is_truthy (node _ (real_literal x) _) = not (env.real_eq x real_zero)
    is_truthy _ = true

    -- The shape of assert_true.c and assert_false.c: `holds` is the test on the value.
    unfoldable pub assert_one :
        (CellPtr → Bool) → Bytes → Bytes → Evaluator Ctx → CellPtr → M Ctx CellPtr
    unfolding assertion_failed
    assert_one holds missing general ev args =
        if is_null (list_nth args 0) then fail missing else (do
          evaled ← ev plain (list_nth args 0)
          if holds evaled then pure t_cell else assertion_failed ev general (list_nth args 1))

    unfoldable pub assert_true_impl : Evaluator Ctx → CellPtr → M Ctx CellPtr
    unfolding assert_one is_truthy
    assert_true_impl =
        assert_one is_truthy (codes "assert/true: missing condition argument")
          (codes "condition is false")

    unfoldable pub assert_false_impl : Evaluator Ctx → CellPtr → M Ctx CellPtr
    unfolding assert_one is_truthy
    assert_false_impl =
        assert_one (λ p. not (is_truthy p)) (codes "assert/false: missing condition argument")
          (codes "condition is true")

    -- The shape of assert_eq.c and assert_ne.c. The switch there is the one of nucleus/math/eq.c: two
    -- values of another type than a number, a string or a symbol are not equal.
    unfoldable pub assert_two :
        (CellPtr → CellPtr → Bool) → Bytes → Bytes → Evaluator Ctx → CellPtr → M Ctx CellPtr
    unfolding assertion_failed
    assert_two holds missing general ev args =
        if is_null (list_nth args 0) || is_null (list_nth args 1) then fail missing else (do
          left ← ev plain (list_nth args 0)
          right ← ev plain (list_nth args 1)
          if holds left right then pure t_cell else assertion_failed ev general (list_nth args 2))

    unfoldable pub assert_eq_impl : Evaluator Ctx → CellPtr → M Ctx CellPtr
    unfolding assert_two same_atom
    assert_eq_impl =
        assert_two (same_atom env) (codes "assert/eq: requires two arguments")
          (codes "values not equal")

    unfoldable pub assert_ne_impl : Evaluator Ctx → CellPtr → M Ctx CellPtr
    unfolding assert_two same_atom
    assert_ne_impl =
        assert_two (λ a b. not (same_atom env a b)) (codes "assert/ne: requires two arguments")
          (codes "values are equal")
