-- ===== src/Nucleus/Logic.antt =====
-- nucleus/logic: `and`, `or` and `not` on the integer 1.
pub mod Runs
pub mod ShortCircuit
use akx.Base.{Bool, true, false, not, ltb, ◌==◌, if◌then◌else◌}
use akx.Base.Text.{codes}
use akx.Cell.{CellPtr, null, node, truth}
use akx.Cell.Chain.{list_length, list_nth}
use akx.Nucleus.Core.{is_one}
use akx.Rt.{M, Evaluator, plain, ◌>>=◌, pure, fail}

module _ {Ctx : Type 0} where
  unfoldable pub and_loop : Evaluator Ctx → CellPtr → M Ctx CellPtr
  unfolding is_one
  and_loop ev null = pure (truth true)
  and_loop ev (node r c next) = do
    evaled ← ev plain (node r c next)
    if is_one evaled then and_loop ev next else pure (truth false)

  unfoldable pub and_impl : Evaluator Ctx → CellPtr → M Ctx CellPtr
  unfolding and_loop
  and_impl ev args =
      if ltb (list_length args) 2
      then fail (codes "and: requires at least 2 arguments")
      else and_loop ev args

  unfoldable pub or_loop : Evaluator Ctx → CellPtr → M Ctx CellPtr
  unfolding is_one
  or_loop ev null = pure (truth false)
  or_loop ev (node r c next) = do
    evaled ← ev plain (node r c next)
    if is_one evaled then pure (truth true) else or_loop ev next

  unfoldable pub or_impl : Evaluator Ctx → CellPtr → M Ctx CellPtr
  unfolding or_loop
  or_impl ev args =
      if ltb (list_length args) 2
      then fail (codes "or: requires at least 2 arguments")
      else or_loop ev args

  unfoldable pub not_impl : Evaluator Ctx → CellPtr → M Ctx CellPtr
  unfolding is_one
  not_impl ev args =
      if list_length args == 1
      then (do evaled ← ev plain (list_nth args 0); pure (truth (not (is_one evaled))))
      else fail (codes "not: requires exactly 1 argument")
