-- ===== src/Nucleus/Logic/Runs.antt =====
-- `and`, `or` and `not` keep what each step keeps, and do not depend on the fuel.
use akx.Cell.{CellPtr, null, node}
use akx.Rt.{Runtime, Env, Evaluator, plain}
use akx.Rt.Within.{IsKept, Runs, Agrees, Runs-pure, Runs-bind, Runs-if, Runs-fail}
use akx.Nucleus.Core.{is_one}
use akx.Nucleus.Logic.{and_loop, and_impl, or_loop, or_impl, not_impl}

module _ {Ctx : Type 0} {env : Env Ctx} {R : Runtime Ctx → Runtime Ctx → Type 0}
    (kept : IsKept env R) (ev ev' : Evaluator Ctx) (same : Agrees R ev ev') where
  and_loop-Runs : (args : CellPtr) → Runs R (and_loop ev args) (and_loop ev' args)
  unfolding and_loop
  and_loop-Runs null = search (Runs-pure kept)
  and_loop-Runs (node r c next) =
      Runs-bind kept (same.agree plain (node r c next))
        λ evaled. Runs-if kept (is_one evaled) (and_loop-Runs next) (Runs-pure kept _)

  pub and_impl-Runs : (args : CellPtr) → Runs R (and_impl ev args) (and_impl ev' args)
  unfolding and_impl
  and_impl-Runs args = search (Runs-if kept, Runs-fail kept, and_loop-Runs) depth 14

  or_loop-Runs : (args : CellPtr) → Runs R (or_loop ev args) (or_loop ev' args)
  unfolding or_loop
  or_loop-Runs null = search (Runs-pure kept)
  or_loop-Runs (node r c next) =
      Runs-bind kept (same.agree plain (node r c next))
        λ evaled. Runs-if kept (is_one evaled) (Runs-pure kept _) (or_loop-Runs next)

  pub or_impl-Runs : (args : CellPtr) → Runs R (or_impl ev args) (or_impl ev' args)
  unfolding or_impl
  or_impl-Runs args = search (Runs-if kept, Runs-fail kept, or_loop-Runs) depth 14

  pub not_impl-Runs : (args : CellPtr) → Runs R (not_impl ev args) (not_impl ev' args)
  unfolding not_impl
  not_impl-Runs args =
      search (Runs-if kept, Runs-fail kept, Runs-bind kept, Runs-pure kept, same.agree) depth 14
