-- ===== src/Nucleus/Lists/Runs.antt =====
-- `cons`, `car` and `cdr` keep what each step keeps, and do not depend on the fuel.
use akx.Cell.{CellPtr, null, node}
use akx.Rt.{Runtime, Env, Evaluator}
use akx.Rt.Within.{IsKept, Runs, Agrees, Runs-pure, Runs-bind, Runs-if, Runs-fail}
use akx.Nucleus.Lists.{cons_impl, first_of_list, car_impl, cdr_impl}

module _ {Ctx : Type 0} {env : Env Ctx} {R : Runtime Ctx → Runtime Ctx → Type 0}
    (kept : IsKept env R) (ev ev' : Evaluator Ctx) (same : Agrees R ev ev') where
  first_of_list-Runs : (head : CellPtr) → Runs R (first_of_list head) (first_of_list head)
  unfolding first_of_list
  first_of_list-Runs null = search (Runs-fail kept)
  first_of_list-Runs (node r c next) = search (Runs-pure kept)

  pub cons_impl-Runs : (args : CellPtr) → Runs R (cons_impl ev args) (cons_impl ev' args)
  unfolding cons_impl
  cons_impl-Runs args =
      search (Runs-if kept, Runs-fail kept, Runs-bind kept, Runs-pure kept, same.agree) depth 14

  pub car_impl-Runs : (args : CellPtr) → Runs R (car_impl ev args) (car_impl ev' args)
  unfolding car_impl
  car_impl-Runs args =
      search
        (
          Runs-if kept,
          Runs-fail kept,
          Runs-bind kept,
          Runs-pure kept,
          first_of_list-Runs,
          same.agree,
        )
        depth 14

  pub cdr_impl-Runs : (args : CellPtr) → Runs R (cdr_impl ev args) (cdr_impl ev' args)
  unfolding cdr_impl
  cdr_impl-Runs args =
      search (Runs-if kept, Runs-fail kept, Runs-bind kept, Runs-pure kept, same.agree) depth 14
