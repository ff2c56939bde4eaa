-- ===== src/Nucleus/Numbers/Runs.antt =====
-- The integer operators keep what each step keeps, and do not depend on the fuel.
use akx.Base.Int.{ℤ}
use akx.Cell.{CellPtr, null, node}
use akx.Rt.{Runtime, Env, Evaluator}
use akx.Rt.Within.{IsKept, Runs, Agrees, Runs-pure, Runs-bind, Runs-if, Runs-fail, Runs-assert}
use akx.Nucleus.Numbers.{add_loop, add, mul_loop, mul, sub, akx_div, akx_mod, akx_eq}

module _ {Ctx : Type 0} {env : Env Ctx} {R : Runtime Ctx → Runtime Ctx → Type 0}
    (kept : IsKept env R) (ev ev' : Evaluator Ctx) (same : Agrees R ev ev') where
  add_loop-Runs : (args : CellPtr) (sum : ℤ) → Runs R (add_loop ev args sum) (add_loop ev' args sum)
  unfolding add_loop
  add_loop-Runs null sum = search (Runs-pure kept)
  add_loop-Runs (node r c next) sum =
      search (Runs-bind kept, Runs-pure kept, Runs-assert kept, same, add_loop-Runs next) depth 14

  pub add-Runs : (args : CellPtr) → Runs R (add ev args) (add ev' args)
  unfolding add
  add-Runs args = search (Runs-if kept, Runs-fail kept, add_loop-Runs) depth 14

  mul_loop-Runs :
      (args : CellPtr) (product : ℤ) → Runs R (mul_loop ev args product) (mul_loop ev' args product)
  unfolding mul_loop
  mul_loop-Runs null product = search (Runs-pure kept)
  mul_loop-Runs (node r c next) product =
      search (Runs-bind kept, Runs-pure kept, Runs-assert kept, same, mul_loop-Runs next) depth 14

  pub mul-Runs : (args : CellPtr) → Runs R (mul ev args) (mul ev' args)
  unfolding mul
  mul-Runs args = search (Runs-if kept, Runs-fail kept, mul_loop-Runs) depth 14

  pub sub-Runs : (args : CellPtr) → Runs R (sub ev args) (sub ev' args)
  unfolding sub
  sub-Runs args =
      search (Runs-if kept, Runs-fail kept, Runs-bind kept, Runs-pure kept, Runs-assert kept, same)
        depth 14

  pub akx_div-Runs : (args : CellPtr) → Runs R (akx_div ev args) (akx_div ev' args)
  unfolding akx_div
  akx_div-Runs args =
      search (Runs-if kept, Runs-fail kept, Runs-bind kept, Runs-pure kept, Runs-assert kept, same)
        depth 14

  pub akx_mod-Runs : (args : CellPtr) → Runs R (akx_mod ev args) (akx_mod ev' args)
  unfolding akx_mod
  akx_mod-Runs args =
      search (Runs-if kept, Runs-fail kept, Runs-bind kept, Runs-pure kept, Runs-assert kept, same)
        depth 14

  pub akx_eq-Runs : (args : CellPtr) → Runs R (akx_eq env ev args) (akx_eq env ev' args)
  unfolding akx_eq
  akx_eq-Runs args =
      search (Runs-if kept, Runs-fail kept, Runs-bind kept, Runs-pure kept, same.agree) depth 14
