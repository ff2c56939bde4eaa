-- ===== src/Nucleus/Core/Runs.antt =====
-- The nuclei of nucleus/core keep what each step keeps, and do not depend on the fuel.
use akx.Base.{ℕ, zero, suc, ◌≤◌, arith}
use akx.Base.Text.{Bytes}
use akx.Cell.{CellPtr, null, node, symbol}
use akx.Cell.Chain.{list_nth}
use akx.Rt.{Runtime, Env, Evaluator, plain}
use akx.Rt.Within.{
  IsKept, Runs, Agrees, Runs-pure, Runs-fuel, Runs-bind, Runs-then, Runs-asks, Runs-if, Runs-modify,
  Runs-fail, Runs-scope_set, Runs-scoped,
}
use akx.Nucleus.Core.{
  if_impl, begin_exprs, begin_impl, bind_value, let_named, let_impl, free_cell, assign_value,
  set_named, set_impl, loop_rounds, loop_impl, defined_named, defined_impl,
}

module _ {Ctx : Type 0} {env : Env Ctx} {R : Runtime Ctx → Runtime Ctx → Type 0}
    (kept : IsKept env R) (ev ev' : Evaluator Ctx) (same : Agrees R ev ev') where
  pub if_impl-Runs : (args : CellPtr) → Runs R (if_impl ev args) (if_impl ev' args)
  unfolding if_impl
  if_impl-Runs args =
      search (Runs-if kept, Runs-fail kept, Runs-bind kept, Runs-pure kept, same.agree) depth 12

  pub begin_exprs-Runs :
      (exprs result : CellPtr) → Runs R (begin_exprs ev exprs result) (begin_exprs ev' exprs result)
  unfolding begin_exprs
  begin_exprs-Runs null result = search (Runs-pure kept)
  begin_exprs-Runs (node r c next) result =
      search (Runs-bind kept, begin_exprs-Runs next, same.agree) depth 12

  pub begin_impl-Runs : (args : CellPtr) → Runs R (begin_impl ev args) (begin_impl ev' args)
  unfolding begin_impl
  begin_impl-Runs args = search (Runs-if kept, Runs-pure kept, begin_exprs-Runs) depth 12

  bind_value-Runs :
      (name : Bytes) (value : CellPtr)
      → Runs R (bind_value env ev name value) (bind_value env ev' name value)
  unfolding bind_value
  bind_value-Runs name null = search (Runs-fail kept)
  bind_value-Runs name (node r c next) =
      search (Runs-bind kept, Runs-then kept, Runs-scope_set kept, Runs-pure kept, same.agree) depth
        12

  let_named-Runs :
      (name value : CellPtr) → Runs R (let_named env ev name value) (let_named env ev' name value)
  unfolding let_named
  let_named-Runs (node _ (symbol name) _) value =
      search (Runs-asks kept, Runs-if kept, Runs-fail kept, bind_value-Runs) depth 12
  let_named-Runs _ value = Runs-fail kept _

  pub let_impl-Runs : (args : CellPtr) → Runs R (let_impl env ev args) (let_impl env ev' args)
  unfolding let_impl
  let_impl-Runs args = let_named-Runs (list_nth args 0) (list_nth args 1)

  free_cell-Runs : (p : CellPtr) → Runs R (free_cell env p) (free_cell env p)
  unfolding free_cell
  free_cell-Runs p = Runs-modify kept _ λ rt. kept.on_free _ rt

  assign_value-Runs :
      (name : Bytes) (value : CellPtr)
      → Runs R (assign_value env ev name value) (assign_value env ev' name value)
  unfolding assign_value
  assign_value-Runs name null = search (Runs-fail kept)
  assign_value-Runs name (node r c next) =
      Runs-bind kept (same.agree plain (node r c next)) λ evaled.
        Runs-then kept (Runs-asks kept _ free_cell-Runs)
          (Runs-then kept (Runs-modify kept _ (kept.on_assign name evaled)) (Runs-pure kept _))

  set_named-Runs :
      (name value : CellPtr) → Runs R (set_named env ev name value) (set_named env ev' name value)
  unfolding set_named
  set_named-Runs (node _ (symbol name) _) value =
      search (Runs-asks kept, Runs-if kept, Runs-fail kept, assign_value-Runs) depth 12
  set_named-Runs _ value = Runs-fail kept _

  pub set_impl-Runs : (args : CellPtr) → Runs R (set_impl env ev args) (set_impl env ev' args)
  unfolding set_impl
  set_impl-Runs args = set_named-Runs (list_nth args 0) (list_nth args 1)

  -- More fuel for the rounds changes nothing either.
  loop_rounds-Runs :
      (f g : ℕ)
      → f ≤ g
      → (condition body last : CellPtr)
      → Runs R
          (loop_rounds env f ev condition body last)
          (loop_rounds env g ev' condition body last)
  unfolding loop_rounds
  loop_rounds-Runs zero g le condition body last = Runs-fuel kept _
  loop_rounds-Runs (suc f) zero le condition body last = absurd (omega arith)
  loop_rounds-Runs (suc f) (suc g) le condition body last =
      let again = loop_rounds-Runs f g (omega arith) condition body in
      search
        (
          Runs-bind kept,
          Runs-if kept,
          Runs-scoped kept,
          Runs-pure kept,
          begin_exprs-Runs,
          again,
          same.agree,
        )
        depth 12

  pub loop_impl-Runs :
      (f g : ℕ)
      → f ≤ g
      → (args : CellPtr) → Runs R (loop_impl env f ev args) (loop_impl env g ev' args)
  unfolding loop_impl
  loop_impl-Runs f g le args =
      search (Runs-if kept, Runs-fail kept, loop_rounds-Runs f g le) depth 12

module _ {Ctx : Type 0} {env : Env Ctx} {R : Runtime Ctx → Runtime Ctx → Type 0}
    (kept : IsKept env R) where
  defined_named-Runs : (cell : CellPtr) → Runs R (defined_named env cell) (defined_named env cell)
  unfolding defined_named
  defined_named-Runs (node _ (symbol name) _) = search (Runs-asks kept, Runs-pure kept) depth 12
  defined_named-Runs _ = Runs-fail kept _

  pub defined_impl-Runs : (args : CellPtr) → Runs R (defined_impl env args) (defined_impl env args)
  unfolding defined_impl
  defined_impl-Runs args = search (Runs-if kept, Runs-fail kept, defined_named-Runs) depth 12
