-- ===== src/Nucleus/Core.antt =====
-- nucleus/core: `if`, `let`, `set`, `begin`, `loop` and `?defined`. Of the cells that are
-- freed, the old value of `set` gives up its lambdas; where the new value is that same cell, as in
-- `(set f f)`, the cell itself still reads as before.
pub mod Runs
pub mod Loops
pub mod Bindings
use akx.Base.{
  ℕ, zero, suc, List, [], ◌∷◌, Bool, true, false, Option, none, some, ltb, ◌||◌, ◌&&◌, not, ◌++◌,
  ◌==◌, if◌then◌else◌,
}
use akx.Base.Int.{ℤ, pos, eqb_ℤ}
use akx.Base.Text.{Bytes, codes}
use akx.Cell.{
  CellPtr, null, node, Cell, symbol, integer_literal, cell_get_type, cell_as_int, type_eq,
  type_integer_literal, is_null, nil, truth,
}
use akx.Cell.Chain.{list_length, list_nth}
use akx.Cell.Clone.{clone}
use akx.Cell.Free.{cell_lambdas}
use akx.Rt.{
  LambdaContext, Runtime, Env, M, Evaluator, plain, ◌>>=◌, ◌>>◌, pure, fail, asks, modify,
  out_of_fuel, scope_set, scope_get, scoped,
}

-- Only the integer 1 is true.
unfoldable pub is_one : CellPtr → Bool
is_one p = type_eq (cell_get_type p) type_integer_literal && eqb_ℤ (cell_as_int p) (pos 1)

module _ {Ctx : Type 0} where
  -- `else_branch` may be NULL.
  unfoldable pub else_or_nil : Evaluator Ctx → CellPtr → M Ctx CellPtr
  else_or_nil ev else_branch = if is_null else_branch then pure nil else ev plain else_branch

  unfoldable pub if_impl : Evaluator Ctx → CellPtr → M Ctx CellPtr
  unfolding is_one else_or_nil
  if_impl ev args =
      if ltb (list_length args) 2 || ltb 3 (list_length args)
      then fail (codes "if: requires 2 or 3 arguments (condition then-branch [else-branch])")
      else (do
        condition ← ev plain (list_nth args 0)
        if is_one condition then ev plain (list_nth args 1) else else_or_nil ev (list_nth args 2))

  -- Every expression is evaluated, and the last result returned.
  unfoldable pub begin_exprs : Evaluator Ctx → CellPtr → CellPtr → M Ctx CellPtr
  begin_exprs ev null result = pure result
  begin_exprs ev (node r c next) result = do
    evaled ← ev plain (node r c next)
    begin_exprs ev next evaled

  unfoldable pub begin_impl : Evaluator Ctx → CellPtr → M Ctx CellPtr
  unfolding begin_exprs
  begin_impl ev args = if list_length args == 0 then pure nil else begin_exprs ev args null

  module _ (env : Env Ctx) where
    unfoldable pub bind_value : Evaluator Ctx → Bytes → CellPtr → M Ctx CellPtr
    bind_value ev name null = fail (codes "let: missing value argument")
    bind_value ev name (node r c next) = do
      evaled ← ev plain (node r c next)
      scope_set env name evaled
      pure (clone evaled)

    unfoldable pub let_named : Evaluator Ctx → CellPtr → CellPtr → M Ctx CellPtr
    let_named ev (node _ (symbol name) _) value_cell =
        asks (λ rt. env.has_local rt.current_context name)
          λ defined.
            if defined
            then fail
                (codes "let: symbol '" ++ (name ++ codes "' already defined in current scope"))
            else bind_value ev name value_cell
    let_named ev _ value_cell = fail (codes "let: first argument must be a symbol")

    unfoldable pub let_impl : Evaluator Ctx → CellPtr → M Ctx CellPtr
    unfolding let_named bind_value
    let_impl ev args = let_named ev (list_nth args 0) (list_nth args 1)

    -- The calls of `ak_lambda_free` one after the other.
    unfoldable pub free_lambdas : List ℕ → List LambdaContext → List LambdaContext
    free_lambdas [] contexts = contexts
    free_lambdas (l ∷ ls) contexts = free_lambdas ls (env.lambda_free l contexts)

    -- `akx_cell_free` of a value that a scope holds.
    unfoldable pub free_cell : CellPtr → M Ctx (Unit {0})
    unfolding free_lambdas cell_lambdas
    free_cell p = modify λ rt. record rt { lambdas = free_lambdas (cell_lambdas p) rt.lambdas }

    unfoldable pub assign_value : Evaluator Ctx → Bytes → CellPtr → M Ctx CellPtr
    unfolding free_cell
    assign_value ev name null = fail (codes "set: missing value argument")
    assign_value ev name (node r c next) = do
      evaled ← ev plain (node r c next)
      asks (λ rt. scope_get env rt name) free_cell
      modify λ rt. record rt { current_context = env.assign rt.current_context name evaled }
      pure (clone evaled)

    unfoldable pub set_named : Evaluator Ctx → CellPtr → CellPtr → M Ctx CellPtr
    set_named ev (node _ (symbol name) _) value_cell =
        asks (λ rt. env.has rt.current_context name)
          λ defined.
            if defined
            then assign_value ev name value_cell
            else fail (codes "set: symbol '" ++ (name ++ codes "' is not defined"))
    set_named ev _ value_cell = fail (codes "set: first argument must be a symbol")

    unfoldable pub set_impl : Evaluator Ctx → CellPtr → M Ctx CellPtr
    unfolding set_named assign_value
    set_impl ev args = set_named ev (list_nth args 0) (list_nth args 1)

    -- `while (1)`, with fuel for the rounds: the condition, and then the body in a scope of its own.
    unfoldable pub loop_rounds : ℕ → Evaluator Ctx → CellPtr → CellPtr → CellPtr → M Ctx CellPtr
    unfolding begin_exprs is_one
    loop_rounds zero ev condition_cell body last_result = out_of_fuel
    loop_rounds (suc fuel) ev condition_cell body last_result = do
      condition ← ev plain condition_cell
      if is_one condition
          then (do
            result ← scoped env (begin_exprs ev body last_result)
            loop_rounds fuel ev condition_cell body result)
          else pure (if is_null last_result then nil else last_result)

    unfoldable pub loop_impl : ℕ → Evaluator Ctx → CellPtr → M Ctx CellPtr
    unfolding loop_rounds
    loop_impl fuel ev args =
        if ltb (list_length args) 2
        then fail (codes "loop: requires at least 2 arguments (condition body...)")
        else loop_rounds fuel ev (list_nth args 0) (list_nth args 1) null

    defined_named : CellPtr → M Ctx CellPtr
    defined_named (node _ (symbol name) _) =
        asks (λ rt. scope_get env rt name) λ value. pure (truth (not (is_null value)))
    defined_named _ = fail (codes "?defined: argument must be a symbol")

    unfoldable pub defined_impl : CellPtr → M Ctx CellPtr
    unfolding defined_named
    defined_impl args =
        if list_length args == 1
        then defined_named (list_nth args 0)
        else fail (codes "?defined requires exactly 1 argument")
