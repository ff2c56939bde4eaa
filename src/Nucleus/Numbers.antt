-- ===== src/Nucleus/Numbers.antt =====
-- nucleus/math: the integer operators. Results wrap around in 32 bits, also where C leaves the
-- overflow of an `int` undefined.
pub mod Runs
pub mod Sum
pub mod Division
use akx.Base.{Bool, true, false, ltb, ◌==◌, if◌then◌else◌}
use akx.Base.Int.{ℤ, pos, ◌+ℤ◌, ◌-ℤ◌, ◌*ℤ◌, quot, rem, eqb_ℤ, wrap}
use akx.Base.Text.{Bytes, codes, strcmp_eq}
use akx.Cell.{
  CellPtr, null, node, symbol, string_literal, integer_literal, real_literal, type_integer_literal,
  cell_as_int, alloc_cell,
}
use akx.Cell.Chain.{list_length, list_nth}
use akx.Rt.{Env, M, Evaluator, plain, ◌>>=◌, pure, fail, eval_and_assert}

abbrev pub int_cell : ℤ → CellPtr
int_cell i = alloc_cell (integer_literal i)

module _ {Ctx : Type 0} where
  unfoldable pub add_loop : Evaluator Ctx → CellPtr → ℤ → M Ctx CellPtr
  add_loop ev null sum = pure (int_cell sum)
  add_loop ev (node r c next) sum = do
    evaled ←
        eval_and_assert ev (node r c next) type_integer_literal
          (codes "add requires integer arguments")
    add_loop ev next (wrap (sum +ℤ cell_as_int evaled))

  unfoldable pub add : Evaluator Ctx → CellPtr → M Ctx CellPtr
  unfolding add_loop
  add ev args =
      if ltb (list_length args) 2
      then fail (codes "add requires at least 2 arguments")
      else add_loop ev args (pos 0)

  unfoldable pub mul_loop : Evaluator Ctx → CellPtr → ℤ → M Ctx CellPtr
  mul_loop ev null product = pure (int_cell product)
  mul_loop ev (node r c next) product = do
    evaled ←
        eval_and_assert ev (node r c next) type_integer_literal
          (codes "* requires integer arguments")
    mul_loop ev next (wrap (product *ℤ cell_as_int evaled))

  unfoldable pub mul : Evaluator Ctx → CellPtr → M Ctx CellPtr
  unfolding mul_loop
  mul ev args =
      if ltb (list_length args) 2
      then fail (codes "* requires at least 2 arguments")
      else mul_loop ev args (pos 1)

  unfoldable pub sub : Evaluator Ctx → CellPtr → M Ctx CellPtr
  sub ev args =
      if list_length args == 2
      then (do
        left ←
            eval_and_assert ev (list_nth args 0) type_integer_literal
              (codes "- requires integer arguments")
        right ←
            eval_and_assert ev (list_nth args 1) type_integer_literal
              (codes "- requires integer arguments")
        pure (int_cell (wrap (cell_as_int left -ℤ cell_as_int right))))
      else fail (codes "- requires exactly 2 arguments")

  unfoldable pub akx_div : Evaluator Ctx → CellPtr → M Ctx CellPtr
  akx_div ev args =
      if list_length args == 2
      then (do
        left ←
            eval_and_assert ev (list_nth args 0) type_integer_literal
              (codes "/ requires integer arguments")
        right ←
            eval_and_assert ev (list_nth args 1) type_integer_literal
              (codes "/ requires integer arguments")
        if eqb_ℤ (cell_as_int right) (pos 0)
            then fail (codes "/ division by zero")
            else pure (int_cell (wrap (quot (cell_as_int left) (cell_as_int right)))))
      else fail (codes "/ requires exactly 2 arguments")

  unfoldable pub akx_mod : Evaluator Ctx → CellPtr → M Ctx CellPtr
  akx_mod ev args =
      if list_length args == 2
      then (do
        left ←
            eval_and_assert ev (list_nth args 0) type_integer_literal
              (codes "% requires integer arguments")
        right ←
            eval_and_assert ev (list_nth args 1) type_integer_literal
              (codes "% requires integer arguments")
        if eqb_ℤ (cell_as_int right) (pos 0)
            then fail (codes "% division by zero")
            else pure (int_cell (wrap (rem (cell_as_int left) (cell_as_int right)))))
      else fail (codes "% requires exactly 2 arguments")

  module _ (env : Env Ctx) where
    unfoldable pub same_atom : CellPtr → CellPtr → Bool
    unfolding strcmp_eq
    same_atom (node _ (integer_literal a) _) (node _ (integer_literal b) _) = eqb_ℤ a b
    same_atom (node _ (real_literal a) _) (node _ (real_literal b) _) = env.real_eq a b
    same_atom (node _ (string_literal a) _) (node _ (string_literal b) _) = strcmp_eq a b
    same_atom (node _ (symbol a) _) (node _ (symbol b) _) = strcmp_eq a b
    same_atom _ _ = false

    -- `=` answers with the symbol `true` or `false`.
    unfoldable pub akx_eq : Evaluator Ctx → CellPtr → M Ctx CellPtr
    unfolding same_atom
    akx_eq ev args =
        if list_length args == 2
        then (do
          left ← ev plain (list_nth args 0)
          right ← ev plain (list_nth args 1)
          let answer = if same_atom left right then codes "true" else codes "false"
          pure (alloc_cell (symbol answer)))
        else fail (codes "= requires exactly 2 arguments")
