-- ===== src/Nucleus/Lists.antt =====
-- nucleus/core/cons.c, car.c and cdr.c.
pub mod Runs
pub mod Pairs
use akx.Base.{Bool, true, false, ◌==◌, if◌then◌else◌}
use akx.Base.Text.{codes}
use akx.Cell.{
  CellPtr, null, node, list, round, cell_get_type, cell_as_list, is_list_type, set_next, alloc_cell,
  nil,
}
use akx.Cell.Chain.{list_length, list_nth}
use akx.Cell.Clone.{clone}
use akx.Rt.{M, Evaluator, plain, ◌>>=◌, pure, fail}

-- A list with no second element has the rest `nil`, which is a symbol.
abbrev pub rest_of_list : CellPtr → CellPtr
rest_of_list null = nil
rest_of_list (node _ _ null) = nil
rest_of_list (node _ _ (node r c next)) = alloc_cell (list round (clone (node r c next)))

module _ {Ctx : Type 0} where
  unfoldable pub cons_impl : Evaluator Ctx → CellPtr → M Ctx CellPtr
  cons_impl ev args =
      if list_length args == 2
      then (do
        element ← ev plain (list_nth args 0)
        second ← ev plain (list_nth args 1)
        if is_list_type (cell_get_type second)
            then pure
                (alloc_cell (list round (set_next (clone element) (clone (cell_as_list second)))))
            else fail (codes "cons: second argument must be a list"))
      else fail (codes "cons requires exactly 2 arguments")

  unfoldable pub first_of_list : CellPtr → M Ctx CellPtr
  first_of_list null = fail (codes "car: list is empty")
  first_of_list (node r c next) = pure (set_next (clone (node r c next)) null)

  unfoldable pub car_impl : Evaluator Ctx → CellPtr → M Ctx CellPtr
  unfolding first_of_list
  car_impl ev args =
      if list_length args == 1
      then (do
        value ← ev plain (list_nth args 0)
        if is_list_type (cell_get_type value)
            then first_of_list (cell_as_list value)
            else fail (codes "car: argument must be a list"))
      else fail (codes "car requires exactly 1 argument")

  unfoldable pub cdr_impl : Evaluator Ctx → CellPtr → M Ctx CellPtr
  cdr_impl ev args =
      if list_length args == 1
      then (do
        value ← ev plain (list_nth args 0)
        if is_list_type (cell_get_type value)
            then pure (rest_of_list (cell_as_list value))
            else fail (codes "cdr: argument must be a list"))
      else fail (codes "cdr requires exactly 1 argument")
