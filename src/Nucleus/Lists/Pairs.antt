-- ===== src/Nucleus/Lists/Pairs.antt =====
-- `car` and `cdr` take apart what `cons` puts together.
use akx.Base.{◌≡◌, refl, true}
use akx.Cell.{
  is_list_type, square, curly, temple, list_type, square, curly, temple, CellPtr, Cell, SourceRange,
  null, node, list, Brackets, round, alloc_cell, nil,
}
use akx.Base.{Option}
use akx.Cell.Chain.{list_length, list_nth}
use akx.Cell.Clone.{clone_lem}
use akx.Nucleus.Lists.{cons_impl, car_impl, cdr_impl, first_of_list, rest_of_list}
use akx.Rt.{Runtime, Evaluator, plain, done, ◌>>=◌, pure}

abbrev pub list_or_nil : CellPtr → CellPtr
list_or_nil null = nil
list_or_nil (node r c next) = alloc_cell (list round (node r c next))

rest_of_list_lem :
    (r : Option SourceRange) (c : Cell) (items : CellPtr)
    → rest_of_list (node r c items) ≡ list_or_nil items
rest_of_list_lem r c null = refl
rest_of_list_lem r c (node s d next) = rw (clone_lem (node s d next)) refl

brackets_lem : (k : Brackets) → is_list_type (list_type k) ≡ true
brackets_lem round = refl
brackets_lem square = refl
brackets_lem curly = refl
brackets_lem temple = refl

module _ {Ctx : Type 0} (ev : Evaluator Ctx) where
  -- `cons` of a value and a list gives a list; `car` of that list is the value, on its own, and
  -- `cdr` the old elements in a list, or the symbol `nil` if there are none.
  pub car-cdr-cons :
      (args args' : CellPtr) (rt rt1 rt2 rt3 rt4 : Runtime Ctx) (r r' : Option SourceRange)
      (c : Cell) (next next' items : CellPtr) (k : Brackets)
      → list_length args ≡ 2
      → ev plain (list_nth args 0) rt ≡ done (node r c next) rt1
      → ev plain (list_nth args 1) rt1 ≡ done (node r' (list k items) next') rt2
      → list_length args' ≡ 1
      → ev plain (list_nth args' 0) rt3 ≡ done (alloc_cell (list round (node r c items))) rt4
      → (cons_impl ev args rt ≡ done (alloc_cell (list round (node r c items))) rt2)
        × (car_impl ev args' rt3 ≡ done (node r c null) rt4)
        × (cdr_impl ev args' rt3 ≡ done (list_or_nil items) rt4)
  unfolding cons_impl car_impl cdr_impl first_of_list ◌>>=◌ pure
  car-cdr-cons args args' rt rt1 rt2 rt3 rt4 r r' c next next' items k l e1 e2 l' e3 = (
    rw (l, e1, e2, brackets_lem k, clone_lem (node r c next), clone_lem items) refl,
    rw (l', e3, clone_lem (node r c items)) refl,
    rw (l', e3, rest_of_list_lem r c items) refl,
  )
