-- ===== src/Cell/Clone.antt =====
-- `akx_cell_clone` of pkg/cell/akx_cell.c, where every allocation succeeds. `ak_lambda_clone` gives
-- a lambda with the same captured context.
use akx.Base.{◌≡◌, refl}
use akx.Cell.{
  Cell, symbol, string_literal, integer_literal, real_literal, list, quoted, lambda, continuation,
  CellPtr, null, node,
}

unfoldable mutual
  pub clone_value : Cell → Cell
  clone_value (symbol s) = symbol s
  clone_value (integer_literal i) = integer_literal i
  clone_value (real_literal r) = real_literal r
  clone_value (string_literal b) = string_literal b
  clone_value (list k head) = list k (clone head)
  clone_value (quoted b) = quoted b
  clone_value (lambda l) = lambda l
  clone_value (continuation l args) = continuation (clone l) (clone args)

  -- The cell, its children and all its later siblings.
  pub clone : CellPtr → CellPtr
  clone null = null
  clone (node r c next) = node r (clone_value c) (clone next)

mutual
  unfolding clone

  clone_value-eq : (c : Cell) → clone_value c ≡ c
  clone_value-eq (list k head) = rw (clone-eq head)
  clone_value-eq (continuation l args) = rw (clone-eq l, clone-eq args)
  clone_value-eq _ = refl

  clone-eq : (p : CellPtr) → clone p ≡ p
  clone-eq null = refl
  clone-eq (node r c next) = rw (clone_value-eq c, clone-eq next)

-- A clone has the same types, values, source ranges, children and siblings, at every depth.
pub clone_lem : (p : CellPtr) → clone p ≡ p
clone_lem p = clone-eq p
