-- ===== src/Cell/Free.antt =====
-- `akx_cell_free` of pkg/cell/akx_cell.c: the lambdas that it gives to `ak_lambda_free`.
use akx.Base.{ℕ, List, [], ◌∷◌, ◌++◌}
use akx.Cell.{Cell, list, lambda, continuation, CellPtr, null, node}

unfoldable mutual
  pub value_lambdas : Cell → List ℕ
  value_lambdas (list k head) = cell_lambdas head
  value_lambdas (lambda l) = l ∷ []
  value_lambdas (continuation l args) = cell_lambdas l ++ cell_lambdas args
  value_lambdas _ = []

  -- Those of the cell, its children and all its later siblings, in the order of the calls.
  pub cell_lambdas : CellPtr → List ℕ
  cell_lambdas null = []
  cell_lambdas (node r c next) = value_lambdas c ++ cell_lambdas next
