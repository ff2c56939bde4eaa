-- ===== src/Nucleus/Args.antt =====
-- The evaluation of a call's arguments, from left to right, as a relation.
use akx.Base.{◌≡◌, List, [], ◌∷◌}
use akx.Cell.{CellPtr, node}
use akx.Rt.{Runtime, Evaluator, plain, done}

module _ {Ctx : Type 0} (ev : Evaluator Ctx) where
  -- The first arguments have these values, and the others are left.
  pub data Evaluated : CellPtr → Runtime Ctx → List CellPtr → CellPtr → Runtime Ctx → Type 0 where
    none_yet : {args : CellPtr} {rt : Runtime Ctx} → Evaluated args rt [] args rt
    one_more :
        {r : _} {c : _} {next rest v : CellPtr} {vs : List CellPtr} {rt rt1 rt2 : Runtime Ctx}
        → ev plain (node r c next) rt ≡ done v rt1
        → Evaluated next rt1 vs rest rt2
        → Evaluated (node r c next) rt (v ∷ vs) rest rt2
