-- ===== src/Nucleus/Logic/ShortCircuit.antt =====
-- `and` and `or` stop at the first argument that decides.
use akx.Base.{not, ◌≡◌, refl, Bool, true, false, List, [], ◌∷◌, ltb}
use akx.Cell.{CellPtr, null, node, truth}
use akx.Cell.Chain.{list_length}
use akx.Nucleus.Args.{Evaluated, none_yet, one_more}
use akx.Nucleus.Core.{is_one}
use akx.Nucleus.Logic.{and_loop, and_impl, or_loop, or_impl}
use akx.Rt.{Runtime, Evaluator, plain, done, ◌>>=◌, pure}

-- Every value answers the test `is_one` with `b`.
abbrev pub AllAnswer : Bool → List CellPtr → Type 0
AllAnswer b [] = Unit
AllAnswer b (v ∷ vs) = (is_one v ≡ b) × AllAnswer b vs

-- How a chain of tests ends that goes on while the answer is `b`: with `b` if every value answers
-- so, and else with the other answer, in the state that the first value with it left.
pub data Answers {Ctx : Type 0} (ev : Evaluator Ctx) (b : Bool)
    : CellPtr → Runtime Ctx → Bool → Runtime Ctx → Type 0 where
  all_answer :
      {args : CellPtr} {rt rt' : Runtime Ctx} (vs : List CellPtr)
      → Evaluated ev args rt vs null rt'
      → AllAnswer b vs
      → Answers ev b args rt b rt'
  stops_at :
      {r : _} {c : _} {args next v : CellPtr} {rt rt1 rt2 : Runtime Ctx} (vs : List CellPtr)
      → Evaluated ev args rt vs (node r c next) rt1
      → AllAnswer b vs
      → ev plain (node r c next) rt1 ≡ done v rt2
      → is_one v ≡ not b
      → Answers ev b args rt (not b) rt2

module _ {Ctx : Type 0} (ev : Evaluator Ctx) where
  and_loop_prefix :
      {args : CellPtr} {rt rt' : Runtime Ctx} {vs : List CellPtr} {rest : CellPtr}
      → Evaluated ev args rt vs rest rt'
      → AllAnswer true vs
      → and_loop ev args rt ≡ and_loop ev rest rt'
  unfolding and_loop ◌>>=◌
  and_loop_prefix none_yet h = refl
  and_loop_prefix (one_more e more) (h, hs) = rw (e, h) (and_loop_prefix more hs)

  or_loop_prefix :
      {args : CellPtr} {rt rt' : Runtime Ctx} {vs : List CellPtr} {rest : CellPtr}
      → Evaluated ev args rt vs rest rt'
      → AllAnswer false vs
      → or_loop ev args rt ≡ or_loop ev rest rt'
  unfolding or_loop ◌>>=◌
  or_loop_prefix none_yet h = refl
  or_loop_prefix (one_more e more) (h, hs) = rw (e, h) (or_loop_prefix more hs)

  -- `and` with two arguments or more is true if every argument is, and false in the state that the
  -- first argument which is not 1 left: those behind it are not evaluated.
  and_impl_lem :
      (args : CellPtr) (rt rt' : Runtime Ctx) (b : Bool)
      → ltb (list_length args) 2 ≡ false
      → Answers ev true args rt b rt'
      → and_impl ev args rt ≡ done (truth b) rt'
  unfolding and_impl and_loop ◌>>=◌ pure
  and_impl_lem args rt rt' b l (all_answer vs e h) = rw l (and_loop_prefix e h)
  and_impl_lem args rt rt' b l (stops_at vs e h is not_one) =
      rw (l, and_loop_prefix e h, is, not_one) refl

  -- `or` with two arguments or more is false if no argument is 1, and true in the state that the
  -- first argument which is 1 left: those behind it are not evaluated.
  or_impl_lem :
      (args : CellPtr) (rt rt' : Runtime Ctx) (b : Bool)
      → ltb (list_length args) 2 ≡ false
      → Answers ev false args rt b rt'
      → or_impl ev args rt ≡ done (truth b) rt'
  unfolding or_impl or_loop ◌>>=◌ pure
  or_impl_lem args rt rt' b l (all_answer vs e h) = rw l (or_loop_prefix e h)
  or_impl_lem args rt rt' b l (stops_at vs e h is is_true) =
      rw (l, or_loop_prefix e h, is, is_true) refl
