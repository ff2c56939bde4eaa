-- ===== src/Nucleus/Numbers/Sum.antt =====
-- `+` adds any number of integers, and wraps around once.
use akx.Base.{◌≡◌, ◌∙◌, refl, ap, true, false, List, [], ◌∷◌, ltb, arith}
use akx.Base.Int.{ℤ, pos, ◌+ℤ◌, wrap, wrap_add, wrap_self, wrap-IsInt, int_laws, IsInt}
use akx.Cell.{CellPtr, null, type_eq, cell_get_type, cell_as_int, type_integer_literal}
use akx.Cell.Chain.{list_length}
use akx.Nucleus.Args.{Evaluated, none_yet, one_more}
use akx.Nucleus.Numbers.{add, add_loop, int_cell}
use akx.Rt.{Runtime, Evaluator, done, ◌>>=◌, pure, eval_and_assert}

abbrev pub AllInts : List CellPtr → Type 0
AllInts [] = Unit
AllInts (v ∷ vs) = (type_eq (cell_get_type v) type_integer_literal ≡ true) × AllInts vs

-- The sum in the integers, with no bound.
abbrev pub exact_sum : List CellPtr → ℤ
exact_sum [] = pos 0
exact_sum (v ∷ vs) = cell_as_int v +ℤ exact_sum vs

plus_zero : (a : ℤ) → a +ℤ pos 0 ≡ a
plus_zero a = grind int_laws

plus_assoc : (a b c : ℤ) → (a +ℤ b) +ℤ c ≡ a +ℤ (b +ℤ c)
plus_assoc a b c = grind int_laws

zero_plus : (a : ℤ) → pos 0 +ℤ a ≡ a
zero_plus a = grind int_laws

wrap_step : (acc v s : ℤ) → wrap (wrap (acc +ℤ v) +ℤ s) ≡ wrap (acc +ℤ (v +ℤ s))
wrap_step acc v s = wrap_add (acc +ℤ v) s ∙ ap wrap (plus_assoc acc v s)

module _ {Ctx : Type 0} (ev : Evaluator Ctx) where
  add_loop_lem :
      {args rest : CellPtr} {rt rt' : Runtime Ctx} {vs : List CellPtr} (acc : ℤ)
      → rest ≡ null
      → IsInt acc
      → Evaluated ev args rt vs rest rt'
      → AllInts vs
      → add_loop ev args acc rt ≡ done (int_cell (wrap (acc +ℤ exact_sum vs))) rt'
  unfolding add_loop ◌>>=◌ eval_and_assert pure
  add_loop_lem acc end int none_yet h = rw (end, plus_zero acc, wrap_self acc int)
  add_loop_lem acc end int (one_more {v} {vs} e more) (h, hs) =
      rw (e, h, ← wrap_step acc (cell_as_int v) (exact_sum vs))
        (add_loop_lem (wrap (acc +ℤ cell_as_int v)) end (wrap-IsInt _) more hs)

  -- `+` on two arguments or more whose values are integers: the result is the 32-bit integer that
  -- their exact sum wraps to, though the code wraps after every argument, in the state that the
  -- last argument left.
  pub add_lem :
      (args : CellPtr) (rt rt' : Runtime Ctx) (vs : List CellPtr)
      → ltb (list_length args) 2 ≡ false
      → Evaluated ev args rt vs null rt'
      → AllInts vs
      → add ev args rt ≡ done (int_cell (wrap (exact_sum vs))) rt'
  unfolding add add_loop
  add_lem args rt rt' vs l e h =
      rw (l, ← zero_plus (exact_sum vs)) (add_loop_lem (pos 0) refl (omega arith) e h)
