-- ===== src/Tests/Nuclei.antt =====
-- The theorems on the nuclei at concrete arguments, under small evaluators.
use akx.Base.{List, ◌<◌, arith, ◌≡◌, refl, [], ◌∷◌, Bool, true, false, ltb, ◌||◌, not, none}
use akx.Base.Int.{◌+ℤ◌, negsuc, quot, rem, eqb_ℤ, IsInt, ◌*ℤ◌, pos, wrap}
use akx.Base.Text.{HasNoNul, codes}
use akx.Cell.{
  Cell, string_literal, CellPtr, null, node, list, quoted, symbol, integer_literal, round,
  alloc_cell, truth,
}
use akx.Cell.Chain.{list_length, list_nth}
use akx.Nucleus.Args.{Evaluated, none_yet, one_more}
use akx.Nucleus.Compare.{lt_impl, lte_impl, gt_impl, gte_impl, eq_impl, neq_impl}
use akx.Nucleus.Compare.Orders.{one_of, orders_agree}
use akx.Nucleus.Lists.{cons_impl, car_impl, cdr_impl}
use akx.Nucleus.Lists.Pairs.{list_or_nil, car-cdr-cons}
use akx.Nucleus.Numbers.Division.{abs, div-mod}
use akx.Nucleus.Strings.{str_concat_impl}
use akx.Nucleus.Strings.Joined.{joined, str_concat_impl_lem}
use akx.Nucleus.Numbers.{akx_div, akx_mod, add, int_cell}
use akx.Nucleus.Numbers.Sum.{exact_sum, add_lem}
use akx.Rt.{Evaluator, plain, done}
use akx.State.{add_nucleus}
use akx.Rt.Builtins.{run_builtin}
use akx.Rt.Eval.Kinds.{an_int, IsOfKind}
use akx.Rt.Eval.Typed.{run_builtin-IsOfKind}
use akx.Tests.{Frames, frames_env, start_runtime, chain, sym, int}

-- Integers evaluate to themselves, and a quoted cell to the list (7).
abbrev values : Evaluator Frames
values mode (node r (integer_literal i) next) rt = done (node none (integer_literal i) null) rt
values mode (node r _ next) rt = done (alloc_cell (list round (chain (int 7 ∷ [])))) rt
values mode null rt = done null rt

abbrev two_numbers : CellPtr
two_numbers = chain (int 2147483647 ∷ int 1 ∷ [])

two_Evaluated :
    Evaluated values two_numbers start_runtime
      (alloc_cell (int 2147483647) ∷ alloc_cell (int 1) ∷ [])
      null
      start_runtime
two_Evaluated = one_more refl (one_more refl none_yet)

two_long : ltb (list_length two_numbers) 2 ≡ false
unfolding list_length
two_long = refl

add_lem_example :
    add values two_numbers start_runtime
    ≡ done
        (int_cell (wrap (exact_sum (alloc_cell (int 2147483647) ∷ alloc_cell (int 1) ∷ []))))
        start_runtime
add_lem_example =
    add_lem values two_numbers start_runtime start_runtime
      (alloc_cell (int 2147483647) ∷ alloc_cell (int 1) ∷ []) two_long two_Evaluated
      (refl, (refl, tt))

orders_agree_example :
    (less same more : Bool) × (one_of less same more ≡ true)
    × (lt_impl frames_env values two_numbers start_runtime ≡ done (truth less) start_runtime)
    × (eq_impl frames_env values two_numbers start_runtime ≡ done (truth same) start_runtime)
    × (gt_impl frames_env values two_numbers start_runtime ≡ done (truth more) start_runtime)
    × (lte_impl frames_env values two_numbers start_runtime
        ≡ done (truth (less || same)) start_runtime)
    × (gte_impl frames_env values two_numbers start_runtime
        ≡ done (truth (more || same)) start_runtime)
    × (neq_impl frames_env values two_numbers start_runtime ≡ done (truth (not same)) start_runtime)
orders_agree_example =
    orders_agree frames_env values two_numbers none none none none (int 2147483647) (int 1) null
      null (pos 2147483647) (pos 1) start_runtime start_runtime start_runtime refl refl refl

-- (cons 3 '(7)), and a cell whose value is what it gives
abbrev cons_args : CellPtr
cons_args = chain (int 3 ∷ quoted (codes "(7)") ∷ [])

abbrev consed : CellPtr
consed = alloc_cell (list round (node none (int 3) (chain (int 7 ∷ []))))

abbrev gives_consed : Evaluator Frames
gives_consed mode (node r (symbol s) next) rt = done consed rt
gives_consed mode p rt = values mode p rt

abbrev car_args : CellPtr
car_args = chain (sym (codes "x") ∷ [])

cons_length : list_length cons_args ≡ 2
unfolding list_length
cons_length = refl

car_length : list_length car_args ≡ 1
unfolding list_length
car_length = refl

cons_first :
    gives_consed plain (list_nth cons_args 0) start_runtime
    ≡ done (alloc_cell (int 3)) start_runtime
unfolding list_nth
cons_first = refl

cons_second :
    gives_consed plain (list_nth cons_args 1) start_runtime
    ≡ done (alloc_cell (list round (chain (int 7 ∷ [])))) start_runtime
unfolding list_nth
cons_second = refl

car_first : gives_consed plain (list_nth car_args 0) start_runtime ≡ done consed start_runtime
unfolding list_nth
car_first = refl

car-cdr-cons_example :
    (cons_impl gives_consed cons_args start_runtime ≡ done consed start_runtime)
    × (car_impl gives_consed car_args start_runtime ≡ done (alloc_cell (int 3)) start_runtime)
    × (cdr_impl gives_consed car_args start_runtime
        ≡ done (list_or_nil (chain (int 7 ∷ []))) start_runtime)
car-cdr-cons_example =
    car-cdr-cons gives_consed cons_args car_args start_runtime start_runtime start_runtime
      start_runtime start_runtime none none (int 3) null null (chain (int 7 ∷ [])) round cons_length
      cons_first cons_second car_length car_first

add_wrapped :
    run_builtin frames_env 0 values add_nucleus two_numbers start_runtime
    ≡ done (int_cell (negsuc 2147483647)) start_runtime
unfolding run_builtin add list_length akx.Rt.◌>>=◌ akx.Rt.eval_and_assert wrap ◌+ℤ◌
add_wrapped = refl

run_builtin-IsOfKind_example : IsOfKind an_int (int_cell (negsuc 2147483647))
run_builtin-IsOfKind_example =
    run_builtin-IsOfKind frames_env 0 values two_numbers add_nucleus an_int
      (int_cell (negsuc 2147483647)) start_runtime start_runtime refl add_wrapped

-- (/ -7 2) and (% -7 2)
abbrev minus_seven : Cell
minus_seven = integer_literal (negsuc 6)

abbrev division_args : CellPtr
division_args = chain (minus_seven ∷ int 2 ∷ [])

two_not_zero : eqb_ℤ (pos 2) (pos 0) ≡ false
two_not_zero = refl

quotient_fits : IsInt (quot (negsuc 6) (pos 2))
unfolding quot
quotient_fits = omega arith

div-mod_example :
    (akx_div values division_args start_runtime
      ≡ done (int_cell (quot (negsuc 6) (pos 2))) start_runtime)
    × (akx_mod values division_args start_runtime
        ≡ done (int_cell (rem (negsuc 6) (pos 2))) start_runtime)
    × (quot (negsuc 6) (pos 2) *ℤ pos 2 +ℤ rem (negsuc 6) (pos 2) ≡ negsuc 6)
    × (abs (rem (negsuc 6) (pos 2)) < abs (pos 2))
div-mod_example =
    div-mod values division_args none none none none minus_seven (int 2) null null (negsuc 6)
      (pos 2) start_runtime start_runtime start_runtime refl refl refl (omega arith) two_not_zero
      quotient_fits

-- Strings evaluate to themselves; the second one has a NUL inside.
abbrev texts : Evaluator Frames
texts mode (node r c next) rt = done (node none c null) rt
texts mode null rt = done null rt

abbrev two_texts : CellPtr
two_texts = chain (string_literal (codes "ab") ∷ string_literal (b'c' ∷ 0 ∷ b'd' ∷ []) ∷ [])

abbrev two_values : List CellPtr
two_values =
    alloc_cell (string_literal (codes "ab"))
    ∷ alloc_cell (string_literal (b'c' ∷ 0 ∷ b'd' ∷ []))
    ∷ []

texts_long : ltb (list_length two_texts) 1 ≡ false
unfolding list_length
texts_long = refl

str_concat_impl_lem_example :
    (str_concat_impl texts two_texts start_runtime
      ≡ done (alloc_cell (string_literal (joined two_values))) start_runtime)
    × HasNoNul (joined two_values)
str_concat_impl_lem_example =
    str_concat_impl_lem texts two_texts start_runtime start_runtime two_values texts_long
      (one_more refl (one_more refl none_yet)) (refl, (refl, tt))
