-- ===== src/Rt/Eval/Results.antt =====
-- The kinds of value that the builtins return, for the nuclei on numbers, strings, types and truth.
use akx.Base.{arith, ℕ}
use akx.Base.Int.{ℤ, pos, IsInt, wrap-IsInt}
use akx.Base.Text.{Bytes}
use akx.Cell.{CellPtr, null, node}
use akx.Nucleus.Numbers.{add_loop, add, mul_loop, mul, sub, akx_div, akx_mod}
use akx.Nucleus.Reals.{real_loop, real_add, real_sub, real_mul, real_div_loop, real_div, real_mod}
use akx.Nucleus.Strings.{concat_args, str_concat_impl}
use akx.Rt.{Env, Evaluator}
use akx.Rt.Eval.Kinds.{
  an_int, a_real, a_string, Gives, Gives-fail, Gives-bind, Gives-if, Gives-int, Gives-real,
  Gives-string,
}

zero_fits : IsInt (pos 0)
zero_fits = omega arith

one_fits : IsInt (pos 1)
one_fits = omega arith

module _ {Ctx : Type 0} (env : Env Ctx) (ev : Evaluator Ctx) where
  add_loop-Gives : (args : CellPtr) (sum : ℤ) → IsInt sum → Gives an_int (add_loop ev args sum)
  unfolding add_loop
  add_loop-Gives null sum h = search (Gives-int)
  add_loop-Gives (node r c next) sum h =
      search (Gives-bind, wrap-IsInt, add_loop-Gives next) depth 14

  pub add-Gives : (args : CellPtr) → Gives an_int (add ev args)
  unfolding add
  add-Gives args = search (Gives-if, Gives-fail, add_loop-Gives, zero_fits) depth 14

  mul_loop-Gives :
      (args : CellPtr) (product : ℤ) → IsInt product → Gives an_int (mul_loop ev args product)
  unfolding mul_loop
  mul_loop-Gives null product h = search (Gives-int)
  mul_loop-Gives (node r c next) product h =
      search (Gives-bind, wrap-IsInt, mul_loop-Gives next) depth 14

  pub mul-Gives : (args : CellPtr) → Gives an_int (mul ev args)
  unfolding mul
  mul-Gives args = search (Gives-if, Gives-fail, mul_loop-Gives, one_fits) depth 14

  pub sub-Gives : (args : CellPtr) → Gives an_int (sub ev args)
  unfolding sub
  sub-Gives args = search (Gives-if, Gives-fail, Gives-bind, Gives-int, wrap-IsInt) depth 14

  pub akx_div-Gives : (args : CellPtr) → Gives an_int (akx_div ev args)
  unfolding akx_div
  akx_div-Gives args = search (Gives-if, Gives-fail, Gives-bind, Gives-int, wrap-IsInt) depth 14

  pub akx_mod-Gives : (args : CellPtr) → Gives an_int (akx_mod ev args)
  unfolding akx_mod
  akx_mod-Gives args = search (Gives-if, Gives-fail, Gives-bind, Gives-int, wrap-IsInt) depth 14

  real_loop-Gives :
      (message : Bytes) (op : ℕ → ℕ → ℕ) (args : CellPtr) (acc : ℕ)
      → Gives a_real (real_loop message op ev args acc)
  unfolding real_loop
  real_loop-Gives message op null acc = search (Gives-real)
  real_loop-Gives message op (node r c next) acc =
      search (Gives-bind, real_loop-Gives message op next) depth 14

  real_div_loop-Gives : (args : CellPtr) (acc : ℕ) → Gives a_real (real_div_loop env ev args acc)
  unfolding real_div_loop
  real_div_loop-Gives null acc = search (Gives-real)
  real_div_loop-Gives (node r c next) acc =
      search (Gives-bind, Gives-if, Gives-fail, real_div_loop-Gives next) depth 14

  pub real_add-Gives : (args : CellPtr) → Gives a_real (real_add env ev args)
  unfolding real_add
  real_add-Gives args = search (Gives-if, Gives-fail, Gives-bind, real_loop-Gives) depth 14

  pub real_sub-Gives : (args : CellPtr) → Gives a_real (real_sub env ev args)
  unfolding real_sub
  real_sub-Gives args = search (Gives-if, Gives-fail, Gives-bind, real_loop-Gives) depth 14

  pub real_mul-Gives : (args : CellPtr) → Gives a_real (real_mul env ev args)
  unfolding real_mul
  real_mul-Gives args = search (Gives-if, Gives-fail, Gives-bind, real_loop-Gives) depth 14

  pub real_div-Gives : (args : CellPtr) → Gives a_real (real_div env ev args)
  unfolding real_div
  real_div-Gives args = search (Gives-if, Gives-fail, Gives-bind, real_div_loop-Gives) depth 14

  pub real_mod-Gives : (args : CellPtr) → Gives a_real (real_mod env ev args)
  unfolding real_mod
  real_mod-Gives args = search (Gives-if, Gives-fail, Gives-bind, Gives-real) depth 14

  concat_args-Gives :
      (args : CellPtr) (result_str : Bytes) → Gives a_string (concat_args ev args result_str)
  unfolding concat_args
  concat_args-Gives null result_str = search (Gives-string)
  concat_args-Gives (node r c next) result_str =
      search (Gives-bind, concat_args-Gives next) depth 14

  pub str_concat_impl-Gives : (args : CellPtr) → Gives a_string (str_concat_impl ev args)
  unfolding str_concat_impl
  str_concat_impl-Gives args = search (Gives-if, Gives-fail, concat_args-Gives) depth 14
