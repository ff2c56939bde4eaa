-- ===== src/Nucleus/Strings/Runs.antt =====
-- `str/+` keeps what each step keeps, and does not depend on the fuel.
use akx.Base.Text.{Bytes}
use akx.Cell.{CellPtr, null, node}
use akx.Rt.{Runtime, Env, Evaluator}
use akx.Rt.Within.{IsKept, Runs, Agrees, Runs-pure, Runs-bind, Runs-if, Runs-fail, Runs-assert}
use akx.Nucleus.Strings.{concat_args, str_concat_impl}

module _ {Ctx : Type 0} {env : Env Ctx} {R : Runtime Ctx → Runtime Ctx → Type 0}
    (kept : IsKept env R) (ev ev' : Evaluator Ctx) (same : Agrees R ev ev') where
  concat_args-Runs :
      (args : CellPtr) (text : Bytes)
      → Runs R (concat_args ev args text) (concat_args ev' args text)
  unfolding concat_args
  concat_args-Runs null text = search (Runs-pure kept)
  concat_args-Runs (node r c next) text =
      search (Runs-bind kept, Runs-assert kept, same, concat_args-Runs next) depth 14

  pub str_concat_impl-Runs :
      (args : CellPtr) → Runs R (str_concat_impl ev args) (str_concat_impl ev' args)
  unfolding str_concat_impl
  str_concat_impl-Runs args = search (Runs-if kept, Runs-fail kept, concat_args-Runs) depth 14
