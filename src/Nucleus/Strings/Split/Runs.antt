-- ===== src/Nucleus/Strings/Split/Runs.antt =====
-- `str/split` keeps what each step keeps, and does not depend on the fuel.
use akx.Base.{[], ◌∷◌}
use akx.Base.Text.{Bytes}
use akx.Base.Int.{ℤ}
use akx.Cell.{CellPtr, node, symbol}
use akx.Nucleus.Strings.Split.{split_at, split_mode, str_split_impl}
use akx.Rt.{Runtime, Env, Evaluator}
use akx.Rt.Within.{IsKept, Runs, Agrees, Runs-pure, Runs-bind, Runs-if, Runs-fail, Runs-assert}

module _ {Ctx : Type 0} {env : Env Ctx} {R : Runtime Ctx → Runtime Ctx → Type 0}
    (kept : IsKept env R) (ev ev' : Evaluator Ctx) (same : Agrees R ev ev') where
  split_at-Runs :
      (text : Bytes) (idx : ℤ) → Runs R {A = CellPtr} (split_at text idx) (split_at text idx)
  unfolding split_at
  split_at-Runs text idx = Runs-if kept _ (Runs-fail kept _) (Runs-pure kept _)

  split_mode-Runs :
      (args : CellPtr) (text : Bytes) (mode : CellPtr)
      → Runs R (split_mode ev args text mode) (split_mode ev' args text mode)
  unfolding split_mode
  split_mode-Runs args text (node _ (symbol (c ∷ mode)) _) =
      search
        (
          Runs-if kept,
          Runs-fail kept,
          Runs-bind kept,
          Runs-assert kept,
          Runs-pure kept,
          split_at-Runs,
          same,
        )
        depth 14
  split_mode-Runs args text (node _ (symbol []) _) = Runs-fail kept _
  split_mode-Runs args text _ = Runs-fail kept _

  pub str_split_impl-Runs :
      (args : CellPtr) → Runs R (str_split_impl ev args) (str_split_impl ev' args)
  unfolding str_split_impl
  str_split_impl-Runs args =
      search (Runs-if kept, Runs-fail kept, Runs-bind kept, Runs-assert kept, split_mode-Runs, same)
        depth 14
