-- ===== src/Nucleus/Iter/Runs.antt =====
-- `iter` keeps what each step keeps, and does not depend on the fuel.
use akx.Base.{ℕ, zero, suc, List, [], ◌∷◌}
use akx.Base.Text.{Bytes}
use akx.Cell.{CellPtr, null, node, string_literal, integer_literal, real_literal, list}
use akx.Nucleus.Iter.{
  transform_list, iter_list, iter_chars, iter_string, iter_bits, iter_integer, iter_real,
  iter_value, iter_impl,
}
use akx.Rt.{Runtime, Env, M, Evaluator}
use akx.Rt.Within.{IsKept, Runs, Agrees, Runs-pure, Runs-bind, Runs-if, Runs-fail, Runs-abort}

module _ {Ctx : Type 0} {env : Env Ctx} {R : Runtime Ctx → Runtime Ctx → Type 0}
    (kept : IsKept env R) (call call' : CellPtr → CellPtr → M Ctx CellPtr)
    (calls : (l args : CellPtr) → Runs R (call l args) (call' l args)) where
  transform_list-Runs :
      (l tail items : CellPtr)
      → Runs R (transform_list call l tail items) (transform_list call' l tail items)
  unfolding transform_list
  transform_list-Runs l tail null = Runs-pure kept _
  transform_list-Runs l tail (node r c next) = Runs-bind kept (calls l _) λ t.
      Runs-if kept _ (Runs-abort kept)
        (Runs-bind kept (transform_list-Runs l t next) λ ts. Runs-pure kept _)

  iter_list-Runs : (items l : CellPtr) → Runs R (iter_list call items l) (iter_list call' items l)
  unfolding iter_list
  iter_list-Runs items l = Runs-bind kept (transform_list-Runs l null items) λ ts. Runs-pure kept _

  iter_chars-Runs :
      (l : CellPtr) (chars : List Bytes) (result : Bytes)
      → Runs R (iter_chars call l chars result) (iter_chars call' l chars result)
  unfolding iter_chars
  iter_chars-Runs l [] result = Runs-pure kept _
  iter_chars-Runs l (c ∷ chars) result = Runs-bind kept (calls l _) λ t. iter_chars-Runs l chars _

  iter_bits-Runs :
      (l : CellPtr) (bits n p result : ℕ)
      → Runs R (iter_bits call l bits n p result) (iter_bits call' l bits n p result)
  unfolding iter_bits
  iter_bits-Runs l bits zero p result = Runs-pure kept _
  iter_bits-Runs l bits (suc n) p result =
      Runs-bind kept (calls l _) λ t. iter_bits-Runs l bits n (suc p) _

  iter_value-Runs : (p l : CellPtr) → Runs R (iter_value call p l) (iter_value call' p l)
  unfolding iter_value iter_string iter_integer iter_real
  iter_value-Runs (node _ (list _ head) _) l = iter_list-Runs head l
  iter_value-Runs (node _ (string_literal s) _) l = iter_chars-Runs l _ []
  iter_value-Runs (node _ (integer_literal i) _) l =
      Runs-bind kept (iter_bits-Runs l _ 32 0 0) λ r. Runs-pure kept _
  iter_value-Runs (node _ (real_literal x) _) l =
      Runs-bind kept (iter_bits-Runs l _ 64 0 0) λ r. Runs-pure kept _
  iter_value-Runs p l = Runs-fail kept _

  pub iter_impl-Runs :
      (ev ev' : Evaluator Ctx)
      → Agrees R ev ev'
      → (args : CellPtr) → Runs R (iter_impl call ev args) (iter_impl call' ev' args)
  unfolding iter_impl
  iter_impl-Runs ev ev' same args =
      search
        (Runs-if kept, Runs-fail kept, Runs-bind kept, Runs-pure kept, iter_value-Runs, same.agree)
        depth 12
