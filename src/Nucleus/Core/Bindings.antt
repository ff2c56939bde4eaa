-- ===== src/Nucleus/Core/Bindings.antt =====
-- `let`, `set` and symbols, over what `ak_context_t` promises of a key.
use akx.Base.{ℕ, suc, ◌≡◌, ◌≢◌, refl, true, false, ◌++◌}
use akx.Base.Text.{Bytes, codes}
use akx.Cell.{Cell, CellPtr, SourceRange, node, symbol, lambda}
use akx.Base.{Option, none}
use akx.Cell.Chain.{list_nth}
use akx.Cell.Clone.{clone_lem}
use akx.Cell.Free.{cell_lambdas}
use akx.Nucleus.Core.{
  let_impl, let_named, bind_value, set_impl, set_named, free_lambdas, free_cell, assign_value,
}
use akx.Rt.{
  Env, Runtime, Evaluator, plain, done, failed, ◌>>=◌, ◌>>◌, pure, fail, asks, modify, scope_set,
  return_null, rt_error, add_error,
}
use akx.Rt.Eval.{eval, eval_step, eval_symbol}

-- The documented behaviour of `ak_context_set`, `_get`, `_has_local` and `_has`.
pub record HasKeys {Ctx : Type 0} (env : Env Ctx) : Type 0 where
  pub get-set :
      (c : Ctx) (key : Bytes) (value : CellPtr) → env.get (env.set c key value) key ≡ value
  pub get-set_other :
      (c : Ctx) (key other : Bytes) (value : CellPtr)
      → other ≢ key
      → env.get (env.set c key value) other ≡ env.get c other
  pub has_local-set :
      (c : Ctx) (key : Bytes) (value : CellPtr) → env.has_local (env.set c key value) key ≡ true
  pub get-assign :
      (c : Ctx) (key : Bytes) (value : CellPtr)
      → env.has c key ≡ true
      → env.get (env.assign c key value) key ≡ value

module _ {Ctx : Type 0} {env : Env Ctx} (laws : HasKeys env) where
  -- The state after `let` or a parameter bound a name.
  abbrev pub bound : Bytes → CellPtr → Runtime Ctx → Runtime Ctx
  bound name value rt = record rt { current_context = env.set rt.current_context name value }

  -- The state after `set`, with the lambdas of the old value freed.
  abbrev pub assigned : Bytes → CellPtr → Runtime Ctx → Runtime Ctx
  assigned name value rt = record rt {
    current_context = env.assign rt.current_context name value;
    lambdas = free_lambdas env (cell_lambdas (env.get rt.current_context name)) rt.lambdas;
  }

  eval_symbol_lem :
      (expr : CellPtr) (name : Bytes) (q : Option SourceRange) (v : Cell) (n : CellPtr)
      → eval_symbol env expr name (node q v n) ≡ pure (node q v n)
  unfolding eval_symbol
  eval_symbol_lem expr name q (lambda l) n = refl
  eval_symbol_lem expr name q v n = rw (clone_lem (node q v n)) refl

  symbol_lem :
      (f : ℕ) (r : Option SourceRange) (name : Bytes) (next : CellPtr) (q : Option SourceRange)
      (v : Cell) (n : CellPtr) (rt : Runtime Ctx)
      → env.get rt.current_context name ≡ node q v n
      → eval env (suc f) plain (node r (symbol name) next) rt ≡ done (node q v n) rt
  unfolding eval eval_step asks pure
  symbol_lem f r name next q v n rt e =
      rw (e, eval_symbol_lem (node r (symbol name) next) name q v n) refl

  -- A `let` of a name that the current scope does not have, with a value that evaluates: it gives
  -- the value, and in the state after it the name evaluates to the value, another name is found as
  -- before, and another `let` of the name fails.
  pub let_impl_lem :
      (ev : Evaluator Ctx) (f : ℕ) (args value : CellPtr) (r s q : Option SourceRange)
      (name other : Bytes) (c v : Cell) (n next rest : CellPtr) (rt rt1 : Runtime Ctx)
      → list_nth args 0 ≡ node r (symbol name) next
      → list_nth args 1 ≡ node s c rest
      → env.has_local rt.current_context name ≡ false
      → ev plain (node s c rest) rt ≡ done (node q v n) rt1
      → other ≢ name
      → (rt2 : Runtime Ctx) × (let_impl env ev args rt ≡ done (node q v n) rt2)
        × (eval env (suc f) plain (node r (symbol name) next) rt2 ≡ done (node q v n) rt2)
        × (env.get rt2.current_context other ≡ env.get rt1.current_context other)
        × ((rt3 : Runtime Ctx) × (let_impl env ev args rt2 ≡ failed rt3))
  unfolding let_impl let_named bind_value scope_set asks modify pure fail rt_error return_null ◌>>=◌
      ◌>>◌
  let_impl_lem ev f args value r s q name other c v n next rest rt rt1 e0 e1 fresh ev_e apart = (
    bound name (node q v n) rt1,
    rw (e0, e1, fresh, ev_e, clone_lem (node q v n)) refl,
    symbol_lem f r name next q v n _ (laws.get-set rt1.current_context name (node q v n)),
    laws.get-set_other rt1.current_context name other (node q v n) apart,
    (
      add_error none (codes "let: symbol '" ++ (name ++ codes "' already defined in current scope"))
          (bound name (node q v n) rt1),
      rw (e0, laws.has_local-set rt1.current_context name (node q v n)) refl,
    ),
  )

  -- A `set` of a name that some scope has, with a value whose evaluation leaves it there: it gives
  -- the value, and the name then evaluates to it.
  set_impl_lem :
      (ev : Evaluator Ctx) (f : ℕ) (args : CellPtr) (r s q : Option SourceRange) (name : Bytes)
      (c v : Cell) (n next rest : CellPtr) (rt rt1 : Runtime Ctx)
      → list_nth args 0 ≡ node r (symbol name) next
      → list_nth args 1 ≡ node s c rest
      → env.has rt.current_context name ≡ true
      → ev plain (node s c rest) rt ≡ done (node q v n) rt1
      → env.has rt1.current_context name ≡ true
      → (rt2 : Runtime Ctx) × (set_impl env ev args rt ≡ done (node q v n) rt2)
        × (eval env (suc f) plain (node r (symbol name) next) rt2 ≡ done (node q v n) rt2)
  unfolding set_impl set_named assign_value free_cell asks modify pure ◌>>=◌ ◌>>◌
  set_impl_lem ev f args r s q name c v n next rest rt rt1 e0 e1 has ev_e still = (
    assigned name (node q v n) rt1,
    rw (e0, e1, has, ev_e, clone_lem (node q v n)) refl,
    symbol_lem f r name next q v n _ (laws.get-assign rt1.current_context name (node q v n) still),
  )
