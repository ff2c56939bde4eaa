-- ===== src/Nucleus/Fs/Handles/Scopes.antt =====
-- File handles and the scopes that they are kept in.
use akx.Base.{
  ℕ, zero, suc, ◌≡◌, refl, ap, ◌∙◌, true, false, List, [], ◌∷◌, ◌++◌, Option, none, some, get_elem?,
  set, length,
}
use akx.Base.Int.{ℤ, pos, ltb_ℤ}
use akx.Base.Text.{Bytes}
use akx.Cell.{CellPtr, integer_literal, alloc_cell}
use akx.Nucleus.Fs.Handles.{fid_to_key, at_address, with_handle, close_handle}
use akx.Rt.{
  Runtime, Env, M, aborted, done, ◌>>=◌, ◌>>◌, pure, asks, modify, with_system, sys_call, abort,
  set_handle_at, scoped, pop_after, push_scope, pop_scope,
}
use akx.System.{FileHandle, fclose}

-- What `ak_context_t` promises of a name that is bound to a handle.
pub record HoldsHandles {Ctx : Type 0} (env : Env Ctx) : Type 0 where
  pub get-set :
      (c : Ctx) (key : Bytes) (h : Option ℕ) → env.get_handle (env.set_handle c key h) key ≡ h
  pub get-push : (c : Ctx) (key : Bytes) → env.get_handle (env.push c) key ≡ env.get_handle c key
  -- a name that was bound in the inner scope alone
  pub get-pop :
      (c : Ctx) (key : Bytes) (h : Option ℕ)
      → env.get_handle (env.pop (env.set_handle (env.push c) key h)) key ≡ env.get_handle c key

get_elem?-append_last {ℓ} :
    {A : Type ℓ} (xs : List A) (x : A) → get_elem? (xs ++ x ∷ []) (length xs) ≡ some x
get_elem?-append_last [] x = refl
get_elem?-append_last (y ∷ xs) x = get_elem?-append_last xs x

pub get_elem?-set_self {ℓ} :
    {A : Type ℓ} (xs : List A) (i : ℕ) (x y : A)
    → get_elem? xs i ≡ some y
    → get_elem? (set xs i x) i ≡ some x
get_elem?-set_self [] i x y h = cc
get_elem?-set_self (z ∷ xs) zero x y h = refl
get_elem?-set_self (z ∷ xs) (suc i) x y h = get_elem?-set_self xs i x y h

module _ {Ctx : Type 0} {env : Env Ctx} (laws : HoldsHandles env) where
  -- The number stands for an open handle at this address.
  pub record IsOpen (rt : Runtime Ctx) (fid : ℤ) (h : ℕ) (handle : FileHandle) : Type 0 where
    pub not_negative : ltb_ℤ fid (pos 0) ≡ false
    pub bound : env.get_handle rt.current_context (fid_to_key fid) ≡ some h
    pub live : get_elem? rt.system.handles h ≡ some (some handle)

  -- The state behind `fs/close`.
  abbrev pub closed : ℤ → ℕ → FileHandle → Runtime Ctx → Runtime Ctx
  closed fid h handle rt = record rt {
    system = record (rt.system) {
      calls = fclose handle.fp ∷ rt.system.calls;
      handles = set rt.system.handles h none;
    };
    current_context = env.set_handle rt.current_context (fid_to_key fid) none;
  }

  pub close-closed :
      (name : Bytes) (fid : ℤ) (h : ℕ) (handle : FileHandle) (rt : Runtime Ctx)
      → IsOpen rt fid h handle
      → with_handle env name fid (close_handle env fid) rt
        ≡ done (alloc_cell (integer_literal (pos 1))) (closed fid h handle rt)
  unfolding with_handle at_address close_handle asks ◌>>◌ ◌>>=◌ pure with_system sys_call
      set_handle_at modify
  close-closed name fid h handle rt o = rw (o.not_negative, o.bound, o.live) refl

  -- The state behind the scope in which `fs/close` was called.
  abbrev closed_inside_state : ℤ → ℕ → FileHandle → Runtime Ctx → Runtime Ctx
  closed_inside_state fid h handle rt = pop_scope env (closed fid h handle (push_scope env rt))

  -- A handle of an outer scope that is closed in an inner one, such as in a lambda: its number still
  -- names it in the outer scope, and any use of it there reads the freed handle.
  pub closed_inside :
      (name name' : Bytes) (act : ℕ → FileHandle → M Ctx CellPtr) (fid : ℤ) (h : ℕ)
      (handle : FileHandle) (rt : Runtime Ctx)
      → IsOpen rt fid h handle
      → (rt' rt'' : Runtime Ctx) × (scoped env (with_handle env name fid (close_handle env fid)) rt
          ≡ done (alloc_cell (integer_literal (pos 1))) rt')
        × (with_handle env name' fid act rt' ≡ aborted rt'')
        × (rt''.system.bad_access ≡ true)
  unfolding with_handle at_address asks ◌>>◌ ◌>>=◌ with_system abort scoped
  closed_inside name name' act fid h handle rt o =
      let inner : IsOpen (push_scope env rt) fid h handle = record {
        not_negative = o.not_negative;
        bound = laws.get-push rt.current_context (fid_to_key fid) ∙ o.bound;
        live = o.live;
      } in
      let state = closed_inside_state fid h handle rt in
      (
        state,
        record state { system = record (state.system) { bad_access = true } },
        ap (pop_after env) (close-closed name fid h handle (push_scope env rt) inner),
        rw
            (
              o.not_negative,
              laws.get-pop rt.current_context (fid_to_key fid) none,
              o.bound,
              get_elem?-set_self rt.system.handles h none (some handle) o.live,
            )
            refl,
        refl,
      )
