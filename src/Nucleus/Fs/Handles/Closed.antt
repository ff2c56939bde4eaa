-- ===== src/Nucleus/Fs/Handles/Closed.antt =====
-- A file handle that was closed, in the states behind that.
use akx.Base.{ℕ, ◌≡◌, ◌≢◌, refl, ap, ◌∙◌, sym, ◌∷◌, ◌++◌, Option, none, some, get_elem?}
use akx.Base.Int.{ℤ, pos}
use akx.Base.Text.{Bytes, codes}
use akx.Cell.{CellPtr, integer_literal, alloc_cell}
use akx.Nucleus.Fs.Handles.{fid_to_key, with_handle, keep_handle, close_handle}
use akx.Nucleus.Fs.Handles.Scopes.{HoldsHandles, IsOpen, closed, close-closed, get_elem?-set_self}
use akx.Nucleus.Putf.{signed_decimal}
use akx.Rt.{
  Runtime, Env, M, Outcome, timeout, failed, aborted, done, ◌>>=◌, ◌>>◌, pure, fail, asks, modify,
  with_system, sys_call, set_handle_at, scope_set, add_error, rt_error, return_null,
}
use akx.System.{FileHandle, fclose}

-- What `ak_context_t` promises of a name that is bound to a handle when another name is bound.
pub record KeepsHandles {Ctx : Type 0} (env : Env Ctx) : Type 0 where
  pub get-set_other :
      (c : Ctx) (key other : Bytes) (h : Option ℕ)
      → other ≢ key
      → env.get_handle (env.set_handle c other h) key ≡ env.get_handle c key
  pub get-set_value :
      (c : Ctx) (key other : Bytes) (value : CellPtr)
      → other ≢ key
      → env.get_handle (env.set c other value) key ≡ env.get_handle c key

module _ {Ctx : Type 0} (env : Env Ctx) where
  -- What may run in a scope behind a state: `fs/open`, which gives out other numbers, `fs/close` of
  -- other numbers, bindings of other names, and whatever leaves the scopes as they were, such as
  -- `fs/read`, `fs/write`, an error, or a call.
  pub data Later (fid : ℤ) (rt : Runtime Ctx) : Runtime Ctx → Type 0 where
    now : Later fid rt rt
    opens :
        (rt1 : Runtime Ctx) {rt2 : Runtime Ctx} (handle : FileHandle) (p : CellPtr)
        → Later fid rt rt1
        → fid_to_key rt1.system.next_fid ≢ fid_to_key fid
        → keep_handle env handle rt1 ≡ done p rt2
        → Later fid rt rt2
    closes :
        (rt1 : Runtime Ctx) {rt2 : Runtime Ctx} (other : ℤ) (h : ℕ) (handle : FileHandle)
        (p : CellPtr)
        → Later fid rt rt1
        → fid_to_key other ≢ fid_to_key fid
        → close_handle env other h handle rt1 ≡ done p rt2
        → Later fid rt rt2
    binds :
        (rt1 : Runtime Ctx) {rt2 : Runtime Ctx} (name : Bytes) (value : CellPtr)
        → Later fid rt rt1
        → name ≢ fid_to_key fid
        → scope_set env name value rt1 ≡ done tt rt2
        → Later fid rt rt2
    stays :
        (rt1 : Runtime Ctx) {rt2 : Runtime Ctx}
        → Later fid rt rt1
        → rt2.current_context ≡ rt1.current_context
        → Later fid rt rt2

abbrev context_after : {Ctx A : Type 0} → Outcome Ctx A → Ctx → Ctx
context_after timeout c = c
context_after (failed rt) c = rt.current_context
context_after (aborted rt) c = rt.current_context
context_after (done a rt) c = rt.current_context

module _ {Ctx : Type 0} {env : Env Ctx} (laws : HoldsHandles env) (others : KeepsHandles env) where
  -- The name of a number stays unbound.
  Later-unbound :
      (fid : ℤ) {rt rt' : Runtime Ctx}
      → env.get_handle rt.current_context (fid_to_key fid) ≡ none
      → Later env fid rt rt'
      → env.get_handle rt'.current_context (fid_to_key fid) ≡ none
  unfolding keep_handle close_handle scope_set set_handle_at with_system sys_call modify ◌>>=◌ ◌>>◌
      pure
  Later-unbound fid e now = e
  Later-unbound fid e (opens rt1 handle p l ne ran) =
      let same = ap (λ o. context_after o rt1.current_context) ran in
      ap (λ c. env.get_handle c (fid_to_key fid)) (sym same)
      ∙ others.get-set_other rt1.current_context (fid_to_key fid) _ _ ne
      ∙ Later-unbound fid e l
  Later-unbound fid e (closes rt1 other h handle p l ne ran) =
      let same = ap (λ o. context_after o rt1.current_context) ran in
      ap (λ c. env.get_handle c (fid_to_key fid)) (sym same)
      ∙ others.get-set_other rt1.current_context (fid_to_key fid) _ _ ne
      ∙ Later-unbound fid e l
  Later-unbound fid e (binds rt1 name value l ne ran) =
      let same = ap (λ o. context_after o rt1.current_context) ran in
      ap (λ c. env.get_handle c (fid_to_key fid)) (sym same)
      ∙ others.get-set_value rt1.current_context (fid_to_key fid) name value ne
      ∙ Later-unbound fid e l
  Later-unbound fid e (stays rt1 l same) =
      ap (λ c. env.get_handle c (fid_to_key fid)) same ∙ Later-unbound fid e l

  -- A handle that is closed in the scope that it is kept in: `fclose` is called once and the handle is
  -- freed; and in each state that is reached from there in this scope by opening files under other
  -- numbers, closing other numbers, binding other names and steps that leave the scopes as they
  -- were, a use of its number is an error that touches no handle.
  pub closed_here :
      (name name' : Bytes) (act : ℕ → FileHandle → M Ctx CellPtr) (fid : ℤ) (h : ℕ)
      (handle : FileHandle) (rt rt' : Runtime Ctx)
      → IsOpen laws rt fid h handle
      → Later env fid (closed laws fid h handle rt) rt'
      → (with_handle env name fid (close_handle env fid) rt
          ≡ done (alloc_cell (integer_literal (pos 1))) (closed laws fid h handle rt))
        × ((closed laws fid h handle rt).system.calls ≡ fclose handle.fp ∷ rt.system.calls)
        × (get_elem? (closed laws fid h handle rt).system.handles h ≡ some none)
        × (with_handle env name' fid act rt'
            ≡ failed
                (add_error none (name' ++ (codes ": invalid file ID " ++ signed_decimal fid)) rt'))
  unfolding with_handle asks fail rt_error return_null modify ◌>>◌ ◌>>=◌
  closed_here name name' act fid h handle rt rt' o later = (
    close-closed laws name fid h handle rt o,
    refl,
    get_elem?-set_self rt.system.handles h none (some handle) o.live,
    rw
        (
          o.not_negative,
          Later-unbound fid (laws.get-set rt.current_context (fid_to_key fid) none) later,
        )
        refl,
  )
