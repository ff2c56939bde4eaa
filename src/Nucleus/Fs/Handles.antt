-- ===== src/Nucleus/Fs/Handles.antt =====
-- nucleus/fs/open.c, close.c, seek.c and tell.c. A handle is kept in the scope that is
-- current at `fs/open`, under a name made of its number; `fs/close` clears that name in the scope
-- that is current then, which may be another one.
pub mod Runs
pub mod Scopes
pub mod Closed
use akx.Base.{
  ℕ, Bool, true, false, not, List, [], ◌∷◌, ◌++◌, Option, none, some, ◌==◌, ltb, leb, length, set,
  get_elem?, if◌then◌else◌,
}
use akx.Base.Int.{ℤ, pos, negsuc, ◌+ℤ◌, wrap, eqb_ℤ, ltb_ℤ}
use akx.Base.Text.{Bytes, codes, c_string, strcmp_eq, decimal}
use akx.Cell.{Cell, CellPtr, null, node, symbol, integer_literal, alloc_cell}
use akx.Nucleus.Files.{
  int_of, int_option, string_option, keyword_loop, unknown_keyword, actual_path,
}
use akx.Nucleus.Putf.{signed_decimal}
use akx.Rt.{
  Env, M, Evaluator, plain, ◌>>=◌, ◌>>◌, pure, fail, asks, with_system, sys_call, abort,
  set_handle_at,
}
use akx.System.{SysCall, fopen, fclose, ftell, fseek, FileHandle, SystemState}

-- `fid_to_key`
abbrev pub fid_to_key : ℤ → Bytes
fid_to_key fid = codes "__fs_handle_" ++ signed_decimal fid

abbrev pub add_handle : FileHandle → SystemState → (ℕ × ℤ) × SystemState
add_handle handle s = (
  (length s.handles, s.next_fid),
  record s { handles = s.handles ++ some handle ∷ []; next_fid = wrap (s.next_fid +ℤ pos 1) },
)

abbrev pub put_handle : ℕ → Option FileHandle → SystemState → Unit {0} × SystemState
put_handle h handle s = (tt, record s { handles = set s.handles h handle })

abbrev pub spoil : SystemState → Unit {0} × SystemState
spoil s = (tt, record s { bad_access = true })

-- What `fs/open` has read of its arguments.
pub record OpenArgs : Type 0 where
  pub path : Option Bytes
  pub mode : Bytes

pub record SeekArgs : Type 0 where
  pub fid : ℤ
  pub offset : ℤ
  pub whence : ℕ

module _ {Ctx : Type 0} where
  -- What a nucleus does with the handle at an address. What a freed handle reads as is not defined
  -- in C; here the run ends.
  abbrev pub use_handle : Option (Option FileHandle) → (FileHandle → M Ctx CellPtr) → M Ctx CellPtr
  use_handle (some (some handle)) act = act handle
  use_handle (some none) act = with_system spoil >> abort
  use_handle none act = with_system spoil >> abort

  unfoldable pub at_address : (ℕ → FileHandle → M Ctx CellPtr) → ℕ → M Ctx CellPtr
  at_address act h = asks (λ rt. get_elem? rt.system.handles h) λ found. use_handle found (act h)

  abbrev pub handle_or_fail :
      Bytes → ℤ → (ℕ → FileHandle → M Ctx CellPtr) → Option ℕ → M Ctx CellPtr
  handle_or_fail name fid act none =
      fail (name ++ (codes ": invalid file ID " ++ signed_decimal fid))
  handle_or_fail name fid act (some h) = at_address act h

  unfoldable pub fid_option : Bytes → Evaluator Ctx → Bytes → CellPtr → ℤ → M Ctx ℤ
  unfolding int_option
  fid_option name ev keyword value fid =
      if strcmp_eq keyword (codes ":fid")
      then int_option ev value (name ++ codes ": fid must be an integer")
      else unknown_keyword name keyword

  module _ (env : Env Ctx) where
    -- The tests on the number and on the handle behind it.
    unfoldable pub with_handle : Bytes → ℤ → (ℕ → FileHandle → M Ctx CellPtr) → M Ctx CellPtr
    unfolding at_address
    with_handle name fid act =
        if ltb_ℤ fid (pos 0)
        then fail (name ++ codes ": :fid keyword is required")
        else asks (λ rt. env.get_handle rt.current_context (fid_to_key fid))
            (handle_or_fail name fid act)

    unfoldable pub open_option : Evaluator Ctx → Bytes → CellPtr → OpenArgs → M Ctx OpenArgs
    unfolding string_option actual_path
    open_option ev keyword value a =
        if strcmp_eq keyword (codes ":path")
        then (do
          path ← string_option ev value (codes "fs/open: path must be a string")
          actual ← actual_path env path
          pure (record a { path = some actual }))
        else if strcmp_eq keyword (codes ":mode")
        then (do
          mode ← string_option ev value (codes "fs/open: mode must be a string")
          pure (record a { mode = mode }))
        else unknown_keyword (codes "fs/open") keyword

    -- `malloc` of the handle, and the number that it gets.
    unfoldable pub keep_handle : FileHandle → M Ctx CellPtr
    keep_handle handle = do
      place ← with_system (add_handle handle)
      set_handle_at env (fid_to_key place.1) (some place.0)
      pure (alloc_cell (integer_literal place.1))

    abbrev pub opened : Bytes → Bytes → Option ℕ → M Ctx CellPtr
    opened path mode none = fail (
        codes "fs/open: failed to open file '"
        ++ (path ++ (codes "' with mode '" ++ (mode ++ codes "'"))))
    opened path mode (some fp) =
        keep_handle (record { fp = fp; path = path; mode = mode; position = pos 0 })

    abbrev pub open_with : Bytes → Option Bytes → M Ctx CellPtr
    open_with mode none = fail (codes "fs/open: :path keyword is required")
    open_with mode (some path) =
        sys_call (fopen path mode) (λ calls. env.sys.open_file calls path mode) >>= opened path mode

    unfoldable pub open_impl : Evaluator Ctx → CellPtr → M Ctx CellPtr
    unfolding keyword_loop open_option keep_handle
    open_impl ev null = fail (codes "fs/open: requires path and mode arguments")
    open_impl ev (node r c next) = do
      a ←
          keyword_loop (codes "fs/open") (codes ": expected keyword (symbol starting with ':')")
            (open_option ev) (node r c next) (record { path = none; mode = codes "r" })
      open_with a.mode a.path

    unfoldable pub close_handle : ℤ → ℕ → FileHandle → M Ctx CellPtr
    close_handle fid h handle = do
      sys_call (fclose handle.fp) (λ calls. tt)
      with_system (put_handle h none)
      set_handle_at env (fid_to_key fid) none
      pure (alloc_cell (integer_literal (pos 1)))

    unfoldable pub close_impl : Evaluator Ctx → CellPtr → M Ctx CellPtr
    unfolding keyword_loop fid_option with_handle close_handle
    close_impl ev null = fail (codes "fs/close: requires a file ID")
    close_impl ev (node r c next) = do
      fid ←
          keyword_loop (codes "fs/close") (codes ": expected keyword")
            (fid_option (codes "fs/close") ev) (node r c next) (negsuc 0)
      with_handle (codes "fs/close") fid (close_handle fid)

    unfoldable pub tell_handle : ℕ → FileHandle → M Ctx CellPtr
    tell_handle h handle = do
      place ← sys_call (ftell handle.fp) (λ calls. env.sys.tell calls handle.fp)
      if ltb_ℤ place (pos 0) then fail (codes "fs/tell: failed to get file position") else (do
        with_system (put_handle h (some (record handle { position = place })))
        pure (int_of place))

    unfoldable pub tell_impl : Evaluator Ctx → CellPtr → M Ctx CellPtr
    unfolding keyword_loop fid_option with_handle tell_handle
    tell_impl ev null = fail (codes "fs/tell: requires :fid argument")
    tell_impl ev (node r c next) = do
      fid ←
          keyword_loop (codes "fs/tell") (codes ": expected keyword")
            (fid_option (codes "fs/tell") ev) (node r c next) (negsuc 0)
      with_handle (codes "fs/tell") fid tell_handle

    -- The symbol behind `:whence` is not evaluated.
    abbrev pub whence_of : CellPtr → M Ctx ℕ
    whence_of (node _ (symbol s) _) =
        if strcmp_eq s (codes "set")
        then pure 0
        else if strcmp_eq s (codes "cur")
        then pure 1
        else if strcmp_eq s (codes "end")
        then pure 2
        else fail (
            codes "fs/seek: invalid whence value '"
            ++ (c_string s ++ codes "' (must be set, cur, or end)"))
    whence_of _ = fail (codes "fs/seek: whence must be a symbol (set, cur, or end)")

    unfoldable pub seek_option : Evaluator Ctx → Bytes → CellPtr → SeekArgs → M Ctx SeekArgs
    unfolding int_option
    seek_option ev keyword value a =
        if strcmp_eq keyword (codes ":fid")
        then (do
          fid ← int_option ev value (codes "fs/seek: fid must be an integer")
          pure (record a { fid = fid }))
        else if strcmp_eq keyword (codes ":offset")
        then (do
          offset ← int_option ev value (codes "fs/seek: offset must be an integer")
          pure (record a { offset = offset }))
        else if strcmp_eq keyword (codes ":whence")
        then (do whence ← whence_of value; pure (record a { whence = whence }))
        else unknown_keyword (codes "fs/seek") keyword

    unfoldable pub seek_handle : SeekArgs → ℕ → FileHandle → M Ctx CellPtr
    seek_handle a h handle = do
      found ←
          sys_call (fseek handle.fp a.offset a.whence)
            (λ calls. env.sys.seek calls handle.fp a.offset a.whence)
      if found
          then (do
            place ← sys_call (ftell handle.fp) (λ calls. env.sys.tell calls handle.fp)
            with_system (put_handle h (some (record handle { position = place })))
            pure (int_of place))
          else fail (
              codes "fs/seek: failed to seek to offset "
              ++ (signed_decimal a.offset ++ (codes " with whence " ++ decimal a.whence)))

    unfoldable pub seek_impl : Evaluator Ctx → CellPtr → M Ctx CellPtr
    unfolding keyword_loop seek_option with_handle seek_handle
    seek_impl ev null = fail (codes "fs/seek: requires :fid, :offset, and :whence arguments")
    seek_impl ev (node r c next) = do
      a ←
          keyword_loop (codes "fs/seek") (codes ": expected keyword") (seek_option ev)
            (node r c next) (record { fid = negsuc 0; offset = pos 0; whence = 0 })
      with_handle (codes "fs/seek") a.fid (seek_handle a)
