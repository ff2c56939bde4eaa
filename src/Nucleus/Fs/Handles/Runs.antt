-- ===== src/Nucleus/Fs/Handles/Runs.antt =====
-- The nuclei on file handles keep what each step keeps, and do not depend on the fuel.
use akx.Base.{ℕ, Option, none, some}
use akx.Base.Int.{ℤ, pos, negsuc, ltb_ℤ}
use akx.Base.Text.{Bytes, codes, strcmp_eq}
use akx.Cell.{CellPtr, null, node, symbol}
use akx.Nucleus.Files.Runs.{
  int_option-Runs, string_option-Runs, keyword_loop-Runs, actual_path-Runs,
}
use akx.Nucleus.Fs.Handles.{
  OpenArgs, SeekArgs, use_handle, at_address, handle_or_fail, fid_option, with_handle, open_option,
  keep_handle, opened, open_with, open_impl, close_handle, close_impl, tell_handle, tell_impl,
  whence_of, seek_option, seek_handle, seek_impl,
}
use akx.System.{FileHandle}
use akx.Rt.{Runtime, Env, M, Evaluator}
use akx.Rt.Within.{
  IsKept, Runs, Agrees, Runs-pure, Runs-bind, Runs-then, Runs-if, Runs-fail, Runs-asks, Runs-call,
  Runs-system, Runs-abort, Runs-set_handle,
}

module _ {Ctx : Type 0} {env : Env Ctx} {R : Runtime Ctx → Runtime Ctx → Type 0}
    (kept : IsKept env R) where
  use_handle-Runs :
      (found : Option (Option FileHandle)) (act : FileHandle → M Ctx CellPtr)
      → ((handle : FileHandle) → Runs R (act handle) (act handle))
      → Runs R (use_handle found act) (use_handle found act)
  use_handle-Runs (some (some handle)) act h = h handle
  use_handle-Runs (some none) act h = Runs-then kept (Runs-system kept _) (Runs-abort kept)
  use_handle-Runs none act h = Runs-then kept (Runs-system kept _) (Runs-abort kept)

  module _ (act : ℕ → FileHandle → M Ctx CellPtr)
      (acts : (h : ℕ) (handle : FileHandle) → Runs R (act h handle) (act h handle)) where
    at_address-Runs : (h : ℕ) → Runs R (at_address act h) (at_address act h)
    unfolding at_address
    at_address-Runs h = Runs-asks kept _ λ found. use_handle-Runs found (act h) (acts h)

    handle_or_fail-Runs :
        (name : Bytes) (fid : ℤ) (o : Option ℕ)
        → Runs R (handle_or_fail name fid act o) (handle_or_fail name fid act o)
    handle_or_fail-Runs name fid none = Runs-fail kept _
    handle_or_fail-Runs name fid (some h) = at_address-Runs h

    pub with_handle-Runs :
        (name : Bytes) (fid : ℤ)
        → Runs R (with_handle env name fid act) (with_handle env name fid act)
    unfolding with_handle
    with_handle-Runs name fid =
        Runs-if kept (ltb_ℤ fid (pos 0)) (Runs-fail kept _)
          (Runs-asks kept _ (handle_or_fail-Runs name fid))

  keep_handle-Runs :
      (handle : FileHandle) → Runs R (keep_handle env handle) (keep_handle env handle)
  unfolding keep_handle
  keep_handle-Runs handle =
      Runs-bind kept (Runs-system kept _)
        λ place. Runs-then kept (Runs-set_handle kept _ _) (Runs-pure kept _)

  opened-Runs :
      (path mode : Bytes) (o : Option ℕ) → Runs R (opened env path mode o) (opened env path mode o)
  opened-Runs path mode none = Runs-fail kept _
  opened-Runs path mode (some fp) = keep_handle-Runs _

  open_with-Runs :
      (mode : Bytes) (o : Option Bytes) → Runs R (open_with env mode o) (open_with env mode o)
  open_with-Runs mode none = Runs-fail kept _
  open_with-Runs mode (some path) = Runs-bind kept (Runs-call kept _ _) (opened-Runs path mode)

  close_handle-Runs :
      (fid : ℤ) (h : ℕ) (handle : FileHandle)
      → Runs R (close_handle env fid h handle) (close_handle env fid h handle)
  unfolding close_handle
  close_handle-Runs fid h handle = Runs-then kept (Runs-call kept _ _) (
      Runs-then kept (Runs-system kept _)
        (Runs-then kept (Runs-set_handle kept _ _) (Runs-pure kept _)))

  tell_handle-Runs :
      (h : ℕ) (handle : FileHandle) → Runs R (tell_handle env h handle) (tell_handle env h handle)
  unfolding tell_handle
  tell_handle-Runs h handle = Runs-bind kept (Runs-call kept _ _) λ place.
      Runs-if kept (ltb_ℤ place (pos 0)) (Runs-fail kept _)
        (Runs-then kept (Runs-system kept _) (Runs-pure kept _))

  seek_handle-Runs :
      (a : SeekArgs) (h : ℕ) (handle : FileHandle)
      → Runs R (seek_handle env a h handle) (seek_handle env a h handle)
  unfolding seek_handle
  seek_handle-Runs a h handle = Runs-bind kept (Runs-call kept _ _) λ found.
      Runs-if kept found
        (Runs-bind kept (Runs-call kept _ _)
          λ place. Runs-then kept (Runs-system kept _) (Runs-pure kept _))
        (Runs-fail kept _)

  whence_of-Runs : (value : CellPtr) → Runs R (whence_of env value) (whence_of env value)
  whence_of-Runs (node _ (symbol s) _) =
      Runs-if kept (strcmp_eq s (codes "set")) (Runs-pure kept _) (
        Runs-if kept (strcmp_eq s (codes "cur")) (Runs-pure kept _)
          (Runs-if kept (strcmp_eq s (codes "end")) (Runs-pure kept _) (Runs-fail kept _)))
  whence_of-Runs _ = Runs-fail kept _

  module _ (ev ev' : Evaluator Ctx) (same : Agrees R ev ev') where
    fid_option-Runs :
        (name keyword : Bytes) (value : CellPtr) (fid : ℤ)
        → Runs R (fid_option name ev keyword value fid) (fid_option name ev' keyword value fid)
    unfolding fid_option
    fid_option-Runs name keyword value fid =
        Runs-if kept (strcmp_eq keyword (codes ":fid")) (int_option-Runs kept ev ev' same value _)
          (Runs-fail kept _)

    open_option-Runs :
        (keyword : Bytes) (value : CellPtr) (a : OpenArgs)
        → Runs R (open_option env ev keyword value a) (open_option env ev' keyword value a)
    unfolding open_option
    open_option-Runs keyword value a =
        Runs-if kept (strcmp_eq keyword (codes ":path"))
          (Runs-bind kept (string_option-Runs kept ev ev' same value _)
            λ path. Runs-bind kept (actual_path-Runs kept path) λ actual. Runs-pure kept _)
          (Runs-if kept (strcmp_eq keyword (codes ":mode"))
            (Runs-bind kept (string_option-Runs kept ev ev' same value _) λ mode. Runs-pure kept _)
            (Runs-fail kept _))

    pub open_impl-Runs : (args : CellPtr) → Runs R (open_impl env ev args) (open_impl env ev' args)
    unfolding open_impl
    open_impl-Runs null = Runs-fail kept _
    open_impl-Runs (node r c next) =
        Runs-bind kept
          (keyword_loop-Runs kept (codes "fs/open")
            (codes ": expected keyword (symbol starting with ':')") _ _ open_option-Runs
            (node r c next) (record { path = none; mode = codes "r" }))
          λ a. open_with-Runs a.mode a.path

    pub close_impl-Runs :
        (args : CellPtr) → Runs R (close_impl env ev args) (close_impl env ev' args)
    unfolding close_impl
    close_impl-Runs null = Runs-fail kept _
    close_impl-Runs (node r c next) =
        Runs-bind kept
          (keyword_loop-Runs kept (codes "fs/close") (codes ": expected keyword") _ _
            (fid_option-Runs (codes "fs/close")) (node r c next) (negsuc 0))
          λ fid. with_handle-Runs _ (close_handle-Runs fid) (codes "fs/close") fid

    pub tell_impl-Runs : (args : CellPtr) → Runs R (tell_impl env ev args) (tell_impl env ev' args)
    unfolding tell_impl
    tell_impl-Runs null = Runs-fail kept _
    tell_impl-Runs (node r c next) =
        Runs-bind kept
          (keyword_loop-Runs kept (codes "fs/tell") (codes ": expected keyword") _ _
            (fid_option-Runs (codes "fs/tell")) (node r c next) (negsuc 0))
          λ fid. with_handle-Runs _ tell_handle-Runs (codes "fs/tell") fid

    seek_option-Runs :
        (keyword : Bytes) (value : CellPtr) (a : SeekArgs)
        → Runs R (seek_option env ev keyword value a) (seek_option env ev' keyword value a)
    unfolding seek_option
    seek_option-Runs keyword value a =
        Runs-if kept (strcmp_eq keyword (codes ":fid"))
          (Runs-bind kept (int_option-Runs kept ev ev' same value _) λ fid. Runs-pure kept _)
          (Runs-if kept (strcmp_eq keyword (codes ":offset"))
            (Runs-bind kept (int_option-Runs kept ev ev' same value _) λ offset. Runs-pure kept _)
            (Runs-if kept (strcmp_eq keyword (codes ":whence"))
              (Runs-bind kept (whence_of-Runs value) λ whence. Runs-pure kept _)
              (Runs-fail kept _)))

    pub seek_impl-Runs : (args : CellPtr) → Runs R (seek_impl env ev args) (seek_impl env ev' args)
    unfolding seek_impl
    seek_impl-Runs null = Runs-fail kept _
    seek_impl-Runs (node r c next) =
        Runs-bind kept
          (keyword_loop-Runs kept (codes "fs/seek") (codes ": expected keyword") _ _
            seek_option-Runs (node r c next)
            (record { fid = negsuc 0; offset = pos 0; whence = 0 }))
          λ a. with_handle-Runs _ (seek_handle-Runs a) (codes "fs/seek") a.fid
