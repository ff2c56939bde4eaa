-- ===== src/Nucleus/Fs/Write.antt =====
-- nucleus/fs/write.c, on the handles of `fs/open`.
pub mod Runs
use akx.Base.{Bool, true, false, not, ◌++◌, Option, none, some, ℕ, if◌then◌else◌}
use akx.Base.Int.{ℤ, pos, negsuc, eqb_ℤ, ltb_ℤ}
use akx.Base.Text.{Bytes, codes, strcmp_eq}
use akx.Cell.{CellPtr, null, node, symbol, integer_literal}
use akx.Nucleus.Files.{int_of, int_option, string_option, keyword_loop, unknown_keyword}
use akx.Nucleus.Fs.Handles.{with_handle}
use akx.Nucleus.Putf.{signed_decimal}
use akx.Rt.{Env, M, Evaluator, plain, ◌>>=◌, ◌>>◌, pure, fail, sys_call}
use akx.System.{fseek, fwrite, fflush, FileHandle}

pub record WriteArgs : Type 0 where
  pub fid : ℤ
  pub content : Option Bytes
  pub offset : ℤ
  pub append : Bool

module _ {Ctx : Type 0} where
  module _ (env : Env Ctx) where
    -- An integer that is not 0, or the symbol `true`; any other value leaves the flag as it is.
    abbrev pub append_flag : CellPtr → Bool → Bool
    append_flag (node _ (integer_literal i) _) old = not (eqb_ℤ i (pos 0))
    append_flag (node _ (symbol s) _) old = strcmp_eq s (codes "true")
    append_flag _ old = old

    unfoldable pub write_option : Evaluator Ctx → Bytes → CellPtr → WriteArgs → M Ctx WriteArgs
    unfolding int_option string_option
    write_option ev keyword value a =
        if strcmp_eq keyword (codes ":fid")
        then (do
          fid ← int_option ev value (codes "fs/write: fid must be an integer")
          pure (record a { fid = fid }))
        else if strcmp_eq keyword (codes ":content")
        then (do
          content ← string_option ev value (codes "fs/write: content must be a string")
          pure (record a { content = some content }))
        else if strcmp_eq keyword (codes ":offset")
        then (do
          offset ← int_option ev value (codes "fs/write: offset must be an integer")
          pure (record a { offset = offset }))
        else if strcmp_eq keyword (codes ":append")
        then (do flag ← ev plain value; pure (record a { append = append_flag flag a.append }))
        else unknown_keyword (codes "fs/write") keyword

    unfoldable pub write_bytes : Bytes → FileHandle → M Ctx CellPtr
    write_bytes content handle = do
      written ← sys_call (fwrite handle.fp content) (λ calls. env.sys.write calls handle.fp content)
      sys_call (fflush handle.fp) (λ calls. tt)
      pure (int_of (pos written))

    unfoldable pub write_handle : Bytes → WriteArgs → ℕ → FileHandle → M Ctx CellPtr
    unfolding write_bytes
    write_handle content a h handle =
        if not (ltb_ℤ a.offset (pos 0))
        then (do
          found ←
              sys_call (fseek handle.fp a.offset 0)
                (λ calls. env.sys.seek calls handle.fp a.offset 0)
          if found
              then write_bytes content handle
              else fail (codes "fs/write: failed to seek to offset " ++ signed_decimal a.offset))
        else if a.append
        then (do sys_call (fseek handle.fp (pos 0) 2) (λ calls. tt); write_bytes content handle)
        else write_bytes content handle

    abbrev pub write_with : WriteArgs → Option Bytes → M Ctx CellPtr
    write_with a none = fail (codes "fs/write: :content keyword is required")
    write_with a (some content) = with_handle env (codes "fs/write") a.fid (write_handle content a)

    unfoldable pub file_write_impl : Evaluator Ctx → CellPtr → M Ctx CellPtr
    unfolding keyword_loop write_option with_handle write_handle
    file_write_impl ev null = fail (codes "fs/write: requires :fid and :content arguments")
    file_write_impl ev (node r c next) = do
      a ←
          keyword_loop (codes "fs/write") (codes ": expected keyword") (write_option ev)
            (node r c next)
            (record { fid = negsuc 0; content = none; offset = negsuc 0; append = false })
      if ltb_ℤ a.fid (pos 0)
          then fail (codes "fs/write: :fid keyword is required")
          else write_with a a.content
