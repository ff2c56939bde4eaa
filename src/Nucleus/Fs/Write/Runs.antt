-- ===== src/Nucleus/Fs/Write/Runs.antt =====
-- `fs/write` keeps what each step keeps, and does not depend on the fuel.
use akx.Base.{ℕ, Option, none, some, not, false}
use akx.Base.Int.{pos, negsuc, ltb_ℤ}
use akx.Base.Text.{Bytes, codes, strcmp_eq}
use akx.Cell.{CellPtr, null, node}
use akx.Nucleus.Files.Runs.{int_option-Runs, string_option-Runs, keyword_loop-Runs}
use akx.Nucleus.Fs.Handles.Runs.{with_handle-Runs}
use akx.Nucleus.Fs.Write.{
  WriteArgs, write_option, write_bytes, write_handle, write_with, file_write_impl,
}
use akx.System.{FileHandle}
use akx.Rt.{Runtime, Env, Evaluator, plain}
use akx.Rt.Within.{
  IsKept, Runs, Agrees, Runs-pure, Runs-bind, Runs-then, Runs-if, Runs-fail, Runs-call,
}

module _ {Ctx : Type 0} {env : Env Ctx} {R : Runtime Ctx → Runtime Ctx → Type 0}
    (kept : IsKept env R) where
  write_bytes-Runs :
      (content : Bytes) (handle : FileHandle)
      → Runs R (write_bytes env content handle) (write_bytes env content handle)
  unfolding write_bytes
  write_bytes-Runs content handle =
      Runs-bind kept (Runs-call kept _ _)
        λ written. Runs-then kept (Runs-call kept _ _) (Runs-pure kept _)

  write_handle-Runs :
      (content : Bytes) (a : WriteArgs) (h : ℕ) (handle : FileHandle)
      → Runs R (write_handle env content a h handle) (write_handle env content a h handle)
  unfolding write_handle
  write_handle-Runs content a h handle =
      Runs-if kept (not (ltb_ℤ a.offset (pos 0)))
        (Runs-bind kept (Runs-call kept _ _)
          λ found. Runs-if kept found (write_bytes-Runs content handle) (Runs-fail kept _))
        (Runs-if kept a.append
          (Runs-then kept (Runs-call kept _ _) (write_bytes-Runs content handle))
          (write_bytes-Runs content handle))

  write_with-Runs :
      (a : WriteArgs) (o : Option Bytes) → Runs R (write_with env a o) (write_with env a o)
  write_with-Runs a none = Runs-fail kept _
  write_with-Runs a (some content) =
      with_handle-Runs kept _ (write_handle-Runs content a) (codes "fs/write") a.fid

  module _ (ev ev' : Evaluator Ctx) (same : Agrees R ev ev') where
    write_option-Runs :
        (keyword : Bytes) (value : CellPtr) (a : WriteArgs)
        → Runs R (write_option env ev keyword value a) (write_option env ev' keyword value a)
    unfolding write_option
    write_option-Runs keyword value a =
        Runs-if kept (strcmp_eq keyword (codes ":fid"))
          (Runs-bind kept (int_option-Runs kept ev ev' same value _) λ fid. Runs-pure kept _)
          (Runs-if kept (strcmp_eq keyword (codes ":content"))
            (Runs-bind kept (string_option-Runs kept ev ev' same value _)
              λ content. Runs-pure kept _)
            (Runs-if kept (strcmp_eq keyword (codes ":offset"))
              (Runs-bind kept (int_option-Runs kept ev ev' same value _) λ offset. Runs-pure kept _)
              (Runs-if kept (strcmp_eq keyword (codes ":append"))
                (Runs-bind kept (same.agree plain value) λ flag. Runs-pure kept _)
                (Runs-fail kept _))))

    pub file_write_impl-Runs :
        (args : CellPtr) → Runs R (file_write_impl env ev args) (file_write_impl env ev' args)
    unfolding file_write_impl
    file_write_impl-Runs null = Runs-fail kept _
    file_write_impl-Runs (node r c next) =
        Runs-bind kept
          (keyword_loop-Runs kept (codes "fs/write") (codes ": expected keyword") _ _
            write_option-Runs (node r c next)
            (record { fid = negsuc 0; content = none; offset = negsuc 0; append = false }))
          λ a. Runs-if kept (ltb_ℤ a.fid (pos 0)) (Runs-fail kept _) (write_with-Runs a a.content)
