-- ===== src/Nucleus/Fs/Read/Runs.antt =====
-- `fs/read` keeps what each step keeps, and does not depend on the fuel.
use akx.Base.{ℕ, zero, suc, Option, none, some, not, ◌||◌, leb, if◌then◌else◌}
use akx.Base.Int.{ℤ, pos, negsuc, ltb_ℤ}
use akx.Base.Text.{Bytes, codes, strcmp_eq}
use akx.Cell.{CellPtr, null, node}
use akx.Nucleus.Files.Runs.{int_option-Runs, keyword_loop-Runs}
use akx.Nucleus.Fs.Handles.Runs.{with_handle-Runs}
use akx.Nucleus.Fs.Read.{
  ReadArgs, LineBuffer, no_args, append_line, read_option, line_or_end, first_lines, lines_between,
  rewind, last_line, at_least_0, empty_buffer, read_rest, read_bytes, read_between, read_first,
  read_all, read_text, read_handle, file_read_impl,
}
use akx.System.{FileHandle}
use akx.Rt.{Runtime, Env, M, Evaluator}
use akx.Rt.Within.{
  IsKept, Runs, Agrees, Runs-pure, Runs-bind, Runs-then, Runs-if, Runs-fail, Runs-call, Runs-system,
}

module _ {Ctx : Type 0} {env : Env Ctx} {R : Runtime Ctx → Runtime Ctx → Type 0}
    (kept : IsKept env R) where
  line_or_end-Runs :
      (b : LineBuffer) (more : Bytes → M Ctx LineBuffer)
      → ((line : Bytes) → Runs R (more line) (more line))
      → (o : Option Bytes) → Runs R (line_or_end env b more o) (line_or_end env b more o)
  line_or_end-Runs b more h none = Runs-pure kept b
  line_or_end-Runs b more h (some line) = h _

  first_lines-Runs :
      (n fp : ℕ) (b : LineBuffer) → Runs R (first_lines env n fp b) (first_lines env n fp b)
  unfolding first_lines
  first_lines-Runs zero fp b = Runs-pure kept b
  first_lines-Runs (suc n) fp b =
      Runs-bind kept (Runs-call kept _ _)
        (line_or_end-Runs b _ λ line. first_lines-Runs n fp (append_line line b))

  lines_between-Runs :
      (n fp current_line line_start : ℕ) (b : LineBuffer)
      → Runs R
          (lines_between env n fp current_line line_start b)
          (lines_between env n fp current_line line_start b)
  unfolding lines_between
  lines_between-Runs zero fp current_line line_start b = Runs-pure kept b
  lines_between-Runs (suc n) fp current_line line_start b = Runs-bind kept (Runs-call kept _ _) (
      line_or_end-Runs b _ λ line.
        lines_between-Runs n fp (suc current_line) line_start
          (if leb line_start current_line then append_line line b else b))

  rewind-Runs : (a : ReadArgs) (fp : ℕ) → Runs R (rewind env a fp) (rewind env a fp)
  rewind-Runs a fp = Runs-if kept (ltb_ℤ a.offset (pos 0)) (Runs-call kept _ _) (Runs-pure kept _)

  read_bytes-Runs : (n fp : ℕ) → Runs R (read_bytes env n fp) (read_bytes env n fp)
  unfolding read_bytes
  read_bytes-Runs n fp = Runs-bind kept (Runs-call kept _ _) λ text. Runs-pure kept _

  read_rest-Runs : (fp : ℕ) (size : ℤ) → Runs R (read_rest env fp size) (read_rest env fp size)
  read_rest-Runs fp (pos n) = read_bytes-Runs n fp
  read_rest-Runs fp (negsuc zero) = Runs-then kept (Runs-system kept _) (Runs-pure kept _)
  read_rest-Runs fp (negsuc (suc n)) = Runs-fail kept _

  read_all-Runs : (a : ReadArgs) (fp : ℕ) → Runs R (read_all env a fp) (read_all env a fp)
  unfolding read_all
  read_all-Runs a fp = Runs-then kept (rewind-Runs a fp) (
      Runs-bind kept (Runs-call kept _ _) λ start_pos. Runs-then kept (Runs-call kept _ _) (
        Runs-bind kept (Runs-call kept _ _)
          λ end_pos. Runs-then kept (Runs-call kept _ _) (read_rest-Runs fp _)))

  read_between-Runs :
      (a : ReadArgs) (fp : ℕ) → Runs R (read_between env a fp) (read_between env a fp)
  unfolding read_between
  read_between-Runs a fp = Runs-then kept (rewind-Runs a fp) (
      Runs-bind kept
        (lines_between-Runs (suc (last_line a)) fp 0 (at_least_0 a.line_start) empty_buffer)
        λ b. Runs-pure kept _)

  read_first-Runs : (a : ReadArgs) (fp : ℕ) → Runs R (read_first env a fp) (read_first env a fp)
  unfolding read_first
  read_first-Runs a fp =
      Runs-then kept (rewind-Runs a fp) (
        Runs-bind kept (first_lines-Runs (at_least_0 a.lines) fp empty_buffer)
          λ b. Runs-pure kept _)

  read_text-Runs : (a : ReadArgs) (fp : ℕ) → Runs R (read_text env a fp) (read_text env a fp)
  unfolding read_text
  read_text-Runs a fp =
      Runs-if kept (not (ltb_ℤ a.line_start (pos 0)) || not (ltb_ℤ a.line_end (pos 0)))
        (read_between-Runs a fp)
        (Runs-if kept (ltb_ℤ (pos 0) a.lines) (read_first-Runs a fp) (
          Runs-if kept (ltb_ℤ (pos 0) a.bytes) (read_bytes-Runs (at_least_0 a.bytes) fp)
            (read_all-Runs a fp)))

  read_handle-Runs :
      (a : ReadArgs) (h : ℕ) (handle : FileHandle)
      → Runs R (read_handle env a h handle) (read_handle env a h handle)
  unfolding read_handle
  read_handle-Runs a h handle = Runs-if kept (ltb_ℤ a.offset (pos 0)) (read_text-Runs a handle.fp) (
      Runs-bind kept (Runs-call kept _ _)
        λ found. Runs-if kept found (read_text-Runs a handle.fp) (Runs-fail kept _))

  module _ (ev ev' : Evaluator Ctx) (same : Agrees R ev ev') where
    read_option-Runs :
        (keyword : Bytes) (value : CellPtr) (a : ReadArgs)
        → Runs R (read_option ev keyword value a) (read_option ev' keyword value a)
    unfolding read_option
    read_option-Runs keyword value a =
        Runs-if kept (strcmp_eq keyword (codes ":fid"))
          (Runs-bind kept (int_option-Runs kept ev ev' same value _) λ x. Runs-pure kept _)
          (Runs-if kept (strcmp_eq keyword (codes ":bytes"))
            (Runs-bind kept (int_option-Runs kept ev ev' same value _) λ x. Runs-pure kept _)
            (Runs-if kept (strcmp_eq keyword (codes ":lines"))
              (Runs-bind kept (int_option-Runs kept ev ev' same value _) λ x. Runs-pure kept _)
              (Runs-if kept (strcmp_eq keyword (codes ":offset"))
                (Runs-bind kept (int_option-Runs kept ev ev' same value _) λ x. Runs-pure kept _)
                (Runs-if kept (strcmp_eq keyword (codes ":line-start"))
                  (Runs-bind kept (int_option-Runs kept ev ev' same value _) λ x. Runs-pure kept _)
                  (Runs-if kept (strcmp_eq keyword (codes ":line-end"))
                    (Runs-bind kept (int_option-Runs kept ev ev' same value _)
                      λ x. Runs-pure kept _)
                    (Runs-fail kept _))))))

    pub file_read_impl-Runs :
        (args : CellPtr) → Runs R (file_read_impl env ev args) (file_read_impl env ev' args)
    unfolding file_read_impl
    file_read_impl-Runs null = Runs-fail kept _
    file_read_impl-Runs (node r c next) =
        Runs-bind kept
          (keyword_loop-Runs kept (codes "fs/read") (codes ": expected keyword") _ _
            read_option-Runs (node r c next) no_args)
          λ a. with_handle-Runs kept _ (read_handle-Runs a) (codes "fs/read") a.fid
