-- ===== src/Nucleus/Fs/Read.antt =====
-- nucleus/fs/read.c: `fs/read` reads lines, a number of bytes, or the rest of a file.
pub mod Runs
pub mod Lines
use akx.Base.{
  ℕ, zero, suc, ◌+◌, ◌-◌, ◌*◌, Bool, true, false, not, ◌&&◌, ◌||◌, List, [], ◌∷◌, ◌++◌, Option,
  none, some, ltb, leb, length, if◌then◌else◌,
}
use akx.Base.Int.{ℤ, pos, negsuc, ◌-ℤ◌, ltb_ℤ}
use akx.Base.Text.{Bytes, codes, c_string, strcmp_eq}
use akx.Cell.{CellPtr, null, node}
use akx.Nucleus.Files.{string_cell, int_option, keyword_loop, unknown_keyword}
use akx.Nucleus.Fs.Handles.{spoil, with_handle}
use akx.Nucleus.Putf.{signed_decimal}
use akx.Rt.{Env, M, Evaluator, ◌>>=◌, ◌>>◌, pure, fail, with_system, sys_call}
use akx.System.{fseek, ftell, fread, fgets, FileHandle}

pub record ReadArgs : Type 0 where
  pub fid : ℤ
  pub bytes : ℤ
  pub lines : ℤ
  pub offset : ℤ
  pub line_start : ℤ
  pub line_end : ℤ

abbrev pub no_args : ReadArgs
no_args = record {
  fid = negsuc 0;
  bytes = negsuc 0;
  lines = negsuc 0;
  offset = negsuc 0;
  line_start = negsuc 0;
  line_end = negsuc 0;
}

-- `result_str` with its capacity; `safe` says that every write so far lay inside it.
pub record LineBuffer : Type 0 where
  pub result : Bytes
  pub capacity : ℕ
  pub safe : Bool

abbrev pub empty_buffer : LineBuffer
empty_buffer = record { result = []; capacity = 4096; safe = true }

-- The test before a line is appended, and the doubled capacity.
abbrev pub grow_for_line : ℕ → LineBuffer → LineBuffer
grow_for_line n b =
    if ltb b.capacity (length b.result + n + 1) then record b { capacity = b.capacity * 2 } else b

-- `strcat`, with the NUL behind the line.
abbrev pub put_line : Bytes → LineBuffer → LineBuffer
put_line line b = record b {
  result = b.result ++ line;
  safe = b.safe && leb (length b.result + length line + 1) b.capacity;
}

unfoldable pub append_line : Bytes → LineBuffer → LineBuffer
append_line line b = put_line line (grow_for_line (length line) b)

-- A negative number reads as 0.
abbrev pub at_least_0 : ℤ → ℕ
at_least_0 (pos n) = n
at_least_0 (negsuc n) = 0

-- `line_end`, which is `line_start` where it was not given.
abbrev pub last_line : ReadArgs → ℕ
last_line a = if ltb_ℤ a.line_end (pos 0) then at_least_0 a.line_start else at_least_0 a.line_end

module _ {Ctx : Type 0} where
  unfoldable pub read_option : Evaluator Ctx → Bytes → CellPtr → ReadArgs → M Ctx ReadArgs
  unfolding int_option
  read_option ev keyword value a =
      if strcmp_eq keyword (codes ":fid")
      then (do
        fid ← int_option ev value (codes "fs/read: fid must be an integer")
        pure (record a { fid = fid }))
      else if strcmp_eq keyword (codes ":bytes")
      then (do
        bytes ← int_option ev value (codes "fs/read: bytes must be an integer")
        pure (record a { bytes = bytes }))
      else if strcmp_eq keyword (codes ":lines")
      then (do
        lines ← int_option ev value (codes "fs/read: lines must be an integer")
        pure (record a { lines = lines }))
      else if strcmp_eq keyword (codes ":offset")
      then (do
        offset ← int_option ev value (codes "fs/read: offset must be an integer")
        pure (record a { offset = offset }))
      else if strcmp_eq keyword (codes ":line-start")
      then (do
        line_start ← int_option ev value (codes "fs/read: line-start must be an integer")
        pure (record a { line_start = line_start }))
      else if strcmp_eq keyword (codes ":line-end")
      then (do
        line_end ← int_option ev value (codes "fs/read: line-end must be an integer")
        pure (record a { line_end = line_end }))
      else unknown_keyword (codes "fs/read") keyword

  module _ (env : Env Ctx) where
    -- One line, of the first 4095 bytes.
    abbrev pub next_line : ℕ → M Ctx (Option Bytes)
    next_line fp = sys_call (fgets fp 4096) λ calls. env.sys.gets calls fp 4096

    abbrev pub line_or_end :
        LineBuffer → (Bytes → M Ctx LineBuffer) → Option Bytes → M Ctx LineBuffer
    line_or_end b more none = pure b
    line_or_end b more (some line) = more (c_string line)

    -- The loop over `:lines`; the first argument is `lines - lines_read`.
    unfoldable pub first_lines : ℕ → ℕ → LineBuffer → M Ctx LineBuffer
    first_lines zero fp b = pure b
    first_lines (suc n) fp b =
        next_line fp >>= line_or_end b λ line. first_lines n fp (append_line line b)

    -- The loop over a range of lines; the first argument is `line_end + 1 - current_line`.
    unfoldable pub lines_between : ℕ → ℕ → ℕ → ℕ → LineBuffer → M Ctx LineBuffer
    unfolding append_line
    lines_between zero fp current_line line_start b = pure b
    lines_between (suc n) fp current_line line_start b =
        next_line fp
        >>= line_or_end b λ line.
          lines_between n fp (suc current_line) line_start
            (if leb line_start current_line then append_line line b else b)

    abbrev pub rewind : ReadArgs → ℕ → M Ctx (Unit {0})
    rewind a fp =
        if ltb_ℤ a.offset (pos 0) then sys_call (fseek fp (pos 0) 0) (λ calls. tt) else pure tt

    abbrev pub buffer_cell : LineBuffer → M Ctx CellPtr
    buffer_cell b = pure (string_cell b.result)

    -- `fread`, with the NUL put behind what was read.
    unfoldable pub read_bytes : ℕ → ℕ → M Ctx CellPtr
    read_bytes n fp = do
      text ← sys_call (fread fp n) (λ calls. env.sys.read calls fp n)
      pure (string_cell text)

    -- The rest of the file. A position behind the end of the file makes `file_size`
    -- negative: at -1 a buffer of no bytes gets the NUL, below it no buffer is found.
    abbrev pub read_rest : ℕ → ℤ → M Ctx CellPtr
    read_rest fp (pos n) = read_bytes n fp
    read_rest fp (negsuc zero) = with_system spoil >> pure (string_cell [])
    read_rest fp (negsuc (suc n)) = fail (codes "fs/read: memory allocation failed")

    unfoldable pub read_all : ReadArgs → ℕ → M Ctx CellPtr
    read_all a fp = do
      rewind a fp
      start_pos ← sys_call (ftell fp) (λ calls. env.sys.tell calls fp)
      sys_call (fseek fp (pos 0) 2) (λ calls. tt)
      end_pos ← sys_call (ftell fp) (λ calls. env.sys.tell calls fp)
      sys_call (fseek fp start_pos 0) (λ calls. tt)
      read_rest fp (end_pos -ℤ start_pos)

    unfoldable pub read_between : ReadArgs → ℕ → M Ctx CellPtr
    unfolding lines_between
    read_between a fp = do
      rewind a fp
      b ← lines_between (suc (last_line a)) fp 0 (at_least_0 a.line_start) empty_buffer
      buffer_cell b

    unfoldable pub read_first : ReadArgs → ℕ → M Ctx CellPtr
    unfolding first_lines
    read_first a fp = do
      rewind a fp
      b ← first_lines (at_least_0 a.lines) fp empty_buffer
      buffer_cell b

    -- The four ways to read, behind the `fseek` for an offset.
    unfoldable pub read_text : ReadArgs → ℕ → M Ctx CellPtr
    unfolding read_between read_first read_bytes read_all
    read_text a fp =
        if not (ltb_ℤ a.line_start (pos 0)) || not (ltb_ℤ a.line_end (pos 0))
        then read_between a fp
        else if ltb_ℤ (pos 0) a.lines
        then read_first a fp
        else if ltb_ℤ (pos 0) a.bytes
        then read_bytes (at_least_0 a.bytes) fp
        else read_all a fp

    unfoldable pub read_handle : ReadArgs → ℕ → FileHandle → M Ctx CellPtr
    unfolding read_text
    read_handle a h handle = if ltb_ℤ a.offset (pos 0) then read_text a handle.fp else (do
      found ←
          sys_call (fseek handle.fp a.offset 0) (λ calls. env.sys.seek calls handle.fp a.offset 0)
      if found
          then read_text a handle.fp
          else fail (codes "fs/read: failed to seek to offset " ++ signed_decimal a.offset))

    unfoldable pub file_read_impl : Evaluator Ctx → CellPtr → M Ctx CellPtr
    unfolding keyword_loop read_option with_handle read_handle
    file_read_impl ev null = fail (codes "fs/read: requires :fid argument")
    file_read_impl ev (node r c next) = do
      a ←
          keyword_loop (codes "fs/read") (codes ": expected keyword") (read_option ev)
            (node r c next) no_args
      with_handle env (codes "fs/read") a.fid (read_handle a)
