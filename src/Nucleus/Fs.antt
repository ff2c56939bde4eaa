-- ===== src/Nucleus/Fs.antt =====
-- nucleus/fs: the nuclei that take paths. The file handles are in Fs/Handles.
pub mod Runs
pub mod Paths
pub mod Handles
pub mod Write
pub mod Read
use akx.Base.{
  Bool, true, false, not, ◌||◌, List, [], ◌∷◌, ◌++◌, Option, none, some, ◌==◌, if◌then◌else◌,
  length, ℕ, ltb,
}
use akx.Base.Int.{ℤ, pos, wrap}
use akx.Base.Text.{Bytes, codes, c_string, strcmp_eq, bytes_eq}
use akx.Cell.{
  CellPtr, null, node, symbol, string_literal, integer_literal, alloc_cell, truth, nil, cell_next,
}
use akx.Nucleus.Files.{string_cell, int_of, string_arg, actual_path}
use akx.Rt.{Env, M, Evaluator, plain, ◌>>=◌, ◌>>◌, pure, fail, sys_call}
use akx.System.{
  SysCall, fopen, fclose, fwrite, stat, mkdir, rmdir, unlink, list_dir, read_file, rename, FileKind,
  regular, directory, other, FileStat,
}

abbrev pub kind_name : FileKind → Bytes
kind_name directory = codes "dir"
kind_name regular = codes "file"
kind_name other = codes "other"

abbrev pub is_regular : Option FileStat → Bool
is_regular none = false
is_regular (some st) = elim (st.kind) [ regular ↦ true | directory ↦ false | other ↦ false ]

abbrev pub is_directory : Option FileStat → Bool
is_directory none = false
is_directory (some st) = elim (st.kind) [ regular ↦ false | directory ↦ true | other ↦ false ]

-- The result of `fs/stat`: eight linked cells, in no list.
abbrev pub stat_cells : FileStat → CellPtr
stat_cells st = node none (symbol (codes ":size")) (
    node none (integer_literal (wrap st.size)) (
      node none (symbol (codes ":type")) (
        node none (symbol (kind_name st.kind)) (
          node none (symbol (codes ":mtime")) (
            node none (integer_literal (wrap st.mtime))
              (node none (symbol (codes ":mode")) (alloc_cell (integer_literal (pos st.mode)))))))))

-- Strings linked one behind the other, in no list.
unfoldable pub string_chain : List Bytes → CellPtr
string_chain [] = null
string_chain (name ∷ names) = node none (string_literal (c_string name)) (string_chain names)

-- The names without "." and "..".
unfoldable pub visible : List Bytes → List Bytes
unfolding strcmp_eq
visible [] = []
visible (name ∷ names) =
    let rest = visible names in
    if strcmp_eq name (codes ".") || strcmp_eq name (codes "..") then rest else name ∷ rest

abbrev pub chain_or_nil : CellPtr → CellPtr
chain_or_nil null = nil
chain_or_nil (node r c next) = node r c next

module _ {Ctx : Type 0} (env : Env Ctx) where
  -- What the nuclei with one path have in common.
  unfoldable pub with_path :
      Bytes → Bytes → (Bytes → M Ctx CellPtr) → Evaluator Ctx → CellPtr → M Ctx CellPtr
  with_path missing wrong_type act ev null = fail missing
  with_path missing wrong_type act ev (node r c next) = do
    path ← string_arg ev (node r c next) wrong_type
    actual ← actual_path env path
    act actual

  -- A file that opened is closed again.
  abbrev pub close_if_open : Option ℕ → M Ctx CellPtr
  close_if_open none = pure (truth false)
  close_if_open (some fp) = sys_call (fclose fp) (λ calls. tt) >> pure (truth true)

  abbrev pub probe : Bytes → M Ctx CellPtr
  probe path =
      sys_call (fopen path (codes "r")) (λ calls. env.sys.open_file calls path (codes "r"))
      >>= close_if_open

  unfoldable pub exists_impl : Evaluator Ctx → CellPtr → M Ctx CellPtr
  unfolding with_path
  exists_impl =
      with_path (codes "fs/?exists: requires a file path")
        (codes "fs/?exists: path must be a string") probe

  -- A call on a path, and whether its answer passes the test.
  abbrev pub answer_of : SysCall → (List SysCall → Bool) → M Ctx CellPtr
  answer_of c answer = sys_call c answer >>= λ b. pure (truth b)

  unfoldable pub is_file_impl : Evaluator Ctx → CellPtr → M Ctx CellPtr
  unfolding with_path
  is_file_impl =
      with_path (codes "fs/?is-file: requires a path") (codes "fs/?is-file: path must be a string")
        (λ path. answer_of (stat path) λ calls. is_regular (env.sys.file_stat calls path))

  unfoldable pub is_dir_impl : Evaluator Ctx → CellPtr → M Ctx CellPtr
  unfolding with_path
  is_dir_impl =
      with_path (codes "fs/?is-dir: requires a path") (codes "fs/?is-dir: path must be a string")
        (λ path. answer_of (stat path) λ calls. is_directory (env.sys.file_stat calls path))

  unfoldable pub delete_impl : Evaluator Ctx → CellPtr → M Ctx CellPtr
  unfolding with_path
  delete_impl =
      with_path (codes "fs/delete: requires a file path") (codes "fs/delete: path must be a string")
        (λ path. answer_of (unlink path) λ calls. env.sys.remove_file calls path)

  unfoldable pub mkdir_impl : Evaluator Ctx → CellPtr → M Ctx CellPtr
  unfolding with_path
  mkdir_impl =
      with_path (codes "fs/mkdir: requires a directory path")
        (codes "fs/mkdir: path must be a string")
        (λ path. answer_of (mkdir path) λ calls. env.sys.make_dir calls path)

  unfoldable pub rmdir_impl : Evaluator Ctx → CellPtr → M Ctx CellPtr
  unfolding with_path
  rmdir_impl =
      with_path (codes "fs/rmdir: requires a directory path")
        (codes "fs/rmdir: path must be a string")
        (λ path. answer_of (rmdir path) λ calls. env.sys.remove_dir calls path)

  abbrev pub stat_result : Bytes → Option FileStat → M Ctx CellPtr
  stat_result path none = fail (codes "fs/stat: failed to stat '" ++ (path ++ codes "'"))
  stat_result path (some st) = pure (stat_cells st)

  unfoldable pub stat_impl : Evaluator Ctx → CellPtr → M Ctx CellPtr
  unfolding with_path
  stat_impl =
      with_path (codes "fs/stat: requires a file path") (codes "fs/stat: path must be a string")
        (λ path. sys_call (stat path) (λ calls. env.sys.file_stat calls path) >>= stat_result path)

  abbrev pub dir_result : Bytes → Option (List Bytes) → M Ctx CellPtr
  dir_result path none =
      fail (codes "fs/list-dir: failed to open directory '" ++ (path ++ codes "'"))
  dir_result path (some names) = pure (chain_or_nil (string_chain (visible names)))

  unfoldable pub list_dir_impl : Evaluator Ctx → CellPtr → M Ctx CellPtr
  unfolding with_path string_chain visible
  list_dir_impl =
      with_path (codes "fs/list-dir: requires a directory path")
        (codes "fs/list-dir: path must be a string")
        (λ path. sys_call (list_dir path) (λ calls. env.sys.entries calls path) >>= dir_result path)

  -- The message of the error is made of the path after that was freed; here it has its text.
  abbrev pub read_result : Bytes → Option Bytes → M Ctx CellPtr
  read_result path none = fail (codes "fs/read-file: failed to read file '" ++ (path ++ codes "'"))
  read_result path (some content) = pure (string_cell content)

  unfoldable pub read_file_impl : Evaluator Ctx → CellPtr → M Ctx CellPtr
  unfolding with_path
  read_file_impl =
      with_path (codes "fs/read-file: requires a file path")
        (codes "fs/read-file: path must be a string")
        (λ path.
          sys_call (read_file path) (λ calls. env.sys.contents calls path) >>= read_result path)

  -- As above for the message.
  abbrev pub write_content : Bytes → Bytes → Option ℕ → M Ctx CellPtr
  write_content path content none =
      fail (codes "fs/write-file: failed to open file '" ++ (path ++ codes "' for writing"))
  write_content path content (some fp) = do
    written ← sys_call (fwrite fp content) (λ calls. env.sys.write calls fp content)
    sys_call (fclose fp) (λ calls. tt)
    if written == length content
        then pure (int_of (pos written))
        else fail (codes "fs/write-file: failed to write all content")

  unfoldable pub write_file_impl : Evaluator Ctx → CellPtr → M Ctx CellPtr
  unfolding string_arg
  write_file_impl ev null = fail (codes "fs/write-file: requires path and content arguments")
  write_file_impl ev (node r c next) = do
    path ← string_arg ev (node r c next) (codes "fs/write-file: path must be a string")
    elim next [
      | null ↦ fail (codes "fs/write-file: requires content argument")
      | node s d rest ↦ do
        content ← string_arg ev (node s d rest) (codes "fs/write-file: content must be a string")
        actual ← actual_path env path
        fp ←
            sys_call (fopen actual (codes "w"))
              (λ calls. env.sys.open_file calls actual (codes "w"))
        write_content actual content fp
    ]

  unfoldable pub rename_impl : Evaluator Ctx → CellPtr → M Ctx CellPtr
  unfolding string_arg
  rename_impl ev null = fail (codes "fs/rename: requires old and new path arguments")
  rename_impl ev (node r c next) = do
    old_path ← string_arg ev (node r c next) (codes "fs/rename: old path must be a string")
    elim next [
      | null ↦ fail (codes "fs/rename: requires new path argument")
      | node s d rest ↦ do
        new_path ← string_arg ev (node s d rest) (codes "fs/rename: new path must be a string")
        actual_old ← actual_path env old_path
        actual_new ← actual_path env new_path
        answer_of (rename actual_old actual_new)
            (λ calls. env.sys.move_file calls actual_old actual_new)
    ]
