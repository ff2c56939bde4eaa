-- ===== src/System.antt =====
-- What the nuclei ask of the C library and of the operating system. An answer is a function of the
-- calls made before it, latest first: the state of the files, of the environment and of the terminal
-- is whatever those calls made of it.
use akx.Base.{ℕ, Bool, List, Option}
use akx.Base.Int.{ℤ}
use akx.Base.Text.{Bytes}

-- A `FILE *` is a number, and `whence` is 0, 1 or 2 for SEEK_SET, SEEK_CUR and SEEK_END.
pub data SysCall : Type 0 where
  fopen : Bytes → Bytes → SysCall
  fclose fflush ftell : ℕ → SysCall
  fseek : ℕ → ℤ → ℕ → SysCall
  fread fgets : ℕ → ℕ → SysCall
  fwrite : ℕ → Bytes → SysCall
  stat mkdir rmdir unlink chdir list_dir read_file : Bytes → SysCall
  rename setenv : Bytes → Bytes → SysCall
  getchar scan_int scan_real scan_word read_line : SysCall
  ungetc : ℕ → SysCall
  log_error : Bytes → SysCall

pub data FileKind : Type 0 where
  regular directory other : FileKind

-- The fields of `struct stat` that are read; `mode` is `st_mode & 0777`.
pub record FileStat : Type 0 where
  pub size : ℤ
  pub kind : FileKind
  pub mtime : ℤ
  pub mode : ℕ

pub record System : Type 0 where
  pub isalnum : ℕ → Bool
  pub getenv : List SysCall → Bytes → Option Bytes
  -- the path that `ak_filepath_join` makes of the home directory and ".akx"
  pub join_akx : Bytes → Option Bytes
  pub join : List Bytes → Option Bytes
  pub dirname : Bytes → Option Bytes
  pub basename : Bytes → Option Bytes
  pub open_file : List SysCall → Bytes → Bytes → Option ℕ
  -- whether the call returned 0
  pub seek : List SysCall → ℕ → ℤ → ℕ → Bool
  pub tell : List SysCall → ℕ → ℤ
  -- the bytes that were read, at most as many as asked for
  pub read : List SysCall → ℕ → ℕ → Bytes
  -- a line with its newline, cut to one byte less than the size of the buffer
  pub gets : List SysCall → ℕ → ℕ → Option Bytes
  -- how many bytes were written
  pub write : List SysCall → ℕ → Bytes → ℕ
  pub file_stat : List SysCall → Bytes → Option FileStat
  -- whether the call returned 0
  pub make_dir : List SysCall → Bytes → Bool
  pub remove_dir : List SysCall → Bytes → Bool
  pub remove_file : List SysCall → Bytes → Bool
  pub change_dir : List SysCall → Bytes → Bool
  pub move_file : List SysCall → Bytes → Bytes → Bool
  pub set_var : List SysCall → Bytes → Bytes → Bool
  pub getcwd : List SysCall → Option Bytes
  -- `opendir`, and the names that `readdir` gives until it returns NULL
  pub entries : List SysCall → Bytes → Option (List Bytes)
  -- `ak_buffer_from_file`
  pub contents : List SysCall → Bytes → Option Bytes
  -- what is typed: `getchar`, `scanf` of "%d", "%lf" and "%1023s", and `fgets` of 2048 bytes
  pub next_char : List SysCall → Option ℕ
  pub next_int : List SysCall → Option ℤ
  pub next_real : List SysCall → Option ℕ
  pub next_word : List SysCall → Option Bytes
  pub next_line : List SysCall → Option Bytes

-- `file_handle_t`
pub record FileHandle : Type 0 where
  pub fp : ℕ
  pub path : Bytes
  pub mode : Bytes
  pub position : ℤ

-- `handles` has a place for each handle that was allocated, with none once it is freed; the address
-- of a handle is its place. `bad_access` says that memory was used that is not allocated.
pub record SystemState : Type 0 where
  pub calls : List SysCall
  pub handles : List (Option FileHandle)
  pub next_fid : ℤ
  pub bad_access : Bool
