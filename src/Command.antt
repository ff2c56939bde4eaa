-- ===== src/Command.antt =====
-- cmd/akx: what the command line asks for, the run of a file, and the lists of nuclei.
pub mod Script
use akx.Base.{
  ℕ, zero, suc, ◌+◌, ◌-◌, ◌%◌, Bool, ◌&&◌, ◌||◌, List, [], ◌∷◌, ◌++◌, Option, none, some, ◌==◌,
  if◌then◌else◌, leb, length, take, drop,
}
use akx.Base.Text.{Bytes, codes, strcmp_eq, decimal}
use akx.Nucleus.Fs.{visible}
use akx.Nucleus.Import.{Parsed, parse_file}
use akx.Repl.Loop.{messages_of}
use akx.Rt.{
  Env, M, ◌>>=◌, ◌>>◌, handle, pure, asks, modify, print, sys_call, out_of_fuel, set_script_args,
}
use akx.Rt.Eval.{runtime_start}
use akx.System.{list_dir, stat, regular, directory, other, FileStat}

-- What `app_main` does with the arguments behind the name of the program.
pub data Command : Type 0 where
  start_repl print_help nucleus_info nucleus_list : Command
  run_script : Bytes → List Bytes → Command
  -- a message, and the exit code 1
  usage : Bytes → Command

abbrev pub nucleus_command : List Bytes → Command
nucleus_command [] = usage (codes "Usage: akx nucleus <info|list>\n")
nucleus_command (subcommand ∷ args) =
    if strcmp_eq subcommand (codes "info")
    then nucleus_info
    else if strcmp_eq subcommand (codes "list")
    then nucleus_list
    else usage (
        codes "Unknown nucleus subcommand: "
        ++ (subcommand ++ codes "\nAvailable subcommands: info, list\n"))

-- `app_main` and `akx_dispatch_command`. All arguments from the file on are those of the script.
unfoldable pub command_of : List Bytes → Command
command_of [] = start_repl
command_of (arg ∷ args) =
    if strcmp_eq arg (codes "-h") || strcmp_eq arg (codes "--help")
    then print_help
    else if strcmp_eq arg (codes "nucleus")
    then nucleus_command args
    else run_script arg (arg ∷ args)

-- A text that is padded with spaces to a width, and the largest length.
unfoldable pub padding : ℕ → Bytes
padding zero = []
padding (suc n) = b' ' ∷ padding n

unfoldable pub max_len : List Bytes → ℕ → ℕ
max_len [] n = n
max_len (name ∷ names) n = max_len names (if leb (length name) n then n else length name)

abbrev pub cell_text : ℕ → ℕ → ℕ → Bytes → Bytes
cell_text columns col_width i name =
    (if i % columns == 0 then codes "  " else []) ++ (name ++ padding (col_width - length name))

-- The loop that prints the names in columns, from the index `i` on.
unfoldable pub print_columns : ℕ → ℕ → ℕ → List Bytes → Bytes
unfolding padding
print_columns columns col_width i [] = []
print_columns columns col_width i (name ∷ []) = cell_text columns col_width i name ++ b'\n' ∷ []
print_columns columns col_width i (name ∷ next ∷ names) =
    let rest = print_columns columns col_width (i + 1) (next ∷ names) in
    cell_text columns col_width i name ++ (if (i + 1) % columns == 0 then b'\n' ∷ rest else rest)

-- What `akx nucleus info` prints; the names are the keys of the table of builtins as `qsort` leaves
-- them.
unfoldable pub info_text : List Bytes → Bytes
unfolding print_columns max_len
info_text names =
    codes "\nCompiled-in Builtins ("
    ++ (decimal (length names)
        ++ (codes "):\n\n" ++ (print_columns 4 (max_len names 0 + 2) 0 names ++ b'\n' ∷ [])))

abbrev pub files_text : List Bytes → Bytes
files_text [] = codes "  (no nucleus files found)\n\n"
files_text (name ∷ names) =
    print_columns 3 (max_len (name ∷ names) 0 + 2) 0 (name ∷ names) ++ b'\n' ∷ []

unfoldable pub ends_with : Bytes → Bytes → Bool
unfolding strcmp_eq
ends_with str suffix =
    leb (length suffix) (length str) && strcmp_eq (drop (length str - length suffix) str) suffix

-- `snprintf` of "%s/%s" into 1024 bytes, where an empty first part leaves the second alone.
abbrev pub path_under : Bytes → Bytes → Bytes
path_under [] name = take 1023 name
path_under (c ∷ base) name = take 1023 ((c ∷ base) ++ b'/' ∷ name)

abbrev pub full_path_of : Bytes → Bytes → Bytes
full_path_of base_path [] = take 1023 base_path
full_path_of base_path (c ∷ relative) = take 1023 (base_path ++ b'/' ∷ c ∷ relative)

module _ {Ctx : Type 0} (env : Env Ctx) where
  -- One entry of a directory. `descend` is the scan of the directory by that path.
  abbrev pub scan_entry :
      (Bytes → M Ctx (List Bytes)) → Bytes → Bytes → Option FileStat → M Ctx (List Bytes)
  scan_entry descend name rel_path none = pure []
  scan_entry descend name rel_path (some st) = elim (st.kind) [
    | directory ↦ descend rel_path
    | regular ↦ pure (if ends_with name (codes ".c") then rel_path ∷ [] else [])
    | other ↦ pure []
  ]

  unfoldable pub scan_entries :
      (Bytes → M Ctx (List Bytes)) → Bytes → Bytes → List Bytes → M Ctx (List Bytes)
  unfolding ends_with
  scan_entries descend full_path relative_path [] = pure []
  scan_entries descend full_path relative_path (name ∷ names) = do
    let rel_path = path_under relative_path name
    let entry_path = take 1023 (full_path ++ b'/' ∷ name)
    st ← sys_call (stat entry_path) (λ calls. env.sys.file_stat calls entry_path)
    files ← scan_entry descend name rel_path st
    more ← scan_entries descend full_path relative_path names
    pure (files ++ more)

  abbrev pub scan_opened :
      (Bytes → M Ctx (List Bytes)) → Bytes → Bytes → Option (List Bytes) → M Ctx (List Bytes)
  scan_opened descend full_path relative_path none = pure []
  scan_opened descend full_path relative_path (some names) =
      scan_entries descend full_path relative_path (visible names)

  -- The paths of the C files under a directory; the fuel bounds the depth of the directories.
  unfoldable pub scan_directory_recursive : ℕ → Bytes → Bytes → M Ctx (List Bytes)
  unfolding scan_entries visible
  scan_directory_recursive zero base_path relative_path = out_of_fuel
  scan_directory_recursive (suc fuel) base_path relative_path =
      let full_path = full_path_of base_path relative_path in
      sys_call (list_dir full_path) (λ calls. env.sys.entries calls full_path)
      >>= scan_opened (scan_directory_recursive fuel base_path) full_path relative_path

  abbrev pub list_under : (List Bytes → List Bytes) → ℕ → Option Bytes → M Ctx ℕ
  list_under qsort fuel none = print (codes "Error: Could not construct nucleus path\n") >> pure 1
  list_under qsort fuel (some nucleus_path) = do
    files ← scan_directory_recursive fuel nucleus_path []
    print (
        codes "\nAvailable Nuclei in "
        ++ (nucleus_path ++ (codes " (" ++ (decimal (length files) ++ codes " files):\n\n"))))
    print (files_text (qsort files))
    pure 0

  -- `akx_nucleus_list`, with the home directory and the sorting of the C library.
  unfoldable pub akx_nucleus_list : (List Bytes → List Bytes) → Option Bytes → ℕ → M Ctx ℕ
  unfolding scan_directory_recursive print_columns max_len
  akx_nucleus_list qsort none fuel =
      print (codes "Error: Could not determine home directory\n") >> pure 1
  akx_nucleus_list qsort (some home) fuel =
      list_under qsort fuel (env.sys.join (home ∷ codes ".akx/nucleus" ∷ []))

  -- The exit code, and the messages of the errors that are shown.
  abbrev pub interpret_parsed : ℕ → Parsed → M Ctx (ℕ × List Bytes)
  interpret_parsed fuel (cells, message ∷ messages) = pure (1, message ∷ messages)
  interpret_parsed fuel (cells, []) =
      handle (runtime_start env fuel cells)
        (asks (λ rt. rt.errors) λ errors. pure (1, messages_of errors)) (λ _. pure (0, []))

  unfoldable pub akx_interpret_file : ℕ → Bytes → M Ctx (ℕ × List Bytes)
  unfolding parse_file runtime_start messages_of
  akx_interpret_file fuel filename = parse_file env filename >>= interpret_parsed fuel

  -- The run of a script by `app_main`.
  unfoldable pub run_file_command : ℕ → Bytes → List Bytes → M Ctx (ℕ × List Bytes)
  unfolding akx_interpret_file modify
  run_file_command fuel file args = modify (set_script_args args) >> akx_interpret_file fuel file
