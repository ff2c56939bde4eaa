-- ===== src/Tests.antt =====
-- A concrete scope chain, environment and program, for the tests of the runtime.
mod Evaluation
mod Calls
mod Nuclei
mod Texts
mod Parsing
mod Iteration
mod Builtins
mod Files
mod Terminal
use akx.Base.{
  not, ℕ, zero, suc, Bool, true, false, ◌||◌, List, [], ◌∷◌, Option, none, some, ◌==◌, ◌+◌, ltb,
  if◌then◌else◌, length, set,
}
use akx.Base.Int.{ℤ, pos}
use akx.Base.Text.{Bytes, codes, bytes_eq}
use akx.Cell.{
  Cell, CellPtr, null, node, symbol, integer_literal, list, round, square, alloc_cell, is_null,
}
use akx.System.{System, SystemState}
use akx.Rt.{Runtime, Env}
use akx.State.{Builtin, lambda_nucleus, let_nucleus, set_nucleus, add_nucleus, loop_nucleus}

-- A frame binds names to cells; the innermost frame stands first, and there is always one.
abbrev pub Frame : Type 0
Frame = List (Bytes × CellPtr)

abbrev pub Frames : Type 0
Frames = Frame × List Frame

abbrev pub find : Frame → Bytes → Option CellPtr
find [] key = none
find ((k, v) ∷ frame) key = if bytes_eq k key then some v else find frame key

abbrev pub is_some : Option CellPtr → Bool
is_some none = false
is_some (some _) = true

abbrev pub or_else : Option CellPtr → Option CellPtr → Option CellPtr
or_else none o = o
or_else (some p) o = some p

abbrev pub find_in : List Frame → Bytes → Option CellPtr
find_in [] key = none
find_in (frame ∷ frames) key = or_else (find frame key) (find_in frames key)

abbrev pub or_null : Option CellPtr → CellPtr
or_null none = null
or_null (some p) = p

abbrev pub assign_frames : List Frame → Bytes → CellPtr → List Frame
assign_frames [] key value = []
assign_frames (frame ∷ frames) key value =
    if is_some (find frame key)
    then ((key, value) ∷ frame) ∷ frames
    else frame ∷ assign_frames frames key value

abbrev pub push_in : Frames → Frames
push_in (frame, frames) = ([], frame ∷ frames)

abbrev pub pop_in : Frames → Frames
pop_in (frame, []) = (frame, [])
pop_in (frame, next ∷ frames) = (next, frames)

abbrev pub set_in : Frames → Bytes → CellPtr → Frames
set_in (frame, frames) key value = ((key, value) ∷ frame, frames)

abbrev pub assign_in : Frames → Bytes → CellPtr → Frames
assign_in (frame, frames) key value =
    if is_some (find frame key)
    then ((key, value) ∷ frame, frames)
    else (frame, assign_frames frames key value)

abbrev pub get_in : Frames → Bytes → CellPtr
get_in (frame, frames) key = or_null (or_else (find frame key) (find_in frames key))

-- The address of a file handle is kept as an integer cell.
abbrev pub handle_cell : Option ℕ → CellPtr
handle_cell none = null
handle_cell (some h) = alloc_cell (integer_literal (pos h))

abbrev pub cell_handle : CellPtr → Option ℕ
cell_handle (node _ (integer_literal (pos h)) _) = some h
cell_handle _ = none

-- Files that open and are empty, and a silent terminal.
abbrev pub empty_files : System
empty_files = record {
  isalnum = λ c. ltb b'@' c;
  getenv = λ calls name. none;
  join_akx = λ home. none;
  join = λ parts. none;
  dirname = λ path. some path;
  basename = λ path. some path;
  open_file = λ calls path mode. some (length calls);
  seek = λ calls fp offset whence. true;
  tell = λ calls fp. pos 0;
  read = λ calls fp n. [];
  gets = λ calls fp n. none;
  write = λ calls fp content. length content;
  file_stat = λ calls path. none;
  make_dir = λ calls path. true;
  remove_dir = λ calls path. true;
  remove_file = λ calls path. true;
  change_dir = λ calls path. true;
  move_file = λ calls old new. true;
  set_var = λ calls name value. true;
  getcwd = λ calls. some (codes "/");
  entries = λ calls path. some [];
  contents = λ calls path. none;
  next_char = λ calls. none;
  next_int = λ calls. none;
  next_real = λ calls. none;
  next_word = λ calls. none;
  next_line = λ calls. none;
}

abbrev pub depth_of : Frames → ℕ
depth_of (frame, frames) = length frames

abbrev pub builtin_of : Bytes → Option Builtin
builtin_of name =
    if bytes_eq name (codes "lambda")
    then some lambda_nucleus
    else if bytes_eq name (codes "let")
    then some let_nucleus
    else if bytes_eq name (codes "set")
    then some set_nucleus
    else if bytes_eq name (codes "+")
    then some add_nucleus
    else if bytes_eq name (codes "loop")
    then some loop_nucleus
    else none

abbrev pub frames_env : Env Frames
frames_env = record {
  push = push_in;
  pop = pop_in;
  set = set_in;
  get = get_in;
  has_local = λ c key. is_some (find c.0 key);
  has = λ c key. is_some (or_else (find c.0 key) (find_in c.1 key));
  assign = assign_in;
  builtin = builtin_of;
  unwrap = λ text. alloc_cell (symbol text);
  lambda_free =
      λ l contexts. set contexts l (record { param_names = []; body = null; result = null });
  same_lambda = λ a b. a == b;
  real_eq = λ a b. a == b;
  real_lt = λ a b. false;
  real_le = λ a b. a == b;
  real_plus = λ a b. a;
  real_minus = λ a b. a;
  real_times = λ a b. a;
  real_over = λ a b. a;
  real_fmod = λ a b. a;
  is_tiny = λ a. a == 0;
  format_real = λ a. [];
  set_handle = λ c key handle. set_in c key (handle_cell handle);
  get_handle = λ c key. cell_handle (get_in c key);
  parse = λ text. ([], []);
  sys = empty_files;
  is_sizable = λ a. not (a == 0);
}

abbrev pub start_runtime : Runtime Frames
start_runtime = record {
  output = [];
  script_args = [];
  system = record { calls = []; handles = []; next_fid = pos 1; bad_access = false };
  error_count = 0;
  errors = [];
  current_context = ([], []);
  current_module_name = none;
  in_tail_position = false;
  lambdas = [];
}

-- A cell and the cells behind it.
abbrev pub chain : List Cell → CellPtr
chain [] = null
chain (c ∷ cs) = node none c (chain cs)

abbrev pub sym : Bytes → Cell
sym name = symbol name

abbrev pub int : ℕ → Cell
int n = integer_literal (pos n)

abbrev pub call : List Cell → Cell
call cs = list round (chain cs)

-- (let f (lambda [x] (+ x 1)))
abbrev pub define_f : CellPtr
define_f = alloc_cell (
    call (
      sym (codes "let")
      ∷ sym (codes "f")
      ∷ call (
          sym (codes "lambda")
          ∷ list square (chain (sym (codes "x") ∷ []))
          ∷ call (sym (codes "+") ∷ sym (codes "x") ∷ int 1 ∷ [])
          ∷ [])
      ∷ []))

-- (f 41), and the same with an argument too many
abbrev pub call_f : CellPtr
call_f = alloc_cell (call (sym (codes "f") ∷ int 41 ∷ []))

abbrev pub call_f_wrong : CellPtr
call_f_wrong = alloc_cell (call (sym (codes "f") ∷ int 41 ∷ int 42 ∷ []))
