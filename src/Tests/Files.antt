-- ===== src/Tests/Files.antt =====
-- The theorems on assertions, files and script arguments, at concrete inputs.
use akx.Base.{
  ap, Bool-cases, inl, inr, ◌≢◌, ◌∙◌, ◌++◌, if◌then◌else◌, ℕ, ◌≡◌, refl, true, false, List, [], ◌∷◌,
  Option, none, some, get_elem?,
}
use akx.Base.Int.{pos}
use akx.Base.Text.{Bytes, codes, c_string, bytes_eq, bytes_eq_iff, decimal}
use akx.Cell.{CellPtr, null, string_literal, alloc_cell}
use akx.Cell.Chain.{list_nth}
use akx.Cell.Clone.{clone}
use akx.Command.{run_file_command}
use akx.Command.Script.{ExitsWell, run_file_command-ExitsWell}
use akx.Nucleus.Assert.{t_cell, assert_eq_impl, assert_ne_impl}
use akx.Nucleus.Assert.Holds.{Decides, assert_eq-assert_ne}
use akx.Nucleus.Files.{libc_at}
use akx.Nucleus.Fs.Handles.{fid_to_key, with_handle, keep_handle, close_handle, tell_handle}
use akx.Nucleus.Fs.Handles.Scopes.{HoldsHandles, IsOpen, closed, closed_inside}
use akx.Nucleus.Fs.Handles.Closed.{KeepsHandles, Later, now, opens, closed_here}
use akx.Nucleus.Import.{import_impl}
use akx.Nucleus.Import.Cells.{forget, called, import-runtime_start, import_unreadable}
use akx.Nucleus.Numbers.{same_atom}
use akx.Nucleus.Putf.{signed_decimal}
use akx.Rt.{
  ◌>>◌, ◌>>=◌, Runtime, Env, Outcome, timeout, done, failed, aborted, with_system, set_handle_at,
  modify, scoped, add_error, pure,
}
use akx.Rt.Eval.{eval, runtime_start}
use akx.Rt.Expand.{ResultBuffer, expand_env_vars}
use akx.System.{SysCall, FileHandle, fclose, read_file}
use akx.Tests.{
  Frames, frames_env, empty_files, start_runtime, int, chain, push_in, pop_in, get_in, set_in,
  handle_cell, cell_handle,
}

-- (assert/eq 3 3) and (assert/ne 3 3)
abbrev threes : CellPtr
threes = chain (int 3 ∷ int 3 ∷ [])

assert_eq-assert_ne_example :
    Decides true start_runtime (assert_eq_impl frames_env (eval frames_env 1) threes start_runtime)
    × Decides false start_runtime
        (assert_ne_impl frames_env (eval frames_env 1) threes start_runtime)
unfolding same_atom eval clone pure
assert_eq-assert_ne_example =
    assert_eq-assert_ne frames_env (eval frames_env 1) none none (int 3) (int 3) null threes
      (alloc_cell (int 3)) start_runtime start_runtime start_runtime refl refl

-- A file of two numbers, and one that is not there.
abbrev file_env : Env Frames
file_env = record frames_env {
  sys = record empty_files {
    contents = λ calls path. if bytes_eq path (codes "p") then some (codes "1 2") else none;
  };
  parse = λ text. (alloc_cell (int 1) ∷ alloc_cell (int 2) ∷ [], []);
}

-- The argument list ("p"), and the path expanded.
abbrev p_args : CellPtr
p_args = chain (string_literal (codes "p") ∷ [])

abbrev or_empty : Option ResultBuffer → ResultBuffer
or_empty none = record { result = []; estimated_len = 0; safe = true }
or_empty (some b) = b

abbrev expanded_p : ResultBuffer
unfolding expand_env_vars
expanded_p = or_empty (expand_env_vars (libc_at frames_env []) (codes "p"))

import-runtime_start_example :
    forget (import_impl file_env (eval file_env 2) p_args start_runtime)
    ≡ runtime_start file_env 2
        (alloc_cell (int 1) ∷ alloc_cell (int 2) ∷ [])
        (called (read_file (codes "p")) start_runtime)
unfolding list_nth eval clone pure expand_env_vars c_string bytes_eq
import-runtime_start_example =
    import-runtime_start file_env 2 p_args null null none none (string_literal (codes "p"))
      (codes "p") start_runtime start_runtime expanded_p refl refl refl (codes "1 2")
      (alloc_cell (int 1) ∷ alloc_cell (int 2) ∷ []) refl refl

import_unreadable_example :
    (rt2 : Runtime Frames) × (import_impl frames_env (eval frames_env 2) p_args start_runtime
      ≡ done t_cell rt2)
    × (rt2.errors ≡ [])
unfolding list_nth eval clone pure expand_env_vars c_string
import_unreadable_example =
    import_unreadable frames_env 2 p_args null null none none (string_literal (codes "p"))
      (codes "p") start_runtime start_runtime expanded_p refl refl refl refl

-- A file of the lines "a\n", "b\0c" and "d".
abbrev three_lines : List SysCall → Option Bytes
three_lines [] = some (codes "a\n")
three_lines (_ ∷ []) = some (b'b' ∷ 0 ∷ b'c' ∷ [])
three_lines (_ ∷ _ ∷ []) = some (codes "d")
three_lines (_ ∷ _ ∷ _ ∷ calls) = none

abbrev lines_env : Env Frames
lines_env = record frames_env {
  sys = record empty_files { gets = λ calls fp n. three_lines calls };
}

-- The laws of handles in the frames.
handle-cell : (h : Option ℕ) → cell_handle (handle_cell h) ≡ h
handle-cell none = refl
handle-cell (some h) = refl

get_in-set_in : (c : Frames) (key : Bytes) (v : CellPtr) → get_in (set_in c key v) key ≡ v
get_in-set_in (frame, frames) key v = rw ((bytes_eq_iff key key).1 refl) refl

get_in-pop_in :
    (c : Frames) (key : Bytes) (v : CellPtr)
    → get_in (pop_in (set_in (push_in c) key v)) key ≡ get_in c key
get_in-pop_in (frame, frames) key v = refl

get_in-push_in : (c : Frames) (key : Bytes) → get_in (push_in c) key ≡ get_in c key
get_in-push_in (frame, frames) key = refl

frames_handles : HoldsHandles frames_env
frames_handles = record {
  get-set = λ c key h. ap cell_handle (get_in-set_in c key (handle_cell h)) ∙ handle-cell h;
  get-push = λ c key. ap cell_handle (get_in-push_in c key);
  get-pop = λ c key h. ap cell_handle (get_in-pop_in c key (handle_cell h));
}

-- A file that is open as number 1, at address 0.
abbrev first_handle : FileHandle
first_handle = record { fp = 7; path = codes "p"; mode = codes "r"; position = pos 0 }

abbrev open_runtime : Runtime Frames
open_runtime = record start_runtime {
  current_context = frames_env.set_handle ([], []) (fid_to_key (pos 1)) (some 0);
  system = record (start_runtime.system) { handles = some first_handle ∷ []; next_fid = pos 2 };
}

first_IsOpen : IsOpen frames_handles open_runtime (pos 1) 0 first_handle
unfolding decimal bytes_eq
first_IsOpen = record { not_negative = refl; bound = refl; live = refl }

closed_inside_example :
    (rt' rt'' : Runtime Frames) × (scoped frames_env
        (with_handle frames_env (codes "fs/close") (pos 1) (close_handle frames_env (pos 1)))
        open_runtime
      ≡ done (alloc_cell (int 1)) rt')
    × (with_handle frames_env (codes "fs/tell") (pos 1) (tell_handle frames_env) rt' ≡ aborted rt'')
    × (rt''.system.bad_access ≡ true)
closed_inside_example =
    closed_inside frames_handles (codes "fs/close") (codes "fs/tell") (tell_handle frames_env)
      (pos 1) 0 first_handle open_runtime first_IsOpen

run_file_command-ExitsWell_example :
    ExitsWell file_env 2
      (codes "p")
      (codes "p" ∷ codes "a" ∷ [])
      start_runtime
      (run_file_command file_env 2 (codes "p") (codes "p" ∷ codes "a" ∷ []) start_runtime)
run_file_command-ExitsWell_example =
    run_file_command-ExitsWell file_env 2 (codes "p") (codes "p" ∷ codes "a" ∷ []) start_runtime

bytes_eq_differ : (other key : Bytes) → other ≢ key → bytes_eq other key ≡ false
bytes_eq_differ other key ne = elim (Bool-cases (bytes_eq other key)) [
  | inl same ↦ absurd (ne ((bytes_eq_iff other key).0 same))
  | inr differ ↦ differ
]

get_in-set_in_other :
    (c : Frames) (key other : Bytes) (v : CellPtr)
    → other ≢ key
    → get_in (set_in c other v) key ≡ get_in c key
get_in-set_in_other (frame, frames) key other v ne = rw (bytes_eq_differ other key ne) refl

frames_keep : KeepsHandles frames_env
frames_keep = record {
  get-set_other =
      λ c key other h ne. ap cell_handle (get_in-set_in_other c key other (handle_cell h) ne);
  get-set_value = λ c key other v ne. ap cell_handle (get_in-set_in_other c key other v ne);
}

-- The state behind the close, and behind another file that was opened after it.
abbrev closed_runtime : Runtime Frames
closed_runtime = closed frames_handles (pos 1) 0 first_handle open_runtime

abbrev state_after : Outcome Frames CellPtr → Runtime Frames
state_after timeout = start_runtime
state_after (failed rt) = rt
state_after (aborted rt) = rt
state_after (done p rt) = rt

abbrev reopened_runtime : Runtime Frames
unfolding keep_handle
reopened_runtime = state_after (keep_handle frames_env first_handle closed_runtime)

never : ¬ (false ≡ true)
never e = cc

keys_differ : fid_to_key closed_runtime.system.next_fid ≢ fid_to_key (pos 1)
unfolding decimal bytes_eq
keys_differ e = never ((bytes_eq_iff (fid_to_key (pos 2)) (fid_to_key (pos 1))).1 e)

reopened_Later : Later frames_env (pos 1) closed_runtime reopened_runtime
unfolding keep_handle ◌>>◌ ◌>>=◌ with_system set_handle_at modify pure reopened_runtime
reopened_Later = opens closed_runtime first_handle (alloc_cell (int 2)) now keys_differ refl

closed_here_example :
    (with_handle frames_env
        (codes "fs/close")
        (pos 1)
        (close_handle frames_env (pos 1))
        open_runtime
      ≡ done (alloc_cell (int 1)) closed_runtime)
    × (closed_runtime.system.calls ≡ fclose 7 ∷ [])
    × (get_elem? closed_runtime.system.handles 0 ≡ some none)
    × (with_handle frames_env (codes "fs/tell") (pos 1) (tell_handle frames_env) reopened_runtime
        ≡ failed (
            add_error none
              (codes "fs/tell" ++ (codes ": invalid file ID " ++ signed_decimal (pos 1)))
              reopened_runtime))
closed_here_example =
    closed_here frames_handles frames_keep (codes "fs/close") (codes "fs/tell")
      (tell_handle frames_env) (pos 1) 0 first_handle open_runtime reopened_runtime first_IsOpen
      reopened_Later
