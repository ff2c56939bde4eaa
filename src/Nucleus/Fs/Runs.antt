-- ===== src/Nucleus/Fs/Runs.antt =====
-- The nuclei on paths keep what each step keeps, and do not depend on the fuel.
use akx.Base.{ℕ, Bool, List, Option, none, some, ◌==◌, length}
use akx.Base.Text.{Bytes}
use akx.Cell.{CellPtr, null, node}
use akx.Nucleus.Files.Runs.{string_arg-Runs, actual_path-Runs}
use akx.Nucleus.Fs.{
  with_path, close_if_open, exists_impl, answer_of, is_file_impl, is_dir_impl, delete_impl,
  mkdir_impl, rmdir_impl, stat_result, stat_impl, dir_result, list_dir_impl, read_result,
  read_file_impl, write_content, write_file_impl, rename_impl,
}
use akx.Rt.{Runtime, Env, M, Evaluator}
use akx.Rt.Within.{
  IsKept, Runs, Agrees, Runs-pure, Runs-bind, Runs-then, Runs-if, Runs-fail, Runs-call,
}
use akx.System.{SysCall, FileStat}

module _ {Ctx : Type 0} {env : Env Ctx} {R : Runtime Ctx → Runtime Ctx → Type 0}
    (kept : IsKept env R) where
  close_if_open-Runs : (o : Option ℕ) → Runs R (close_if_open env o) (close_if_open env o)
  close_if_open-Runs none = Runs-pure kept _
  close_if_open-Runs (some fp) = Runs-then kept (Runs-call kept _ _) (Runs-pure kept _)

  pub answer_of-Runs :
      (c : SysCall) (answer : List SysCall → Bool)
      → Runs R (answer_of env c answer) (answer_of env c answer)
  answer_of-Runs c answer = Runs-bind kept (Runs-call kept _ _) λ b. Runs-pure kept _

  stat_result-Runs :
      (path : Bytes) (o : Option FileStat)
      → Runs R (stat_result env path o) (stat_result env path o)
  stat_result-Runs path none = Runs-fail kept _
  stat_result-Runs path (some st) = Runs-pure kept _

  dir_result-Runs :
      (path : Bytes) (o : Option (List Bytes))
      → Runs R (dir_result env path o) (dir_result env path o)
  dir_result-Runs path none = Runs-fail kept _
  dir_result-Runs path (some names) = Runs-pure kept _

  read_result-Runs :
      (path : Bytes) (o : Option Bytes) → Runs R (read_result env path o) (read_result env path o)
  read_result-Runs path none = Runs-fail kept _
  read_result-Runs path (some content) = Runs-pure kept _

  write_content-Runs :
      (path content : Bytes) (o : Option ℕ)
      → Runs R (write_content env path content o) (write_content env path content o)
  write_content-Runs path content none = Runs-fail kept _
  write_content-Runs path content (some fp) = Runs-bind kept (Runs-call kept _ _) λ written.
      Runs-then kept (Runs-call kept _ _)
        (Runs-if kept (written == length content) (Runs-pure kept _) (Runs-fail kept _))

  module _ (ev ev' : Evaluator Ctx) (same : Agrees R ev ev') where
    pub with_path-Runs :
        (missing wrong_type : Bytes) (act : Bytes → M Ctx CellPtr)
        → ((path : Bytes) → Runs R (act path) (act path))
        → (args : CellPtr)
        → Runs R
            (with_path env missing wrong_type act ev args)
            (with_path env missing wrong_type act ev' args)
    unfolding with_path
    with_path-Runs missing wrong_type act h null = Runs-fail kept missing
    with_path-Runs missing wrong_type act h (node r c next) =
        Runs-bind kept (string_arg-Runs kept ev ev' same _ _)
          λ path. Runs-bind kept (actual_path-Runs kept path) h

    pub exists_impl-Runs :
        (args : CellPtr) → Runs R (exists_impl env ev args) (exists_impl env ev' args)
    unfolding exists_impl
    exists_impl-Runs =
        with_path-Runs _ _ _ λ path. Runs-bind kept (Runs-call kept _ _) close_if_open-Runs

    pub is_file_impl-Runs :
        (args : CellPtr) → Runs R (is_file_impl env ev args) (is_file_impl env ev' args)
    unfolding is_file_impl
    is_file_impl-Runs = with_path-Runs _ _ _ λ path. answer_of-Runs _ _

    pub is_dir_impl-Runs :
        (args : CellPtr) → Runs R (is_dir_impl env ev args) (is_dir_impl env ev' args)
    unfolding is_dir_impl
    is_dir_impl-Runs = with_path-Runs _ _ _ λ path. answer_of-Runs _ _

    pub delete_impl-Runs :
        (args : CellPtr) → Runs R (delete_impl env ev args) (delete_impl env ev' args)
    unfolding delete_impl
    delete_impl-Runs = with_path-Runs _ _ _ λ path. answer_of-Runs _ _

    pub mkdir_impl-Runs :
        (args : CellPtr) → Runs R (mkdir_impl env ev args) (mkdir_impl env ev' args)
    unfolding mkdir_impl
    mkdir_impl-Runs = with_path-Runs _ _ _ λ path. answer_of-Runs _ _

    pub rmdir_impl-Runs :
        (args : CellPtr) → Runs R (rmdir_impl env ev args) (rmdir_impl env ev' args)
    unfolding rmdir_impl
    rmdir_impl-Runs = with_path-Runs _ _ _ λ path. answer_of-Runs _ _

    pub stat_impl-Runs : (args : CellPtr) → Runs R (stat_impl env ev args) (stat_impl env ev' args)
    unfolding stat_impl
    stat_impl-Runs =
        with_path-Runs _ _ _ λ path. Runs-bind kept (Runs-call kept _ _) (stat_result-Runs path)

    pub list_dir_impl-Runs :
        (args : CellPtr) → Runs R (list_dir_impl env ev args) (list_dir_impl env ev' args)
    unfolding list_dir_impl
    list_dir_impl-Runs =
        with_path-Runs _ _ _ λ path. Runs-bind kept (Runs-call kept _ _) (dir_result-Runs path)

    pub read_file_impl-Runs :
        (args : CellPtr) → Runs R (read_file_impl env ev args) (read_file_impl env ev' args)
    unfolding read_file_impl
    read_file_impl-Runs =
        with_path-Runs _ _ _ λ path. Runs-bind kept (Runs-call kept _ _) (read_result-Runs path)

    pub write_file_impl-Runs :
        (args : CellPtr) → Runs R (write_file_impl env ev args) (write_file_impl env ev' args)
    unfolding write_file_impl
    write_file_impl-Runs null = Runs-fail kept _
    write_file_impl-Runs (node r c null) =
        Runs-bind kept (string_arg-Runs kept ev ev' same _ _) λ path. Runs-fail kept _
    write_file_impl-Runs (node r c (node s d rest)) =
        Runs-bind kept (string_arg-Runs kept ev ev' same _ _) λ path.
          Runs-bind kept (string_arg-Runs kept ev ev' same _ _) λ content.
            Runs-bind kept (actual_path-Runs kept path)
              λ actual. Runs-bind kept (Runs-call kept _ _) (write_content-Runs actual content)

    pub rename_impl-Runs :
        (args : CellPtr) → Runs R (rename_impl env ev args) (rename_impl env ev' args)
    unfolding rename_impl
    rename_impl-Runs null = Runs-fail kept _
    rename_impl-Runs (node r c null) =
        Runs-bind kept (string_arg-Runs kept ev ev' same _ _) λ path. Runs-fail kept _
    rename_impl-Runs (node r c (node s d rest)) =
        Runs-bind kept (string_arg-Runs kept ev ev' same _ _) λ old_path.
          Runs-bind kept (string_arg-Runs kept ev ev' same _ _) λ new_path.
            Runs-bind kept (actual_path-Runs kept old_path) λ actual_old.
              Runs-bind kept (actual_path-Runs kept new_path) λ actual_new. answer_of-Runs _ _
