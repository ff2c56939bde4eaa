-- ===== src/Nucleus/Fs/Paths/Runs.antt =====
-- The nuclei on parts of paths and of nucleus/os keep what each step keeps, and do not depend on the
-- fuel.
use akx.Base.{Option, none, some, leb, length}
use akx.Base.Text.{Bytes, codes, strcmp_eq}
use akx.Cell.{CellPtr, null, node, symbol}
use akx.Nucleus.Files.Runs.{string_arg-Runs, string_option-Runs}
use akx.Nucleus.Fs.Runs.{with_path-Runs, answer_of-Runs}
use akx.Nucleus.Fs.Paths.{
  path_args, text_or_fail, path_join_impl, part_of_path, dirname_impl, basename_impl, os_chdir_impl,
  os_cwd_impl, os_args_impl, var_result, get_var, set_var, os_env_impl,
}
use akx.Rt.Options.{is_keyword}
use akx.Rt.{Runtime, Env, Evaluator}
use akx.Rt.Within.{IsKept, Runs, Agrees, Runs-pure, Runs-bind, Runs-if, Runs-fail, Runs-asks}

module _ {Ctx : Type 0} {env : Env Ctx} {R : Runtime Ctx → Runtime Ctx → Type 0}
    (kept : IsKept env R) where
  text_or_fail-Runs :
      (message : Bytes) (o : Option Bytes)
      → Runs R (text_or_fail message o) (text_or_fail message o)
  text_or_fail-Runs message none = Runs-fail kept message
  text_or_fail-Runs message (some text) = Runs-pure kept _

  var_result-Runs : (o : Option Bytes) → Runs R (var_result env o) (var_result env o)
  var_result-Runs none = Runs-pure kept _
  var_result-Runs (some value) = Runs-pure kept _

  module _ (ev ev' : Evaluator Ctx) (same : Agrees R ev ev') where
    path_args-Runs : (args : CellPtr) → Runs R (path_args ev args) (path_args ev' args)
    unfolding path_args
    path_args-Runs null = Runs-pure kept _
    path_args-Runs (node r c next) =
        Runs-bind kept (string_arg-Runs kept ev ev' same _ _)
          λ path. Runs-bind kept (path_args-Runs next) λ paths. Runs-pure kept _

    pub path_join_impl-Runs :
        (args : CellPtr) → Runs R (path_join_impl env ev args) (path_join_impl env ev' args)
    unfolding path_join_impl
    path_join_impl-Runs null = Runs-fail kept _
    path_join_impl-Runs (node r c next) =
        Runs-bind kept (path_args-Runs (node r c next))
          λ paths. Runs-if kept (leb (length paths) 5) (text_or_fail-Runs _ _) (Runs-fail kept _)

    part_of_path-Runs :
        (part : Bytes → Option Bytes) (missing wrong_type failure : Bytes) (args : CellPtr)
        → Runs R
            (part_of_path env part missing wrong_type failure ev args)
            (part_of_path env part missing wrong_type failure ev' args)
    unfolding part_of_path
    part_of_path-Runs part missing wrong_type failure null = Runs-fail kept missing
    part_of_path-Runs part missing wrong_type failure (node r c next) =
        Runs-bind kept (string_arg-Runs kept ev ev' same _ _)
          λ path. text_or_fail-Runs failure (part path)

    pub dirname_impl-Runs :
        (args : CellPtr) → Runs R (dirname_impl env ev args) (dirname_impl env ev' args)
    unfolding dirname_impl
    dirname_impl-Runs = part_of_path-Runs _ _ _ _

    pub basename_impl-Runs :
        (args : CellPtr) → Runs R (basename_impl env ev args) (basename_impl env ev' args)
    unfolding basename_impl
    basename_impl-Runs = part_of_path-Runs _ _ _ _

    pub os_chdir_impl-Runs :
        (args : CellPtr) → Runs R (os_chdir_impl env ev args) (os_chdir_impl env ev' args)
    unfolding os_chdir_impl
    os_chdir_impl-Runs = with_path-Runs kept ev ev' same _ _ _ λ path. answer_of-Runs kept _ _

    pub os_cwd_impl-Runs :
        (args : CellPtr) → Runs R (os_cwd_impl env ev args) (os_cwd_impl env ev' args)
    unfolding os_cwd_impl
    os_cwd_impl-Runs args = Runs-asks kept _ (text_or_fail-Runs _)

    pub os_args_impl-Runs :
        (args : CellPtr) → Runs R (os_args_impl env ev args) (os_args_impl env ev' args)
    unfolding os_args_impl
    os_args_impl-Runs args = Runs-asks kept _ λ argv. Runs-pure kept _

    get_var-Runs : (value : CellPtr) → Runs R (get_var env ev value) (get_var env ev' value)
    unfolding get_var
    get_var-Runs value =
        Runs-bind kept (string_option-Runs kept ev ev' same _ _)
          λ name. Runs-asks kept _ var_result-Runs

    set_var-Runs :
        (value next : CellPtr) → Runs R (set_var env ev value next) (set_var env ev' value next)
    unfolding set_var
    set_var-Runs value null =
        Runs-bind kept (string_option-Runs kept ev ev' same _ _) λ name. Runs-fail kept _
    set_var-Runs value (node r c next) =
        Runs-bind kept (string_option-Runs kept ev ev' same _ _) λ name.
          Runs-bind kept (string_option-Runs kept ev ev' same _ _) λ text. answer_of-Runs kept _ _

    pub os_env_impl-Runs :
        (args : CellPtr) → Runs R (os_env_impl env ev args) (os_env_impl env ev' args)
    unfolding os_env_impl
    os_env_impl-Runs null = Runs-fail kept _
    os_env_impl-Runs (node _ (symbol keyword) null) =
        Runs-if kept (is_keyword keyword) (Runs-fail kept _) (Runs-fail kept _)
    os_env_impl-Runs (node _ (symbol keyword) (node r c next)) =
        Runs-if kept (is_keyword keyword)
          (Runs-if kept (strcmp_eq keyword (codes ":get")) (get_var-Runs (node r c next)) (
            Runs-if kept (strcmp_eq keyword (codes ":set")) (set_var-Runs (node r c next) next)
              (Runs-fail kept _)))
          (Runs-fail kept _)
    os_env_impl-Runs _ = Runs-fail kept _
