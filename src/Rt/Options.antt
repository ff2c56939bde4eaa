-- ===== src/Rt/Options.antt =====
-- The options of `cjit-load-builtin` in pkg/rt/akx_rt_builtins.c and pkg/rt/akx_rt_compiler.c. `load` is
-- `akx_compiler_load_builtin_ex`. A list that an option is given twice replaces the first one.
pub mod Back
use akx.Base.{Bool, true, false, List, [], ◌∷◌, ◌++◌, Option, none, some, not, ◌==◌, if◌then◌else◌}
use akx.Base.Text.{Bytes, codes, c_string, strcmp_eq}
use akx.Cell.{
  Cell, CellPtr, null, node, symbol, list, square, curly, type_string_literal, cell_as_string,
  alloc_cell, nil,
}
use akx.Cell.Chain.{list_length, list_nth}
use akx.Nucleus.Strings.{text_of}
use akx.Rt.{M, Evaluator, ◌>>=◌, pure, fail, eval_and_assert}
use akx.Rt.Compiler.{CompileOpts}

-- `keyword[0] == ':'`
abbrev pub is_keyword : Bytes → Bool
is_keyword [] = false
is_keyword (c ∷ keyword) = c == b':'

-- What the arguments behind the name say.
pub record LoadArgs : Type 0 where
  pub root_path : Option Bytes
  pub c_function_name : Option Bytes
  pub opts : CompileOpts

abbrev pub no_options : LoadArgs
no_options = record {
  root_path = none;
  c_function_name = none;
  opts = record {
    include_paths = [];
    impl_files = [];
    library_paths = [];
    libraries = [];
    defines = [];
  };
}

module _ {Ctx : Type 0} (ev : Evaluator Ctx) where
  -- `akx_rt_eval_and_assert` for a string, and its text.
  unfoldable pub string_value : CellPtr → Bytes → M Ctx Bytes
  string_value expr message = do
    evaled ← eval_and_assert ev expr type_string_literal message
    pure (text_of (cell_as_string evaled))

  unfoldable pub string_items : CellPtr → M Ctx (List Bytes)
  unfolding string_value
  string_items null = pure []
  string_items (node r c next) = do
    str ← string_value (node r c next) (codes "list items must be strings")
    strings ← string_items next
    pure (str ∷ strings)

  unfoldable pub extract_string_list : CellPtr → M Ctx (List Bytes)
  unfolding string_items
  extract_string_list (node _ (list curly items) _) = string_items items
  extract_string_list _ = fail (codes "expected curly-brace list")

  unfoldable pub define_pair : CellPtr → M Ctx (Bytes × Bytes)
  unfolding string_value
  define_pair pair =
      if list_length pair == 2
      then (do
        name ← string_value (list_nth pair 0) (codes "define name must be a string")
        value ← string_value (list_nth pair 1) (codes "define value must be a string")
        pure (name, value))
      else fail (codes "define must have exactly 2 elements [name value]")

  unfoldable pub define_items : CellPtr → M Ctx (List (Bytes × Bytes))
  unfolding define_pair
  define_items null = pure []
  define_items (node _ (list square pair) next) = do
    define ← define_pair pair
    defines ← define_items next
    pure (define ∷ defines)
  define_items _ = fail (codes "define must be a square-bracket list [name value]")

  unfoldable pub extract_define_list : CellPtr → M Ctx (List (Bytes × Bytes))
  unfolding define_items
  extract_define_list (node _ (list curly items) _) = define_items items
  extract_define_list _ = fail (codes "expected curly-brace list for defines")

  -- One keyword of the linker block with its value.
  unfoldable pub linker_option : Bytes → CellPtr → CompileOpts → M Ctx CompileOpts
  unfolding extract_string_list extract_define_list
  linker_option keyword value opts =
      if strcmp_eq keyword (codes ":library-paths")
      then (do paths ← extract_string_list value; pure (record opts { library_paths = paths }))
      else if strcmp_eq keyword (codes ":libraries")
      then (do names ← extract_string_list value; pure (record opts { libraries = names }))
      else if strcmp_eq keyword (codes ":defines")
      then (do pairs ← extract_define_list value; pure (record opts { defines = pairs }))
      else fail (codes "unknown linker keyword: " ++ c_string keyword)

  unfoldable pub linker_loop : CellPtr → CompileOpts → M Ctx CompileOpts
  unfolding linker_option
  linker_loop null opts = pure opts
  linker_loop (node _ (symbol keyword) null) opts =
      if is_keyword keyword
      then fail (codes "missing value for keyword " ++ c_string keyword)
      else fail (codes "linker keywords must start with ':'")
  linker_loop (node _ (symbol keyword) (node r c next)) opts =
      if is_keyword keyword
      then (do more ← linker_option keyword (node r c next) opts; linker_loop next more)
      else fail (codes "linker keywords must start with ':'")
  linker_loop _ opts = fail (codes "expected keyword in :linker block")

  unfoldable pub parse_linker_options : CellPtr → CompileOpts → M Ctx CompileOpts
  unfolding linker_loop
  parse_linker_options (node _ (list curly items) _) opts = linker_loop items opts
  parse_linker_options _ opts = fail (codes ":linker value must be a curly-brace list")

  unfoldable pub load_option : Bytes → CellPtr → LoadArgs → M Ctx LoadArgs
  unfolding string_value extract_string_list parse_linker_options
  load_option keyword value a =
      if strcmp_eq keyword (codes ":root")
      then (do
        root ← string_value value (codes ":root value must be a string")
        pure (record a { root_path = some root }))
      else if strcmp_eq keyword (codes ":as")
      then (do
        name ← string_value value (codes ":as value must be a string")
        pure (record a { c_function_name = some name }))
      else if strcmp_eq keyword (codes ":include-paths")
      then (do
        paths ← extract_string_list value
        pure (record a { opts = record (a.opts) { include_paths = paths } }))
      else if strcmp_eq keyword (codes ":implementation-files")
      then (do
        files ← extract_string_list value
        pure (record a { opts = record (a.opts) { impl_files = files } }))
      else if strcmp_eq keyword (codes ":linker")
      then (do more ← parse_linker_options value a.opts; pure (record a { opts = more }))
      else fail (codes "unknown keyword: " ++ c_string keyword)

  unfoldable pub load_options : CellPtr → LoadArgs → M Ctx LoadArgs
  unfolding load_option
  load_options null a = pure a
  load_options (node _ (symbol keyword) null) a =
      if is_keyword keyword
      then fail (codes "missing value for keyword " ++ c_string keyword)
      else fail (codes "keywords must start with ':', got: " ++ c_string keyword)
  load_options (node _ (symbol keyword) (node r c next)) a =
      if is_keyword keyword
      then (do more ← load_option keyword (node r c next) a; load_options next more)
      else fail (codes "keywords must start with ':', got: " ++ c_string keyword)
  load_options _ a = fail (codes "expected keyword (symbol starting with ':')")

  abbrev pub t_or_nil : Bool → CellPtr
  t_or_nil true = alloc_cell (symbol (codes "t"))
  t_or_nil false = nil

  module _ (load : Bytes → Option Bytes → Bytes → CompileOpts → M Ctx Bool) where
    abbrev pub load_with : Bytes → LoadArgs → Option Bytes → M Ctx CellPtr
    load_with name a none = fail (codes ":root keyword is required")
    load_with name a (some root_path) = do
      ok ← load name a.c_function_name root_path a.opts
      pure (t_or_nil ok)

    abbrev pub load_named : CellPtr → CellPtr → M Ctx CellPtr
    load_named (node _ (symbol name) _) options = do
      a ← load_options options no_options
      load_with name a a.root_path
    load_named _ options = fail (codes "first argument must be a symbol (builtin name)")

    unfoldable pub builtin_cjit_load_builtin : CellPtr → M Ctx CellPtr
    unfolding load_options
    builtin_cjit_load_builtin args = load_named (list_nth args 0) (list_nth args 1)
