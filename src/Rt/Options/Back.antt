-- ===== src/Rt/Options/Back.antt =====
-- The options of `cjit-load-builtin` read back from cells that spell them.
use akx.Base.{ℕ, suc, ◌≡◌, refl, List, [], ◌∷◌, none, some}
use akx.Base.Text.{Bytes, codes, c_string, c_string_self, HasNoNul, strcmp_eq, bytes_eq}
use akx.Cell.{Cell, CellPtr, null, node, symbol, string_literal, list, square, curly, cell_next}
use akx.Cell.Chain.{list_length, list_nth}
use akx.Cell.Clone.{clone}
use akx.Rt.{Runtime, Env, Evaluator, done, ◌>>=◌, pure, eval_and_assert}
use akx.Rt.Compiler.{CompileOpts}
use akx.Rt.Eval.{eval}
use akx.Rt.Options.{
  no_options, string_value, string_items, extract_string_list, define_pair, define_items,
  extract_define_list, linker_option, linker_loop, parse_linker_options, load_option, load_options,
}

abbrev pub cells : List Cell → CellPtr
cells [] = null
cells (c ∷ cs) = node none c (cells cs)

abbrev pub string_cells : List Bytes → CellPtr
string_cells [] = null
string_cells (s ∷ ss) = node none (string_literal s) (string_cells ss)

abbrev pub define_cells : List (Bytes × Bytes) → CellPtr
define_cells [] = null
define_cells ((name, value) ∷ ds) =
    node none (list square (cells (string_literal name ∷ string_literal value ∷ [])))
      (define_cells ds)

abbrev pub key : Bytes → Cell
key name = symbol name

-- The linker block, and the arguments behind the name.
abbrev pub linker_cells : CompileOpts → CellPtr
linker_cells o = cells (
    key (codes ":library-paths")
    ∷ list curly (string_cells o.library_paths)
    ∷ key (codes ":libraries")
    ∷ list curly (string_cells o.libraries)
    ∷ key (codes ":defines")
    ∷ list curly (define_cells o.defines)
    ∷ [])

abbrev pub option_cells : Bytes → Bytes → CompileOpts → CellPtr
option_cells root_path name o = cells (
    key (codes ":root")
    ∷ string_literal root_path
    ∷ key (codes ":as")
    ∷ string_literal name
    ∷ key (codes ":include-paths")
    ∷ list curly (string_cells o.include_paths)
    ∷ key (codes ":implementation-files")
    ∷ list curly (string_cells o.impl_files)
    ∷ key (codes ":linker")
    ∷ list curly (linker_cells o)
    ∷ [])

abbrev pub AllNoNul : List Bytes → Type 0
AllNoNul [] = Unit
AllNoNul (s ∷ ss) = HasNoNul s × AllNoNul ss

abbrev pub PairsNoNul : List (Bytes × Bytes) → Type 0
PairsNoNul [] = Unit
PairsNoNul ((name, value) ∷ ds) = HasNoNul name × HasNoNul value × PairsNoNul ds

abbrev pub OptsNoNul : CompileOpts → Type 0
OptsNoNul o =
    AllNoNul o.include_paths
    × AllNoNul o.impl_files
    × AllNoNul o.library_paths
    × AllNoNul o.libraries
    × PairsNoNul o.defines

module _ {Ctx : Type 0} (env : Env Ctx) (fuel : ℕ) where
  abbrev ev : Evaluator Ctx
  ev = eval env (suc fuel)

  string_value-back :
      (s : Bytes) (next : CellPtr) (message : Bytes) (rt : Runtime Ctx)
      → HasNoNul s
      → string_value ev (node none (string_literal s) next) message rt ≡ done s rt
  unfolding string_value eval eval_and_assert ◌>>=◌ pure clone
  string_value-back s next message rt z = rw (c_string_self s z) refl

  string_items-back :
      (ss : List Bytes) (rt : Runtime Ctx)
      → AllNoNul ss
      → string_items ev (string_cells ss) rt ≡ done ss rt
  unfolding string_items ◌>>=◌ pure
  string_items-back [] rt z = refl
  string_items-back (s ∷ ss) rt (z, zs) =
      rw
        (
          string_value-back s (string_cells ss) (codes "list items must be strings") rt z,
          string_items-back ss rt zs,
        )
        refl

  define_items-back :
      (ds : List (Bytes × Bytes)) (rt : Runtime Ctx)
      → PairsNoNul ds
      → define_items ev (define_cells ds) rt ≡ done ds rt
  unfolding define_items define_pair ◌>>=◌ pure list_length list_nth
  define_items-back [] rt z = refl
  define_items-back ((name, value) ∷ ds) rt (y, z, zs) =
      rw
        (
          string_value-back name (cells (string_literal value ∷ []))
              (codes "define name must be a string") rt y,
          string_value-back value null (codes "define value must be a string") rt z,
          define_items-back ds rt zs,
        )
        refl

  linker_loop-back :
      (o p : CompileOpts) (rt : Runtime Ctx)
      → OptsNoNul o
      → linker_loop ev (linker_cells o) p rt
        ≡ done
            (record p {
              library_paths = o.library_paths;
              libraries = o.libraries;
              defines = o.defines;
            })
            rt
  unfolding linker_loop linker_option extract_string_list extract_define_list ◌>>=◌ pure strcmp_eq
      bytes_eq c_string
  linker_loop-back o p rt (a, b, c, d, e) =
      rw
        (
          string_items-back o.library_paths rt c,
          string_items-back o.libraries rt d,
          define_items-back o.defines rt e,
        )
        refl

  -- Texts without NUL come back as they were given, and the state stays as it was.
  pub load_options-back :
      (root_path name : Bytes) (o : CompileOpts) (rt : Runtime Ctx)
      → HasNoNul root_path
      → HasNoNul name
      → OptsNoNul o
      → load_options (eval env (suc fuel)) (option_cells root_path name o) no_options rt
        ≡ done (record { root_path = some root_path; c_function_name = some name; opts = o }) rt
  unfolding load_options load_option extract_string_list parse_linker_options ◌>>=◌ pure strcmp_eq
      bytes_eq c_string
  load_options-back root_path name o rt y z (a, b, c, d, e) =
      let behind_root = cell_next (cell_next (option_cells root_path name o)) in
      let behind_as = cell_next (cell_next behind_root) in
      rw
        (
          string_value-back root_path behind_root (codes ":root value must be a string") rt y,
          string_value-back name behind_as (codes ":as value must be a string") rt z,
          string_items-back o.include_paths rt a,
          string_items-back o.impl_files rt b,
          linker_loop-back o
              (record (no_options.opts) {
                include_paths = o.include_paths;
                impl_files = o.impl_files;
              })
              rt (a, b, c, d, e),
        )
        refl
