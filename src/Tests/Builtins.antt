-- ===== src/Tests/Builtins.antt =====
-- The theorems on the table of builtins, with hooks that write module data.
use akx.Base.{
  ℕ, ◌+◌, ◌≡◌, refl, true, false, Bool-cases, inl, inr, List, [], ◌∷◌, Option, none, some,
  if◌then◌else◌,
}
use akx.Base.Text.{Bytes, codes, bytes_eq}
use akx.Rt.{done}
use akx.Rt.Compiler.{CompileOpts, Jit}
use akx.Rt.Compiler.Units.{Request, count_asked, load_session, load_session-frees_units}
use akx.Rt.Eval.{eval}
use akx.Rt.Expand.{Libc}
use akx.Rt.Options.{no_options, load_options}
use akx.Rt.Options.Back.{option_cells, load_options-back}
use akx.Tests.{frames_env, start_runtime}
use akx.Rt.Registry.{
  Table, Registry, Hooks, map_update, update_current, akx_rt_module_set_data, Loaded,
}
use akx.Rt.Registry.Refines.{
  KeepFunctions, module_set_data-functions, functions, register, set_data, names_run, run,
  run-Refines,
}
use akx.Rt.Registry.Units.{KeepUnits, units_of, count_freed, total}

-- A hook writes its own address; a reload hook keeps the data.
abbrev data_hooks : Hooks
data_hooks = record {
  call = λ h s. akx_rt_module_set_data h s;
  reload = λ h value s. akx_rt_module_set_data value s;
}

set_data-units :
    (value : ℕ) (table : Table) (name : Bytes)
    → units_of (map_update table name (λ info. record info { module_data = value }))
      ≡ units_of table
unfolding map_update
set_data-units value [] name = refl
set_data-units value ((key, info) ∷ table) name = elim (Bool-cases (bytes_eq key name)) [
  | inl e ↦ rw e refl
  | inr n ↦ rw n (rw (set_data-units value table name) refl)
]

module_set_data-units :
    (value : ℕ) (s : Registry)
    → (units_of (akx_rt_module_set_data value s).builtins ≡ units_of s.builtins)
      × ((akx_rt_module_set_data value s).freed_units ≡ s.freed_units)
unfolding akx_rt_module_set_data
module_set_data-units value s = go s.current_module_name
  where
    go :
        (current : Option Bytes)
        → (units_of
              (update_current current (λ info. record info { module_data = value }) s).builtins
            ≡ units_of s.builtins)
          × ((update_current current (λ info. record info { module_data = value }) s).freed_units
              ≡ s.freed_units)
    go none = (refl, refl)
    go (some name) = (set_data-units value s.builtins name, refl)

data_hooks-KeepFunctions : KeepFunctions data_hooks
data_hooks-KeepFunctions = record {
  calls = λ h s name. module_set_data-functions h s name;
  reloads = λ h value s name. module_set_data-functions value s name;
}

data_hooks-KeepUnits : KeepUnits data_hooks
data_hooks-KeepUnits = record {
  calls_table = λ h s. (module_set_data-units h s).0;
  calls_freed = λ h s. (module_set_data-units h s).1;
  reloads_table = λ h value s. (module_set_data-units value s).0;
  reloads_freed = λ h value s. (module_set_data-units value s).1;
}

abbrev empty_registry : Registry
empty_registry = record { builtins = []; current_module_name = none; freed_units = [] }

-- Two versions of one builtin; the second one has a reload hook.
abbrev version : ℕ → ℕ → Option ℕ → Loaded
version function unit reload_fn = record {
  name = codes "f";
  root_path = none;
  function = function;
  unit = some unit;
  init_fn = some 77;
  deinit_fn = none;
  reload_fn = reload_fn;
  now = 0;
}

run-Refines_example :
    functions (
      run data_hooks
        (register (version 1 11 none) ∷ register (version 2 12 (some 5)) ∷ set_data 3 ∷ [])
        empty_registry)
    ≡ names_run
        (register (version 1 11 none) ∷ register (version 2 12 (some 5)) ∷ set_data 3 ∷ [])
        (functions empty_registry)
run-Refines_example =
    run-Refines data_hooks-KeepFunctions
      (register (version 1 11 none) ∷ register (version 2 12 (some 5)) ∷ set_data 3 ∷ [])
      empty_registry

-- A compiler that takes everything and finds the symbol f alone.
abbrev f_jit : Jit
f_jit = record {
  accepts = λ calls c. true;
  compiles = λ calls. true;
  get_symbol = λ calls name. if bytes_eq name (codes "f") then some 1 else none;
  from_file = λ path. some (codes "int f;");
  abi_header = codes "int h;";
}

abbrev plain_libc : Libc
plain_libc = record { isalnum = λ c. false; getenv = λ name. none; join_akx = λ home. none }

abbrev no_opts : CompileOpts
no_opts = record {
  include_paths = [];
  impl_files = [];
  library_paths = [];
  libraries = [];
  defines = [];
}

-- One load that finds its symbol, one that does not, and a hot reload.
abbrev request : Bytes → ℕ → Request
request name unit = record {
  name = name;
  c_function_name = none;
  root_path = codes "dir/f.c";
  opts = no_opts;
  unit = unit;
  now = 0;
}

abbrev requests : List Request
requests = request (codes "f") 11 ∷ request (codes "g") 12 ∷ request (codes "f") 13 ∷ []

load_session-frees_units_example :
    count_freed 12 (load_session f_jit plain_libc data_hooks requests empty_registry).freed_units
    ≡ count_asked 12 requests + total 12 empty_registry
load_session-frees_units_example =
    load_session-frees_units f_jit plain_libc data_hooks data_hooks-KeepUnits 12 requests
      empty_registry

abbrev some_opts : CompileOpts
some_opts = record {
  include_paths = codes "inc" ∷ [];
  impl_files = [];
  library_paths = [];
  libraries = codes "m" ∷ [];
  defines = (codes "N", codes "1") ∷ [];
}

load_options-back_example :
    load_options
      (eval frames_env 1)
      (option_cells (codes "r.c") (codes "f") some_opts)
      no_options
      start_runtime
    ≡ done
        (record {
          root_path = some (codes "r.c");
          c_function_name = some (codes "f");
          opts = some_opts;
        })
        start_runtime
load_options-back_example =
    load_options-back frames_env 0 (codes "r.c") (codes "f") some_opts start_runtime
      (refl, (refl, (refl, tt))) (refl, tt)
      (((refl, (refl, (refl, tt))), tt), tt, tt, ((refl, tt), tt), ((refl, tt), (refl, tt), tt))
