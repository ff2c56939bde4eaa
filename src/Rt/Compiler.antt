-- ===== src/Rt/Compiler.antt =====
-- pkg/rt/akx_rt_compiler.c: `akx_compiler_load_builtin_ex` compiles a builtin and registers it. What
-- `ak_cjit` is asked for a unit stands in a list, and what it answers is a function of that list. The
-- symbols of the runtime that each unit is given are left out, and the text of the header that
-- `akx_compiler_generate_abi_header` puts in front of the source is a parameter.
pub mod Units
use akx.Base.{
  ℕ, Bool, true, false, List, [], ◌∷◌, ◌++◌, Option, none, some, leb, ◌==◌, if◌then◌else◌, length,
  take,
}
use akx.Base.Text.{Bytes, codes, c_string}
use akx.Rt.Expand.{Libc, ResultBuffer, expand_env_vars}
use akx.Rt.Registry.{Registry, Hooks, free_unit, Loaded, akx_rt_register_builtin}

-- `akx_builtin_compile_opts_t`, with a name and a value for each define.
pub record CompileOpts : Type 0 where
  pub include_paths : List Bytes
  pub impl_files : List Bytes
  pub library_paths : List Bytes
  pub libraries : List Bytes
  pub defines : List (Bytes × Bytes)

-- What is added to a unit, with the functions of `ak_cjit` for it.
pub data JitCall : Type 0 where
  add_include_path add_library_path add_library : Bytes → JitCall
  define : Bytes → Bytes → JitCall
  add_source : Bytes → Bytes → JitCall

-- `accepts` says whether a call gives AK_CJIT_OK behind the calls before it; `compiles` is
-- `ak_cjit_relocate`, `get_symbol` is `ak_cjit_get_symbol`, `from_file` is `ak_buffer_from_file`.
pub record Jit : Type 0 where
  pub accepts : List JitCall → JitCall → Bool
  pub compiles : List JitCall → Bool
  pub get_symbol : List JitCall → Bytes → Option ℕ
  pub from_file : Bytes → Option Bytes
  pub abi_header : Bytes

-- `if (!x) return -1;` with what follows.
abbrev pub and_then {ℓ κ} : {A : Type ℓ} {B : Type κ} → Option A → (A → Option B) → Option B
and_then none f = none
and_then (some a) f = f a

abbrev pub each {ℓ κ} : {A : Type ℓ} {B : Type κ} → (A → B) → List A → List B
each f [] = []
each f (x ∷ xs) = f x ∷ each f xs

-- The calls for the options, in their order.
abbrev pub option_calls : CompileOpts → List JitCall
option_calls opts =
    each add_include_path opts.include_paths
    ++ (each add_library_path opts.library_paths
        ++ (each add_library opts.libraries
            ++ each (λ (name, value). define name value) opts.defines))

-- The text before the last slash.
unfoldable pub before_slash : Bytes → Option Bytes
before_slash [] = none
before_slash (c ∷ path) = elim (before_slash path) [
  | none ↦ if c == b'/' then some [] else none
  | some dir ↦ some (c ∷ dir)
]

abbrev pub short_dir : Option Bytes → Option Bytes
short_dir none = some (codes ".")
short_dir (some dir) = if leb 1024 (length dir) then none else some dir

-- The directory of the implementation files; none where it does not fit its buffer.
unfoldable pub root_dir : Bytes → Option Bytes
unfolding before_slash
root_dir root_path = short_dir (before_slash root_path)

-- `snprintf` into a buffer of 2048 bytes.
abbrev pub impl_path : Bytes → Bytes → Bytes
impl_path dir file = take 2047 (dir ++ (b'/' ∷ file))

abbrev pub lookup_of : Bytes → Option Bytes → Bytes
lookup_of name none = name
lookup_of name (some c_function_name) = c_function_name

module _ (jit : Jit) (libc : Libc) where
  -- The calls one after the other, up to one that is refused.
  unfoldable pub add_calls : List JitCall → List JitCall → Option (List JitCall)
  add_calls done [] = some done
  add_calls done (c ∷ calls) =
      let more = add_calls (done ++ c ∷ []) calls in if jit.accepts done c then more else none

  -- A copy of `akx_rt_expand_env_vars`, with the name of a constant for its 256.
  unfoldable pub expand_env_vars_in_path : Bytes → Option ResultBuffer
  unfolding expand_env_vars
  expand_env_vars_in_path path = expand_env_vars libc path

  -- The root source with the header in front, under its path as it was written.
  abbrev pub add_root : Bytes → List JitCall → Option (List JitCall)
  add_root root_path done = and_then (expand_env_vars_in_path root_path) λ expanded.
      and_then (jit.from_file expanded.result)
        λ source. add_calls done (add_source (c_string (jit.abi_header ++ source)) root_path ∷ [])

  unfoldable pub add_impl_files : Bytes → List Bytes → List JitCall → Option (List JitCall)
  unfolding add_calls
  add_impl_files dir [] done = some done
  add_impl_files dir (file ∷ files) done = and_then (jit.from_file (impl_path dir file)) λ source.
      and_then (add_calls done (add_source (c_string source) (impl_path dir file) ∷ []))
        (add_impl_files dir files)

  abbrev pub add_impls : Bytes → List Bytes → List JitCall → Option (List JitCall)
  add_impls root_path [] done = some done
  add_impls root_path (file ∷ files) done =
      and_then (root_dir root_path) λ dir. add_impl_files dir (file ∷ files) done

  -- The unit with everything added, if it compiles.
  unfoldable pub compile : Bytes → CompileOpts → Option (List JitCall)
  unfolding add_calls add_impl_files root_dir expand_env_vars_in_path
  compile root_path opts = and_then (add_calls [] (option_calls opts)) λ options.
      and_then (add_root root_path options) λ rooted.
        and_then (add_impls root_path opts.impl_files rooted)
          λ calls. if jit.compiles calls then some calls else none

  -- A name with a suffix, in a buffer of 256 bytes.
  abbrev pub hook_of : List JitCall → Bytes → Bytes → Option ℕ
  hook_of calls lookup suffix = jit.get_symbol calls (take 255 (lookup ++ suffix))

  abbrev pub loaded_of : Bytes → Bytes → Bytes → ℕ → ℕ → List JitCall → ℕ → Loaded
  loaded_of name lookup root_path unit now calls function = record {
    name = name;
    root_path = some root_path;
    function = function;
    unit = some unit;
    init_fn = hook_of calls lookup (codes "_init");
    deinit_fn = hook_of calls lookup (codes "_deinit");
    reload_fn = hook_of calls lookup (codes "_reload");
    now = now;
  }

  -- What is registered, if all goes well.
  unfoldable pub loaded : Bytes → Option Bytes → Bytes → CompileOpts → ℕ → ℕ → Option Loaded
  unfolding compile
  loaded name c_function_name root_path opts unit now = and_then (compile root_path opts) λ calls.
      and_then (jit.get_symbol calls (lookup_of name c_function_name)) λ function.
        some (loaded_of name (lookup_of name c_function_name) root_path unit now calls function)

  module _ (hooks : Hooks) where
    abbrev pub register_or_free : Option Loaded → ℕ → Registry → Registry × Bool
    register_or_free none unit s = (free_unit (some unit) s, false)
    register_or_free (some l) unit s = (akx_rt_register_builtin hooks l s, true)

    -- With the new unit and the time; the unit is freed wherever the load fails.
    unfoldable pub akx_compiler_load_builtin_ex :
        Bytes → Option Bytes → Bytes → CompileOpts → ℕ → ℕ → Registry → Registry × Bool
    unfolding loaded
    akx_compiler_load_builtin_ex name c_function_name root_path opts unit now s =
        register_or_free (loaded name c_function_name root_path opts unit now) unit s
