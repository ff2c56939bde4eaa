-- ===== src/Rt/Registry.antt =====
-- The table of builtins in pkg/rt/akx_rt.c: registration and hot reload of builtins, their module data,
-- and the part of `akx_runtime_deinit` that takes the table down. Functions, hooks, data and compiled
-- units are addresses; data 0 is NULL. The table keeps its entries in the order in which `map_t` visits
-- them.
pub mod Lookup
pub mod Refines
pub mod Units
use akx.Base.{ℕ, Bool, true, false, List, [], ◌∷◌, ◌++◌, Option, none, some, if◌then◌else◌}
use akx.Base.Text.{Bytes, bytes_eq}

-- `akx_builtin_info_t`
pub record BuiltinInfo : Type 0 where
  pub function : ℕ
  pub source_path : Option Bytes
  pub load_time : ℕ
  pub init_fn : Option ℕ
  pub deinit_fn : Option ℕ
  pub reload_fn : Option ℕ
  pub module_data : ℕ
  pub module_name : Bytes
  pub unit : Option ℕ

abbrev pub Table : Type 0
Table = List (Bytes × BuiltinInfo)

-- The fields of `akx_runtime_ctx_t` that the table needs, and the calls of `ak_cjit_unit_free`.
pub record Registry : Type 0 where
  pub builtins : Table
  pub current_module_name : Option Bytes
  pub freed_units : List ℕ

-- What the hooks of the modules do; the second one has the old module data as an argument.
pub record Hooks : Type 0 where
  pub call : ℕ → Registry → Registry
  pub reload : ℕ → ℕ → Registry → Registry

-- `map_get_generic` and `map_set_generic` on a `map_t` with strings as keys.
unfoldable pub map_get : Table → Bytes → Option BuiltinInfo
map_get [] name = none
map_get ((key, info) ∷ table) name = if bytes_eq key name then some info else map_get table name

unfoldable pub map_set : Table → Bytes → BuiltinInfo → Table
map_set [] name info = (name, info) ∷ []
map_set ((key, old) ∷ table) name info =
    if bytes_eq key name then (key, info) ∷ table else (key, old) ∷ map_set table name info

-- A write through the `akx_builtin_info_t *` that the table has under the name.
unfoldable pub map_update : Table → Bytes → (BuiltinInfo → BuiltinInfo) → Table
map_update [] name f = []
map_update ((key, info) ∷ table) name f =
    if bytes_eq key name then (key, f info) ∷ table else (key, info) ∷ map_update table name f

abbrev pub update_current : Option Bytes → (BuiltinInfo → BuiltinInfo) → Registry → Registry
update_current none f s = s
update_current (some name) f s = record s { builtins = map_update s.builtins name f }

unfoldable pub akx_rt_module_set_data : ℕ → Registry → Registry
unfolding map_update
akx_rt_module_set_data value s =
    update_current s.current_module_name (λ info. record info { module_data = value }) s

abbrev pub data_of : Option BuiltinInfo → ℕ
data_of none = 0
data_of (some info) = info.module_data

unfoldable pub akx_rt_module_get_data : Registry → ℕ
unfolding map_get
akx_rt_module_get_data s = elim s.current_module_name [
  | none ↦ 0
  | some name ↦ data_of (map_get s.builtins name)
]

unfoldable pub akx_rt_add_builtin : Bytes → BuiltinInfo → Registry → Registry
unfolding map_set
akx_rt_add_builtin name info s = record s { builtins = map_set s.builtins name info }

abbrev pub enter : Option Bytes → Registry → Registry
enter name s = record s { current_module_name = name }

-- `if (unit) ak_cjit_unit_free(unit);`
abbrev pub free_unit : Option ℕ → Registry → Registry
free_unit none s = s
free_unit (some u) s = record s { freed_units = u ∷ s.freed_units }

-- What a registration brings, with the time at which it is done.
pub record Loaded : Type 0 where
  pub name : Bytes
  pub root_path : Option Bytes
  pub function : ℕ
  pub unit : Option ℕ
  pub init_fn : Option ℕ
  pub deinit_fn : Option ℕ
  pub reload_fn : Option ℕ
  pub now : ℕ

module _ (hooks : Hooks) where
  -- A hook that may be NULL.
  abbrev pub call_hook : Option ℕ → Registry → Registry
  call_hook none s = s
  call_hook (some h) s = hooks.call h s

  -- The reload hook of the new builtin, or else the deinit hook of the old one.
  abbrev pub leave_old : Option ℕ → BuiltinInfo → Registry → Registry
  leave_old (some reload_fn) existing_info s = hooks.reload reload_fn existing_info.module_data s
  leave_old none existing_info s = call_hook existing_info.deinit_fn s

  abbrev pub replaced : Loaded → BuiltinInfo → BuiltinInfo
  replaced l existing_info = record existing_info {
    function = l.function;
    source_path = l.root_path;
    load_time = l.now;
    init_fn = l.init_fn;
    deinit_fn = l.deinit_fn;
    reload_fn = l.reload_fn;
    unit = l.unit;
  }

  abbrev pub enter_new : Option ℕ → Option ℕ → Registry → Registry
  enter_new (some reload_fn) init_fn s = s
  enter_new none init_fn s = call_hook init_fn s

  unfoldable pub hot_reload : Loaded → BuiltinInfo → Registry → Registry
  unfolding map_update
  hot_reload l existing_info s =
      let left = leave_old l.reload_fn existing_info (enter (some existing_info.module_name) s) in
      let freed = free_unit existing_info.unit left in
      enter none (
        enter_new l.reload_fn l.init_fn
          (record freed { builtins = map_update freed.builtins l.name (replaced l) }))

  abbrev pub new_info : Loaded → BuiltinInfo
  new_info l = record {
    function = l.function;
    source_path = l.root_path;
    load_time = l.now;
    init_fn = l.init_fn;
    deinit_fn = l.deinit_fn;
    reload_fn = l.reload_fn;
    module_data = 0;
    module_name = l.name;
    unit = l.unit;
  }

  abbrev pub init_module : Option ℕ → Bytes → Registry → Registry
  init_module none name s = s
  init_module (some h) name s = enter none (hooks.call h (enter (some name) s))

  abbrev pub register_as : Loaded → Option BuiltinInfo → Registry → Registry
  register_as l (some existing_info) s = hot_reload l existing_info s
  register_as l none s =
      init_module l.init_fn l.name (record s { builtins = map_set s.builtins l.name (new_info l) })

  unfoldable pub akx_rt_register_builtin : Loaded → Registry → Registry
  unfolding hot_reload map_get map_set
  akx_rt_register_builtin l s = register_as l (map_get s.builtins l.name) s

  -- An entry of the table is taken down.
  abbrev pub deinit_entry : BuiltinInfo → Registry → Registry
  deinit_entry info s = free_unit info.unit (init_module info.deinit_fn info.module_name s)

  unfoldable pub deinit_entries : Table → Registry → Registry
  deinit_entries [] s = s
  deinit_entries ((key, info) ∷ table) s = deinit_entries table (deinit_entry info s)

  -- The first loop of `akx_runtime_deinit`, with `map_deinit`.
  unfoldable pub deinit_builtins : Registry → Registry
  unfolding deinit_entries
  deinit_builtins s = let after = deinit_entries s.builtins s in record after { builtins = [] }
