-- ===== src/Rt/Registry/Refines.antt =====
-- The table of builtins is a map from names to functions.
use mathlib.Core.Path.{fun_ext}
use akx.Base.{
  ℕ, ◌≡◌, refl, ap, ◌∙◌, Bool, true, false, Bool-cases, inl, inr, List, [], ◌∷◌, Option, none, some,
  if◌then◌else◌, arith, Option-cases,
}
use akx.Base.Text.{Bytes, bytes_eq}
use akx.Rt.Registry.Lookup.{map_get-map_set, map_get-map_update}
use akx.Rt.Registry.{
  BuiltinInfo, Table, Registry, Hooks, map_get, map_update, update_current, akx_rt_module_set_data,
  akx_rt_add_builtin, enter, free_unit, Loaded, call_hook, leave_old, replaced, enter_new,
  hot_reload, new_info, init_module, akx_rt_register_builtin,
}

abbrev function_of : Option BuiltinInfo → Option ℕ
function_of none = none
function_of (some info) = some info.function

-- What the evaluator finds under a name.
abbrev pub functions : Registry → Bytes → Option ℕ
functions s name = function_of (map_get s.builtins name)

-- The map with one more binding, which hides an older one of the same name.
abbrev pub bind_name : Bytes → ℕ → (Bytes → Option ℕ) → Bytes → Option ℕ
bind_name name function m other = if bytes_eq name other then some function else m other

function_of-if :
    (b : Bool) (info : BuiltinInfo) (o : Option BuiltinInfo)
    → function_of (if b then some info else o) ≡ (if b then some info.function else function_of o)
function_of-if true info o = refl
function_of-if false info o = refl

-- The hooks neither remove a builtin nor change its function.
pub record KeepFunctions (hooks : Hooks) : Type 0 where
  pub calls :
      (h : ℕ) (s : Registry) (name : Bytes) → functions (hooks.call h s) name ≡ functions s name
  pub reloads :
      (h value : ℕ) (s : Registry) (name : Bytes)
      → functions (hooks.reload h value s) name ≡ functions s name

free_unit-functions :
    (u : Option ℕ) (s : Registry) (name : Bytes) → functions (free_unit u s) name ≡ functions s name
free_unit-functions none s name = refl
free_unit-functions (some u) s name = refl

found_again :
    (o : Option BuiltinInfo) (f : ℕ)
    → function_of o ≡ some f
    → (info : BuiltinInfo) × (o ≡ some info)
found_again none f e = absurd (ground arith)
found_again (some info) f e = (info, refl)

-- A write of module data changes no function.
set_data-function :
    (value : ℕ) (table : Table) (name other : Bytes)
    → function_of
        (map_get (map_update table name (λ info. record info { module_data = value })) other)
      ≡ function_of (map_get table other)
unfolding map_get map_update
set_data-function value [] name other = refl
set_data-function value ((key, info) ∷ table) name other = elim (Bool-cases (bytes_eq key name)) [
  | inl e ↦
      rw e
        (elim (bytes_eq key other)
          as (λ b.
            function_of
              (if b then some (record info { module_data = value }) else map_get table other)
            ≡ function_of (if b then some info else map_get table other)) [
              | true ↦ refl
              | false ↦ refl
            ])
  | inr n ↦ rw n (elim (Bool-cases (bytes_eq key other)) [
    | inl e ↦ rw e refl
    | inr m ↦ rw m (set_data-function value table name other)
  ])
]

pub module_set_data-functions :
    (value : ℕ) (s : Registry) (name : Bytes)
    → functions (akx_rt_module_set_data value s) name ≡ functions s name
unfolding akx_rt_module_set_data
module_set_data-functions value s name = go s.current_module_name
  where
    go :
        (current : Option Bytes)
        → functions (update_current current (λ info. record info { module_data = value }) s) name
          ≡ functions s name
    go none = refl
    go (some module_name) = set_data-function value s.builtins module_name name

-- What the runtime and the modules call.
pub data Command : Type 0 where
  register : Loaded → Command
  add : Bytes → BuiltinInfo → Command
  set_data : ℕ → Command

-- The same calls on the map of names: a registration binds the name, whether it is new or not.
abbrev pub names_step : Command → (Bytes → Option ℕ) → Bytes → Option ℕ
names_step (register l) m = bind_name l.name l.function m
names_step (add name info) m = bind_name name info.function m
names_step (set_data value) m = m

abbrev pub names_run : List Command → (Bytes → Option ℕ) → Bytes → Option ℕ
names_run [] m = m
names_run (c ∷ cs) m = names_run cs (names_step c m)

module _ (hooks : Hooks) where
  abbrev pub step : Command → Registry → Registry
  step (register l) s = akx_rt_register_builtin hooks l s
  step (add name info) s = akx_rt_add_builtin name info s
  step (set_data value) s = akx_rt_module_set_data value s

  abbrev pub run : List Command → Registry → Registry
  run [] s = s
  run (c ∷ cs) s = run cs (step c s)

module _ {hooks : Hooks} (kept : KeepFunctions hooks) where
  call_hook-functions :
      (h : Option ℕ) (s : Registry) (name : Bytes)
      → functions (call_hook hooks h s) name ≡ functions s name
  call_hook-functions none s name = refl
  call_hook-functions (some h) s name = kept.calls h s name

  leave_old-functions :
      (h : Option ℕ) (info : BuiltinInfo) (s : Registry) (name : Bytes)
      → functions (leave_old hooks h info s) name ≡ functions s name
  leave_old-functions none info s name = call_hook-functions info.deinit_fn s name
  leave_old-functions (some h) info s name = kept.reloads h info.module_data s name

  enter_new-functions :
      (h i : Option ℕ) (s : Registry) (name : Bytes)
      → functions (enter_new hooks h i s) name ≡ functions s name
  enter_new-functions none i s name = call_hook-functions i s name
  enter_new-functions (some h) i s name = refl

  init_module-functions :
      (h : Option ℕ) (module_name : Bytes) (s : Registry) (name : Bytes)
      → functions (init_module hooks h module_name s) name ≡ functions s name
  init_module-functions none module_name s name = refl
  init_module-functions (some h) module_name s name = kept.calls h (enter (some module_name) s) name

  hot_reload-functions :
      (l : Loaded) (info : BuiltinInfo) (s : Registry) (name : Bytes)
      → map_get s.builtins l.name ≡ some info
      → functions (hot_reload hooks l info s) name ≡ bind_name l.name l.function (functions s) name
  unfolding hot_reload
  hot_reload-functions l info s name e =
      let start : Registry = enter (some info.module_name) s in
      let freed : Registry = free_unit info.unit (leave_old hooks l.reload_fn info start) in
      let same : (n : Bytes) → functions freed n ≡ functions s n =
        λ n. free_unit-functions info.unit _ n ∙ leave_old-functions l.reload_fn info start n in
      let (found, is) =
        found_again (map_get freed.builtins l.name) info.function
          (same l.name ∙ ap function_of e) in
      enter_new-functions l.reload_fn l.init_fn _ name
      ∙ ap function_of (map_get-map_update freed.builtins l.name (replaced hooks l) found name is)
      ∙ function_of-if (bytes_eq l.name name) (replaced hooks l found) (map_get freed.builtins name)
      ∙ ap (λ o. if bytes_eq l.name name then some l.function else o) (same name)

  register-functions :
      (l : Loaded) (s : Registry) (name : Bytes)
      → functions (akx_rt_register_builtin hooks l s) name
        ≡ bind_name l.name l.function (functions s) name
  unfolding akx_rt_register_builtin
  register-functions l s name = elim (Option-cases (map_get s.builtins l.name)) [
    | inl new ↦ rw new (
        init_module-functions l.init_fn l.name _ name
        ∙ ap function_of (map_get-map_set s.builtins l.name (new_info hooks l) name)
        ∙ function_of-if (bytes_eq l.name name) (new_info hooks l) (map_get s.builtins name))
    | inr (info, old) ↦ rw old (hot_reload-functions l info s name old)
  ]

  step-functions :
      (c : Command) (s : Registry) (name : Bytes)
      → functions (step hooks c s) name ≡ names_step c (functions s) name
  unfolding akx_rt_add_builtin
  step-functions (register l) s name = register-functions l s name
  step-functions (add key info) s name =
      ap function_of (map_get-map_set s.builtins key info name)
      ∙ function_of-if (bytes_eq key name) info (map_get s.builtins name)
  step-functions (set_data value) s name = module_set_data-functions value s name

  -- After any sequence of calls the evaluator finds what the map of names would give.
  pub run-Refines :
      (cs : List Command) (s : Registry) → functions (run hooks cs s) ≡ names_run cs (functions s)
  run-Refines [] s = refl
  run-Refines (c ∷ cs) s =
      run-Refines cs (step hooks c s) ∙ ap (names_run cs) (fun_ext (step-functions c s))
