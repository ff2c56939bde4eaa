-- ===== src/Rt/Registry/Units.antt =====
-- Compiled units are freed once.
use akx.Base.{
  ℕ, ◌+◌, ◌≡◌, refl, sym, ap, ◌∙◌, arith, Bool-cases, inl, inr, List, [], ◌∷◌, Option, none, some,
  Option-cases, ◌==◌, if◌then◌else◌,
}
use akx.Base.Text.{Bytes, bytes_eq}
use akx.Rt.Registry.{
  BuiltinInfo, Table, Registry, Hooks, map_get, map_set, map_update, enter, free_unit, Loaded,
  call_hook, leave_old, replaced, enter_new, hot_reload, new_info, init_module,
  akx_rt_register_builtin, deinit_entry, deinit_entries, deinit_builtins,
}

-- 1 for the unit itself, and 0 for another one or none.
abbrev pub is_unit : ℕ → Option ℕ → ℕ
is_unit u none = 0
is_unit u (some v) = if v == u then 1 else 0

-- How often the unit was freed, and how often it stands in the table.
abbrev pub count_freed : ℕ → List ℕ → ℕ
count_freed u [] = 0
count_freed u (v ∷ vs) = is_unit u (some v) + count_freed u vs

abbrev pub units_of : Table → List (Bytes × Option ℕ)
units_of [] = []
units_of ((key, info) ∷ table) = (key, info.unit) ∷ units_of table

abbrev pub count_units : ℕ → List (Bytes × Option ℕ) → ℕ
count_units u [] = 0
count_units u ((key, o) ∷ rest) = is_unit u o + count_units u rest

abbrev pub total : ℕ → Registry → ℕ
total u s = count_freed u s.freed_units + count_units u (units_of s.builtins)

-- The hooks free no unit and change none in the table.
pub record KeepUnits (hooks : Hooks) : Type 0 where
  pub calls_table :
      (h : ℕ) (s : Registry) → units_of (hooks.call h s).builtins ≡ units_of s.builtins
  pub calls_freed : (h : ℕ) (s : Registry) → (hooks.call h s).freed_units ≡ s.freed_units
  pub reloads_table :
      (h value : ℕ) (s : Registry)
      → units_of (hooks.reload h value s).builtins ≡ units_of s.builtins
  pub reloads_freed :
      (h value : ℕ) (s : Registry) → (hooks.reload h value s).freed_units ≡ s.freed_units

-- Two states with the same units in the table and the same freed units.
abbrev Same : Registry → Registry → Type 0
Same s t = (units_of s.builtins ≡ units_of t.builtins) × (s.freed_units ≡ t.freed_units)

Same-total : (u : ℕ) (s t : Registry) → Same s t → total u s ≡ total u t
Same-total u s t (e, f) = rw (e, f) refl

pub free_unit-total :
    (u : ℕ) (o : Option ℕ) (s : Registry) → total u (free_unit o s) ≡ is_unit u o + total u s
free_unit-total u none s = omega arith
free_unit-total u (some v) s = omega arith

map_set-units :
    (u : ℕ) (table : Table) (name : Bytes) (info : BuiltinInfo)
    → map_get table name ≡ none
    → count_units u (units_of (map_set table name info))
      ≡ is_unit u info.unit + count_units u (units_of table)
unfolding map_get map_set
map_set-units u [] name info h = refl
map_set-units u ((key, old) ∷ table) name info h = elim (Bool-cases (bytes_eq key name)) [
  | inl e ↦ let no : some old ≡ none = rw e at h in absurd (ground arith)
  | inr n ↦ rw n (omega (arith, map_set-units u table name info (rw n at h)))
]

map_update-units :
    (u : ℕ) (table : Table) (name : Bytes) (f : BuiltinInfo → BuiltinInfo) (old : BuiltinInfo)
    → map_get table name ≡ some old
    → is_unit u old.unit + count_units u (units_of (map_update table name f))
      ≡ is_unit u ((f old).unit) + count_units u (units_of table)
unfolding map_get map_update
map_update-units u [] name f old h = absurd (ground arith)
map_update-units u ((key, info) ∷ table) name f old h = elim (Bool-cases (bytes_eq key name)) [
  | inl e ↦
      let here : some info ≡ some old = rw e at h in
      let same : info ≡ old = cc in rw (e, same) (omega arith)
  | inr n ↦ rw n (omega (arith, map_update-units u table name f old (rw n at h)))
]

-- The unit under a name can be read off.
abbrev unit_at : List (Bytes × Option ℕ) → Bytes → Option (Option ℕ)
unit_at [] name = none
unit_at ((key, o) ∷ rest) name = if bytes_eq key name then some o else unit_at rest name

abbrev unit_field : Option BuiltinInfo → Option (Option ℕ)
unit_field none = none
unit_field (some info) = some info.unit

unit_at-units_of :
    (table : Table) (name : Bytes) → unit_at (units_of table) name ≡ unit_field (map_get table name)
unfolding map_get
unit_at-units_of [] name = refl
unit_at-units_of ((key, info) ∷ table) name = elim (Bool-cases (bytes_eq key name)) [
  | inl e ↦ rw e refl
  | inr n ↦ rw n (unit_at-units_of table name)
]

found_unit :
    (o : Option BuiltinInfo) (w : Option ℕ)
    → unit_field o ≡ some w
    → (info : BuiltinInfo) × (o ≡ some info) × (info.unit ≡ w)
found_unit none w e = absurd (ground arith)
found_unit (some info) w e = (info, refl, cc)

free_table : (o : Option ℕ) (s : Registry) → units_of (free_unit o s).builtins ≡ units_of s.builtins
free_table none s = refl
free_table (some v) s = refl

freed_one :
    (u : ℕ) (o : Option ℕ) (s : Registry)
    → count_freed u (free_unit o s).freed_units ≡ is_unit u o + count_freed u s.freed_units
freed_one u none s = omega arith
freed_one u (some v) s = omega arith

-- How many registrations bring the unit.
abbrev pub count_brought : ℕ → List Loaded → ℕ
count_brought u [] = 0
count_brought u (l ∷ ls) = is_unit u l.unit + count_brought u ls

module _ (hooks : Hooks) where
  -- The builtins of a session, one after the other, and the end of the runtime.
  abbrev pub session : List Loaded → Registry → Registry
  session [] s = deinit_builtins hooks s
  session (l ∷ ls) s = session ls (akx_rt_register_builtin hooks l s)

module _ {hooks : Hooks} (kept : KeepUnits hooks) where
  call_hook-Same : (h : Option ℕ) (s : Registry) → Same (call_hook hooks h s) s
  call_hook-Same none s = (refl, refl)
  call_hook-Same (some h) s = (kept.calls_table h s, kept.calls_freed h s)

  leave_old-Same :
      (h : Option ℕ) (info : BuiltinInfo) (s : Registry) → Same (leave_old hooks h info s) s
  leave_old-Same none info s = call_hook-Same info.deinit_fn s
  leave_old-Same (some h) info s =
      (kept.reloads_table h info.module_data s, kept.reloads_freed h info.module_data s)

  enter_new-Same : (h i : Option ℕ) (s : Registry) → Same (enter_new hooks h i s) s
  enter_new-Same none i s = call_hook-Same i s
  enter_new-Same (some h) i s = (refl, refl)

  init_module-Same :
      (h : Option ℕ) (name : Bytes) (s : Registry) → Same (init_module hooks h name s) s
  init_module-Same none name s = (refl, refl)
  init_module-Same (some h) name s =
      (kept.calls_table h (enter (some name) s), kept.calls_freed h (enter (some name) s))

  hot_reload-total :
      (u : ℕ) (l : Loaded) (info : BuiltinInfo) (s : Registry)
      → map_get s.builtins l.name ≡ some info
      → total u (hot_reload hooks l info s) ≡ is_unit u l.unit + total u s
  unfolding hot_reload
  hot_reload-total u l info s e =
      let start : Registry = enter (some info.module_name) s in
      let left : Registry = leave_old hooks l.reload_fn info start in
      let freed : Registry = free_unit info.unit left in
      let (t, f) = leave_old-Same l.reload_fn info start in
      let (found, is, unit) = found_unit (map_get freed.builtins l.name) info.unit (
        sym (unit_at-units_of freed.builtins l.name)
        ∙ ap (λ x. unit_at x l.name) (free_table info.unit left ∙ t)
        ∙ unit_at-units_of s.builtins l.name
        ∙ ap unit_field e) in
      let updated : Registry = record freed {
        builtins = map_update freed.builtins l.name (replaced hooks l);
      } in
      let ended =
        Same-total u (enter_new hooks l.reload_fn l.init_fn updated) updated
          (enter_new-Same l.reload_fn l.init_fn updated) in
      let moved = map_update-units u freed.builtins l.name (replaced hooks l) found is in
      let sum = free_unit-total u info.unit left in
      let before = Same-total u left s (t, f) in
      let old : is_unit u found.unit ≡ is_unit u info.unit = ap (is_unit u) unit in
      ended ∙ omega (arith, moved, sum, before, old)

  pub register-total :
      (u : ℕ) (l : Loaded) (s : Registry)
      → total u (akx_rt_register_builtin hooks l s) ≡ is_unit u l.unit + total u s
  unfolding akx_rt_register_builtin
  register-total u l s =
      let added : Registry = record s { builtins = map_set s.builtins l.name (new_info hooks l) } in
      elim (Option-cases (map_get s.builtins l.name)) [
        | inl new ↦ rw new (
            Same-total u (init_module hooks l.init_fn l.name added) added
              (init_module-Same l.init_fn l.name added)
            ∙ omega (arith, map_set-units u s.builtins l.name (new_info hooks l) new))
        | inr (info, old) ↦ rw old (hot_reload-total u l info s old)
      ]

  deinit_entries-freed :
      (u : ℕ) (table : Table) (s : Registry)
      → count_freed u (deinit_entries hooks table s).freed_units
        ≡ count_units u (units_of table) + count_freed u s.freed_units
  unfolding deinit_entries
  deinit_entries-freed u [] s = omega arith
  deinit_entries-freed u ((key, info) ∷ table) s =
      let same = ap (count_freed u) (init_module-Same info.deinit_fn info.module_name s).1 in
      let once = freed_one u info.unit (init_module hooks info.deinit_fn info.module_name s) in
      omega (arith, deinit_entries-freed u table (deinit_entry hooks info s), once, same)

  -- A session frees each unit as often as registrations brought it and it stood in the table before.
  pub session-frees_units :
      (u : ℕ) (ls : List Loaded) (s : Registry)
      → count_freed u (session hooks ls s).freed_units ≡ count_brought u ls + total u s
  unfolding deinit_builtins
  session-frees_units u [] s = omega (arith, deinit_entries-freed u s.builtins s)
  session-frees_units u (l ∷ ls) s =
      omega
        (arith, session-frees_units u ls (akx_rt_register_builtin hooks l s), register-total u l s)
