-- ===== src/Rt/Registry/Lookup.antt =====
-- What the table of builtins gives after a write.
use akx.Base.{
  ◌≡◌, refl, sym, ◌∙◌, Bool, true, false, Bool-cases, inl, inr, [], ◌∷◌, some, if◌then◌else◌, arith,
}
use akx.Base.Text.{Bytes, bytes_eq, bytes_eq_iff}
use akx.Rt.Registry.{BuiltinInfo, Table, map_get, map_set, map_update}

true-false : {b : Bool} → b ≡ true → b ≡ false → ⊥
true-false e n = cc

if_twice {ℓ} :
    {A : Type ℓ} (b : Bool) (x y z : A)
    → (if b then x else z) ≡ (if b then x else (if b then y else z))
if_twice true x y z = refl
if_twice false x y z = refl

-- A name equal to one key is no other key.
bytes_eq_other :
    (key name other : Bytes)
    → bytes_eq key name ≡ false
    → bytes_eq key other ≡ true
    → bytes_eq name other ≡ false
bytes_eq_other key name other n e = elim (Bool-cases (bytes_eq name other)) [
  | inl f ↦
      let same : name ≡ key = (bytes_eq_iff name other).0 f ∙ sym ((bytes_eq_iff key other).0 e) in
      absurd (true-false ((bytes_eq_iff key name).1 (sym same)) n)
  | inr f ↦ f
]

pub map_get-map_set :
    (table : Table) (name : Bytes) (info : BuiltinInfo) (other : Bytes)
    → map_get (map_set table name info) other
      ≡ (if bytes_eq name other then some info else map_get table other)
unfolding map_get map_set
map_get-map_set [] name info other = refl
map_get-map_set ((key, old) ∷ table) name info other = elim (Bool-cases (bytes_eq key name)) [
  | inl e ↦ rw e (
      rw ((bytes_eq_iff key name).0 e)
        (if_twice (bytes_eq name other) (some info) (some old) (map_get table other)))
  | inr n ↦ rw n (elim (Bool-cases (bytes_eq key other)) [
    | inl e ↦ rw (e, bytes_eq_other key name other n e) refl
    | inr m ↦ rw m (map_get-map_set table name info other)
  ])
]

pub map_get-map_update :
    (table : Table) (name : Bytes) (f : BuiltinInfo → BuiltinInfo) (info : BuiltinInfo)
    (other : Bytes)
    → map_get table name ≡ some info
    → map_get (map_update table name f) other
      ≡ (if bytes_eq name other then some (f info) else map_get table other)
unfolding map_get map_update
map_get-map_update [] name f info other e = absurd (ground arith)
map_get-map_update ((key, old) ∷ table) name f info other found =
    elim (Bool-cases (bytes_eq key name)) [
      | inl e ↦
          let here : some old ≡ some info = rw e at found in
          let same : old ≡ info = cc in
          rw e (
            rw ((bytes_eq_iff key name).0 e, same)
              (if_twice (bytes_eq name other) (some (f info)) (some info) (map_get table other)))
      | inr n ↦ rw n (elim (Bool-cases (bytes_eq key other)) [
        | inl e ↦ rw (e, bytes_eq_other key name other n e) refl
        | inr m ↦ rw m (map_get-map_update table name f info other (rw n at found))
      ])
    ]
