-- ===== src/Rt/Expand/Spec.antt =====
-- What the expansion of a path is, and that the loop computes it inside its buffer.
use akx.Base.{
  ℕ, ◌<◌, ◌≤◌, ◌≡◌, ◌≢◌, refl, ap, sym, true, false, [], ◌∷◌, ◌++◌, append-nil, Option, none, some,
  arith, length, length-append, Bool-cases, inl, inr,
}
use akx.Base.Text.{Bytes}
use akx.Rt.Expand.{
  Libc, ResultBuffer, is_name_char, var_name, after_name, var_value, put_value, put_byte,
}

abbrev pub value_or_empty : Option Bytes → Bytes
value_or_empty none = []
value_or_empty (some v) = v

-- Every byte written lay in the buffer, and there is room for one more.
abbrev pub IsSafe : ResultBuffer → Type 0
IsSafe r = (r.safe ≡ true) × (length r.result < r.estimated_len)

module _ (libc : Libc) where
  -- The text does not begin with a byte of a name.
  abbrev pub EndsName : Bytes → Type 0
  EndsName [] = Unit
  EndsName (c ∷ cs) = is_name_char libc c ≡ false

  abbrev pub IsName : Bytes → Type 0
  IsName [] = Unit
  IsName (c ∷ cs) = (is_name_char libc c ≡ true) × IsName cs

  -- `$NAME`, with the longest name that fits, stands for the value of the variable, or for nothing
  -- if it has none; every other byte for itself, a `$` with no name behind it too.
  pub data Expands : Bytes → Bytes → Type 0 where
    done : Expands [] []
    byte : {c : ℕ} {path out : Bytes} → c ≢ b'$' → Expands path out → Expands (c ∷ path) (c ∷ out)
    dollar :
        {path out : Bytes} → EndsName path → Expands path out → Expands (b'$' ∷ path) (b'$' ∷ out)
    variable :
        {path out : Bytes} (n : ℕ) (ns rest : Bytes)
        → IsName (n ∷ ns)
        → EndsName rest
        → path ≡ b'$' ∷ n ∷ (ns ++ rest)
        → Expands rest out
        → Expands path (value_or_empty (var_value libc (n ∷ ns)) ++ out)

  pub put_byte-IsSafe : (c : ℕ) (r : ResultBuffer) → IsSafe r → IsSafe (put_byte libc c r)
  put_byte-IsSafe c r h = ground (arith, length-append r.result (c ∷ []))

  pub put_value-IsSafe :
      (v : Option Bytes) (r : ResultBuffer) → IsSafe r → IsSafe (put_value libc v r)
  put_value-IsSafe none r h = h
  put_value-IsSafe (some v) r h = ground (arith, length-append r.result v)

  pub put_value-result :
      (v : Option Bytes) (r : ResultBuffer)
      → (put_value libc v r).result ≡ r.result ++ value_or_empty v
  put_value-result none r = sym (append-nil r.result)
  put_value-result (some v) r = ground arith

  pub put_byte-result : (c : ℕ) (r : ResultBuffer) → (put_byte libc c r).result ≡ r.result ++ c ∷ []
  put_byte-result c r = ground arith

  pub IsName-split :
      (cs : Bytes)
      → (cs ≡ var_name libc cs ++ after_name libc cs)
        × IsName (var_name libc cs)
        × EndsName (after_name libc cs)
        × (length (after_name libc cs) ≤ length cs)
  unfolding var_name after_name
  IsName-split [] = (refl, tt, tt, omega arith)
  IsName-split (c ∷ cs) = elim (Bool-cases (is_name_char libc c)) [
    | inl is ↦
        let (e, n, z, l) = IsName-split cs in
        rw (is, var_name, after_name) (ap (◌∷◌ c) e, (is, n), z, omega arith)
    | inr other ↦ rw (other, var_name, after_name) (refl, tt, other, omega arith)
  ]
