-- ===== src/Rt/Expand/Loop.antt =====
-- The loop of `akx_rt_expand_env_vars` and the whole function, against `Expands`.
use akx.Base.{
  ℕ, zero, suc, ◌<◌, ◌≤◌, ◌≡◌, ◌≢◌, refl, ap, sym, true, false, [], ◌∷◌, ◌++◌, append-nil,
  append_assoc, Option, some, arith, ◌==◌, length, Bool-cases, inl, inr,
}
use akx.Base.Text.{Bytes}
use akx.Rt.Expand.{
  Libc, ResultBuffer, terminate, var_name, after_name, var_value, put_value, put_byte, expand_loop,
  has_dollar, expand_env_vars, finish,
}
use akx.Rt.Expand.Spec.{
  IsSafe, EndsName, IsName, Expands, byte, done, dollar, variable, put_byte-IsSafe,
  put_value-IsSafe, put_value-result, put_byte-result, IsName-split,
}

module _ (libc : Libc) where
  -- The loop ended, every write of it was in bounds, and it wrote an expansion of the rest.
  abbrev Expanded : Option ResultBuffer → Bytes → Bytes → Type 0
  Expanded o current before =
      (r : ResultBuffer) × (out : Bytes) × (o ≡ some r)
      × IsSafe r
      × (r.result ≡ before ++ out)
      × Expands libc current out

  after_put :
      (o : Option ResultBuffer) (current path before mid more : Bytes)
      → mid ≡ before ++ more
      → ((out : Bytes) → Expands libc current out → Expands libc path (more ++ out))
      → Expanded o current mid
      → Expanded o path before
  after_put o current path before mid more e step (r, out, is, safe, eq, ex) =
      (r, more ++ out, is, safe, rw (eq, e) (append_assoc before more out), step out ex)

  dollar_at : (c : ℕ) → (c == b'$') ≡ true → c ≡ b'$'
  dollar_at c is = grind arith

  other_at : (c : ℕ) → (c == b'$') ≡ false → c ≢ b'$'
  other_at c is e = grind arith

  -- What the recursive call owes.
  LoopsTo : ℕ → Type 0
  unfolding expand_loop
  LoopsTo fuel =
      (current : Bytes) (r : ResultBuffer)
      → length current < fuel
      → IsSafe r
      → Expanded (expand_loop libc fuel current r) current r.result

  dollar_step :
      (fuel : ℕ) (rest name after : Bytes) (r : ResultBuffer)
      → LoopsTo fuel
      → length rest < fuel
      → IsSafe r
      → rest ≡ name ++ after
      → IsName libc name
      → EndsName libc after
      → length after ≤ length rest
      → Expanded
          (elim name [
            | [] ↦ expand_loop libc fuel rest (put_byte libc b'$' r)
            | n ∷ ns ↦ expand_loop libc fuel after (put_value libc (var_value libc (n ∷ ns)) r)
          ])
          (b'$' ∷ rest)
          r.result
  unfolding expand_loop LoopsTo
  dollar_step fuel rest [] after r ih l h e is ends short =
      after_put _ rest _ _ _ (b'$' ∷ []) (put_byte-result libc b'$' r) (λ out. dollar (rw e ends))
        (ih rest (put_byte libc b'$' r) l (put_byte-IsSafe libc b'$' r h))
  dollar_step fuel rest (n ∷ ns) after r ih l h e is ends short =
      after_put _ after _ _ _ _ (put_value-result libc (var_value libc (n ∷ ns)) r)
        (λ out. variable n ns after is ends (ap (◌∷◌ b'$') e))
        (ih after (put_value libc (var_value libc (n ∷ ns)) r) (omega arith)
          (put_value-IsSafe libc (var_value libc (n ∷ ns)) r h))

  expand_loop-Expanded :
      (fuel : ℕ) (current : Bytes) (r : ResultBuffer)
      → length current < fuel
      → IsSafe r
      → Expanded (expand_loop libc fuel current r) current r.result
  unfolding expand_loop LoopsTo
  expand_loop-Expanded zero current r l h = grind arith
  expand_loop-Expanded (suc fuel) [] r l h = (r, [], refl, h, sym (append-nil r.result), done)
  expand_loop-Expanded (suc fuel) (c ∷ rest) r l h = elim (Bool-cases (c == b'$')) [
    | inl is ↦
        let (e, name, ends, short) = IsName-split libc rest in
        rw (dollar_at c is) (
          dollar_step fuel rest (var_name libc rest) (after_name libc rest) r
            (expand_loop-Expanded fuel) (omega arith) h e name ends short)
    | inr other ↦
        rw (expand_loop, other)
          (after_put _ rest _ _ _ (c ∷ []) (put_byte-result libc c r)
            (λ out. byte (other_at c other))
            (expand_loop-Expanded fuel rest (put_byte libc c r) (omega arith)
              (put_byte-IsSafe libc c r h)))
  ]

  done_finish :
      (o : Option ResultBuffer) (path : Bytes)
      → Expanded o path []
      → (r : ResultBuffer) × (finish libc o ≡ some r) × (r.safe ≡ true) × Expands libc path r.result
  done_finish o path (r, out, is, (safe, room), eq, ex) =
      (terminate r, ap (finish libc) is, grind arith, rw eq ex)

  plain_Expands : (path : Bytes) → has_dollar libc path ≡ false → Expands libc path path
  unfolding has_dollar
  plain_Expands [] h = done
  plain_Expands (c ∷ path) h = elim (Bool-cases (c == b'$')) [
    | inl is ↦ grind arith
    | inr other ↦ byte (other_at c other) (plain_Expands path (grind arith))
  ]

  -- For every path the function returns; what it returns is the path with its variables expanded,
  -- and every byte it writes, the NUL included, lies in the buffer allocated at that time.
  pub expand_env_vars-Expands :
      (path : Bytes)
      → (r : ResultBuffer) × (expand_env_vars libc path ≡ some r)
        × (r.safe ≡ true)
        × Expands libc path r.result
  unfolding expand_env_vars expand_loop
  expand_env_vars-Expands path = elim (Bool-cases (has_dollar libc path)) [
    | inl has ↦ rw has (
        done_finish _ path
          (expand_loop-Expanded (suc (length path)) path _ (omega arith) (refl, omega arith)))
    | inr plain ↦ rw plain (_, refl, grind arith, plain_Expands path plain)
  ]
