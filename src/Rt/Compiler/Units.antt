-- ===== src/Rt/Compiler/Units.antt =====
-- The unit of every load is freed once, whether the load fails or is taken over by the table of builtins.
use akx.Base.{ℕ, ◌+◌, ◌≡◌, refl, ap, ◌∙◌, arith, List, [], ◌∷◌, Option, none, some}
use akx.Base.Text.{Bytes}
use akx.Rt.Compiler.{
  CompileOpts, Jit, and_then, lookup_of, compile, loaded, register_or_free,
  akx_compiler_load_builtin_ex,
}
use akx.Rt.Expand.{Libc}
use akx.Rt.Registry.{Registry, Hooks, Loaded}
use akx.Rt.Registry.Units.{
  KeepUnits, is_unit, count_freed, total, free_unit-total, register-total, session,
  session-frees_units,
}

-- The arguments of a load, with the unit that is made for it and the time.
pub record Request : Type 0 where
  pub name : Bytes
  pub c_function_name : Option Bytes
  pub root_path : Bytes
  pub opts : CompileOpts
  pub unit : ℕ
  pub now : ℕ

-- How many of the loads have this unit.
abbrev pub count_asked : ℕ → List Request → ℕ
count_asked u [] = 0
count_asked u (q ∷ qs) = is_unit u (some q.unit) + count_asked u qs

-- What is to be registered, if anything, brings this unit.
Brings : ℕ → Option Loaded → Type 0
Brings unit none = Unit
Brings unit (some l) = l.unit ≡ some unit

and_then-Brings :
    {A : Type 0} (unit : ℕ) (o : Option A) (f : A → Option Loaded)
    → ((a : A) → Brings unit (f a))
    → Brings unit (and_then o f)
unfolding Brings
and_then-Brings unit none f h = tt
and_then-Brings unit (some a) f h = h a

module _ (jit : Jit) (libc : Libc) where
  loaded-Brings :
      (q : Request)
      → Brings q.unit (loaded jit libc q.name q.c_function_name q.root_path q.opts q.unit q.now)
  unfolding Brings loaded
  loaded-Brings q = and_then-Brings q.unit (compile jit libc q.root_path q.opts) _ λ calls.
      and_then-Brings q.unit (jit.get_symbol calls (lookup_of q.name q.c_function_name)) _
        λ function. refl

  module _ (hooks : Hooks) where
    abbrev pub load : Request → Registry → Registry
    load q s =
        (akx_compiler_load_builtin_ex jit libc hooks q.name q.c_function_name q.root_path q.opts
          q.unit q.now s).0

    -- Loads one after the other, and the end of the runtime.
    abbrev pub load_session : List Request → Registry → Registry
    load_session [] s = session hooks [] s
    load_session (q ∷ qs) s = load_session qs (load q s)

    module _ (kept : KeepUnits hooks) where
      register_or_free-total :
          (u unit : ℕ) (o : Option Loaded) (s : Registry)
          → Brings unit o
          → total u (register_or_free jit libc hooks o unit s).0 ≡ is_unit u (some unit) + total u s
      unfolding Brings
      register_or_free-total u unit none s h = free_unit-total u (some unit) s
      register_or_free-total u unit (some l) s h =
          register-total kept u l s ∙ ap (λ x. is_unit u x + total u s) h

      load-total :
          (u : ℕ) (q : Request) (s : Registry)
          → total u (load q s) ≡ is_unit u (some q.unit) + total u s
      unfolding akx_compiler_load_builtin_ex
      load-total u q s = register_or_free-total u q.unit _ s (loaded-Brings q)

      -- Each unit is freed as often as loads were given it, and it stood in the table or was freed before.
      pub load_session-frees_units :
          (u : ℕ) (qs : List Request) (s : Registry)
          → count_freed u (load_session qs s).freed_units ≡ count_asked u qs + total u s
      load_session-frees_units u [] s = session-frees_units kept u [] s
      load_session-frees_units u (q ∷ qs) s =
          omega (arith, load_session-frees_units u qs (load q s), load-total u q s)
