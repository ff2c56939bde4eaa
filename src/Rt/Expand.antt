-- ===== src/Rt/Expand.antt =====
-- `akx_rt_expand_env_vars` of pkg/rt/akx_rt.c: `$NAME` in a path, with the growing result buffer.
pub mod Spec
pub mod Loop
use akx.Base.{
  ℕ, zero, suc, ◌+◌, Bool, true, false, ◌&&◌, ◌||◌, List, [], ◌∷◌, ◌++◌, Option, none, some, ltb,
  leb, ◌==◌, if◌then◌else◌, length,
}
use akx.Base.Text.{Bytes, codes, bytes_eq}

-- What the function calls: `isalnum`, `getenv`, and the path that `ak_filepath_join` makes of the
-- home directory and ".akx".
pub record Libc : Type 0 where
  pub isalnum : ℕ → Bool
  pub getenv : Bytes → Option Bytes
  pub join_akx : Bytes → Option Bytes

-- `result`, its first `result_pos` bytes and its capacity; `safe` tells whether every write so far
-- lay inside the buffer.
pub record ResultBuffer : Type 0 where
  pub result : Bytes
  pub estimated_len : ℕ
  pub safe : Bool

-- The test before a value of `n` bytes is copied, and the new buffer.
abbrev pub grow_for_value : ℕ → ResultBuffer → ResultBuffer
grow_for_value n r =
    if leb r.estimated_len (length r.result + n)
    then record r { estimated_len = length r.result + n + 256 }
    else r

-- The test before one byte is copied.
abbrev pub grow_for_byte : ResultBuffer → ResultBuffer
grow_for_byte r =
    if leb r.estimated_len (length r.result + 1)
    then record r { estimated_len = length r.result + 256 }
    else r

-- The bytes go behind those written before.
abbrev pub write : Bytes → ResultBuffer → ResultBuffer
write bytes r = record r {
  result = r.result ++ bytes;
  safe = r.safe && leb (length r.result + length bytes) r.estimated_len;
}

-- The NUL at the end.
abbrev pub terminate : ResultBuffer → ResultBuffer
terminate r = record r { safe = r.safe && ltb (length r.result) r.estimated_len }

module _ (libc : Libc) where
  unfoldable pub is_name_char : ℕ → Bool
  is_name_char c = libc.isalnum c || c == b'_'

  -- `var_end - var_start` bytes, and what stands at `var_end`.
  unfoldable pub var_name : Bytes → Bytes
  var_name [] = []
  var_name (c ∷ cs) = elim (is_name_char c) [ true ↦ c ∷ var_name cs | false ↦ [] ]

  unfoldable pub after_name : Bytes → Bytes
  after_name [] = []
  after_name (c ∷ cs) = elim (is_name_char c) [ true ↦ after_name cs | false ↦ c ∷ cs ]

  home_default : Option Bytes → Option Bytes
  home_default none = none
  home_default (some home) = libc.join_akx home

  or_default : Bytes → Option Bytes → Option Bytes
  or_default name (some value) = some value
  or_default name none =
      if bytes_eq name (codes "AKX_HOME") then home_default (libc.getenv (codes "HOME")) else none

  -- `getenv`, and the default of AKX_HOME.
  unfoldable pub var_value : Bytes → Option Bytes
  unfolding or_default home_default
  var_value name = or_default name (libc.getenv name)

  abbrev pub put_value : Option Bytes → ResultBuffer → ResultBuffer
  put_value none r = r
  put_value (some value) r = write value (grow_for_value (length value) r)

  abbrev pub put_byte : ℕ → ResultBuffer → ResultBuffer
  put_byte c r = write (c ∷ []) (grow_for_byte r)

  -- `while (*current)`; the rounds are bounded by the length of the path.
  unfoldable pub expand_loop : ℕ → Bytes → ResultBuffer → Option ResultBuffer
  expand_loop zero current r = none
  expand_loop (suc fuel) [] r = some r
  expand_loop (suc fuel) (c ∷ rest) r = elim (c == b'$') [
    | false ↦ expand_loop fuel rest (put_byte c r)
    | true ↦ elim (var_name rest) [
      | [] ↦ expand_loop fuel rest (put_byte c r)
      | n ∷ ns ↦ expand_loop fuel (after_name rest) (put_value (var_value (n ∷ ns)) r)
    ]
  ]

  unfoldable pub has_dollar : Bytes → Bool
  has_dollar [] = false
  has_dollar (c ∷ cs) = c == b'$' || has_dollar cs

  abbrev pub finish : Option ResultBuffer → Option ResultBuffer
  finish none = none
  finish (some r) = some (terminate r)

  -- A path with no `$` is copied, NUL included, into a buffer that fits.
  unfoldable pub expand_env_vars : Bytes → Option ResultBuffer
  unfolding expand_loop has_dollar var_name after_name var_value is_name_char
  expand_env_vars path =
      if has_dollar path
      then finish (
          expand_loop (suc (length path)) path
            (record { result = []; estimated_len = length path + 256; safe = true }))
      else some (
          terminate
            (write path (record { result = []; estimated_len = length path + 1; safe = true })))
