-- ===== src/Parse/Scanner.antt =====
-- What the parser of pkg/cell/akx_cell.c calls and does not implement: `ak_scanner_t`, `ak_buffer_t`,
-- `atoi` and `atof`. A scanner is a buffer and a position, and each call gives the new position.
use akx.Base.{ℕ, ◌+◌, ◌<◌, ◌≤◌, ◌≡◌, Bool, Option, some, length}
use akx.Base.Int.{ℤ}
use akx.Base.Text.{Bytes}

-- `ak_buffer_t`: its bytes, and where in the source file they begin.
pub record Buffer : Type 0 where
  pub bytes : Bytes
  pub origin_offset : ℕ

pub data StaticBase : Type 0 where
  base_integer base_real base_symbol base_other : StaticBase

-- `ak_scanner_static_type_result_t`; no base where it says that the read failed.
pub record StaticResult : Type 0 where
  pub position : ℕ
  pub base : Option StaticBase
  pub text : Bytes

-- `ak_scanner_find_group_result_t`: the indices of the two delimiters, and the position if it fails.
pub data GroupResult : Type 0 where
  group_missing : ℕ → GroupResult
  group_found : ℕ → ℕ → GroupResult

-- The new position, and whether the call returned true.
pub record Moved : Type 0 where
  pub position : ℕ
  pub ok : Bool

pub record Scanner : Type 0 where
  -- `ak_scanner_skip_whitespace_and_comments`, `ak_scanner_goto_next_non_white`
  pub skip_whitespace_and_comments : Bytes → ℕ → Moved
  pub goto_next_non_white : Bytes → ℕ → Moved
  -- `ak_scanner_read_static_base_type`
  pub read_static_base_type : Bytes → ℕ → StaticResult
  -- `ak_scanner_find_group`: opening and closing delimiter, escape byte, and whether groups nest
  pub find_group : Bytes → ℕ → ℕ → ℕ → Option ℕ → Bool → GroupResult
  -- `ak_buffer_sub_buffer`, where it copies at least one byte
  pub sub_buffer : Buffer → ℕ → ℕ → Option Buffer
  pub atoi : Bytes → ℤ
  pub atof : Bytes → ℕ
  -- the `origin_offset` that `ak_buffer_new` gives
  pub new_origin : ℕ

-- The positions that the scanner promises, from a position in the buffer.
pub record StaysInside (sc : Scanner) : Type 0 where
  pub skip_forward :
      (b : Bytes) (p : ℕ) → p ≤ length b → p ≤ (sc.skip_whitespace_and_comments b p).position
  pub skip_inside :
      (b : Bytes) (p : ℕ) → p ≤ length b → (sc.skip_whitespace_and_comments b p).position ≤ length b
  pub goto_forward : (b : Bytes) (p : ℕ) → p ≤ length b → p ≤ (sc.goto_next_non_white b p).position
  pub goto_inside :
      (b : Bytes) (p : ℕ) → p ≤ length b → (sc.goto_next_non_white b p).position ≤ length b
  pub static_forward :
      (b : Bytes) (p : ℕ) → p ≤ length b → p ≤ (sc.read_static_base_type b p).position
  pub static_inside :
      (b : Bytes) (p : ℕ) → p ≤ length b → (sc.read_static_base_type b p).position ≤ length b
  -- a value has at least one byte
  pub static_reads :
      (b : Bytes) (p : ℕ) (base : StaticBase)
      → p ≤ length b
      → (sc.read_static_base_type b p).base ≡ some base
      → p < (sc.read_static_base_type b p).position
  pub group_missing_inside :
      (b : Bytes) (p o c : ℕ) (e : Option ℕ) (nested : Bool) (q : ℕ)
      → p ≤ length b
      → sc.find_group b p o c e nested ≡ group_missing q
      → (p ≤ q) × (q ≤ length b)
  -- the closing delimiter stands behind the opening one, both in the buffer
  pub group_found_inside :
      (b : Bytes) (p o c : ℕ) (e : Option ℕ) (nested : Bool) (i j : ℕ)
      → p ≤ length b
      → sc.find_group b p o c e nested ≡ group_found i j
      → (p ≤ i) × (i < j) × (j < length b)
  pub sub_buffer_inside :
      (b : Buffer) (start len : ℕ) (sub : Buffer)
      → start + len ≤ length b.bytes
      → sc.sub_buffer b start len ≡ some sub
      → (length sub.bytes ≤ len) × (sub.origin_offset ≡ b.origin_offset + start)
