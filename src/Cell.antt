-- ===== src/Cell.antt =====
-- pkg/cell/akx_cell.h and the constructors, accessors and list helpers of pkg/rt/akx_rt.c.
-- A cell lies in memory together with its `next` pointer, so an `akx_cell_t *` is a chain:
-- `null`, or a node with the source range, the tagged union and the pointer to the next sibling.
-- The brackets of a list stand beside its `list_head`, and a double is its 64-bit pattern. An
-- `ak_lambda_t *` is the number of the captured context in the runtime's table.
pub mod Clone
pub mod Chain
pub mod Free
use akx.Base.{ℕ, zero, suc, Bool, true, false, ◌==◌, if◌then◌else◌}
use akx.Base.Int.{ℤ, pos}
use akx.Base.Text.{Bytes, codes}
use akx.Base.{Option, none, some}

-- `akx_type_t`, in the order of the enumeration.
pub data CellType : Type 0 where
  type_symbol type_string_literal type_integer_literal type_real_literal : CellType
  type_list type_list_square type_list_curly type_list_temple : CellType
  type_quoted type_lambda type_continuation : CellType

pub data Brackets : Type 0 where
  round square curly temple : Brackets

-- `ak_source_range_t`: the offsets of its two ends in the source file.
pub record SourceRange : Type 0 where
  pub start : ℕ
  pub end : ℕ

mutual
  -- The type tag and the member of the union that belongs to it.
  pub data Cell : Type 0 where
    symbol : Bytes → Cell
    string_literal : Bytes → Cell
    integer_literal : ℤ → Cell
    real_literal : ℕ → Cell
    list : Brackets → CellPtr → Cell
    quoted : Bytes → Cell
    lambda : ℕ → Cell
    continuation : CellPtr → CellPtr → Cell

  -- `akx_cell_t *`
  pub data CellPtr : Type 0 where
    null : CellPtr
    node : Option SourceRange → Cell → CellPtr → CellPtr

abbrev pub list_type : Brackets → CellType
list_type round = type_list
list_type square = type_list_square
list_type curly = type_list_curly
list_type temple = type_list_temple

abbrev pub type_of : Cell → CellType
type_of (symbol _) = type_symbol
type_of (string_literal _) = type_string_literal
type_of (integer_literal _) = type_integer_literal
type_of (real_literal _) = type_real_literal
type_of (list b _) = list_type b
type_of (quoted _) = type_quoted
type_of (lambda _) = type_lambda
type_of (continuation _ _) = type_continuation

-- The value of the enumerator.
abbrev pub type_code : CellType → ℕ
type_code type_symbol = 0
type_code type_string_literal = 1
type_code type_integer_literal = 2
type_code type_real_literal = 3
type_code type_list = 4
type_code type_list_square = 5
type_code type_list_curly = 6
type_code type_list_temple = 7
type_code type_quoted = 8
type_code type_lambda = 9
type_code type_continuation = 10

abbrev pub type_eq : CellType → CellType → Bool
type_eq a b = type_code a == type_code b

-- `akx_rt_cell_get_type`: a null pointer reads as a symbol.
abbrev pub cell_get_type : CellPtr → CellType
cell_get_type null = type_symbol
cell_get_type (node _ c _) = type_of c

abbrev pub cell_is_type : CellPtr → CellType → Bool
cell_is_type null t = false
cell_is_type (node _ c _) t = type_eq (type_of c) t

abbrev pub cell_as_int : CellPtr → ℤ
cell_as_int (node _ (integer_literal i) _) = i
cell_as_int _ = pos 0

abbrev pub cell_as_real : CellPtr → ℕ
cell_as_real (node _ (real_literal r) _) = r
cell_as_real _ = 0

abbrev pub cell_as_symbol : CellPtr → Option Bytes
cell_as_symbol (node _ (symbol s) _) = some s
cell_as_symbol _ = none

abbrev pub cell_as_string : CellPtr → Option Bytes
cell_as_string (node _ (string_literal s) _) = some s
cell_as_string _ = none

abbrev pub cell_as_list : CellPtr → CellPtr
cell_as_list (node _ (list _ head) _) = head
cell_as_list _ = null

abbrev pub cell_as_lambda : CellPtr → Option ℕ
cell_as_lambda (node _ (lambda l) _) = some l
cell_as_lambda _ = none

abbrev pub cell_next : CellPtr → CellPtr
cell_next null = null
cell_next (node _ _ next) = next

-- `cell->next = next`
abbrev pub set_next : CellPtr → CellPtr → CellPtr
set_next null next = null
set_next (node r c _) next = node r c next

abbrev pub sourceloc : CellPtr → Option SourceRange
sourceloc null = none
sourceloc (node r _ _) = r

abbrev pub is_null : CellPtr → Bool
is_null null = true
is_null (node _ _ _) = false

-- The four list types, as the nuclei test them.
abbrev pub is_list_type : CellType → Bool
is_list_type type_list = true
is_list_type type_list_square = true
is_list_type type_list_curly = true
is_list_type type_list_temple = true
is_list_type _ = false

-- `akx_rt_alloc_cell` followed by the setter of the union's member.
abbrev pub alloc_cell : Cell → CellPtr
alloc_cell c = node none c null

abbrev pub nil : CellPtr
nil = alloc_cell (symbol (codes "nil"))

-- The result of every predicate nucleus.
abbrev pub truth : Bool → CellPtr
truth b = alloc_cell (integer_literal (pos (if b then 1 else 0)))
