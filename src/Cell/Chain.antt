-- ===== src/Cell/Chain.antt =====
-- `akx_rt_list_length`, `akx_rt_list_nth` and `akx_rt_list_append` of pkg/rt/akx_rt.c.
use akx.Base.{ℕ, zero, suc, ◌+◌, ◌-◌, ◌≡◌, arith, ltb, if◌then◌else◌}
use akx.Cell.{CellPtr, null, node}

unfoldable pub list_length : CellPtr → ℕ
list_length null = 0
list_length (node _ _ next) = suc (list_length next)

unfoldable pub list_nth : CellPtr → ℕ → CellPtr
list_nth null n = null
list_nth (node r c next) zero = node r c next
list_nth (node r c next) (suc n) = list_nth next n

-- Appending writes the `next` field of the last cell of the list.
unfoldable pub list_append : CellPtr → CellPtr → CellPtr
list_append list null = list
list_append null item = item
list_append (node r c next) item = node r c (list_append next item)

-- Lengths add up, whichever of the pointers are null.
pub list_length-list_append :
    (list item : CellPtr)
    → list_length (list_append list item) ≡ list_length list + list_length item
unfolding list_length list_append
list_length-list_append null null = omega arith
list_length-list_append null (node _ _ next) = omega arith
list_length-list_append (node _ _ next) null = omega arith
list_length-list_append (node _ _ next) (node r c rest) =
    omega (arith, list_length-list_append next (node r c rest))

-- Positions below the old length find the old chain (with the item at its end), and later ones
-- look into the item.
pub list_nth-list_append :
    (list item : CellPtr) (n : ℕ)
    → list_nth (list_append list item) n ≡ (
        if ltb n (list_length list)
        then list_append (list_nth list n) item
        else list_nth item (n - list_length list))
unfolding list_length list_nth list_append
list_nth-list_append null null n = ground arith
list_nth-list_append null (node _ _ next) n = ground arith
list_nth-list_append (node r c next) null zero = ground arith
list_nth-list_append (node r c next) (node _ _ _) zero = ground arith
list_nth-list_append (node r c next) null (suc n) = ground (arith, list_nth-list_append next null n)
list_nth-list_append (node r c next) (node s d rest) (suc n) =
    ground (arith, list_nth-list_append next (node s d rest) n)
