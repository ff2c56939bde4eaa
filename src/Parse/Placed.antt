-- ===== src/Parse/Placed.antt =====
-- Where the cells of a parsed chain lie in the source.
use akx.Base.{ℕ, ◌<◌, ◌≤◌, none, some, arith, List, [], ◌∷◌, ◌++◌, ◌≡◌}
use akx.Cell.{
  Cell, CellPtr, null, node, symbol, string_literal, integer_literal, real_literal, list, quoted,
  lambda, continuation,
}
use akx.Cell.Chain.{list_append}

unfoldable mutual
  -- The cells of the chain have ranges that are not empty, lie between `lo` and `hi`, follow one
  -- another without overlap, and hold the ranges of the cells inside them in the same way.
  pub Placed : ℕ → ℕ → CellPtr → Type 0
  Placed lo hi null = Unit
  Placed lo hi (node none c next) = ⊥
  Placed lo hi (node (some r) c next) =
      (lo ≤ r.start)
      × (r.start < r.end)
      × (r.end ≤ hi)
      × PlacedInside r.start r.end c
      × Placed r.end hi next

  -- The parser makes no lambda and no continuation.
  pub PlacedInside : ℕ → ℕ → Cell → Type 0
  PlacedInside lo hi (list k head) = Placed lo hi head
  PlacedInside lo hi (lambda l) = ⊥
  PlacedInside lo hi (continuation l args) = ⊥
  PlacedInside lo hi (symbol s) = Unit
  PlacedInside lo hi (string_literal s) = Unit
  PlacedInside lo hi (integer_literal i) = Unit
  PlacedInside lo hi (real_literal x) = Unit
  PlacedInside lo hi (quoted s) = Unit

pub Placed-mono :
    (lo lo' hi hi' : ℕ) (p : CellPtr) → lo' ≤ lo → hi ≤ hi' → Placed lo hi p → Placed lo' hi' p
unfolding Placed
Placed-mono lo lo' hi hi' null a b h = tt
Placed-mono lo lo' hi hi' (node none c next) a b h = h
Placed-mono lo lo' hi hi' (node (some r) c next) a b (l, s, u, i, n) =
    (omega arith, s, omega arith, i, Placed-mono r.end r.end hi hi' next (omega arith) b n)

-- A chain up to `mid` and one from `mid` on make a chain.
pub Placed-list_append :
    (lo mid hi : ℕ) (p q : CellPtr)
    → lo ≤ mid
    → mid ≤ hi
    → Placed lo mid p
    → Placed mid hi q
    → Placed lo hi (list_append p q)
unfolding Placed list_append
Placed-list_append lo mid hi p null a b h k = Placed-mono lo lo mid hi p (omega arith) b h
Placed-list_append lo mid hi null (node r c next) a b h k =
    Placed-mono mid lo hi hi (node r c next) a (omega arith) k
Placed-list_append lo mid hi (node none c next) (node s d more) a b h k = h
Placed-list_append lo mid hi (node (some r) c next) (node s d more) a b (l, u, v, i, n) k =
    (l, u, omega arith, i, Placed-list_append r.end mid hi next (node s d more) v b n k)

-- The same of cells in a list, which have no next cell.
unfoldable pub PlacedCells : ℕ → ℕ → List CellPtr → Type 0
unfolding Placed
PlacedCells lo hi [] = Unit
PlacedCells lo hi (null ∷ cs) = ⊥
PlacedCells lo hi (node none c next ∷ cs) = ⊥
PlacedCells lo hi (node (some r) c next ∷ cs) =
    Placed lo hi (node (some r) c next) × (next ≡ null) × PlacedCells r.end hi cs

pub PlacedCells-mono :
    (lo lo' hi hi' : ℕ) (cs : List CellPtr)
    → lo' ≤ lo
    → hi ≤ hi'
    → PlacedCells lo hi cs
    → PlacedCells lo' hi' cs
unfolding PlacedCells
PlacedCells-mono lo lo' hi hi' [] a b h = tt
PlacedCells-mono lo lo' hi hi' (null ∷ cs) a b h = h
PlacedCells-mono lo lo' hi hi' (node none c next ∷ cs) a b h = h
PlacedCells-mono lo lo' hi hi' (node (some r) c next ∷ cs) a b (p, e, t) = (
  Placed-mono lo lo' hi hi' (node (some r) c next) a b p,
  e,
  PlacedCells-mono r.end r.end hi hi' cs (omega arith) b t,
)

pub PlacedCells-append :
    (lo mid hi : ℕ) (cs ds : List CellPtr)
    → lo ≤ mid
    → mid ≤ hi
    → PlacedCells lo mid cs
    → PlacedCells mid hi ds
    → PlacedCells lo hi (cs ++ ds)
unfolding PlacedCells Placed
PlacedCells-append lo mid hi [] ds a b h k = PlacedCells-mono mid lo hi hi ds a (omega arith) k
PlacedCells-append lo mid hi (null ∷ cs) ds a b h k = h
PlacedCells-append lo mid hi (node none c next ∷ cs) ds a b h k = h
PlacedCells-append lo mid hi (node (some r) c next ∷ cs) ds a b (p, e, t) k = (
  Placed-mono lo lo mid hi (node (some r) c next) (omega arith) b p,
  e,
  PlacedCells-append r.end mid hi cs ds (p.2) b t k,
)
