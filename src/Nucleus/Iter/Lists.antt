-- ===== src/Nucleus/Iter/Lists.antt =====
-- `iter` on lists is a map.
use akx.Base.{◌≡◌, refl, ap, ◌∙◌, Bool, true, false, List, [], ◌∷◌, Option}
use akx.Cell.{Cell, CellPtr, null, node, lambda, list, round, alloc_cell, nil, SourceRange}
use akx.Cell.Clone.{clone_lem}
use akx.Nucleus.Iter.{is_lambda, link, transform_list, list_of, iter_list}
use akx.Rt.{Runtime, done, M, ◌>>=◌, pure}

-- A function on the cells of a chain, with one on their source ranges.
unfoldable pub map_cells :
    (Cell → Cell) → (Option SourceRange → Option SourceRange) → CellPtr → CellPtr
map_cells f g null = null
map_cells f g (node r c next) = node (g r) (f c) (map_cells f g next)

abbrev map_list : (Cell → Cell) → (Option SourceRange → Option SourceRange) → CellPtr → List CellPtr
map_list f g null = []
map_list f g (node r c next) = node (g r) (f c) null ∷ map_list f g next

link-map_list :
    (f : Cell → Cell) (g : Option SourceRange → Option SourceRange) (p : CellPtr)
    → link (map_list f g p) ≡ map_cells f g p
unfolding link map_cells
link-map_list f g null = refl
link-map_list f g (node r c null) = refl
link-map_list f g (node r c (node q d next)) =
    ap (node (g r) (f c)) (link-map_list f g (node q d next))

-- The list that `iter` gives for a chain; none of its elements is a list of its own.
abbrev pub mapped : (Cell → Cell) → (Option SourceRange → Option SourceRange) → CellPtr → CellPtr
mapped f g null = nil
mapped f g (node r c next) = alloc_cell (list round (map_cells f g (node r c next)))

list_of-map_list :
    (f : Cell → Cell) (g : Option SourceRange → Option SourceRange) (p : CellPtr)
    → list_of (map_list f g p) ≡ mapped f g p
list_of-map_list f g null = refl
list_of-map_list f g (node r c next) =
    ap (λ q. alloc_cell (list round q)) (link-map_list f g (node r c next))

abbrev pub is_lambda_value : Cell → Bool
is_lambda_value (lambda _) = true
is_lambda_value _ = false

is_lambda-value :
    (r : Option SourceRange) (c : Cell) (next : CellPtr)
    → is_lambda (node r c next) ≡ is_lambda_value c
is_lambda-value r (lambda l) next = refl
is_lambda-value r _ next = refl

abbrev pub AllCells : (Cell → Type 0) → CellPtr → Type 0
AllCells P null = Unit
AllCells P (node _ c next) = P c × AllCells P next

-- On each cell with the property, alone, the lambda gives the function's value, and keeps what it
-- takes for that.
abbrev pub Computes :
    {Ctx : Type 0}
    → (CellPtr → CellPtr → M Ctx CellPtr)
    → CellPtr
    → (Cell → Cell)
    → (Option SourceRange → Option SourceRange)
    → (Cell → Type 0)
    → (Runtime Ctx → Type 0)
    → Type 0
Computes {Ctx} call lambda_cell f g P Good =
    (rt : Runtime Ctx) (r : Option SourceRange) (c : Cell)
    → P c
    → Good rt
    → (rt' : Runtime Ctx) × (call lambda_cell (node r c null) rt ≡ done (node (g r) (f c) null) rt')
      × Good rt'

module _ {Ctx : Type 0} (call : CellPtr → CellPtr → M Ctx CellPtr) (lambda_cell : CellPtr)
    (f : Cell → Cell) (g : Option SourceRange → Option SourceRange) (P : Cell → Type 0)
    (Good : Runtime Ctx → Type 0) (computes : Computes call lambda_cell f g P Good)
    (no_lambdas : (c : Cell) → P c → is_lambda_value (f c) ≡ false) where
  transform_list-map :
      (tail p : CellPtr) (rt : Runtime Ctx)
      → is_lambda tail ≡ false
      → AllCells P p
      → Good rt
      → (rt' : Runtime Ctx) × (transform_list call lambda_cell tail p rt
          ≡ done (map_list f g p) rt')
        × Good rt'
  unfolding transform_list ◌>>=◌ pure
  transform_list-map tail null rt b a h = (rt, refl, h)
  transform_list-map tail (node r c next) rt b (q, a) k =
      let (s, e, h) = computes rt r c q k in
      let other = is_lambda-value (g r) (f c) null ∙ no_lambdas c q in
      let (t, l, i) = transform_list-map (node (g r) (f c) null) next s other a h in
      (t, rw (clone_lem (node r c next), e, b, l) refl, i)

  -- The function, whose values are no lambdas, is applied to each element, and the results are a
  -- round list in the same order; no elements give `nil`.
  pub iter_list-map :
      (items : CellPtr) (rt : Runtime Ctx)
      → AllCells P items
      → Good rt
      → (rt' : Runtime Ctx) × (iter_list call items lambda_cell rt ≡ done (mapped f g items) rt')
        × Good rt'
  unfolding iter_list ◌>>=◌ pure
  iter_list-map items rt a k =
      let (t, e, h) = transform_list-map null items rt refl a k in
      (t, rw (e, list_of-map_list f g items) refl, h)
