-- ===== src/Nucleus/Strings/Joined.antt =====
-- `str/+` joins its arguments.
use akx.Base.{
  ◌≡◌, refl, true, false, List, [], ◌∷◌, ◌++◌, append-nil, append_assoc, ltb, Option, none, some,
}
use akx.Base.Text.{Bytes, HasNoNul, c_string-HasNoNul}
use akx.Cell.{
  CellPtr, null, string_literal, alloc_cell, type_eq, cell_get_type, cell_as_string,
  type_string_literal,
}
use akx.Cell.Chain.{list_length}
use akx.Nucleus.Args.{Evaluated, none_yet, one_more}
use akx.Nucleus.Strings.{concat_args, str_concat_impl, text_of}
use akx.Rt.{Runtime, Evaluator, done, ◌>>=◌, pure, eval_and_assert}

abbrev pub AllStrings : List CellPtr → Type 0
AllStrings [] = Unit
AllStrings (v ∷ vs) = (type_eq (cell_get_type v) type_string_literal ≡ true) × AllStrings vs

-- The texts of the strings, one behind the other, each up to its first NUL.
abbrev pub joined : List CellPtr → Bytes
joined [] = []
joined (v ∷ vs) = text_of (cell_as_string v) ++ joined vs

append-HasNoNul : (s t : Bytes) → HasNoNul s → HasNoNul t → HasNoNul (s ++ t)
append-HasNoNul [] t h k = k
append-HasNoNul (c ∷ s) t (z, h) k = (z, append-HasNoNul s t h k)

text_of-HasNoNul : (o : Option Bytes) → HasNoNul (text_of o)
text_of-HasNoNul none = tt
text_of-HasNoNul (some s) = c_string-HasNoNul s

joined-HasNoNul : (vs : List CellPtr) → HasNoNul (joined vs)
joined-HasNoNul [] = tt
joined-HasNoNul (v ∷ vs) =
    append-HasNoNul (text_of (cell_as_string v)) (joined vs) (text_of-HasNoNul (cell_as_string v))
      (joined-HasNoNul vs)

module _ {Ctx : Type 0} (ev : Evaluator Ctx) where
  concat_args_lem :
      {args rest : CellPtr} {rt rt' : Runtime Ctx} {vs : List CellPtr} (before : Bytes)
      → rest ≡ null
      → Evaluated ev args rt vs rest rt'
      → AllStrings vs
      → concat_args ev args before rt ≡ done (alloc_cell (string_literal (before ++ joined vs))) rt'
  unfolding concat_args ◌>>=◌ eval_and_assert pure
  concat_args_lem before end none_yet h = rw (end, append-nil before) refl
  concat_args_lem before end (one_more {v} {vs} e more) (h, hs) =
      rw (e, h, ← append_assoc before (text_of (cell_as_string v)) (joined vs))
        (concat_args_lem (before ++ text_of (cell_as_string v)) end more hs)

  -- `str/+` on one argument or more whose values are strings: the result is their texts one behind
  -- the other, each up to its first NUL, with no NUL inside, in the state that the last argument
  -- left.
  pub str_concat_impl_lem :
      (args : CellPtr) (rt rt' : Runtime Ctx) (vs : List CellPtr)
      → ltb (list_length args) 1 ≡ false
      → Evaluated ev args rt vs null rt'
      → AllStrings vs
      → (str_concat_impl ev args rt ≡ done (alloc_cell (string_literal (joined vs))) rt')
        × HasNoNul (joined vs)
  unfolding str_concat_impl
  str_concat_impl_lem args rt rt' vs l e h =
      (rw l (concat_args_lem [] refl e h), joined-HasNoNul vs)
