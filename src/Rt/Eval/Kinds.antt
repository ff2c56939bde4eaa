-- ===== src/Rt/Eval/Kinds.antt =====
-- What kind of value a builtin returns: a rule for each way in which nuclei compose computations,
-- then the nuclei whose values are all of one kind.

use akx.Base.{ℕ, ◌≡◌, refl, Bool, true, false, if◌then◌else◌}
use akx.Base.Int.{ℤ, IsInt}
use akx.Base.Text.{Bytes, codes}
use akx.Cell.{CellPtr, string_literal, integer_literal, real_literal, symbol, alloc_cell, truth}
use akx.Rt.{
  Runtime, Outcome, timeout, failed, aborted, done, M, ◌>>=◌, handle, pure, fail, bind_outcome,
  handle_outcome,
}

-- The integer 0 or 1, an `int`, a double, a string, or the symbol `true` or `false`.
pub data Kind : Type 0 where
  a_truth an_int a_real a_string a_word : Kind

-- The cell is one of the kind, alone and without a source range.
unfoldable pub IsOfKind : Kind → CellPtr → Type 0
IsOfKind a_truth p = (b : Bool) × (p ≡ truth b)
IsOfKind an_int p = (i : ℤ) × IsInt i × (p ≡ alloc_cell (integer_literal i))
IsOfKind a_real p = (x : ℕ) × (p ≡ alloc_cell (real_literal x))
IsOfKind a_string p = (s : Bytes) × (p ≡ alloc_cell (string_literal s))
IsOfKind a_word p =
    (b : Bool) × (p ≡ alloc_cell (symbol (if b then codes "true" else codes "false")))

module _ {Ctx : Type 0} where
  pub data Ends (k : Kind) : Outcome Ctx CellPtr → Type 0 where
    ran_out : Ends k timeout
    fails : {rt : Runtime Ctx} → Ends k (failed rt)
    aborts : {rt : Runtime Ctx} → Ends k (aborted rt)
    ends : {p : CellPtr} {rt : Runtime Ctx} → IsOfKind k p → Ends k (done p rt)

  -- From every state, a value that is returned is of the kind.
  pub record Gives (k : Kind) (m : M Ctx CellPtr) : Type 0 where
    pub give : (rt : Runtime Ctx) → Ends k (m rt)

  pub Ends-value : {k : Kind} {p : CellPtr} {rt : Runtime Ctx} → Ends k (done p rt) → IsOfKind k p
  Ends-value (ends h) = h

  module _ {k : Kind} where
    pub Gives-pure : (p : CellPtr) → IsOfKind k p → Gives k (pure p)
    unfolding pure
    Gives-pure p h = record { give = λ rt. ends h }

    pub Gives-fail : (message : Bytes) → Gives k (fail message)
    unfolding fail
    Gives-fail message = record { give = λ rt. fails }

    bind-Ends :
        {A : Type 0} (o : Outcome Ctx A) (f : A → M Ctx CellPtr)
        → ((a : A) → Gives k (f a))
        → Ends k (bind_outcome o f)
    bind-Ends timeout f h = ran_out
    bind-Ends (failed rt) f h = fails
    bind-Ends (aborted rt) f h = aborts
    bind-Ends (done a rt) f h = (h a).give rt

    pub Gives-bind :
        {A : Type 0} (m : M Ctx A) {f : A → M Ctx CellPtr}
        → ((a : A) → Gives k (f a))
        → Gives k (m >>= f)
    unfolding ◌>>=◌
    Gives-bind m {f} h = record { give = λ rt. bind-Ends (m rt) f h }

    handle-Ends :
        {A : Type 0} (o : Outcome Ctx A) (n : M Ctx CellPtr) (f : A → M Ctx CellPtr)
        → Gives k n
        → ((a : A) → Gives k (f a))
        → Ends k (handle_outcome o n f)
    handle-Ends timeout n f z h = ran_out
    handle-Ends (failed rt) n f z h = z.give rt
    handle-Ends (aborted rt) n f z h = aborts
    handle-Ends (done a rt) n f z h = (h a).give rt

    pub Gives-handle :
        {A : Type 0} (m : M Ctx A) {n : M Ctx CellPtr} {f : A → M Ctx CellPtr}
        → Gives k n
        → ((a : A) → Gives k (f a))
        → Gives k (handle m n f)
    unfolding handle
    Gives-handle m {n} {f} z h = record { give = λ rt. handle-Ends (m rt) n f z h }

    pub Gives-if :
        (b : Bool) {m n : M Ctx CellPtr} → Gives k m → Gives k n → Gives k (if b then m else n)
    Gives-if true h z = h
    Gives-if false h z = z

  pub Gives-truth : (b : Bool) → Gives a_truth (pure (truth b))
  unfolding IsOfKind
  Gives-truth b = Gives-pure _ (b, refl)

  pub Gives-yes : Gives a_truth (pure (truth true))
  Gives-yes = Gives-truth true

  pub Gives-no : Gives a_truth (pure (truth false))
  Gives-no = Gives-truth false

  pub Gives-int : (i : ℤ) → IsInt i → Gives an_int (pure (alloc_cell (integer_literal i)))
  unfolding IsOfKind
  Gives-int i h = Gives-pure _ (i, h, refl)

  pub Gives-real : (x : ℕ) → Gives a_real (pure (alloc_cell (real_literal x)))
  unfolding IsOfKind
  Gives-real x = Gives-pure _ (x, refl)

  pub Gives-string : (s : Bytes) → Gives a_string (pure (alloc_cell (string_literal s)))
  unfolding IsOfKind
  Gives-string s = Gives-pure _ (s, refl)

  pub Gives-word :
      (b : Bool)
      → Gives a_word (pure (alloc_cell (symbol (if b then codes "true" else codes "false"))))
  unfolding IsOfKind
  Gives-word b = Gives-pure _ (b, refl)
