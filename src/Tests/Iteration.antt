-- ===== src/Tests/Iteration.antt =====
-- The theorems on `iter`, with the lambda (lambda [x] x) of the evaluator.
use akx.Base.{ℕ, ◌≡◌, refl, arith, false, Option, [], ◌∷◌, none, length}
use akx.Base.Int.{pos, negsuc}
use akx.Base.Text.{Bytes, codes, c_string, bytes_eq}
use akx.Cell.{
  Cell, CellPtr, null, node, SourceRange, symbol, string_literal, integer_literal, real_literal,
  lambda, alloc_cell,
}
use akx.Nucleus.Iter.{iter_value, iter_string, iter_list, utf8_chars}
use akx.Nucleus.Iter.Bits.{iter_value-back}
use akx.Nucleus.Iter.Chars.{FitBuffer, iter_string-back}
use akx.Nucleus.Iter.Lists.{mapped, Computes, iter_list-map}
use akx.Cell.Chain.{list_length, list_nth}
use akx.Cell.Clone.{clone}
use akx.Nucleus.Lambda.{lambda_invoke_impl}
use akx.Rt.{Runtime, done, M, ◌>>=◌, ◌>>◌, asks, scoped, pure, scope_set}
use akx.Rt.Eval.{eval}
use akx.Rt.Invoke.{invoke_lambda}
use akx.Tests.{Frames, frames_env, chain, int}

-- The state after a call with this result.
abbrev identity_state : CellPtr → Runtime Frames
identity_state result = record {
  output = [];
  error_count = 0;
  errors = [];
  current_context = ([], []);
  current_module_name = none;
  in_tail_position = false;
  script_args = [];
  system = record { calls = []; handles = []; next_fid = pos 1; bad_access = false };
  lambdas =
      record {
        param_names = codes "x" ∷ [];
        body = alloc_cell (symbol (codes "x"));
        result = result;
      }
      ∷ [];
}

abbrev identity : CellPtr
identity = alloc_cell (lambda 0)

abbrev call_identity : CellPtr → CellPtr → M Frames CellPtr
call_identity = invoke_lambda frames_env 3 (eval frames_env 3)

abbrev HasIdentity : Runtime Frames → Type 0
HasIdentity rt = (result : CellPtr) × (rt ≡ identity_state result)

integer_back :
    (bit : ℕ) (r : Option SourceRange) (result : CellPtr)
    → call_identity identity (node r (integer_literal (pos bit)) null) (identity_state result)
      ≡ done
          (node r (integer_literal (pos bit)) null)
          (identity_state (node r (integer_literal (pos bit)) null))
unfolding eval invoke_lambda ◌>>=◌ asks scoped ◌>>◌ lambda_invoke_impl list_length list_nth pure
    scope_set bytes_eq clone
integer_back bit r result = refl

string_back :
    (s : Bytes) (result : CellPtr)
    → call_identity identity (alloc_cell (string_literal s)) (identity_state result)
      ≡ done (alloc_cell (string_literal s)) (identity_state (alloc_cell (string_literal s)))
unfolding eval invoke_lambda ◌>>=◌ asks scoped ◌>>◌ lambda_invoke_impl list_length list_nth pure
    scope_set bytes_eq clone
string_back s result = refl

iter_value-back_example :
    ((rt' : Runtime Frames) × (iter_value call_identity
          (node none (integer_literal (negsuc 4)) null)
          identity
          (identity_state null)
        ≡ done (alloc_cell (integer_literal (negsuc 4))) rt')
      × HasIdentity rt')
    × ((rt' : Runtime Frames) × (iter_value call_identity
            (node none (real_literal 77) null)
            identity
            (identity_state null)
          ≡ done (alloc_cell (real_literal 77)) rt')
        × HasIdentity rt')
iter_value-back_example =
    iter_value-back call_identity identity HasIdentity
      (λ rt bit (result, e). (
        identity_state (alloc_cell (integer_literal (pos bit))),
        rw e (integer_back bit none result),
        (_, refl),
      ))
      none null (negsuc 4) 77 (identity_state null) (omega arith) (omega arith) (null, refl)

iter_string-back_example :
    FitBuffer (utf8_chars (length (c_string (codes "abc"))) (c_string (codes "abc")))
    × ((rt' : Runtime Frames) × (iter_string call_identity
            (codes "abc")
            identity
            (identity_state null)
          ≡ done (alloc_cell (string_literal (c_string (codes "abc")))) rt')
        × HasIdentity rt')
iter_string-back_example =
    iter_string-back call_identity identity HasIdentity
      (λ rt s (result, e).
        (identity_state (alloc_cell (string_literal s)), rw e (string_back s result), (_, refl)))
      (codes "abc") (identity_state null) (null, refl)

-- The lambda is called on positive integers.
abbrev IsPositive : Cell → Type 0
IsPositive c = (n : ℕ) × (c ≡ integer_literal (pos n))

abbrev itself : Cell → Cell
itself c = c

abbrev same_range : Option SourceRange → Option SourceRange
same_range r = r

identity-Computes : Computes call_identity identity itself same_range IsPositive HasIdentity
identity-Computes rt r c (n, k) (result, e) =
    (identity_state (node r c null), rw (e, k) (integer_back n r result), (_, refl))

iter_list-map_example :
    (rt' : Runtime Frames) × (iter_list call_identity
        (chain (int 4 ∷ int 9 ∷ []))
        identity
        (identity_state null)
      ≡ done (mapped itself same_range (chain (int 4 ∷ int 9 ∷ []))) rt')
    × HasIdentity rt'
iter_list-map_example =
    iter_list-map call_identity identity itself same_range IsPositive HasIdentity identity-Computes
      (λ c (n, k). rw k refl) (chain (int 4 ∷ int 9 ∷ [])) (identity_state null)
      ((4, refl), ((9, refl), tt)) (null, refl)
