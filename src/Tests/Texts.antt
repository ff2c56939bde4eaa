-- ===== src/Tests/Texts.antt =====
-- The theorems on texts: the expansion of paths, string literals, error lists and the input buffer.
use akx.Base.{
  ◌≡◌, ◌↔◌, refl, true, ◌&&◌, ◌||◌, List, [], ◌∷◌, ◌++◌, Option, none, some, leb, if◌then◌else◌,
  length, IsPrefix,
}
use akx.Base.Text.{Bytes, codes, bytes_eq, c_string}
use akx.Parse.Errors.{ParseError, Distinct, add_parse_error, reported_at, add_parse_error_once}
use akx.Parse.Escape.{escape, process_escape_sequences, process-escape}
use akx.Parse.Unterminated.{last_open_pos}
use akx.Repl.Buffer.{ReplBuffer, repl_buffer_new, repl_buffer_append_line, repl_buffer_is_balanced}
use akx.Repl.Buffer.Balance.{Even, repl_buffer_is_balanced_iff}
use akx.Base.Int.{pos, wrap}
use akx.Nucleus.Strings.Split.{split_at, split_sub}
use akx.Nucleus.Strings.Split.Parts.{
  SplitAround, SplitIndex, split_at-SplitIndex, split_sub-SplitAround,
}
use akx.Cell.{null, node, string_literal, integer_literal, alloc_cell}
use akx.Cell.Clone.{clone}
use akx.Nucleus.Putf.{putf_impl}
use akx.Nucleus.Putf.Plain.{literal, printed, putf_impl-literal}
use akx.Rt.{plain, done, pure}
use akx.Rt.Eval.{eval}
use akx.Tests.{start_runtime, frames_env}
use akx.Rt.Expand.{Libc, ResultBuffer, expand_env_vars}
use akx.Rt.Expand.Loop.{expand_env_vars-Expands}
use akx.Rt.Expand.Spec.{Expands}

-- ASCII, with the variable HOME alone.
abbrev ascii : Libc
ascii = record {
  isalnum =
      λ c. (leb b'0' c && leb c b'9') || ((leb b'A' c && leb c b'Z') || (leb b'a' c && leb c b'z'));
  getenv = λ name. if bytes_eq name (codes "HOME") then some (codes "/root") else none;
  join_akx = λ home. some (home ++ codes "/.akx");
}

abbrev some_path : Bytes
some_path = codes "$AKX_HOME/x$"

expand_env_vars-Expands_example :
    (r : ResultBuffer) × (expand_env_vars ascii some_path ≡ some r)
    × (r.safe ≡ true)
    × Expands ascii some_path r.result
expand_env_vars-Expands_example = expand_env_vars-Expands ascii some_path

-- The bytes that the example gives.
abbrev result_bytes : Option ResultBuffer → Bytes
result_bytes none = []
result_bytes (some r) = r.result

expands_to : result_bytes (expand_env_vars ascii some_path) ≡ codes "/root/.akx/x$"
unfolding expand_env_vars bytes_eq
expands_to = refl

process-escape_example :
    process_escape_sequences (escape (b'\n' ∷ b'\\' ∷ b'"' ∷ 0 ∷ []))
    ≡ b'\n' ∷ b'\\' ∷ b'"' ∷ 0 ∷ []
process-escape_example = process-escape (b'\n' ∷ b'\\' ∷ b'"' ∷ 0 ∷ [])

abbrev two_errors : List ParseError
two_errors =
    record { offset = 3; message = codes "a" } ∷ record { offset = 5; message = codes "b" } ∷ []

two_Distinct : Distinct two_errors
unfolding reported_at
two_Distinct = (refl, (refl, tt))

add_parse_error_once_example :
    Distinct (add_parse_error 5 (codes "c") two_errors)
    × IsPrefix two_errors (add_parse_error 5 (codes "c") two_errors)
    × (reported_at 5 (add_parse_error 5 (codes "c") two_errors) ≡ true)
    × (add_parse_error 5 (codes "d") (add_parse_error 5 (codes "c") two_errors)
        ≡ add_parse_error 5 (codes "c") two_errors)
add_parse_error_once_example =
    add_parse_error_once 5 (codes "c") (codes "d") two_errors two_Distinct

-- (a (b) c, where the list that is open is the first one.
abbrev open_text : Bytes
open_text = codes "(a (b) c"

closed_is_reported : last_open_pos b'(' b')' open_text 0 0 ≡ 3
unfolding last_open_pos
closed_is_reported = refl

abbrev typed : ReplBuffer
unfolding repl_buffer_append_line
typed = repl_buffer_append_line repl_buffer_new (codes "(a \"(\" )")

repl_buffer_is_balanced_iff_example :
    (((repl_buffer_is_balanced typed).1 ≡ true) ↔ (
      Even b'(' b')' typed.content
      × Even b'[' b']' typed.content
      × Even b'{' b'}' typed.content
      × Even b'<' b'>' typed.content))
    × ((repl_buffer_is_balanced typed).0.content ≡ typed.content)
    × ((repl_buffer_is_balanced typed).0.line_count ≡ typed.line_count)
repl_buffer_is_balanced_iff_example = repl_buffer_is_balanced_iff typed

split_sub-SplitAround_example :
    SplitAround
      (c_string (codes "a-b-c"))
      (c_string (codes "-"))
      (split_sub (codes "a-b-c") (codes "-"))
split_sub-SplitAround_example = split_sub-SplitAround (codes "a-b-c") (codes "-")

split_at-SplitIndex_example :
    SplitIndex
      (c_string (codes "HelloWorld"))
      (pos 5)
      start_runtime
      (split_at (codes "HelloWorld") (pos 5) start_runtime)
split_at-SplitIndex_example = split_at-SplitIndex (codes "HelloWorld") (pos 5) start_runtime

abbrev percent_text : Bytes
percent_text = codes "50% \\n"

percent_format_back :
    eval frames_env 1 plain (node none (string_literal (literal percent_text)) null) start_runtime
    ≡ done (node none (string_literal (literal percent_text)) null) start_runtime
unfolding eval literal pure clone
percent_format_back = refl

putf_impl-literal_example :
    putf_impl frames_env
      (eval frames_env 1)
      (node none (string_literal (literal percent_text)) null)
      start_runtime
    ≡ done
        (alloc_cell (integer_literal (wrap (pos (length percent_text)))))
        (printed percent_text start_runtime)
putf_impl-literal_example =
    putf_impl-literal frames_env (eval frames_env 1) percent_text none none
      (string_literal (literal percent_text)) null null start_runtime start_runtime
      (refl, (refl, (refl, (refl, (refl, (refl, tt)))))) percent_format_back
