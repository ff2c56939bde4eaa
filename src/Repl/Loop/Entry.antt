-- ===== src/Repl/Loop/Entry.antt =====
-- What several lines typed one after the other do.
use akx.Base.{
  ◌≡◌, refl, sym, Bool, true, false, ◌&&◌, List, [], ◌∷◌, ◌++◌, append_assoc, append-nil, arith,
}
use akx.Base.Text.{Bytes}
use akx.Repl.Buffer.{
  ReplBuffer, repl_buffer_new, repl_buffer_append_line, repl_buffer_clear, repl_buffer_is_empty,
  repl_buffer_is_balanced,
}
use akx.Repl.Loop.{Terminal, is_blank, submit, if_balanced, read_line, read_lines}
use akx.Rt.{
  Runtime, Env, Outcome, timeout, failed, aborted, done, Evaluator, ◌>>=◌, pure, bind_outcome,
}

-- What a line adds to the buffer, and what some lines add.
abbrev pub entered_line : Bytes → Bytes
entered_line [] = []
entered_line (c ∷ cs) = (c ∷ cs) ++ b'\n' ∷ []

unfoldable pub entered : List Bytes → Bytes
entered [] = []
entered (line ∷ lines) = entered_line line ++ entered lines

unfoldable pub text_is_balanced : Bytes → Bool
unfolding repl_buffer_is_balanced
text_is_balanced text = (repl_buffer_is_balanced (record repl_buffer_new { content = text })).1

-- Behind each line but the last, a bracket is open.
abbrev pub Completes : Bytes → List Bytes → Type 0
Completes content [] = ⊥
Completes content (line ∷ []) = text_is_balanced (content ++ entered_line line) ≡ true
Completes content (line ∷ more ∷ lines) =
    (text_is_balanced (content ++ entered_line line) ≡ false)
    × Completes (content ++ entered_line line) (more ∷ lines)

is_empty-is_blank : (b : ReplBuffer) → repl_buffer_is_empty b ≡ is_blank b.content
unfolding repl_buffer_is_empty
is_empty-is_blank b = elim b.content [ [] ↦ refl | _ ∷ _ ↦ refl ]

is_blank-snoc : (text line : Bytes) → is_blank (text ++ (line ++ b'\n' ∷ [])) ≡ false
is_blank-snoc [] [] = refl
is_blank-snoc [] (c ∷ line) = refl
is_blank-snoc (c ∷ text) line = refl

abbrev pub NotAllBlank : List Bytes → Bytes → Type 0
NotAllBlank [] content = ⊥
NotAllBlank (line ∷ lines) content = (is_blank line && is_blank content) ≡ false

module _ {Ctx : Type 0} (env : Env Ctx) (ev : Evaluator Ctx) (t : Terminal) (rt : Runtime Ctx) where
  -- The text is submitted, and the buffer is empty again.
  abbrev pub submitted : Bytes → Outcome Ctx (ReplBuffer × Terminal)
  submitted text = (submit env ev text t >>= λ t'. pure (repl_buffer_new, t')) rt

  bind-pure : {A : Type 0} (o : Outcome Ctx A) → bind_outcome o pure ≡ o
  unfolding pure
  bind-pure timeout = refl
  bind-pure (failed rt') = refl
  bind-pure (aborted rt') = refl
  bind-pure (done a rt') = refl

  -- A round behind a line that was added to the buffer or skipped in an open entry.
  record Adds (line : Bytes) (b b' : ReplBuffer) : Type 0 where
    content-added : b'.content ≡ b.content ++ entered_line line
    holds_text : is_blank b'.content ≡ false
    round : read_line env ev line (b, t) rt ≡ if_balanced env ev (repl_buffer_is_balanced b') t rt

  added-Adds :
      (line : Bytes) (b : ReplBuffer)
      → (is_blank line && is_blank b.content) ≡ false
      → (b' : ReplBuffer) × Adds line b b'
  unfolding read_line repl_buffer_append_line
  added-Adds [] b ne = (
    b,
    record {
      content-added = sym (append-nil b.content);
      holds_text = ne;
      round = rw (is_empty-is_blank b, ne) refl;
    },
  )
  added-Adds (c ∷ cs) b ne = (
    repl_buffer_append_line b (c ∷ cs),
    record { content-added = refl; holds_text = is_blank-snoc b.content (c ∷ cs); round = refl },
  )

  -- An open entry waits for the next line.
  waits :
      (b : ReplBuffer)
      → text_is_balanced b.content ≡ false
      → (b' : ReplBuffer) × (b'.content ≡ b.content)
        × (if_balanced env ev (repl_buffer_is_balanced b) t rt ≡ done (b', t) rt)
  unfolding text_is_balanced repl_buffer_is_balanced pure
  waits b waiting = ((repl_buffer_is_balanced b).0, refl, rw waiting refl)

  completed :
      (b : ReplBuffer)
      → is_blank b.content ≡ false
      → text_is_balanced b.content ≡ true
      → if_balanced env ev (repl_buffer_is_balanced b) t rt ≡ submitted b.content
  unfolding text_is_balanced repl_buffer_is_balanced repl_buffer_clear
  completed b holds closed =
      rw (closed, is_empty-is_blank (repl_buffer_is_balanced b).0, holds) refl

  -- Some lines that are typed one after the other, where a bracket is open behind each but the last
  -- and the first is not blank or an entry was begun.
  entry-submitted :
      (lines : List Bytes) (b : ReplBuffer)
      → NotAllBlank lines b.content
      → Completes b.content lines
      → read_lines env ev lines (b, t) rt ≡ submitted (b.content ++ entered lines)
  unfolding read_lines entered ◌>>=◌
  entry-submitted [] b ne c = absurd c
  entry-submitted (line ∷ []) b ne c =
      let (b', a) = added-Adds line b ne in
      let closed : text_is_balanced b'.content ≡ true = rw a.content-added c in
      rw (a.round, completed b' a.holds_text closed, bind-pure, a.content-added, append-nil) refl
  entry-submitted (line ∷ more ∷ lines) b ne (w, c) =
      let (b', a) = added-Adds line b ne in
      let still : text_is_balanced b'.content ≡ false = rw a.content-added w in
      let (b'', same, e) = waits b' still in
      let ne' : (is_blank more && is_blank b''.content) ≡ false =
        rw (same, a.holds_text) (ground arith) in
      let c' : Completes b''.content (more ∷ lines) = rw (same, a.content-added) c in
      rw
        (a.round, e, entry-submitted (more ∷ lines) b'' ne' c', same, a.content-added, append_assoc)
        refl

  -- Some lines that are typed one after the other, the first not blank, where a bracket is open behind
  -- each of them but not behind the last, are one entry: the text of the lines that are not blank, with
  -- a newline behind each, is parsed and run once, and the buffer is empty again.
  pub lines-submitted :
      (line : Bytes) (lines : List Bytes)
      → is_blank line ≡ false
      → Completes [] (line ∷ lines)
      → read_lines env ev (line ∷ lines) (repl_buffer_new, t) rt
        ≡ submitted (entered (line ∷ lines))
  lines-submitted line lines ne c =
      entry-submitted (line ∷ lines) repl_buffer_new (ground (arith, ne)) c
