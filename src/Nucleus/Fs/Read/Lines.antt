-- ===== src/Nucleus/Fs/Read/Lines.antt =====
-- The lines that `fs/read` collects, and the buffer that it collects them in.
use akx.Base.{
  ℕ, zero, suc, ◌-◌, ◌≤◌, ◌<◌, ◌≡◌, refl, ◌∙◌, sym, true, false, List, [], ◌∷◌, ◌++◌, append-nil,
  append_assoc, Option, none, some, Bool-cases, Option-cases, inl, inr, ◌⊎◌, leb, length,
  length-append, drop, arith, if◌then◌else◌,
}
use akx.Base.Text.{Bytes, concat, c_string}
use akx.Nucleus.Fs.Read.{LineBuffer, append_line, first_lines, lines_between}
use akx.Rt.{Runtime, Env, Outcome, done, ◌>>=◌, pure, sys_call, with_system}
use akx.System.{SysCall, fgets}

length-c_string : (s : Bytes) → length (c_string s) ≤ length s
unfolding c_string
length-c_string [] = omega arith
length-c_string (c ∷ s) = ground (arith, length-c_string s)

-- Every write so far lay inside the buffer, and there is room for the NUL.
pub record IsSound (b : LineBuffer) : Type 0 where
  pub safe_so_far : b.safe ≡ true
  pub large : 4096 ≤ b.capacity
  pub room : length b.result < b.capacity

append_line-IsSound :
    (line : Bytes) (b : LineBuffer) → length line < 4096 → IsSound b → IsSound (append_line line b)
unfolding append_line
append_line-IsSound line b short s = ground (arith, length-append b.result line)

append_line-result :
    (line : Bytes) (b : LineBuffer) → (append_line line b).result ≡ b.result ++ line
unfolding append_line
append_line-result line b = ground arith

drop-nil : (n : ℕ) → ◌≡◌ {A = List Bytes} (drop n []) []
drop-nil zero = refl
drop-nil (suc n) = refl

-- What is left to skip behind a line, where the line is wanted and where it is not.
wanted :
    (start current : ℕ)
    → leb start current ≡ true
    → (start - current ≡ 0) × (start - suc current ≡ 0)
wanted start current h = ground arith

skipped :
    (start current : ℕ) → leb start current ≡ false → start - current ≡ suc (start - suc current)
skipped start current h = ground arith

module _ {Ctx : Type 0} (env : Env Ctx) (fp : ℕ) where
  -- `fgets` gives at most one byte less than the size of the buffer.
  abbrev pub LinesFit : Type 0
  LinesFit =
      (calls : List SysCall) (line : Bytes)
      → env.sys.gets calls fp 4096 ≡ some line
      → length line < 4096

  abbrev pub first_or_none : Option Bytes → List Bytes → List Bytes
  first_or_none none rest = []
  first_or_none (some line) rest = c_string line ∷ rest

  -- The lines that `n` calls of `fgets` give one behind the other, up to the end of the file; each
  -- call sees those before it.
  unfoldable pub lines_from : ℕ → List SysCall → List Bytes
  lines_from zero calls = []
  lines_from (suc n) calls =
      first_or_none (env.sys.gets calls fp 4096) (lines_from n (fgets fp 4096 ∷ calls))

  -- The loop ends in a sound buffer with this text behind the text that it had.
  abbrev pub Collects : Outcome Ctx LineBuffer → LineBuffer → Bytes → Type 0
  Collects o b text =
      (b' : LineBuffer) × (rt' : Runtime Ctx) × (o ≡ done b' rt')
      × IsSound b'
      × (b'.result ≡ b.result ++ text)

  abbrev next_state : Runtime Ctx → Runtime Ctx
  next_state rt = record rt {
    system = record (rt.system) { calls = fgets fp 4096 ∷ rt.system.calls };
  }

  -- A line that was appended, and then the rest of the loop.
  put_before :
      (line : Bytes) (b : LineBuffer) (o : Outcome Ctx LineBuffer) (text : Bytes)
      → Collects o (append_line line b) text
      → Collects o b (line ++ text)
  put_before line b o text (b', rt', e, s, r) =
      (b', rt', e, s, r ∙ rw (append_line-result line b, append_assoc) refl)

  -- A round of the loop over a range: its line is appended or left out.
  next_wanted :
      (n current start : ℕ) (line : Bytes) (b : LineBuffer) (rt : Runtime Ctx) (lines : List Bytes)
      → (leb start current ≡ true) ⊎ (leb start current ≡ false)
      → Collects
          (lines_between env n fp (suc current) start b rt)
          b
          (concat (drop (start - suc current) lines))
      → Collects
          (lines_between env n fp (suc current) start (append_line line b) rt)
          (append_line line b)
          (concat (drop (start - suc current) lines))
      → Collects
          (lines_between env n fp
            (suc current)
            start
            (if leb start current then append_line line b else b)
            rt)
          b
          (concat (drop (start - current) (line ∷ lines)))
  next_wanted n current start line b rt lines (inl here) without with_it =
      let (z, z') = wanted start current here in
      rw (here, z)
        (put_before line b (lines_between env n fp (suc current) start (append_line line b) rt)
          (concat lines) (rw z' at with_it))
  next_wanted n current start line b rt lines (inr later) without with_it =
      rw (later, skipped start current later) without

  module _ (fits : LinesFit) where
    short_line :
        (calls : List SysCall) (line : Bytes)
        → env.sys.gets calls fp 4096 ≡ some line
        → length (c_string line) < 4096
    short_line calls line e = omega (arith, fits calls line e, length-c_string line)

    -- The loop over `:lines` collects as many lines as it was asked for, or those that are left, up
    -- to the first NUL of each.
    pub first_lines-Collects :
        (n : ℕ) (b : LineBuffer) (rt : Runtime Ctx)
        → IsSound b
        → Collects (first_lines env n fp b rt) b (concat (lines_from n rt.system.calls))
    unfolding first_lines lines_from ◌>>=◌ pure sys_call with_system
    first_lines-Collects zero b rt s = (b, rt, refl, s, sym (append-nil b.result))
    first_lines-Collects (suc n) b rt s =
        elim (Option-cases (env.sys.gets rt.system.calls fp 4096)) [
          | inl e ↦ rw e (b, next_state rt, refl, s, sym (append-nil b.result))
          | inr (line, e) ↦ rw e (
              put_before (c_string line) b _ _ (
                first_lines-Collects n (append_line (c_string line) b) (next_state rt)
                  (append_line-IsSound (c_string line) b (short_line _ line e) s)))
        ]

    -- The loop over a range of lines collects the lines from the first wanted one on, and up to the
    -- last one by the number of its rounds.
    pub lines_between-Collects :
        (n current start : ℕ) (b : LineBuffer) (rt : Runtime Ctx)
        → IsSound b
        → Collects
            (lines_between env n fp current start b rt)
            b
            (concat (drop (start - current) (lines_from n rt.system.calls)))
    unfolding lines_between lines_from ◌>>=◌ pure sys_call with_system
    lines_between-Collects zero current start b rt s =
        (b, rt, refl, s, rw (drop-nil (start - current)) (sym (append-nil b.result)))
    lines_between-Collects (suc n) current start b rt s =
        elim (Option-cases (env.sys.gets rt.system.calls fp 4096)) [
          | inl e ↦ rw e (
            b,
            next_state rt,
            refl,
            s,
            rw (drop-nil (start - current)) (sym (append-nil b.result)),
          )
          | inr (line, e) ↦ rw e (
              next_wanted n current start (c_string line) b (next_state rt)
                (lines_from n (next_state rt).system.calls) (Bool-cases (leb start current))
                (lines_between-Collects n (suc current) start b (next_state rt) s)
                (lines_between-Collects n (suc current) start (append_line (c_string line) b)
                  (next_state rt) (append_line-IsSound (c_string line) b (short_line _ line e) s)))
        ]
