-- ===== src/User/Llmhelper/Chunks.antt =====
-- user/llmhelper.c: how `read` cuts the input up makes no difference.
use osmini_project.Base.{
  length-append, append_assoc, ℕ, ◌-◌, ◌<◌, ◌≡◌, refl, ap₂, ◌∙◌, inl, inr, false, List, [], ◌∷◌,
  ◌++◌, arith, Bool-cases, ◌==◌, leb, length, All,
}
use osmini_project.User.Line.{newline, split_lines-append, split_lines}
use osmini_project.User.Llmhelper.{buf_sz, Buffer, new_buffer, helper_round, helper_main}
use osmini_project.User.Llmhelper.Buffered.{handle_lines, IsKept, kept_from, helper_round_lem}

-- What comes out of a stream of bytes: the calls of its complete lines, and the bytes of the last.
abbrev pub calls_of : List ℕ → List ℕ
calls_of bytes = handle_lines (split_lines [] bytes).0

-- Every line of the result of a split, and what follows the last newline, fits in the buffer.
abbrev pub FitsBuffer : List (List ℕ) × List ℕ → Type 0
FitsBuffer r = All (λ l. length l < buf_sz - 1) r.0 × (length r.1 < buf_sz - 1)

-- No `read` comes to the end of the input.
abbrev pub IsOpen : List (List ℕ) → Type 0
IsOpen = All λ c. 0 < length c

abbrev pub concat : List (List ℕ) → List ℕ
concat [] = []
concat (xs ∷ xss) = xs ++ concat xss

handle_lines-append :
    (ls ms : List (List ℕ)) → handle_lines (ls ++ ms) ≡ handle_lines ls ++ handle_lines ms
unfolding handle_lines
handle_lines-append [] ms = refl
handle_lines-append (l ∷ ls) ms = ground (arith, handle_lines-append ls ms)

-- A stretch with no newline is no complete line.
abbrev pub IsPartial : List ℕ → Type 0
IsPartial line = (ys : List ℕ) → split_lines [] (line ++ ys) ≡ split_lines line ys

IsPartial-snoc :
    (line : List ℕ) (c : ℕ) → (c == newline) ≡ false → IsPartial line → IsPartial (line ++ c ∷ [])
unfolding split_lines
IsPartial-snoc line c e h ys = rw append_assoc (h (c ∷ ys) ∙ rw (e, split_lines))

rest-IsPartial : (line xs : List ℕ) → IsPartial line → IsPartial (split_lines line xs).1
unfolding split_lines
rest-IsPartial line [] h = h
rest-IsPartial line (c ∷ xs) h = elim (Bool-cases (c == newline)) [
  | inl e ↦ rw (e, split_lines) (rest-IsPartial [] xs (λ ys. refl))
  | inr e ↦ rw (e, split_lines) (rest-IsPartial (line ++ c ∷ []) xs (IsPartial-snoc line c e h))
]

-- What there is of a line is no longer than the line.
partial-fits : (line ys : List ℕ) → FitsBuffer (split_lines line ys) → length line < buf_sz - 1
unfolding split_lines
partial-fits line [] f = f.1
partial-fits line (c ∷ ys) f = elim (Bool-cases (c == newline)) [
  | inl e ↦ (rw e at f).0.0
  | inr e ↦ omega (arith, length-append line (c ∷ []), partial-fits (line ++ c ∷ []) ys (rw e at f))
]

All-right : (P : List ℕ → Type 0) (ls ms : List (List ℕ)) → All P (ls ++ ms) → All P ms
All-right P [] ms h = h
All-right P (l ∷ ls) ms h = All-right P ls ms h.1

-- The split of a stream by the split of its first part.
split_in_two :
    (xs ys : List ℕ)
    → let (ls, rest) = split_lines [] xs in
      let (ls', rest') = split_lines [] (rest ++ ys) in
      split_lines [] (xs ++ ys) ≡ (ls ++ ls', rest')
split_in_two xs ys =
    let rest = (split_lines [] xs).1 in
    rw (rest-IsPartial [] xs (λ ys. refl) ys) (split_lines-append [] xs ys)

short_kept :
    (kept ys : List ℕ)
    → IsPartial kept
    → FitsBuffer (split_lines [] (kept ++ ys))
    → leb (buf_sz - 1) (length kept) ≡ false
short_kept kept ys part fits = ground (arith, partial-fits kept ys (rw (part ys) at fits))

-- The loop of `main` on the bytes kept, without the indices.
unfoldable lines_main : (kept : List ℕ) → List (List ℕ) → List ℕ
lines_main kept [] = []
lines_main kept ([] ∷ chunks) = []
lines_main kept ((c ∷ cs) ∷ chunks) =
    let (lines, rest) = split_lines [] (kept_from kept ++ (c ∷ cs)) in
    handle_lines lines ++ lines_main rest chunks

helper_main-lines_main :
    (kept : List ℕ) (chunks : List (List ℕ)) (b : Buffer)
    → IsKept kept b
    → helper_main b chunks ≡ lines_main kept chunks
unfolding helper_main lines_main
helper_main-lines_main kept [] b h = refl
helper_main-lines_main kept ([] ∷ chunks) b h = refl
helper_main-lines_main kept ((c ∷ cs) ∷ chunks) b h =
    let (calls, next) = helper_round_lem kept (c ∷ cs) b h in
    let rest = (split_lines [] (kept_from kept ++ (c ∷ cs))).1 in
    ap₂ (λ a b. a ++ b) calls (helper_main-lines_main rest chunks (helper_round b (c ∷ cs)).1 next)

-- The calls do not depend on how the input was cut up, and the buffer is never dropped.
lines_main-calls :
    (kept : List ℕ) (chunks : List (List ℕ))
    → IsPartial kept
    → IsOpen chunks
    → FitsBuffer (split_lines [] (kept ++ concat chunks))
    → lines_main kept chunks ≡ calls_of (kept ++ concat chunks)
unfolding lines_main
lines_main-calls kept [] part filled fits = rw (part []) (unfold handle_lines split_lines in refl)
lines_main-calls kept ([] ∷ chunks) part filled fits = absurd (omega (arith, filled.0))
lines_main-calls kept ((c ∷ cs) ∷ chunks) part filled fits =
    let chunk = c ∷ cs in
    let short = short_kept kept (chunk ++ concat chunks) part fits in
    let (ls, rest) = split_lines [] (kept ++ chunk) in
    let more = concat chunks in
    let two = split_in_two (kept ++ chunk) more in
    let fits' = rw (← append_assoc kept chunk more, two) at fits in
    let ih =
      lines_main-calls rest chunks (rest-IsPartial [] (kept ++ chunk) (λ ys. refl)) filled.1 (
        All-right (λ l. length l < buf_sz - 1) ls (split_lines [] (rest ++ more)).0 fits'.0,
        fits'.1,
      ) in
    rw (
      short,
      ← append_assoc kept chunk more,
      two,
      handle_lines-append ls (split_lines [] (rest ++ more)).0,
      ih,
    )

-- As long as every line fits in the buffer and no `read` is empty, `llmhelper` calls `set_llm_advice` with
-- the pids that `handle_line` gives for the lines of its input, cut off at a 0 byte, in their order, however
-- `read` cuts the input up and whatever was in the buffer at the start.
pub helper_main_lem :
    (junk : ℕ → ℕ) (chunks : List (List ℕ))
    → IsOpen chunks
    → FitsBuffer (split_lines [] (concat chunks))
    → helper_main (new_buffer junk) chunks ≡ handle_lines (split_lines [] (concat chunks)).0
helper_main_lem junk chunks filled fits =
    helper_main-lines_main [] chunks (new_buffer junk)
      (record { start_is = refl; end_is = refl; bytes = tt })
    ∙ lines_main-calls [] chunks (λ ys. refl) filled fits
