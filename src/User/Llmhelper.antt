-- ===== src/User/Llmhelper.antt =====
-- user/llmhelper.c: lines are cut out of what `read` gives, and the pid of a line of advice goes to
-- `set_llm_advice`.
use osmini_project.Base.{
  ℕ, zero, suc, ◌+◌, ◌-◌, ◌*◌, ◌%◌, ◌^◌, ◌≤◌, ◌<◌, ◌≡◌, refl, ap, ◌∙◌, ◌⊎◌, inl, inr, Bool, true,
  false, not, ◌&&◌, ◌||◌, List, [], ◌∷◌, ◌++◌, Option, none, some, arith, Bool-cases, Option-cases,
  ◌==◌, leb, ltb, if◌then◌else◌, add32, u32, is_nonpositive, length, All, list_of, update,
}
pub mod Parse
pub mod Buffered
pub mod Chunks
use osmini_project.User.Line.{
  codes, strip_prefix-append, strip_prefix-eq-some, split_lines-append, advice_prefix, strip_prefix,
  newline,
}

-- BUF_SZ.
abbrev pub buf_sz : ℕ
buf_sz = 512

abbrev pub is_digit : ℕ → Bool
is_digit c = leb b'0' c && leb c b'9'

abbrev pub is_blank : ℕ → Bool
is_blank c = c == b' ' || c == 9

-- `while(*line == ' ' || *line == '\t') line++`.
unfoldable pub skip_blanks : List ℕ → List ℕ
skip_blanks [] = []
skip_blanks (c ∷ cs) = let rest = skip_blanks cs in if is_blank c then rest else c ∷ cs

-- The loop over the digits, with `pid` so far; an `int` that wraps.
unfoldable pub read_pid : (pid : ℕ) → List ℕ → ℕ
read_pid pid [] = pid
read_pid pid (c ∷ cs) =
    let more = read_pid (u32 (pid * 10 + (c - b'0'))) cs in if is_digit c then more else pid

-- A line in the buffer ends at its first 0.
unfoldable pub c_string : List ℕ → List ℕ
c_string [] = []
c_string (c ∷ cs) = let rest = c_string cs in if c == 0 then [] else c ∷ rest

-- The argument that a pid read so far gives `set_llm_advice`, if it is called.
abbrev pub positive : ℕ → Option ℕ
positive pid = if is_nonpositive pid then none else some pid

abbrev pub parse_pid : List ℕ → Option ℕ
parse_pid [] = none
parse_pid (c ∷ cs) = if is_digit c then positive (read_pid 0 (c ∷ cs)) else none

-- `handle_line`: the pid for which it calls `set_llm_advice`, if it does.
unfoldable pub handle_line : List ℕ → Option ℕ
handle_line line = elim (strip_prefix advice_prefix (skip_blanks line)) [
  | none ↦ none
  | some p ↦ parse_pid p
]

-- `buf`, and the indices `start` and `end` of `main`.
pub record Buffer : Type 0 where
  pub byte : ℕ → ℕ
  pub start : ℕ
  pub end : ℕ

-- `buf` is not initialized.
abbrev pub new_buffer : (ℕ → ℕ) → Buffer
new_buffer junk = record { byte = junk; start = 0; end = 0 }

-- A full buffer without a newline is dropped.
abbrev pub drop_full : Buffer → Buffer
drop_full b = if leb (buf_sz - 1) b.end && b.start == 0 then record b { end = 0 } else b

-- What `read` stores at the address `to`.
unfoldable pub store_bytes : List ℕ → (to : ℕ) → (ℕ → ℕ) → ℕ → ℕ
store_bytes [] to f = f
store_bytes (c ∷ cs) to f = store_bytes cs (suc to) (update f to c)

-- `end += n; buf[end] = 0`.
abbrev pub fill_buffer : List ℕ → Buffer → Buffer
fill_buffer chunk b =
    let end = b.end + length chunk in
    record b { byte = update (store_bytes chunk b.end b.byte) end 0; end = end }

-- The scan for complete lines from `i` on, with `rounds` bytes to go: the arguments with which
-- `set_llm_advice` is called.
unfoldable pub scan_lines : (rounds i : ℕ) → Buffer → List ℕ × Buffer
scan_lines zero i b = ([], b)
scan_lines (suc rounds) i b =
    let line = list_of (i - b.start) b.byte b.start in
    let (calls, after) =
      scan_lines rounds (suc i) (record b { byte = update b.byte i 0; start = suc i }) in
    let rest = scan_lines rounds (suc i) b in
    if b.byte i == newline
    then (elim (handle_line (c_string line)) [ none ↦ calls | some pid ↦ pid ∷ calls ], after)
    else rest

-- `memmove(buf, buf + start, n)`.
abbrev pub move_down : (start n : ℕ) → (ℕ → ℕ) → ℕ → ℕ
move_down start n f a = if ltb a n then f (start + a) else f a

abbrev pub compact : Buffer → Buffer
compact b =
    if b.start == b.end
    then record b { start = 0; end = 0 }
    else if ltb 0 b.start
    then (let remaining = b.end - b.start in
        record {
          byte = update (move_down b.start remaining b.byte) remaining 0;
          start = 0;
          end = remaining;
        })
    else b

-- A round of `main`, where `read` gives `chunk`, at most BUF_SZ - 1 - end bytes.
unfoldable pub helper_round : Buffer → (chunk : List ℕ) → List ℕ × Buffer
helper_round b chunk =
    let filled = fill_buffer chunk (drop_full b) in
    let (calls, scanned) = scan_lines (filled.end - filled.start) filled.start filled in
    (calls, compact scanned)

-- The loop of `main` over the results of `read`, up to the first that is empty: the end of the input.
unfoldable pub helper_main : Buffer → List (List ℕ) → List ℕ
helper_main b [] = []
helper_main b ([] ∷ chunks) = []
helper_main b ((c ∷ cs) ∷ chunks) =
    let (calls, rest) = helper_round b (c ∷ cs) in calls ++ helper_main rest chunks
