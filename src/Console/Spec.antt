-- ===== src/Console/Spec.antt =====
-- kernel/console.c: the line editor that `consoleintr` is meant to be, and when the ring is in order.
use osmini_project.Base.{
  ℕ, ◌+◌, ◌^◌, ◌≤◌, ◌<◌, ◌≡◌, Bool, false, not, ◌&&◌, ◌||◌, List, [], ◌∷◌, ◌++◌, ◌==◌, ltb,
  if◌then◌else◌, All, length, sub32,
}
use osmini_project.Console.{Cons, input_buf_size, newline, end_of_file}
use osmini_project.Console.Ring.{window, drop_last}

-- What was typed: the lines that are complete, and the one that is being edited.
pub record Typed : Type 0 where
  pub lines : List ℕ
  pub line : List ℕ

abbrev pub typed_of : Cons → Typed
typed_of k = record {
  lines = window k.buf k.r (sub32 k.w k.r);
  line = window k.buf k.w (sub32 k.e k.w);
}

abbrev pub ends_line : ℕ → ℕ → Bool
ends_line ch size = (ch == newline) || ((ch == end_of_file) || (size == input_buf_size))

-- The character `ch` at the end of the line, which is complete if it ends it or fills the buffer.
abbrev pub append_char : ℕ → Typed → Typed
append_char ch t =
    if ends_line ch (length t.lines + length t.line + 1)
    then record { lines = t.lines ++ (t.line ++ ch ∷ []); line = [] }
    else record t { line = t.line ++ ch ∷ [] }

-- What a key does.
abbrev pub edit : ℕ → Typed → Typed
edit c t =
    if c == 16
    then t
    else if c == 21
    then record t { line = [] }
    else if (c == 8) || (c == 127)
    then record t { line = drop_last t.line }
    else if not (c == 0) && ltb (length t.lines + length t.line) input_buf_size
    then append_char (if c == 13 then newline else c) t
    else t

abbrev pub IsPlain : List ℕ → Type 0
IsPlain = All λ c. (c == newline) ≡ false

pub record IsValid (k : Cons) : Type 0 where
  pub room : length k.buf ≡ input_buf_size
  pub read_range : k.r < 2 ^ 32
  pub write_range : k.w < 2 ^ 32
  pub edit_range : k.e < 2 ^ 32
  pub bounded : sub32 k.w k.r + sub32 k.e k.w ≤ input_buf_size
  pub plain : IsPlain (window k.buf k.w (sub32 k.e k.w))

-- What a step comes to.
pub record Edits (k' : Cons) (t : Typed) : Type 0 where
  pub valid : IsValid k'
  pub typed_is : typed_of k' ≡ t
