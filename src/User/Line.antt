-- ===== src/User/Line.antt =====
-- The lines of bytes that user/init.c and user/llmhelper.c pass on, and the prefix that they test for.
use Prim.Native.Char.{code}
use Prim.Native.String.{String}
use osmini_project.Base.{
  ℕ, ◌≡◌, refl, ap, inl, inr, List, [], ◌∷◌, ◌++◌, Option, none, some, arith, Bool-cases, ◌==◌,
  if◌then◌else◌,
}

-- A string literal of the source.
abbrev pub codes : String → List ℕ
codes String.[] = []
codes (String.◌∷◌ c s) = code c ∷ codes s

abbrev pub newline : ℕ
newline = 10

-- "ADVICE:PID=".
abbrev pub advice_prefix : List ℕ
advice_prefix = codes "ADVICE:PID="

-- The loop that compares a line with a prefix, byte by byte: what follows the prefix in the line.
unfoldable pub strip_prefix : (prefix line : List ℕ) → Option (List ℕ)
strip_prefix [] line = some line
strip_prefix (p ∷ ps) [] = none
strip_prefix (p ∷ ps) (c ∷ cs) = if c == p then strip_prefix ps cs else none

pub strip_prefix-append : (prefix rest : List ℕ) → strip_prefix prefix (prefix ++ rest) ≡ some rest
unfolding strip_prefix
strip_prefix-append [] rest = refl
strip_prefix-append (p ∷ ps) rest = ground (arith, strip_prefix-append ps rest)

pub strip_prefix-eq-some :
    (prefix line : List ℕ) {rest : List ℕ}
    → strip_prefix prefix line ≡ some rest
    → line ≡ prefix ++ rest
unfolding strip_prefix
strip_prefix-eq-some [] line e = cc
strip_prefix-eq-some (p ∷ ps) [] e = cc
strip_prefix-eq-some (p ∷ ps) (c ∷ cs) e = elim (Bool-cases (c == p)) [
  | inl same ↦ ground (arith, strip_prefix-eq-some ps cs (rw same at e))
  | inr differ ↦ cc (rw differ at e)
]

-- The complete lines of a stretch of bytes, and what follows the last newline; `line` is what there
-- is of the first one already.
unfoldable pub split_lines : (line todo : List ℕ) → List (List ℕ) × List ℕ
split_lines line [] = ([], line)
split_lines line (c ∷ cs) =
    let (ended, ended_rest) = split_lines [] cs in
    let longer = split_lines (line ++ c ∷ []) cs in
    if c == newline then (line ∷ ended, ended_rest) else longer

-- Splitting in two goes is splitting in one.
pub split_lines-append :
    (line xs ys : List ℕ)
    → let (ls, rest) = split_lines line xs in
      let (ls', rest') = split_lines rest ys in split_lines line (xs ++ ys) ≡ (ls ++ ls', rest')
unfolding split_lines
split_lines-append line [] ys = refl
split_lines-append line (c ∷ xs) ys = elim (Bool-cases (c == newline)) [
  | inl e ↦
      rw e (ap (λ (r : List (List ℕ) × List ℕ). (line ∷ r.0, r.1)) (split_lines-append [] xs ys))
  | inr e ↦ rw e (split_lines-append (line ++ c ∷ []) xs ys)
]
