-- ===== src/User/Llmhelper/Parse.antt =====
-- user/llmhelper.c: which lines lead to a call of `set_llm_advice`, and with which pid.
use osmini_project.Base.{
  ℕ, ◌+◌, ◌-◌, ◌*◌, ◌^◌, ◌≤◌, ◌<◌, ◌≡◌, refl, ap, ◌∙◌, true, false, List, [], ◌∷◌, ◌++◌, some,
  arith, u32, All,
}
use osmini_project.User.Line.{codes, strip_prefix-append, advice_prefix, strip_prefix}
use osmini_project.User.Llmhelper.{is_digit, is_blank, skip_blanks, read_pid, handle_line}

-- The prefix without its first letter.
abbrev advice_tail : List ℕ
advice_tail = codes "DVICE:PID="

-- The number that digits stand for, after the digits of `n`.
abbrev pub value_from : ℕ → List ℕ → ℕ
value_from n [] = n
value_from n (d ∷ ds) = value_from (n * 10 + (d - b'0')) ds

abbrev pub IsDigits : List ℕ → Type 0
IsDigits = All λ c. is_digit c ≡ true

-- The bytes do not go on with a digit.
abbrev pub EndsNumber : List ℕ → Type 0
EndsNumber [] = Unit {0}
EndsNumber (c ∷ cs) = is_digit c ≡ false

le-value_from : (n : ℕ) (ds : List ℕ) → n ≤ value_from n ds
le-value_from n [] = omega arith
le-value_from n (d ∷ ds) = omega (arith, le-value_from (n * 10 + (d - b'0')) ds)

read_pid_lem :
    (n : ℕ) (ds rest : List ℕ)
    → IsDigits ds
    → EndsNumber rest
    → value_from n ds < 2 ^ 32
    → read_pid n (ds ++ rest) ≡ value_from n ds
unfolding read_pid
read_pid_lem n [] [] h e lt = refl
read_pid_lem n [] (c ∷ cs) h e lt = rw e
read_pid_lem n (d ∷ ds) rest h e lt =
    let next : u32 (n * 10 + (d - b'0')) ≡ n * 10 + (d - b'0') =
      omega (arith, le-value_from (n * 10 + (d - b'0')) ds) in
    rw (h.0, next) (read_pid_lem (n * 10 + (d - b'0')) ds rest h.1 e lt)

abbrev pub IsBlanks : List ℕ → Type 0
IsBlanks = All λ c. is_blank c ≡ true

skip_blanks-append :
    (blanks : List ℕ) (c : ℕ) (cs : List ℕ)
    → IsBlanks blanks
    → is_blank c ≡ false
    → skip_blanks (blanks ++ c ∷ cs) ≡ c ∷ cs
unfolding skip_blanks
skip_blanks-append [] c cs h e = rw e
skip_blanks-append (b ∷ blanks) c cs h e = rw h.0 (skip_blanks-append blanks c cs h.1 e)

-- A line of advice, after any blanks and with anything behind the number, leads to a call with the
-- number that its digits stand for, if that is a positive `int`.
pub handle_line-advice :
    (blanks : List ℕ) (d : ℕ) (ds rest : List ℕ)
    → IsBlanks blanks
    → IsDigits (d ∷ ds)
    → EndsNumber rest
    → 0 < value_from 0 (d ∷ ds)
    → value_from 0 (d ∷ ds) < 2 ^ 31
    → handle_line (blanks ++ (advice_prefix ++ (d ∷ (ds ++ rest)))) ≡ some (value_from 0 (d ∷ ds))
unfolding handle_line
handle_line-advice blanks d ds rest hb hd he pos int =
    let tail = d ∷ (ds ++ rest) in
    let found : strip_prefix advice_prefix (skip_blanks (blanks ++ (advice_prefix ++ tail)))
        ≡ some tail =
      ap (strip_prefix advice_prefix) (skip_blanks-append blanks b'A' (advice_tail ++ tail) hb refl)
      ∙ strip_prefix-append advice_prefix tail in
    rw (found, handle_line) (ground (arith, hd, read_pid_lem 0 (d ∷ ds) rest hd he (omega arith)))
