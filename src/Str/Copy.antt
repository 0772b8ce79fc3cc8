-- ===== src/Str/Copy.antt =====
-- kernel/string.c: what `safestrcpy` leaves in its buffer.
use osmini_project.Base.{
  ℕ, zero, suc, ◌+◌, ◌-◌, ◌≤◌, ◌<◌, ◌^◌, ◌≡◌, refl, ap, ◌∙◌, inl, inr, false, List, [], ◌∷◌, arith,
  ◌==◌, Bool-cases, length, get_or, is_nonpositive, min,
}
use osmini_project.Str.{safe_copy, safestrcpy, strlen}

safe_copy-length : (rounds : ℕ) (s t : List ℕ) → length (safe_copy rounds s t) ≡ length s
unfolding safe_copy
safe_copy-length zero [] t = refl
safe_copy-length zero (x ∷ s) t = refl
safe_copy-length (suc rounds) [] t = refl
safe_copy-length (suc rounds) (x ∷ []) [] = refl
safe_copy-length (suc rounds) (x ∷ y ∷ s) [] = refl
safe_copy-length (suc rounds) (x ∷ []) (c ∷ t) = ground (arith, safe_copy-length rounds [] t)
safe_copy-length (suc rounds) (x ∷ y ∷ s) (c ∷ t) =
    ground (arith, safe_copy-length rounds (y ∷ s) t)

strlen-safe_copy :
    (rounds : ℕ) (s t : List ℕ)
    → rounds < length s
    → strlen (safe_copy rounds s t) ≡ min (strlen t) rounds
unfolding safe_copy strlen
strlen-safe_copy rounds [] t lt = absurd (omega arith)
strlen-safe_copy zero (x ∷ s) t lt = omega arith
strlen-safe_copy (suc rounds) (x ∷ s) [] lt = omega arith
strlen-safe_copy (suc rounds) (x ∷ s) (c ∷ t) lt = elim (Bool-cases (c == 0)) [
  | inl e ↦ rw e (omega arith)
  | inr e ↦
      let copied : safe_copy (suc rounds) (x ∷ s) (c ∷ t) ≡ c ∷ safe_copy rounds s t = rw e in
      ap strlen copied ∙ rw e (omega (arith, strlen-safe_copy rounds s t (omega arith)))
]

get_or-cons :
    (c : ℕ) (xs ys : List ℕ) (i : ℕ)
    → ((j : ℕ) → i ≡ suc j → get_or xs j 0 ≡ get_or ys j 0)
    → get_or (c ∷ xs) i 0 ≡ get_or (c ∷ ys) i 0
get_or-cons c xs ys zero h = refl
get_or-cons c xs ys (suc i) h = h i refl

-- The bytes of a string before its 0.
safe_copy-get_or :
    (rounds : ℕ) (s t : List ℕ) (i : ℕ)
    → rounds < length s
    → i < rounds
    → i < strlen t
    → get_or (safe_copy rounds s t) i 0 ≡ get_or t i 0
unfolding safe_copy strlen
safe_copy-get_or rounds [] t i lt hi ht = absurd (omega arith)
safe_copy-get_or zero (x ∷ s) t i lt hi ht = absurd (omega arith)
safe_copy-get_or (suc rounds) (x ∷ s) [] i lt hi ht = absurd (omega arith)
safe_copy-get_or (suc rounds) (x ∷ s) (c ∷ t) i lt hi ht = elim (Bool-cases (c == 0)) [
  | inl e ↦ absurd (omega (arith, rw (e, strlen) at ht))
  | inr e ↦
      let copied : safe_copy (suc rounds) (x ∷ s) (c ∷ t) ≡ c ∷ safe_copy rounds s t = rw e in
      let longer : i < strlen t + 1 = rw e at ht in
      ap (λ l. get_or l i 0) copied
      ∙ get_or-cons c (safe_copy rounds s t) t i (λ j step.
        safe_copy-get_or rounds s t j (omega arith) (omega (arith, step)) (omega (arith, step)))
]

-- In a buffer with `n` bytes of room the copy is as long as the string, cut off after `n - 1` bytes,
-- each of its bytes is that of the string, and the buffer keeps its size.
pub safestrcpy_lem :
    (s t : List ℕ) (n i : ℕ)
    → 0 < n
    → n < 2 ^ 31
    → n ≤ length s
    → i < min (strlen t) (n - 1)
    → (strlen (safestrcpy s t n) ≡ min (strlen t) (n - 1))
      × (get_or (safestrcpy s t n) i 0 ≡ get_or t i 0)
      × (length (safestrcpy s t n) ≡ length s)
unfolding safestrcpy
safestrcpy_lem s t n i pos int fits lt =
    let positive : is_nonpositive n ≡ false = ground arith in
    rw positive (
      strlen-safe_copy (n - 1) s t (omega arith),
      safe_copy-get_or (n - 1) s t i (omega arith) (omega arith) (omega arith),
      safe_copy-length (n - 1) s t,
    )
