-- ===== src/Str/Tests.antt =====
-- The theorems on kernel/string.c at short strings.
use osmini_project.Base.{
  ℕ, zero, suc, ◌<◌, ◌≡◌, ◌↔◌, List, [], ◌∷◌, arith, length, get_or, min, replicate,
}
use osmini_project.Str.{safestrcpy, strlen, memcmp}
use osmini_project.Str.Copy.{safestrcpy_lem}
use osmini_project.Str.Compare.{IsBytes, memcmp-eq-zero}

abbrev word : List ℕ
word = b'a' ∷ b'b' ∷ b'c' ∷ 0 ∷ []

-- Three bytes of room are enough for two letters.
safestrcpy_lem_run :
    (strlen (safestrcpy (replicate 16 1) word 3) ≡ min (strlen word) 2)
    × (get_or (safestrcpy (replicate 16 1) word 3) 1 0 ≡ b'b')
    × (length (safestrcpy (replicate 16 1) word 3) ≡ 16)
unfolding strlen
safestrcpy_lem_run =
    safestrcpy_lem (replicate 16 1) word 3 1 (omega arith) (omega arith) (omega arith) (omega arith)

word-IsBytes : IsBytes word
word-IsBytes zero = omega arith
word-IsBytes (suc zero) = omega arith
word-IsBytes (suc (suc zero)) = omega arith
word-IsBytes (suc (suc (suc zero))) = omega arith
word-IsBytes (suc (suc (suc (suc i)))) = omega arith

memcmp-eq-zero_run :
    (memcmp word word 4 ≡ 0) ↔ ((j : ℕ) → j < 4 → get_or word j 0 ≡ get_or word j 0)
memcmp-eq-zero_run = memcmp-eq-zero word word 4 word-IsBytes word-IsBytes
