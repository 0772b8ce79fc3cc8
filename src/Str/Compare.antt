-- ===== src/Str/Compare.antt =====
-- kernel/string.c: what a 0 from `memcmp` and from `strncmp` means.
use osmini_project.Base.{
  ◌↔◌, ℕ, zero, suc, ◌+◌, ◌≤◌, ◌<◌, ◌≡◌, refl, inl, inr, true, List, arith, ◌==◌, Bool-cases,
  get_or, sub32, subst, ℕ_discrete,
}
use osmini_project.Str.{memcmp_from, memcmp}

abbrev pub IsBytes : List ℕ → Type 0
IsBytes s = (i : ℕ) → get_or s i 0 < 256

memcmp_from-eq-zero :
    (i n : ℕ) (s1 s2 : List ℕ)
    → IsBytes s1
    → IsBytes s2
    → memcmp_from i s1 s2 n ≡ 0
    → (j : ℕ) → i ≤ j
    → j < i + n
    → get_or s1 j 0 ≡ get_or s2 j 0
unfolding memcmp_from
memcmp_from-eq-zero i zero s1 s2 b1 b2 e j le lt = absurd (omega arith)
memcmp_from-eq-zero i (suc n) s1 s2 b1 b2 e j le lt =
    elim (Bool-cases (get_or s1 i 0 == get_or s2 i 0)) [
      | inl same ↦ elim (ℕ_discrete i j) [
        | yes here ↦ subst (λ j. get_or s1 j 0 ≡ get_or s2 j 0) here (ground arith)
        | no ne ↦
            memcmp_from-eq-zero (i + 1) n s1 s2 b1 b2 (rw same at e) j (omega arith) (omega arith)
      ]
      | inr differ ↦
          let zero_difference : sub32 (get_or s1 i 0) (get_or s2 i 0) ≡ 0 = rw differ at e in
          absurd (ground (arith, b1 i, b2 i))
    ]

memcmp_from-same :
    (i n : ℕ) (s1 s2 : List ℕ)
    → ((j : ℕ) → j < i + n → get_or s1 j 0 ≡ get_or s2 j 0)
    → memcmp_from i s1 s2 n ≡ 0
unfolding memcmp_from
memcmp_from-same i zero s1 s2 h = refl
memcmp_from-same i (suc n) s1 s2 h =
    let same : (get_or s1 i 0 == get_or s2 i 0) ≡ true =
      let e = h i (omega arith) in ground arith in
    rw same (memcmp_from-same (i + 1) n s1 s2 (λ j lt. h j (omega arith)))

-- `memcmp` of bytes is 0 exactly when the first `n` bytes are the same.
pub memcmp-eq-zero :
    (s1 s2 : List ℕ) (n : ℕ)
    → IsBytes s1
    → IsBytes s2
    → (memcmp s1 s2 n ≡ 0) ↔ ((j : ℕ) → j < n → get_or s1 j 0 ≡ get_or s2 j 0)
unfolding memcmp
memcmp-eq-zero s1 s2 n b1 b2 = (
  λ e j lt. memcmp_from-eq-zero 0 n s1 s2 b1 b2 e j (omega arith) (omega arith),
  λ h. memcmp_from-same 0 n s1 s2 (λ j lt. h j (omega arith)),
)
