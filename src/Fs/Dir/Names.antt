-- ===== src/Fs/Dir/Names.antt =====
-- kernel/fs.c and kernel/string.c: a name that `strncpy` has copied compares as equal.
use osmini_project.Base.{
  ℕ, zero, suc, ◌+◌, ◌≤◌, ◌<◌, ◌≡◌, ◌≢◌, refl, sym, ap, ◌∙◌, true, false, not, ◌&&◌, List, [], ◌∷◌,
  ◌==◌, length, arith, get_or, ℕ_discrete,
}
use osmini_project.Str.{strncmp, strncmp_from, strncpy}

-- The strings agree up to the end of the first, or for `n` bytes.
pub strncmp_from_same :
    (n i : ℕ) (p q : List ℕ)
    → ((j : ℕ)
        → i ≤ j
        → j < i + n
        → ((m : ℕ) → i ≤ m → m < j → get_or p m 0 ≢ 0)
        → get_or q j 0 ≡ get_or p j 0)
    → strncmp_from i p q n ≡ 0
unfolding strncmp_from
strncmp_from_same zero i p q h = refl
strncmp_from_same (suc n) i p q h =
    let here : get_or q i 0 ≡ get_or p i 0 =
      h i (omega arith) (omega arith) (λ m le lt. absurd (omega arith)) in
    elim (ℕ_discrete (get_or p i 0) 0) [
      | yes nil ↦ rw (here, nil)
      | no ne ↦
          let go_on : (not (get_or p i 0 == 0) && (get_or p i 0 == get_or p i 0)) ≡ true =
            ground arith in
          rw (here, go_on, strncmp_from)
            (let place : i + 1 ≡ suc i = omega arith in
              ap (λ i. strncmp_from i p q n) place
              ∙ strncmp_from_same n (suc i) p q (λ j le lt before.
                h j (omega arith) (omega arith) (λ m le' lt'. elim (ℕ_discrete m i) [
                  | yes same ↦ λ z. ne (sym (ap (λ m. get_or p m 0) same) ∙ z)
                  | no other ↦ before m (omega arith) lt'
                ])))
    ]

get_or-strncpy :
    (s t : List ℕ) (n j : ℕ)
    → n ≤ length s
    → j < n
    → ((m : ℕ) → m < j → get_or t m 0 ≢ 0)
    → get_or (strncpy s t n) j 0 ≡ get_or t j 0
unfolding strncpy
get_or-strncpy s t zero j room lt before = absurd (omega arith)
get_or-strncpy [] t (suc n) j room lt before = absurd (omega arith)
get_or-strncpy (x ∷ s) [] (suc n) zero room lt before = refl
get_or-strncpy (x ∷ s) [] (suc n) (suc j) room lt before = absurd (before 0 (omega arith) refl)
get_or-strncpy (x ∷ s) (c ∷ t) (suc n) zero room lt before = elim (ℕ_discrete c 0) [
  | yes nil ↦ let e : (c == 0) ≡ true = ground arith in rw (e, nil)
  | no ne ↦ let e : (c == 0) ≡ false = ground arith in rw e
]
get_or-strncpy (x ∷ s) (c ∷ t) (suc n) (suc j) room lt before =
    let ne : c ≢ 0 = before 0 (omega arith) in
    let e : (c == 0) ≡ false = ground arith in
    rw e (get_or-strncpy s t n j (omega arith) (omega arith) (λ m lt. before (suc m) (omega arith)))

-- However long the name is, only its first `n` bytes count.
pub strncmp-strncpy :
    (s t q : List ℕ) (n : ℕ)
    → n ≤ length s
    → ((j : ℕ) → j < n → get_or q j 0 ≡ get_or (strncpy s t n) j 0)
    → strncmp t q n ≡ 0
unfolding strncmp
strncmp-strncpy s t q n room same = strncmp_from_same n 0 t q (λ j _ lt before.
    same j (omega arith) ∙ get_or-strncpy s t n j room (omega arith) (λ m. before m (omega arith)))
