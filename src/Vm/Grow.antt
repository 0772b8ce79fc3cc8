-- ===== src/Vm/Grow.antt =====
-- kernel/vm.c: `walk` puts a page of zeroes at an empty place of a page table.
use osmini_project.Base.{
  ℕ, ◌+◌, ◌≡◌, ◌≢◌, ◌⊎◌, inl, inr, refl, sym, ap, ◌∙◌, true, false, List, [], ◌∷◌, ◌==◌, arith,
  ℕ_discrete, subst, update, update_self, update_ne, All,
}
use osmini_project.Vm.{Memory, is_valid, pte_to_pa, pa_to_pte, clear_page, set_word}
use osmini_project.Vm.Tree.{
  Place, root, mid, low, next, page, leaf, Pool, IsChild, of_root, of_mid, IsTree, page_child,
  place_discrete, other_child, parent_not_low,
}

-- The first free page is made the page at `q`, which the entry `i` of the page at `p` leads to.
abbrev pub grown : Memory → (tp i pa : ℕ) → List ℕ → Memory
grown m tp i pa rest = set_word tp i (pa_to_pte pa + 1) (clear_page pa (record m { free = rest }))

module _ (m : Memory) (t : ℕ) (p q : Place) (i pa : ℕ) (rest : List ℕ) (tree : IsTree m t)
    (at : m.free ≡ pa ∷ rest) (child : IsChild p i q) (some_page : page m t p ≢ 0)
    (empty : page m t q ≡ 0) where
  abbrev after : Memory
  after = grown m (page m t p) i pa rest

  fresh : Pool m t (pa ∷ rest)
  fresh = subst (Pool m t) at tree.pool

  apart : (x : Place) → page m t x ≢ pa
  apart = let (_, _, others, _, _) = fresh in others

  -- The entries of all pages before the new entry is written.
  abbrev cleared : ℕ → ℕ → ℕ
  cleared = update m.word pa (λ _. 0)

  abbrev written_page : ℕ → ℕ
  written_page = update (cleared (page m t p)) i (pa_to_pte pa + 1)

  word_same : (x j : ℕ) → x ≢ pa → (x ≢ page m t p) ⊎ (j ≢ i) → after.word x j ≡ m.word x j
  word_same x j ne other = elim (ℕ_discrete x (page m t p)) [
    | no away ↦
        ap (λ f. f j) (update_ne cleared (page m t p) written_page x away)
        ∙ ap (λ f. f j) (update_ne m.word pa (λ _. 0) x ne)
    | yes same ↦ elim other [
      | inl away ↦ absurd (away same)
      | inr ne' ↦
          ap (λ x. after.word x j) same
          ∙ ap (λ f. f j) (update_self cleared (page m t p) written_page)
          ∙ update_ne (cleared (page m t p)) i (pa_to_pte pa + 1) j ne'
          ∙ ap (λ f. f j) (update_ne m.word pa (λ _. 0) (page m t p) (apart p))
          ∙ ap (λ x. m.word x j) (sym same)
    ]
  ]

  word_fresh : (j : ℕ) → after.word pa j ≡ 0
  word_fresh j =
      ap (λ f. f j) (update_ne cleared (page m t p) written_page pa (λ e. apart p (sym e)))
      ∙ ap (λ f. f j) (update_self m.word pa (λ _. 0))

  word_new : after.word (page m t p) i ≡ pa_to_pte pa + 1
  word_new =
      ap (λ f. f i) (update_self cleared (page m t p) written_page)
      ∙ update_self (cleared (page m t p)) i (pa_to_pte pa + 1)

  next_new : next after (page m t p) i ≡ pa
  next_new =
      let (_, aligned, _, _, _) = fresh in
      let valid : is_valid (pa_to_pte pa + 1) ≡ true = ground arith in
      let back : pte_to_pa (pa_to_pte pa + 1) ≡ pa = omega arith in rw (word_new, valid, back)

  -- An entry of a page that stands at another place, or another entry, is as before.
  next_same :
      (x : Place) (j : ℕ)
      → page m t x ≢ 0
      → (x ≢ p) ⊎ (j ≢ i)
      → next after (page m t x) j ≡ next m (page m t x) j
  next_same x j ne other =
      let same : after.word (page m t x) j ≡ m.word (page m t x) j =
        word_same (page m t x) j (apart x) (elim other [
          | inl away ↦ inl (λ e. away (tree.distinct x p ne e))
          | inr away ↦ inr away
        ]) in
      rw same

  mid_same : (a : ℕ) → mid a ≢ q → page after t (mid a) ≡ page m t (mid a)
  unfolding page
  mid_same a ne =
      let filled : (t == 0) ≡ false = let has = tree.has_root in ground arith in
      rw filled (next_same root a tree.has_root (other_child (of_root a) child ne))

  parent_same : {x y : Place} {j : ℕ} → IsChild x j y → x ≢ q → page after t x ≡ page m t x
  unfolding page
  parent_same (of_root j) ne = refl
  parent_same (of_mid a j) ne = mid_same a ne

  pub page_new : page after t q ≡ pa
  page_new =
      let same = parent_same child (λ e. some_page (ap (page m t) e ∙ empty)) in
      let filled : (page m t p == 0) ≡ false = ground arith in
      page_child after t p q i child ∙ rw (same, filled) next_new

  low_same : (a b : ℕ) → low a b ≢ q → page after t (low a b) ≡ page m t (low a b)
  low_same a b ne =
      page_child after t (mid a) (low a b) b (of_mid a b) ∙ elim (place_discrete (mid a) q) [
        | yes same ↦
            let (nonzero, _, _, _, _) = fresh in
            let new : page after t (mid a) ≡ pa = ap (page after t) same ∙ page_new in
            let old : page m t (mid a) ≡ 0 = ap (page m t) same ∙ empty in
            let filled : (pa == 0) ≡ false = ground arith in
            let low_old : page m t (low a b) ≡ 0 =
              page_child m t (mid a) (low a b) b (of_mid a b) ∙ rw old in
            rw (new, filled, word_fresh b, low_old)
        | no other ↦
            let same = mid_same a other in
            elim (ℕ_discrete (page m t (mid a)) 0) [
              | yes nil ↦
                  let low_old : page m t (low a b) ≡ 0 =
                    page_child m t (mid a) (low a b) b (of_mid a b) ∙ rw nil in
                  rw (same, nil, low_old)
              | no ne' ↦
                  let filled : (page m t (mid a) == 0) ≡ false = ground arith in
                  let old : page m t (low a b) ≡ next m (page m t (mid a)) b =
                    page_child m t (mid a) (low a b) b (of_mid a b) ∙ rw filled in
                  rw (same, filled)
                    (next_same (mid a) b ne' (other_child (of_mid a b) child ne) ∙ sym old)
            ]
      ]

  pub page_same : (x : Place) → x ≢ q → page after t x ≡ page m t x
  unfolding page
  page_same root ne = refl
  page_same (mid a) ne = mid_same a ne
  page_same (low a b) ne = low_same a b ne

  pool_same : (l : List ℕ) → All (λ f. f ≢ pa) l → Pool m t l → Pool after t l
  pool_same [] _ _ = tt
  pool_same (f ∷ l) (ne, others) (nonzero, aligned, not_page, single, pool) = (
    nonzero,
    aligned,
    λ x e. elim (place_discrete x q) [
      | yes same ↦ ne (sym e ∙ ap (page after t) same ∙ page_new)
      | no other ↦ not_page x (sym (page_same x other) ∙ e)
    ],
    single,
    pool_same l others pool,
  )

  distinct_same : (x y : Place) → page after t x ≢ 0 → page after t x ≡ page after t y → x ≡ y
  distinct_same x y ne e = elim (place_discrete x q) [
    | yes here ↦ elim (place_discrete y q) [
      | yes here' ↦ here ∙ sym here'
      | no other' ↦
          absurd (apart y (sym (page_same y other') ∙ sym e ∙ ap (page after t) here ∙ page_new))
    ]
    | no other ↦ elim (place_discrete y q) [
      | yes here' ↦
          absurd (apart x (sym (page_same x other) ∙ e ∙ ap (page after t) here' ∙ page_new))
      | no other' ↦
          let same = page_same x other in
          tree.distinct x y (λ z. ne (same ∙ z)) (sym same ∙ e ∙ page_same y other')
    ]
  ]

  solid_same :
      (x y : Place) (j : ℕ)
      → IsChild x j y
      → page after t x ≢ 0
      → is_valid (after.word (page after t x) j) ≡ true
      → page after t y ≢ 0
  solid_same x y j c ne valid z = elim (place_discrete y q) [
    | yes here ↦
        let (nonzero, _, _, _, _) = fresh in
        nonzero (sym page_new ∙ ap (page after t) (sym here) ∙ z)
    | no other ↦ elim (place_discrete x q) [
      | yes here' ↦
          let at_fresh : after.word (page after t x) j ≡ 0 =
            ap (λ f. after.word f j) (ap (page after t) here' ∙ page_new) ∙ word_fresh j in
          let clash : is_valid 0 ≡ true = sym (ap is_valid at_fresh) ∙ valid in cc
      | no other' ↦
          let same = page_same x other' in
          let some_x : page m t x ≢ 0 = λ z. ne (same ∙ z) in
          let word : after.word (page after t x) j ≡ m.word (page m t x) j =
            ap (λ f. after.word f j) same
            ∙ word_same (page m t x) j (apart x) (elim (other_child c child other) [
              | inl away ↦ inl (λ e. away (tree.distinct x p some_x e))
              | inr away ↦ inr away
            ]) in
          tree.solid x y j c some_x (sym (ap is_valid word) ∙ valid) (sym (page_same y other) ∙ z)
    ]
  ]

  pub grown-IsTree : IsTree after t
  grown-IsTree =
      let (_, _, _, single, pool) = fresh in
      record {
        has_root = tree.has_root;
        distinct = distinct_same;
        solid = λ x y j. solid_same x y j;
        pool = pool_same rest single pool;
      }

  -- The page is empty, and no entry of the lowest level changes.
  pub leaf_same : (a b c : ℕ) → leaf after t a b c ≡ leaf m t a b c
  unfolding leaf
  leaf_same a b c = elim (place_discrete (low a b) q) [
    | yes here ↦
        let (nonzero, _, _, _, _) = fresh in
        let new : page after t (low a b) ≡ pa = ap (page after t) here ∙ page_new in
        let old : page m t (low a b) ≡ 0 = ap (page m t) here ∙ empty in
        let filled : (pa == 0) ≡ false = ground arith in rw (new, old, filled, word_fresh c)
    | no other ↦
        let same = page_same (low a b) other in
        elim (ℕ_discrete (page m t (low a b)) 0) [
          | yes nil ↦ rw (same, nil)
          | no ne ↦
              let filled : (page m t (low a b) == 0) ≡ false = ground arith in
              rw (same, filled)
                (word_same (page m t (low a b)) c (apart (low a b))
                  (inl (λ e. parent_not_low child a b (sym (tree.distinct (low a b) p ne e)))))
        ]
  ]
