-- ===== src/Vm/Walk.antt =====
-- kernel/vm.c: what `walk` finds, and what it makes.
use osmini_project.Base.{
  ℕ, ◌≡◌, ◌≢◌, ◌⊎◌, inl, inr, refl, sym, ap, ◌∙◌, Bool, true, false, List, [], ◌∷◌, ◌==◌, arith,
  Bool-cases, subst, Option, none, some,
}
use osmini_project.Vm.{
  Memory, is_valid, pte_to_pa, px, descend, walk_levels, lower_levels, last_level, kalloc_zeroed,
  clear_page,
}
use osmini_project.Vm.Tree.{
  Pool, Place, root, mid, low, page, leaf, IsChild, of_root, of_mid, IsTree, Pool, page_child,
}
use osmini_project.Vm.Grow.{grown, page_new, page_same, grown-IsTree, leaf_same}

-- Pages may have been added to the table; every entry of the lowest level is as before.
pub record Extends (t : ℕ) (m m' : Memory) : Type 0 where
  pub tree : IsTree m' t
  pub leaves : (a b c : ℕ) → leaf m' t a b c ≡ leaf m t a b c
  pub kept : (x : Place) → page m t x ≢ 0 → page m' t x ≡ page m t x

-- A round: the page at `q`, or none, with no change.
abbrev Descended : (t : ℕ) → Place → Memory → Option ℕ → Memory → Type 0
Descended t q m r m' =
    ((pa : ℕ) × (r ≡ some pa) × (page m' t q ≡ pa) × (pa ≢ 0)) ⊎ ((r ≡ none) × (page m' t q ≡ 0))

kalloc_none : (m : Memory) → m.free ≡ [] → kalloc_zeroed m ≡ none
unfolding kalloc_zeroed
kalloc_none m at =
    ap
      (λ l. elim l as (λ _. Option (ℕ × Memory)) [
        | [] ↦ none
        | pa ∷ rest ↦ some (pa, clear_page pa (record m { free = rest }))
      ])
      at

kalloc_some :
    (m : Memory) (pa : ℕ) (rest : List ℕ)
    → m.free ≡ pa ∷ rest
    → kalloc_zeroed m ≡ some (pa, clear_page pa (record m { free = rest }))
unfolding kalloc_zeroed
kalloc_some m pa rest at =
    ap
      (λ l. elim l as (λ _. Option (ℕ × Memory)) [
        | [] ↦ none
        | pa ∷ rest ↦ some (pa, clear_page pa (record m { free = rest }))
      ])
      at

module _ (t : ℕ) where
  Extends-refl : {m : Memory} → IsTree m t → Extends t m m
  Extends-refl tree = record { tree = tree; leaves = λ _ _ _. refl; kept = λ _ _. refl }

  Extends-trans : {m m' m'' : Memory} → Extends t m m' → Extends t m' m'' → Extends t m m''
  Extends-trans e e' = record {
    tree = e'.tree;
    leaves = λ a b c. e'.leaves a b c ∙ e.leaves a b c;
    kept = λ x ne. let same = e.kept x ne in e'.kept x (λ z. ne (sym same ∙ z)) ∙ same;
  }

  descend_free :
      (p q : Place) (i : ℕ) (m : Memory) (l : List ℕ)
      → m.free ≡ l
      → IsTree m t
      → IsChild p i q
      → page m t p ≢ 0
      → page m t q ≡ 0
      → is_valid (m.word (page m t p) i) ≡ false
      → (r : Option ℕ) × (m' : Memory) × (descend true (page m t p) i m ≡ (r, m'))
        × Extends t m m'
        × Descended t q m r m'
  unfolding descend
  descend_free p q i m [] at tree child ne empty invalid =
      (none, m, rw (invalid, kalloc_none m at), Extends-refl tree, inr (refl, empty))
  descend_free p q i m (pa ∷ rest) at tree child ne empty invalid =
      let (nonzero, _, _, _, _) = subst (Pool m t) at tree.pool in
      (
        some pa,
        grown m (page m t p) i pa rest,
        rw (invalid, kalloc_some m pa rest at),
        record {
          tree = grown-IsTree m t p q i pa rest tree at child ne empty;
          leaves = leaf_same m t p q i pa rest tree at child ne empty;
          kept = λ x ne'.
              page_same m t p q i pa rest tree at child ne empty x
                (λ e. ne' (ap (page m t) e ∙ empty));
        },
        inl (pa, refl, page_new m t p q i pa rest tree at child ne empty, nonzero),
      )

  pub descend_lem :
      (alloc : Bool) (p q : Place) (i : ℕ) (m : Memory)
      → IsTree m t
      → IsChild p i q
      → page m t p ≢ 0
      → (r : Option ℕ) × (m' : Memory) × (descend alloc (page m t p) i m ≡ (r, m'))
        × Extends t m m'
        × Descended t q m r m'
        × (alloc ≡ false → m' ≡ m)
  unfolding descend
  descend_lem alloc p q i m tree child ne =
      let filled : (page m t p == 0) ≡ false = ground arith in
      let at = page_child m t p q i child in
      elim (Bool-cases (is_valid (m.word (page m t p) i))) [
        | inl valid ↦
            let there : page m t q ≡ pte_to_pa (m.word (page m t p) i) = at ∙ rw (filled, valid) in
            (
              some (pte_to_pa (m.word (page m t p) i)),
              m,
              rw valid,
              Extends-refl tree,
              inl (
                pte_to_pa (m.word (page m t p) i),
                refl,
                there,
                λ z. tree.solid p q i child ne valid (there ∙ z),
              ),
              λ _. refl,
            )
        | inr invalid ↦
            let empty : page m t q ≡ 0 = at ∙ rw (filled, invalid) in
            elim (Bool-cases alloc) [
              | inr no_alloc ↦
                  (none, m, rw (no_alloc, invalid), Extends-refl tree, inr (refl, empty), λ _. refl)
              | inl yes_alloc ↦
                  let (r, m', e, ext, d) =
                    descend_free p q i m m.free refl tree child ne empty invalid in
                  (
                    r,
                    m',
                    rw yes_alloc e,
                    ext,
                    d,
                    λ no_alloc. (let clash : true ≡ false = sym yes_alloc ∙ no_alloc in cc),
                  )
            ]
      ]

  -- What `walk` gives for the entry `a b c`: its page and index, or none as it has no page.
  abbrev Walked : (a b c : ℕ) → Memory → Option (ℕ × ℕ) → Memory → Type 0
  Walked a b c m r m' =
      ((pa : ℕ) × (r ≡ some (pa, c)) × (page m' t (low a b) ≡ pa) × (pa ≢ 0))
      ⊎ ((r ≡ none) × (page m' t (low a b) ≡ 0))

  walk_first :
      (alloc : Bool) (va : ℕ) (m m1 : Memory)
      → descend alloc t (px 2 va) m ≡ (none, m1)
      → walk_levels alloc t va m ≡ (none, m1)
  unfolding walk_levels lower_levels
  walk_first alloc va m m1 e = ap (lower_levels alloc va) e

  walk_second :
      (alloc : Bool) (va : ℕ) (m m1 m2 : Memory) (t1 : ℕ) (r : Option ℕ)
      → descend alloc t (px 2 va) m ≡ (some t1, m1)
      → descend alloc t1 (px 1 va) m1 ≡ (r, m2)
      → walk_levels alloc t va m ≡ last_level va (r, m2)
  unfolding walk_levels lower_levels
  walk_second alloc va m m1 m2 t1 r e e' = ap (lower_levels alloc va) e ∙ ap (last_level va) e'

  low_empty : (a b : ℕ) (m : Memory) → page m t (mid a) ≡ 0 → page m t (low a b) ≡ 0
  low_empty a b m nil = page_child m t (mid a) (low a b) b (of_mid a b) ∙ rw nil

  pub walk_levels_lem :
      (alloc : Bool) (va : ℕ) (m : Memory)
      → IsTree m t
      → (r : Option (ℕ × ℕ)) × (m' : Memory) × (walk_levels alloc t va m ≡ (r, m'))
        × Extends t m m'
        × Walked (px 2 va) (px 1 va) (px 0 va) m r m'
        × (alloc ≡ false → m' ≡ m)
  unfolding page last_level
  walk_levels_lem alloc va m tree =
      let (r, m1, e, ext, d, pure) =
        descend_lem alloc root (mid (px 2 va)) (px 2 va) m tree (of_root (px 2 va)) tree.has_root in
      elim d [
        | inr (miss, empty) ↦ (
          none,
          m1,
          walk_first alloc va m m1 (e ∙ ap (λ r. (r, m1)) miss),
          ext,
          inr (refl, low_empty (px 2 va) (px 1 va) m1 empty),
          pure,
        )
        | inl (t1, hit, at, ne) ↦
            let (r2, m2, e2, ext2, d2, pure2) =
              descend_lem alloc (mid (px 2 va)) (low (px 2 va) (px 1 va)) (px 1 va) m1 ext.tree
                (of_mid (px 2 va) (px 1 va)) (λ z. ne (sym at ∙ z)) in
            let second =
              walk_second alloc va m m1 m2 t1 r2 (e ∙ ap (λ r. (r, m1)) hit)
                (sym (ap (λ t1. descend alloc t1 (px 1 va) m1) at) ∙ e2) in
            let pure_both : alloc ≡ false → m2 ≡ m = λ no_alloc. pure2 no_alloc ∙ pure no_alloc in
            elim d2 [
              | inr (miss, empty) ↦ (
                none,
                m2,
                second ∙ ap (λ r. last_level va (r, m2)) miss,
                Extends-trans ext ext2,
                inr (refl, empty),
                pure_both,
              )
              | inl (t0, hit2, at2, ne2) ↦ (
                some (t0, px 0 va),
                m2,
                second ∙ ap (λ r. last_level va (r, m2)) hit2,
                Extends-trans ext ext2,
                inl (t0, refl, at2, ne2),
                pure_both,
              )
            ]
      ]
