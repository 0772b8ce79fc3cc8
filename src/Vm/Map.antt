-- ===== src/Vm/Map.antt =====
-- kernel/vm.c: `mappages` of one page, and `walkaddr`.
use osmini_project.Base.{
  ℕ, ◌/◌, ◌%◌, ◌<◌, ◌≡◌, ◌≢◌, ◌⊎◌, inl, inr, sym, ap, ◌∙◌, Bool, true, false, List, [], ◌∷◌, ◌==◌,
  if◌then◌else◌, arith, ℕ_discrete, none, some, ltb, update, update_self, update_ne,
}
use osmini_project.Vm.{
  Memory, pgsize, maxva, is_valid, px, make_pte, set_word, walk, walk_levels, map_from, mappages,
}
use osmini_project.Vm.Tree.{
  Place, root, mid, low, next, page, leaf, Pool, IsChild, of_root, of_mid, IsTree, page_child,
  place_discrete, parent_not_low, page_root, below,
}
use osmini_project.Vm.Walk.{walk_levels_lem}

-- The entry of an address, or 0.
abbrev pub entry_at : Memory → (t va : ℕ) → ℕ
entry_at m t va = leaf m t (px 2 va) (px 1 va) (px 0 va)

-- An entry of the lowest level is written.
module _ (m : Memory) (t a b c v : ℕ) (tree : IsTree m t) (some_page : page m t (low a b) ≢ 0) where
  abbrev after : Memory
  after = set_word (page m t (low a b)) c v m

  word_away :
      (x : Place) → page m t x ≢ 0 → x ≢ low a b → after.word (page m t x) ≡ m.word (page m t x)
  word_away x ne away =
      update_ne m.word (page m t (low a b)) (update (m.word (page m t (low a b))) c v) (page m t x)
        (λ e. away (tree.distinct x (low a b) ne e))

  next_away :
      (x y : Place) (j : ℕ)
      → IsChild x j y
      → page m t x ≢ 0
      → next after (page m t x) j ≡ next m (page m t x) j
  next_away x y j child ne = let same = word_away x ne (parent_not_low child a b) in rw same

  child_away :
      (x y : Place) (j : ℕ)
      → IsChild x j y
      → page after t x ≡ page m t x
      → page after t y ≡ page m t y
  child_away x y j child same =
      page_child after t x y j child
      ∙ ap (λ p. below after p j) same
      ∙ elim (ℕ_discrete (page m t x) 0) [
        | yes nil ↦ ap (λ p. below after p j) nil ∙ sym (ap (λ p. below m p j) nil)
        | no ne ↦
            let filled : (page m t x == 0) ≡ false = ground arith in
            rw filled (next_away x y j child ne)
      ]
      ∙ sym (page_child m t x y j child)

  root_away : page after t root ≡ page m t root
  root_away = page_root after t ∙ sym (page_root m t)

  mid_away : (d : ℕ) → page after t (mid d) ≡ page m t (mid d)
  mid_away d = child_away root (mid d) d (of_root d) root_away

  page_away : (x : Place) → page after t x ≡ page m t x
  page_away root = root_away
  page_away (mid d) = mid_away d
  page_away (low d e) = child_away (mid d) (low d e) e (of_mid d e) (mid_away d)

  pool_away : (l : List ℕ) → Pool m t l → Pool after t l
  pool_away [] _ = tt
  pool_away (f ∷ l) (nonzero, aligned, not_page, single, pool) =
      (nonzero, aligned, λ x e. not_page x (sym (page_away x) ∙ e), single, pool_away l pool)

  pub set_word-IsTree : IsTree after t
  set_word-IsTree = record {
    has_root = tree.has_root;
    distinct = λ x y ne e.
        tree.distinct x y (λ z. ne (page_away x ∙ z)) (sym (page_away x) ∙ e ∙ page_away y);
    solid = λ x y j child ne valid z.
        let some_x : page m t x ≢ 0 = λ z. ne (page_away x ∙ z) in
        let word : after.word (page after t x) j ≡ m.word (page m t x) j =
          ap (λ p. after.word p j) (page_away x)
          ∙ ap (λ f. f j) (word_away x some_x (parent_not_low child a b)) in
        tree.solid x y j child some_x (sym (ap is_valid word) ∙ valid) (sym (page_away y) ∙ z);
    pool = pool_away m.free tree.pool;
  }

  pub leaf_here : leaf after t a b c ≡ v
  unfolding leaf
  leaf_here =
      let same = page_away (low a b) in
      let filled : (page m t (low a b) == 0) ≡ false = ground arith in
      rw (same, filled)
        (ap (λ f. f c)
            (update_self m.word (page m t (low a b)) (update (m.word (page m t (low a b))) c v))
          ∙ update_self (m.word (page m t (low a b))) c v)

  word_other :
      (d e f : ℕ)
      → (d ≢ a) ⊎ (e ≢ b) ⊎ (f ≢ c)
      → page m t (low d e) ≢ 0
      → after.word (page m t (low d e)) f ≡ m.word (page m t (low d e)) f
  word_other d e f other ne = elim (place_discrete (low d e) (low a b)) [
    | no away ↦ ap (λ g. g f) (word_away (low d e) ne away)
    | yes same ↦
        let same_d : d ≡ a = cc in
        let same_e : e ≡ b = cc in
        let apart : f ≢ c = elim other [
          | inl ne' ↦ absurd (ne' same_d)
          | inr rest ↦ elim rest [ inl ne' ↦ absurd (ne' same_e) | inr ne' ↦ ne' ]
        ] in
        ap (λ x. after.word (page m t x) f) same
        ∙ ap (λ g. g f)
            (update_self m.word (page m t (low a b)) (update (m.word (page m t (low a b))) c v))
        ∙ update_ne (m.word (page m t (low a b))) c v f apart
        ∙ ap (λ x. m.word (page m t x) f) (sym same)
  ]

  pub leaf_away : (d e f : ℕ) → (d ≢ a) ⊎ (e ≢ b) ⊎ (f ≢ c) → leaf after t d e f ≡ leaf m t d e f
  unfolding leaf
  leaf_away d e f other =
      let same = page_away (low d e) in
      elim (ℕ_discrete (page m t (low d e)) 0) [
        | yes nil ↦ rw (same, nil)
        | no ne ↦
            let filled : (page m t (low d e) == 0) ≡ false = ground arith in
            rw (same, filled) (word_other d e f other ne)
      ]

-- One page is mapped, or memory is used up; the entries of all other pages are as before.
pub data Mapped (m : Memory) (t va pa perm : ℕ) : Bool → Memory → Type 0 where
  mapped :
      (m' : Memory)
      → IsTree m' t
      → entry_at m' t va ≡ make_pte pa perm
      → ((va' : ℕ)
          → va' < maxva
          → va' / pgsize ≢ va / pgsize
          → entry_at m' t va' ≡ entry_at m t va')
      → Mapped m t va pa perm true m'
  no_memory :
      (m' : Memory)
      → IsTree m' t
      → ((va' : ℕ) → entry_at m' t va' ≡ entry_at m t va')
      → Mapped m t va pa perm false m'

other_page :
    (va va' : ℕ)
    → va < maxva
    → va' < maxva
    → va' / pgsize ≢ va / pgsize
    → (px 2 va' ≢ px 2 va) ⊎ (px 1 va' ≢ px 1 va) ⊎ (px 0 va' ≢ px 0 va)
other_page va va' lt lt' ne = elim (ℕ_discrete (px 2 va') (px 2 va)) [
  | no a ↦ inl a
  | yes same ↦ elim (ℕ_discrete (px 1 va') (px 1 va)) [
    | no b ↦ inr (inl b)
    | yes same' ↦ elim (ℕ_discrete (px 0 va') (px 0 va)) [
      | no c ↦ inr (inr c)
      | yes same'' ↦ absurd (ne (omega arith))
    ]
  ]
]

module _ (t va pa perm : ℕ) (m : Memory) (aligned : va % pgsize ≡ 0) (lt : va < maxva) where
  mappages_one : mappages t va pgsize pa perm m ≡ map_from 1 t va pa perm m
  unfolding mappages
  mappages_one = let a : (va % pgsize == 0) ≡ true = ground arith in rw a

  walk_inside : (alloc : Bool) → walk alloc t va m ≡ some (walk_levels alloc t va m)
  unfolding walk
  walk_inside alloc = let b : ltb va maxva ≡ true = ground arith in rw b

  map_fails :
      (m1 : Memory)
      → walk true t va m ≡ some (none, m1)
      → map_from 1 t va pa perm m ≡ some (false, m1)
  unfolding map_from
  map_fails m1 e = rw (e, map_from)

  map_maps :
      (m1 : Memory) (t0 i : ℕ)
      → walk true t va m ≡ some (some (t0, i), m1)
      → is_valid (m1.word t0 i) ≡ false
      → map_from 1 t va pa perm m ≡ some (true, set_word t0 i (make_pte pa perm) m1)
  unfolding map_from
  map_maps m1 t0 i e free = rw (e, free, map_from)

  mappages_fails :
      (m1 : Memory)
      → walk_levels true t va m ≡ (none, m1)
      → mappages t va pgsize pa perm m ≡ some (false, m1)
  mappages_fails m1 e = mappages_one ∙ map_fails m1 (walk_inside true ∙ ap some e)

  mappages_maps :
      (m1 : Memory) (t0 : ℕ)
      → walk_levels true t va m ≡ (some (t0, px 0 va), m1)
      → is_valid (m1.word t0 (px 0 va)) ≡ false
      → mappages t va pgsize pa perm m ≡ some (true, set_word t0 (px 0 va) (make_pte pa perm) m1)
  mappages_maps m1 t0 e free =
      mappages_one ∙ map_maps m1 t0 (px 0 va) (walk_inside true ∙ ap some e) free

  leaf_at :
      (m : Memory) (x : Place) (t0 c : ℕ)
      → page m t x ≡ t0
      → t0 ≢ 0
      → (if page m t x == 0 then 0 else m.word (page m t x) c) ≡ m.word t0 c
  leaf_at m x t0 c at ne = let filled : (t0 == 0) ≡ false = ground arith in rw (at, filled)

  -- `mappages` of a page that is not mapped does not panic.
  pub mappages-Mapped :
      IsTree m t
      → is_valid (entry_at m t va) ≡ false
      → (ok : Bool) × (m' : Memory) × (mappages t va pgsize pa perm m ≡ some (ok, m'))
        × Mapped m t va pa perm ok m'
  unfolding leaf
  mappages-Mapped tree free =
      let (r, m1, e, ext, found, _) = walk_levels_lem t true va m tree in
      elim found [
        | inr (miss, _) ↦ (
          false,
          m1,
          mappages_fails m1 (e ∙ ap (λ r. (r, m1)) miss),
          no_memory m1 ext.tree (λ va'. ext.leaves (px 2 va') (px 1 va') (px 0 va')),
        )
        | inl (t0, hit, at, ne) ↦
            let there : page m1 t (low (px 2 va) (px 1 va)) ≢ 0 = λ z. ne (sym at ∙ z) in
            let old : m1.word t0 (px 0 va) ≡ entry_at m t va =
              sym (leaf_at m1 (low (px 2 va) (px 1 va)) t0 (px 0 va) at ne)
              ∙ ext.leaves (px 2 va) (px 1 va) (px 0 va) in
            let v = make_pte pa perm in
            let m2 = set_word (page m1 t (low (px 2 va) (px 1 va))) (px 0 va) v m1 in
            (
              true,
              m2,
              mappages_maps m1 t0 (e ∙ ap (λ r. (r, m1)) hit) (ap is_valid old ∙ free)
                  ∙ ap (λ t0. some (true, set_word t0 (px 0 va) v m1)) (sym at),
              mapped m2 (set_word-IsTree m1 t (px 2 va) (px 1 va) (px 0 va) v ext.tree there)
                  (leaf_here m1 t (px 2 va) (px 1 va) (px 0 va) v ext.tree there)
                  (λ va' lt' ne'.
                    leaf_away m1 t (px 2 va) (px 1 va) (px 0 va) v ext.tree there (px 2 va')
                      (px 1 va') (px 0 va') (other_page va va' lt lt' ne')
                    ∙ ext.leaves (px 2 va') (px 1 va') (px 0 va')),
            )
      ]
