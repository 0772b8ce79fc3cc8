-- ===== src/Vm/Translate.antt =====
-- kernel/vm.c: `walkaddr` gives the pages that `mappages` has mapped.
use osmini_project.Base.{
  ℕ, ◌/◌, ◌%◌, ◌^◌, ◌<◌, ◌≡◌, ◌≢◌, inl, inr, refl, sym, ap, ◌∙◌, Bool, true, false, not, ◌==◌,
  if◌then◌else◌, arith, subst, none, some, some-injective, ltb,
}
use osmini_project.Vm.{
  Memory, pgsize, maxva, is_valid, is_user, pte_to_pa, px, make_pte, walk_levels, walkaddr,
  mappages,
}
use osmini_project.Vm.Tree.{low, page, leaf, IsTree}
use osmini_project.Vm.Walk.{walk_levels_lem}
use osmini_project.Vm.Map.{entry_at, Mapped, mapped, no_memory, mappages-Mapped}

-- The page of an entry that is valid and the user's, or 0.
abbrev user_page : ℕ → ℕ
user_page pte = if not (is_valid pte) then 0 else if not (is_user pte) then 0 else pte_to_pa pte

module _ (t va : ℕ) (lt : va < maxva) where
  walkaddr-none : (m m1 : Memory) → walk_levels false t va m ≡ (none, m1) → walkaddr t va m ≡ 0
  unfolding walkaddr
  walkaddr-none m m1 e = let b : ltb va maxva ≡ true = ground arith in rw (b, e)

  walkaddr-some :
      (m m1 : Memory) (t0 i : ℕ)
      → walk_levels false t va m ≡ (some (t0, i), m1)
      → walkaddr t va m ≡ user_page (m.word t0 i)
  unfolding walkaddr
  walkaddr-some m m1 t0 i e = let b : ltb va maxva ≡ true = ground arith in rw (b, e)

  entry_none : (m : Memory) → page m t (low (px 2 va) (px 1 va)) ≡ 0 → entry_at m t va ≡ 0
  unfolding leaf
  entry_none m nil = rw nil

  entry_some :
      (m : Memory) (t0 : ℕ)
      → page m t (low (px 2 va) (px 1 va)) ≡ t0
      → t0 ≢ 0
      → entry_at m t va ≡ m.word t0 (px 0 va)
  unfolding leaf
  entry_some m t0 at ne = let filled : (t0 == 0) ≡ false = ground arith in rw (at, filled)

  pub walkaddr_lem : (m : Memory) → IsTree m t → walkaddr t va m ≡ user_page (entry_at m t va)
  walkaddr_lem m tree =
      let (r, m1, e, ext, found, pure) = walk_levels_lem t false va m tree in
      elim found [
        | inr (miss, nil) ↦
            walkaddr-none m m1 (e ∙ ap (λ r. (r, m1)) miss)
            ∙ sym (ap user_page (sym (ap (λ m. entry_at m t va) (pure refl)) ∙ entry_none m1 nil))
        | inl (t0, hit, at, ne) ↦
            walkaddr-some m m1 t0 (px 0 va) (e ∙ ap (λ r. (r, m1)) hit)
            ∙ ap user_page (
                sym (ap (λ (m : Memory). m.word t0 (px 0 va)) (pure refl))
                ∙ sym (entry_some m1 t0 at ne)
                ∙ ap (λ m. entry_at m t va) (pure refl))
      ]

module _ (t va pa perm : ℕ) (m : Memory) (tree : IsTree m t) (aligned : va % pgsize ≡ 0)
    (lt : va < maxva) where
  -- What `walkaddr` gives after the mapping.
  record Translates (m' : Memory) : Type 0 where
    pub table : IsTree m' t
    pub here : walkaddr t va m' ≡ pa
    pub elsewhere :
        (va' : ℕ) → va' < maxva → va' / pgsize ≢ va / pgsize → walkaddr t va' m' ≡ walkaddr t va' m

  Mapped-Translates :
      (ok : Bool) (m' : Memory)
      → pa % pgsize ≡ 0
      → perm < 2 ^ 10
      → is_user perm ≡ true
      → Mapped m t va pa perm ok m'
      → ok ≡ true
      → Translates m'
  Mapped-Translates _ _ whole small user (no_memory m' _ _) e = cc
  Mapped-Translates _ _ whole small user (mapped m' tree' at others) e =
      let valid : is_valid (make_pte pa perm) ≡ true = ground arith in
      let is_users : is_user (make_pte pa perm) ≡ true = ground arith in
      let back : pte_to_pa (make_pte pa perm) ≡ pa = ground arith in
      record {
        table = tree';
        here = walkaddr_lem t va lt m' tree' ∙ ap user_page at ∙ rw (valid, is_users) back;
        elsewhere = λ va' lt' ne.
            walkaddr_lem t va' lt' m' tree'
            ∙ ap user_page (others va' lt' ne)
            ∙ sym (walkaddr_lem t va' lt' m tree);
      }

  -- A page that `mappages` has mapped for the user is found, and the other addresses lead where they did.
  pub walkaddr-mappages :
      (m' : Memory)
      → pa % pgsize ≡ 0
      → perm < 2 ^ 10
      → is_user perm ≡ true
      → is_valid (entry_at m t va) ≡ false
      → mappages t va pgsize pa perm m ≡ some (true, m')
      → IsTree m' t
        × (walkaddr t va m' ≡ pa)
        × ((va' : ℕ)
            → va' < maxva
            → va' / pgsize ≢ va / pgsize
            → walkaddr t va' m' ≡ walkaddr t va' m)
  walkaddr-mappages m' whole small user free e =
      let (ok, m1, e1, done) = mappages-Mapped t va pa perm m aligned lt tree free in
      let same : (ok, m1) ≡ (true, m') = some-injective _ _ (sym e1 ∙ e) in
      let w : Translates m' =
        subst (λ (p : Bool × Memory). p.0 ≡ true → Translates p.1) same
          (Mapped-Translates ok m1 whole small user done) refl in
      (w.table, w.here, w.elsewhere)
