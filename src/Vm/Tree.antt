-- ===== src/Vm/Tree.antt =====
-- kernel/vm.c: a page table as a tree, and its invariant.
use osmini_project.Base.{
  ℕ, ◌%◌, ◌^◌, ◌≡◌, ◌≢◌, ◌⊎◌, inl, inr, refl, ap, ap₂, true, List, [], ◌∷◌, ◌==◌, if◌then◌else◌,
  ℕ_discrete, All,
}
use osmini_project.Vm.{Memory, is_valid, pte_to_pa}

-- The places of the pages of a page table: its root, and the pages below it.
pub data Place : Type 0 where
  root : Place
  mid : ℕ → Place
  low : ℕ → ℕ → Place

-- The page that the entry `i` of the page `t` leads to, or 0.
abbrev pub next : Memory → (t i : ℕ) → ℕ
next m t i = if is_valid (m.word t i) then pte_to_pa (m.word t i) else 0

abbrev pub below : Memory → (t i : ℕ) → ℕ
below m t i = if t == 0 then 0 else next m t i

-- The page at a place of the table with the root `t`, or 0.
unfoldable pub page : Memory → ℕ → Place → ℕ
page m t root = t
page m t (mid a) = below m t a
page m t (low a b) = below m (below m t a) b

-- The entry of the lowest level, or 0.
unfoldable pub leaf : Memory → ℕ → (a b c : ℕ) → ℕ
leaf m t a b c = if page m t (low a b) == 0 then 0 else m.word (page m t (low a b)) c

-- The free pages are pages, and none of them is part of the table or stands in the list twice.
abbrev pub Pool : Memory → ℕ → List ℕ → Type 0
Pool m t [] = Unit
Pool m t (pa ∷ rest) =
    (pa ≢ 0)
    × (pa % 2 ^ 12 ≡ 0)
    × ((p : Place) → page m t p ≢ pa)
    × All (λ q. q ≢ pa) rest
    × Pool m t rest

-- The place that the entry `i` of a page leads to.
pub data IsChild : Place → ℕ → Place → Type 0 where
  of_root : (i : ℕ) → IsChild root i (mid i)
  of_mid : (a i : ℕ) → IsChild (mid a) i (low a i)

-- The pages of a table stand at one place each, and its valid entries lead to pages.
pub record IsTree (m : Memory) (t : ℕ) : Type 0 where
  pub has_root : t ≢ 0
  pub distinct : (p q : Place) → page m t p ≢ 0 → page m t p ≡ page m t q → p ≡ q
  pub solid :
      (p q : Place) (i : ℕ)
      → IsChild p i q
      → page m t p ≢ 0
      → is_valid (m.word (page m t p) i) ≡ true
      → page m t q ≢ 0
  pub pool : Pool m t m.free

pub page_child :
    (m : Memory) (t : ℕ) (p q : Place) (i : ℕ) → IsChild p i q → page m t q ≡ below m (page m t p) i
unfolding page
page_child m t _ _ _ (of_root i) = refl
page_child m t _ _ _ (of_mid a i) = refl

pub place_discrete : (p q : Place) → Dec (p ≡ q)
place_discrete root root = yes refl
place_discrete root (mid a) = no (λ e. cc)
place_discrete root (low a b) = no (λ e. cc)
place_discrete (mid a) root = no (λ e. cc)
place_discrete (mid a) (mid a') = elim (ℕ_discrete a a') [
  | yes same ↦ yes (ap mid same)
  | no ne ↦ no (λ e. ne cc)
]
place_discrete (mid a) (low a' b') = no (λ e. cc)
place_discrete (low a b) root = no (λ e. cc)
place_discrete (low a b) (mid a') = no (λ e. cc)
place_discrete (low a b) (low a' b') = elim (ℕ_discrete a a') [
  | yes same ↦ elim (ℕ_discrete b b') [
    | yes same' ↦ yes (ap₂ low same same')
    | no ne ↦ no (λ e. ne cc)
  ]
  | no ne ↦ no (λ e. ne cc)
]

child_unique :
    {x y x' y' : Place} {j j' : ℕ} → IsChild x j y → IsChild x' j' y' → x ≡ x' → j ≡ j' → y ≡ y'
child_unique (of_root j) (of_root j') e e' = ap mid e'
child_unique (of_root j) (of_mid a j') e e' = cc
child_unique (of_mid a j) (of_root j') e e' = cc
child_unique (of_mid a j) (of_mid a' j') e e' = let same : a ≡ a' = cc in ap₂ low same e'

-- What leads to another place is of another page, or another entry.
pub other_child :
    {x y p q : Place} {j i : ℕ} → IsChild x j y → IsChild p i q → y ≢ q → (x ≢ p) ⊎ (j ≢ i)
other_child {x} {y} {p} c d ne = elim (place_discrete x p) [
  | no away ↦ inl away
  | yes same ↦ inr (λ e. ne (child_unique c d same e))
]

pub parent_not_low : {p q : Place} {i : ℕ} → IsChild p i q → (a b : ℕ) → p ≢ low a b
parent_not_low (of_root i) a b e = cc
parent_not_low (of_mid c i) a b e = cc

pub page_root : (m : Memory) (t : ℕ) → page m t root ≡ t
unfolding page
page_root m t = refl
