-- ===== src/Vm/Tests.antt =====
-- kernel/vm.c: the theorems at a small page table.
use osmini_project.Base.{
  ℕ, ◌+◌, ◌/◌, ◌≤◌, ◌<◌, ◌≡◌, ◌≢◌, refl, sym, ap, ◌∙◌, Bool, true, false, [], ◌∷◌, arith, Option,
  none, some, list_of,
}
use osmini_project.Vm.{
  Memory, pgsize, maxva, is_valid, walkaddr, walk, walk_levels, lower_levels, last_level, descend,
  kalloc_zeroed, mappages, map_from, pg_round_down,
}
use osmini_project.Vm.Tree.{Place, root, mid, low, page, leaf, IsTree}
use osmini_project.Vm.Map.{entry_at}
use osmini_project.Vm.Translate.{walkaddr-mappages}
use osmini_project.Vm.User.{copyin}
use osmini_project.Vm.User.Copyin.{user_byte, IsPresent, copyin_lem}

-- An empty table with its root at page 1, and three free pages.
abbrev empty_memory : Memory
empty_memory = record { word = λ _ _. 0; byte = λ _ o. o; free = 8192 ∷ 12288 ∷ 16384 ∷ [] }

only_root : (p : Place) → page empty_memory 4096 p ≢ 0 → p ≡ root
unfolding page
only_root root ne = refl
only_root (mid a) ne = absurd (ne refl)
only_root (low a b) ne = absurd (ne refl)

small_page : (p : Place) → page empty_memory 4096 p ≤ 4096
unfolding page
small_page root = omega arith
small_page (mid a) = omega arith
small_page (low a b) = omega arith

not_page : (p : Place) (pa : ℕ) → 4096 < pa → page empty_memory 4096 p ≢ pa
not_page p pa lt e = let small = small_page p in absurd (omega arith)

empty_memory-IsTree : IsTree empty_memory 4096
empty_memory-IsTree = record {
  has_root = λ e. absurd (omega arith);
  distinct = λ p q ne e. only_root p ne ∙ sym (only_root q (λ z. ne (e ∙ z)));
  solid = λ p q i _ _ valid. cc;
  pool = (
    λ e. absurd (omega arith),
    refl,
    λ p. not_page p 8192 (omega arith),
    (λ e. absurd (omega arith), (λ e. absurd (omega arith), tt)),
    (
      λ e. absurd (omega arith),
      refl,
      λ p. not_page p 12288 (omega arith),
      (λ e. absurd (omega arith), tt),
      (λ e. absurd (omega arith), refl, λ p. not_page p 16384 (omega arith), tt, tt),
    ),
  );
}

abbrev mapping : Option (Bool × Memory)
mapping = mappages 4096 12288 pgsize 409600 22 empty_memory

abbrev mapped_memory : Memory
mapped_memory = elim mapping [ none ↦ empty_memory | some (_, m) ↦ m ]

mapping_runs : mappages 4096 12288 pgsize 409600 22 empty_memory ≡ some (true, mapped_memory)
unfolding mappages map_from walk walk_levels lower_levels last_level descend kalloc_zeroed
mapping_runs = refl

not_mapped : is_valid (entry_at empty_memory 4096 12288) ≡ false
unfolding leaf page
not_mapped = refl

walkaddr-mappages_example :
    IsTree mapped_memory 4096
    × (walkaddr 4096 12288 mapped_memory ≡ 409600)
    × ((va : ℕ)
        → va < maxva
        → va / pgsize ≢ 12288 / pgsize
        → walkaddr 4096 va mapped_memory ≡ walkaddr 4096 va empty_memory)
walkaddr-mappages_example =
    walkaddr-mappages 4096 12288 409600 22 empty_memory empty_memory-IsTree refl (omega arith)
      mapped_memory refl (omega arith) refl not_mapped mapping_runs

page_found : walkaddr 4096 12288 mapped_memory ≡ 409600
unfolding mappages map_from walkaddr walk walk_levels lower_levels last_level descend kalloc_zeroed
page_found = refl

mapped-IsPresent : IsPresent mapped_memory 4096 12290 (12290 + 5)
mapped-IsPresent c from lt z =
    let start : pg_round_down c ≡ 12288 = omega arith in
    let clash : ◌≡◌ {A = ℕ} 409600 0 =
      sym page_found ∙ ap (λ a. walkaddr 4096 a mapped_memory) (sym start) ∙ z in
    absurd (omega arith)

copyin_lem_example :
    copyin 4096 20000 12290 5 mapped_memory
    ≡ some (true, list_of 5 (user_byte mapped_memory 4096) 12290, mapped_memory)
copyin_lem_example = copyin_lem 4096 20000 mapped_memory 12290 5 mapped-IsPresent
