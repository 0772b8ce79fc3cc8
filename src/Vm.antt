-- ===== src/Vm.antt =====
-- kernel/vm.c: page tables. A page of memory is named by its address; a page of a page table is its 512
-- entries, and a page of a process its bytes. The free pages of kalloc.c are a list.
pub mod Tree
pub mod Grow
pub mod Walk
pub mod Map
pub mod Translate
pub mod User
mod Tests
use osmini_project.Base.{
  ℕ, zero, suc, ◌+◌, ◌-◌, ◌*◌, ◌/◌, ◌%◌, ◌^◌, Bool, true, false, not, List, [], ◌∷◌, Option, none,
  some, ◌==◌, ltb, if◌then◌else◌, update,
}

-- PGSIZE, MAXVA.
abbrev pub pgsize : ℕ
pgsize = 4096

abbrev pub maxva : ℕ
maxva = 2 ^ 38

-- PTE_V, PTE_R, PTE_W, PTE_X, PTE_U of an entry.
abbrev pub is_valid : ℕ → Bool
is_valid pte = pte % 2 == 1

abbrev pub is_writable : ℕ → Bool
is_writable pte = pte / 4 % 2 == 1

abbrev pub is_user : ℕ → Bool
is_user pte = pte / 16 % 2 == 1

-- PA2PTE, PTE2PA, PTE_FLAGS.
abbrev pub pa_to_pte : ℕ → ℕ
pa_to_pte pa = pa / 2 ^ 12 * 2 ^ 10

abbrev pub pte_to_pa : ℕ → ℕ
pte_to_pa pte = pte / 2 ^ 10 * 2 ^ 12

abbrev pub pte_flags : ℕ → ℕ
pte_flags pte = pte % 2 ^ 10

-- PX, for the levels 2, 1 and 0.
abbrev pub px : (level va : ℕ) → ℕ
px level va = va / 2 ^ (12 + 9 * level) % 512

abbrev pub pg_round_up : ℕ → ℕ
pg_round_up a = (a + 4095) / 4096 * 4096

abbrev pub pg_round_down : ℕ → ℕ
pg_round_down a = a / 4096 * 4096

pub record Memory : Type 0 where
  pub word : ℕ → ℕ → ℕ
  pub byte : ℕ → ℕ → ℕ
  pub free : List ℕ

-- A page of zeroes.
abbrev pub clear_page : ℕ → Memory → Memory
clear_page pa m = record m { word = update m.word pa (λ _. 0); byte = update m.byte pa (λ _. 0) }

-- `kalloc` and `memset` of the page: the page, or none when memory is used up.
unfoldable pub kalloc_zeroed : Memory → Option (ℕ × Memory)
kalloc_zeroed m = elim m.free [
  | [] ↦ none
  | pa ∷ rest ↦ some (pa, clear_page pa (record m { free = rest }))
]

abbrev pub kfree : ℕ → Memory → Memory
kfree pa m = record m { free = pa ∷ m.free }

-- `*pte = v`, for the entry `i` of the page `t`.
abbrev pub set_word : (t i v : ℕ) → Memory → Memory
set_word t i v m = record m { word = update m.word t (update (m.word t) i v) }

-- One round of the loop of `walk`: the page of the next level, made if `alloc`.
unfoldable pub descend : (alloc : Bool) → (t i : ℕ) → Memory → Option ℕ × Memory
descend alloc t i m =
    let pte = m.word t i in
    if is_valid pte
    then (some (pte_to_pa pte), m)
    else if not alloc
    then (none, m)
    else elim (kalloc_zeroed m) [
      | none ↦ (none, m)
      | some (pa, m1) ↦ (some pa, set_word t i (pa_to_pte pa + 1) m1)
    ]

-- The loop of `walk` over the levels 2 and 1: the entry, as page and index, or the null pointer.
unfoldable pub last_level : (va : ℕ) → Option ℕ × Memory → Option (ℕ × ℕ) × Memory
last_level va (none, m) = (none, m)
last_level va (some t0, m) = (some (t0, px 0 va), m)

unfoldable pub lower_levels :
    (alloc : Bool) → (va : ℕ) → Option ℕ × Memory → Option (ℕ × ℕ) × Memory
lower_levels alloc va (none, m) = (none, m)
lower_levels alloc va (some t1, m) = last_level va (descend alloc t1 (px 1 va) m)

unfoldable pub walk_levels : (alloc : Bool) → (t va : ℕ) → Memory → Option (ℕ × ℕ) × Memory
walk_levels alloc t va m = lower_levels alloc va (descend alloc t (px 2 va) m)

-- `walk`; `none` is a panic.
unfoldable pub walk : (alloc : Bool) → (t va : ℕ) → Memory → Option (Option (ℕ × ℕ) × Memory)
walk alloc t va m = if ltb va maxva then some (walk_levels alloc t va m) else none

-- `walkaddr`: the page, or 0.
unfoldable pub walkaddr : (t va : ℕ) → Memory → ℕ
walkaddr t va m =
    if ltb va maxva
    then elim (walk_levels false t va m).0 [
      | none ↦ 0
      | some (t0, i) ↦
          let pte = m.word t0 i in
          if not (is_valid pte) then 0 else if not (is_user pte) then 0 else pte_to_pa pte
    ]
    else 0

-- `PA2PTE(pa) | perm | PTE_V`, where `perm` has no bits but flags.
abbrev pub make_pte : (pa perm : ℕ) → ℕ
make_pte pa perm = pa_to_pte pa + (if perm % 2 == 1 then perm else perm + 1)

-- The loop of `mappages` over `pages` pages: whether it succeeds; `none` is a panic.
unfoldable pub map_from : (pages t a pa perm : ℕ) → Memory → Option (Bool × Memory)
map_from zero t a pa perm m = some (true, m)
map_from (suc pages) t a pa perm m = elim (walk true t a m) [
  | none ↦ none
  | some (none, m1) ↦ some (false, m1)
  | some (some (t0, i), m1) ↦ elim (is_valid (m1.word t0 i)) [
    | true ↦ none
    | false ↦ map_from pages t (a + pgsize) (pa + pgsize) perm (set_word t0 i (make_pte pa perm) m1)
  ]
]

unfoldable pub mappages : (t va size pa perm : ℕ) → Memory → Option (Bool × Memory)
mappages t va size pa perm m =
    if not (va % pgsize == 0)
    then none
    else if not (size % pgsize == 0)
    then none
    else if size == 0
    then none
    else map_from (size / pgsize) t va pa perm m

unfoldable pub ismapped : (t va : ℕ) → Memory → Option Bool
ismapped t va m = elim (walk false t va m) [
  | none ↦ none
  | some (none, _) ↦ some false
  | some (some (t0, i), _) ↦ some (is_valid (m.word t0 i))
]

unfoldable pub uvmcreate : Memory → Option (ℕ × Memory)
uvmcreate m = kalloc_zeroed m

-- A page of the loop of `uvmunmap`.
unfoldable pub unmap_page : (do_free : Bool) → (t0 i : ℕ) → Memory → Memory
unmap_page do_free t0 i m =
    let pte = m.word t0 i in
    if is_valid pte then set_word t0 i 0 (if do_free then kfree (pte_to_pa pte) m else m) else m

unfoldable pub unmap_from : (pages t a : ℕ) → (do_free : Bool) → Memory → Option Memory
unmap_from zero t a do_free m = some m
unmap_from (suc pages) t a do_free m = elim (walk false t a m) [
  | none ↦ none
  | some (none, m1) ↦ unmap_from pages t (a + pgsize) do_free m1
  | some (some (t0, i), m1) ↦ unmap_from pages t (a + pgsize) do_free (unmap_page do_free t0 i m1)
]

unfoldable pub uvmunmap : (t va npages : ℕ) → (do_free : Bool) → Memory → Option Memory
uvmunmap t va npages do_free m =
    if not (va % pgsize == 0) then none else unmap_from npages t va do_free m

-- The new size.
unfoldable pub uvmdealloc : (t oldsz newsz : ℕ) → Memory → Option (ℕ × Memory)
uvmdealloc t oldsz newsz m =
    let npages = (pg_round_up oldsz - pg_round_up newsz) / pgsize in
    if not (ltb newsz oldsz)
    then some (oldsz, m)
    else if ltb (pg_round_up newsz) (pg_round_up oldsz)
    then elim (uvmunmap t (pg_round_up newsz) npages true m) [
      | none ↦ none
      | some m1 ↦ some (newsz, m1)
    ]
    else some (newsz, m)
