-- ===== src/Kalloc.antt =====
-- kernel/kalloc.c: the allocator of pages. Free pages are linked through their first words.
pub mod FreeList
mod Tests
use osmini_project.Base.{
  ℕ, zero, suc, ◌+◌, ◌-◌, ◌/◌, ◌*◌, ◌%◌, Bool, true, false, not, ◌||◌, Option, none, some, ◌==◌,
  ltb, leb, if◌then◌else◌,
}

-- PGSIZE and PHYSTOP.
abbrev pub pgsize : ℕ
pgsize = 4096

abbrev pub phystop : ℕ
phystop = 0x88000000

-- The first words that the fills of `kfree` and `kalloc` leave.
abbrev pub junk_freed : ℕ
junk_freed = 0x0101010101010101

abbrev pub junk_taken : ℕ
junk_taken = 0x0505050505050505

-- `kmem.freelist`, and the first word of each page.
pub record Kmem : Type 0 where
  pub freelist : ℕ
  pub word : ℕ → ℕ

abbrev pub store : ℕ → ℕ → (ℕ → ℕ) → ℕ → ℕ
store pa v word a = if a == pa then v else word a

-- `PGROUNDUP`.
abbrev pub pgroundup : ℕ → ℕ
pgroundup a = (a + (pgsize - 1)) / pgsize * pgsize

-- The parameter is the address `end` that the linker gives.
module _ (kernel_end : ℕ) where
  -- The test of `kfree` for what is no page.
  abbrev pub is_bad : ℕ → Bool
  is_bad pa = not (pa % pgsize == 0) || (ltb pa kernel_end || leb phystop pa)

  -- `none` is a panic.
  unfoldable pub kfree : ℕ → Kmem → Option Kmem
  kfree pa k =
      if is_bad pa
      then none
      else some (record { freelist = pa; word = store pa k.freelist (store pa junk_freed k.word) })

  -- The loop of `freerange`, with `pages` rounds to go from `p`.
  unfoldable pub free_pages : (pages p : ℕ) → Kmem → Option Kmem
  free_pages zero p k = some k
  free_pages (suc pages) p k = elim (kfree p k) [
    | none ↦ none
    | some k' ↦ free_pages pages (p + pgsize) k'
  ]

  -- `p + PGSIZE <= pa_end` holds once for each whole page that is left.
  unfoldable pub freerange : (pa_start pa_end : ℕ) → Kmem → Option Kmem
  freerange pa_start pa_end k = let p = pgroundup pa_start in free_pages ((pa_end - p) / pgsize) p k

  unfoldable pub kinit : Kmem → Option Kmem
  kinit k = freerange kernel_end phystop k

-- `kalloc`: the page, or 0.
unfoldable pub kalloc : Kmem → ℕ × Kmem
kalloc k =
    let r = k.freelist in
    if r == 0 then (0, k) else (r, record { freelist = k.word r; word = store r junk_taken k.word })
