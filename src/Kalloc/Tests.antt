-- ===== src/Kalloc/Tests.antt =====
-- The theorems on kernel/kalloc.c at concrete memories.
use osmini_project.Base.{ℕ, ◌≡◌, ◌≢◌, refl, some, List, [], ◌∷◌, arith, All, length, ◌-◌, ◌/◌}
use osmini_project.Kalloc.{Kmem, kfree, kalloc, kinit, phystop, pgroundup, pgsize}
use osmini_project.Kalloc.FreeList.{HasFree, kfree-HasFree, kalloc-HasFree, kinit-HasFree}

abbrev empty : Kmem
empty = record { freelist = 0; word = λ _. 0 }

empty-HasFree : HasFree empty []
empty-HasFree = record { links = refl; distinct = tt }

-- One free page.
abbrev one : Kmem
one = record { freelist = 0x80010000; word = λ _. 0 }

one-HasFree : HasFree one (0x80010000 ∷ [])
one-HasFree = record { links = (refl, (omega arith, refl)); distinct = (tt, tt) }

kfree-HasFree_run :
    (k' : Kmem) × (kfree 0x80008000 0x80020000 one ≡ some k')
    × HasFree k' (0x80020000 ∷ 0x80010000 ∷ [])
kfree-HasFree_run =
    kfree-HasFree 0x80008000 0x80020000 one (0x80010000 ∷ []) refl (omega arith) one-HasFree
      (omega arith, tt)

kalloc-HasFree_example :
    ((kalloc one).0 ≡ 0x80010000) × HasFree (kalloc one).1 [] × All (λ (y : ℕ). 0x80010000 ≢ y) []
kalloc-HasFree_example = kalloc-HasFree one 0x80010000 [] one-HasFree

kinit-HasFree_run :
    (k' : Kmem) × (pages : List ℕ) × (kinit 0x80022b40 empty ≡ some k')
    × HasFree k' pages
    × (length pages ≡ (phystop - pgroundup 0x80022b40) / pgsize)
kinit-HasFree_run = kinit-HasFree 0x80022b40 empty (omega arith) (omega arith) empty-HasFree
