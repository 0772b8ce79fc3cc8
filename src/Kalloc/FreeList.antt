-- ===== src/Kalloc/FreeList.antt =====
-- kernel/kalloc.c: the list of free pages, and that no page is given out twice.
use osmini_project.Base.{
  subst, ℕ, zero, suc, ◌+◌, ◌-◌, ◌*◌, ◌/◌, ◌%◌, ◌≤◌, ◌<◌, ◌≡◌, refl, sym, ap, ◌≢◌, true, false,
  List, [], ◌∷◌, some, arith, ◌==◌, All, length,
}
use osmini_project.Kalloc.{
  Kmem, store, pgsize, phystop, is_bad, junk_freed, junk_taken, kfree, kalloc, free_pages,
  pgroundup, freerange, kinit,
}

-- The pages that the words link from `p` on.
abbrev pub IsLinked : (ℕ → ℕ) → ℕ → List ℕ → Type 0
IsLinked word p [] = p ≡ 0
IsLinked word p (x ∷ xs) = (p ≡ x) × ((x ≢ 0) × IsLinked word (word x) xs)

abbrev pub IsDistinct : List ℕ → Type 0
IsDistinct [] = Unit {0}
IsDistinct (x ∷ xs) = All (λ y. x ≢ y) xs × IsDistinct xs

-- `pages` are the free pages, the next to be given out first.
pub record HasFree (k : Kmem) (pages : List ℕ) : Type 0 where
  pub links : IsLinked k.word k.freelist pages
  pub distinct : IsDistinct pages

-- A write to a page that is not free leaves the list.
IsLinked-store :
    (word : ℕ → ℕ) (pa v p : ℕ) (xs : List ℕ)
    → All (λ y. pa ≢ y) xs
    → IsLinked word p xs
    → IsLinked (store pa v word) p xs
IsLinked-store word pa v p [] h l = l
IsLinked-store word pa v p (x ∷ xs) h l =
    let other : (x == pa) ≡ false = let ne = h.0 in ground arith in
    (l.0, (l.1.0, rw other (IsLinked-store word pa v (word x) xs h.1 l.1.1)))

-- A page that is freed, and was not free, comes first in the list of free pages; `kfree` does not
-- panic for it.
pub kfree-HasFree :
    (kernel_end pa : ℕ) (k : Kmem) (pages : List ℕ)
    → is_bad kernel_end pa ≡ false
    → 0 < kernel_end
    → HasFree k pages
    → All (λ y. pa ≢ y) pages
    → (k' : Kmem) × (kfree kernel_end pa k ≡ some k') × HasFree k' (pa ∷ pages)
unfolding kfree
kfree-HasFree kernel_end pa k pages good above v new =
    let here : (pa == pa) ≡ true = ground arith in
    let written =
      IsLinked-store (store pa junk_freed k.word) pa k.freelist k.freelist pages new
        (IsLinked-store k.word pa junk_freed k.freelist pages new v.links) in
    (
      record { freelist = pa; word = store pa k.freelist (store pa junk_freed k.word) },
      rw good,
      record { links = (refl, (ground arith, rw here written)); distinct = (new, v.distinct) },
    )

abbrev kmem : ℕ → (ℕ → ℕ) → Kmem
kmem freelist word = record { freelist = freelist; word = word }

kalloc-first :
    (word : ℕ → ℕ) (page : ℕ) (pages : List ℕ)
    → HasFree (kmem page word) (page ∷ pages)
    → ((kalloc (kmem page word)).0 ≡ page) × HasFree (kalloc (kmem page word)).1 pages
unfolding kalloc
kalloc-first word page pages v =
    let there : (page == 0) ≡ false = let ne = v.links.1.0 in ground arith in
    rw there (
      refl,
      record {
        links = IsLinked-store word page junk_taken (word page) pages v.distinct.0 v.links.1.1;
        distinct = v.distinct.1;
      },
    )

-- `kalloc` gives the first free page, which is not free any more until it is freed.
pub kalloc-HasFree :
    (k : Kmem) (page : ℕ) (pages : List ℕ)
    → HasFree k (page ∷ pages)
    → ((kalloc k).0 ≡ page) × HasFree (kalloc k).1 pages × All (λ y. page ≢ y) pages
kalloc-HasFree k page pages v =
    let same : record k { freelist = page } ≡ k =
      ap (λ p. record k { freelist = p }) (sym v.links.0) in
    let (gives, rest) =
      subst (λ k. ((kalloc k).0 ≡ page) × HasFree (kalloc k).1 pages) same
        (kalloc-first k.word page pages
          (record { links = (refl, v.links.1); distinct = v.distinct })) in
    (gives, rest, v.distinct.0)

Below-ne : (p : ℕ) (pages : List ℕ) → All (λ y. y < p) pages → All (λ y. p ≢ y) pages
Below-ne p [] h = tt
Below-ne p (x ∷ pages) h = (omega (arith, h.0), Below-ne p pages h.1)

Below-mono : (p q : ℕ) (pages : List ℕ) → p ≤ q → All (λ y. y < p) pages → All (λ y. y < q) pages
Below-mono p q [] le h = tt
Below-mono p q (x ∷ pages) le h = (omega (arith, h.0), Below-mono p q pages le h.1)

free_pages-HasFree :
    (kernel_end n p : ℕ) (k : Kmem) (pages : List ℕ)
    → 0 < kernel_end
    → kernel_end ≤ p
    → p % pgsize ≡ 0
    → p + n * pgsize ≤ phystop
    → HasFree k pages
    → All (λ y. y < p) pages
    → (k' : Kmem) × (pages' : List ℕ) × (free_pages kernel_end n p k ≡ some k')
      × HasFree k' pages'
      × (length pages' ≡ n + length pages)
unfolding free_pages
free_pages-HasFree kernel_end zero p k pages above start aligned room v below =
    (k, pages, refl, v, omega arith)
free_pages-HasFree kernel_end (suc n) p k pages above start aligned room v below =
    let good : is_bad kernel_end p ≡ false = ground arith in
    let (k1, freed, v1) =
      kfree-HasFree kernel_end p k pages good above v (Below-ne p pages below) in
    let (k', pages', e, v', size) =
      free_pages-HasFree kernel_end n (p + pgsize) k1 (p ∷ pages) above (omega arith) (omega arith)
        (omega arith) v1 (omega arith, Below-mono p (p + pgsize) pages (omega arith) below) in
    (k', pages', rw (free_pages, freed) e, v', omega (arith, size))

-- `kinit` does not panic, and afterwards as many different pages are free as there are whole pages
-- between the kernel's end and PHYSTOP.
pub kinit-HasFree :
    (kernel_end : ℕ) (k : Kmem)
    → 0 < kernel_end
    → kernel_end + pgsize ≤ phystop
    → HasFree k []
    → (k' : Kmem) × (pages : List ℕ) × (kinit kernel_end k ≡ some k')
      × HasFree k' pages
      × (length pages ≡ (phystop - pgroundup kernel_end) / pgsize)
unfolding kinit freerange
kinit-HasFree kernel_end k above fits v =
    let p = pgroundup kernel_end in
    let n = (phystop - p) / pgsize in
    let (k', pages, e, v', size) =
      free_pages-HasFree kernel_end n p k [] above (omega arith) (omega arith) (omega arith) v tt in
    (k', pages, e, v', omega (arith, size))
