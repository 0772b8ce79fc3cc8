-- ===== src/Fs/Trunc/Laws.antt =====
-- kernel/fs.c: `itrunc` gives back the blocks of the file and no others.
use osmini_project.Base.{
  ℕ, zero, suc, ◌+◌, ◌≤◌, ◌<◌, ◌≡◌, ◌≢◌, ◌⊎◌, inl, refl, sym, ap, ◌∙◌, true, false, ◌==◌, arith,
  some, ℕ_discrete, subst, update, update_self, update_ne,
}
use osmini_project.Fs.{Disk, Inode, Superblock}
use osmini_project.Fs.Bits.{word_at}
use osmini_project.Fs.FreeMap.{bfree}
use osmini_project.Fs.Trunc.{free_block, free_direct, free_entries}
use osmini_project.Fs.Trunc.Freed.{
  Freed, Freed-trans, Freed-none, Freed-empty, Freed-IsUsed, bfree-Freed, IsDistinct, IsUsed,
}

module _ (f : ℕ → ℕ) (sb : Superblock) where
  pub record Cleared (i hi : ℕ) (addrs a : ℕ → ℕ) (d d' : Disk) : Type 0 where
    pub inside : (c : ℕ) → i ≤ c → c < hi → a c ≡ 0
    pub outside : (c : ℕ) → (c < i) ⊎ (hi ≤ c) → a c ≡ addrs c
    pub freed : Freed f i hi d d'

  Cleared-step :
      {i hi : ℕ} {addrs a0 a : ℕ → ℕ} {d d1 d' : Disk}
      → i < hi
      → IsDistinct f hi
      → Freed f i (suc i) d d1
      → a0 i ≡ 0
      → ((c : ℕ) → c ≢ i → a0 c ≡ addrs c)
      → Cleared (suc i) hi a0 a d1 d'
      → Cleared i hi addrs a d d'
  Cleared-step {i} {a0 = a0} lt distinct p nil same w = record {
    inside = λ c first small. elim (ℕ_discrete c i) [
      | yes here ↦ w.outside c (inl (omega arith)) ∙ ap a0 here ∙ nil
      | no ne ↦ w.inside c (omega arith) small
    ];
    outside = λ c out. w.outside c (ground arith) ∙ same c (ground arith);
    freed = Freed-trans f distinct (omega arith) lt p w.freed;
  }

  -- The loop over the direct blocks.
  pub free_direct-Cleared :
      (rounds i hi : ℕ) (ip : Inode) (d : Disk)
      → i + rounds ≡ hi
      → ((c : ℕ) → i ≤ c → c < hi → ip.addrs c ≡ f c)
      → IsDistinct f hi
      → IsUsed f i hi d
      → (a : ℕ → ℕ) × (d' : Disk) × (free_direct sb rounds i ip d
          ≡ some (record ip { addrs = a }, d'))
        × Cleared i hi ip.addrs a d d'
  unfolding free_direct
  free_direct-Cleared zero i hi ip d end at distinct used = (
    ip.addrs,
    d,
    refl,
    record {
      inside = λ c first lt. absurd (omega arith);
      outside = λ _ _. refl;
      freed = Freed-none f (omega arith);
    },
  )
  free_direct-Cleared (suc rounds) i hi ip d end at distinct used =
      let here = at i (omega arith) (omega arith) in
      elim (ℕ_discrete (f i) 0) [
        | yes nil ↦
            let empty : (ip.addrs i == 0) ≡ true = ground arith in
            let p = Freed-empty f {d = d} i nil in
            let (a, d', e, w) =
              free_direct-Cleared rounds (suc i) hi ip d (omega arith)
                (λ c first lt. at c (omega arith) lt) distinct
                (Freed-IsUsed f distinct (omega arith) used (omega arith) p) in
            (
              a,
              d',
              rw (empty, free_direct) e,
              Cleared-step (omega arith) distinct p (here ∙ nil) (λ _ _. refl) w,
            )
        | no ne ↦
            let filled : (ip.addrs i == 0) ≡ false = ground arith in
            let (d1, e1, p) = bfree-Freed f sb i d ne (used i (omega arith) (omega arith) ne) in
            let e1' : bfree sb (ip.addrs i) d ≡ some d1 = ap (λ b. bfree sb b d) here ∙ e1 in
            let (a, d', e, w) =
              free_direct-Cleared rounds (suc i) hi (record ip { addrs = update ip.addrs i 0 }) d1
                (omega arith)
                (λ c first lt.
                  update_ne ip.addrs i 0 c (λ e. absurd (omega arith)) ∙ at c (omega arith) lt)
                distinct (Freed-IsUsed f distinct (omega arith) used (omega arith) p) in
            (
              a,
              d',
              rw (filled, e1', free_direct) e,
              Cleared-step (omega arith) distinct p (update_self ip.addrs i 0)
                  (λ c ne. update_ne ip.addrs i 0 c ne) w,
            )
      ]

  -- The loop over the entries of the indirect block, at the positions from `base` on.
  pub free_entries-Freed :
      (rounds j base hi t : ℕ) (d : Disk)
      → base + j + rounds ≡ hi
      → ((k : ℕ) → j ≤ k → base + k < hi → word_at (d.block t) k ≡ f (base + k))
      → IsDistinct f hi
      → IsUsed f (base + j) hi d
      → (d' : Disk) × (free_entries sb rounds j t d ≡ some d') × Freed f (base + j) hi d d'
  unfolding free_entries free_block
  free_entries-Freed zero j base hi t d end at distinct used = (d, refl, Freed-none f (omega arith))
  free_entries-Freed (suc rounds) j base hi t d end at distinct used =
      let here = at j (omega arith) (omega arith) in
      let next : base + suc j ≡ suc (base + j) = omega arith in
      elim (ℕ_discrete (f (base + j)) 0) [
        | yes nil ↦
            let empty : (word_at (d.block t) j == 0) ≡ true = ground arith in
            let p = Freed-empty f {d = d} (base + j) nil in
            let used' = Freed-IsUsed f distinct (omega arith) used (omega arith) p in
            let (d', e, w) =
              free_entries-Freed rounds (suc j) base hi t d (omega arith)
                (λ k first lt. at k (omega arith) lt) distinct
                (subst (λ c. IsUsed f c hi d) (sym next) used') in
            (
              d',
              rw (empty, free_entries) e,
              Freed-trans f distinct (omega arith) (omega arith) p
                  (subst (λ c. Freed f c hi d d') next w),
            )
        | no ne ↦
            let filled : (word_at (d.block t) j == 0) ≡ false = ground arith in
            let (d1, e1, p) =
              bfree-Freed f sb (base + j) d ne (used (base + j) (omega arith) (omega arith) ne) in
            let e1' : bfree sb (word_at (d.block t) j) d ≡ some d1 =
              ap (λ b. bfree sb b d) here ∙ e1 in
            let used' = Freed-IsUsed f distinct (omega arith) used (omega arith) p in
            let (d', e, w) =
              free_entries-Freed rounds (suc j) base hi t d1 (omega arith)
                (λ k first lt. ap (λ blk. word_at (blk t) k) p.block_same ∙ at k (omega arith) lt)
                distinct (subst (λ c. IsUsed f c hi d1) (sym next) used') in
            (
              d',
              rw (filled, e1', free_entries) e,
              Freed-trans f distinct (omega arith) (omega arith) p
                  (subst (λ c. Freed f c hi d1 d') next w),
            )
      ]
