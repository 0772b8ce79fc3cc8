-- ===== src/Fs/Table/Free.antt =====
-- kernel/fs.c: `iput` of the last reference to an inode without links, and `ialloc`.
use osmini_project.Base.{
  ℕ, zero, suc, ◌+◌, ◌-◌, ◌≤◌, ◌<◌, ◌≡◌, ◌≢◌, sym, ap, ◌∙◌, true, false, ◌==◌, arith, Option, none,
  some, ℕ_discrete, update, update_self, update_ne, sub32,
}
use osmini_project.Fs.{Superblock, Inode, Dinode, Disk, maxfile, iupdate}
use osmini_project.Fs.FreeMap.Search.{in_use}
use osmini_project.Fs.Map.Numbers.{block_of, IsMapped}
use osmini_project.Fs.Trunc.{itrunc}
use osmini_project.Fs.Trunc.Whole.{itrunc-Truncated}
use osmini_project.Fs.Table.{State, iget, free_inode, drop_ref, iput, ialloc, ialloc_from, claim}
use osmini_project.Fs.Table.Get.{Iget, iget-Iget}

-- The inode `i` is gone: its entry is free, its copy on the disk has no type and no size, its blocks are free,
-- all other entries and inodes are as before, all other blocks are in use or free as before, and what is in
-- the blocks has not changed.
pub record IsGone (sb : Superblock) (i : ℕ) (k k' : State) : Type 0 where
  pub no_ref : (k'.inode i).ref ≡ 0
  pub no_type : (k'.disk.dinode (k.inode i).inum).kind ≡ 0
  pub no_size : (k'.disk.dinode (k.inode i).inum).size ≡ 0
  pub blocks :
      (c : ℕ)
      → c ≤ maxfile
      → block_of (k.inode i) k.disk c ≢ 0
      → in_use k'.disk (block_of (k.inode i) k.disk c) ≡ false
  pub rest :
      (b : ℕ)
      → ((c : ℕ)
          → c ≤ maxfile
          → block_of (k.inode i) k.disk c ≢ 0
          → block_of (k.inode i) k.disk c ≢ b)
      → in_use k'.disk b ≡ in_use k.disk b
  pub entries : (j : ℕ) → j ≢ i → k'.inode j ≡ k.inode j
  pub contents : k'.disk.block ≡ k.disk.block
  pub inodes : (n : ℕ) → n ≢ (k.inode i).inum → k'.disk.dinode n ≡ k.disk.dinode n

module _ (sb : Superblock) where
  free_inode_step :
      (i : ℕ) (k : State) (ip : Inode) (d : Disk)
      → itrunc sb (k.inode i) k.disk ≡ some (ip, d)
      → free_inode sb i k
        ≡ some (record k {
          inode = update k.inode i (record ip { kind = 0; valid = false });
          disk = iupdate sb (record ip { kind = 0 }) d;
        })
  unfolding free_inode
  free_inode_step i k ip d e = rw (e, free_inode)

  iput_step :
      (i : ℕ) (k k1 : State)
      → (k.inode i).ref ≡ 1
      → (k.inode i).valid ≡ true
      → (k.inode i).nlink ≡ 0
      → k.locked i ≡ false
      → free_inode sb i k ≡ some k1
      → iput sb i k ≡ some (drop_ref sb i k1)
  unfolding iput
  iput_step i k k1 one valid no_link unlocked e =
      let last : ((k.inode i).ref == 1) ≡ true = ground arith in
      let orphan : ((k.inode i).nlink == 0) ≡ true = ground arith in
      rw (last, valid, orphan, unlocked, e)

  -- `iput` of the last reference to a valid inode without links, which is not locked and well-formed, does not
  -- panic: the entry is free, the inode on the disk has no type and no size, its blocks are free, all other
  -- entries and inodes are as before, all other blocks are in use or free as before, and what is in the
  -- blocks has not changed.
  pub iput-IsGone :
      (i : ℕ) (k : State)
      → (k.inode i).ref ≡ 1
      → (k.inode i).valid ≡ true
      → (k.inode i).nlink ≡ 0
      → k.locked i ≡ false
      → IsMapped sb (k.inode i) k.disk
      → (k' : State) × (iput sb i k ≡ some k') × IsGone sb i k k'
  unfolding iupdate
  iput-IsGone i k one valid no_link unlocked m =
      let (ip, d, e, t) = itrunc-Truncated sb (k.inode i) k.disk m in
      let (_, same_inum, same_ref) = t.same_ids in
      let gone = record ip { kind = 0 } in
      let entry = record ip { kind = 0; valid = false } in
      let k1 = record k { inode = update k.inode i entry; disk = iupdate sb gone d } in
      let at : k1.inode i ≡ entry = update_self k.inode i entry in
      let saved = update_self d.dinode ip.inum (record {
        kind = 0;
        major = ip.major;
        minor = ip.minor;
        nlink = ip.nlink;
        size = ip.size;
        addrs = ip.addrs;
      }) in
      (
        drop_ref sb i k1,
        iput_step i k k1 one valid no_link unlocked (free_inode_step i k ip d e),
        record {
          no_ref =
              ap (λ (e : Inode). e.ref)
                (update_self k1.inode i (record (k1.inode i) { ref = sub32 (k1.inode i).ref 1 }))
              ∙ ap (λ (e : Inode). sub32 e.ref 1) at
              ∙ ap (λ r. sub32 r 1) (same_ref ∙ one);
          no_type =
              ap (λ n. ((iupdate sb gone d).dinode n).kind) (sym same_inum)
              ∙ ap (λ (e : Dinode). e.kind) saved;
          no_size =
              ap (λ n. ((iupdate sb gone d).dinode n).size) (sym same_inum)
              ∙ ap (λ (e : Dinode). e.size) saved
              ∙ t.size_is;
          blocks = t.gone;
          rest = t.rest;
          contents = t.block_same;
          entries = λ j ne. update_ne k1.inode i _ j ne ∙ update_ne k.inode i entry j ne;
          inodes = λ n ne. update_ne d.dinode ip.inum _ n (λ e. ne (e ∙ same_inum)) ∙ t.others n ne;
        },
      )

  -- `ialloc` claims the first inode without a type, and gives its entry of the table.
  pub data Ialloc (dev type : ℕ) (k : State) : Option (Option ℕ × State) → Type 0 where
    none_left :
        ((n : ℕ) → 1 ≤ n → n < sb.ninodes → (k.disk.dinode n).kind ≢ 0)
        → Ialloc dev type k (some (none, k))
    claimed :
        (n i : ℕ) (k' : State)
        → 1 ≤ n
        → n < sb.ninodes
        → (k.disk.dinode n).kind ≡ 0
        → ((m : ℕ) → 1 ≤ m → m < n → (k.disk.dinode m).kind ≢ 0)
        → Iget dev n (claim sb n type k) (some (i, k'))
        → Ialloc dev type k (some (some i, k'))
    no_entry :
        (n : ℕ)
        → (k.disk.dinode n).kind ≡ 0
        → Iget dev n (claim sb n type k) none
        → Ialloc dev type k none

  claim_first :
      (dev type n : ℕ) (k : State) (r : Option (ℕ × State))
      → 1 ≤ n
      → n < sb.ninodes
      → (k.disk.dinode n).kind ≡ 0
      → ((m : ℕ) → 1 ≤ m → m < n → (k.disk.dinode m).kind ≢ 0)
      → Iget dev n (claim sb n type k) r
      → Ialloc dev type k (elim r [ none ↦ none | some (i, k1) ↦ some (some i, k1) ])
  claim_first dev type n k none from lt nil busy g = no_entry n nil g
  claim_first dev type n k (some (i, k1)) from lt nil busy g = claimed n i k1 from lt nil busy g

  ialloc_from-Ialloc :
      (rounds n dev type : ℕ) (k : State)
      → n + rounds ≡ sb.ninodes
      → 1 ≤ n
      → ((m : ℕ) → 1 ≤ m → m < n → (k.disk.dinode m).kind ≢ 0)
      → Ialloc dev type k (ialloc_from sb rounds n dev type k)
  unfolding ialloc_from
  ialloc_from-Ialloc zero n dev type k end from busy =
      none_left (λ m first lt. busy m first (omega arith))
  ialloc_from-Ialloc (suc rounds) n dev type k end from busy =
      elim (ℕ_discrete (k.disk.dinode n).kind 0) [
        | yes nil ↦
            let t : ((k.disk.dinode n).kind == 0) ≡ true = ground arith in
            rw (t, ialloc_from)
              (claim_first dev type n k (iget dev n (claim sb n type k)) from (omega arith) nil busy
                (iget-Iget dev n (claim sb n type k)))
        | no ne ↦
            let t : ((k.disk.dinode n).kind == 0) ≡ false = ground arith in
            rw (t, ialloc_from)
              (ialloc_from-Ialloc rounds (suc n) dev type k (omega arith) (omega arith)
                (λ m first lt. elim (ℕ_discrete m n) [
                  | yes same ↦ λ z. ne (sym (ap (λ m. (k.disk.dinode m).kind) same) ∙ z)
                  | no other ↦ busy m first (omega arith)
                ]))
      ]

  pub ialloc-Ialloc :
      (dev type : ℕ) (k : State) → 1 ≤ sb.ninodes → Ialloc dev type k (ialloc sb dev type k)
  unfolding ialloc
  ialloc-Ialloc dev type k some_inodes =
      ialloc_from-Ialloc (sb.ninodes - 1) 1 dev type k (omega arith) (omega arith)
        (λ m first lt. absurd (omega arith))
