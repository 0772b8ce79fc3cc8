-- ===== src/Fs/Trunc/Whole.antt =====
-- kernel/fs.c: the file after `itrunc`.
use osmini_project.Base.{
  ℕ, suc, ◌+◌, ◌-◌, ◌≤◌, ◌<◌, ◌≡◌, ◌≢◌, inr, refl, sym, ap, ◌∙◌, true, false, ◌==◌, arith, some,
  dec_lt, ℕ_discrete, update, update_self, update_ne,
}
use osmini_project.Fs.{Disk, Inode, Dinode, Superblock, ndirect, nindirect, maxfile, iupdate}
use osmini_project.Fs.Bits.{word_at}
use osmini_project.Fs.FreeMap.{bfree}
use osmini_project.Fs.FreeMap.Search.{in_use}
use osmini_project.Fs.Map.Numbers.{block_of, IsMapped}
use osmini_project.Fs.Map.Steps.{block_of-direct, block_of-table, block_of-none, block_of-entry}
use osmini_project.Fs.Trunc.{free_direct, free_table, itrunc}
use osmini_project.Fs.Trunc.Freed.{
  Freed, Freed-trans, Freed-skip, Freed-IsUsed, bfree-Freed, IsDistinct, IsUsed,
}
use osmini_project.Fs.Trunc.Laws.{free_direct-Cleared, free_entries-Freed}

-- The blocks of the file are free, all other blocks are as before, and the file is empty, on the disk as well.
pub record Truncated (sb : Superblock) (ip : Inode) (d : Disk) (ip' : Inode) (d' : Disk)
    : Type 0 where
  pub gone : (c : ℕ) → c ≤ maxfile → block_of ip d c ≢ 0 → in_use d' (block_of ip d c) ≡ false
  pub rest :
      (b : ℕ)
      → ((c : ℕ) → c ≤ maxfile → block_of ip d c ≢ 0 → block_of ip d c ≢ b)
      → in_use d' b ≡ in_use d b
  pub block_same : d'.block ≡ d.block
  pub empty : (c : ℕ) → c ≤ maxfile → block_of ip' d' c ≡ 0
  pub mapped : IsMapped sb ip' d'
  pub size_is : ip'.size ≡ 0
  pub same_ids : (ip'.dev ≡ ip.dev) × (ip'.inum ≡ ip.inum) × (ip'.ref ≡ ip.ref)
  pub saved : (d'.dinode ip.inum).size ≡ 0
  pub others : (i : ℕ) → i ≢ ip.inum → d'.dinode i ≡ d.dinode i

module _ (sb : Superblock) where
  -- The indirect block and its entries, as `f` numbers them.
  free_table-Freed :
      (f : ℕ → ℕ) (ip : Inode) (d : Disk)
      → ip.addrs ndirect ≡ f maxfile
      → ((k : ℕ)
          → k < nindirect
          → ip.addrs ndirect ≢ 0
          → word_at (d.block (ip.addrs ndirect)) k ≡ f (ndirect + k))
      → ((c : ℕ) → ndirect ≤ c → c < maxfile → ip.addrs ndirect ≡ 0 → f c ≡ 0)
      → IsDistinct f (suc maxfile)
      → IsUsed f ndirect (suc maxfile) d
      → (a : ℕ → ℕ) × (d' : Disk) × (free_table sb ip d ≡ some (record ip { addrs = a }, d'))
        × (a ndirect ≡ 0)
        × ((c : ℕ) → c ≢ ndirect → a c ≡ ip.addrs c)
        × Freed f ndirect (suc maxfile) d d'
  unfolding free_table
  free_table-Freed f ip d at word nil distinct used = elim (ℕ_discrete (ip.addrs ndirect) 0) [
    | yes no_table ↦
        let empty : (ip.addrs ndirect == 0) ≡ true = ground arith in
        let all_nil : (c : ℕ) → ndirect ≤ c → c < suc maxfile → f c ≡ 0 = λ c first lt.
          elim (dec_lt c maxfile) [
            | yes small ↦ nil c first small no_table
            | no last ↦ let same : c ≡ maxfile = omega arith in ap f same ∙ sym at ∙ no_table
          ] in
        (ip.addrs, d, rw (empty, free_table), no_table, λ _ _. refl, Freed-skip f all_nil)
    | no table ↦
        let filled : (ip.addrs ndirect == 0) ≡ false = ground arith in
        let distinct' : IsDistinct f maxfile =
          λ c c' lt lt'. distinct c c' (omega arith) (omega arith) in
        let (d1, e1, p) =
          free_entries-Freed f sb nindirect 0 ndirect maxfile (ip.addrs ndirect) d refl
            (λ k _ lt. word k (omega arith) table) distinct'
            (λ c first lt. used c first (omega arith)) in
        let used1 = Freed-IsUsed f distinct (omega arith) used (omega arith) p in
        let (d2, e2, q) =
          bfree-Freed f sb maxfile d1 (λ z. table (at ∙ z))
            (used1 maxfile (omega arith) (omega arith) (λ z. table (at ∙ z))) in
        let e2' : bfree sb (ip.addrs ndirect) d1 ≡ some d2 = ap (λ b. bfree sb b d1) at ∙ e2 in
        (
          update ip.addrs ndirect 0,
          d2,
          rw (filled, e1, e2', free_table),
          update_self ip.addrs ndirect 0,
          λ c ne. update_ne ip.addrs ndirect 0 c ne,
          Freed-trans f distinct (omega arith) (omega arith) p q,
        )
  ]

  pub emptied :
      (ip : Inode) (d : Disk)
      → ((c : ℕ) → c < ndirect → ip.addrs c ≡ 0)
      → ip.addrs ndirect ≡ 0
      → (c : ℕ) → c ≤ maxfile
      → block_of ip d c ≡ 0
  emptied ip d direct table c le = elim (dec_lt c ndirect) [
    | yes near ↦ block_of-direct ip d c near ∙ direct c near
    | no far ↦ elim (dec_lt c maxfile) [
      | yes small ↦ block_of-none ip d c (omega arith) small table
      | no last ↦
          let same : c ≡ maxfile = omega arith in
          ap (block_of ip d) same ∙ block_of-table ip d ∙ table
    ]
  ]

  pub IsMapped-emptied :
      (ip : Inode) (d : Disk)
      → in_use d 0 ≡ true
      → ((c : ℕ) → c ≤ maxfile → block_of ip d c ≡ 0)
      → IsMapped sb ip d
  IsMapped-emptied ip d boot nil = record {
    boot = boot;
    used = λ c le ne. absurd (ne (nil c le));
    inside = λ c le ne. absurd (ne (nil c le));
    distinct = λ c _ le _ ne _. absurd (ne (nil c le));
  }

  IsDistinct-of :
      {ip : Inode} {d : Disk} → IsMapped sb ip d → IsDistinct (block_of ip d) (suc maxfile)
  IsDistinct-of m c c' lt lt' = m.distinct c c' (omega arith) (omega arith)

  -- The indirect block, after the direct ones.
  table_after :
      (ip : Inode) (d : Disk) (a : ℕ → ℕ) (d1 : Disk)
      → IsMapped sb ip d
      → a ndirect ≡ ip.addrs ndirect
      → Freed (block_of ip d) 0 ndirect d d1
      → (a' : ℕ → ℕ) × (d2 : Disk) × (free_table sb (record ip { addrs = a }) d1
          ≡ some (record ip { addrs = a' }, d2))
        × (a' ndirect ≡ 0)
        × ((c : ℕ) → c ≢ ndirect → a' c ≡ a c)
        × Freed (block_of ip d) ndirect (suc maxfile) d1 d2
  table_after ip d a d1 m table p =
      free_table-Freed (block_of ip d) (record ip { addrs = a }) d1
        (table ∙ sym (block_of-table ip d))
        (λ k lt ne.
          let place : ndirect + k - ndirect ≡ k = omega arith in
          ap (λ blk. word_at (blk (a ndirect)) k) p.block_same
          ∙ ap (λ t. word_at (d.block t) k) table
          ∙ sym (ap (word_at (d.block (ip.addrs ndirect))) place)
          ∙ sym
              (block_of-entry ip d (ndirect + k) (omega arith) (omega arith) (λ z. ne (table ∙ z))))
        (λ c first lt z. block_of-none ip d c first lt (sym table ∙ z)) (IsDistinct-of m)
        (Freed-IsUsed (block_of ip d) (IsDistinct-of m) (omega arith)
          (λ c _ lt. m.used c (omega arith)) (omega arith) p)

  Freed-Truncated :
      (ip : Inode) (d : Disk) (a : ℕ → ℕ) (d' : Disk)
      → IsMapped sb ip d
      → Freed (block_of ip d) 0 (suc maxfile) d d'
      → ((c : ℕ) → c ≤ ndirect → a c ≡ 0)
      → let ip' = record ip { addrs = a; size = 0 } in Truncated sb ip d ip' (iupdate sb ip' d')
  unfolding iupdate
  Freed-Truncated ip d a d' m p nil =
      let ip' = record ip { addrs = a; size = 0 } in
      let d'' = iupdate sb ip' d' in
      let empty = emptied ip' d'' (λ c lt. nil c (omega arith)) (nil ndirect (omega arith)) in
      let rest : (b : ℕ)
          → ((c : ℕ) → c ≤ maxfile → block_of ip d c ≢ 0 → block_of ip d c ≢ b)
          → in_use d'' b ≡ in_use d b =
        λ b out. p.rest b (λ c _ lt. out c (omega arith)) in
      record {
        gone = λ c le. p.gone c (omega arith) (omega arith);
        rest = rest;
        block_same = p.block_same;
        empty = empty;
        mapped = IsMapped-emptied ip' d'' (rest 0 (λ c le ne. ne) ∙ m.boot) empty;
        size_is = refl;
        same_ids = (refl, refl, refl);
        saved = ap (λ (e : Dinode). e.size) (update_self d'.dinode ip.inum _);
        others = λ i ne. update_ne d'.dinode ip.inum _ i ne ∙ ap (λ g. g i) p.dinode_same;
      }

  itrunc_steps :
      (ip : Inode) (d : Disk) {ip1 ip2 : Inode} {d1 d2 : Disk}
      → free_direct sb ndirect 0 ip d ≡ some (ip1, d1)
      → free_table sb ip1 d1 ≡ some (ip2, d2)
      → itrunc sb ip d ≡ some (record ip2 { size = 0 }, iupdate sb (record ip2 { size = 0 }) d2)
  unfolding itrunc
  itrunc_steps ip d e1 e2 = rw (e1, itrunc) (rw (e2, itrunc))

  -- `itrunc` does not panic.
  pub itrunc-Truncated :
      (ip : Inode) (d : Disk)
      → IsMapped sb ip d
      → (ip' : Inode) × (d' : Disk) × (itrunc sb ip d ≡ some (ip', d')) × Truncated sb ip d ip' d'
  itrunc-Truncated ip d m =
      let (a1, d1, e1, w) =
        free_direct-Cleared (block_of ip d) sb ndirect 0 ndirect ip d refl
          (λ c _ lt. sym (block_of-direct ip d c lt))
          (λ c c' lt lt'. m.distinct c c' (omega arith) (omega arith))
          (λ c _ lt. m.used c (omega arith)) in
      let (a2, d2, e2, nil, same, p) =
        table_after ip d a1 d1 m (w.outside ndirect (inr (omega arith))) w.freed in
      let ip' = record ip { addrs = a2; size = 0 } in
      (
        ip',
        iupdate sb ip' d2,
        itrunc_steps ip d e1 e2,
        Freed-Truncated ip d a2 d2 m
            (Freed-trans (block_of ip d) (IsDistinct-of m) (omega arith) (omega arith) w.freed p)
            (λ c le. elim (ℕ_discrete c ndirect) [
              | yes last ↦ ap a2 last ∙ nil
              | no ne ↦ same c ne ∙ w.inside c (omega arith) (omega arith)
            ]),
      )
