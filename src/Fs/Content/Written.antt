-- ===== src/Fs/Content/Written.antt =====
-- kernel/fs.c: what `writei` returns and leaves.
use osmini_project.Base.{
  ℕ, suc, ◌+◌, ◌-◌, ◌*◌, ◌/◌, ◌%◌, ◌^◌, ◌≤◌, ◌<◌, ◌≡◌, ◌≢◌, ◌⊎◌, inl, inr, refl, sym, ap, ◌∙◌, true,
  false, if◌then◌else◌, arith, none, some, subst, ltb, Bool-cases, update_self, update_ne, ◌||◌,
}
use osmini_project.Fs.{Disk, Inode, Dinode, Superblock, bsize, maxfile, iupdate}
use osmini_project.Fs.FreeMap.Search.{in_use}
use osmini_project.Fs.Map.Numbers.{block_of, IsMapped}
use osmini_project.Fs.Map.Laws.{IsForeign}
use osmini_project.Fs.Content.{Mem, writei}
use osmini_project.Fs.Content.Copy.{IsMappedAt}
use osmini_project.Fs.Content.Progress.{byte, Progress}
use osmini_project.Fs.Content.Write.{IsFull, Wrote, write_loop-Wrote}

abbrev pub grown_size : (size end : ℕ) → ℕ
grown_size size end = if ltb size end then end else size

-- The inode and the disk after `writei` has written `tot` of `n` bytes at `off`.
pub record Written (sb : Superblock) (mem : Mem) (sa off n : ℕ) (ip : Inode) (d : Disk) (tot : ℕ)
    (ip' : Inode) (d' : Disk) : Type 0 where
  pub most : tot ≤ n
  pub inside : (o : ℕ) → off ≤ o → o < off + tot → mem (sa + (o - off)) ≡ some (byte ip' d' o)
  pub outside :
      (o : ℕ) → o < maxfile * bsize → (o < off) ⊎ (off + n ≤ o) → byte ip' d' o ≡ byte ip d o
  pub filled : (o : ℕ) → off ≤ o → o < off + tot → block_of ip' d' (o / bsize) ≢ 0
  pub size_is : ip'.size ≡ grown_size ip.size (off + tot)
  pub complete : IsMappedAt mem sa n → (tot ≡ n) ⊎ IsFull sb d'
  pub mapped : IsMapped sb ip' d'
  pub kept : (c : ℕ) → c ≤ maxfile → block_of ip d c ≢ 0 → block_of ip' d' c ≡ block_of ip d c
  pub kind_same : ip'.kind ≡ ip.kind
  pub dev_same : ip'.dev ≡ ip.dev
  pub foreign : (b : ℕ) → in_use d b ≡ true → IsForeign ip d b → d'.block b ≡ d.block b
  pub saved : ((d'.dinode ip.inum).size ≡ ip'.size) × ((d'.dinode ip.inum).addrs ≡ ip'.addrs)
  pub others : (i : ℕ) → i ≢ ip.inum → d'.dinode i ≡ d.dinode i

module _ (sb : Superblock) where
  -- Neither the size nor the copy of the inode on the disk counts for the blocks of the file.
  IsMapped-iupdate :
      (ip ip0 : Inode) (d : Disk) (s : ℕ)
      → IsMapped sb ip d
      → IsMapped sb (record ip { size = s }) (iupdate sb ip0 d)
  unfolding block_of iupdate
  IsMapped-iupdate ip ip0 d s m = record {
    boot = m.boot;
    used = m.used;
    inside = m.inside;
    distinct = m.distinct;
  }

  byte-iupdate :
      (ip ip0 : Inode) (d : Disk) (s o : ℕ)
      → byte (record ip { size = s }) (iupdate sb ip0 d) o ≡ byte ip d o
  unfolding byte block_of iupdate
  byte-iupdate ip ip0 d s o = refl

  block_of-iupdate :
      (ip ip0 : Inode) (d : Disk) (s c : ℕ)
      → block_of (record ip { size = s }) (iupdate sb ip0 d) c ≡ block_of ip d c
  unfolding block_of iupdate
  block_of-iupdate ip ip0 d s c = refl

  Wrote-Written :
      (mem : Mem) (sa off n : ℕ) (ip : Inode) (d : Disk) (tot off' : ℕ) (ip' : Inode) (d' : Disk)
      → Wrote sb mem n 0 off sa ip d tot off' ip' d'
      → let ip'' = record ip' { size = grown_size ip'.size off' } in
        Written sb mem sa off n ip d tot ip'' (iupdate sb ip'' d')
  unfolding iupdate
  Wrote-Written mem sa off n ip d tot off' ip' d' w =
      let s = grown_size ip'.size off' in
      let ip'' = record ip' { size = s } in
      let whole : n - 0 ≡ n = omega arith in
      let part : tot - 0 ≡ tot = omega arith in
      let p =
        subst (λ k. Progress sb mem sa off k n ip d ip' d') part
          (subst (λ k. Progress sb mem sa off (tot - 0) k ip d ip' d') whole w.progress) in
      let inum = p.keeps.inum_same in
      record {
        most = w.most;
        inside = λ o from lt. p.inside o from lt ∙ ap some (sym (byte-iupdate ip' ip'' d' s o));
        outside = λ o lt out. byte-iupdate ip' ip'' d' s o ∙ p.outside o lt out;
        filled = λ o from lt z.
            p.filled o from lt (sym (block_of-iupdate ip' ip'' d' s (o / bsize)) ∙ z);
        size_is =
            ap (λ k. grown_size k off') p.keeps.size_same
            ∙ ap (grown_size ip.size) (w.off_is ∙ ap (λ k. off + k) part);
        complete = λ all. w.complete (subst (IsMappedAt mem sa) (sym whole) all);
        mapped = IsMapped-iupdate ip' ip'' d' s p.keeps.mapped;
        kept = λ c le ne. block_of-iupdate ip' ip'' d' s c ∙ p.keeps.kept c le ne;
        kind_same = p.keeps.kind_same;
        dev_same = p.keeps.dev_same;
        foreign = λ b u f. (p.keeps.foreign b u f).1;
        saved =
            let at = update_self d'.dinode ip'.inum (record {
              kind = ip'.kind;
              major = ip'.major;
              minor = ip'.minor;
              nlink = ip'.nlink;
              size = s;
              addrs = ip'.addrs;
            }) in
            subst
              (λ i.
                (((iupdate sb ip'' d').dinode i).size ≡ s)
                × (((iupdate sb ip'' d').dinode i).addrs ≡ ip'.addrs))
              inum (ap (λ (e : Dinode). e.size) at, ap (λ (e : Dinode). e.addrs) at);
        others = λ i ne.
            update_ne d'.dinode ip'.inum _ i (λ e. ne (e ∙ inum))
            ∙ ap (λ f. f i) p.keeps.dinode_same;
      }

  resize :
      (ip : Inode) (off : ℕ)
      → (if ltb ip.size off then record ip { size = off } else ip)
        ≡ record ip { size = grown_size ip.size off }
  resize ip off = elim (Bool-cases (ltb ip.size off)) [ inl e ↦ rw e | inr e ↦ rw e ]

  pub writei-Written :
      (mem : Mem) (sa off n : ℕ) (ip : Inode) (d : Disk)
      → off ≤ ip.size
      → off + n ≤ maxfile * bsize
      → sb.size < 2 ^ 32
      → IsMapped sb ip d
      → (tot : ℕ) × (ip' : Inode) × (d' : Disk) × (writei sb mem sa off n ip d
          ≡ some (some tot, ip', d'))
        × Written sb mem sa off n ip d tot ip' d'
  unfolding writei
  writei-Written mem sa off n ip d le room bound m =
      let (tot, off', ip', d', e, w) =
        write_loop-Wrote sb mem n (suc n) 0 off sa ip d (omega arith) (omega arith) (omega arith)
          bound m in
      let ip'' = record ip' { size = grown_size ip'.size off' } in
      let start : (ltb ip.size off || ltb ((off + n) % 2 ^ 32) off) ≡ false = ground arith in
      let end : ltb (maxfile * bsize) ((off + n) % 2 ^ 32) ≡ false = ground arith in
      (
        tot,
        ip'',
        iupdate sb ip'' d',
        rw (start, end, e, resize ip' off'),
        Wrote-Written mem sa off n ip d tot off' ip' d' w,
      )

  -- `writei` elsewhere writes nothing.
  pub writei-eq-none :
      (mem : Mem) (sa off n : ℕ) (ip : Inode) (d : Disk)
      → off < 2 ^ 32
      → n < 2 ^ 32
      → (ip.size < off) ⊎ (maxfile * bsize < off + n)
      → writei sb mem sa off n ip d ≡ some (none, ip, d)
  unfolding writei
  writei-eq-none mem sa off n ip d lt lt' out =
      elim (Bool-cases (ltb ip.size off || ltb ((off + n) % 2 ^ 32) off)) [
        | inl start ↦ rw start
        | inr start ↦
            let end : ltb (maxfile * bsize) ((off + n) % 2 ^ 32) ≡ true = ground arith in
            rw (start, end)
      ]
