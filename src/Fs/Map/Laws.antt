-- ===== src/Fs/Map/Laws.antt =====
-- kernel/fs.c: `bmap` gives a block its place in the file, and changes nothing that is read from it.
use osmini_project.Base.{
  ℕ, ◌≤◌, ◌<◌, ◌≡◌, ◌≢◌, refl, sym, ap, ◌∙◌, true, false, arith, ◌==◌, if◌then◌else◌, ℕ_discrete,
}
use osmini_project.Fs.{Superblock, Disk, Inode, maxfile}
use osmini_project.Fs.FreeMap.Search.{used_not_free, in_use}
use osmini_project.Fs.Map.Numbers.{
  block_of, IsMapped, Grown, Grown-IsMapped, fresh_nonzero, still_used,
}

-- Byte `o` of block `c` of a file: a hole reads as zeroes.
abbrev pub content : Inode → Disk → (c o : ℕ) → ℕ
content ip d c o = if block_of ip d c == 0 then 0 else d.block (block_of ip d c) o

abbrev pub IsForeign : Inode → Disk → ℕ → Type 0
IsForeign ip d b = (c : ℕ) → c ≤ maxfile → block_of ip d c ≢ b

-- The file is well-formed, its other fields and the other files are as before.
pub record Keeps (sb : Superblock) (ip : Inode) (d : Disk) (ip' : Inode) (d' : Disk) : Type 0 where
  pub mapped : IsMapped sb ip' d'
  pub kept : (c : ℕ) → c ≤ maxfile → block_of ip d c ≢ 0 → block_of ip' d' c ≡ block_of ip d c
  pub used : (b : ℕ) → in_use d b ≡ true → in_use d' b ≡ true
  pub foreign :
      (b : ℕ) → in_use d b ≡ true → IsForeign ip d b → IsForeign ip' d' b × (d'.block b ≡ d.block b)
  pub size_same : ip'.size ≡ ip.size
  pub inum_same : ip'.inum ≡ ip.inum
  pub kind_same : ip'.kind ≡ ip.kind
  pub dev_same : ip'.dev ≡ ip.dev
  pub dinode_same : d'.dinode ≡ d.dinode

-- Blocks may have been added to the file; what is read from it is as before.
pub record Extends (sb : Superblock) (ip : Inode) (d : Disk) (ip' : Inode) (d' : Disk)
    : Type 0 where
  pub keeps : Keeps sb ip d ip' d'
  pub bytes : (c : ℕ) → c < maxfile → (o : ℕ) → content ip' d' c o ≡ content ip d c o

module _ (sb : Superblock) where
  pub Keeps-refl : {ip : Inode} {d : Disk} → IsMapped sb ip d → Keeps sb ip d ip d
  Keeps-refl m = record {
    mapped = m;
    kept = λ _ _ _. refl;
    used = λ _ u. u;
    foreign = λ _ _ f. (f, refl);
    size_same = refl;
    inum_same = refl;
    kind_same = refl;
    dev_same = refl;
    dinode_same = refl;
  }

  pub Keeps-trans :
      {ip ip' ip'' : Inode} {d d' d'' : Disk}
      → Keeps sb ip d ip' d'
      → Keeps sb ip' d' ip'' d''
      → Keeps sb ip d ip'' d''
  Keeps-trans e e' = record {
    mapped = e'.mapped;
    kept = λ c le ne. let first = e.kept c le ne in e'.kept c le (λ z. ne (sym first ∙ z)) ∙ first;
    used = λ b u. e'.used b (e.used b u);
    foreign = λ b u f.
        let (f', same) = e.foreign b u f in
        let (f'', same') = e'.foreign b (e.used b u) f' in (f'', same' ∙ same);
    size_same = e'.size_same ∙ e.size_same;
    inum_same = e'.inum_same ∙ e.inum_same;
    kind_same = e'.kind_same ∙ e.kind_same;
    dev_same = e'.dev_same ∙ e.dev_same;
    dinode_same = e'.dinode_same ∙ e.dinode_same;
  }

  pub Extends-refl : {ip : Inode} {d : Disk} → IsMapped sb ip d → Extends sb ip d ip d
  Extends-refl m = record { keeps = Keeps-refl m; bytes = λ _ _ _. refl }

  pub Extends-trans :
      {ip ip' ip'' : Inode} {d d' d'' : Disk}
      → Extends sb ip d ip' d'
      → Extends sb ip' d' ip'' d''
      → Extends sb ip d ip'' d''
  Extends-trans {ip} {ip'} {ip''} {d} {d'} {d''} e e' = record {
    keeps = Keeps-trans e.keeps e'.keeps;
    bytes = λ c lt o. e'.bytes c lt o ∙ e.bytes c lt o;
  }

  Grown-bytes :
      {p a : ℕ} {ip ip' : Inode} {d d' : Disk}
      → IsMapped sb ip d
      → Grown sb p a ip d ip' d'
      → (c : ℕ) → c < maxfile
      → (o : ℕ) → content ip' d' c o ≡ content ip d c o
  Grown-bytes {p} {a} {ip} {ip'} {d} {d'} m g c lt o = elim (ℕ_discrete c p) [
    | yes same ↦
        let at : block_of ip' d' c ≡ a = ap (block_of ip' d') same ∙ g.here in
        let nil : block_of ip d c ≡ 0 = ap (block_of ip d) same ∙ g.empty in
        let filled : (a == 0) ≡ false = let ne = fresh_nonzero sb m g in ground arith in
        rw (at, nil, filled) (ap (λ blk. blk o) g.zeroed)
    | no ne ↦
        let at = g.elsewhere c (omega arith) ne in
        elim (ℕ_discrete (block_of ip d c) 0) [
          | yes nil ↦ rw (at, nil)
          | no some_block ↦
              let apart : block_of ip d c ≢ a =
                used_not_free d (m.used c (omega arith) some_block) g.fresh in
              let not_table : block_of ip d c ≢ block_of ip d maxfile = λ e.
                (let last = m.distinct c maxfile (omega arith) (omega arith) some_block e in
                  absurd (omega arith)) in
              rw (at, g.others (block_of ip d c) apart not_table)
        ]
  ]

  Grown-Keeps :
      {p a : ℕ} {ip ip' : Inode} {d d' : Disk}
      → IsMapped sb ip d
      → Grown sb p a ip d ip' d'
      → Keeps sb ip d ip' d'
  Grown-Keeps {p} {a} {ip} {ip'} {d} {d'} m g = record {
    mapped = Grown-IsMapped sb m g;
    kept = λ c le ne. g.elsewhere c le (λ e. ne (ap (block_of ip d) e ∙ g.empty));
    used = still_used sb g;
    foreign = λ b u f.
        let apart : b ≢ a = used_not_free d u g.fresh in
        (
          λ c le e. elim (ℕ_discrete c p) [
            | yes same ↦ apart (sym e ∙ ap (block_of ip' d') same ∙ g.here)
            | no ne ↦ f c le (sym (g.elsewhere c le ne) ∙ e)
          ],
          g.others b apart (λ e. f maxfile (omega arith) (sym e)),
        );
    size_same = g.size_same;
    inum_same = g.inum_same;
    kind_same = g.kind_same;
    dev_same = g.dev_same;
    dinode_same = g.dinode_same;
  }

  pub Grown-Extends :
      {p a : ℕ} {ip ip' : Inode} {d d' : Disk}
      → IsMapped sb ip d
      → Grown sb p a ip d ip' d'
      → Extends sb ip d ip' d'
  Grown-Extends m g = record { keeps = Grown-Keeps m g; bytes = Grown-bytes m g }
