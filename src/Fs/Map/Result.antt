-- ===== src/Fs/Map/Result.antt =====
-- kernel/fs.c: what `bmap` returns.
use osmini_project.Base.{
  ℕ, ◌+◌, ◌-◌, ◌^◌, ◌≤◌, ◌<◌, ◌≡◌, ◌≢◌, refl, sym, ap, ◌∙◌, subst, true, false, some, arith, ◌==◌,
  ltb, ℕ_discrete, dec_lt,
}
use osmini_project.Fs.{Superblock, Disk, Inode, ndirect, nindirect, maxfile}
use osmini_project.Fs.Map.{slot, entry, bmap}
use osmini_project.Fs.Map.Numbers.{block_of, IsMapped}
use osmini_project.Fs.Map.Steps.{
  block_of-direct, block_of-table, block_of-none, slot-Grown, table-Grown,
}
use osmini_project.Fs.Map.Laws.{Extends-trans}
use osmini_project.Fs.Map.Found.{Found, slot-Found, entry-Found}

module _ (sb : Superblock) where
  -- A position after the direct ones is empty without an indirect block.
  table_nonzero :
      (ip : Inode) (d : Disk) (p : ℕ)
      → ndirect ≤ p
      → p < maxfile
      → block_of ip d p ≢ 0
      → block_of ip d maxfile ≢ 0
  table_nonzero ip d p le lt ne z = ne (block_of-none ip d p le lt (sym (block_of-table ip d) ∙ z))

  -- Two steps, of which the second is at the position.
  Found-after :
      {p t addr : ℕ} {ip ip' ip'' : Inode} {d d' d'' : Disk}
      → ndirect ≤ p
      → p < maxfile
      → Found sb maxfile t ip d ip' d'
      → Found sb p addr ip' d' ip'' d''
      → Found sb p addr ip d ip'' d''
  Found-after {p} {ip = ip} {d = d} le lt f g = record {
    extends = Extends-trans sb f.extends g.extends;
    here = g.here;
    elsewhere =
        λ c small ne. g.elsewhere c small ne ∙ f.elsewhere c small (λ e. absurd (omega arith));
    pure = λ ne.
        let (same_ip, same_d) = f.pure (table_nonzero ip d p le lt ne) in
        let kept = f.extends.keeps.kept p (omega arith) ne in
        let (same_ip', same_d') = g.pure (λ z. ne (sym kept ∙ z)) in
        (same_ip' ∙ same_ip, same_d' ∙ same_d);
    full = λ z.
        let (nil, all) = g.full z in
        (sym (f.elsewhere p lt (λ e. absurd (omega arith))) ∙ nil, all);
  }

  -- With no room for the indirect block there is none for its entries.
  Found-none :
      {p : ℕ} {ip ip' : Inode} {d d' : Disk}
      → ndirect ≤ p
      → p < maxfile
      → Found sb maxfile 0 ip d ip' d'
      → Found sb p 0 ip d ip' d'
  Found-none {p} {ip} {ip'} {d} {d'} le lt f =
      let (nil, all) = f.full refl in
      record {
        extends = f.extends;
        here = λ ne. absurd (ne refl);
        elsewhere = λ c small ne. f.elsewhere c small (λ e. absurd (omega arith));
        pure = λ ne. f.pure (table_nonzero ip d p le lt ne);
        full = λ _. (block_of-none ip d p le lt (sym (block_of-table ip d) ∙ nil), all);
      }

  bmap-indirect :
      (ip : Inode) (d : Disk) {bn t addr : ℕ} {ip1 : Inode} {d1 d2 : Disk}
      → ndirect ≤ bn
      → bn < maxfile
      → slot sb ndirect ip d ≡ (t, ip1, d1)
      → t ≢ 0
      → entry sb t (bn - ndirect) d1 ≡ (addr, d2)
      → bmap sb bn ip d ≡ some (addr, ip1, d2)
  unfolding bmap
  bmap-indirect ip d {bn} {t} le lt e ne e2 =
      let direct : ltb bn ndirect ≡ false = ground arith in
      let indirect : ltb (bn - ndirect) nindirect ≡ true = ground arith in
      let got : (t == 0) ≡ false = ground arith in rw (direct, indirect, e, got, e2)

  bmap-no_table :
      (ip : Inode) (d : Disk) {bn t : ℕ} {ip1 : Inode} {d1 : Disk}
      → ndirect ≤ bn
      → bn < maxfile
      → slot sb ndirect ip d ≡ (t, ip1, d1)
      → t ≡ 0
      → bmap sb bn ip d ≡ some (0, ip1, d1)
  unfolding bmap
  bmap-no_table ip d {bn} {t} le lt e z =
      let direct : ltb bn ndirect ≡ false = ground arith in
      let indirect : ltb (bn - ndirect) nindirect ≡ true = ground arith in
      let none_yet : (t == 0) ≡ true = ground arith in rw (direct, indirect, e, none_yet)

  -- A block number below MAXFILE gets its block, or 0 when the disk is full.
  pub bmap-Found :
      (bn : ℕ) (ip : Inode) (d : Disk)
      → bn < maxfile
      → sb.size < 2 ^ 32
      → IsMapped sb ip d
      → (addr : ℕ) × (ip' : Inode) × (d' : Disk) × (bmap sb bn ip d ≡ some (addr, ip', d'))
        × Found sb bn addr ip d ip' d'
  unfolding bmap
  bmap-Found bn ip d lt bound m = elim (dec_lt bn ndirect) [
    | yes near ↦
        let direct : ltb bn ndirect ≡ true = ground arith in
        let (addr, ip', d', e, found) =
          slot-Found sb bn bn ip d m (block_of-direct ip d bn near) (λ a d' nil _ small free taken.
            slot-Grown sb bn a ip d d' near m nil small free taken) in
        (addr, ip', d', rw (direct, e), found)
    | no far ↦
        let (t, ip1, d1, e, found) =
          slot-Found sb ndirect maxfile ip d m (block_of-table ip d)
            (λ a d' nil ne small free taken. table-Grown sb a ip d d' m nil ne small free taken) in
        elim (ℕ_discrete t 0) [
          | yes nil ↦ (
            0,
            ip1,
            d1,
            bmap-no_table ip d (omega arith) lt e nil,
            Found-none (omega arith) lt (subst (λ t. Found sb maxfile t ip d ip1 d1) nil found),
          )
          | no ne ↦
              let table : ip1.addrs ndirect ≡ t = sym (block_of-table ip1 d1) ∙ found.here ne in
              let (addr, d2, e2, found2) =
                entry-Found sb (bn - ndirect) ip1 d1 (omega arith) bound found.extends.keeps.mapped
                  (λ z. ne (sym table ∙ z)) in
              let place : ndirect + (bn - ndirect) ≡ bn = omega arith in
              (
                addr,
                ip1,
                d2,
                bmap-indirect ip d (omega arith) lt e ne
                    (sym (ap (λ t. entry sb t (bn - ndirect) d1) table) ∙ e2),
                Found-after (omega arith) lt found
                    (subst (λ p. Found sb p addr ip1 d1 ip1 d2) place found2),
              )
        ]
  ]
