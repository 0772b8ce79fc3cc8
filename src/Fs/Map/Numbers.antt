-- ===== src/Fs/Map/Numbers.antt =====
-- kernel/fs.c: the numbers of the blocks of a file, and their invariant.
use osmini_project.Base.{
  ℕ, ◌-◌, ◌≤◌, ◌<◌, ◌≡◌, ◌≢◌, inl, inr, sym, ap, ◌∙◌, true, false, arith, ◌==◌, ltb, if◌then◌else◌,
  Bool-cases, ℕ_discrete,
}
use osmini_project.Fs.{Superblock, Disk, Inode, zero_block, ndirect, maxfile}
use osmini_project.Fs.Bits.{word_at}
use osmini_project.Fs.FreeMap.Search.{used_not_free, in_use}

-- The block of the disk at the position `c` of a file, or 0; the position after the last is the indirect
-- block itself.
unfoldable pub block_of : Inode → Disk → ℕ → ℕ
block_of ip d c =
    if ltb c ndirect
    then ip.addrs c
    else if c == maxfile
    then ip.addrs ndirect
    else if ip.addrs ndirect == 0
    then 0
    else word_at (d.block (ip.addrs ndirect)) (c - ndirect)

-- The blocks of a file are in use, and stand at one position each. Block 0 is never free.
pub record IsMapped (sb : Superblock) (ip : Inode) (d : Disk) : Type 0 where
  pub boot : in_use d 0 ≡ true
  pub used : (c : ℕ) → c ≤ maxfile → block_of ip d c ≢ 0 → in_use d (block_of ip d c) ≡ true
  pub inside : (c : ℕ) → c ≤ maxfile → block_of ip d c ≢ 0 → block_of ip d c < sb.size
  pub distinct :
      (c c' : ℕ)
      → c ≤ maxfile
      → c' ≤ maxfile
      → block_of ip d c ≢ 0
      → block_of ip d c ≡ block_of ip d c'
      → c ≡ c'

-- A free block `a` is put at the empty position `p`.
pub record Grown (sb : Superblock) (p a : ℕ) (ip : Inode) (d : Disk) (ip' : Inode) (d' : Disk)
    : Type 0 where
  pub empty : block_of ip d p ≡ 0
  pub fresh : in_use d a ≡ false
  pub small : a < sb.size
  pub map_is : (b : ℕ) → in_use d' b ≡ (if b == a then true else in_use d b)
  pub place : p ≤ maxfile
  pub here : block_of ip' d' p ≡ a
  pub elsewhere : (c : ℕ) → c ≤ maxfile → c ≢ p → block_of ip' d' c ≡ block_of ip d c
  pub zeroed : d'.block a ≡ zero_block
  pub others : (b : ℕ) → b ≢ a → b ≢ block_of ip d maxfile → d'.block b ≡ d.block b
  pub size_same : ip'.size ≡ ip.size
  pub inum_same : ip'.inum ≡ ip.inum
  pub kind_same : ip'.kind ≡ ip.kind
  pub dev_same : ip'.dev ≡ ip.dev
  pub dinode_same : d'.dinode ≡ d.dinode

module _ (sb : Superblock) where
  not_mine :
      {p a : ℕ} {ip ip' : Inode} {d d' : Disk}
      → IsMapped sb ip d
      → Grown sb p a ip d ip' d'
      → (c : ℕ) → c ≤ maxfile
      → block_of ip d c ≡ a
      → block_of ip d c ≡ 0
  not_mine {d = d} m g c le e = elim (ℕ_discrete (block_of _ d c) 0) [
    | yes none_yet ↦ none_yet
    | no ne ↦ absurd (used_not_free d (m.used c le ne) g.fresh e)
  ]

  pub fresh_nonzero :
      {p a : ℕ} {ip ip' : Inode} {d d' : Disk} → IsMapped sb ip d → Grown sb p a ip d ip' d' → a ≢ 0
  fresh_nonzero {d = d} m g e = used_not_free d m.boot g.fresh (sym e)

  pub still_used :
      {p a : ℕ} {ip ip' : Inode} {d d' : Disk}
      → Grown sb p a ip d ip' d'
      → (b : ℕ) → in_use d b ≡ true
      → in_use d' b ≡ true
  still_used {a = a} g b u = elim (Bool-cases (b == a)) [
    | inl same ↦ rw (g.map_is b, same)
    | inr other ↦ rw (g.map_is b, other, u)
  ]

  pub Grown-IsMapped :
      {p a : ℕ} {ip ip' : Inode} {d d' : Disk}
      → IsMapped sb ip d
      → Grown sb p a ip d ip' d'
      → IsMapped sb ip' d'
  Grown-IsMapped {p} {a} {ip} {ip'} {d} {d'} m g = record {
    boot = still_used g 0 m.boot;
    used = λ c le ne. elim (ℕ_discrete c p) [
      | yes same ↦
          let at : block_of ip' d' c ≡ a = ap (block_of ip' d') same ∙ g.here in
          let own : (a == a) ≡ true = ground arith in rw at (g.map_is a ∙ rw own)
      | no other ↦
          let at = g.elsewhere c le other in
          rw at (still_used g (block_of ip d c) (m.used c le (λ z. ne (at ∙ z))))
    ];
    inside = λ c le ne. elim (ℕ_discrete c p) [
      | yes same ↦ rw (ap (block_of ip' d') same ∙ g.here) g.small
      | no other ↦ let at = g.elsewhere c le other in rw at (m.inside c le (λ z. ne (at ∙ z)))
    ];
    distinct = λ c c' le le' ne e. elim (ℕ_discrete c p) [
      | yes same ↦ elim (ℕ_discrete c' p) [
        | yes same' ↦ same ∙ sym same'
        | no other' ↦
            let mine : block_of ip d c' ≡ a =
              sym (g.elsewhere c' le' other') ∙ sym e ∙ ap (block_of ip' d') same ∙ g.here in
            absurd (fresh_nonzero m g (sym mine ∙ not_mine m g c' le' mine))
      ]
      | no other ↦
          let at = g.elsewhere c le other in
          elim (ℕ_discrete c' p) [
            | yes same' ↦
                let mine : block_of ip d c ≡ a = sym at ∙ e ∙ ap (block_of ip' d') same' ∙ g.here in
                absurd (fresh_nonzero m g (sym mine ∙ not_mine m g c le mine))
            | no other' ↦
                m.distinct c c' le le' (λ z. ne (at ∙ z)) (sym at ∙ e ∙ g.elsewhere c' le' other')
          ]
    ];
  }
