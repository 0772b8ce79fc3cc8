-- ===== src/Fs/Map/Found.antt =====
-- kernel/fs.c: what the steps of `bmap` find.
use osmini_project.Base.{
  ℕ, ◌+◌, ◌-◌, ◌^◌, ◌<◌, ◌≡◌, ◌≢◌, inl, inr, refl, ap, ◌∙◌, ◌∷◌, true, false, arith, ◌==◌, update,
  ℕ_discrete,
}
use osmini_project.Fs.{Superblock, Disk, Inode, ndirect, nindirect, maxfile}
use osmini_project.Fs.Bits.{word_at, put_word}
use osmini_project.Fs.FreeMap.Search.{in_use}
use osmini_project.Fs.FreeMap.Laws.{IsTaken, balloc_cases}
use osmini_project.Fs.Map.{slot, entry}
use osmini_project.Fs.Map.Numbers.{block_of, IsMapped, Grown, fresh_nonzero}
use osmini_project.Fs.Map.Steps.{block_of-entry, entry-Grown}
use osmini_project.Fs.Map.Laws.{Extends, Extends-refl, Grown-Extends}

-- The block `addr` stands at the position `p`, or is 0 as there was none and the disk is full.
pub record Found (sb : Superblock) (p addr : ℕ) (ip : Inode) (d : Disk) (ip' : Inode) (d' : Disk)
    : Type 0 where
  pub extends : Extends sb ip d ip' d'
  pub here : addr ≢ 0 → block_of ip' d' p ≡ addr
  pub elsewhere : (c : ℕ) → c < maxfile → c ≢ p → block_of ip' d' c ≡ block_of ip d c
  pub pure : block_of ip d p ≢ 0 → (ip' ≡ ip) × (d' ≡ d)
  pub full : addr ≡ 0 → (block_of ip d p ≡ 0) × ((b : ℕ) → b < sb.size → in_use d' b ≡ true)

module _ (sb : Superblock) where
  Grown-Found :
      {p a : ℕ} {ip ip' : Inode} {d d' : Disk}
      → IsMapped sb ip d
      → Grown sb p a ip d ip' d'
      → Found sb p a ip d ip' d'
  Grown-Found m g = record {
    extends = Grown-Extends sb m g;
    here = λ _. g.here;
    elsewhere = λ c lt ne. g.elsewhere c (omega arith) ne;
    pure = λ ne. absurd (ne g.empty);
    full = λ e. absurd (fresh_nonzero sb m g e);
  }

  kept-Found :
      {ip : Inode} {d : Disk} (p addr : ℕ)
      → IsMapped sb ip d
      → block_of ip d p ≡ addr
      → addr ≢ 0
      → Found sb p addr ip d ip d
  kept-Found p addr m at ne = record {
    extends = Extends-refl sb m;
    here = λ _. at;
    elsewhere = λ _ _ _. refl;
    pure = λ _. (refl, refl);
    full = λ e. absurd (ne e);
  }

  full-Found :
      {ip : Inode} {d : Disk} (p : ℕ)
      → IsMapped sb ip d
      → block_of ip d p ≡ 0
      → ((b : ℕ) → b < sb.size → in_use d b ≡ true)
      → Found sb p 0 ip d ip d
  full-Found p m nil all = record {
    extends = Extends-refl sb m;
    here = λ ne. absurd (ne refl);
    elsewhere = λ _ _ _. refl;
    pure = λ _. (refl, refl);
    full = λ _. (nil, all);
  }

  -- `slot` on an entry `i` that is the position `p`.
  pub slot-Found :
      (i p : ℕ) (ip : Inode) (d : Disk)
      → IsMapped sb ip d
      → block_of ip d p ≡ ip.addrs i
      → ((a : ℕ) (d' : Disk)
          → ip.addrs i ≡ 0
          → a ≢ 0
          → a < sb.size
          → in_use d a ≡ false
          → IsTaken sb d a d'
          → Grown sb p a ip d (record ip { addrs = update ip.addrs i a }) d')
      → (addr : ℕ) × (ip' : Inode) × (d' : Disk) × (slot sb i ip d ≡ (addr, ip', d'))
        × Found sb p addr ip d ip' d'
  unfolding slot
  slot-Found i p ip d m at grow = elim (ℕ_discrete (ip.addrs i) 0) [
    | no ne ↦
        let there : (ip.addrs i == 0) ≡ false = ground arith in
        (ip.addrs i, ip, d, rw there, kept-Found p (ip.addrs i) m at ne)
    | yes nil ↦
        let none_yet : (ip.addrs i == 0) ≡ true = ground arith in
        elim (balloc_cases sb d m.boot) [
          | inl (e, all) ↦ (0, ip, d, rw (none_yet, e), full-Found p m (at ∙ nil) all)
          | inr (a, d', e, ne, small, free, taken) ↦
              let got : (a == 0) ≡ false = ground arith in
              (
                a,
                record ip { addrs = update ip.addrs i a },
                d',
                rw (none_yet, e, got),
                Grown-Found m (grow a d' nil ne small free taken),
              )
        ]
  ]

  -- `entry` on the entry `k` of the indirect block.
  pub entry-Found :
      (k : ℕ) (ip : Inode) (d : Disk)
      → k < nindirect
      → sb.size < 2 ^ 32
      → IsMapped sb ip d
      → ip.addrs ndirect ≢ 0
      → (addr : ℕ) × (d' : Disk) × (entry sb (ip.addrs ndirect) k d ≡ (addr, d'))
        × Found sb (ndirect + k) addr ip d ip d'
  unfolding entry
  entry-Found k ip d lt bound m some_table =
      let t = ip.addrs ndirect in
      let place : ndirect + k - ndirect ≡ k = omega arith in
      let at : block_of ip d (ndirect + k) ≡ word_at (d.block t) k =
        block_of-entry ip d (ndirect + k) (omega arith) (omega arith) some_table
        ∙ ap (word_at (d.block t)) place in
      elim (ℕ_discrete (word_at (d.block t) k) 0) [
        | no ne ↦
            let there : (word_at (d.block t) k == 0) ≡ false = ground arith in
            (word_at (d.block t) k, d, rw there, kept-Found (ndirect + k) _ m at ne)
        | yes nil ↦
            let none_yet : (word_at (d.block t) k == 0) ≡ true = ground arith in
            elim (balloc_cases sb d m.boot) [
              | inl (e, all) ↦ (0, d, rw (none_yet, e), full-Found (ndirect + k) m (at ∙ nil) all)
              | inr (a, d', e, ne, small, free, taken) ↦
                  let got : (a == 0) ≡ false = ground arith in
                  (
                    a,
                    record d' {
                      block = update d'.block t (put_word (d'.block t) k a);
                      logged = t ∷ d'.logged;
                    },
                    rw (none_yet, e, got),
                    Grown-Found m
                        (entry-Grown sb k a ip d d' lt m some_table nil small bound free taken),
                  )
            ]
      ]
