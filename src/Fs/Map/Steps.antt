-- ===== src/Fs/Map/Steps.antt =====
-- kernel/fs.c: an entry of `ip->addrs` or of the indirect block is kept, or a free block is put there.
use osmini_project.Base.{
  ℕ, ◌+◌, ◌-◌, ◌^◌, ◌≤◌, ◌<◌, ◌≡◌, ◌≢◌, refl, sym, ap, ◌∙◌, ◌∷◌, true, false, arith, ◌==◌, ltb,
  if◌then◌else◌, update, update_self, update_ne, ℕ_discrete, dec_lt,
}
use osmini_project.Fs.{Superblock, Disk, Inode, zero_block, ndirect, nindirect, maxfile}
use osmini_project.Fs.Bits.{word_at, put_word, word_at-put_word}
use osmini_project.Fs.FreeMap.Search.{used_not_free, in_use}
use osmini_project.Fs.FreeMap.Laws.{IsTaken}
use osmini_project.Fs.Map.Numbers.{block_of, IsMapped, Grown}

pub block_of-direct : (ip : Inode) (d : Disk) (c : ℕ) → c < ndirect → block_of ip d c ≡ ip.addrs c
unfolding block_of
block_of-direct ip d c lt = let near : ltb c ndirect ≡ true = ground arith in rw near

pub block_of-table : (ip : Inode) (d : Disk) → block_of ip d maxfile ≡ ip.addrs ndirect
unfolding block_of
block_of-table ip d = refl

pub block_of-none :
    (ip : Inode) (d : Disk) (c : ℕ)
    → ndirect ≤ c
    → c < maxfile
    → ip.addrs ndirect ≡ 0
    → block_of ip d c ≡ 0
unfolding block_of
block_of-none ip d c le lt e =
    let far : ltb c ndirect ≡ false = ground arith in
    let other : (c == maxfile) ≡ false = ground arith in
    let nil : (ip.addrs ndirect == 0) ≡ true = ground arith in rw (far, other, nil)

pub block_of-entry :
    (ip : Inode) (d : Disk) (c : ℕ)
    → ndirect ≤ c
    → c < maxfile
    → ip.addrs ndirect ≢ 0
    → block_of ip d c ≡ word_at (d.block (ip.addrs ndirect)) (c - ndirect)
unfolding block_of
block_of-entry ip d c le lt ne =
    let far : ltb c ndirect ≡ false = ground arith in
    let other : (c == maxfile) ≡ false = ground arith in
    let some_table : (ip.addrs ndirect == 0) ≡ false = ground arith in rw (far, other, some_table)

-- A position keeps its number when what it is read from keeps its value.
pub block_of-agree :
    (ip ip' : Inode) (d d' : Disk) (c : ℕ)
    → c ≤ maxfile
    → (c < ndirect → ip'.addrs c ≡ ip.addrs c)
    → (ndirect ≤ c → ip'.addrs ndirect ≡ ip.addrs ndirect)
    → (ip.addrs ndirect ≢ 0
        → word_at (d'.block (ip.addrs ndirect)) (c - ndirect)
          ≡ word_at (d.block (ip.addrs ndirect)) (c - ndirect))
    → block_of ip' d' c ≡ block_of ip d c
block_of-agree ip ip' d d' c le direct table word = elim (dec_lt c ndirect) [
  | yes near ↦ block_of-direct ip' d' c near ∙ direct near ∙ sym (block_of-direct ip d c near)
  | no far ↦ elim (dec_lt c maxfile) [
    | no last ↦
        let end : c ≡ maxfile = omega arith in
        let same = table (omega arith) in rw (end, block_of-table ip d, block_of-table ip' d', same)
    | yes inside ↦
        let same = table (omega arith) in
        elim (ℕ_discrete (ip.addrs ndirect) 0) [
          | yes nil ↦
              block_of-none ip' d' c (omega arith) inside (same ∙ nil)
              ∙ sym (block_of-none ip d c (omega arith) inside nil)
          | no ne ↦
              block_of-entry ip' d' c (omega arith) inside (λ z. ne (sym same ∙ z))
              ∙ ap (λ t. word_at (d'.block t) (c - ndirect)) same
              ∙ word ne
              ∙ sym (block_of-entry ip d c (omega arith) inside ne)
        ]
  ]
]

module _ (sb : Superblock) where
  pub block_taken :
      {a : ℕ} {d d' : Disk} → IsTaken sb d a d' → (b : ℕ) → b ≢ a → d'.block b ≡ d.block b
  block_taken {a} {d} taken b ne =
      ap (λ f. f b) taken.block_is ∙ update_ne d.block a zero_block b ne

  block_new : {a : ℕ} {d d' : Disk} → IsTaken sb d a d' → d'.block a ≡ zero_block
  block_new {a} {d} taken = ap (λ f. f a) taken.block_is ∙ update_self d.block a zero_block

  -- A block of the file is not a free one.
  not_free :
      {ip : Inode} {d : Disk} (c a : ℕ)
      → IsMapped sb ip d
      → c ≤ maxfile
      → in_use d a ≡ false
      → block_of ip d c ≢ 0
      → block_of ip d c ≢ a
  not_free {ip} {d} c a m le free ne = used_not_free d (m.used c le ne) free

  table_not_free :
      {ip : Inode} {d : Disk} (a : ℕ)
      → IsMapped sb ip d
      → in_use d a ≡ false
      → ip.addrs ndirect ≢ 0
      → ip.addrs ndirect ≢ a
  table_not_free {ip} {d} a m free ne e =
      not_free maxfile a m (omega arith) free (λ z. ne (sym (block_of-table ip d) ∙ z))
        (block_of-table ip d ∙ e)

  -- A direct block.
  pub slot-Grown :
      (i a : ℕ) (ip : Inode) (d d' : Disk)
      → i < ndirect
      → IsMapped sb ip d
      → ip.addrs i ≡ 0
      → a < sb.size
      → in_use d a ≡ false
      → IsTaken sb d a d'
      → Grown sb i a ip d (record ip { addrs = update ip.addrs i a }) d'
  slot-Grown i a ip d d' lt m nil small free taken = record {
    empty = block_of-direct ip d i lt ∙ nil;
    fresh = free;
    small = small;
    map_is = taken.map_is;
    place = omega arith;
    here =
        block_of-direct (record ip { addrs = update ip.addrs i a }) d' i lt
        ∙ update_self ip.addrs i a;
    elsewhere = λ c le ne.
        block_of-agree ip (record ip { addrs = update ip.addrs i a }) d d' c le
          (λ _. update_ne ip.addrs i a c ne)
          (λ far. update_ne ip.addrs i a ndirect (λ e. absurd (omega arith)))
          (λ some_table.
            ap (λ blk. word_at blk (c - ndirect))
              (block_taken taken (ip.addrs ndirect) (table_not_free a m free some_table)));
    zeroed = block_new taken;
    others = λ b ne _. block_taken taken b ne;
    size_same = refl;
    inum_same = refl;
    kind_same = refl;
    dev_same = refl;
    dinode_same = taken.dinode_same;
  }

  -- The indirect block itself.
  pub table-Grown :
      (a : ℕ) (ip : Inode) (d d' : Disk)
      → IsMapped sb ip d
      → ip.addrs ndirect ≡ 0
      → a ≢ 0
      → a < sb.size
      → in_use d a ≡ false
      → IsTaken sb d a d'
      → Grown sb maxfile a ip d (record ip { addrs = update ip.addrs ndirect a }) d'
  table-Grown a ip d d' m nil nonzero small free taken =
      let ip' = record ip { addrs = update ip.addrs ndirect a } in
      record {
        empty = block_of-table ip d ∙ nil;
        fresh = free;
        small = small;
        map_is = taken.map_is;
        place = omega arith;
        here = block_of-table ip' d' ∙ update_self ip.addrs ndirect a;
        elsewhere = λ c le ne. elim (dec_lt c ndirect) [
          | yes near ↦
              block_of-direct ip' d' c near
              ∙ update_ne ip.addrs ndirect a c (λ e. absurd (omega arith))
              ∙ sym (block_of-direct ip d c near)
          | no far ↦
              block_of-entry ip' d' c (omega arith) (omega arith) nonzero
              ∙ ap (λ blk. word_at blk (c - ndirect)) (block_new taken)
              ∙ sym (block_of-none ip d c (omega arith) (omega arith) nil)
        ];
        zeroed = block_new taken;
        others = λ b ne _. block_taken taken b ne;
        size_same = refl;
        inum_same = refl;
        kind_same = refl;
        dev_same = refl;
        dinode_same = taken.dinode_same;
      }

  -- An entry of the indirect block.
  pub entry-Grown :
      (k a : ℕ) (ip : Inode) (d d' : Disk)
      → k < nindirect
      → IsMapped sb ip d
      → ip.addrs ndirect ≢ 0
      → word_at (d.block (ip.addrs ndirect)) k ≡ 0
      → a < sb.size
      → sb.size < 2 ^ 32
      → in_use d a ≡ false
      → IsTaken sb d a d'
      → Grown sb (ndirect + k) a ip d ip (record d' {
        block = update d'.block (ip.addrs ndirect) (put_word (d'.block (ip.addrs ndirect)) k a);
        logged = ip.addrs ndirect ∷ d'.logged;
      })
  entry-Grown k a ip d d' lt m some_table nil small bound free taken =
      let t = ip.addrs ndirect in
      let d'' = record d' {
        block = update d'.block t (put_word (d'.block t) k a);
        logged = t ∷ d'.logged;
      } in
      let apart : t ≢ a = table_not_free a m free some_table in
      let place : ndirect + k - ndirect ≡ k = omega arith in
      let word : (j : ℕ) → word_at (d''.block t) j ≡ (if j == k then a else word_at (d.block t) j) =
        λ j.
          ap (λ blk. word_at blk j) (update_self d'.block t (put_word (d'.block t) k a))
          ∙ word_at-put_word (d'.block t) k a j (omega arith)
          ∙ ap (λ blk. if j == k then a else word_at blk j) (block_taken taken t apart) in
      record {
        empty =
            block_of-entry ip d (ndirect + k) (omega arith) (omega arith) some_table ∙ rw place nil;
        fresh = free;
        small = small;
        map_is = taken.map_is;
        place = omega arith;
        here =
            block_of-entry ip d'' (ndirect + k) (omega arith) (omega arith) some_table
            ∙ word (ndirect + k - ndirect)
            ∙ (let own : (ndirect + k - ndirect == k) ≡ true = ground arith in rw own);
        elsewhere = λ c le ne. elim (dec_lt c ndirect) [
          | yes near ↦ block_of-direct ip d'' c near ∙ sym (block_of-direct ip d c near)
          | no far ↦
              let other : (c - ndirect == k) ≡ false = ground arith in
              block_of-agree ip ip d d'' c le (λ _. refl) (λ _. refl)
                (λ _. word (c - ndirect) ∙ rw other)
        ];
        zeroed =
            update_ne d'.block t (put_word (d'.block t) k a) a (λ e. apart (sym e))
            ∙ block_new taken;
        others = λ b ne foreign.
            update_ne d'.block t (put_word (d'.block t) k a) b
              (λ e. foreign (e ∙ sym (block_of-table ip d)))
            ∙ block_taken taken b ne;
        size_same = refl;
        inum_same = refl;
        kind_same = refl;
        dev_same = refl;
        dinode_same = taken.dinode_same;
      }
