-- ===== src/Fs/FreeMap/Laws.antt =====
-- kernel/fs.c: `balloc` takes the first free block, and `bfree` gives one back.
use osmini_project.Base.{
  sym, ◌≢◌, ◌⊎◌, subst, ℕ, ◌+◌, ◌-◌, ◌*◌, ◌/◌, ◌%◌, ◌<◌, ◌≡◌, inl, inr, refl, ap, ◌∙◌, true, false,
  some, arith, ◌==◌, if◌then◌else◌, update, Option-cases,
}
use osmini_project.Fs.{Superblock, Disk, zero_block, bsize, bpb, bblock, log_write, bzero}
use osmini_project.Fs.Bits.{set_bit, clear_bit, bit-set_bit, bit-clear_bit}
use osmini_project.Fs.FreeMap.{map_bit, find_free, take_block, balloc, bfree}
use osmini_project.Fs.FreeMap.Search.{
  used_not_free, in_use, IsFirst, with_bit, map_bit-mod, find_free-eq-some, find_free-eq-none,
}

module _ (sb : Superblock) where
  -- The disk when block `b` is taken, or given back.
  pub record IsTaken (d : Disk) (b : ℕ) (d' : Disk) : Type 0 where
    pub map_is : (c : ℕ) → in_use d' c ≡ (if c == b then true else in_use d c)
    pub block_is : d'.block ≡ update d.block b zero_block
    pub dinode_same : d'.dinode ≡ d.dinode

  take_block-IsTaken :
      (k bi : ℕ) (d : Disk) → bi < bpb → IsTaken d (k * bpb + bi) (take_block sb (k * bpb) bi d)
  unfolding take_block bzero
  take_block-IsTaken k bi d lt =
      let byte : k * bpb / bpb * bsize + bi / 8 ≡ (k * bpb + bi) / 8 = omega arith in
      let place : bi % 8 ≡ (k * bpb + bi) % 8 = omega arith in
      record {
        map_is = λ c.
            ap (λ i. in_use (record d { map = update d.map i (set_bit (d.map i) (bi % 8)) }) c) byte
            ∙ ap
                (λ j.
                  in_use
                    (record d {
                      map =
                          update d.map ((k * bpb + bi) / 8)
                            (set_bit (d.map ((k * bpb + bi) / 8)) j);
                    })
                    c)
                place
            ∙ with_bit d (k * bpb + bi) c
                (set_bit (d.map ((k * bpb + bi) / 8)) ((k * bpb + bi) % 8)) true
                (λ j. bit-set_bit (d.map ((k * bpb + bi) / 8)) ((k * bpb + bi) % 8) j);
        block_is = refl;
        dinode_same = refl;
      }

  -- `balloc` gives the first free block, zeroed, and marks no other; it gives 0, with no change,
  -- exactly when every block is in use.
  pub data Balloc (d : Disk) : ℕ × Disk → Type 0 where
    full : ((c : ℕ) → c < sb.size → in_use d c ≡ true) → Balloc d (0, d)
    found : (b : ℕ) (d' : Disk) → b < sb.size → IsFirst d 0 b → IsTaken d b d' → Balloc d (b, d')

  pub balloc-Balloc : (d : Disk) → Balloc d (balloc sb d)
  unfolding balloc
  balloc-Balloc d = elim (Option-cases (find_free sb ((sb.size + (bpb - 1)) / bpb) 0 d)) [
    | inl miss ↦
        rw (miss, balloc)
          (full (λ c lt.
            find_free-eq-none sb ((sb.size + (bpb - 1)) / bpb) 0 d miss c (omega arith)
              (omega arith) lt))
    | inr ((b, bi), hit) ↦
        let (whole, small, inside, first) =
          find_free-eq-some sb ((sb.size + (bpb - 1)) / bpb) 0 d hit in
        let start : b / bpb * bpb ≡ b = omega arith in
        let taken =
          subst (λ b. IsTaken d (b + bi) (take_block sb b bi d)) start
            (take_block-IsTaken (b / bpb) bi d small) in
        rw (hit, balloc) (found (b + bi) (take_block sb b bi d) inside first taken)
  ]

  balloc_view :
      (d : Disk) (r : ℕ × Disk)
      → in_use d 0 ≡ true
      → Balloc d r
      → balloc sb d ≡ r
      → ((balloc sb d ≡ (0, d)) × ((c : ℕ) → c < sb.size → in_use d c ≡ true))
        ⊎ ((b : ℕ) × (d' : Disk) × (balloc sb d ≡ (b, d'))
            × (b ≢ 0)
            × (b < sb.size)
            × (in_use d b ≡ false)
            × IsTaken d b d')
  balloc_view d _ boot (full all) e = inl (e, all)
  balloc_view d _ boot (found b d' lt (free, before) taken) e =
      let nonzero : b ≢ 0 = λ z. used_not_free d boot free (sym z) in
      inr (b, d', e, nonzero, lt, free, taken)

  -- `balloc` finds the disk full, or a block other than 0.
  pub balloc_cases :
      (d : Disk)
      → in_use d 0 ≡ true
      → ((balloc sb d ≡ (0, d)) × ((c : ℕ) → c < sb.size → in_use d c ≡ true))
        ⊎ ((b : ℕ) × (d' : Disk) × (balloc sb d ≡ (b, d'))
            × (b ≢ 0)
            × (b < sb.size)
            × (in_use d b ≡ false)
            × IsTaken d b d')
  balloc_cases d boot = balloc_view d (balloc sb d) boot (balloc-Balloc d) refl

  -- `bfree` of a block in use gives it back and touches no other; of a block that is free it panics.
  pub bfree_lem :
      (b : ℕ) (d : Disk)
      → in_use d b ≡ true
      → (d' : Disk) × (bfree sb b d ≡ some d')
        × ((c : ℕ) → in_use d' c ≡ (if c == b then false else in_use d c))
        × (d'.block ≡ d.block)
        × (d'.dinode ≡ d.dinode)
  unfolding bfree
  bfree_lem b d used =
      let byte : b / bpb * bsize + b % bpb / 8 ≡ b / 8 = omega arith in
      let place : b % bpb % 8 ≡ b % 8 = omega arith in
      let set : map_bit d b (b % bpb) ≡ true = map_bit-mod d b ∙ used in
      (
        log_write (bblock sb b) (record d {
          map =
              update d.map (b / bpb * bsize + b % bpb / 8)
                (clear_bit (d.map (b / bpb * bsize + b % bpb / 8)) (b % bpb % 8));
        }),
        rw set,
        λ c.
            ap
              (λ i.
                in_use (record d { map = update d.map i (clear_bit (d.map i) (b % bpb % 8)) }) c)
              byte
            ∙ ap
                (λ j.
                  in_use (record d { map = update d.map (b / 8) (clear_bit (d.map (b / 8)) j) }) c)
                place
            ∙ with_bit d b c (clear_bit (d.map (b / 8)) (b % 8)) false
                (λ j. bit-clear_bit (d.map (b / 8)) (b % 8) j),
        refl,
        refl,
      )
