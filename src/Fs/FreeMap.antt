-- ===== src/Fs/FreeMap.antt =====
-- kernel/fs.c: `balloc` and `bfree`.
pub mod Search
pub mod Laws
use osmini_project.Base.{
  ℕ, zero, suc, ◌+◌, ◌-◌, ◌*◌, ◌/◌, ◌%◌, Bool, true, false, not, Option, none, some, ◌==◌, ltb,
  if◌then◌else◌, update,
}
use osmini_project.Fs.{Superblock, Disk, bsize, bpb, bblock, log_write, bzero}
use osmini_project.Fs.Bits.{bit, set_bit, clear_bit}

-- Whether the bit `bi` of the block of the free map for `b` is set.
abbrev pub map_bit : Disk → (b bi : ℕ) → Bool
map_bit d b bi = bit (d.map (b / bpb * bsize + bi / 8)) (bi % 8)

module _ (sb : Superblock) where
  -- The loop over the bits of a block of the free map, with `rounds` bits to go.
  unfoldable pub find_bit : (rounds b bi : ℕ) → Disk → Option ℕ
  find_bit zero b bi d = none
  find_bit (suc rounds) b bi d =
      let rest = find_bit rounds b (bi + 1) d in
      if ltb (b + bi) sb.size then (if map_bit d b bi then rest else some bi) else none

  -- The loop over the blocks of the free map: the first free bit, as `b` and `bi`.
  unfoldable pub find_free : (rounds b : ℕ) → Disk → Option (ℕ × ℕ)
  find_free zero b d = none
  find_free (suc rounds) b d =
      let rest = find_free rounds (b + bpb) d in
      elim (find_bit bpb b 0 d) [ none ↦ rest | some bi ↦ some (b, bi) ]

  -- `bp->data[bi/8] |= m; log_write(bp); bzero(dev, b + bi)`.
  unfoldable pub take_block : (b bi : ℕ) → Disk → Disk
  take_block b bi d =
      let i = b / bpb * bsize + bi / 8 in
      bzero (b + bi)
        (log_write (bblock sb b) (record d { map = update d.map i (set_bit (d.map i) (bi % 8)) }))

  -- `balloc`: the block, or 0.
  unfoldable pub balloc : Disk → ℕ × Disk
  balloc d = elim (find_free ((sb.size + (bpb - 1)) / bpb) 0 d) [
    | none ↦ (0, d)
    | some (b, bi) ↦ (b + bi, take_block b bi d)
  ]

  -- `none` is a panic.
  unfoldable pub bfree : ℕ → Disk → Option Disk
  bfree b d =
      let bi = b % bpb in
      let i = b / bpb * bsize + bi / 8 in
      if not (map_bit d b bi)
      then none
      else some (
          log_write (bblock sb b)
            (record d { map = update d.map i (clear_bit (d.map i) (bi % 8)) }))
