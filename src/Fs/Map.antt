-- ===== src/Fs/Map.antt =====
-- kernel/fs.c: `bmap`, from the number of a block of a file to that of a block of the disk.
pub mod Numbers
pub mod Steps
pub mod Laws
pub mod Found
pub mod Result
use osmini_project.Base.{
  ℕ, ◌+◌, ◌-◌, ◌*◌, ◌/◌, ◌%◌, Bool, true, false, Option, none, some, ◌==◌, ltb, if◌then◌else◌,
  update,
}
use osmini_project.Fs.{Superblock, Disk, Inode, ndirect, nindirect, log_write}
use osmini_project.Fs.Bits.{word_at, put_word}
use osmini_project.Fs.FreeMap.{balloc}

module _ (sb : Superblock) where
  -- The entry `i` of `ip->addrs`, allocated if it is 0.
  unfoldable pub slot : ℕ → Inode → Disk → ℕ × Inode × Disk
  slot i ip d =
      let new = balloc sb d in
      if ip.addrs i == 0
      then if new.0 == 0
        then (0, ip, new.1)
        else (new.0, record ip { addrs = update ip.addrs i new.0 }, new.1)
      else (ip.addrs i, ip, d)

  -- The entry `bn` of the indirect block `t`, allocated if it is 0.
  unfoldable pub entry : (t bn : ℕ) → Disk → ℕ × Disk
  entry t bn d =
      let addr = word_at (d.block t) bn in
      let new = balloc sb d in
      if addr == 0
      then if new.0 == 0 then (0, new.1) else (
        new.0,
        log_write t
            (record new.1 { block = update new.1.block t (put_word (new.1.block t) bn new.0) }),
      )
      else (addr, d)

  -- The block, or 0 when the disk is full; `none` is a panic.
  unfoldable pub bmap : ℕ → Inode → Disk → Option (ℕ × Inode × Disk)
  bmap bn ip d =
      if ltb bn ndirect
      then some (slot bn ip d)
      else if ltb (bn - ndirect) nindirect
      then (let (t, ip1, d1) = slot ndirect ip d in
          let (addr, d2) = entry t (bn - ndirect) d1 in
          some (if t == 0 then (0, ip1, d1) else (addr, ip1, d2)))
      else none
