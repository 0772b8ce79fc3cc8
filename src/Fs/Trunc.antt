-- ===== src/Fs/Trunc.antt =====
-- kernel/fs.c: `itrunc`, which gives the blocks of a file back.
pub mod Freed
pub mod Laws
pub mod Whole
use osmini_project.Base.{
  ℕ, zero, suc, ◌+◌, ◌-◌, ◌*◌, Bool, true, false, Option, none, some, ◌==◌, update,
}
use osmini_project.Fs.{Superblock, Disk, Inode, ndirect, nindirect, iupdate}
use osmini_project.Fs.Bits.{word_at}
use osmini_project.Fs.FreeMap.{bfree}

module _ (sb : Superblock) where
  -- `if(a) bfree(a)`; `none` is a panic.
  unfoldable pub free_block : ℕ → Disk → Option Disk
  free_block a d = elim (a == 0) [ true ↦ some d | false ↦ bfree sb a d ]

  -- The loop over the direct blocks from `i` on.
  unfoldable pub free_direct : (rounds i : ℕ) → Inode → Disk → Option (Inode × Disk)
  free_direct zero i ip d = some (ip, d)
  free_direct (suc rounds) i ip d = elim (ip.addrs i == 0) [
    | true ↦ free_direct rounds (suc i) ip d
    | false ↦ elim (bfree sb (ip.addrs i) d) [
      | none ↦ none
      | some d1 ↦ free_direct rounds (suc i) (record ip { addrs = update ip.addrs i 0 }) d1
    ]
  ]

  -- The loop over the entries of the indirect block `t` from `j` on.
  unfoldable pub free_entries : (rounds j t : ℕ) → Disk → Option Disk
  free_entries zero j t d = some d
  free_entries (suc rounds) j t d = elim (free_block (word_at (d.block t) j) d) [
    | none ↦ none
    | some d1 ↦ free_entries rounds (suc j) t d1
  ]

  -- The indirect block and its entries.
  unfoldable pub free_table : Inode → Disk → Option (Inode × Disk)
  free_table ip d = elim (ip.addrs ndirect == 0) [
    | true ↦ some (ip, d)
    | false ↦ elim (free_entries nindirect 0 (ip.addrs ndirect) d) [
      | none ↦ none
      | some d1 ↦ elim (bfree sb (ip.addrs ndirect) d1) [
        | none ↦ none
        | some d2 ↦ some (record ip { addrs = update ip.addrs ndirect 0 }, d2)
      ]
    ]
  ]

  unfoldable pub itrunc : Inode → Disk → Option (Inode × Disk)
  itrunc ip d = elim (free_direct ndirect 0 ip d) [
    | none ↦ none
    | some (ip1, d1) ↦ elim (free_table ip1 d1) [
      | none ↦ none
      | some (ip2, d2) ↦ let ip3 = record ip2 { size = 0 } in some (ip3, iupdate sb ip3 d2)
    ]
  ]
