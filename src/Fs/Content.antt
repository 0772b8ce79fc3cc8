-- ===== src/Fs/Content.antt =====
-- kernel/fs.c: `readi` and `writei`. The memory they copy from and to, of the user or of the kernel, is a map
-- from addresses; where it is `none` the copy stops with a fault, as `copyin` and `copyout` do between pages.
pub mod Copy
pub mod Store
pub mod Progress
pub mod Write
pub mod Written
pub mod Read
pub mod ReadAll
pub mod RoundTrip
use osmini_project.Base.{
  ℕ, zero, suc, ◌+◌, ◌-◌, ◌*◌, ◌/◌, ◌%◌, ◌^◌, Bool, true, false, ◌||◌, Option, none, some, ◌==◌,
  ltb, if◌then◌else◌, update, min,
}
use osmini_project.Fs.{Superblock, Disk, Inode, Block, bsize, maxfile, log_write, iupdate}
use osmini_project.Fs.Map.{bmap}

abbrev pub Mem : Type 0
Mem = ℕ → Option ℕ

-- Copy `m` bytes of the memory at `sa` to a block at `o`.
unfoldable pub copy_in : (m : ℕ) → Mem → (sa : ℕ) → Block → (o : ℕ) → Bool × Block
copy_in zero mem sa blk o = (true, blk)
copy_in (suc m) mem sa blk o = elim (mem sa) [
  | none ↦ (false, blk)
  | some v ↦ copy_in m mem (suc sa) (update blk o v) (suc o)
]

-- Copy `m` bytes of a block at `o` to the memory at `da`.
unfoldable pub copy_out : (m : ℕ) → Block → (o : ℕ) → Mem → (da : ℕ) → Bool × Mem
copy_out zero blk o mem da = (true, mem)
copy_out (suc m) blk o mem da = elim (mem da) [
  | none ↦ (false, mem)
  | some _ ↦ copy_out m blk (suc o) (update mem da (some (blk o))) (suc da)
]

-- `m = min(n - tot, BSIZE - off%BSIZE)`.
abbrev pub chunk : (n tot off : ℕ) → ℕ
chunk n tot off = min (n - tot) (bsize - off % bsize)

module _ (sb : Superblock) where
  -- The loop of `readi`: `tot` (`none` for -1), the inode, the disk and the memory. Without a result, the
  -- rounds have run out or `bmap` panics.
  unfoldable pub read_loop :
      (rounds : ℕ)
      → Mem
      → (n tot off da : ℕ) → Inode
      → Disk
      → Option (Option ℕ × Inode × Disk × Mem)
  read_loop zero mem n tot off da ip d = none
  read_loop (suc rounds) mem n tot off da ip d = elim (ltb tot n) [
    | false ↦ some (some tot, ip, d, mem)
    | true ↦ elim (bmap sb (off / bsize) ip d) [
      | none ↦ none
      | some (addr, ip1, d1) ↦ elim (addr == 0) [
        | true ↦ some (some tot, ip1, d1, mem)
        | false ↦
            let m = chunk n tot off in
            let copy = copy_out m (d1.block addr) (off % bsize) mem da in
            elim copy.0 [
              | false ↦ some (none, ip1, d1, copy.1)
              | true ↦ read_loop rounds copy.1 n (tot + m) (off + m) (da + m) ip1 d1
            ]
      ]
    ]
  ]

  -- `readi`. The numbers are of 32 bits.
  unfoldable pub readi :
      Mem → (da off n : ℕ) → Inode → Disk → Option (Option ℕ × Inode × Disk × Mem)
  readi mem da off n ip d =
      let wanted = if ltb ip.size ((off + n) % 2 ^ 32) then ip.size - off else n in
      if ltb ip.size off || ltb ((off + n) % 2 ^ 32) off
      then some (some 0, ip, d, mem)
      else read_loop (suc wanted) mem wanted 0 off da ip d

  -- The loop of `writei`: `tot`, `off`, the inode and the disk. A copy that faults has changed the block in
  -- memory, and is not logged.
  unfoldable pub write_loop :
      (rounds : ℕ) → Mem → (n tot off sa : ℕ) → Inode → Disk → Option (ℕ × ℕ × Inode × Disk)
  write_loop zero mem n tot off sa ip d = none
  write_loop (suc rounds) mem n tot off sa ip d = elim (ltb tot n) [
    | false ↦ some (tot, off, ip, d)
    | true ↦ elim (bmap sb (off / bsize) ip d) [
      | none ↦ none
      | some (addr, ip1, d1) ↦ elim (addr == 0) [
        | true ↦ some (tot, off, ip1, d1)
        | false ↦
            let m = chunk n tot off in
            let copy = copy_in m mem sa (d1.block addr) (off % bsize) in
            let d2 = record d1 { block = update d1.block addr copy.1 } in
            elim copy.0 [
              | false ↦ some (tot, off, ip1, d2)
              | true ↦ write_loop rounds mem n (tot + m) (off + m) (sa + m) ip1 (log_write addr d2)
            ]
      ]
    ]
  ]

  -- `writei`: `tot`, or `none` for -1.
  unfoldable pub writei : Mem → (sa off n : ℕ) → Inode → Disk → Option (Option ℕ × Inode × Disk)
  writei mem sa off n ip d =
      if ltb ip.size off || ltb ((off + n) % 2 ^ 32) off
      then some (none, ip, d)
      else if ltb (maxfile * bsize) ((off + n) % 2 ^ 32)
      then some (none, ip, d)
      else elim (write_loop (suc n) mem n 0 off sa ip d) [
        | none ↦ none
        | some (tot, off', ip', d') ↦
            let ip'' = if ltb ip'.size off' then record ip' { size = off' } else ip' in
            some (some tot, ip'', iupdate sb ip'' d')
      ]
