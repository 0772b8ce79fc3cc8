-- ===== src/Fs/Table.antt =====
-- kernel/fs.c: the table of inodes in memory. Pointers to inodes are indices. The sleeplock of an inode is
-- whether the process has locked it, as the functions run for one process; where that would wait for
-- itself, and where the kernel panics, there is no result.
pub mod Get
pub mod Unique
pub mod Free
use osmini_project.Base.{
  ℕ, zero, suc, ◌+◌, ◌-◌, ◌*◌, ◌/◌, ◌%◌, ◌^◌, Bool, true, false, not, ◌&&◌, ◌||◌, Option, none,
  some, ◌==◌, is_nonpositive, if◌then◌else◌, update, sub32,
}
use osmini_project.Fs.{Superblock, Dinode, Disk, Inode, log_write, iblock, iupdate}
use osmini_project.Fs.Trunc.{itrunc}

abbrev pub ninode : ℕ
ninode = 50

pub record State : Type 0 where
  pub inode : ℕ → Inode
  pub locked : ℕ → Bool
  pub disk : Disk

abbrev pub with_inode : ℕ → Inode → State → State
with_inode i ip k = record k { inode = update k.inode i ip }

-- `ip->ref > 0 && ip->dev == dev && ip->inum == inum`.
abbrev pub is_entry : (dev inum : ℕ) → Inode → Bool
is_entry dev inum ip = not (is_nonpositive ip.ref) && (ip.dev == dev && ip.inum == inum)

-- `ip->ref++`.
abbrev pub add_ref : Inode → Inode
add_ref ip = record ip { ref = (ip.ref + 1) % 2 ^ 32 }

abbrev pub remember : Option ℕ → (i ref : ℕ) → Option ℕ
remember none i ref = if ref == 0 then some i else none
remember (some e) i ref = some e

-- The loop of `iget` from the entry `i` on, and what follows it.
unfoldable pub iget_from : (rounds i : ℕ) → Option ℕ → (dev inum : ℕ) → State → Option (ℕ × State)
iget_from zero i none dev inum k = none
iget_from zero i (some e) dev inum k =
    some (e, with_inode e (record (k.inode e) { dev = dev; inum = inum; ref = 1; valid = false }) k)
iget_from (suc rounds) i empty dev inum k =
    let rest = iget_from rounds (suc i) (remember empty i (k.inode i).ref) dev inum k in
    if is_entry dev inum (k.inode i) then some (i, with_inode i (add_ref (k.inode i)) k) else rest

unfoldable pub iget : (dev inum : ℕ) → State → Option (ℕ × State)
iget dev inum k = iget_from ninode 0 none dev inum k

unfoldable pub idup : ℕ → State → ℕ × State
idup i k = (i, with_inode i (add_ref (k.inode i)) k)

-- The inode as it is on the disk.
unfoldable pub load : Dinode → Inode → Inode
load dip ip = record ip {
  kind = dip.kind;
  major = dip.major;
  minor = dip.minor;
  nlink = dip.nlink;
  size = dip.size;
  addrs = dip.addrs;
  valid = true;
}

abbrev pub with_locked : ℕ → Bool → State → State
with_locked i b k = record k { locked = update k.locked i b }

unfoldable pub ilock : ℕ → State → Option State
ilock i k =
    let ip = k.inode i in
    let dip = k.disk.dinode ip.inum in
    let held = with_locked i true k in
    if is_nonpositive ip.ref
    then none
    else if k.locked i
    then none
    else if ip.valid
    then some held
    else if dip.kind == 0
    then none
    else some (with_inode i (load dip ip) held)

unfoldable pub iunlock : ℕ → State → Option State
iunlock i k =
    if not (k.locked i) || is_nonpositive (k.inode i).ref
    then none
    else some (with_locked i false k)

module _ (sb : Superblock) where
  abbrev pub drop_ref : ℕ → State → State
  drop_ref i k = with_inode i (record (k.inode i) { ref = sub32 (k.inode i).ref 1 }) k

  -- The last reference to an inode without links: its content is given back, and the inode on the disk.
  unfoldable pub free_inode : ℕ → State → Option State
  free_inode i k = elim (itrunc sb (k.inode i) k.disk) [
    | none ↦ none
    | some (ip, d) ↦
        let gone = record ip { kind = 0 } in
        some (record k {
          inode = update k.inode i (record gone { valid = false });
          disk = iupdate sb gone d;
        })
  ]

  unfoldable pub iput : ℕ → State → Option State
  iput i k =
      let ip = k.inode i in
      let freed : Option State = elim (free_inode i k) [
        | none ↦ none
        | some k1 ↦ some (drop_ref i k1)
      ] in
      if ip.ref == 1 && (ip.valid && ip.nlink == 0)
      then if k.locked i then none else freed
      else some (drop_ref i k)

  unfoldable pub iunlockput : ℕ → State → Option State
  iunlockput i k = elim (iunlock i k) [ none ↦ none | some k1 ↦ iput i k1 ]

  -- `memset(dip, 0, sizeof(*dip)); dip->type = type; log_write(bp)`.
  unfoldable pub claim : (inum type : ℕ) → State → State
  claim inum type k =
      let fresh : Dinode = record {
        kind = type;
        major = 0;
        minor = 0;
        nlink = 0;
        size = 0;
        addrs = λ _. 0;
      } in
      record k {
        disk =
            log_write (iblock sb inum) (record k.disk { dinode = update k.disk.dinode inum fresh });
      }

  -- The loop of `ialloc` from the inode `inum` on; `none` inside is the null pointer.
  unfoldable pub ialloc_from : (rounds inum dev type : ℕ) → State → Option (Option ℕ × State)
  ialloc_from zero inum dev type k = some (none, k)
  ialloc_from (suc rounds) inum dev type k =
      let rest = ialloc_from rounds (suc inum) dev type k in
      let got : Option (Option ℕ × State) = elim (iget dev inum (claim inum type k)) [
        | none ↦ none
        | some (i, k1) ↦ some (some i, k1)
      ] in
      if (k.disk.dinode inum).kind == 0 then got else rest

  unfoldable pub ialloc : (dev type : ℕ) → State → Option (Option ℕ × State)
  ialloc dev type k = ialloc_from (sb.ninodes - 1) 1 dev type k

  -- `ireclaim` from the inode `inum` on; `begin_op` and `end_op` are those of the log.
  unfoldable pub reclaim : ℕ → State → Option State
  reclaim i k = elim (ilock i k) [
    | none ↦ none
    | some k1 ↦ elim (iunlock i k1) [ none ↦ none | some k2 ↦ iput i k2 ]
  ]

  unfoldable pub ireclaim_from : (rounds inum dev : ℕ) → State → Option State
  ireclaim_from zero inum dev k = some k
  ireclaim_from (suc rounds) inum dev k =
      let dip = k.disk.dinode inum in
      elim (not (dip.kind == 0) && dip.nlink == 0) [
        | false ↦ ireclaim_from rounds (suc inum) dev k
        | true ↦ elim (iget dev inum k) [
          | none ↦ none
          | some (i, k1) ↦ elim (reclaim i k1) [
            | none ↦ none
            | some k2 ↦ ireclaim_from rounds (suc inum) dev k2
          ]
        ]
      ]

  unfoldable pub ireclaim : ℕ → State → Option State
  ireclaim dev k = ireclaim_from (sb.ninodes - 1) 1 dev k

-- `struct stat`.
pub record Stat : Type 0 where
  pub dev : ℕ
  pub ino : ℕ
  pub type : ℕ
  pub nlink : ℕ
  pub size : ℕ

unfoldable pub stati : Inode → Stat
stati ip = record { dev = ip.dev; ino = ip.inum; type = ip.kind; nlink = ip.nlink; size = ip.size }
