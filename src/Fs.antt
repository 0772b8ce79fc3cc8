-- ===== src/Fs.antt =====
-- kernel/fs.c: the file system on the disk. The blocks of the free map, those of the inodes and the data
-- blocks are kept apart, as the superblock keeps their numbers apart: the free map is one array of bytes,
-- the inodes are one array. `bread` and `brelse` have no effect here (they are those of bio.c), and
-- `log_write` records the block number.
pub mod Bits
pub mod FreeMap
pub mod Map
pub mod Content
pub mod Trunc
pub mod Table
pub mod Dir
pub mod Path
mod Tests
use osmini_project.Base.{
  ℕ, zero, suc, ◌+◌, ◌-◌, ◌*◌, ◌/◌, ◌%◌, Bool, true, false, List, [], ◌∷◌, Option, none, some, ◌==◌,
  ltb, if◌then◌else◌, update,
}

-- BSIZE, BPB, IPB, NDIRECT, NINDIRECT, MAXFILE.
abbrev pub bsize : ℕ
bsize = 1024

abbrev pub bpb : ℕ
bpb = 8192

abbrev pub ipb : ℕ
ipb = 16

abbrev pub ndirect : ℕ
ndirect = 12

abbrev pub nindirect : ℕ
nindirect = 256

abbrev pub maxfile : ℕ
maxfile = 268

-- The fields of `struct superblock` that the code uses.
pub record Superblock : Type 0 where
  pub size : ℕ
  pub ninodes : ℕ
  pub inodestart : ℕ
  pub bmapstart : ℕ

-- IBLOCK and BBLOCK.
abbrev pub iblock : Superblock → ℕ → ℕ
iblock sb i = i / ipb + sb.inodestart

abbrev pub bblock : Superblock → ℕ → ℕ
bblock sb b = b / bpb + sb.bmapstart

-- `struct dinode`; the array `addrs` is a function of the index.
pub record Dinode : Type 0 where
  pub kind : ℕ
  pub major : ℕ
  pub minor : ℕ
  pub nlink : ℕ
  pub size : ℕ
  pub addrs : ℕ → ℕ

-- `struct inode`, an entry of the table of inodes.
pub record Inode : Type 0 where
  pub dev : ℕ
  pub inum : ℕ
  pub ref : ℕ
  pub valid : Bool
  pub kind : ℕ
  pub major : ℕ
  pub minor : ℕ
  pub nlink : ℕ
  pub size : ℕ
  pub addrs : ℕ → ℕ

-- The bytes of a block.
abbrev pub Block : Type 0
Block = ℕ → ℕ

abbrev pub zero_block : Block
zero_block _ = 0

pub record Disk : Type 0 where
  pub map : ℕ → ℕ
  pub dinode : ℕ → Dinode
  pub block : ℕ → Block
  pub logged : List ℕ

abbrev pub log_write : ℕ → Disk → Disk
log_write blockno d = record d { logged = blockno ∷ d.logged }

unfoldable pub bzero : ℕ → Disk → Disk
bzero bno d = log_write bno (record d { block = update d.block bno zero_block })

-- `iupdate`: the inode is copied to the disk.
unfoldable pub iupdate : Superblock → Inode → Disk → Disk
iupdate sb ip d = log_write (iblock sb ip.inum) (record d {
  dinode = update d.dinode ip.inum (record {
    kind = ip.kind;
    major = ip.major;
    minor = ip.minor;
    nlink = ip.nlink;
    size = ip.size;
    addrs = ip.addrs;
  });
})
