-- ===== src/Fs/Dir.antt =====
-- kernel/fs.c: directories, which are files of entries of 16 bytes.
pub mod Names
pub mod Entries
pub mod Lookup
pub mod Written
pub mod Link
pub mod RoundTrip
use osmini_project.Base.{
  list_of, ℕ, zero, suc, ◌+◌, ◌-◌, ◌*◌, ◌/◌, ◌%◌, ◌^◌, Bool, true, false, not, ◌&&◌, List, [], ◌∷◌,
  Option, none, some, ◌==◌, ltb, if◌then◌else◌, update, get_or,
}
use osmini_project.Str.{strncmp, strncpy}
use osmini_project.Fs.{Superblock}
use osmini_project.Fs.Content.{Mem, readi, writei}
use osmini_project.Fs.Table.{State, with_inode, iget, iput}

-- T_DIR, DIRSIZ, `sizeof(struct dirent)`.
abbrev pub t_dir : ℕ
t_dir = 1

abbrev pub dirsiz : ℕ
dirsiz = 14

abbrev pub dirent_size : ℕ
dirent_size = 16

unfoldable pub namecmp : List ℕ → List ℕ → ℕ
namecmp s t = strncmp s t dirsiz

-- The variable `de` is the memory from 0 on.
abbrev pub de_memory : Mem
de_memory a = if ltb a dirent_size then some 0 else none

abbrev pub byte_at : Mem → ℕ → ℕ
byte_at mem a = elim (mem a) [ none ↦ 0 | some v ↦ v ]

abbrev pub de_inum : Mem → ℕ
de_inum de = byte_at de 0 + 2 ^ 8 * byte_at de 1

abbrev pub de_name : Mem → List ℕ
de_name de = list_of dirsiz (byte_at de) 2

-- A `dirent` as memory; `de.inum` is of 16 bits.
unfoldable pub make_entry : (inum : ℕ) (name : List ℕ) → Mem
make_entry inum name a =
    if a == 0
    then some (inum % 2 ^ 8)
    else if a == 1
    then some (inum / 2 ^ 8 % 2 ^ 8)
    else if ltb a dirent_size
    then some (get_or name (a - 2) 0)
    else none

module _ (sb : Superblock) where
  -- `readi(dp, 0, &de, off, sizeof(de)) != sizeof(de)` is a panic.
  unfoldable pub read_entry : (dp off : ℕ) → State → Option (Mem × State)
  read_entry dp off k = elim (readi sb de_memory 0 off dirent_size (k.inode dp) k.disk) [
    | none ↦ none
    | some (none, _, _, _) ↦ none
    | some (some n, ip, d, de) ↦
        if n == dirent_size
        then some (de, record k { inode = update k.inode dp ip; disk = d })
        else none
  ]

  -- The loop of `dirlookup` from `off` on: the entry's offset and the inode.
  unfoldable pub lookup_from :
      (rounds off dp : ℕ) → List ℕ → State → Option (Option (ℕ × ℕ) × State)
  lookup_from zero off dp name k = none
  lookup_from (suc rounds) off dp name k = elim (ltb off (k.inode dp).size) [
    | false ↦ some (none, k)
    | true ↦ elim (read_entry dp off k) [
      | none ↦ none
      | some (de, k1) ↦ elim (not (de_inum de == 0) && namecmp name (de_name de) == 0) [
        | false ↦ lookup_from rounds (off + dirent_size) dp name k1
        | true ↦ elim (iget (k1.inode dp).dev (de_inum de) k1) [
          | none ↦ none
          | some (i, k2) ↦ some (some (off, i), k2)
        ]
      ]
    ]
  ]

  unfoldable pub dirlookup : (dp : ℕ) → List ℕ → State → Option (Option (ℕ × ℕ) × State)
  dirlookup dp name k =
      if not ((k.inode dp).kind == t_dir)
      then none
      else lookup_from (suc (k.inode dp).size) 0 dp name k

  -- The loop of `dirlink` from `off` on: the offset of an empty entry, or the end, and what `de` holds.
  unfoldable pub empty_from : (rounds off dp : ℕ) → State → Option (ℕ × State)
  empty_from zero off dp k = none
  empty_from (suc rounds) off dp k = elim (ltb off (k.inode dp).size) [
    | false ↦ some (off, k)
    | true ↦ elim (read_entry dp off k) [
      | none ↦ none
      | some (de, k1) ↦ elim (de_inum de == 0) [
        | true ↦ some (off, k1)
        | false ↦ empty_from rounds (off + dirent_size) dp k1
      ]
    ]
  ]

  -- `writei` of the entry: whether it is written.
  unfoldable pub write_entry : (dp off inum : ℕ) → List ℕ → State → Option (Bool × State)
  write_entry dp off inum name k =
      let de =
        make_entry inum
          (strncpy (0 ∷ 0 ∷ 0 ∷ 0 ∷ 0 ∷ 0 ∷ 0 ∷ 0 ∷ 0 ∷ 0 ∷ 0 ∷ 0 ∷ 0 ∷ 0 ∷ []) name dirsiz) in
      elim (writei sb de 0 off dirent_size (k.inode dp) k.disk) [
        | none ↦ none
        | some (none, ip, d) ↦ some (false, record k { inode = update k.inode dp ip; disk = d })
        | some (some n, ip, d) ↦
            some (n == dirent_size, record k { inode = update k.inode dp ip; disk = d })
      ]

  -- Whether the entry was added; `none` is a panic.
  unfoldable pub dirlink : (dp : ℕ) → List ℕ → (inum : ℕ) → State → Option (Bool × State)
  dirlink dp name inum k = elim (dirlookup dp name k) [
    | none ↦ none
    | some (some (_, i), k1) ↦ elim (iput sb i k1) [ none ↦ none | some k2 ↦ some (false, k2) ]
    | some (none, k1) ↦ elim (empty_from (suc (k1.inode dp).size) 0 dp k1) [
      | none ↦ none
      | some (off, k2) ↦ write_entry dp off inum name k2
    ]
  ]
