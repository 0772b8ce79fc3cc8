-- ===== src/Fs/Tests.antt =====
-- kernel/fs.c: the theorems at small file systems.
use osmini_project.Base.{
  ℕ, ◌+◌, ◌%◌, ◌≤◌, ◌<◌, ◌≡◌, ◌≢◌, ◌⊎◌, inl, refl, sym, ap, ◌∙◌, Bool, true, false, [], ◌∷◌,
  if◌then◌else◌, ltb, arith, ℕ_discrete, Option, none, some, update, update_ne, min,
}
use osmini_project.Fs.{Superblock, Inode, Dinode, Disk, iupdate, zero_block, maxfile}
use osmini_project.Fs.Bits.{bit}
use osmini_project.Fs.FreeMap.{balloc}
use osmini_project.Fs.FreeMap.Laws.{Balloc, balloc-Balloc}
use osmini_project.Fs.Map.{bmap, slot}
use osmini_project.Fs.Map.Numbers.{block_of, IsMapped}
use osmini_project.Fs.Map.Steps.{block_of-agree}
use osmini_project.Fs.Map.Found.{Found}
use osmini_project.Fs.Map.Result.{bmap-Found}
use osmini_project.Fs.Content.{read_loop, copy_out, Mem, readi, writei, write_loop, copy_in}
use osmini_project.Fs.Content.Written.{Written, writei-eq-none}
use osmini_project.Fs.Content.Read.{Read}
use osmini_project.Fs.Content.ReadAll.{readi-Read}
use osmini_project.Fs.Content.RoundTrip.{readi-writei}
use osmini_project.Fs.Trunc.{itrunc}
use osmini_project.Fs.Trunc.Whole.{Truncated, itrunc-Truncated, emptied}
use osmini_project.Fs.Table.{
  ilock, iunlock, iunlockput, State, iget, iget_from, iput, with_inode, add_ref, is_entry,
}
use osmini_project.Fs.Table.Unique.{IsTable, iget-IsTable, is_entry_ids}
use osmini_project.Fs.Table.Free.{IsGone, iput-IsGone}
use osmini_project.Fs.Dir.{
  read_entry, namecmp, dirlookup, dirlink, lookup_from, empty_from, write_entry, make_entry,
}
use osmini_project.Str.{strncmp, strncmp_from, strncpy, pad}
use osmini_project.Fs.Dir.Entries.{IsDirectory}
use osmini_project.Fs.Dir.RoundTrip.{dirlookup-dirlink}
use osmini_project.Fs.Path.{
  namex, namex_from, namex_body, namex_end, skipelem, skip_slashes, take_element, copy_name, Result,
}
use osmini_project.Fs.Path.Unlocked.{IsUnlocked, namex-IsUnlocked}
use osmini_project.Fs.Path.Resolve.{namex-resolve, resolve, start}
use osmini_project.Fs.Path.Elements.{elements}

abbrev small_sb : Superblock
small_sb = record { size = 64; ninodes = 32; inodestart = 32; bmapstart = 45 }

abbrev free_dinode : Dinode
free_dinode = record { kind = 0; major = 0; minor = 0; nlink = 0; size = 0; addrs = λ _. 0 }

-- The first 16 blocks are in use.
abbrev small_disk : Disk
small_disk = record {
  map = λ i. if ltb i 2 then 255 else 0;
  dinode = λ _. free_dinode;
  block = λ _. zero_block;
  logged = [];
}

abbrev empty_file : Inode
empty_file = record {
  dev = 1;
  inum = 9;
  ref = 1;
  valid = true;
  kind = 1;
  major = 0;
  minor = 0;
  nlink = 0;
  size = 0;
  addrs = λ _. 0;
}

-- Its first block is block 5.
abbrev one_file : Inode
one_file = record empty_file { addrs = update (λ _. 0) 0 5 }

one_file_elsewhere : (c : ℕ) → c ≤ maxfile → c ≢ 0 → block_of one_file small_disk c ≡ 0
one_file_elsewhere c le ne =
    block_of-agree empty_file one_file small_disk small_disk c le (λ _. update_ne (λ _. 0) 0 5 c ne)
      (λ _. refl) (λ some_table. absurd (some_table refl))
    ∙ emptied small_sb empty_file small_disk (λ _ _. refl) refl c le

one_file_first : block_of one_file small_disk 0 ≡ 5
unfolding block_of
one_file_first = refl

one_file-IsMapped : IsMapped small_sb one_file small_disk
unfolding bit
one_file-IsMapped = record {
  boot = refl;
  used = λ c le ne. elim (ℕ_discrete c 0) [
    | yes first ↦ rw (first, one_file_first)
    | no other ↦ absurd (ne (one_file_elsewhere c le other))
  ];
  inside = λ c le ne. elim (ℕ_discrete c 0) [
    | yes first ↦ rw (first, one_file_first) (omega arith)
    | no other ↦ absurd (ne (one_file_elsewhere c le other))
  ];
  distinct = λ c c' le le' ne e. elim (ℕ_discrete c 0) [
    | yes first ↦ elim (ℕ_discrete c' 0) [
      | yes first' ↦ first ∙ sym first'
      | no other ↦ absurd (ne (e ∙ one_file_elsewhere c' le' other))
    ]
    | no other ↦ absurd (ne (one_file_elsewhere c le other))
  ];
}

some_not_none : {v : ℕ} → some v ≢ none
some_not_none e = cc

balloc-Balloc_example : Balloc small_sb small_disk (balloc small_sb small_disk)
balloc-Balloc_example = balloc-Balloc small_sb small_disk

bmap-Found_example :
    (addr : ℕ) × (ip : Inode) × (d : Disk) × (bmap small_sb 100 one_file small_disk
      ≡ some (addr, ip, d))
    × Found small_sb 100 addr one_file small_disk ip d
bmap-Found_example =
    bmap-Found small_sb 100 one_file small_disk (omega arith) (omega arith) one_file-IsMapped

abbrev text : Mem
text a = some (a % 256)

writei-eq-none_example :
    writei small_sb text 7 5 3 one_file small_disk ≡ some (none, one_file, small_disk)
writei-eq-none_example =
    writei-eq-none small_sb text 7 5 3 one_file small_disk (omega arith) (omega arith)
      (inl (omega arith))

abbrev long_file : Inode
long_file = record one_file { size = 1500 }

long_file-IsMapped : IsMapped small_sb long_file small_disk
unfolding block_of
long_file-IsMapped = record {
  boot = one_file-IsMapped.boot;
  used = one_file-IsMapped.used;
  inside = one_file-IsMapped.inside;
  distinct = one_file-IsMapped.distinct;
}

readi-Read_example :
    (r : Option ℕ) × (ip : Inode) × (d : Disk) × (mem : Mem) × (readi small_sb text 3 1000 4000
        long_file small_disk
      ≡ some (r, ip, d, mem))
    × Read small_sb text (min 4000 500) 0 1000 3 long_file small_disk r ip d mem
readi-Read_example =
    readi-Read small_sb text 3 1000 4000 long_file small_disk (omega arith) (omega arith)
      (omega arith) (omega arith) long_file-IsMapped

abbrev written : Option (Option ℕ × Inode × Disk)
written = writei small_sb text 7 0 3 one_file small_disk

abbrev written_file : Inode
written_file = elim written [ none ↦ one_file | some (_, ip, _) ↦ ip ]

abbrev written_disk : Disk
written_disk = elim written [ none ↦ small_disk | some (_, _, d) ↦ d ]

writei_runs :
    writei small_sb text 7 0 3 one_file small_disk ≡ some (some 3, written_file, written_disk)
unfolding writei write_loop bmap slot copy_in
writei_runs = refl

readi-writei_example :
    (ip : Inode) × (d : Disk) × (mem : Mem) × (readi small_sb text 20 0 3 written_file written_disk
      ≡ some (some 3, ip, d, mem))
    × ((k : ℕ) → k < 3 → mem (20 + k) ≡ text (7 + k))
    × ((x : ℕ) → (x < 20) ⊎ (20 + 3 ≤ x) → mem x ≡ text x)
readi-writei_example =
    readi-writei small_sb text text 7 20 0 3 one_file small_disk written_file written_disk
      (omega arith) (omega arith) (omega arith) (omega arith) one_file-IsMapped writei_runs
      (λ k lt. some_not_none)

itrunc-Truncated_example :
    (ip : Inode) × (d : Disk) × (itrunc small_sb one_file small_disk ≡ some (ip, d))
    × Truncated small_sb one_file small_disk ip d
itrunc-Truncated_example = itrunc-Truncated small_sb one_file small_disk one_file-IsMapped

-- The table at the start, but for entry 3.
abbrev small_state : State
small_state = record {
  inode = update (λ _. record empty_file { ref = 0; dev = 0; inum = 0 }) 3 one_file;
  locked = λ _. false;
  disk = small_disk;
}

only_entry : (dev inum i : ℕ) → is_entry dev inum (small_state.inode i) ≡ true → i ≡ 3
only_entry dev inum i e = elim (ℕ_discrete i 3) [
  | yes same ↦ same
  | no ne ↦
      let (_, _, held) = is_entry_ids (small_state.inode i) e in
      absurd (
        held (
          ap (λ (ip : Inode). ip.ref)
            (update_ne (λ _. record empty_file { ref = 0; dev = 0; inum = 0 }) 3 one_file i ne)))
]

small_state-IsTable : IsTable small_state
unfolding IsTable
small_state-IsTable dev inum i j _ _ e e' = only_entry dev inum i e ∙ sym (only_entry dev inum j e')

iget_runs : iget 1 9 small_state ≡ some (3, with_inode 3 (add_ref one_file) small_state)
unfolding iget iget_from
iget_runs = refl

iget-IsTable_example : IsTable (with_inode 3 (add_ref one_file) small_state)
iget-IsTable_example =
    iget-IsTable 1 9 small_state 3 (with_inode 3 (add_ref one_file) small_state) small_state-IsTable
      iget_runs

iput-IsGone_example :
    (k : State) × (iput small_sb 3 small_state ≡ some k) × IsGone small_sb 3 small_state k
iput-IsGone_example = iput-IsGone small_sb 3 small_state refl refl refl refl one_file-IsMapped

one_file-IsDirectory : IsDirectory small_sb one_file small_disk
one_file-IsDirectory = record {
  is_dir = refl;
  mapped = one_file-IsMapped;
  most = omega arith;
  whole = refl;
  filled = λ o lt. absurd (omega arith);
}

abbrev linked : Option (Bool × State)
linked = dirlink small_sb 3 (97 ∷ []) 7 small_state

abbrev linked_state : State
linked_state = elim linked [ none ↦ small_state | some (_, k) ↦ k ]

dirlink_runs : dirlink small_sb 3 (97 ∷ []) 7 small_state ≡ some (true, linked_state)
unfolding dirlink dirlookup lookup_from empty_from write_entry writei write_loop bmap slot copy_in
    make_entry strncpy pad
dirlink_runs = refl

dirlookup-dirlink_example :
    (off : ℕ) × (((iget (linked_state.inode 3).dev 7 linked_state ≡ none)
        × (dirlookup small_sb 3 (97 ∷ []) linked_state ≡ none))
      ⊎ ((i : ℕ) × (k : State) × (iget (linked_state.inode 3).dev 7 linked_state ≡ some (i, k))
          × (dirlookup small_sb 3 (97 ∷ []) linked_state ≡ some (some (off, i), k))))
dirlookup-dirlink_example =
    dirlookup-dirlink small_sb (omega arith) 3 (97 ∷ []) 7 small_state linked_state
      one_file-IsDirectory (λ o from lt. absurd (omega arith)) (omega arith) (omega arith)
      (λ e. absurd (omega arith)) dirlink_runs

namex-resolve_example :
    namex small_sb 3 (47 ∷ 97 ∷ []) false [] small_state
    ≡ elim (start small_sb 3 (47 ∷ 97 ∷ []) small_state) as (λ _. Result) [
      | none ↦ none
      | some (ip, k) ↦ resolve small_sb false (elements (47 ∷ 97 ∷ [])) [] ip k
    ]
namex-resolve_example = namex-resolve small_sb 3 (47 ∷ 97 ∷ []) [] false small_state

-- The directory is the root.
abbrev root_state : State
root_state = with_inode 3 (record (linked_state.inode 3) { inum = 1 }) linked_state

abbrev walked : Result
walked = namex small_sb 3 (47 ∷ 47 ∷ 97 ∷ []) false [] root_state

abbrev walked_state : State
walked_state = elim walked [ none ↦ linked_state | some (_, _, k) ↦ k ]

namex_runs :
    namex small_sb 3 (47 ∷ 47 ∷ 97 ∷ []) false [] root_state
    ≡ some (some 0, 97 ∷ 0 ∷ [], walked_state)
unfolding namex namex_from namex_body skipelem skip_slashes take_element copy_name namex_end iget
    iget_from ilock iunlock iunlockput iput dirlookup lookup_from read_entry readi read_loop dirlink
    empty_from write_entry writei write_loop bmap slot copy_in copy_out namecmp strncmp strncmp_from
    make_entry strncpy pad iupdate
namex_runs = refl

namex-IsUnlocked_example : IsUnlocked walked_state
unfolding dirlink dirlookup lookup_from empty_from write_entry writei write_loop bmap slot copy_in
    make_entry
namex-IsUnlocked_example =
    namex-IsUnlocked small_sb 3 (47 ∷ 47 ∷ 97 ∷ []) [] (97 ∷ 0 ∷ []) false (some 0) root_state
      walked_state (λ j. refl) namex_runs
