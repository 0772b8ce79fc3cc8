-- ===== src/Fs/Dir/Lookup.antt =====
-- kernel/fs.c: `dirlookup` finds the first entry with the name.
use osmini_project.Base.{
  ℕ, zero, suc, ◌+◌, ◌-◌, ◌%◌, ◌^◌, ◌≤◌, ◌<◌, ◌≡◌, inl, inr, refl, sym, ap, ap₂, ◌∙◌, true, false,
  not, ◌&&◌, List, ◌==◌, arith, Option, none, some, subst, ltb, dec_lt, Bool-cases, Option-cases,
}
use osmini_project.Fs.{Superblock, Inode, Disk}
use osmini_project.Fs.Table.{State, iget}
use osmini_project.Fs.Dir.{t_dir, dirent_size, namecmp, de_inum, de_name, lookup_from, dirlookup}
use osmini_project.Fs.Dir.Entries.{entry_inum, has_name, IsDirectory, read_entry_lem}

-- No entry from `lo` to `hi` has the name.
abbrev pub IsMissing : List ℕ → Inode → Disk → (lo hi : ℕ) → Type 0
IsMissing name ip d lo hi =
    (o : ℕ) → lo ≤ o → o < hi → o % dirent_size ≡ 0 → has_name name ip d o ≡ false

-- The inode of the first entry with the name, or none, or a panic of `iget`.
pub data Lookup (dp : ℕ) (name : List ℕ) (k : State)
    : Option (Option (ℕ × ℕ) × State) → Type 0 where
  absent :
      IsMissing name (k.inode dp) k.disk 0 (k.inode dp).size → Lookup dp name k (some (none, k))
  found :
      (off i : ℕ) (k' : State)
      → off < (k.inode dp).size
      → off % dirent_size ≡ 0
      → has_name name (k.inode dp) k.disk off ≡ true
      → IsMissing name (k.inode dp) k.disk 0 off
      → iget (k.inode dp).dev (entry_inum (k.inode dp) k.disk off) k ≡ some (i, k')
      → Lookup dp name k (some (some (off, i), k'))
  no_entry :
      (off : ℕ)
      → off < (k.inode dp).size
      → off % dirent_size ≡ 0
      → has_name name (k.inode dp) k.disk off ≡ true
      → iget (k.inode dp).dev (entry_inum (k.inode dp) k.disk off) k ≡ none
      → Lookup dp name k none

module _ (sb : Superblock) (bound : sb.size < 2 ^ 32) (dp : ℕ) (name : List ℕ) (k : State)
    (dir : IsDirectory sb (k.inode dp) k.disk) where
  IsMissing-next :
      (off : ℕ)
      → off % dirent_size ≡ 0
      → has_name name (k.inode dp) k.disk off ≡ false
      → IsMissing name (k.inode dp) k.disk 0 off
      → IsMissing name (k.inode dp) k.disk 0 (off + dirent_size)
  IsMissing-next off whole here before o from lt whole' = elim (dec_lt o off) [
    | yes early ↦ before o from early whole'
    | no late ↦
        let same : o ≡ off = omega arith in ap (has_name name (k.inode dp) k.disk) same ∙ here
  ]

  -- The entry that is read has the name, or not.
  step_found :
      (rounds off : ℕ)
      → off < (k.inode dp).size
      → off % dirent_size ≡ 0
      → has_name name (k.inode dp) k.disk off ≡ true
      → IsMissing name (k.inode dp) k.disk 0 off
      → Lookup dp name k (lookup_from sb (suc rounds) off dp name k)
  unfolding lookup_from has_name
  step_found rounds off lt whole here before =
      let whole_size = dir.whole in
      let (de, e, same_inum, same_name) = read_entry_lem sb bound dp off k dir (omega arith) in
      let going : ltb off (k.inode dp).size ≡ true = ground arith in
      let hit : (not (de_inum de == 0) && namecmp name (de_name de) == 0) ≡ true =
        ap₂ (λ a b. not (a == 0) && namecmp name b == 0) same_inum same_name ∙ here in
      let at : iget (k.inode dp).dev (de_inum de) k
          ≡ iget (k.inode dp).dev (entry_inum (k.inode dp) k.disk off) k =
        ap (λ n. iget (k.inode dp).dev n k) same_inum in
      elim (Option-cases (iget (k.inode dp).dev (entry_inum (k.inode dp) k.disk off) k)) [
        | inl full ↦ rw (going, e, hit, at ∙ full, lookup_from) (no_entry off lt whole here full)
        | inr ((i, k'), got) ↦
            rw (going, e, hit, at ∙ got, lookup_from) (found off i k' lt whole here before got)
      ]

  step_next :
      (rounds off : ℕ)
      → off < (k.inode dp).size
      → off % dirent_size ≡ 0
      → has_name name (k.inode dp) k.disk off ≡ false
      → lookup_from sb (suc rounds) off dp name k
        ≡ lookup_from sb rounds (off + dirent_size) dp name k
  unfolding lookup_from has_name
  step_next rounds off lt whole here =
      let whole_size = dir.whole in
      let (de, e, same_inum, same_name) = read_entry_lem sb bound dp off k dir (omega arith) in
      let going : ltb off (k.inode dp).size ≡ true = ground arith in
      let miss : (not (de_inum de == 0) && namecmp name (de_name de) == 0) ≡ false =
        ap₂ (λ a b. not (a == 0) && namecmp name b == 0) same_inum same_name ∙ here in
      rw (going, e, miss, lookup_from)

  lookup_from-Lookup :
      (rounds off : ℕ)
      → (k.inode dp).size - off < rounds
      → off % dirent_size ≡ 0
      → IsMissing name (k.inode dp) k.disk 0 off
      → Lookup dp name k (lookup_from sb rounds off dp name k)
  unfolding lookup_from
  lookup_from-Lookup zero off enough whole before = absurd (omega arith)
  lookup_from-Lookup (suc rounds) off enough whole before = elim (dec_lt off (k.inode dp).size) [
    | no end ↦
        let stop : ltb off (k.inode dp).size ≡ false = ground arith in
        rw (stop, lookup_from) (absent (λ o from lt. before o from (omega arith)))
    | yes lt ↦ elim (Bool-cases (has_name name (k.inode dp) k.disk off)) [
      | inl here ↦ step_found rounds off lt whole here before
      | inr other ↦ subst (Lookup dp name k) (sym (step_next rounds off lt whole other)) (
          lookup_from-Lookup rounds (off + dirent_size) (omega arith) (omega arith)
            (IsMissing-next off whole other before))
    ]
  ]

  -- The rounds are enough, and no read fails.
  pub dirlookup-Lookup : Lookup dp name k (dirlookup sb dp name k)
  unfolding dirlookup
  dirlookup-Lookup =
      let is_dir : ((k.inode dp).kind == t_dir) ≡ true = let e = dir.is_dir in ground arith in
      rw is_dir (
        lookup_from-Lookup (suc (k.inode dp).size) 0 (omega arith) refl
          (λ o from lt. absurd (omega arith)))
