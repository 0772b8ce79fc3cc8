-- ===== src/Fs/Dir/RoundTrip.antt =====
-- kernel/fs.c: `dirlookup` finds the entry that `dirlink` has added.
use osmini_project.Base.{
  ℕ, ◌+◌, ◌*◌, ◌%◌, ◌^◌, ◌≤◌, ◌<◌, ◌≡◌, ◌≢◌, ◌⊎◌, inl, inr, refl, sym, ap, ◌∙◌, Bool, true, false,
  List, arith, ℕ_discrete, Option, none, some, some-injective, subst,
}
use osmini_project.Fs.{Superblock, bsize, maxfile}
use osmini_project.Fs.Table.{State, iget}
use osmini_project.Fs.Dir.{dirent_size, dirlookup, dirlink}
use osmini_project.Fs.Dir.Entries.{entry_inum, has_name, IsDirectory}
use osmini_project.Fs.Dir.Lookup.{IsMissing, Lookup, absent, found, no_entry, dirlookup-Lookup}
use osmini_project.Fs.Dir.Link.{Linked, dirlink-Ends}

module _ (sb : Superblock) (bound : sb.size < 2 ^ 32) (dp : ℕ) (name : List ℕ) (inum : ℕ) where
  -- The lookup of the name that has been added.
  abbrev IsFoundAt : (off : ℕ) → State → Option (Option (ℕ × ℕ) × State) → Type 0
  IsFoundAt off k r =
      ((iget (k.inode dp).dev inum k ≡ none) × (r ≡ none))
      ⊎ ((i : ℕ) × (k' : State) × (iget (k.inode dp).dev inum k ≡ some (i, k'))
          × (r ≡ some (some (off, i), k')))

  Linked-only :
      (k k' : State) (off o : ℕ)
      → Linked sb bound dp name inum off k k'
      → IsMissing name (k.inode dp) k.disk 0 (k.inode dp).size
      → o < (k'.inode dp).size
      → o % dirent_size ≡ 0
      → has_name name (k'.inode dp) k'.disk o ≡ true
      → o ≡ off
  Linked-only k k' off o l gone lt whole here = elim (ℕ_discrete o off) [
    | yes same ↦ same
    | no ne ↦
        let (small, same) = l.others o name whole ne lt in
        let other = gone o (omega arith) small whole in cc
  ]

  Linked-IsFoundAt :
      (k k' : State) (off : ℕ) (r : Option (Option (ℕ × ℕ) × State))
      → Linked sb bound dp name inum off k k'
      → IsMissing name (k.inode dp) k.disk 0 (k.inode dp).size
      → Lookup dp name k' r
      → IsFoundAt off k' r
  Linked-IsFoundAt k k' off _ l gone (absent none_there) =
      let clash = none_there off (omega arith) l.within l.whole in let named = l.named in cc
  Linked-IsFoundAt k k' off _ l gone (found o i k2 lt whole here _ got) =
      let same = Linked-only k k' off o l gone lt whole here in
      let number = ap (entry_inum (k'.inode dp) k'.disk) same ∙ l.number in
      inr (
        i,
        k2,
        sym (ap (λ n. iget (k'.inode dp).dev n k') number) ∙ got,
        ap (λ o. some (some (o, i), k2)) same,
      )
  Linked-IsFoundAt k k' off _ l gone (no_entry o lt whole here full) =
      let same = Linked-only k k' off o l gone lt whole here in
      let number = ap (entry_inum (k'.inode dp) k'.disk) same ∙ l.number in
      inl (sym (ap (λ n. iget (k'.inode dp).dev n k') number) ∙ full, refl)

  -- After a `dirlink` that has succeeded, for the number of an inode that is not 0 and of 16 bits, and a name that
  -- was in no entry of a well-formed directory without holes that has room for an entry, `dirlookup` of the name
  -- gives the entry of the table that `iget` has for that inode, and panics only if `iget` does.
  pub dirlookup-dirlink :
      (k k' : State)
      → IsDirectory sb (k.inode dp) k.disk
      → IsMissing name (k.inode dp) k.disk 0 (k.inode dp).size
      → (k.inode dp).size + dirent_size ≤ maxfile * bsize
      → inum < 2 ^ 16
      → inum ≢ 0
      → dirlink sb dp name inum k ≡ some (true, k')
      → (off : ℕ) × IsFoundAt off k' (dirlookup sb dp name k')
  dirlookup-dirlink k k' dir gone room small ne e =
      let (k1, ends) = dirlink-Ends sb bound dp name inum k dir gone room small ne in
      elim ends [
        | inr (failed, _) ↦
            let clash : false ≡ true =
              ap (λ (p : Bool × State). p.0) (some-injective _ _ (sym failed ∙ e)) in
            cc
        | inl (off, added, l) ↦
            let same : k1 ≡ k' =
              ap (λ (p : Bool × State). p.1) (some-injective _ _ (sym added ∙ e)) in
            subst (λ k2. (off : ℕ) × IsFoundAt off k2 (dirlookup sb dp name k2)) same
              (
                off,
                Linked-IsFoundAt k k1 off (dirlookup sb dp name k1) l gone
                    (dirlookup-Lookup sb bound dp name k1 l.directory),
              )
      ]
