-- ===== src/Fs/Dir/Link.antt =====
-- kernel/fs.c: `dirlink` adds an entry.
use osmini_project.Base.{
  ℕ, zero, suc, ◌+◌, ◌-◌, ◌*◌, ◌%◌, ◌^◌, ◌≤◌, ◌<◌, ◌≡◌, ◌≢◌, ◌⊎◌, inl, inr, refl, sym, ap, ap₂, ◌∙◌,
  Bool, true, false, not, ◌&&◌, List, ◌==◌, arith, ℕ_discrete, Option, none, some, subst, ltb,
  dec_lt, Bool-cases, update, update_self, update_ne,
}
use osmini_project.Str.{strncpy}
use osmini_project.Fs.{Superblock, Inode, Disk, bsize, maxfile}
use osmini_project.Fs.Content.{writei}
use osmini_project.Fs.Content.Write.{IsFull}
use osmini_project.Fs.Content.Written.{Written, writei-Written}
use osmini_project.Fs.Table.{State}
use osmini_project.Fs.Dir.{
  dirsiz, dirent_size, namecmp, de_inum, make_entry, empty_from, write_entry, dirlookup, dirlink,
}
use osmini_project.Fs.Dir.Entries.{entry_inum, has_name, IsDirectory, read_entry_lem}
use osmini_project.Fs.Dir.Lookup.{IsMissing, Lookup, absent, found, no_entry, dirlookup-Lookup}
use osmini_project.Fs.Dir.Written.{
  fresh_name, make_entry_mapped, inum_written, has_name_written, others_same, written-IsDirectory,
}

module _ (sb : Superblock) (bound : sb.size < 2 ^ 32) (dp : ℕ) (name : List ℕ) (inum : ℕ) where
  -- The offset of an empty entry, or the end.
  empty_from_lem :
      (rounds off : ℕ) (k : State)
      → IsDirectory sb (k.inode dp) k.disk
      → (k.inode dp).size - off < rounds
      → off % dirent_size ≡ 0
      → off ≤ (k.inode dp).size
      → (o : ℕ) × (empty_from sb rounds off dp k ≡ some (o, k))
        × (o % dirent_size ≡ 0)
        × (o ≤ (k.inode dp).size)
  unfolding empty_from
  empty_from_lem zero off k dir enough whole le = absurd (omega arith)
  empty_from_lem (suc rounds) off k dir enough whole le = elim (dec_lt off (k.inode dp).size) [
    | no end ↦
        let stop : ltb off (k.inode dp).size ≡ false = ground arith in
        (off, rw (stop, empty_from), whole, le)
    | yes lt ↦
        let whole_size = dir.whole in
        let (de, e, same_inum, _) = read_entry_lem sb bound dp off k dir (omega arith) in
        let going : ltb off (k.inode dp).size ≡ true = ground arith in
        elim (Bool-cases (de_inum de == 0)) [
          | inl free ↦ (off, rw (going, e, free, empty_from), whole, le)
          | inr used ↦
              let (o, e2, whole2, le2) =
                empty_from_lem rounds (off + dirent_size) k dir (omega arith) (omega arith)
                  (omega arith) in
              (o, rw (going, e, used, empty_from) e2, whole2, le2)
        ]
  ]

  -- The entry is in the directory, at `off`, and the others are as before.
  pub record Linked (off : ℕ) (k k' : State) : Type 0 where
    pub named : has_name name (k'.inode dp) k'.disk off ≡ true
    pub number : entry_inum (k'.inode dp) k'.disk off ≡ inum
    pub whole : off % dirent_size ≡ 0
    pub within : off < (k'.inode dp).size
    pub dev_same : (k'.inode dp).dev ≡ (k.inode dp).dev
    pub others :
        (o : ℕ) (n : List ℕ)
        → o % dirent_size ≡ 0
        → o ≢ off
        → o < (k'.inode dp).size
        → (o < (k.inode dp).size)
          × (has_name n (k'.inode dp) k'.disk o ≡ has_name n (k.inode dp) k.disk o)
    pub directory : IsDirectory sb (k'.inode dp) k'.disk
    pub entries : (i : ℕ) → i ≢ dp → k'.inode i ≡ k.inode i

  Written-Linked :
      (off : ℕ) (k : State) (ip' : Inode) (d' : Disk)
      → IsDirectory sb (k.inode dp) k.disk
      → inum < 2 ^ 16
      → inum ≢ 0
      → off % dirent_size ≡ 0
      → off ≤ (k.inode dp).size
      → off + dirent_size ≤ maxfile * bsize
      → Written sb
          (make_entry inum (strncpy fresh_name name dirsiz))
          0
          off
          dirent_size
          (k.inode dp)
          k.disk
          dirent_size
          ip'
          d'
      → Linked off k (record k { inode = update k.inode dp ip'; disk = d' })
  unfolding has_name
  Written-Linked off k ip' d' dir small ne whole le room w =
      let k' = record k { inode = update k.inode dp ip'; disk = d' } in
      let at : ip' ≡ k'.inode dp = sym (update_self k.inode dp ip') in
      let size_is = w.size_is in
      let whole_size = dir.whole in
      let dir' =
        written-IsDirectory sb name inum off (k.inode dp) k.disk ip' d' w whole le room dir in
      let most = dir'.most in
      record {
        named =
            subst (λ ip. has_name name ip d' off ≡ true) at
              (has_name_written sb name inum off (k.inode dp) k.disk ip' d' w small ne);
        number =
            subst (λ ip. entry_inum ip d' off ≡ inum) at
              (inum_written sb name inum off (k.inode dp) k.disk ip' d' w small);
        whole = whole;
        within = subst (λ (ip : Inode). off < ip.size) at (ground arith);
        dev_same = subst (λ (ip : Inode). ip.dev ≡ (k.inode dp).dev) at w.dev_same;
        others = λ o n whole' ne' lt.
            let lt' : o < ip'.size = subst (λ (ip : Inode). o < ip.size) (sym at) lt in
            let (same_inum, same_name) =
              others_same sb name inum off (k.inode dp) k.disk ip' d' w o whole whole' ne'
                (omega arith) in
            (
              ground arith,
              subst (λ ip. has_name n ip d' o ≡ has_name n (k.inode dp) k.disk o) at
                  (ap₂ (λ a b. not (a == 0) && namecmp n b == 0) same_inum same_name),
            );
        directory = subst (λ ip. IsDirectory sb ip d') at dir';
        entries = λ i ne'. update_ne k.inode dp ip' i ne';
      }

  write_entry_step :
      (off : ℕ) (k : State) (tot : ℕ) (ip' : Inode) (d' : Disk)
      → writei sb
          (make_entry inum (strncpy fresh_name name dirsiz))
          0
          off
          dirent_size
          (k.inode dp)
          k.disk
        ≡ some (some tot, ip', d')
      → write_entry sb dp off inum name k
        ≡ some (tot == dirent_size, record k { inode = update k.inode dp ip'; disk = d' })
  unfolding write_entry
  write_entry_step off k tot ip' d' e = rw (e, write_entry)

  -- What a `dirlink` that has not found the name ends with.
  abbrev pub Ends : State → Option (Bool × State) → Type 0
  Ends k r =
      (k' : State) × (((off : ℕ) × (r ≡ some (true, k')) × Linked off k k')
        ⊎ ((r ≡ some (false, k')) × IsFull sb k'.disk))

  write_entry-Ends :
      (off : ℕ) (k : State)
      → IsDirectory sb (k.inode dp) k.disk
      → inum < 2 ^ 16
      → inum ≢ 0
      → off % dirent_size ≡ 0
      → off ≤ (k.inode dp).size
      → off + dirent_size ≤ maxfile * bsize
      → Ends k (write_entry sb dp off inum name k)
  write_entry-Ends off k dir small ne whole le room =
      let de = make_entry inum (strncpy fresh_name name dirsiz) in
      let (tot, ip', d', e, w) =
        writei-Written sb de 0 off dirent_size (k.inode dp) k.disk le room bound dir.mapped in
      let k' = record k { inode = update k.inode dp ip'; disk = d' } in
      let step = write_entry_step off k tot ip' d' e in
      elim (ℕ_discrete tot dirent_size) [
        | yes all ↦
            let t : (tot == dirent_size) ≡ true = ground arith in
            (
              k',
              inl (
                off,
                step ∙ ap (λ b. some (b, k')) t,
                Written-Linked off k ip' d' dir small ne whole le room (
                    subst (λ t. Written sb de 0 off dirent_size (k.inode dp) k.disk t ip' d') all
                      w),
              ),
            )
        | no part ↦
            let t : (tot == dirent_size) ≡ false = ground arith in
            elim (w.complete (make_entry_mapped inum (strncpy fresh_name name dirsiz))) [
              | inl all ↦ absurd (part all)
              | inr full ↦ (k', inr (step ∙ ap (λ b. some (b, k')) t, full))
            ]
      ]

  dirlink_step :
      (k : State) (off : ℕ)
      → dirlookup sb dp name k ≡ some (none, k)
      → empty_from sb (suc (k.inode dp).size) 0 dp k ≡ some (off, k)
      → dirlink sb dp name inum k ≡ write_entry sb dp off inum name k
  unfolding dirlink
  dirlink_step k off e e' = rw (e, e', dirlink)

  -- Where no entry has the name, the lookup finds none.
  missing :
      (k : State) (r : Option (Option (ℕ × ℕ) × State))
      → Lookup dp name k r
      → IsMissing name (k.inode dp) k.disk 0 (k.inode dp).size
      → r ≡ some (none, k)
  missing k _ (absent _) gone = refl
  missing k _ (found off i k' lt whole here _ _) gone =
      let clash = gone off (omega arith) lt whole in cc
  missing k _ (no_entry off lt whole here _) gone =
      let clash = gone off (omega arith) lt whole in cc

  -- `dirlink` of a name that is not there adds the entry, or the disk is full.
  pub dirlink-Ends :
      (k : State)
      → IsDirectory sb (k.inode dp) k.disk
      → IsMissing name (k.inode dp) k.disk 0 (k.inode dp).size
      → (k.inode dp).size + dirent_size ≤ maxfile * bsize
      → inum < 2 ^ 16
      → inum ≢ 0
      → Ends k (dirlink sb dp name inum k)
  dirlink-Ends k dir gone room small ne =
      let looked =
        missing k (dirlookup sb dp name k) (dirlookup-Lookup sb bound dp name k dir) gone in
      let (off, e, whole, le) =
        empty_from_lem (suc (k.inode dp).size) 0 k dir (omega arith) refl (omega arith) in
      subst (Ends k) (sym (dirlink_step k off looked e))
        (write_entry-Ends off k dir small ne whole le (omega arith))
