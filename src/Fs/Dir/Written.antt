-- ===== src/Fs/Dir/Written.antt =====
-- kernel/fs.c: a directory in which an entry has been written.
use osmini_project.Base.{
  list_of-agree, get_or-list_of, ℕ, ◌+◌, ◌-◌, ◌*◌, ◌/◌, ◌%◌, ◌^◌, ◌≤◌, ◌<◌, ◌≡◌, ◌≢◌, inl, inr,
  refl, sym, ap, ap₂, ◌∙◌, true, false, List, [], ◌∷◌, ◌==◌, arith, some, some-injective, ltb,
  dec_lt, Bool-cases, get_or,
}
use osmini_project.Str.{strncpy}
use osmini_project.Fs.{Superblock, Inode, Disk, bsize, maxfile}
use osmini_project.Fs.Content.Copy.{IsMappedAt}
use osmini_project.Fs.Content.Progress.{byte}
use osmini_project.Fs.Content.Written.{Written}
use osmini_project.Fs.Dir.{dirsiz, dirent_size, namecmp, make_entry}
use osmini_project.Fs.Dir.Names.{strncmp-strncpy}
use osmini_project.Fs.Dir.Entries.{entry_inum, entry_name, has_name, IsDirectory}

abbrev pub fresh_name : List ℕ
fresh_name = 0 ∷ 0 ∷ 0 ∷ 0 ∷ 0 ∷ 0 ∷ 0 ∷ 0 ∷ 0 ∷ 0 ∷ 0 ∷ 0 ∷ 0 ∷ 0 ∷ []

make_entry_byte :
    (inum : ℕ) (name : List ℕ) (j : ℕ)
    → j < dirsiz
    → make_entry inum name (2 + j) ≡ some (get_or name j 0)
unfolding make_entry
make_entry_byte inum name j lt =
    let a : (2 + j == 0) ≡ false = ground arith in
    let b : (2 + j == 1) ≡ false = ground arith in
    let c : ltb (2 + j) dirent_size ≡ true = ground arith in
    let place : 2 + j - 2 ≡ j = omega arith in rw (a, b, c, place)

pub make_entry_mapped : (inum : ℕ) (name : List ℕ) → IsMappedAt (make_entry inum name) 0 dirent_size
unfolding make_entry
make_entry_mapped inum name a lt miss = elim (Bool-cases (0 + a == 0)) [
  | inl first ↦ cc (rw first at miss)
  | inr other ↦ elim (Bool-cases (0 + a == 1)) [
    | inl second ↦ cc (rw (other, second) at miss)
    | inr rest ↦
        let small : ltb (0 + a) dirent_size ≡ true = ground arith in
        cc (rw (other, rest, small) at miss)
  ]
]

-- The entry is written in full.
module _ (sb : Superblock) (name : List ℕ) (inum off : ℕ) (ip : Inode) (d : Disk) (ip' : Inode)
    (d' : Disk)
    (w : Written sb
      (make_entry inum (strncpy fresh_name name dirsiz))
      0
      off
      dirent_size
      ip
      d
      dirent_size
      ip'
      d') where
  byte_written :
      (a o : ℕ)
      → a < dirent_size
      → off + a ≡ o
      → make_entry inum (strncpy fresh_name name dirsiz) a ≡ some (byte ip' d' o)
  byte_written a o lt place =
      let there : 0 + (o - off) ≡ a = omega arith in
      sym (ap (make_entry inum (strncpy fresh_name name dirsiz)) there)
      ∙ w.inside o (omega arith) (omega arith)

  pub inum_written : inum < 2 ^ 16 → entry_inum ip' d' off ≡ inum
  unfolding make_entry
  inum_written small =
      let low : inum % 2 ^ 8 ≡ byte ip' d' off =
        some-injective _ _ (byte_written 0 off (omega arith) (omega arith)) in
      let high : inum / 2 ^ 8 % 2 ^ 8 ≡ byte ip' d' (off + 1) =
        some-injective _ _ (byte_written 1 (off + 1) (omega arith) refl) in
      omega arith

  name_written : namecmp name (entry_name ip' d' off) ≡ 0
  unfolding namecmp
  name_written =
      strncmp-strncpy fresh_name name (entry_name ip' d' off) dirsiz (omega arith) (λ j lt.
        get_or-list_of dirsiz (byte ip' d') (off + 2) j lt
        ∙ some-injective _ _ (
            sym (byte_written (2 + j) (off + 2 + j) (omega arith) (omega arith))
            ∙ make_entry_byte inum (strncpy fresh_name name dirsiz) j lt))

  pub has_name_written : inum < 2 ^ 16 → inum ≢ 0 → has_name name ip' d' off ≡ true
  unfolding has_name
  has_name_written small ne =
      let used : (inum == 0) ≡ false = ground arith in rw (inum_written small, used, name_written)

  -- The other entries are as before.
  pub others_same :
      (o : ℕ)
      → off % dirent_size ≡ 0
      → o % dirent_size ≡ 0
      → o ≢ off
      → o + dirent_size ≤ maxfile * bsize
      → (entry_inum ip' d' o ≡ entry_inum ip d o) × (entry_name ip' d' o ≡ entry_name ip d o)
  others_same o whole whole' ne room = (
    ap₂ (λ a b. a + 2 ^ 8 * b) (w.outside o (omega arith) (ground arith))
        (w.outside (o + 1) (omega arith) (ground arith)),
    list_of-agree dirsiz (byte ip' d') (byte ip d) (o + 2) (o + 2)
        (λ j lt. w.outside (o + 2 + j) (omega arith) (ground arith)),
  )

  pub written-IsDirectory :
      off % dirent_size ≡ 0
      → off ≤ ip.size
      → off + dirent_size ≤ maxfile * bsize
      → IsDirectory sb ip d
      → IsDirectory sb ip' d'
  written-IsDirectory whole le room dir =
      let size_is = w.size_is in
      let whole_before = dir.whole in
      let most = dir.most in
      record {
        is_dir = w.kind_same ∙ dir.is_dir;
        mapped = w.mapped;
        most = ground arith;
        whole = ground arith;
        filled = λ o lt z. elim (dec_lt o ip.size) [
          | yes old ↦
              dir.filled o old (sym (w.kept (o / bsize) (omega arith) (dir.filled o old)) ∙ z)
          | no new ↦ w.filled o (omega arith) (ground arith) z
        ];
      }
