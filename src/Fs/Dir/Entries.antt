-- ===== src/Fs/Dir/Entries.antt =====
-- kernel/fs.c: the entries of a directory, and reading one.
use osmini_project.Base.{
  list_of-agree, list_of, ℕ, zero, ◌+◌, ◌-◌, ◌*◌, ◌/◌, ◌%◌, ◌^◌, ◌≤◌, ◌<◌, ◌≡◌, ◌≢◌, sym, ap, ap₂,
  ◌∙◌, Bool, true, not, ◌&&◌, List, ◌==◌, arith, ℕ_discrete, Option, none, some, subst, update,
  update_self, update_ne, min, ltb,
}
use osmini_project.Fs.{Superblock, Inode, Disk, bsize, maxfile}
use osmini_project.Fs.Map.Numbers.{block_of, IsMapped}
use osmini_project.Fs.Content.{Mem, readi}
use osmini_project.Fs.Content.Copy.{IsMappedAt}
use osmini_project.Fs.Content.Progress.{byte}
use osmini_project.Fs.Content.Read.{ReadEnd}
use osmini_project.Fs.Content.ReadAll.{readi-Read}
use osmini_project.Fs.Content.RoundTrip.{ReadEnd-whole}
use osmini_project.Fs.Table.{State}
use osmini_project.Fs.Dir.{
  t_dir, dirsiz, dirent_size, namecmp, de_memory, byte_at, de_inum, de_name, read_entry,
}

-- The entry at `off` of a file.
abbrev pub entry_inum : Inode → Disk → ℕ → ℕ
entry_inum ip d off = byte ip d off + 2 ^ 8 * byte ip d (off + 1)

abbrev pub entry_name : Inode → Disk → ℕ → List ℕ
entry_name ip d off = list_of dirsiz (byte ip d) (off + 2)

-- Whether it is in use and has the name.
unfoldable pub has_name : List ℕ → Inode → Disk → ℕ → Bool
has_name name ip d off = not (entry_inum ip d off == 0) && namecmp name (entry_name ip d off) == 0

-- A directory without holes, of whole entries.
pub record IsDirectory (sb : Superblock) (ip : Inode) (d : Disk) : Type 0 where
  pub is_dir : ip.kind ≡ t_dir
  pub mapped : IsMapped sb ip d
  pub most : ip.size ≤ maxfile * bsize
  pub whole : ip.size % dirent_size ≡ 0
  pub filled : (o : ℕ) → o < ip.size → block_of ip d (o / bsize) ≢ 0

de_memory_lem : (a : ℕ) → a < dirent_size → de_memory a ≡ some 0
de_memory_lem a lt = let small : ltb a dirent_size ≡ true = ground arith in rw small

de_memory_mapped : IsMappedAt de_memory 0 dirent_size
de_memory_mapped a lt miss =
    let clash : some zero ≡ none = sym (de_memory_lem (0 + a) (omega arith)) ∙ miss in cc

pub byte_at_lem : (mem : Mem) (a : ℕ) {v : ℕ} → mem a ≡ some v → byte_at mem a ≡ v
byte_at_lem mem a e = rw (e, byte_at)

update_same : (f : ℕ → Inode) (i : ℕ) (v : Inode) → v ≡ f i → update f i v ≡ f
update_same f i v e t j = pointwise j t
  where
    pointwise : (j : ℕ) → update f i v j ≡ f j
    pointwise j = elim (ℕ_discrete j i) [
      | yes same ↦ ap (update f i v) same ∙ update_self f i v ∙ e ∙ sym (ap f same)
      | no ne ↦ update_ne f i v j ne
    ]

module _ (sb : Superblock) (bound : sb.size < 2 ^ 32) where
  read_entry_step :
      (dp off : ℕ) (k : State) (r : Option ℕ) (ip : Inode) (d : Disk) (de : Mem)
      → readi sb de_memory 0 off dirent_size (k.inode dp) k.disk ≡ some (r, ip, d, de)
      → r ≡ some dirent_size
      → ip ≡ k.inode dp
      → d ≡ k.disk
      → read_entry sb dp off k ≡ some (de, k)
  unfolding read_entry
  read_entry_step dp off k r ip d de e all same_ip same_d =
      rw (e, all, read_entry)
        (ap₂ (λ inodes d. some (de, record k { inode = inodes; disk = d }))
          (update_same k.inode dp ip same_ip) same_d)

  -- Reading an entry gives it, and changes nothing.
  pub read_entry_lem :
      (dp off : ℕ) (k : State)
      → IsDirectory sb (k.inode dp) k.disk
      → off + dirent_size ≤ (k.inode dp).size
      → (de : Mem) × (read_entry sb dp off k ≡ some (de, k))
        × (de_inum de ≡ entry_inum (k.inode dp) k.disk off)
        × (de_name de ≡ entry_name (k.inode dp) k.disk off)
  read_entry_lem dp off k dir room =
      let most = dir.most in
      let (r, ip, d, de, e, t) =
        readi-Read sb de_memory 0 off dirent_size (k.inode dp) k.disk (omega arith) most
          (omega arith) bound dir.mapped in
      let all : min dirent_size ((k.inode dp).size - off) ≡ dirent_size = omega arith in
      let filled : (o : ℕ)
          → off ≤ o
          → o < off + dirent_size
          → block_of (k.inode dp) k.disk (o / bsize) ≢ 0 =
        λ o _ lt. dir.filled o (omega arith) in
      let (same_ip, same_d) = t.pure (λ h. filled h.0 h.1 (let lt = h.2 in omega arith) h.3) in
      let (got, bytes) =
        ReadEnd-whole sb r de_memory_mapped filled
          (subst (λ n. ReadEnd sb de_memory n 0 off 0 (k.inode dp) k.disk d de r) all t.end) in
      let at : (a o : ℕ)
          → a < dirent_size
          → off + a ≡ o
          → byte_at de a ≡ byte (k.inode dp) k.disk o =
        λ a o lt place. byte_at_lem de a (
          let same : 0 + a ≡ a = omega arith in
          sym (ap de same) ∙ bytes a lt ∙ ap (λ o. some (byte (k.inode dp) k.disk o)) place) in
      (
        de,
        read_entry_step dp off k r ip d de e got same_ip same_d,
        ap₂ (λ a b. a + 2 ^ 8 * b) (at 0 off (omega arith) (omega arith))
            (at 1 (off + 1) (omega arith) (omega arith)),
        list_of-agree dirsiz (byte_at de) (byte (k.inode dp) k.disk) 2 (off + 2)
            (λ j lt. at (2 + j) (off + 2 + j) (omega arith) (omega arith)),
      )
