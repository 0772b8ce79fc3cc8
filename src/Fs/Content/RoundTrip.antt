-- ===== src/Fs/Content/RoundTrip.antt =====
-- kernel/fs.c: `readi` reads what `writei` has written.
use osmini_project.Base.{
  ℕ, ◌+◌, ◌-◌, ◌*◌, ◌/◌, ◌^◌, ◌≤◌, ◌<◌, ◌≡◌, ◌≢◌, ◌⊎◌, inl, inr, refl, sym, ap, ◌∙◌, arith, Option,
  some, some-injective, subst, min,
}
use osmini_project.Fs.{Disk, Inode, Superblock, bsize, maxfile}
use osmini_project.Fs.Map.Numbers.{block_of, IsMapped}
use osmini_project.Fs.Content.{Mem, readi, writei}
use osmini_project.Fs.Content.Copy.{IsMappedAt}
use osmini_project.Fs.Content.Progress.{byte}
use osmini_project.Fs.Content.Written.{Written, writei-Written}
use osmini_project.Fs.Content.Read.{ReadEnd, fault, read}
use osmini_project.Fs.Content.ReadAll.{readi-Read}

module _ (sb : Superblock) where
  pub written_of :
      {mem : Mem} {sa off n : ℕ} {ip : Inode} {d : Disk} {tot : ℕ} {ip' : Inode} {d' : Disk}
      → off ≤ ip.size
      → off + n ≤ maxfile * bsize
      → sb.size < 2 ^ 32
      → IsMapped sb ip d
      → writei sb mem sa off n ip d ≡ some (some tot, ip', d')
      → Written sb mem sa off n ip d tot ip' d'
  written_of {mem} {sa} {off} {n} {ip} {d} {tot} {ip'} {d'} le room bound m h =
      let (tot1, ip1, d1, e, w) = writei-Written sb mem sa off n ip d le room bound m in
      let same : (some tot1, ip1, d1) ≡ (some tot, ip', d') = some-injective _ _ (sym e ∙ h) in
      subst
        (λ (p : Option ℕ × Inode × Disk).
          (t : ℕ) → p.0 ≡ some t → Written sb mem sa off n ip d t p.1 p.2)
        same (λ t q. subst (λ t. Written sb mem sa off n ip d t ip1 d1) (some-injective _ _ q) w)
        tot refl

  -- A read of filled blocks into mapped memory is complete.
  pub ReadEnd-whole :
      {mem : Mem} {n off da : ℕ} {ip : Inode} {d d' : Disk} {mem' : Mem} (r : Option ℕ)
      → IsMappedAt mem da n
      → ((o : ℕ) → off ≤ o → o < off + n → block_of ip d (o / bsize) ≢ 0)
      → ReadEnd sb mem n 0 off da ip d d' mem' r
      → (r ≡ some n) × ((k : ℕ) → k < n → mem' (da + k) ≡ some (byte ip d (off + k)))
  ReadEnd-whole _ mapped filled (fault not_mapped) =
      absurd (not_mapped (λ k lt. mapped k (omega arith)))
  ReadEnd-whole {n = n} _ mapped filled (read tot t) = elim t.complete [
    | inl all ↦ (ap some all, λ k lt. t.inside k (omega arith))
    | inr (full, (o, from, lt, hole)) ↦ absurd (filled o from (omega arith) hole)
  ]

  -- What `writei` has written in full, `readi` reads back, whatever the disk has left.
  pub readi-writei :
      (mem mem1 : Mem) (sa da off n : ℕ) (ip : Inode) (d : Disk) (ip1 : Inode) (d1 : Disk)
      → off ≤ ip.size
      → ip.size ≤ maxfile * bsize
      → off + n ≤ maxfile * bsize
      → sb.size < 2 ^ 32
      → IsMapped sb ip d
      → writei sb mem sa off n ip d ≡ some (some n, ip1, d1)
      → IsMappedAt mem1 da n
      → (ip2 : Inode) × (d2 : Disk) × (mem2 : Mem) × (readi sb mem1 da off n ip1 d1
          ≡ some (some n, ip2, d2, mem2))
        × ((k : ℕ) → k < n → mem2 (da + k) ≡ mem (sa + k))
        × ((x : ℕ) → (x < da) ⊎ (da + n ≤ x) → mem2 x ≡ mem1 x)
  readi-writei mem mem1 sa da off n ip d ip1 d1 le most room bound m h mapped =
      let w = written_of le room bound m h in
      let size_is = w.size_is in
      let (r, ip2, d2, mem2, e, t) =
        readi-Read sb mem1 da off n ip1 d1 (ground arith) (ground arith) (omega arith) bound
          w.mapped in
      let whole : min n (ip1.size - off) - 0 ≡ n = ground arith in
      let whole' : min n (ip1.size - off) ≡ n = omega arith in
      let (all, bytes) =
        ReadEnd-whole r mapped w.filled
          (subst (λ k. ReadEnd sb mem1 k 0 off da ip1 d1 d2 mem2 r) whole' t.end) in
      (
        ip2,
        d2,
        mem2,
        e ∙ ap (λ r. some (r, ip2, d2, mem2)) all,
        λ k lt.
            let place : sa + (off + k - off) ≡ sa + k = omega arith in
            bytes k lt ∙ sym (w.inside (off + k) (omega arith) (omega arith)) ∙ ap mem place,
        λ x out. t.outside x (ground arith),
      )
