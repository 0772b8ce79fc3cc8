-- ===== src/Fs/Content/Read.antt =====
-- kernel/fs.c: `readi` reads the bytes of the file.
use osmini_project.Base.{
  ℕ, ◌+◌, ◌-◌, ◌*◌, ◌/◌, ◌≤◌, ◌<◌, ◌≡◌, ◌⊎◌, inl, inr, refl, sym, ap, ◌∙◌, arith, Option, none,
  some, dec_lt, ℕ_discrete,
}
use osmini_project.Fs.{Disk, Inode, Superblock, bsize, maxfile}
use osmini_project.Fs.Map.Numbers.{block_of}
use osmini_project.Fs.Map.Laws.{Extends, Extends-trans}
use osmini_project.Fs.Content.{Mem, read_loop}
use osmini_project.Fs.Content.Copy.{IsMappedAt, mapped_part}
use osmini_project.Fs.Content.Progress.{byte, byte_agree}
use osmini_project.Fs.Content.Write.{IsFull}

-- One of `n` bytes at `off` is in a hole.
abbrev pub IsHoled : Inode → Disk → (off n : ℕ) → Type 0
IsHoled ip d off n = (o : ℕ) × (off ≤ o) × (o < off + n) × (block_of ip d (o / bsize) ≡ 0)

-- The loop from `tot` and `off` has returned `tot'`: the bytes between are in the memory at `da`.
pub record ReadTo (sb : Superblock) (n tot off da : ℕ) (ip : Inode) (d : Disk) (tot' : ℕ)
    (d' : Disk) (mem' : Mem) : Type 0 where
  pub more : tot ≤ tot'
  pub most : tot' ≤ n
  pub inside : (k : ℕ) → k < tot' - tot → mem' (da + k) ≡ some (byte ip d (off + k))
  pub complete : (tot' ≡ n) ⊎ (IsFull sb d' × IsHoled ip d off (n - tot))

-- Or the copy has faulted, which it does not where the memory is mapped.
pub data ReadEnd (sb : Superblock) (mem : Mem) (n tot off da : ℕ) (ip : Inode) (d : Disk)
    (d' : Disk) (mem' : Mem) : Option ℕ → Type 0 where
  fault : ¬ IsMappedAt mem da (n - tot) → ReadEnd sb mem n tot off da ip d d' mem' none
  read :
      (tot' : ℕ)
      → ReadTo sb n tot off da ip d tot' d' mem'
      → ReadEnd sb mem n tot off da ip d d' mem' (some tot')

pub record Read (sb : Superblock) (mem : Mem) (n tot off da : ℕ) (ip : Inode) (d : Disk)
    (r : Option ℕ) (ip' : Inode) (d' : Disk) (mem' : Mem) : Type 0 where
  pub extends : Extends sb ip d ip' d'
  pub outside : (x : ℕ) → (x < da) ⊎ (da + (n - tot) ≤ x) → mem' x ≡ mem x
  pub pure : ¬ IsHoled ip d off (n - tot) → (ip' ≡ ip) × (d' ≡ d)
  pub end : ReadEnd sb mem n tot off da ip d d' mem' r

module _ (sb : Superblock) (n : ℕ) where
  abbrev Returns : (rounds : ℕ) → Mem → (tot off da : ℕ) → Inode → Disk → Type 0
  Returns rounds mem tot off da ip d =
      (r : Option ℕ) × (ip' : Inode) × (d' : Disk) × (mem' : Mem) × (read_loop sb rounds mem n tot
          off da ip d
        ≡ some (r, ip', d', mem'))
      × Read sb mem n tot off da ip d r ip' d' mem'

  pub Read-none :
      {ip ip' : Inode} {d d' : Disk} {mem : Mem} (tot off da : ℕ)
      → tot ≤ n
      → Extends sb ip d ip' d'
      → (¬ IsHoled ip d off (n - tot) → (ip' ≡ ip) × (d' ≡ d))
      → (tot ≡ n) ⊎ (IsFull sb d' × IsHoled ip d off (n - tot))
      → Read sb mem n tot off da ip d (some tot) ip' d' mem
  Read-none tot off da le e pure complete = record {
    extends = e;
    outside = λ _ _. refl;
    pure = pure;
    end = read tot (record {
      more = omega arith;
      most = le;
      inside = λ k lt. absurd (omega arith);
      complete = complete;
    });
  }

  -- A chunk of `m` bytes, and then the rest of the loop.
  module _ {ip ip1 : Inode} {d d1 : Disk} {mem mem1 : Mem} (tot off da m : ℕ) (part : m ≤ n - tot)
      (room : off + (n - tot) ≤ maxfile * bsize) (e : Extends sb ip d ip1 d1)
      (pure1 : ¬ IsHoled ip d off (n - tot) → (ip1 ≡ ip) × (d1 ≡ d))
      (chunk_outside : (x : ℕ) → (x < da) ⊎ (da + m ≤ x) → mem1 x ≡ mem x)
      (chunk_inside : (k : ℕ) → k < m → mem1 (da + k) ≡ some (byte ip1 d1 (off + k)))
      (still : (at k : ℕ) → IsMappedAt mem at k → IsMappedAt mem1 at k) where
    still_hole :
        (o : ℕ)
        → o / bsize ≤ maxfile
        → block_of ip1 d1 (o / bsize) ≡ 0
        → block_of ip d (o / bsize) ≡ 0
    still_hole o le hole = elim (ℕ_discrete (block_of ip d (o / bsize)) 0) [
      | yes nil ↦ nil
      | no ne ↦ sym (e.keeps.kept (o / bsize) le ne) ∙ hole
    ]

    ReadEnd-chunk :
        {d2 : Disk} {mem2 : Mem} (r : Option ℕ)
        → ((x : ℕ) → (x < da + m) ⊎ (da + m + (n - (tot + m)) ≤ x) → mem2 x ≡ mem1 x)
        → ReadEnd sb mem1 n (tot + m) (off + m) (da + m) ip1 d1 d2 mem2 r
        → ReadEnd sb mem n tot off da ip d d2 mem2 r
    ReadEnd-chunk _ outside (fault not_mapped) = fault (λ mapped. not_mapped (
        still (da + m) (n - (tot + m))
          (mapped_part mem da (n - tot) m (n - (tot + m)) mapped (omega arith))))
    ReadEnd-chunk {mem2 = mem2} _ outside (read tot' t) =
        let more = t.more in
        let most = t.most in
        read tot' (record {
          more = omega arith;
          most = t.most;
          inside = λ k lt. elim (dec_lt k m) [
            | yes first ↦
                outside (da + k) (inl (omega arith))
                ∙ chunk_inside k first
                ∙ ap some (byte_agree e (off + k) (omega arith))
            | no later ↦
                let place : da + m + (k - m) ≡ da + k = omega arith in
                let place' : off + m + (k - m) ≡ off + k = omega arith in
                sym (ap mem2 place)
                ∙ t.inside (k - m) (omega arith)
                ∙ ap some (ap (byte ip1 d1) place' ∙ byte_agree e (off + k) (omega arith))
          ];
          complete = elim t.complete [
            | inl all ↦ inl all
            | inr (full, (o, from, lt, hole)) ↦
                inr (full, (o, omega arith, omega arith, still_hole o (omega arith) hole))
          ];
        })

    pub Read-chunk :
        {ip2 : Inode} {d2 : Disk} {mem2 : Mem} {r : Option ℕ}
        → Read sb mem1 n (tot + m) (off + m) (da + m) ip1 d1 r ip2 d2 mem2
        → Read sb mem n tot off da ip d r ip2 d2 mem2
    Read-chunk {r = r} w = record {
      extends = Extends-trans sb e w.extends;
      outside = λ x out. w.outside x (ground arith) ∙ chunk_outside x (ground arith);
      pure = λ filled.
          let (same_ip, same_d) = pure1 filled in
          let (same_ip', same_d') = w.pure (λ h. filled (
            h.0,
            (let from = h.1 in omega arith),
            (let lt = h.2 in omega arith),
            still_hole h.0 (let lt = h.2 in omega arith) h.3,
          )) in
          (same_ip' ∙ same_ip, same_d' ∙ same_d);
      end = ReadEnd-chunk r w.outside w.end;
    }
