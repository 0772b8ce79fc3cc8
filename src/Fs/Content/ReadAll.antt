-- ===== src/Fs/Content/ReadAll.antt =====
-- kernel/fs.c: what `readi` returns, and that it reads what `writei` has written.
use osmini_project.Base.{
  ℕ, zero, suc, ◌+◌, ◌-◌, ◌*◌, ◌/◌, ◌%◌, ◌^◌, ◌≤◌, ◌<◌, ◌≡◌, ◌≢◌, ◌⊎◌, inl, inr, refl, ◌∙◌, true,
  false, ◌==◌, if◌then◌else◌, arith, Option, none, some, dec_lt, ℕ_discrete, min, ltb, Bool-cases,
  ◌||◌,
}
use osmini_project.Fs.{Disk, Inode, Superblock, bsize, maxfile}
use osmini_project.Fs.Map.{bmap}
use osmini_project.Fs.Map.Numbers.{block_of, IsMapped}
use osmini_project.Fs.Map.Laws.{Extends-refl}
use osmini_project.Fs.Map.Found.{Found}
use osmini_project.Fs.Map.Result.{bmap-Found}
use osmini_project.Fs.Content.{Mem, copy_out, chunk, read_loop, readi}
use osmini_project.Fs.Content.Copy.{
  copy_out_outside, copy_out_inside, copy_out_mapped, copy_out-IsMappedAt,
}
use osmini_project.Fs.Content.Progress.{byte}
use osmini_project.Fs.Content.Read.{Read, IsHoled, fault, Read-none, Read-chunk}

module _ (sb : Superblock) (n : ℕ) where
  abbrev Returns : (rounds : ℕ) → Mem → (tot off da : ℕ) → Inode → Disk → Type 0
  Returns rounds mem tot off da ip d =
      (r : Option ℕ) × (ip' : Inode) × (d' : Disk) × (mem' : Mem) × (read_loop sb rounds mem n tot
          off da ip d
        ≡ some (r, ip', d', mem'))
      × Read sb mem n tot off da ip d r ip' d' mem'

  -- The bytes of a chunk within one block.
  byte-copy_out :
      (ip : Inode) (d : Disk) (addr m : ℕ) (mem : Mem) (off da k : ℕ)
      → block_of ip d (off / bsize) ≡ addr
      → addr ≢ 0
      → off % bsize + m ≤ bsize
      → (copy_out m (d.block addr) (off % bsize) mem da).0 ≡ true
      → k < m
      → (copy_out m (d.block addr) (off % bsize) mem da).1 (da + k) ≡ some (byte ip d (off + k))
  unfolding byte
  byte-copy_out ip d addr m mem off da k at ne fits good lt =
      let same : (off + k) / bsize ≡ off / bsize = omega arith in
      let place : (off + k) % bsize ≡ off % bsize + k = omega arith in
      let got : (addr == 0) ≡ false = ground arith in
      rw (same, place, at, got) (copy_out_inside m (d.block addr) (off % bsize) mem da k good lt)

  read_round :
      (rounds : ℕ) (mem : Mem) (tot off da : ℕ) (ip : Inode) (d : Disk) (addr : ℕ) (ip1 : Inode)
      (d1 : Disk)
      → tot < n
      → off + (n - tot) ≤ maxfile * bsize
      → bmap sb (off / bsize) ip d ≡ some (addr, ip1, d1)
      → Found sb (off / bsize) addr ip d ip1 d1
      → ((mem1 : Mem)
          → Returns rounds mem1
              (tot + chunk n tot off)
              (off + chunk n tot off)
              (da + chunk n tot off)
              ip1
              d1)
      → Returns (suc rounds) mem tot off da ip d
  unfolding read_loop
  read_round rounds mem tot off da ip d addr ip1 d1 lt room e found next =
      let going : ltb tot n ≡ true = ground arith in
      let pure : ¬ IsHoled ip d off (n - tot) → (ip1 ≡ ip) × (d1 ≡ d) =
        λ filled. found.pure (λ hole. filled (off, omega arith, omega arith, hole)) in
      let m = chunk n tot off in
      let o = off % bsize in
      let fits : off % bsize + chunk n tot off ≤ bsize = omega arith in
      let part : chunk n tot off ≤ n - tot = omega arith in
      elim (ℕ_discrete addr 0) [
        | yes nil ↦
            let full : (addr == 0) ≡ true = ground arith in
            (
              some tot,
              ip1,
              d1,
              mem,
              rw (going, e, full, read_loop),
              Read-none sb n tot off da (omega arith) found.extends pure
                  (inr ((found.full nil).1, (off, omega arith, omega arith, (found.full nil).0))),
            )
        | no ne ↦
            let got : (addr == 0) ≡ false = ground arith in
            elim (Bool-cases (copy_out (chunk n tot off) (d1.block addr) (off % bsize) mem da).0) [
              | inr bad ↦ (
                none,
                ip1,
                d1,
                (copy_out m (d1.block addr) o mem da).1,
                rw (going, e, got, bad, read_loop),
                record {
                  extends = found.extends;
                  pure = pure;
                  outside = λ x out. copy_out_outside m (d1.block addr) o mem da x (ground arith);
                  end = fault (λ mapped.
                      (let good =
                          copy_out-IsMappedAt m (d1.block addr) o mem da
                            (λ k small. mapped k (omega arith)) in
                        cc));
                },
              )
              | inl good ↦
                  let (r, ip2, d2, mem2, e2, w) = next (copy_out m (d1.block addr) o mem da).1 in
                  (
                    r,
                    ip2,
                    d2,
                    mem2,
                    rw (going, e, got, good, read_loop) e2,
                    Read-chunk sb n tot off da m part room found.extends pure
                        (copy_out_outside m (d1.block addr) o mem da)
                        (λ k small.
                          byte-copy_out ip1 d1 addr m mem off da k (found.here ne) ne fits good
                            small)
                        (λ at k. copy_out_mapped m (d1.block addr) o mem da at k) w,
                  )
            ]
      ]

  read_loop-Read :
      (rounds : ℕ) (mem : Mem) (tot off da : ℕ) (ip : Inode) (d : Disk)
      → n - tot < rounds
      → tot ≤ n
      → off + (n - tot) ≤ maxfile * bsize
      → sb.size < 2 ^ 32
      → IsMapped sb ip d
      → Returns rounds mem tot off da ip d
  unfolding read_loop
  read_loop-Read zero mem tot off da ip d enough le room bound m = absurd (omega arith)
  read_loop-Read (suc rounds) mem tot off da ip d enough le room bound m = elim (dec_lt tot n) [
    | no stop ↦
        let same : tot ≡ n = omega arith in
        let going : ltb tot n ≡ false = ground arith in
        (
          some tot,
          ip,
          d,
          mem,
          rw (going, read_loop),
          Read-none sb n tot off da le (Extends-refl sb m) (λ _. (refl, refl)) (inl same),
        )
    | yes lt ↦
        let (addr, ip1, d1, e, found) = bmap-Found sb (off / bsize) ip d (omega arith) bound m in
        read_round rounds mem tot off da ip d addr ip1 d1 lt room e found (λ mem1.
          read_loop-Read rounds mem1 (tot + chunk n tot off) (off + chunk n tot off)
            (da + chunk n tot off) ip1 d1 (omega arith) (omega arith) (omega arith) bound
            found.extends.keeps.mapped)
  ]

module _ (sb : Superblock) where
  readi-read_loop :
      (mem : Mem) (da off n : ℕ) (ip : Inode) (d : Disk)
      → off ≤ ip.size
      → off + n < 2 ^ 32
      → readi sb mem da off n ip d
        ≡ read_loop sb (suc (min n (ip.size - off))) mem (min n (ip.size - off)) 0 off da ip d
  unfolding readi
  readi-read_loop mem da off n ip d le room =
      let start : (ltb ip.size off || ltb ((off + n) % 2 ^ 32) off) ≡ false = ground arith in
      let cut : (if ltb ip.size ((off + n) % 2 ^ 32) then ip.size - off else n)
          ≡ min n (ip.size - off) =
        ground arith in
      rw (start, cut)

  -- `readi` from within a well-formed file, where off + n does not wrap, ends without a panic. It copies the bytes
  -- of the file, no more than up to its size, and touches no other memory; it stops early only at a hole on
  -- a full disk, or at a fault of a copy. What is read from the file afterwards is as before, and a file
  -- without holes in the range is unchanged.
  pub readi-Read :
      (mem : Mem) (da off n : ℕ) (ip : Inode) (d : Disk)
      → off ≤ ip.size
      → ip.size ≤ maxfile * bsize
      → off + n < 2 ^ 32
      → sb.size < 2 ^ 32
      → IsMapped sb ip d
      → (r : Option ℕ) × (ip' : Inode) × (d' : Disk) × (mem' : Mem) × (readi sb mem da off n ip d
          ≡ some (r, ip', d', mem'))
        × Read sb mem (min n (ip.size - off)) 0 off da ip d r ip' d' mem'
  readi-Read mem da off n ip d le most room bound m =
      let wanted = min n (ip.size - off) in
      let (r, ip', d', mem', e, w) =
        read_loop-Read sb wanted (suc wanted) mem 0 off da ip d (omega arith) (omega arith)
          (omega arith) bound m in
      (r, ip', d', mem', readi-read_loop mem da off n ip d le room ∙ e, w)

  -- From beyond the end, or past the numbers of 32 bits, it reads nothing.
  pub readi-eq-zero :
      (mem : Mem) (da off n : ℕ) (ip : Inode) (d : Disk)
      → off < 2 ^ 32
      → n < 2 ^ 32
      → (ip.size < off) ⊎ (2 ^ 32 ≤ off + n)
      → readi sb mem da off n ip d ≡ some (some 0, ip, d, mem)
  unfolding readi
  readi-eq-zero mem da off n ip d lt lt' out =
      let start : (ltb ip.size off || ltb ((off + n) % 2 ^ 32) off) ≡ true = ground arith in
      rw start
