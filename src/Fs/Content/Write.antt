-- ===== src/Fs/Content/Write.antt =====
-- kernel/fs.c: `writei` writes the bytes of the memory and no others.
use osmini_project.Base.{
  ℕ, zero, suc, ◌+◌, ◌-◌, ◌*◌, ◌/◌, ◌%◌, ◌^◌, ◌≤◌, ◌<◌, ◌≡◌, ◌⊎◌, inl, inr, sym, ◌∙◌, true, false,
  ◌∷◌, ◌==◌, arith, some, dec_lt, ℕ_discrete, subst, ltb, Bool-cases,
}
use osmini_project.Fs.{Disk, Inode, Superblock, bsize, maxfile}
use osmini_project.Fs.FreeMap.Search.{in_use}
use osmini_project.Fs.Map.{bmap}
use osmini_project.Fs.Map.Numbers.{IsMapped}
use osmini_project.Fs.Map.Laws.{Extends, Extends-refl, Keeps-trans}
use osmini_project.Fs.Map.Found.{Found}
use osmini_project.Fs.Map.Result.{bmap-Found}
use osmini_project.Fs.Content.{Mem, copy_in, chunk, write_loop}
use osmini_project.Fs.Content.Copy.{IsMappedAt, mapped_part, copy_in-IsMappedAt}
use osmini_project.Fs.Content.Store.{store}
use osmini_project.Fs.Content.Progress.{
  byte_agree, Progress, Progress-none, Progress-trans, store-Progress, store-Progress_fault,
}

abbrev pub IsFull : Superblock → Disk → Type 0
IsFull sb d = (b : ℕ) → b < sb.size → in_use d b ≡ true

-- The loop from `tot` and `off` has come to `tot'` and `off'`.
pub record Wrote (sb : Superblock) (mem : Mem) (n tot off sa : ℕ) (ip : Inode) (d : Disk)
    (tot' off' : ℕ) (ip' : Inode) (d' : Disk) : Type 0 where
  pub more : tot ≤ tot'
  pub most : tot' ≤ n
  pub off_is : off' ≡ off + (tot' - tot)
  pub progress : Progress sb mem sa off (tot' - tot) (n - tot) ip d ip' d'
  pub complete : IsMappedAt mem sa (n - tot) → (tot' ≡ n) ⊎ IsFull sb d'

module _ (sb : Superblock) (mem : Mem) (n : ℕ) where
  abbrev Returns : (rounds tot off sa : ℕ) → Inode → Disk → Type 0
  Returns rounds tot off sa ip d =
      (tot' : ℕ) × (off' : ℕ) × (ip' : Inode) × (d' : Disk) × (write_loop sb rounds mem n tot off sa
          ip d
        ≡ some (tot', off', ip', d'))
      × Wrote sb mem n tot off sa ip d tot' off' ip' d'

  Progress-after :
      {ip ip1 ip2 : Inode} {d d1 d2 : Disk} {sa off m k : ℕ}
      → Extends sb ip d ip1 d1
      → Progress sb mem sa off m k ip1 d1 ip2 d2
      → Progress sb mem sa off m k ip d ip2 d2
  Progress-after e p = record {
    keeps = Keeps-trans sb e.keeps p.keeps;
    outside = λ o lt out. p.outside o lt out ∙ byte_agree e o lt;
    inside = p.inside;
    filled = p.filled;
  }

  -- Nothing is written.
  Wrote-none :
      {ip ip' : Inode} {d d' : Disk} (tot off sa : ℕ)
      → tot ≤ n
      → Progress sb mem sa off 0 (n - tot) ip d ip' d'
      → (IsMappedAt mem sa (n - tot) → (tot ≡ n) ⊎ IsFull sb d')
      → Wrote sb mem n tot off sa ip d tot off ip' d'
  Wrote-none {ip} {ip'} {d} {d'} tot off sa le p complete =
      let nothing : tot - tot ≡ 0 = omega arith in
      record {
        more = omega arith;
        most = le;
        off_is = omega arith;
        progress = subst (λ k. Progress sb mem sa off k (n - tot) ip d ip' d') (sym nothing) p;
        complete = complete;
      }

  -- A chunk, and then the rest of the loop.
  Wrote-chunk :
      {ip ip1 ip2 : Inode} {d d1 d2 : Disk} {tot' off' : ℕ} (tot off sa m : ℕ)
      → m ≤ n - tot
      → off + (n - tot) ≤ maxfile * bsize
      → Progress sb mem sa off m m ip d ip1 d1
      → Wrote sb mem n (tot + m) (off + m) (sa + m) ip1 d1 tot' off' ip2 d2
      → Wrote sb mem n tot off sa ip d tot' off' ip2 d2
  Wrote-chunk {ip} {ip1} {ip2} {d} {d1} {d2} {tot'} {off'} tot off sa m le room p w =
      let more = w.more in
      let most = w.most in
      let off_is = w.off_is in
      let left : n - (tot + m) ≡ n - tot - m = omega arith in
      let sum : m + (tot' - (tot + m)) ≡ tot' - tot = omega arith in
      let rest =
        subst (λ k. Progress sb mem (sa + m) (off + m) (tot' - (tot + m)) k ip1 d1 ip2 d2) left
          w.progress in
      record {
        more = omega arith;
        most = w.most;
        off_is = omega arith;
        progress =
            subst (λ k. Progress sb mem sa off k (n - tot) ip d ip2 d2) sum
              (Progress-trans sb mem sa off m (tot' - (tot + m)) (n - tot) (omega arith) room p
                rest);
        complete = λ mapped.
            w.complete (mapped_part mem sa (n - tot) m (n - (tot + m)) mapped (omega arith));
      }

  -- One round, after `bmap`, with the rest of the loop as `next`.
  write_round :
      (rounds tot off sa : ℕ) (ip : Inode) (d : Disk) (addr : ℕ) (ip1 : Inode) (d1 : Disk)
      → tot < n
      → off + (n - tot) ≤ maxfile * bsize
      → bmap sb (off / bsize) ip d ≡ some (addr, ip1, d1)
      → Found sb (off / bsize) addr ip d ip1 d1
      → ((d2 : Disk)
          → IsMapped sb ip1 d2
          → Returns rounds
              (tot + chunk n tot off)
              (off + chunk n tot off)
              (sa + chunk n tot off)
              ip1
              d2)
      → Returns (suc rounds) tot off sa ip d
  unfolding write_loop
  write_round rounds tot off sa ip d addr ip1 d1 lt room e found next =
      let going : ltb tot n ≡ true = ground arith in
      let mapped1 = found.extends.keeps.mapped in
      let fits : off % bsize + chunk n tot off ≤ bsize = omega arith in
      let part : chunk n tot off ≤ n - tot = omega arith in
      elim (ℕ_discrete addr 0) [
        | yes nil ↦
            let full : (addr == 0) ≡ true = ground arith in
            (
              tot,
              off,
              ip1,
              d1,
              rw (going, e, full, write_loop),
              Wrote-none tot off sa (omega arith)
                  (Progress-none sb mem sa off (n - tot) found.extends)
                  (λ _. inr (found.full nil).1),
            )
        | no ne ↦
            let got : (addr == 0) ≡ false = ground arith in
            elim (Bool-cases (copy_in (chunk n tot off) mem sa (d1.block addr) (off % bsize)).0) [
              | inr fault ↦ (
                tot,
                off,
                ip1,
                store d1 addr (copy_in (chunk n tot off) mem sa (d1.block addr) (off % bsize)).1
                    d1.logged,
                rw (going, e, got, fault, write_loop),
                Wrote-none tot off sa (omega arith)
                    (Progress-after found.extends (
                      store-Progress_fault sb mem addr sa off (chunk n tot off) d1.logged
                        (omega arith) mapped1 (found.here ne) ne fits (n - tot) part))
                    (λ mapped.
                      (let good =
                          copy_in-IsMappedAt (chunk n tot off) mem sa (d1.block addr) (off % bsize)
                            (λ k small. mapped k (omega arith)) in
                        cc)),
              )
              | inl good ↦
                  let p =
                    store-Progress sb mem addr sa off (chunk n tot off) (addr ∷ d1.logged)
                      (omega arith) mapped1 (found.here ne) ne fits good in
                  let (tot', off', ip2, d2, e2, w) = next _ p.keeps.mapped in
                  (
                    tot',
                    off',
                    ip2,
                    d2,
                    rw (going, e, got, good, write_loop) e2,
                    Wrote-chunk tot off sa (chunk n tot off) part room
                        (Progress-after found.extends p) w,
                  )
            ]
      ]

  -- The rounds are enough, and `bmap` does not panic.
  pub write_loop-Wrote :
      (rounds tot off sa : ℕ) (ip : Inode) (d : Disk)
      → n - tot < rounds
      → tot ≤ n
      → off + (n - tot) ≤ maxfile * bsize
      → sb.size < 2 ^ 32
      → IsMapped sb ip d
      → Returns rounds tot off sa ip d
  unfolding write_loop
  write_loop-Wrote zero tot off sa ip d enough le room bound m = absurd (omega arith)
  write_loop-Wrote (suc rounds) tot off sa ip d enough le room bound m = elim (dec_lt tot n) [
    | no stop ↦
        let same : tot ≡ n = omega arith in
        let going : ltb tot n ≡ false = ground arith in
        (
          tot,
          off,
          ip,
          d,
          rw (going, write_loop),
          Wrote-none tot off sa le (Progress-none sb mem sa off (n - tot) (Extends-refl sb m))
              (λ _. inl same),
        )
    | yes lt ↦
        let (addr, ip1, d1, e, found) = bmap-Found sb (off / bsize) ip d (omega arith) bound m in
        write_round rounds tot off sa ip d addr ip1 d1 lt room e found (λ d2 m2.
          write_loop-Wrote rounds (tot + chunk n tot off) (off + chunk n tot off)
            (sa + chunk n tot off) ip1 d2 (omega arith) (omega arith) (omega arith) bound m2)
  ]
