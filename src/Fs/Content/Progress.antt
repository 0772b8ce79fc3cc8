-- ===== src/Fs/Content/Progress.antt =====
-- kernel/fs.c: what a part of the loop of `writei` does to the bytes of the file.
use osmini_project.Base.{
  ℕ, ◌+◌, ◌-◌, ◌*◌, ◌/◌, ◌%◌, ◌≤◌, ◌<◌, ◌≡◌, ◌≢◌, ◌⊎◌, inl, sym, ap, ◌∙◌, true, false, List, ◌==◌,
  arith, some, dec_lt, ℕ_discrete, subst,
}
use osmini_project.Fs.{Disk, Inode, Superblock, Block, bsize, maxfile}
use osmini_project.Fs.Map.Numbers.{block_of, IsMapped}
use osmini_project.Fs.Map.Laws.{content, Keeps, Keeps-trans, Extends}
use osmini_project.Fs.Content.{Mem, copy_in}
use osmini_project.Fs.Content.Copy.{copy_in_outside, copy_in_inside}
use osmini_project.Fs.Content.Store.{
  store, store-Keeps, store-block_of, store-content_here, store-content_else,
}

-- Byte `o` of a file.
unfoldable pub byte : Inode → Disk → ℕ → ℕ
byte ip d o = content ip d (o / bsize) (o % bsize)

pub byte_agree :
    {sb : Superblock} {ip ip' : Inode} {d d' : Disk}
    → Extends sb ip d ip' d'
    → (o : ℕ) → o < maxfile * bsize
    → byte ip' d' o ≡ byte ip d o
unfolding byte
byte_agree e o lt = e.bytes (o / bsize) (omega arith) (o % bsize)

-- Of the `n` bytes at `off` the first `m` are those of the memory at `sa`, and all others are as before.
pub record Progress (sb : Superblock) (mem : Mem) (sa off m n : ℕ) (ip : Inode) (d : Disk)
    (ip' : Inode) (d' : Disk) : Type 0 where
  pub keeps : Keeps sb ip d ip' d'
  pub outside :
      (o : ℕ) → o < maxfile * bsize → (o < off) ⊎ (off + n ≤ o) → byte ip' d' o ≡ byte ip d o
  pub inside : (o : ℕ) → off ≤ o → o < off + m → mem (sa + (o - off)) ≡ some (byte ip' d' o)
  pub filled : (o : ℕ) → off ≤ o → o < off + m → block_of ip' d' (o / bsize) ≢ 0

module _ (sb : Superblock) (mem : Mem) where
  pub Progress-none :
      {ip ip' : Inode} {d d' : Disk} (sa off n : ℕ)
      → Extends sb ip d ip' d'
      → Progress sb mem sa off 0 n ip d ip' d'
  Progress-none sa off n e = record {
    keeps = e.keeps;
    outside = λ o lt _. byte_agree e o lt;
    inside = λ o le lt. absurd (omega arith);
    filled = λ o le lt. absurd (omega arith);
  }

  -- First a part of `m` bytes, then one of `k` bytes.
  pub Progress-trans :
      {ip ip1 ip2 : Inode} {d d1 d2 : Disk} (sa off m k n : ℕ)
      → m + k ≤ n
      → off + n ≤ maxfile * bsize
      → Progress sb mem sa off m m ip d ip1 d1
      → Progress sb mem (sa + m) (off + m) k (n - m) ip1 d1 ip2 d2
      → Progress sb mem sa off (m + k) n ip d ip2 d2
  Progress-trans {ip2 = ip2} {d2 = d2} sa off m k n le room p q = record {
    keeps = Keeps-trans sb p.keeps q.keeps;
    outside = λ o lt out. q.outside o lt (ground arith) ∙ p.outside o lt (ground arith);
    inside = λ o from lt. elim (dec_lt o (off + m)) [
      | yes first ↦ p.inside o from first ∙ ap some (sym (q.outside o (omega arith) (inl first)))
      | no later ↦
          let place : sa + m + (o - (off + m)) ≡ sa + (o - off) = omega arith in
          subst (λ a. mem a ≡ some (byte ip2 d2 o)) place (q.inside o (omega arith) (omega arith))
    ];
    filled = λ o from lt z. elim (dec_lt o (off + m)) [
      | yes first ↦
          p.filled o from first
            (sym (q.keeps.kept (o / bsize) (omega arith) (p.filled o from first)) ∙ z)
      | no later ↦ q.filled o (omega arith) (omega arith) z
    ];
  }

  -- A part within one block, to which `writei` copies at most `m` bytes.
  module _ {ip : Inode} {d : Disk} (addr sa off m : ℕ) (logged : List ℕ)
      (lt : off / bsize < maxfile) (mapped : IsMapped sb ip d)
      (at : block_of ip d (off / bsize) ≡ addr) (ne : addr ≢ 0)
      (fits : off % bsize + m ≤ bsize) where
    abbrev copied : Block
    copied = (copy_in m mem sa (d.block addr) (off % bsize)).1

    content_at : (o : ℕ) → content ip d (off / bsize) o ≡ d.block addr o
    content_at o = let got : (addr == 0) ≡ false = ground arith in rw (at, got)

    store-outside :
        (o : ℕ)
        → o < maxfile * bsize
        → (o < off) ⊎ (off + m ≤ o)
        → byte ip (store d addr copied logged) o ≡ byte ip d o
    unfolding byte
    store-outside o small out = elim (ℕ_discrete (o / bsize) (off / bsize)) [
      | no other ↦
          store-content_else sb ip d (off / bsize) addr copied logged lt mapped at ne (o / bsize)
            (o % bsize) (omega arith) other
      | yes same ↦
          ap (λ c. content ip (store d addr copied logged) c (o % bsize)) same
          ∙ store-content_here sb ip d (off / bsize) addr copied logged lt mapped at ne (o % bsize)
          ∙ copy_in_outside m mem sa (d.block addr) (off % bsize) (o % bsize) (ground arith)
          ∙ sym (content_at (o % bsize))
          ∙ ap (λ c. content ip d c (o % bsize)) (sym same)
    ]

    store-inside :
        (copy_in m mem sa (d.block addr) (off % bsize)).0 ≡ true
        → (o : ℕ) → off ≤ o
        → o < off + m
        → mem (sa + (o - off)) ≡ some (byte ip (store d addr copied logged) o)
    unfolding byte
    store-inside good o from end =
        let same : o / bsize ≡ off / bsize = omega arith in
        let place : o % bsize ≡ off % bsize + (o - off) = omega arith in
        copy_in_inside m mem sa (d.block addr) (off % bsize) (o - off) good (omega arith)
        ∙ ap some (
            ap copied (sym place)
            ∙ sym (
                store-content_here sb ip d (off / bsize) addr copied logged lt mapped at ne
                  (o % bsize))
            ∙ ap (λ c. content ip (store d addr copied logged) c (o % bsize)) (sym same))

    pub store-Progress :
        (copy_in m mem sa (d.block addr) (off % bsize)).0 ≡ true
        → Progress sb mem sa off m m ip d ip (store d addr copied logged)
    store-Progress good = record {
      keeps = store-Keeps sb ip d (off / bsize) addr copied logged lt mapped at ne;
      outside = store-outside;
      inside = store-inside good;
      filled = λ o from end z.
          let same : o / bsize ≡ off / bsize = omega arith in
          ne (
            sym at
            ∙ sym (
                store-block_of sb ip d (off / bsize) addr copied logged lt mapped at ne
                  (off / bsize) (omega arith))
            ∙ ap (block_of ip (store d addr copied logged)) (sym same)
            ∙ z);
    }

    -- The copy faults.
    pub store-Progress_fault :
        (n : ℕ) → m ≤ n → Progress sb mem sa off 0 n ip d ip (store d addr copied logged)
    store-Progress_fault n le = record {
      keeps = store-Keeps sb ip d (off / bsize) addr copied logged lt mapped at ne;
      outside = λ o small out. store-outside o small (ground arith);
      inside = λ o from end. absurd (omega arith);
      filled = λ o from end. absurd (omega arith);
    }
