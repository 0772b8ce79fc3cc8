-- ===== src/Fs/Trunc/Freed.antt =====
-- kernel/fs.c: the blocks at a range of positions of a file are given back.
use osmini_project.Base.{
  ℕ, suc, ◌≤◌, ◌<◌, ◌≡◌, ◌≢◌, refl, ap, ◌∙◌, true, false, ◌==◌, arith, some, dec_lt,
}
use osmini_project.Fs.{Disk, Superblock}
use osmini_project.Fs.FreeMap.{bfree}
use osmini_project.Fs.FreeMap.Search.{in_use}
use osmini_project.Fs.FreeMap.Laws.{bfree_lem}

-- The blocks at the positions from `lo` to `hi`, as `f` numbers them, are free, and all else is as before.
pub record Freed (f : ℕ → ℕ) (lo hi : ℕ) (d d' : Disk) : Type 0 where
  pub gone : (c : ℕ) → lo ≤ c → c < hi → f c ≢ 0 → in_use d' (f c) ≡ false
  pub rest : (b : ℕ) → ((c : ℕ) → lo ≤ c → c < hi → f c ≢ 0 → f c ≢ b) → in_use d' b ≡ in_use d b
  pub block_same : d'.block ≡ d.block
  pub dinode_same : d'.dinode ≡ d.dinode

abbrev pub IsDistinct : (ℕ → ℕ) → ℕ → Type 0
IsDistinct f hi = (c c' : ℕ) → c < hi → c' < hi → f c ≢ 0 → f c ≡ f c' → c ≡ c'

abbrev pub IsUsed : (ℕ → ℕ) → (lo hi : ℕ) → Disk → Type 0
IsUsed f lo hi d = (c : ℕ) → lo ≤ c → c < hi → f c ≢ 0 → in_use d (f c) ≡ true

module _ (f : ℕ → ℕ) where
  -- A range leaves the blocks after it in use.
  pub Freed-IsUsed :
      {lo mid hi : ℕ} {d d' : Disk}
      → IsDistinct f hi
      → mid ≤ hi
      → IsUsed f lo hi d
      → lo ≤ mid
      → Freed f lo mid d d'
      → IsUsed f mid hi d'
  Freed-IsUsed distinct le used from p c first lt ne =
      p.rest (f c) (λ c' _ small ne' e.
        (let same = distinct c' c (omega arith) lt ne' e in absurd (omega arith)))
      ∙ used c (omega arith) lt ne

  pub Freed-trans :
      {lo mid hi : ℕ} {d d' d'' : Disk}
      → IsDistinct f hi
      → lo ≤ mid
      → mid ≤ hi
      → Freed f lo mid d d'
      → Freed f mid hi d' d''
      → Freed f lo hi d d''
  Freed-trans {lo} {mid} {hi} distinct from to p q = record {
    gone = λ c first lt ne. elim (dec_lt c mid) [
      | no later ↦ q.gone c (omega arith) lt ne
      | yes small ↦
          q.rest (f c)
            (λ c' next lt' ne' e. (let same = distinct c' c lt' lt ne' e in absurd (omega arith)))
          ∙ p.gone c first small ne
    ];
    rest = λ b out.
        q.rest b (λ c next lt ne. out c (omega arith) lt ne)
        ∙ p.rest b (λ c first lt ne. out c first (omega arith) ne);
    block_same = q.block_same ∙ p.block_same;
    dinode_same = q.dinode_same ∙ p.dinode_same;
  }

  -- Positions without a block.
  pub Freed-skip :
      {lo hi : ℕ} {d : Disk} → ((c : ℕ) → lo ≤ c → c < hi → f c ≡ 0) → Freed f lo hi d d
  Freed-skip nil = record {
    gone = λ c first lt ne. absurd (ne (nil c first lt));
    rest = λ _ _. refl;
    block_same = refl;
    dinode_same = refl;
  }

  pub Freed-none : {lo hi : ℕ} {d : Disk} → hi ≤ lo → Freed f lo hi d d
  Freed-none le = Freed-skip (λ c first lt. absurd (omega arith))

  pub Freed-empty : {d : Disk} (i : ℕ) → f i ≡ 0 → Freed f i (suc i) d d
  Freed-empty i nil = Freed-skip (λ c first lt. let same : c ≡ i = omega arith in ap f same ∙ nil)

  pub bfree-Freed :
      (sb : Superblock) (i : ℕ) (d : Disk)
      → f i ≢ 0
      → in_use d (f i) ≡ true
      → (d' : Disk) × (bfree sb (f i) d ≡ some d') × Freed f i (suc i) d d'
  bfree-Freed sb i d ne used =
      let (d', e, map_is, block_same, dinode_same) = bfree_lem sb (f i) d used in
      (
        d',
        e,
        record {
          gone = λ c first lt _.
              let same : c ≡ i = omega arith in
              let own : (f i == f i) ≡ true = ground arith in
              ap (λ c. in_use d' (f c)) same ∙ map_is (f i) ∙ rw own;
          rest = λ b out.
              let apart = out i (omega arith) (omega arith) ne in
              let other : (b == f i) ≡ false = ground arith in map_is b ∙ rw other;
          block_same = block_same;
          dinode_same = dinode_same;
        },
      )
