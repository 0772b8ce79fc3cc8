-- ===== src/Fs/Content/Store.antt =====
-- kernel/fs.c: a block of a file is overwritten.
use osmini_project.Base.{
  ℕ, ◌-◌, ◌≤◌, ◌<◌, ◌≡◌, ◌≢◌, refl, sym, ap, ◌∙◌, false, List, ◌==◌, arith, update, update_self,
  update_ne, ℕ_discrete,
}
use osmini_project.Fs.{Disk, Inode, Superblock, Block, ndirect, maxfile}
use osmini_project.Fs.Bits.{word_at}
use osmini_project.Fs.Map.Numbers.{block_of, IsMapped}
use osmini_project.Fs.Map.Steps.{block_of-table, block_of-agree}
use osmini_project.Fs.Map.Laws.{content, Keeps}

abbrev pub store : Disk → ℕ → Block → List ℕ → Disk
store d addr blk logged = record d { block = update d.block addr blk; logged = logged }

module _ (sb : Superblock) (ip : Inode) (d : Disk) (bn addr : ℕ) (blk : Block) (logged : List ℕ)
    (lt : bn < maxfile) (m : IsMapped sb ip d) (at : block_of ip d bn ≡ addr) (ne : addr ≢ 0) where
  -- The block is not the indirect block, so the numbers stay.
  pub store-block_of :
      (c : ℕ) → c ≤ maxfile → block_of ip (store d addr blk logged) c ≡ block_of ip d c
  store-block_of c le =
      block_of-agree ip ip d (store d addr blk logged) c le (λ _. refl) (λ _. refl)
        (λ some_table.
          let apart : ip.addrs ndirect ≢ addr = λ e.
            (let last =
                m.distinct maxfile bn (omega arith) (omega arith)
                  (λ z. some_table (sym (block_of-table ip d) ∙ z))
                  (block_of-table ip d ∙ e ∙ sym at) in
              absurd (omega arith)) in
          ap (λ b. word_at b (c - ndirect)) (update_ne d.block addr blk (ip.addrs ndirect) apart))

  pub store-Keeps : Keeps sb ip d ip (store d addr blk logged)
  store-Keeps = record {
    mapped = record {
      boot = m.boot;
      used = λ c le some_block.
          let same = store-block_of c le in rw same (m.used c le (λ z. some_block (same ∙ z)));
      inside = λ c le some_block.
          let same = store-block_of c le in rw same (m.inside c le (λ z. some_block (same ∙ z)));
      distinct = λ c c' le le' some_block e.
          let same = store-block_of c le in
          m.distinct c c' le le' (λ z. some_block (same ∙ z))
            (sym same ∙ e ∙ store-block_of c' le');
    };
    kept = λ c le _. store-block_of c le;
    used = λ _ u. u;
    foreign = λ b u f. (
      λ c le e. f c le (sym (store-block_of c le) ∙ e),
      update_ne d.block addr blk b (λ e. f bn (omega arith) (at ∙ sym e)),
    );
    size_same = refl;
    inum_same = refl;
    kind_same = refl;
    dev_same = refl;
    dinode_same = refl;
  }

  pub store-content_here : (o : ℕ) → content ip (store d addr blk logged) bn o ≡ blk o
  store-content_here o =
      let same = store-block_of bn (omega arith) ∙ at in
      let got : (addr == 0) ≡ false = ground arith in
      rw (same, got) (ap (λ b. b o) (update_self d.block addr blk))

  pub store-content_else :
      (c o : ℕ) → c < maxfile → c ≢ bn → content ip (store d addr blk logged) c o ≡ content ip d c o
  store-content_else c o small other = elim (ℕ_discrete (block_of ip d c) 0) [
    | yes nil ↦ let same = store-block_of c (omega arith) in rw (same, nil)
    | no some_block ↦
        let same = store-block_of c (omega arith) in
        let apart : block_of ip d c ≢ addr =
          λ e. other (m.distinct c bn (omega arith) (omega arith) some_block (e ∙ sym at)) in
        rw (same, update_ne d.block addr blk (block_of ip d c) apart)
  ]
