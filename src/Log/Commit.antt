-- ===== src/Log/Commit.antt =====
-- kernel/log.c: a commit takes effect as a whole or not at all, whenever the machine stops.
use osmini_project.Base.{
  update, ℕ, zero, suc, ◌+◌, ◌<◌, ◌≡◌, refl, sym, ap, ◌∙◌, ◌⊎◌, inl, inr, true, false, List, [],
  ◌∷◌, ◌++◌, arith, ◌==◌, if◌then◌else◌, Bool-cases, length, append-nil, subst,
}
use osmini_project.Log.{
  Disk, Write, write_header, bwrite, bwrites, write_log, commit, recover_writes, recover_from_log,
}
use osmini_project.Log.Recovery.{
  mem, take, take-nil, take-append, take-length, bwrites-append, installed, recover_lem,
  recover-empty, recover_from_log-crash,
}

module _ {B : Type 0} (cache : ℕ → B) where
  -- What a block is after the transaction `lh`.
  abbrev pub committed : List ℕ → (ℕ → B) → ℕ → B
  committed lh home b = if mem b lh then cache b else home b

  take-write_log :
      (m tail : ℕ) (lh : List ℕ) (d : Disk B)
      → let d' = bwrites (take m (write_log cache tail lh)) d in
        (d'.head ≡ d.head) × (d'.home ≡ d.home)
  unfolding bwrites write_log
  take-write_log zero tail lh d = (refl, refl)
  take-write_log (suc m) tail [] d = (refl, refl)
  take-write_log (suc m) tail (b ∷ lh) d = take-write_log m (tail + 1) lh _

  write_log-home :
      (tail : ℕ) (lh : List ℕ) (d : Disk B) → (bwrites (write_log cache tail lh) d).home ≡ d.home
  unfolding bwrites write_log
  write_log-home tail [] d = refl
  write_log-home tail (b ∷ lh) d = write_log-home (tail + 1) lh _

  write_log-before :
      (tail t : ℕ) (lh : List ℕ) (d : Disk B)
      → t < tail
      → (bwrites (write_log cache tail lh) d).log_block t ≡ d.log_block t
  unfolding bwrites write_log
  write_log-before tail t [] d lt = refl
  write_log-before tail t (b ∷ lh) d lt =
      let other : (t == tail) ≡ false = ground arith in
      write_log-before (tail + 1) t lh _ (omega arith) ∙ rw other

  -- The log from `tail` on has the blocks of the transaction.
  abbrev IsLogged : (tail : ℕ) (lh : List ℕ) (log_block : ℕ → B) → Type 0
  IsLogged tail [] log_block = Unit {0}
  IsLogged tail (b ∷ lh) log_block = (log_block tail ≡ cache b) × IsLogged (tail + 1) lh log_block

  write_log-IsLogged :
      (tail : ℕ) (lh : List ℕ) (d : Disk B)
      → IsLogged tail lh (bwrites (write_log cache tail lh) d).log_block
  unfolding bwrites write_log
  write_log-IsLogged tail [] d = tt
  write_log-IsLogged tail (b ∷ lh) d =
      let here : (tail == tail) ≡ true = ground arith in
      (
        write_log-before (tail + 1) tail lh _ (omega arith) ∙ rw here,
        write_log-IsLogged (tail + 1) lh _,
      )

  installed-IsLogged :
      (tail : ℕ) (lh : List ℕ) (log_block home : ℕ → B) (b : ℕ)
      → IsLogged tail lh log_block
      → installed tail lh log_block home b ≡ committed lh home b
  installed-IsLogged tail [] log_block home b h = refl
  installed-IsLogged tail (x ∷ lh) log_block home b h =
      installed-IsLogged (tail + 1) lh log_block (update home x (log_block tail)) b h.1
      ∙ elim (Bool-cases (b == x)) [
        | inl e ↦ let same : b ≡ x = ground arith in rw (e, h.0, same) (ground arith)
        | inr e ↦ rw e
      ]

  -- The disk at the point where the header of the transaction is written.
  abbrev logged : List ℕ → Disk B → Disk B
  logged lh d = bwrite (write_header lh) (bwrites (write_log cache 0 lh) d)

  recover-logged :
      (lh : List ℕ) (d : Disk B) (b : ℕ)
      → (recover_from_log (logged lh d)).home b ≡ committed lh d.home b
  recover-logged lh d b =
      ap (λ (d : Disk B). d.home b) (recover_lem (logged lh d))
      ∙ installed-IsLogged 0 lh (logged lh d).log_block (logged lh d).home b
          (write_log-IsLogged 0 lh d)
      ∙ ap (λ h. committed lh h b) (write_log-home 0 lh d)

  -- The writes of a commit are those of the log, the header, and a recovery from there.
  commit_writes :
      (b : ℕ) (lh : List ℕ) (d : Disk B)
      → commit cache (b ∷ lh) d
        ≡ write_log cache 0 (b ∷ lh) ++ (write_header (b ∷ lh) ∷ recover_writes (logged (b ∷ lh) d))
  unfolding commit recover_writes
  commit_writes b lh d = refl

  -- Whether all blocks of a disk are as before, or all as after.
  abbrev pub IsAtomic : List ℕ → (before after : ℕ → B) → Type 0
  IsAtomic lh before after =
      ((b : ℕ) → after b ≡ before b) ⊎ ((b : ℕ) → after b ≡ committed lh before b)

  in_log :
      (m : ℕ) (lh : List ℕ) (d : Disk B)
      → d.head ≡ []
      → IsAtomic lh d.home (recover_from_log (bwrites (take m (write_log cache 0 lh)) d)).home
  in_log m lh d e =
      let (head, home) = take-write_log m 0 lh d in
      inl (λ b.
        recover-empty (bwrites (take m (write_log cache 0 lh)) d) (head ∙ e) b
        ∙ ap (λ (h : ℕ → B). h b) home)

  in_commit :
      (m b : ℕ) (lh : List ℕ) (d : Disk B)
      → d.head ≡ []
      → IsAtomic
          (b ∷ lh)
          d.home
          (recover_from_log (
            bwrites
              (take m (
                write_log cache 0 (b ∷ lh)
                ++ (write_header (b ∷ lh) ∷ recover_writes (logged (b ∷ lh) d))))
              d)).home
  unfolding bwrites
  in_commit m b lh d e =
      elim (take-append m ws (write_header (b ∷ lh) ∷ recover_writes (logged (b ∷ lh) d))) [
        | inl e1 ↦ same e1 (in_log m (b ∷ lh) d e)
        | inr (n, e1) ↦ same e1 (after n)
      ]
    where
      ws : List (Write B)
      ws = write_log cache 0 (b ∷ lh)

      same :
          {xs ys : List (Write B)}
          → xs ≡ ys
          → IsAtomic (b ∷ lh) d.home (recover_from_log (bwrites ys d)).home
          → IsAtomic (b ∷ lh) d.home (recover_from_log (bwrites xs d)).home
      same e1 h = rw e1 h

      after :
          (n : ℕ)
          → IsAtomic
              (b ∷ lh)
              d.home
              (recover_from_log (
                bwrites
                  (ws ++ take n (write_header (b ∷ lh) ∷ recover_writes (logged (b ∷ lh) d)))
                  d)).home
      after zero = same (append-nil ws ∙ sym (take-length ws)) (in_log (length ws) (b ∷ lh) d e)
      after (suc n) = inr (λ c.
          ap (λ (d : Disk B). (recover_from_log d).home c)
            (bwrites-append ws (write_header (b ∷ lh) ∷ take n (recover_writes (logged (b ∷ lh) d)))
              d)
          ∙ recover_from_log-crash n (logged (b ∷ lh) d) c
          ∙ recover-logged (b ∷ lh) d c)

  -- Wherever the machine stops in a commit, after the next recovery either no block of the transaction
  -- has reached its home or all have, as they are in the cache, and no other block has changed.
  pub commit-IsAtomic :
      (m : ℕ) (lh : List ℕ) (d : Disk B)
      → d.head ≡ []
      → IsAtomic lh d.home (recover_from_log (bwrites (take m (commit cache lh d)) d)).home
  unfolding commit
  commit-IsAtomic m [] d e = inl (λ b.
      ap (λ ws. (recover_from_log (bwrites ws d)).home b) (take-nil m)
      ∙ unfold bwrites in recover-empty d e b)
  commit-IsAtomic m (b ∷ lh) d e =
      subst (λ ws. IsAtomic (b ∷ lh) d.home (recover_from_log (bwrites (take m ws) d)).home)
        (sym (commit_writes b lh d)) (in_commit m b lh d e)

  -- A commit that comes to its end leaves every block of the transaction at home, and an empty log.
  pub commit_lem :
      (lh : List ℕ) (d : Disk B) (b : ℕ)
      → d.head ≡ []
      → let d' = bwrites (commit cache lh d) d in
        (d'.head ≡ []) × (d'.home b ≡ committed lh d.home b)
  unfolding commit bwrites recover_from_log
  commit_lem [] d b e = (e, refl)
  commit_lem (x ∷ lh) d b e =
      let d1 = logged (x ∷ lh) d in
      let whole : bwrites (commit cache (x ∷ lh) d) d ≡ recover_from_log d1 =
        ap (λ ws. bwrites ws d) (commit_writes x lh d)
        ∙ bwrites-append (write_log cache 0 (x ∷ lh)) (write_header (x ∷ lh) ∷ recover_writes d1)
            d in
      rw whole (ap (λ (d : Disk B). d.head) (recover_lem d1), recover-logged (x ∷ lh) d b)
