-- ===== src/Log/Recovery.antt =====
-- kernel/log.c: what recovery makes of a disk, and that a crash during recovery does no harm.
use osmini_project.Base.{
  update, append-nil, length, ℕ, suc, ◌+◌, ◌≡◌, refl, sym, ap, ◌∙◌, ◌⊎◌, inl, inr, Bool, true,
  false, ◌||◌, List, [], ◌∷◌, ◌++◌, ◌==◌, Bool-cases, zero,
}
use osmini_project.Log.{
  Disk, Write, write_home, write_header, bwrite, bwrites, install_trans, recover_writes,
  recover_from_log,
}

abbrev pub mem : ℕ → List ℕ → Bool
mem b [] = false
mem b (x ∷ xs) = (b == x) || mem b xs

abbrev pub take : {A : Type 0} → ℕ → List A → List A
take zero xs = []
take (suc n) [] = []
take (suc n) (x ∷ xs) = x ∷ take n xs

-- A prefix of two lists one after the other ends in the first or in the second.
pub take-append :
    {A : Type 0} (m : ℕ) (xs ys : List A)
    → (take m (xs ++ ys) ≡ take m xs) ⊎ ((n : ℕ) × (take m (xs ++ ys) ≡ xs ++ take n ys))
take-append m [] ys = inr (m, refl)
take-append zero (x ∷ xs) ys = inl refl
take-append (suc m) (x ∷ xs) ys = elim (take-append m xs ys) [
  | inl e ↦ inl (ap (λ l. x ∷ l) e)
  | inr (n, e) ↦ inr (n, ap (λ l. x ∷ l) e)
]

pub take-nil : {A : Type 0} (n : ℕ) → take {A = A} n [] ≡ []
take-nil zero = refl
take-nil (suc n) = refl

pub take_one : {A : Type 0} (n : ℕ) (x : A) → (take n (x ∷ []) ≡ []) ⊎ (take n (x ∷ []) ≡ x ∷ [])
take_one zero x = inl refl
take_one (suc zero) x = inr refl
take_one (suc (suc n)) x = inr refl

pub take-length : {A : Type 0} (xs : List A) → take (length xs) xs ≡ xs
take-length [] = refl
take-length (x ∷ xs) = ap (λ l. x ∷ l) (take-length xs)

module _ {B : Type 0} where
  pub bwrites-append :
      (xs ys : List (Write B)) (d : Disk B) → bwrites (xs ++ ys) d ≡ bwrites ys (bwrites xs d)
  unfolding bwrites
  bwrites-append [] ys d = refl
  bwrites-append (x ∷ xs) ys d = bwrites-append xs ys (bwrite x d)

  -- The blocks at home after an installation of the blocks of the log from `tail` on.
  abbrev pub installed : (tail : ℕ) (lh : List ℕ) (log_block home : ℕ → B) → ℕ → B
  installed tail [] log_block home = home
  installed tail (b ∷ lh) log_block home =
      installed (tail + 1) lh log_block (update home b (log_block tail))

  pub install_trans_lem :
      (tail : ℕ) (lh : List ℕ) (d : Disk B)
      → bwrites (install_trans tail lh d) d
        ≡ record d { home = installed tail lh d.log_block d.home }
  unfolding bwrites install_trans
  install_trans_lem tail [] d = refl
  install_trans_lem tail (b ∷ lh) d =
      install_trans_lem (tail + 1) lh (bwrite (write_home b (d.log_block tail)) d)

  -- Two homes that differ at most where the log has a block come to the same.
  abbrev pub AgreesOff : List ℕ → (ℕ → B) → (ℕ → B) → Type 0
  AgreesOff lh f g = (b : ℕ) → (f b ≡ g b) ⊎ (mem b lh ≡ true)

  pub installed-AgreesOff :
      (tail : ℕ) (lh : List ℕ) (log_block f g : ℕ → B) (b : ℕ)
      → AgreesOff lh f g
      → installed tail lh log_block f b ≡ installed tail lh log_block g b
  installed-AgreesOff tail [] log_block f g b h = elim (h b) [ inl e ↦ e | inr e ↦ cc ]
  installed-AgreesOff tail (x ∷ lh) log_block f g b h =
      installed-AgreesOff (tail + 1) lh log_block (update f x (log_block tail))
        (update g x (log_block tail)) b later
    where
      later : AgreesOff lh (update f x (log_block tail)) (update g x (log_block tail))
      later c = elim (Bool-cases (c == x)) [
        | inl e ↦ inl (rw e)
        | inr e ↦ elim (h c) [ inl same ↦ inl (rw e same) | inr there ↦ inr (rw e at there) ]
      ]

  -- A part of an installation.
  pub take-install_trans :
      (m tail : ℕ) (lh : List ℕ) (d : Disk B)
      → let d' = bwrites (take m (install_trans tail lh d)) d in
        (d'.head ≡ d.head) × (d'.log_block ≡ d.log_block) × AgreesOff lh d'.home d.home
  unfolding bwrites install_trans
  take-install_trans zero tail lh d = (refl, refl, λ b. inl refl)
  take-install_trans (suc m) tail [] d = (refl, refl, λ b. inl refl)
  take-install_trans (suc m) tail (x ∷ lh) d =
      let (same, slots, agrees) =
        take-install_trans m (tail + 1) lh (bwrite (write_home x (d.log_block tail)) d) in
      (
        same,
        slots,
        λ b. elim (Bool-cases (b == x)) [
          | inl e ↦ inr (rw e)
          | inr e ↦ elim (agrees b) [ inl h ↦ inl (h ∙ rw e) | inr h ↦ inr (rw (e, h)) ]
        ],
      )

  pub recover_lem :
      (d : Disk B)
      → recover_from_log d ≡ record d { head = []; home = installed 0 d.head d.log_block d.home }
  unfolding recover_from_log recover_writes bwrites
  recover_lem d =
      bwrites-append (install_trans 0 d.head d) (write_header [] ∷ []) d
      ∙ ap (bwrite (write_header [])) (install_trans_lem 0 d.head d)

  -- The same up to a part of its own installation, a disk recovers to the same.
  pub recover-partial :
      (m : ℕ) (d : Disk B) (b : ℕ)
      → let d' = bwrites (take m (install_trans 0 d.head d)) d in
        (recover_from_log d').home b ≡ (recover_from_log d).home b
  recover-partial m d b =
      let d' = bwrites (take m (install_trans 0 d.head d)) d in
      let (head, slots, agrees) = take-install_trans m 0 d.head d in
      ap (λ (d : Disk B). d.home b) (recover_lem d')
      ∙ ap (λ h. installed 0 h d'.log_block d'.home b) head
      ∙ ap (λ s. installed 0 d.head s d'.home b) slots
      ∙ installed-AgreesOff 0 d.head d.log_block d'.home d.home b agrees
      ∙ sym (ap (λ (d : Disk B). d.home b) (recover_lem d))

  -- A disk with an empty log recovers to itself.
  pub recover-empty : (d : Disk B) → d.head ≡ [] → (b : ℕ) → (recover_from_log d).home b ≡ d.home b
  recover-empty d e b =
      ap (λ (d : Disk B). d.home b) (recover_lem d) ∙ ap (λ h. installed 0 h d.log_block d.home b) e

  -- A crash at any write of a recovery does no harm: the next recovery gives every block as the first
  -- one would have.
  pub recover_from_log-crash :
      (m : ℕ) (d : Disk B) (b : ℕ)
      → (recover_from_log (bwrites (take m (recover_writes d)) d)).home b
        ≡ (recover_from_log d).home b
  unfolding recover_writes recover_from_log
  recover_from_log-crash m d b =
      elim (take-append m (install_trans 0 d.head d) (write_header [] ∷ [])) [
        | inl e ↦ same e ∙ recover-partial m d b
        | inr (n, e) ↦ elim (take_one n (write_header [])) [
          | inl none_of ↦
              same (e ∙ ap (λ ws. whole ++ ws) none_of ∙ append-nil whole ∙ sym (take-length whole))
              ∙ recover-partial (length whole) d b
          | inr all_of ↦
              same (e ∙ ap (λ ws. whole ++ ws) all_of)
              ∙ recover-empty (recover_from_log d) (ap (λ (d : Disk B). d.head) (recover_lem d)) b
        ]
      ]
    where
      whole : List (Write B)
      whole = install_trans 0 d.head d

      same :
          {ws ws' : List (Write B)}
          → ws ≡ ws'
          → (recover_from_log (bwrites ws d)).home b ≡ (recover_from_log (bwrites ws' d)).home b
      same e = ap (λ ws. (recover_from_log (bwrites ws d)).home b) e
