-- ===== src/Fs/Content/Copy.antt =====
-- kernel/fs.c: the copies between a block and the memory.
use osmini_project.Base.{
  ℕ, zero, suc, ◌+◌, ◌≤◌, ◌<◌, ◌≡◌, ◌≢◌, ◌⊎◌, inl, inr, refl, sym, ap, ◌∙◌, true, none, some,
  Option-cases, arith, update, update_self, update_ne, ℕ_discrete, subst,
}
use osmini_project.Fs.{Block}
use osmini_project.Fs.Content.{Mem, copy_in, copy_out}

-- Every one of `n` bytes is mapped.
abbrev pub IsMappedAt : Mem → (at n : ℕ) → Type 0
IsMappedAt mem at n = (k : ℕ) → k < n → mem (at + k) ≢ none

-- A part of a mapped range.
pub mapped_part :
    (mem : Mem) (at n k m : ℕ) → IsMappedAt mem at n → k + m ≤ n → IsMappedAt mem (at + k) m
mapped_part mem at n k m h le i lt miss =
    let place : at + (k + i) ≡ at + k + i = omega arith in
    h (k + i) (omega arith) (ap mem place ∙ miss)

mapped_first : (mem : Mem) (at n : ℕ) → IsMappedAt mem at (suc n) → mem at ≢ none
mapped_first mem at n h miss =
    let place : at + 0 ≡ at = omega arith in h 0 (omega arith) (ap mem place ∙ miss)

mapped_rest : (mem : Mem) (at n : ℕ) → IsMappedAt mem at (suc n) → IsMappedAt mem (suc at) n
mapped_rest mem at n h =
    let place : at + 1 ≡ suc at = omega arith in
    subst (λ a. IsMappedAt mem a n) place (mapped_part mem at (suc n) 1 n h (omega arith))

-- A copy touches its range only.
pub copy_in_outside :
    (m : ℕ) (mem : Mem) (sa : ℕ) (blk : Block) (o x : ℕ)
    → (x < o) ⊎ (o + m ≤ x)
    → (copy_in m mem sa blk o).1 x ≡ blk x
unfolding copy_in
copy_in_outside zero mem sa blk o x h = refl
copy_in_outside (suc m) mem sa blk o x h = elim (Option-cases (mem sa)) [
  | inl fault ↦ rw (fault, copy_in)
  | inr (v, e) ↦
      rw (e, copy_in)
        (copy_in_outside m mem (suc sa) (update blk o v) (suc o) x (ground arith)
          ∙ update_ne blk o v x (ground arith))
]

-- A copy that does not fault has copied every byte.
pub copy_in_inside :
    (m : ℕ) (mem : Mem) (sa : ℕ) (blk : Block) (o k : ℕ)
    → (copy_in m mem sa blk o).0 ≡ true
    → k < m
    → mem (sa + k) ≡ some ((copy_in m mem sa blk o).1 (o + k))
unfolding copy_in
copy_in_inside zero mem sa blk o k good lt = absurd (omega arith)
copy_in_inside (suc m) mem sa blk o zero good lt = elim (Option-cases (mem sa)) [
  | inl fault ↦ cc (rw (fault, copy_in) at good)
  | inr (v, e) ↦
      let first : sa + 0 ≡ sa = omega arith in
      let place : o + 0 ≡ o = omega arith in
      rw (first, place, e, copy_in)
        (ap some (
          sym (
            copy_in_outside m mem (suc sa) (update blk o v) (suc o) o (inl (omega arith))
            ∙ update_self blk o v)))
]
copy_in_inside (suc m) mem sa blk o (suc k) good lt = elim (Option-cases (mem sa)) [
  | inl fault ↦ cc (rw (fault, copy_in) at good)
  | inr (v, e) ↦
      let next : mem (suc sa + k)
          ≡ some ((copy_in m mem (suc sa) (update blk o v) (suc o)).1 (suc o + k)) =
        copy_in_inside m mem (suc sa) (update blk o v) (suc o) k (rw (e, copy_in) at good)
          (omega arith) in
      let shift : sa + suc k ≡ suc sa + k = omega arith in
      let place : o + suc k ≡ suc o + k = omega arith in rw (shift, place, e, copy_in) next
]

pub copy_in-IsMappedAt :
    (m : ℕ) (mem : Mem) (sa : ℕ) (blk : Block) (o : ℕ)
    → IsMappedAt mem sa m
    → (copy_in m mem sa blk o).0 ≡ true
unfolding copy_in
copy_in-IsMappedAt zero mem sa blk o h = refl
copy_in-IsMappedAt (suc m) mem sa blk o h = elim (Option-cases (mem sa)) [
  | inl fault ↦ absurd (mapped_first mem sa m h fault)
  | inr (v, e) ↦
      rw (e, copy_in)
        (copy_in-IsMappedAt m mem (suc sa) (update blk o v) (suc o) (mapped_rest mem sa m h))
]

pub copy_out_outside :
    (m : ℕ) (blk : Block) (o : ℕ) (mem : Mem) (da x : ℕ)
    → (x < da) ⊎ (da + m ≤ x)
    → (copy_out m blk o mem da).1 x ≡ mem x
unfolding copy_out
copy_out_outside zero blk o mem da x h = refl
copy_out_outside (suc m) blk o mem da x h = elim (Option-cases (mem da)) [
  | inl fault ↦ rw (fault, copy_out)
  | inr (v, e) ↦
      rw (e, copy_out)
        (copy_out_outside m blk (suc o) (update mem da (some (blk o))) (suc da) x (ground arith)
          ∙ update_ne mem da (some (blk o)) x (ground arith))
]

pub copy_out_inside :
    (m : ℕ) (blk : Block) (o : ℕ) (mem : Mem) (da k : ℕ)
    → (copy_out m blk o mem da).0 ≡ true
    → k < m
    → (copy_out m blk o mem da).1 (da + k) ≡ some (blk (o + k))
unfolding copy_out
copy_out_inside zero blk o mem da k good lt = absurd (omega arith)
copy_out_inside (suc m) blk o mem da zero good lt = elim (Option-cases (mem da)) [
  | inl fault ↦ cc (rw (fault, copy_out) at good)
  | inr (v, e) ↦
      let first : da + 0 ≡ da = omega arith in
      let place : o + 0 ≡ o = omega arith in
      rw (first, place, e, copy_out)
        (copy_out_outside m blk (suc o) (update mem da (some (blk o))) (suc da) da
            (inl (omega arith))
          ∙ update_self mem da (some (blk o)))
]
copy_out_inside (suc m) blk o mem da (suc k) good lt = elim (Option-cases (mem da)) [
  | inl fault ↦ cc (rw (fault, copy_out) at good)
  | inr (v, e) ↦
      let next =
        copy_out_inside m blk (suc o) (update mem da (some (blk o))) (suc da) k
          (rw (e, copy_out) at good) (omega arith) in
      let shift : da + suc k ≡ suc da + k = omega arith in
      let place : o + suc k ≡ suc o + k = omega arith in rw (shift, place, e, copy_out) next
]

-- The memory stays mapped.
update_mapped :
    (mem : Mem) (da v at n : ℕ) → IsMappedAt mem at n → IsMappedAt (update mem da (some v)) at n
update_mapped mem da v at n h k lt miss = elim (ℕ_discrete (at + k) da) [
  | yes same ↦
      let clash : some v ≡ none =
        sym (ap (update mem da (some v)) same ∙ update_self mem da (some v)) ∙ miss in
      cc
  | no ne ↦ h k lt (sym (update_ne mem da (some v) (at + k) ne) ∙ miss)
]

pub copy_out_mapped :
    (m : ℕ) (blk : Block) (o : ℕ) (mem : Mem) (da at n : ℕ)
    → IsMappedAt mem at n
    → IsMappedAt (copy_out m blk o mem da).1 at n
unfolding copy_out
copy_out_mapped zero blk o mem da at n h = h
copy_out_mapped (suc m) blk o mem da at n h = elim (Option-cases (mem da)) [
  | inl fault ↦ rw (fault, copy_out) h
  | inr (v, e) ↦
      rw (e, copy_out)
        (copy_out_mapped m blk (suc o) (update mem da (some (blk o))) (suc da) at n
          (update_mapped mem da (blk o) at n h))
]

pub copy_out-IsMappedAt :
    (m : ℕ) (blk : Block) (o : ℕ) (mem : Mem) (da : ℕ)
    → IsMappedAt mem da m
    → (copy_out m blk o mem da).0 ≡ true
unfolding copy_out
copy_out-IsMappedAt zero blk o mem da h = refl
copy_out-IsMappedAt (suc m) blk o mem da h = elim (Option-cases (mem da)) [
  | inl fault ↦ absurd (mapped_first mem da m h fault)
  | inr (v, e) ↦
      rw (e, copy_out)
        (copy_out-IsMappedAt m blk (suc o) (update mem da (some (blk o))) (suc da)
          (update_mapped mem da (blk o) (suc da) m (mapped_rest mem da m h)))
]
