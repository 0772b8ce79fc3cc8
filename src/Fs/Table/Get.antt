-- ===== src/Fs/Table/Get.antt =====
-- kernel/fs.c: `iget` finds the entry of an inode, or takes the first free one.
use osmini_project.Base.{
  ℕ, zero, suc, ◌+◌, ◌≤◌, ◌<◌, ◌≡◌, ◌≢◌, inl, inr, refl, sym, ap, ◌∙◌, true, false, ◌==◌, arith,
  Option, none, some, ℕ_discrete, Bool-cases,
}
use osmini_project.Fs.{Inode}
use osmini_project.Fs.Table.{
  State, ninode, with_inode, is_entry, add_ref, remember, iget_from, iget,
}

-- No entry from `lo` to `hi` is that of the inode.
abbrev pub IsAbsent : (dev inum : ℕ) → (lo hi : ℕ) → State → Type 0
IsAbsent dev inum lo hi k = (j : ℕ) → lo ≤ j → j < hi → is_entry dev inum (k.inode j) ≡ false

abbrev pub IsBusy : (lo hi : ℕ) → State → Type 0
IsBusy lo hi k = (j : ℕ) → lo ≤ j → j < hi → (k.inode j).ref ≢ 0

abbrev pub fresh : (dev inum : ℕ) → Inode → Inode
fresh dev inum ip = record ip { dev = dev; inum = inum; ref = 1; valid = false }

-- The first entry of the inode, or the first free one, or a panic as all are busy with others.
pub data Iget (dev inum : ℕ) (k : State) : Option (ℕ × State) → Type 0 where
  hit :
      (i : ℕ)
      → i < ninode
      → is_entry dev inum (k.inode i) ≡ true
      → IsAbsent dev inum 0 i k
      → Iget dev inum k (some (i, with_inode i (add_ref (k.inode i)) k))
  free :
      (i : ℕ)
      → i < ninode
      → (k.inode i).ref ≡ 0
      → IsAbsent dev inum 0 ninode k
      → IsBusy 0 i k
      → Iget dev inum k (some (i, with_inode i (fresh dev inum (k.inode i)) k))
  full : IsAbsent dev inum 0 ninode k → IsBusy 0 ninode k → Iget dev inum k none

-- What the loop has remembered when it comes to `i`.
data Remembered (k : State) (i : ℕ) : Option ℕ → Type 0 where
  nothing : IsBusy 0 i k → Remembered k i none
  first : (e : ℕ) → e < i → (k.inode e).ref ≡ 0 → IsBusy 0 e k → Remembered k i (some e)

Remembered-step :
    (k : State) (i : ℕ) (empty : Option ℕ)
    → Remembered k i empty
    → Remembered k (suc i) (remember empty i (k.inode i).ref)
Remembered-step k i _ (first e lt nil busy) = first e (omega arith) nil busy
Remembered-step k i _ (nothing busy) = elim (ℕ_discrete (k.inode i).ref 0) [
  | yes nil ↦
      let t : ((k.inode i).ref == 0) ≡ true = ground arith in rw t (first i (omega arith) nil busy)
  | no ne ↦
      let t : ((k.inode i).ref == 0) ≡ false = ground arith in
      rw t (
        nothing (λ j from lt. elim (ℕ_discrete j i) [
          | yes same ↦ λ z. ne (sym (ap (λ j. (k.inode j).ref) same) ∙ z)
          | no other ↦ busy j from (omega arith)
        ]))
]

iget_from-Iget :
    (rounds i : ℕ) (empty : Option ℕ) (dev inum : ℕ) (k : State)
    → i + rounds ≡ ninode
    → Remembered k i empty
    → IsAbsent dev inum 0 i k
    → Iget dev inum k (iget_from rounds i empty dev inum k)
unfolding iget_from
iget_from-Iget zero i _ dev inum k end (nothing busy) absent =
    full (λ j from lt. absent j from (omega arith)) (λ j from lt. busy j from (omega arith))
iget_from-Iget zero i _ dev inum k end (first e lt nil busy) absent =
    free e (omega arith) nil (λ j from small. absent j from (omega arith)) busy
iget_from-Iget (suc rounds) i empty dev inum k end r absent =
    elim (Bool-cases (is_entry dev inum (k.inode i))) [
      | inl here ↦ rw (here, iget_from) (hit i (omega arith) here absent)
      | inr other ↦
          rw (other, iget_from)
            (iget_from-Iget rounds (suc i) (remember empty i (k.inode i).ref) dev inum k
              (omega arith) (Remembered-step k i empty r)
              (λ j from lt. elim (ℕ_discrete j i) [
                | yes same ↦ ap (λ j. is_entry dev inum (k.inode j)) same ∙ other
                | no ne ↦ absent j from (omega arith)
              ]))
    ]

pub iget-Iget : (dev inum : ℕ) (k : State) → Iget dev inum k (iget dev inum k)
unfolding iget
iget-Iget dev inum k =
    iget_from-Iget ninode 0 none dev inum k refl (nothing (λ j from lt. absurd (omega arith)))
      (λ j from lt. absurd (omega arith))
