-- ===== src/Proc/Inv/Distinct.antt =====
-- kernel/proc.c: pids tell the slots of the table apart, so a search by pid finds the process meant.
use osmini_project.Base.{
  ℕ, zero, suc, ◌<◌, ◌≡◌, refl, sym, ap, ◌∙◌, ◌≢◌, inl, inr, Bool, true, false, List, [], ◌∷◌, some,
  arith, length, get_or, find_from, find_from_first, Bool-cases,
}
use osmini_project.Proc.Defs.{Proc, zero_proc}
use osmini_project.Proc.Inv.Defs.{Apart, IsDistinct, pids, IsTable}

-- Two slots with one pid, which is not 0, are one slot.
Apart-get_or :
    (a : ℕ) (ps : List Proc) (i : ℕ)
    → Apart a (pids ps)
    → i < length ps
    → (get_or ps i zero_proc).pid ≡ a
    → a ≡ 0
Apart-get_or a [] i h lt e = absurd (omega arith)
Apart-get_or a (p ∷ ps) zero h lt e = ground arith
Apart-get_or a (p ∷ ps) (suc i) h lt e = Apart-get_or a ps i h.1 (omega arith) e

pub IsDistinct-get_or :
    (ps : List Proc) (i j : ℕ)
    → IsDistinct (pids ps)
    → i < length ps
    → j < length ps
    → (get_or ps i zero_proc).pid ≡ (get_or ps j zero_proc).pid
    → (get_or ps j zero_proc).pid ≢ 0
    → i ≡ j
IsDistinct-get_or [] i j d hi hj e ne = absurd (omega arith)
IsDistinct-get_or (p ∷ ps) zero zero d hi hj e ne = refl
IsDistinct-get_or (p ∷ ps) zero (suc j) d hi hj e ne =
    absurd (ne (sym e ∙ Apart-get_or p.pid ps j d.0 (omega arith) (sym e)))
IsDistinct-get_or (p ∷ ps) (suc i) zero d hi hj e ne =
    absurd (ne (Apart-get_or p.pid ps i d.0 (omega arith) e))
IsDistinct-get_or (p ∷ ps) (suc i) (suc j) d hi hj e ne =
    ap suc (IsDistinct-get_or ps i j d.1 (omega arith) (omega arith) e ne)

-- A search that only the pid of slot `i` passes finds this slot.
pub find_from-pid :
    (n : ℕ) (test : Proc → Bool) (ps : List Proc) (i : ℕ)
    → IsTable n ps
    → i < length ps
    → (get_or ps i zero_proc).pid ≢ 0
    → test (get_or ps i zero_proc) ≡ true
    → ((p : Proc) → test p ≡ true → p.pid ≡ (get_or ps i zero_proc).pid)
    → find_from 0 test ps ≡ some i
find_from-pid n test ps i t lt used hit only =
    find_from_first 0 test ps zero_proc i lt hit (λ j h. others j h) ∙ ap some (omega arith)
  where
    others : (j : ℕ) → j < i → test (get_or ps j zero_proc) ≡ false
    others j h = elim (Bool-cases (test (get_or ps j zero_proc))) [
      | inl passes ↦
          let equal : j ≡ i =
            IsDistinct-get_or ps j i t.distinct (omega arith) lt
              (only (get_or ps j zero_proc) passes) used in
          absurd (omega arith)
      | inr fails ↦ fails
    ]
