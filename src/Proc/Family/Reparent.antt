-- ===== src/Proc/Family/Reparent.antt =====
-- kernel/proc.c: what `reparent` and `wakeup` leave of a slot.
use osmini_project.Base.{
  ℕ, zero, suc, ◌+◌, ◌≤◌, ◌<◌, ◌≡◌, refl, ◌≢◌, inl, inr, Bool, true, false, not, ◌&&◌, arith,
  Bool-cases, ℕ_discrete,
}
use osmini_project.Proc.Defs.{
  Chan, chan_eq, Proc, Kernel, proc_at, update_proc, is_sleeping, runnable,
}
use osmini_project.Proc.Wait.{is_current, wake_slot, wakeup}
use osmini_project.Proc.Life.{is_child_of, proc_ptr, reparent_from}
use osmini_project.Proc.Family.Slots.{
  test-map_from, test-modify, test-modify_self, Steady, is_child_of-init, orphans-Steady,
}

module _ {W : Type 0} where
  pub test-wakeup :
      (test : Proc → Bool) (b : Bool) (chan : Chan) (k : Kernel W) (m : ℕ)
      → ((p : Proc) → test p ≡ b → test (record p { state = runnable }) ≡ b)
      → test (proc_at k m) ≡ b
      → test (proc_at (wakeup chan k) m) ≡ b
  unfolding wakeup
  test-wakeup test b chan k m h e =
      test-map_from test b (wake_slot k.cpu_proc chan) k.procs m 0 (λ n p hp. woken n p hp) e
    where
      woken : (n : ℕ) (p : Proc) → test p ≡ b → test (wake_slot k.cpu_proc chan n p) ≡ b
      woken n p hp =
          elim (Bool-cases
            (not (is_current k.cpu_proc n) && (is_sleeping p.state && chan_eq p.chan chan))) [
              | inl c ↦ rw c (h p hp)
              | inr c ↦ rw c hp
            ]

  -- A child goes to `init`.
  abbrev pub adopt : ℕ → Kernel W → Kernel W
  adopt j k = wakeup (proc_ptr k.initproc) (update_proc k j (λ p. record p { parent = k.initproc }))

  pub reparent_from-rest :
      (i rounds j : ℕ) (k : Kernel W)
      → ((reparent_from i rounds j k).initproc ≡ k.initproc)
        × ((reparent_from i rounds j k).cpu_proc ≡ k.cpu_proc)
  unfolding reparent_from wakeup
  reparent_from-rest i zero j k = (refl, refl)
  reparent_from-rest i (suc rounds) j k = elim (Bool-cases (is_child_of i (proc_at k j))) [
    | inl e ↦ rw (e, reparent_from) (reparent_from-rest i rounds (j + 1) (adopt j k))
    | inr e ↦ rw (e, reparent_from) (reparent_from-rest i rounds (j + 1) k)
  ]

  pub test-reparent_from :
      (test : Proc → Bool) (b : Bool) (i rounds j : ℕ) (k : Kernel W) (m : ℕ)
      → Steady i k.initproc test b
      → test (proc_at k m) ≡ b
      → test (proc_at (reparent_from i rounds j k) m) ≡ b
  unfolding reparent_from wakeup
  test-reparent_from test b i zero j k m s e = e
  test-reparent_from test b i (suc rounds) j k m s e =
      elim (Bool-cases (is_child_of i (proc_at k j))) [
        | inl child ↦
            rw (child, reparent_from)
              (test-reparent_from test b i rounds (j + 1) (adopt j k) m s (
                test-wakeup test b (proc_ptr k.initproc)
                  (update_proc k j (λ p. record p { parent = k.initproc })) m s.wakes
                  (test-modify test b (λ p. record p { parent = k.initproc }) k.procs m j
                    (s.adopts (proc_at k j) child) e)))
        | inr other ↦ rw (other, reparent_from) (test-reparent_from test b i rounds (j + 1) k m s e)
      ]

  -- No slot of those passed has the parent `i` any more.
  pub no_orphan :
      (i rounds j : ℕ) (k : Kernel W) (m : ℕ)
      → is_current k.initproc i ≡ false
      → j ≤ m
      → m < j + rounds
      → is_child_of i (proc_at (reparent_from i rounds j k) m) ≡ false
  unfolding reparent_from wakeup
  no_orphan i zero j k m h le lt = absurd (omega arith)
  no_orphan i (suc rounds) j k m h le lt = elim (Bool-cases (is_child_of i (proc_at k j))) [
    | inl child ↦
        rw (child, reparent_from)
          (passed (adopt j k) h (adopted child)
            (λ ne. no_orphan i rounds (j + 1) (adopt j k) m h (omega arith) (omega arith)))
    | inr other ↦
        rw (other, reparent_from)
          (passed k h other (λ ne. no_orphan i rounds (j + 1) k m h (omega arith) (omega arith)))
  ]
    where
      passed :
          (k1 : Kernel W)
          → is_current k1.initproc i ≡ false
          → is_child_of i (proc_at k1 j) ≡ false
          → (j ≢ m → is_child_of i (proc_at (reparent_from i rounds (j + 1) k1) m) ≡ false)
          → is_child_of i (proc_at (reparent_from i rounds (j + 1) k1) m) ≡ false
      passed k1 h1 e later = elim (ℕ_discrete j m) [
        | yes here ↦
            test-reparent_from (is_child_of i) false i rounds (j + 1) k1 m
              (orphans-Steady i k1.initproc h1) (rw here at e)
        | no ne ↦ later ne
      ]

      adopted : is_child_of i (proc_at k j) ≡ true → is_child_of i (proc_at (adopt j k) j) ≡ false
      adopted child =
          test-wakeup (is_child_of i) false (proc_ptr k.initproc)
            (update_proc k j (λ p. record p { parent = k.initproc })) j (λ p e. e)
            (test-modify_self (is_child_of i) false (λ p. record p { parent = k.initproc }) k.procs
              j (λ p. is_child_of-init i k.initproc p h) refl)
