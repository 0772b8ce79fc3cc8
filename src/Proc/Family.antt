-- ===== src/Proc/Family.antt =====
-- kernel/proc.c: what `kexit` does to the children and the parent of a process, and what `kwait` of the
-- parent makes of it.
pub mod Slots
pub mod Reparent
use osmini_project.Base.{
  get_or-modify_ne, map, some-injective, ℕ, zero, suc, ◌+◌, ◌≤◌, ◌<◌, ◌≡◌, refl, sym, ap, ◌∙◌, ◌≢◌,
  inl, inr, Bool, true, false, not, ◌&&◌, ◌||◌, Option, none, some, List, [], ◌∷◌, arith, ◌==◌, All,
  length, modify, get_or, map_from, find_from, find_from-eq-some, find_from-eq-none, Bool-cases,
  Option-cases, if◌then◌else◌, ℕ_discrete,
}
use osmini_project.Proc.Defs.{
  Chan, proc_chan, chan_eq, Proc, Kernel, Services, zero_proc, proc_at, update_proc, is_runnable,
  is_sleeping, is_zombie, zombie, runnable, nproc,
}
use osmini_project.Proc.Alloc.{freeproc}
use osmini_project.Proc.Wait.{is_current, wake_slot, wakeup, killed, sleep_enter}
use osmini_project.Proc.Life.{
  is_child_of, proc_ptr, reparent_from, reparent, exit_family, finish_exit, exit_files, kexit,
  kwait_pass, reap, finish_reap, Waited, returns,
}
use osmini_project.Proc.Family.Slots.{
  All-test, test-map_from, test-modify, test-modify_self, Steady, is_child_of-init, orphans-Steady,
  waits_or_ready, wake_slot-ready, wake_slots-ready, owns, one_owner, owns-parent, one_parent,
  has_exited, modify-zombie,
}
use osmini_project.Proc.Family.Reparent.{
  test-wakeup, adopt, reparent_from-rest, test-reparent_from, no_orphan,
}

module _ {W : Type 0} (s : Services W) where
  -- `kexit` that has not panicked, by the kernel `k1` when it takes `wait_lock`.
  kexit-eq-some :
      (meanwhile : Kernel W → Kernel W) (i status : ℕ) (k k1 k' : Kernel W)
      → meanwhile (exit_files s i k) ≡ k1
      → kexit s meanwhile i status k ≡ some k'
      → (is_current k.initproc i ≡ false) × (k' ≡ finish_exit i status k1)
  unfolding kexit
  kexit-eq-some meanwhile i status k k1 k' at e = elim (Bool-cases (is_current k.initproc i)) [
    | inl c ↦ cc (rw c at e)
    | inr c ↦ (c, sym (some-injective _ _ (rw c at e)) ∙ ap (finish_exit i status) at)
  ]

  -- Let `k1` be the kernel when a process that exits takes `wait_lock`, after its files are closed and whatever the
  -- other processes have done meanwhile, with the init process of before. Then the process is the parent
  -- of no slot when it has exited.
  pub kexit-no_orphans :
      (meanwhile : Kernel W → Kernel W) (i status m : ℕ) (k k1 k' : Kernel W)
      → meanwhile (exit_files s i k) ≡ k1
      → k1.initproc ≡ k.initproc
      → kexit s meanwhile i status k ≡ some k'
      → m < nproc
      → is_child_of i (proc_at k' m) ≡ false
  unfolding finish_exit exit_family reparent
  kexit-no_orphans meanwhile i status m k k1 k' at init e lt =
      let (h, end) = kexit-eq-some meanwhile i status k k1 k' at e in
      let h1 : is_current k1.initproc i ≡ false = ap (λ p. is_current p i) init ∙ h in
      rw end (
        test-modify (is_child_of i) false _ (exit_family i k1).procs m i (λ e. e)
          (test-wakeup (is_child_of i) false (proc_ptr (proc_at k1 i).parent) (reparent i k1) m
            (λ p e. e) (no_orphan i nproc 0 _ m h1 (omega arith) (omega arith))))

  -- What holds of another slot before the exit and is kept by what `kexit` does to other slots.
  test-reparented :
      (test : Proc → Bool) (b : Bool) (i m : ℕ) (k : Kernel W)
      → Steady i k.initproc test b
      → test (proc_at k m) ≡ b
      → test (proc_at (reparent i k) m) ≡ b
  unfolding reparent
  test-reparented test b i m k s e = test-reparent_from test b i nproc 0 _ m s e

  exited_at :
      (i status m : ℕ) (k : Kernel W)
      → i ≢ m
      → proc_at (finish_exit i status k) m
        ≡ proc_at (wakeup (proc_ptr (proc_at k i).parent) (reparent i k)) m
  unfolding finish_exit exit_family
  exited_at i status m k ne = get_or-modify_ne (exit_family i k).procs i m _ zero_proc ne

  waits-Steady : (i : ℕ) (init : Option ℕ) (chan : Chan) → Steady i init (waits_or_ready chan) true
  waits-Steady i init chan = record { wakes = λ p e. refl; adopts = λ p _ e. e }

  -- Let `k1` be the kernel when process `i`, which exits, takes `wait_lock`, after its files are closed and whatever
  -- the other processes have done meanwhile. If its parent is RUNNABLE then or asleep in `kwait`, it is
  -- RUNNABLE when the process has exited: no exit is missed.
  pub kexit-wakes_parent :
      (meanwhile : Kernel W → Kernel W) (i status parent : ℕ) (k k1 k' : Kernel W)
      → meanwhile (exit_files s i k) ≡ k1
      → kexit s meanwhile i status k ≡ some k'
      → k1.cpu_proc ≡ some i
      → i ≢ parent
      → (proc_at k1 i).parent ≡ some parent
      → waits_or_ready (proc_chan parent) (proc_at k1 parent) ≡ true
      → is_runnable (proc_at k' parent).state ≡ true
  unfolding wakeup reparent
  kexit-wakes_parent meanwhile i status parent k k1 k' at e current ne child e1 =
      let (_, end) = kexit-eq-some meanwhile i status k k1 k' at e in
      let before = reparent i k1 in
      let waits =
        test-reparented (waits_or_ready (proc_chan parent)) true i parent k1
          (waits-Steady i k1.initproc (proc_chan parent)) e1 in
      let other : is_current before.cpu_proc parent ≡ false =
        ap (λ c. is_current c parent) ((reparent_from-rest i nproc 0 _).1 ∙ current) ∙ different in
      ap (λ (k : Kernel W). is_runnable (proc_at k parent).state) end
      ∙ ap (λ (p : Proc). is_runnable p.state) (exited_at i status parent k1 ne)
      ∙ rw child (
          wake_slots-ready before.cpu_proc (proc_chan parent) before.procs parent 0
            (ap (is_current before.cpu_proc) from_start ∙ other) waits)
    where
      from_start : 0 + parent ≡ parent
      from_start = omega arith

      different : (i == parent) ≡ false
      different = ground arith

  child-Steady :
      (i parent : ℕ) (init : Option ℕ) → i ≢ parent → Steady i init (is_child_of parent) true
  child-Steady i parent init ne = record {
    wakes = λ p e. e;
    adopts = λ p his its. absurd (ne (one_parent p his its));
  }

  -- Let `k1` be the kernel when process `i`, which exits, takes `wait_lock`, after its files are closed and whatever
  -- the other processes have done meanwhile. When it has exited, `kwait` of the parent that it has in `k1`,
  -- with no address for the status, reaps a child that is a zombie, and neither sleeps nor fails.
  pub kexit-kwait :
      (meanwhile : Kernel W → Kernel W) (i status parent : ℕ) (k k1 k' : Kernel W)
      → meanwhile (exit_files s i k) ≡ k1
      → kexit s meanwhile i status k ≡ some k'
      → i ≢ parent
      → (proc_at k1 i).parent ≡ some parent
      → (j : ℕ) × (is_child_of parent (proc_at k' j) ≡ true)
        × (is_zombie (proc_at k' j).state ≡ true)
        × (kwait_pass s parent 0 k' ≡ returns (proc_at k' j).pid (freeproc s j k'))
  unfolding kwait_pass reap finish_reap finish_exit exit_family reparent
  kexit-kwait meanwhile i status parent k k1 k' at e ne child =
      elim (Option-cases (find_from 0 (has_exited parent) k'.procs)) [
        | inl none_found ↦
            let there = find_from-eq-none 0 (has_exited parent) k'.procs none_found in
            cc (zombie_left, All-test (has_exited parent) k'.procs i there refl)
        | inr (n, hit) ↦
            let (m, same, _, pass, _) =
              find_from-eq-some 0 (has_exited parent) k'.procs zero_proc hit in
            let at : n ≡ m = omega arith in
            let pass' : has_exited parent (proc_at k' n) ≡ true = rw at pass in
            (n, ground arith, ground arith, rw (hit, kwait_pass))
      ]
    where
      still_child : is_child_of parent (proc_at (exit_family i k1) i) ≡ true
      still_child =
          test-wakeup (is_child_of parent) true (proc_ptr (proc_at k1 i).parent) (reparent i k1) i
            (λ p e. e)
            (test-reparent_from (is_child_of parent) true i nproc 0 _ i
              (child-Steady i parent k1.initproc ne)
              (owns-parent parent (proc_at k1 i) (some parent) child ∙ ground arith))

      zombie_left : has_exited parent (proc_at k' i) ≡ true
      zombie_left =
          rw (kexit-eq-some meanwhile i status k k1 k' at e).1
            (modify-zombie parent status (exit_family i k1).procs i still_child)
