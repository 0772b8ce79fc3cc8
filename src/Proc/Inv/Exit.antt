-- ===== src/Proc/Inv/Exit.antt =====
-- kernel/proc.c: `kwait` and the end of `kexit` keep the invariant, and a process that leaves the CPU is not
-- RUNNING.
use osmini_project.Base.{
  ℕ, ◌≡◌, refl, inl, inr, ◌≢◌, Bool, true, false, not, ◌&&◌, ◌||◌, some, is_some, arith, get_or,
  get_or-modify_ne, length-modify, All-modify_at, Option-cases, find_from, find_from-eq-some, ◌==◌,
  if-cases,
}
use osmini_project.Proc.Defs.{
  is_unused, is_running, is_zombie, Chan, proc_chan, Proc, Kernel, Services, zero_proc, proc_at,
  update_proc, nproc,
}
use osmini_project.Proc.Alloc.{freeproc, cleared}
use osmini_project.Proc.Wait.{yield_enter, sleep_enter, killed}
use osmini_project.Proc.Life.{
  kwait_pass, finish_exit, Waited, returns, sleeps, is_child_of, finish_reap, no_zombie, proc_ptr,
  reparent, exit_family,
}
use osmini_project.Proc.Inv.Defs.{IsSlot, InKernel, IsIdle}
use osmini_project.Proc.Inv.Tables.{IsQuietBut-modify, IsQuietBut-modify_self, pids-modify}
use osmini_project.Proc.Inv.Alloc.{freeproc-IsTable}
use osmini_project.Proc.Inv.Calls.{aside-InKernel, wakeup-InKernel, reparent_from-InKernel}

module _ {W : Type 0} (s : Services W) (i : ℕ) where
  -- The running process leaves by a write to its own slot, which stays in use.
  leave-IsIdle :
      (f : Proc → Proc) (k : Kernel W)
      → ((p : Proc)
          → ((f p).pid ≡ p.pid) × ((f p).trapframe ≡ p.trapframe) × ((f p).pagetable ≡ p.pagetable))
      → ((p : Proc) → (is_unused (f p).state ≡ false) × (is_running (f p).state ≡ false))
      → InKernel i k
      → IsIdle (update_proc k i f)
  leave-IsIdle f k same left v = record {
    valid = record {
      table = record {
        size = rw (length-modify k.procs i f) v.valid.table.size;
        slots =
            All-modify_at (IsSlot k.nextpid) f zero_proc k.procs i
              (λ slot. ground (
                arith,
                same (get_or k.procs i zero_proc),
                left (get_or k.procs i zero_proc),
                v.runs,
              ))
              v.valid.table.slots;
        distinct = rw (pids-modify k.procs i f (λ p. (same p).0)) v.valid.table.distinct;
      };
      pid_start = v.valid.pid_start;
      pid_range = v.valid.pid_range;
    };
    quiet = IsQuietBut-modify_self k.procs i f (λ p. (left p).1) v.quiet;
  }

  pub yield_enter-IsIdle : (k : Kernel W) → InKernel i k → IsIdle (yield_enter i k)
  unfolding yield_enter
  yield_enter-IsIdle k v = leave-IsIdle _ k (λ p. (refl, refl, refl)) (λ p. (refl, refl)) v

  pub sleep_enter-IsIdle :
      (chan : Chan) (k : Kernel W) → InKernel i k → IsIdle (sleep_enter i chan k)
  unfolding sleep_enter
  sleep_enter-IsIdle chan k v = leave-IsIdle _ k (λ p. (refl, refl, refl)) (λ p. (refl, refl)) v

  freeproc-InKernel : (j : ℕ) (k : Kernel W) → j ≢ i → InKernel i k → InKernel i (freeproc s j k)
  unfolding freeproc
  freeproc-InKernel j k ne v = record {
    valid = record {
      table = unfold freeproc in freeproc-IsTable s j k v.valid.pid_start v.valid.table;
      pid_start = v.valid.pid_start;
      pid_range = v.valid.pid_range;
    };
    quiet = IsQuietBut-modify k.procs i j cleared (λ p _. refl) v.quiet;
    current = v.current;
    runs = rw (get_or-modify_ne k.procs j i cleared zero_proc ne) v.runs;
  }

  -- What a pass of `kwait` leaves.
  abbrev pub AfterWait : Waited W → Type 0
  AfterWait (returns r k) = InKernel i k
  AfterWait (sleeps k) = IsIdle k

  -- The zombie is not the process that runs.
  zombie_other :
      (k : Kernel W) (j : ℕ)
      → InKernel i k
      → find_from 0 (λ q. is_child_of i q && is_zombie q.state) k.procs ≡ some j
      → j ≢ i
  zombie_other k j v found e =
      let (m, eq, lt, hit, _) =
        find_from-eq-some 0 (λ q. is_child_of i q && is_zombie q.state) k.procs zero_proc found in
      let same : m ≡ i = omega arith in
      let hit' = rw same at hit in let runs = v.runs in ground arith

  finish_reap-AfterWait :
      (j : ℕ) (ok : Bool) (w : W) (k : Kernel W)
      → j ≢ i
      → InKernel i k
      → AfterWait (finish_reap s j ok w k)
  unfolding finish_reap
  finish_reap-AfterWait j false w k ne v = aside-InKernel i k w v
  finish_reap-AfterWait j true w k ne v = freeproc-InKernel j _ ne (aside-InKernel i k w v)

  no_zombie-AfterWait : (k : Kernel W) → InKernel i k → AfterWait (no_zombie s i k)
  unfolding no_zombie
  no_zombie-AfterWait k v =
      if-cases AfterWait
        (not (is_some (find_from 0 (is_child_of i) k.procs)) || not (killed i k == 0)) _ _ v
        (sleep_enter-IsIdle (proc_chan i) k v)

  pub kwait_pass-AfterWait :
      (addr : ℕ) (k : Kernel W) → InKernel i k → AfterWait (kwait_pass s i addr k)
  unfolding kwait_pass
  kwait_pass-AfterWait addr k v =
      elim (Option-cases (find_from 0 (λ q. is_child_of i q && is_zombie q.state) k.procs)) [
        | inl e ↦ rw (e, kwait_pass) (no_zombie-AfterWait k v)
        | inr (j, e) ↦ rw (e, kwait_pass) (finish_reap-AfterWait j _ _ k (zombie_other k j v e) v)
      ]

  exit_family-InKernel : (k : Kernel W) → InKernel i k → InKernel i (exit_family i k)
  unfolding exit_family reparent
  exit_family-InKernel k v =
      wakeup-InKernel i _ (proc_ptr (proc_at k i).parent) (reparent_from-InKernel i i nproc 0 k v)

  pub finish_exit-IsIdle :
      (status : ℕ) (k : Kernel W) → InKernel i k → IsIdle (finish_exit i status k)
  unfolding finish_exit
  finish_exit-IsIdle status k v =
      leave-IsIdle _ (exit_family i k) (λ p. (refl, refl, refl)) (λ p. (refl, refl))
        (exit_family-InKernel k v)
