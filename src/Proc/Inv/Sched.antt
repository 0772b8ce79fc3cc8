-- ===== src/Proc/Inv/Sched.antt =====
-- kernel/proc.c: the invariant holds whenever the scheduler chooses, whatever the processes do.
use osmini_project.Base.{
  [], ◌∷◌, List, ◌<◌, subst, ℕ, zero, suc, ◌+◌, ◌≡◌, refl, Bool, true, false, inl, inr, Option,
  none, some, arith, ◌&&◌, ◌==◌, All-modify_at, length-modify, get_or, get_or-modify_self, length,
  find_from, find_from-eq-some, Option-cases, Bool-cases,
}
use osmini_project.Proc.Defs.{
  running, is_runnable, Proc, Kernel, Services, zero_proc, proc_at, nproc,
}
use osmini_project.Proc.Sched.{
  fresh_advice, start_run, use_advice, run_proc, try_advised, round_robin_from, schedule,
}
use osmini_project.Proc.Inv.Defs.{IsSlot, InKernel, IsIdle}
use osmini_project.Proc.Inv.Tables.{IsQuiet-modify, pids-modify}
use osmini_project.Proc.Inv.Turn.{
  Act, forks, waits, wakes, kills, marks, resumes, grows, clock, advises, counts, sbrks, execs,
  files, traps, others, Leave, yields, blocks, waiting, exits, Turn, last, then_more,
}
use osmini_project.Proc.Inv.Calls.{
  aside-InKernel, wakeup-InKernel, kkill-InKernel, setkilled-InKernel, sleep_resume-InKernel,
  growproc-InKernel, clockintr-InKernel, sys_set_llm_advice-InKernel, count_io-InKernel,
  lazy_sbrk-InKernel, exec_image-InKernel, set_files-InKernel, set_registers-InKernel,
}
use osmini_project.Proc.Inv.Fork.{kfork-InKernel}
use osmini_project.Proc.Inv.Exit.{
  AfterWait, kwait_pass-AfterWait, finish_exit-IsIdle, yield_enter-IsIdle, sleep_enter-IsIdle,
}

module _ {W : Type 0} (s : Services W) (i : ℕ) where
  -- Every call that comes back keeps the invariant, the caller still RUNNING.
  pub Act-InKernel : {k k' : Kernel W} → Act s i k k' → InKernel i k → InKernel i k'
  Act-InKernel {k} (forks room) v = kfork-InKernel s i k room v
  Act-InKernel {k} (waits addr e) v = subst (AfterWait s i) e (kwait_pass-AfterWait s i addr k v)
  Act-InKernel {k} (wakes chan) v = wakeup-InKernel i k chan v
  Act-InKernel {k} (kills pid) v = kkill-InKernel i k pid v
  Act-InKernel {k} (marks j) v = setkilled-InKernel i k j v
  Act-InKernel {k} resumes v = sleep_resume-InKernel i k v
  Act-InKernel {k} (grows n) v = growproc-InKernel s i n k v
  Act-InKernel {k} clock v = clockintr-InKernel i k v
  Act-InKernel {k} (advises pid) v = sys_set_llm_advice-InKernel i k pid v
  Act-InKernel {k} counts v = count_io-InKernel i k v
  Act-InKernel {k} (sbrks n) v = lazy_sbrk-InKernel i k n v
  Act-InKernel {k} (execs pagetable sz registers name) v =
      exec_image-InKernel i k pagetable sz registers name v
  Act-InKernel {k} (files ofile cwd) v = set_files-InKernel i k ofile cwd v
  Act-InKernel {k} (traps registers) v = set_registers-InKernel i k registers v
  Act-InKernel {k} (others w) v = aside-InKernel i k w v

  -- A process that goes back to the scheduler leaves the invariant with nobody RUNNING.
  pub Leave-IsIdle : {k k' : Kernel W} → Leave s i k k' → InKernel i k → IsIdle k'
  Leave-IsIdle {k} yields v = yield_enter-IsIdle s i k v
  Leave-IsIdle {k} (blocks chan) v = sleep_enter-IsIdle s i chan k v
  Leave-IsIdle {k} (waiting addr e) v = subst (AfterWait s i) e (kwait_pass-AfterWait s i addr k v)
  Leave-IsIdle {k} (exits status) v = finish_exit-IsIdle s i status k v

  pub Turn-IsIdle : {k k' : Kernel W} → Turn s i k k' → InKernel i k → IsIdle k'
  Turn-IsIdle (last l) v = Leave-IsIdle l v
  Turn-IsIdle (then_more a t) v = Turn-IsIdle t (Act-InKernel a v)

-- A process that is RUNNABLE has a slot.
pub lt_of_ready :
    (i : ℕ) (ps : List Proc) → is_runnable (get_or ps i zero_proc).state ≡ true → i < length ps
lt_of_ready i [] h = cc
lt_of_ready zero (p ∷ ps) h = omega arith
lt_of_ready (suc i) (p ∷ ps) h = omega (arith, lt_of_ready i ps h)

module _ {W : Type 0} where
  -- A RUNNABLE process that is chosen is the only one RUNNING.
  start_run-InKernel :
      (i : ℕ) (k : Kernel W)
      → i < length k.procs
      → is_runnable (proc_at k i).state ≡ true
      → IsIdle k
      → InKernel i (start_run i k)
  unfolding start_run
  start_run-InKernel i k lt ready v = record {
    valid = record {
      table = record {
        size = rw (length-modify k.procs i run) v.valid.table.size;
        slots =
            All-modify_at (IsSlot k.nextpid) run zero_proc k.procs i (λ slot. ground (arith, ready))
              v.valid.table.slots;
        distinct = rw (pids-modify k.procs i run (λ _. refl)) v.valid.table.distinct;
      };
      pid_start = v.valid.pid_start;
      pid_range = v.valid.pid_range;
    };
    quiet = IsQuiet-modify k.procs i run v.quiet;
    current = refl;
    runs = rw (get_or-modify_self k.procs i run zero_proc lt);
  }
    where
      run : Proc → Proc
      run p = record p { state = running }

  use_advice-InKernel : (i : ℕ) (k : Kernel W) → InKernel i k → InKernel i (use_advice k)
  unfolding use_advice
  use_advice-InKernel i k v = record {
    valid = record {
      table = v.valid.table;
      pid_start = v.valid.pid_start;
      pid_range = v.valid.pid_range;
    };
    quiet = v.quiet;
    current = v.current;
    runs = v.runs;
  }

-- `swtch i` is a turn of process `i`.
abbrev pub IsTurns : {W : Type 0} → Services W → (ℕ → Kernel W → Kernel W) → Type 0
IsTurns {W} s swtch = (i : ℕ) (k : Kernel W) → InKernel i k → Turn s i k (swtch i k)

module _ {W : Type 0} (s : Services W) (swtch : ℕ → Kernel W → Kernel W)
    (turns : IsTurns s swtch) where
  run_proc-IsIdle : (i : ℕ) (k : Kernel W) → InKernel i k → IsIdle (run_proc swtch i k)
  unfolding run_proc
  run_proc-IsIdle i k v =
      let idle = Turn-IsIdle s i (turns i k v) v in
      record {
        valid = record {
          table = idle.valid.table;
          pid_start = idle.valid.pid_start;
          pid_range = idle.valid.pid_range;
        };
        quiet = idle.quiet;
      }

  try_advised-IsIdle :
      (advice : Option ℕ) (k : Kernel W) → IsIdle k → IsIdle (try_advised swtch advice k).0
  unfolding try_advised
  try_advised-IsIdle none k v = v
  try_advised-IsIdle (some pid) k v =
      elim (Option-cases (find_from 0 (λ p. is_runnable p.state && p.pid == pid) k.procs)) [
        | inl e ↦ rw (e, try_advised) v
        | inr (i, e) ↦
            let (m, eq, lt, hit, _) =
              find_from-eq-some 0 (λ p. is_runnable p.state && p.pid == pid) k.procs zero_proc e in
            let same : m ≡ i = omega arith in
            let ready : is_runnable (proc_at k i).state ≡ true = rw (← same) (ground arith) in
            rw (e, try_advised)
              (run_proc-IsIdle i _ (
                use_advice-InKernel i _
                  (start_run-InKernel i k (lt_of_ready i k.procs ready) ready v)))
      ]

  round_robin_from-IsIdle :
      (rounds j : ℕ) (found : Bool) (k : Kernel W)
      → IsIdle k
      → IsIdle (round_robin_from swtch rounds j (k, found)).0
  unfolding round_robin_from
  round_robin_from-IsIdle zero j found k v = v
  round_robin_from-IsIdle (suc rounds) j found k v =
      elim (Bool-cases (is_runnable (proc_at k j).state)) [
        | inl ready ↦
            rw (ready, round_robin_from)
              (round_robin_from-IsIdle rounds (j + 1) true _ (
                run_proc-IsIdle j _ (start_run-InKernel j k (lt_of_ready j k.procs ready) ready v)))
        | inr other ↦
            rw (other, round_robin_from) (round_robin_from-IsIdle rounds (j + 1) found k v)
      ]

  -- An iteration of the scheduler keeps the invariant of the process table (a slot is free exactly
  -- when its pid is 0, pids are distinct and below nextpid, a slot in use has its memory, nobody is
  -- RUNNING), if each process does in its turn what Turn has: any sequence of the steps of Act, and one of
  -- Leave.
  pub schedule-IsIdle : (k : Kernel W) → IsIdle k → IsIdle (schedule swtch k).0
  unfolding schedule
  schedule-IsIdle k v = elim (Bool-cases (try_advised swtch (fresh_advice k) k).1) [
    | inl ran ↦ rw (ran, schedule) (try_advised-IsIdle (fresh_advice k) k v)
    | inr not_yet ↦
        rw (not_yet, schedule)
          (round_robin_from-IsIdle nproc 0 false _ (try_advised-IsIdle (fresh_advice k) k v))
  ]
