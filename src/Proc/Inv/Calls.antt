-- ===== src/Proc/Inv/Calls.antt =====
-- kernel/proc.c, kernel/trap.c and kernel/sysproc.c: each call that a running process makes keeps
-- the invariant.
use osmini_project.Base.{
  ℕ, zero, suc, ◌+◌, ◌≡◌, refl, inl, inr, Option, none, some, arith, ◌==◌, find_from, if-cases,
  add32, add64, sext64, minus_one, is_negative, ltb, ◌%◌, Bool-cases, Option-cases, List, is_some,
}
use osmini_project.Proc.Defs.{
  Trapframe, ticks_chan, trapframe_va, pte_w, Chan, null, Proc, Kernel, Services, proc_at,
}
use osmini_project.Proc.Wait.{wake_slot, kill_slot, wakeup, sleep_resume, kkill, setkilled}
use osmini_project.Proc.Stats.{
  count_tick, update_sched_stats, log_scheduling_state, count_log, log_interval, clockintr,
  sys_set_llm_advice, count_io,
}
use osmini_project.Proc.Alloc.{growproc, grown, set_sz}
use osmini_project.Proc.Life.{reparent_from, is_child_of, proc_ptr}
use osmini_project.Proc.Inv.Defs.{InKernel}
use osmini_project.Proc.Inv.Turn.{write_at, lazy_sbrk, exec_image, set_files, set_registers}
use osmini_project.Proc.Inv.Gentle.{IsGentle, modify-InKernel, map_from-InKernel}

wake_slot-IsGentle :
    (current : Option ℕ) (chan : Chan) (i : ℕ) → IsGentle (wake_slot current chan i)
wake_slot-IsGentle current chan i = record {
  pid = λ p. ground arith;
  free = λ p. ground arith;
  runs = λ p. ground arith;
  frame = λ p. ground arith;
  pages = λ p. ground arith;
}

kill_slot-IsGentle : IsGentle kill_slot
kill_slot-IsGentle = record {
  pid = λ p. refl;
  free = λ p. ground arith;
  runs = λ p. ground arith;
  frame = λ p. refl;
  pages = λ p. refl;
}

count_tick-IsGentle : IsGentle count_tick
count_tick-IsGentle = record {
  pid = λ p. ground arith;
  free = λ p. ground arith;
  runs = λ p. ground arith;
  frame = λ p. ground arith;
  pages = λ p. ground arith;
}

-- A write to other fields than those of the invariant.
pub aside-IsGentle :
    (f : Proc → Proc)
    → ((p : Proc)
        → ((f p).pid ≡ p.pid)
          × ((f p).state ≡ p.state)
          × ((f p).trapframe ≡ p.trapframe)
          × ((f p).pagetable ≡ p.pagetable))
    → IsGentle f
aside-IsGentle f h = record {
  pid = λ p. (h p).0;
  free = λ p. rw (h p).1;
  runs = λ p. rw (h p).1;
  frame = λ p. rw (h p).2;
  pages = λ p. rw (h p).3;
}

is_some-write_at : {A : Type 0} (f : A → A) (o : Option A) → is_some (write_at f o) ≡ is_some o
is_some-write_at f none = refl
is_some-write_at f (some a) = refl

module _ {W : Type 0} (i : ℕ) (k : Kernel W) where
  -- What the invariant does not read may change.
  pub aside-InKernel : (w : W) → InKernel i k → InKernel i (record k { rest = w })
  aside-InKernel w v = record {
    valid = record {
      table = v.valid.table;
      pid_start = v.valid.pid_start;
      pid_range = v.valid.pid_range;
    };
    quiet = v.quiet;
    current = v.current;
    runs = v.runs;
  }

  pub wakeup-InKernel : (chan : Chan) → InKernel i k → InKernel i (wakeup chan k)
  unfolding wakeup
  wakeup-InKernel chan v =
      map_from-InKernel i (wake_slot k.cpu_proc chan) k (wake_slot-IsGentle k.cpu_proc chan) v

  pub kkill-InKernel : (pid : ℕ) → InKernel i k → InKernel i (kkill pid k).1
  unfolding kkill
  kkill-InKernel pid v = elim (Option-cases (find_from 0 (λ p. p.pid == pid) k.procs)) [
    | inl e ↦ rw (e, kkill) v
    | inr (j, e) ↦ rw (e, kkill) (modify-InKernel i j kill_slot k kill_slot-IsGentle v)
  ]

  pub setkilled-InKernel : (j : ℕ) → InKernel i k → InKernel i (setkilled j k)
  unfolding setkilled
  setkilled-InKernel j v =
      modify-InKernel i j (λ p. record p { killed = 1 }) k
        (aside-IsGentle _ (λ p. (refl, refl, refl, refl))) v

  pub sleep_resume-InKernel : InKernel i k → InKernel i (sleep_resume i k)
  unfolding sleep_resume
  sleep_resume-InKernel v =
      modify-InKernel i i (λ p. record p { chan = null }) k
        (aside-IsGentle _ (λ p. (refl, refl, refl, refl))) v

  pub count_io-InKernel : InKernel i k → InKernel i (count_io i k)
  unfolding count_io
  count_io-InKernel v = modify-InKernel i i _ k (aside-IsGentle _ (λ p. (refl, refl, refl, refl))) v

  pub lazy_sbrk-InKernel : (n : ℕ) → InKernel i k → InKernel i (lazy_sbrk i n k)
  lazy_sbrk-InKernel n v =
      modify-InKernel i i _ k (aside-IsGentle _ (λ p. (refl, refl, refl, refl))) v

  pub exec_image-InKernel :
      (pagetable sz : ℕ) (registers : Trapframe → Trapframe) (name : List ℕ)
      → InKernel i k
      → InKernel i (exec_image i pagetable sz registers name k)
  exec_image-InKernel pagetable sz registers name v =
      modify-InKernel i i _ k
        (record {
          pid = λ p. refl;
          free = λ p. refl;
          runs = λ p. refl;
          frame = λ p. is_some-write_at registers p.trapframe;
          pages = λ p. is_some-write_at (λ _. pagetable) p.pagetable;
        })
        v

  pub set_files-InKernel :
      (ofile : List (Option ℕ)) (cwd : Option ℕ)
      → InKernel i k
      → InKernel i (set_files i ofile cwd k)
  set_files-InKernel ofile cwd v =
      modify-InKernel i i _ k (aside-IsGentle _ (λ p. (refl, refl, refl, refl))) v

  pub set_registers-InKernel :
      (registers : Trapframe → Trapframe) → InKernel i k → InKernel i (set_registers i registers k)
  set_registers-InKernel registers v =
      modify-InKernel i i _ k
        (record {
          pid = λ p. refl;
          free = λ p. refl;
          runs = λ p. refl;
          frame = λ p. is_some-write_at registers p.trapframe;
          pages = λ p. refl;
        })
        v

  pub update_sched_stats-InKernel : InKernel i k → InKernel i (update_sched_stats k)
  unfolding update_sched_stats
  update_sched_stats-InKernel v =
      map_from-InKernel i (λ _. count_tick) k (λ _. count_tick-IsGentle) v

  pub sys_set_llm_advice-InKernel :
      (pid : ℕ) → InKernel i k → InKernel i (sys_set_llm_advice pid k).1
  unfolding sys_set_llm_advice
  sys_set_llm_advice-InKernel pid v = ground arith

  pub set_sz-InKernel : (sz : ℕ) (w : W) → InKernel i k → InKernel i (set_sz i sz k w).1
  set_sz-InKernel sz w v =
      modify-InKernel i i (λ p. record p { sz = sz }) (record k { rest = w })
        (aside-IsGentle _ (λ p. (refl, refl, refl, refl))) (aside-InKernel w v)

module _ {W : Type 0} (i : ℕ) where
  log_scheduling_state-InKernel :
      (k : Kernel W) → InKernel i k → InKernel i (log_scheduling_state k)
  unfolding log_scheduling_state
  log_scheduling_state-InKernel k v = record {
    valid = record {
      table = v.valid.table;
      pid_start = v.valid.pid_start;
      pid_range = v.valid.pid_range;
    };
    quiet = v.quiet;
    current = v.current;
    runs = v.runs;
  }

  tick-InKernel :
      (n m : ℕ) (k : Kernel W) → InKernel i k → InKernel i (record k { ticks = n; log_counter = m })
  tick-InKernel n m k v = record {
    valid = record {
      table = v.valid.table;
      pid_start = v.valid.pid_start;
      pid_range = v.valid.pid_range;
    };
    quiet = v.quiet;
    current = v.current;
    runs = v.runs;
  }

  count_log-InKernel : (k : Kernel W) → InKernel i k → InKernel i (count_log k)
  unfolding count_log
  count_log-InKernel k v =
      let k1 = record k { log_counter = add32 k.log_counter 1 } in
      let v1 = tick-InKernel k.ticks (add32 k.log_counter 1) k v in
      if-cases (InKernel i) (k1.log_counter % log_interval == 0) (log_scheduling_state k1) k1
        (log_scheduling_state-InKernel k1 v1) v1

  pub clockintr-InKernel : (k : Kernel W) → InKernel i k → InKernel i (clockintr k)
  unfolding clockintr
  clockintr-InKernel k v = count_log-InKernel (update_sched_stats (wakeup ticks_chan k1)) (
      update_sched_stats-InKernel i (wakeup ticks_chan k1)
        (wakeup-InKernel i k1 ticks_chan (tick-InKernel (add32 k.ticks 1) k.log_counter k v)))
    where
      k1 : Kernel W
      k1 = record k { ticks = add32 k.ticks 1 }

  pub reparent_from-InKernel :
      (j rounds n : ℕ) (k : Kernel W) → InKernel i k → InKernel i (reparent_from j rounds n k)
  unfolding reparent_from
  reparent_from-InKernel j zero n k v = v
  reparent_from-InKernel j (suc rounds) n k v = elim (Bool-cases (is_child_of j (proc_at k n))) [
    | inl child ↦ rw child (
        reparent_from-InKernel j rounds (n + 1) _ (
          wakeup-InKernel i _ (proc_ptr k.initproc) (
            modify-InKernel i n (λ p. record p { parent = k.initproc }) k
              (aside-IsGentle _ (λ p. (refl, refl, refl, refl))) v)))
    | inr other ↦ rw other (reparent_from-InKernel j rounds (n + 1) k v)
  ]

module _ {W : Type 0} (s : Services W) (i : ℕ) where
  growproc_cases :
      (P : ℕ × Kernel W → Type 0) (n : ℕ) (k : Kernel W)
      → P (minus_one, k)
      → ((sz : ℕ) (w : W) → P (set_sz i sz k w))
      → ((r : ℕ × W) → P (grown s i k r))
      → P (growproc s i n k)
  unfolding growproc
  growproc_cases P n k refused sized grows =
      let p = proc_at k i in
      let newsz = add64 p.sz (sext64 n) in
      let root : ℕ = elim p.pagetable [ none ↦ 0 | some a ↦ a ] in
      if-cases P (n == 0) _ _ (sized p.sz k.rest) (
        if-cases P (is_negative n) _ _ (sized _ _) (
          if-cases P (ltb trapframe_va newsz) _ _ refused
            (grows (s.uvmalloc root p.sz newsz pte_w k.rest))))

  grown-InKernel : (k : Kernel W) (r : ℕ × W) → InKernel i k → InKernel i (grown s i k r).1
  unfolding grown
  grown-InKernel k (sz, w) v = elim (Bool-cases (sz == 0)) [
    | inl e ↦ rw (e, grown) (aside-InKernel i k w v)
    | inr e ↦ rw (e, grown) (set_sz-InKernel i k sz w v)
  ]

  pub growproc-InKernel : (n : ℕ) (k : Kernel W) → InKernel i k → InKernel i (growproc s i n k).1
  growproc-InKernel n k v =
      growproc_cases (λ r. InKernel i r.1) n k v (λ sz w. set_sz-InKernel i k sz w v)
        (λ r. grown-InKernel k r v)
