-- ===== src/Proc/Stats.antt =====
-- kernel/proc.c, kernel/trap.c and kernel/sysproc.c: the statistics of the processes, the log that
-- the agent reads, the clock, and the system calls that feed all these.
use osmini_project.Base.{
  ℕ, ◌%◌, true, List, [], ◌∷◌, ◌++◌, map_from, if◌then◌else◌, ◌==◌, add32, is_nonpositive,
  minus_one,
}
use osmini_project.Proc.Defs.{
  runnable, running, ticks_chan, Proc, LogLine, log_start, log_end, timestamp_line, proc_line,
  Kernel, update_proc, is_unused,
}
use osmini_project.Proc.Wait.{wakeup}

-- LOG_INTERVAL.
abbrev pub log_interval : ℕ
log_interval = 100

-- The body of the loop in `update_sched_stats`.
abbrev pub count_tick : Proc → Proc
count_tick p = elim p.state [
  | runnable ↦ record p { wait_ticks = add32 p.wait_ticks 1 }
  | running ↦ record p { cpu_ticks = add32 p.cpu_ticks 1; recent_cpu = add32 p.recent_cpu 1 }
  | _ ↦ p
]

-- The lines of the snapshot: one for each slot in use.
unfoldable pub snapshot : List Proc → List LogLine
snapshot [] = []
snapshot (p ∷ ps) =
    let rest = snapshot ps in
    if is_unused p.state
    then rest
    else proc_line p.pid p.state p.cpu_ticks p.wait_ticks p.io_count p.recent_cpu ∷ rest

module _ {W : Type 0} where
  unfoldable pub update_sched_stats : Kernel W → Kernel W
  update_sched_stats k = record k { procs = map_from 0 (λ _. count_tick) k.procs }

  unfoldable pub log_scheduling_state : Kernel W → Kernel W
  log_scheduling_state k = record k {
    console = k.console ++ log_start ∷ timestamp_line k.ticks ∷ (snapshot k.procs ++ log_end ∷ []);
  }

  -- The count of `clockintr` towards the next snapshot of the log.
  unfoldable pub count_log : Kernel W → Kernel W
  count_log k =
      let k1 = record k { log_counter = add32 k.log_counter 1 } in
      if k1.log_counter % log_interval == 0 then log_scheduling_state k1 else k1

  -- `clockintr` on CPU 0, but for the request of the next interrupt.
  unfoldable pub clockintr : Kernel W → Kernel W
  clockintr k =
      count_log (update_sched_stats (wakeup ticks_chan (record k { ticks = add32 k.ticks 1 })))

  -- `sys_set_llm_advice` with its argument.
  unfoldable pub sys_set_llm_advice : (pid : ℕ) → Kernel W → ℕ × Kernel W
  sys_set_llm_advice pid k = if is_nonpositive pid then (minus_one, k) else (
    0,
    record k { advice = record { recommended_pid = pid; valid = true; timestamp = k.ticks } },
  )

  -- `cur->io_count++` of `sys_wait` and `sys_pause`.
  unfoldable pub count_io : ℕ → Kernel W → Kernel W
  count_io i k = update_proc k i (λ p. record p { io_count = add32 p.io_count 1 })
