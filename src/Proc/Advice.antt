-- ===== src/Proc/Advice.antt =====
-- kernel/proc.c, kernel/sysproc.c and kernel/trap.c: which process the scheduler runs, with advice
-- and without.
use osmini_project.Base.{
  ℕ, zero, suc, ◌+◌, ◌^◌, ◌≤◌, ◌<◌, ◌≡◌, refl, sym, ap, ◌∙◌, ◌≢◌, inl, inr, Bool, true, false,
  Option, none, some, arith, ◌&&◌, ◌==◌, ltb, if◌then◌else◌, All, All-get_or, length, find_from,
  find_from-none, ℕ_discrete, Bool-cases, Option-cases, add32, sub32, modify, ◌%◌,
}
use osmini_project.Proc.Defs.{Advice, running, is_runnable, Proc, Kernel, zero_proc, proc_at, nproc}
use osmini_project.Proc.Sched.{
  fresh_advice, start_run, use_advice, run_proc, try_advised, round_robin_from, schedule,
}
use osmini_project.Proc.Wait.{wakeup}
use osmini_project.Proc.Stats.{
  clockintr, count_log, log_scheduling_state, update_sched_stats, sys_set_llm_advice,
}
use osmini_project.Proc.Inv.Defs.{IsSlot, IsIdle}
use osmini_project.Proc.Inv.Sched.{lt_of_ready}
use osmini_project.Proc.Inv.Distinct.{find_from-pid}

abbrev pub is_advised : ℕ → Proc → Bool
is_advised pid p = is_runnable p.state && p.pid == pid

module _ {W : Type 0} (swtch : ℕ → Kernel W → Kernel W) where
  advised-first :
      (k : Kernel W) (i pid : ℕ)
      → IsIdle k
      → is_runnable (proc_at k i).state ≡ true
      → (proc_at k i).pid ≡ pid
      → find_from 0 (is_advised pid) k.procs ≡ some i
  advised-first k i pid v ready same =
      find_from-pid k.nextpid (is_advised pid) k.procs i v.valid.table lt used (ground arith)
        (λ p hit. same_pid p hit ∙ sym same)
    where
      lt : i < length k.procs
      lt = lt_of_ready i k.procs ready

      used : (proc_at k i).pid ≢ 0
      used =
          let slot = All-get_or (IsSlot k.nextpid) k.procs i zero_proc lt v.valid.table.slots in
          let free = slot.free in ground arith

      same_pid : (p : Proc) → is_advised pid p ≡ true → p.pid ≡ pid
      same_pid p hit = ground arith

  -- In a process table that is in its invariant, where advice is valid, was given fewer than
  -- ADVICE_TIMEOUT_TICKS interrupts ago, and names a process that is RUNNABLE, an iteration of the
  -- scheduler switches to that process and to no other; the process is RUNNING then and the advice not
  -- valid any more.
  pub schedule-advised :
      (k : Kernel W) (i pid : ℕ)
      → IsIdle k
      → k.advice.valid ≡ true
      → k.advice.recommended_pid ≡ pid
      → sub32 k.ticks k.advice.timestamp < 200
      → is_runnable (proc_at k i).state ≡ true
      → (proc_at k i).pid ≡ pid
      → schedule swtch k ≡ (
        record (swtch i (record k {
          procs = modify k.procs i (λ p. record p { state = running });
          cpu_proc = some i;
          advice = record k.advice { valid = false };
        })) { cpu_proc = none },
        true,
      )
  unfolding schedule try_advised fresh_advice run_proc use_advice start_run
  schedule-advised k i pid v valid named recent ready same =
      let fresh : fresh_advice k ≡ some pid = ground arith in
      rw (fresh, schedule, try_advised, advised-first k i pid v ready same)

  -- With no fresh advice, or none that names a RUNNABLE process, the iteration is a round over the
  -- whole table, and the advice is left as it was for the next iteration.
  pub schedule-unadvised :
      (k : Kernel W)
      → ((pid : ℕ) → fresh_advice k ≡ some pid → All (λ p. is_advised pid p ≡ false) k.procs)
      → schedule swtch k ≡ round_robin_from swtch nproc 0 (k, false)
  unfolding schedule try_advised
  schedule-unadvised k h = elim (Option-cases (fresh_advice k)) [
    | inl e ↦ rw (e, schedule, try_advised)
    | inr (pid, e) ↦
        rw (e, schedule, try_advised, find_from-none 0 (is_advised pid) k.procs (h pid e))
  ]

  -- What round robin comes to where nobody is RUNNABLE.
  round_robin_idle :
      (rounds j : ℕ) (k : Kernel W) (found : Bool)
      → ((i : ℕ) → is_runnable (proc_at k i).state ≡ false)
      → round_robin_from swtch rounds j (k, found) ≡ (k, found)
  unfolding round_robin_from
  round_robin_idle zero j k found h = refl
  round_robin_idle (suc rounds) j k found h =
      rw (h j, round_robin_from) (round_robin_idle rounds (j + 1) k found h)

  -- Once a process has run, the round stays a success.
  round_robin_found :
      (rounds j : ℕ) (k : Kernel W) → (round_robin_from swtch rounds j (k, true)).1 ≡ true
  unfolding round_robin_from
  round_robin_found zero j k = refl
  round_robin_found (suc rounds) j k = elim (Bool-cases (is_runnable (proc_at k j).state)) [
    | inl e ↦ rw (e, round_robin_from) (round_robin_found rounds (j + 1) _)
    | inr e ↦ rw (e, round_robin_from) (round_robin_found rounds (j + 1) k)
  ]

  -- A round in which nobody runs has met nobody RUNNABLE.
  round_robin_none :
      (rounds j : ℕ) (k : Kernel W)
      → (round_robin_from swtch rounds j (k, false)).1 ≡ false
      → (round_robin_from swtch rounds j (k, false) ≡ (k, false))
        × ((i : ℕ) → j ≤ i → i < j + rounds → is_runnable (proc_at k i).state ≡ false)
  unfolding round_robin_from
  round_robin_none zero j k e = (refl, λ i le lt. absurd (omega arith))
  round_robin_none (suc rounds) j k e = elim (Bool-cases (is_runnable (proc_at k j).state)) [
    | inl ready ↦
        let ran : (round_robin_from swtch rounds (j + 1) (run_proc swtch j (start_run j k), true)).1
            ≡ false =
          rw (ready, round_robin_from) at e in
        cc (round_robin_found rounds (j + 1) (run_proc swtch j (start_run j k)))
    | inr idle ↦
        let (same, rest) = round_robin_none rounds (j + 1) k (rw (idle, round_robin_from) at e) in
        (
          rw (idle, round_robin_from) same,
          λ i le lt. elim (ℕ_discrete j i) [
            | yes eq ↦ rw (← eq) idle
            | no ne ↦ rest i (omega arith) (omega arith)
          ],
        )
  ]

  try_advised-found :
      (advice : Option ℕ) (k : Kernel W)
      → (try_advised swtch advice k).1 ≡ false
      → (try_advised swtch advice k).0 ≡ k
  unfolding try_advised
  try_advised-found none k e = refl
  try_advised-found (some pid) k e = elim (Option-cases (find_from 0 (is_advised pid) k.procs)) [
    | inl none_found ↦ rw (none_found, try_advised)
    | inr (i, found) ↦ cc (rw (found, try_advised) at e)
  ]

  -- The core waits for an interrupt only when no process at all is RUNNABLE, and then nothing has
  -- changed.
  pub schedule_idle :
      (k : Kernel W)
      → (schedule swtch k).1 ≡ false
      → ((schedule swtch k).0 ≡ k) × ((i : ℕ) → i < nproc → is_runnable (proc_at k i).state ≡ false)
  unfolding schedule
  schedule_idle k e = elim (Bool-cases (try_advised swtch (fresh_advice k) k).1) [
    | inl ran ↦ cc (rw (ran, schedule) at e)
    | inr not_yet ↦
        let same = try_advised-found (fresh_advice k) k not_yet in
        let (unchanged, all) = round_robin_none nproc 0 k (rw (not_yet, schedule, same) at e) in
        (
          rw (not_yet, schedule, same) (ap (λ r. r.0) unchanged),
          λ i lt. all i (omega arith) (omega arith),
        )
  ]

module _ {W : Type 0} where
  clockintr-advice :
      (k : Kernel W) → ((clockintr k).advice ≡ k.advice) × ((clockintr k).ticks ≡ add32 k.ticks 1)
  unfolding clockintr count_log log_scheduling_state update_sched_stats wakeup
  clockintr-advice k = ground arith

  -- `d` clock interrupts.
  unfoldable pub clock_ticks : ℕ → Kernel W → Kernel W
  clock_ticks zero k = k
  clock_ticks (suc d) k = clock_ticks d (clockintr k)

  clock_ticks-advice :
      (d : ℕ) (k : Kernel W)
      → k.ticks < 2 ^ 32
      → ((clock_ticks d k).advice ≡ k.advice) × ((clock_ticks d k).ticks ≡ add32 k.ticks d)
  unfolding clock_ticks
  clock_ticks-advice zero k h = (refl, omega arith)
  clock_ticks-advice (suc d) k h =
      let (same, next) = clockintr-advice k in
      let (same', later) = clock_ticks-advice d (clockintr k) (omega (arith, next)) in
      (same' ∙ same, omega (arith, next, later))

  -- Advice for a positive pid that no scheduler has used is fresh after d clock interrupts exactly if
  -- d modulo 2^32 is below ADVICE_TIMEOUT_TICKS: it runs out after that many interrupts, also when the
  -- clock wraps in between, and is fresh again 2^32 interrupts after it was given.
  pub advice_lifetime :
      (pid d : ℕ) (k : Kernel W)
      → 0 < pid
      → pid < 2 ^ 31
      → k.ticks < 2 ^ 32
      → fresh_advice (clock_ticks d (sys_set_llm_advice pid k).1)
        ≡ (if ltb (d % 2 ^ 32) 200 then some pid else none)
  unfolding fresh_advice sys_set_llm_advice
  advice_lifetime pid d k pos int range =
      let (same, later) = clock_ticks-advice d (record k { advice = given }) range in
      let age : sub32 (add32 k.ticks d) k.ticks ≡ d % 2 ^ 32 = omega arith in
      rw (set_advice, same, later, age)
    where
      given : Advice
      given = record { recommended_pid = pid; valid = true; timestamp = k.ticks }

      set_advice : (sys_set_llm_advice pid k).1 ≡ record k { advice = given }
      set_advice = ground arith
