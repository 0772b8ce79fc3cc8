-- ===== src/Proc/Sched.antt =====
-- kernel/proc.c: `scheduler`, an iteration of its endless loop at a time. `swtch i` stands for what
-- happens from `swtch(&c->context, &p->context)` to process `i` until it comes back: the process
-- runs, and gives up the CPU again.
use osmini_project.Base.{
  ℕ, zero, suc, ◌+◌, Bool, true, false, ◌&&◌, Option, none, some, find_from, if◌then◌else◌, ◌==◌,
  ltb, sub32,
}
use osmini_project.Proc.Defs.{running, is_runnable, Proc, Kernel, nproc, proc_at, update_proc}

-- ADVICE_TIMEOUT_TICKS.
abbrev pub advice_timeout_ticks : ℕ
advice_timeout_ticks = 200

module _ {W : Type 0} where
  -- The snapshot of the advice: the advised pid, if there is advice that has not run out.
  unfoldable pub fresh_advice : Kernel W → Option ℕ
  fresh_advice k =
      if k.advice.valid && ltb (sub32 k.ticks k.advice.timestamp) advice_timeout_ticks
      then some k.advice.recommended_pid
      else none

  -- `p->state = RUNNING; c->proc = p`.
  unfoldable pub start_run : ℕ → Kernel W → Kernel W
  start_run i k = record k {
    procs = (update_proc k i (λ p. record p { state = running })).procs;
    cpu_proc = some i;
  }

  -- `llm_advice_valid = 0`.
  unfoldable pub use_advice : Kernel W → Kernel W
  use_advice k = record k { advice = record k.advice { valid = false } }

module _ {W : Type 0} (swtch : ℕ → Kernel W → Kernel W) where
  -- Run process `i` until it comes back; then `c->proc = 0`.
  unfoldable pub run_proc : ℕ → Kernel W → Kernel W
  run_proc i k = record (swtch i k) { cpu_proc = none }

  -- The loop that looks for the advised process: the new state, and `found`.
  unfoldable pub try_advised : Option ℕ → Kernel W → Kernel W × Bool
  try_advised none k = (k, false)
  try_advised (some advised_pid) k =
      elim (find_from 0 (λ (p : Proc). is_runnable p.state && p.pid == advised_pid) k.procs) [
        | none ↦ (k, false)
        | some i ↦ (run_proc i (use_advice (start_run i k)), true)
      ]

  -- The round-robin loop with `rounds` slots to go, the next one `j`.
  unfoldable pub round_robin_from : (rounds j : ℕ) → Kernel W × Bool → Kernel W × Bool
  round_robin_from zero j r = r
  round_robin_from (suc rounds) j (k, found) =
      round_robin_from rounds (j + 1)
        (if is_runnable (proc_at k j).state then (run_proc j (start_run j k), true) else (k, found))

  -- An iteration of `scheduler`: the new state, and whether a process ran. If none did, the core
  -- waits for an interrupt.
  unfoldable pub schedule : Kernel W → Kernel W × Bool
  schedule k =
      let (k1, found) = try_advised (fresh_advice k) k in
      if found then (k1, true) else round_robin_from nproc 0 (k1, false)
