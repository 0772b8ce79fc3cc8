-- ===== src/Proc/Wait.antt =====
-- kernel/proc.c: giving up the CPU, sleeping, waking and killing. `yield`, `sleep` and `exit` of the
-- process `i` end in `sched()`, which goes back to the scheduler: what they do before is one
-- function here, and what `sleep` does when the process runs again is another.
use osmini_project.Base.{
  ℕ, Bool, false, not, ◌&&◌, Option, none, some, find_from, map_from, if◌then◌else◌, ◌==◌,
  minus_one,
}
use osmini_project.Proc.Defs.{
  sleeping, runnable, is_sleeping, Chan, null, chan_eq, Proc, Kernel, proc_at, update_proc,
}

-- `p != myproc()`.
abbrev pub is_current : Option ℕ → ℕ → Bool
is_current none i = false
is_current (some j) i = j == i

-- The body of the loop in `wakeup`.
abbrev pub wake_slot : Option ℕ → Chan → ℕ → Proc → Proc
wake_slot current chan i p =
    if not (is_current current i) && (is_sleeping p.state && chan_eq p.chan chan)
    then record p { state = runnable }
    else p

-- The change that `kkill` makes to its victim.
abbrev pub kill_slot : Proc → Proc
kill_slot p = record p { killed = 1; state = if is_sleeping p.state then runnable else p.state }

module _ {W : Type 0} where
  unfoldable pub wakeup : Chan → Kernel W → Kernel W
  wakeup chan k = record k { procs = map_from 0 (wake_slot k.cpu_proc chan) k.procs }

  unfoldable pub yield_enter : ℕ → Kernel W → Kernel W
  yield_enter i k = update_proc k i (λ p. record p { state = runnable })

  unfoldable pub sleep_enter : ℕ → Chan → Kernel W → Kernel W
  sleep_enter i chan k = update_proc k i (λ p. record p { chan = chan; state = sleeping })

  unfoldable pub sleep_resume : ℕ → Kernel W → Kernel W
  sleep_resume i k = update_proc k i (λ p. record p { chan = null })

  -- The result of `kkill` and the new state.
  unfoldable pub kkill : (pid : ℕ) → Kernel W → ℕ × Kernel W
  kkill pid k = elim (find_from 0 (λ (p : Proc). p.pid == pid) k.procs) [
    | none ↦ (minus_one, k)
    | some i ↦ (0, update_proc k i kill_slot)
  ]

  unfoldable pub setkilled : ℕ → Kernel W → Kernel W
  setkilled i k = update_proc k i (λ p. record p { killed = 1 })

  unfoldable pub killed : ℕ → Kernel W → ℕ
  killed i k = (proc_at k i).killed
