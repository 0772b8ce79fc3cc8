-- ===== src/Lock/Tests.antt =====
-- The theorems on kernel/spinlock.c and kernel/sleeplock.c at concrete states.
use osmini_project.Base.{ℕ, ◌≡◌, refl, true, false, some, arith}
use osmini_project.Lock.{Cpu, Spinlock, Sleeplock, acquire, push_off, acquiresleep, holdingsleep}
use osmini_project.Lock.Nesting.{pushes, pops, pops-pushes}
use osmini_project.Lock.Exclusion.{
  mark, Reachable, SleepReachable, spinlock_excludes, holdingsleep_lem,
}

abbrev cpu : Cpu
cpu = record { noff = 0; intena = false; intr = true }

pops-pushes_example :
    ((pushes 3 cpu).intr ≡ false)
    × (pops 3 (pushes 3 cpu) ≡ some (record { noff = 0; intena = true; intr = true }))
pops-pushes_example = pops-pushes 2 cpu refl (omega arith)

abbrev taken : Spinlock
taken = record { locked = true; cpu = some 1 }

taken-Reachable : Reachable taken (mark 1 true (λ _. false))
unfolding acquire
taken-Reachable = Reachable.enters 1 cpu (push_off cpu) Reachable.starts refl

spinlock_excludes_example : ◌≡◌ {A = ℕ} 1 1
spinlock_excludes_example = spinlock_excludes 1 1 taken-Reachable refl refl

abbrev asleep : Sleeplock
asleep = record { taken = true; pid = 4 }

asleep-Reachable : SleepReachable asleep (mark 4 true (λ _. false))
unfolding acquiresleep
asleep-Reachable = SleepReachable.takes 4 SleepReachable.starts_free refl

holdingsleep_lem_example : false ≡ holdingsleep 5 asleep
holdingsleep_lem_example = holdingsleep_lem asleep-Reachable 5
