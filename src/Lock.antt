-- ===== src/Lock.antt =====
-- kernel/spinlock.c and kernel/sleeplock.c: locks, and the interrupts of a CPU that holds some.
pub mod Nesting
pub mod Exclusion
mod Tests
use osmini_project.Base.{
  ℕ, ◌+◌, ◌-◌, ◌<◌, Bool, true, false, not, ◌&&◌, Option, none, some, ◌==◌, ltb, if◌then◌else◌,
  add32, sub32, is_nonpositive,
}

-- `noff` and `intena` of `struct cpu`, and whether its interrupts are on.
pub record Cpu : Type 0 where
  pub noff : ℕ
  pub intena : Bool
  pub intr : Bool

-- `struct spinlock`, with the index of its CPU.
pub record Spinlock : Type 0 where
  pub locked : Bool
  pub cpu : Option ℕ

abbrev pub initlock : Spinlock
initlock = record { locked = false; cpu = none }

unfoldable pub push_off : Cpu → Cpu
push_off c = record c {
  intr = false;
  intena = if c.noff == 0 then c.intr else c.intena;
  noff = add32 c.noff 1;
}

-- `none` is a panic.
unfoldable pub pop_off : Cpu → Option Cpu
pop_off c =
    let left = sub32 c.noff 1 in
    if c.intr
    then none
    else if is_nonpositive c.noff
    then none
    else some (record c { noff = left; intr = (left == 0) && c.intena })

abbrev pub is_cpu : Option ℕ → ℕ → Bool
is_cpu none i = false
is_cpu (some j) i = j == i

abbrev pub holding : ℕ → Spinlock → Bool
holding i lk = lk.locked && is_cpu lk.cpu i

-- What `acquire` on CPU `i` comes to: the lock is taken, the loop goes round once more, or a panic.
pub data Acquire : Type 0 where
  acquired : Cpu → Spinlock → Acquire
  spins : Cpu → Acquire
  acquire_panics : Acquire

-- `acquire` up to the first test of `lk->locked`.
unfoldable pub acquire : (i : ℕ) → Cpu → Spinlock → Acquire
acquire i c lk =
    if holding i lk
    then acquire_panics
    else if lk.locked
    then spins (push_off c)
    else acquired (push_off c) (record { locked = true; cpu = some i })

-- A later test of the loop, on CPU `i`, with its interrupts off already.
unfoldable pub spin : (i : ℕ) → Cpu → Spinlock → Acquire
spin i c lk = if lk.locked then spins c else acquired c (record { locked = true; cpu = some i })

-- `release` on CPU `i`: `none` is a panic.
unfoldable pub release : (i : ℕ) → Cpu → Spinlock → Option (Cpu × Spinlock)
release i c lk = if not (holding i lk) then none else elim (pop_off c) [
  | none ↦ none
  | some c' ↦ some (c', record { locked = false; cpu = none })
]

-- `struct sleeplock` without the spinlock that makes its calls atomic.
pub record Sleeplock : Type 0 where
  pub taken : Bool
  pub pid : ℕ

abbrev pub initsleeplock : Sleeplock
initsleeplock = record { taken = false; pid = 0 }

-- `acquiresleep` by the process `pid`: `none` is a sleep on the lock, after which it tests again.
unfoldable pub acquiresleep : (pid : ℕ) → Sleeplock → Option Sleeplock
acquiresleep pid lk = if lk.taken then none else some (record { taken = true; pid = pid })

-- `releasesleep`; it also wakes those that sleep on the lock.
unfoldable pub releasesleep : Sleeplock → Sleeplock
releasesleep lk = record { taken = false; pid = 0 }

unfoldable pub holdingsleep : (pid : ℕ) → Sleeplock → Bool
holdingsleep pid lk = lk.taken && lk.pid == pid
