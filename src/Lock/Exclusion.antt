-- ===== src/Lock/Exclusion.antt =====
-- kernel/spinlock.c and kernel/sleeplock.c: at most one at a time has the lock.
use osmini_project.Base.{
  ℕ, ◌≡◌, refl, sym, ap, ◌∙◌, inl, inr, Bool, true, false, ◌&&◌, Option, none, some, arith, ◌==◌,
  if◌then◌else◌, Bool-cases, Option-cases, some-injective,
}
use osmini_project.Lock.{
  spins, Cpu, Spinlock, initlock, holding, is_cpu, Acquire, acquired, acquire_panics, acquire, spin,
  release, pop_off, Sleeplock, initsleeplock, acquiresleep, releasesleep, holdingsleep,
}

-- CPU `i` is set to `b`.
abbrev pub mark : ℕ → Bool → (ℕ → Bool) → ℕ → Bool
mark i b inside j = if j == i then b else inside j

-- The states of a spinlock, with the CPUs between an `acquire` and its `release`. The CPUs may take
-- their steps in any order.
pub data Reachable : Spinlock → (ℕ → Bool) → Type 0 where
  starts : Reachable initlock (λ _. false)
  enters :
      {lk lk' : Spinlock} {inside : ℕ → Bool} (i : ℕ) (c c' : Cpu)
      → Reachable lk inside
      → acquire i c lk ≡ acquired c' lk'
      → Reachable lk' (mark i true inside)
  enters_late :
      {lk lk' : Spinlock} {inside : ℕ → Bool} (i : ℕ) (c c' : Cpu)
      → Reachable lk inside
      → spin i c lk ≡ acquired c' lk'
      → Reachable lk' (mark i true inside)
  leaves :
      {lk lk' : Spinlock} {inside : ℕ → Bool} (i : ℕ) (c c' : Cpu)
      → Reachable lk inside
      → release i c lk ≡ some (c', lk')
      → Reachable lk' (mark i false inside)

-- Who is inside holds the lock, and who holds it is inside.
abbrev pub IsGuarded : Spinlock → (ℕ → Bool) → Type 0
IsGuarded lk inside = (i : ℕ) → inside i ≡ holding i lk

abbrev lock_of : Acquire → Spinlock
lock_of (acquired c lk) = lk
lock_of (spins c) = initlock
lock_of acquire_panics = initlock

-- The lock after it was taken by CPU `i`.
abbrev taken_by : ℕ → Spinlock
taken_by i = record { locked = true; cpu = some i }

acquire-eq-acquired :
    (i : ℕ) (c c' : Cpu) (lk : Spinlock) {lk' : Spinlock}
    → acquire i c lk ≡ acquired c' lk'
    → (lk.locked ≡ false) × (lk' ≡ taken_by i)
unfolding acquire
acquire-eq-acquired i c c' lk e = elim (Bool-cases (holding i lk)) [
  | inl held ↦ cc (rw held at e)
  | inr free ↦ elim (Bool-cases lk.locked) [
    | inl locked ↦ cc (rw (free, locked) at e)
    | inr not_locked ↦ (not_locked, sym (ap lock_of (rw (free, not_locked) at e)))
  ]
]

spin-eq-acquired :
    (i : ℕ) (c c' : Cpu) (lk : Spinlock) {lk' : Spinlock}
    → spin i c lk ≡ acquired c' lk'
    → (lk.locked ≡ false) × (lk' ≡ taken_by i)
unfolding spin
spin-eq-acquired i c c' lk e = elim (Bool-cases lk.locked) [
  | inl locked ↦ cc (rw locked at e)
  | inr not_locked ↦ (not_locked, sym (ap lock_of (rw not_locked at e)))
]

release-eq-some :
    (i : ℕ) (c c' : Cpu) (lk : Spinlock) {lk' : Spinlock}
    → release i c lk ≡ some (c', lk')
    → (holding i lk ≡ true) × (lk' ≡ initlock)
unfolding release
release-eq-some i c c' lk e = elim (Bool-cases (holding i lk)) [
  | inr free ↦ cc (rw free at e)
  | inl held ↦ elim (Option-cases (pop_off c)) [
    | inl stuck ↦ cc (rw (held, stuck) at e)
    | inr (c1, popped) ↦
        (held, sym (ap (λ (r : Cpu × Spinlock). r.1) (some-injective _ _ (rw (held, popped) at e))))
  ]
]

taken-IsGuarded :
    (i : ℕ) (lk : Spinlock) {lk' : Spinlock} (inside : ℕ → Bool)
    → IsGuarded lk inside
    → (lk.locked ≡ false) × (lk' ≡ taken_by i)
    → IsGuarded lk' (mark i true inside)
taken-IsGuarded i lk {lk'} inside g (free, same) j =
    let nobody : inside j ≡ false = g j ∙ rw free in ground arith

one_holder : (o : Option ℕ) (i j : ℕ) → is_cpu o i ≡ true → is_cpu o j ≡ true → i ≡ j
one_holder none i j e e' = cc
one_holder (some a) i j e e' = ground arith

held_by : (m : ℕ) (lk : Spinlock) → holding m lk ≡ true → is_cpu lk.cpu m ≡ true
held_by m lk e = ground arith

left-IsGuarded :
    (i : ℕ) (lk : Spinlock) {lk' : Spinlock} (inside : ℕ → Bool)
    → IsGuarded lk inside
    → (holding i lk ≡ true) × (lk' ≡ initlock)
    → IsGuarded lk' (mark i false inside)
left-IsGuarded i lk inside g (held, same) j = rw same (elim (Bool-cases (j == i)) [
  | inl e ↦ rw e
  | inr e ↦ elim (Bool-cases (inside j)) [
    | inl both ↦
        let equal = one_holder lk.cpu i j (held_by i lk held) (held_by j lk (sym (g j) ∙ both)) in
        absurd (ground arith)
    | inr out ↦ rw (e, out)
  ]
])

pub Reachable-IsGuarded :
    {lk : Spinlock} {inside : ℕ → Bool} → Reachable lk inside → IsGuarded lk inside
Reachable-IsGuarded starts j = refl
Reachable-IsGuarded (enters {lk} {lk'} {inside} i c c' r e) j =
    taken-IsGuarded i lk inside (Reachable-IsGuarded r) (acquire-eq-acquired i c c' lk e) j
Reachable-IsGuarded (enters_late {lk} {lk'} {inside} i c c' r e) j =
    taken-IsGuarded i lk inside (Reachable-IsGuarded r) (spin-eq-acquired i c c' lk e) j
Reachable-IsGuarded (leaves {lk} {lk'} {inside} i c c' r e) j =
    left-IsGuarded i lk inside (Reachable-IsGuarded r) (release-eq-some i c c' lk e) j

-- However the CPUs take their steps, at most one of them is between an `acquire` of the lock and its
-- `release`.
pub spinlock_excludes :
    {lk : Spinlock} {inside : ℕ → Bool} (i j : ℕ)
    → Reachable lk inside
    → inside i ≡ true
    → inside j ≡ true
    → i ≡ j
spinlock_excludes {lk} i j r hi hj =
    let g = Reachable-IsGuarded r in
    one_holder lk.cpu i j (held_by i lk (sym (g i) ∙ hi)) (held_by j lk (sym (g j) ∙ hj))

-- The states of a sleep lock, with the pids of the processes between an `acquiresleep` and their
-- `releasesleep`.
pub data SleepReachable : Sleeplock → (ℕ → Bool) → Type 0 where
  starts_free : SleepReachable initsleeplock (λ _. false)
  takes :
      {lk lk' : Sleeplock} {inside : ℕ → Bool} (pid : ℕ)
      → SleepReachable lk inside
      → acquiresleep pid lk ≡ some lk'
      → SleepReachable lk' (mark pid true inside)
  gives_up :
      {lk : Sleeplock} {inside : ℕ → Bool} (pid : ℕ)
      → SleepReachable lk inside
      → inside pid ≡ true
      → SleepReachable (releasesleep lk) (mark pid false inside)

acquiresleep-eq-some :
    (pid : ℕ) (lk : Sleeplock) {lk' : Sleeplock}
    → acquiresleep pid lk ≡ some lk'
    → (lk.taken ≡ false) × (lk' ≡ record { taken = true; pid = pid })
unfolding acquiresleep
acquiresleep-eq-some pid lk e = elim (Bool-cases lk.taken) [
  | inl taken ↦ cc (rw taken at e)
  | inr free ↦ (free, sym (some-injective _ _ (rw free at e)))
]

-- However the processes take their steps, `holdingsleep` tells exactly who is between an
-- `acquiresleep` and its `releasesleep`.
pub holdingsleep_lem :
    {lk : Sleeplock} {inside : ℕ → Bool}
    → SleepReachable lk inside
    → (pid : ℕ) → inside pid ≡ holdingsleep pid lk
unfolding holdingsleep releasesleep
holdingsleep_lem starts_free j = refl
holdingsleep_lem (takes {lk} {lk'} {inside} pid r e) j =
    let (free, same) = acquiresleep-eq-some pid lk e in
    let nobody : inside j ≡ false = holdingsleep_lem r j ∙ rw free in ground arith
holdingsleep_lem (gives_up {lk} {inside} pid r in_it) j =
    let here : (lk.taken && lk.pid == pid) ≡ true = sym (holdingsleep_lem r pid) ∙ in_it in
    let there = holdingsleep_lem r j in ground arith
