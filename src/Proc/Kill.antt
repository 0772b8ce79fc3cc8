-- ===== src/Proc/Kill.antt =====
-- kernel/proc.c: whom `kkill` kills, and what becomes of the mark.
use osmini_project.Base.{
  dec_lt, ℕ_discrete, ℕ, ◌<◌, ◌≡◌, refl, sym, ap, ◌∙◌, ◌≢◌, inl, inr, true, some, arith, ◌==◌,
  All-get_or, length, modify, get_or, get_or-modify_self, get_or-modify_ne, find_from,
  find_from_first, FailsBelow, minus_one, length-modify, if◌then◌else◌,
}
use osmini_project.Proc.Defs.{
  Proc, Kernel, Services, zero_proc, proc_at, update_proc, is_unused, is_sleeping, runnable,
}
use osmini_project.Proc.Wait.{kill_slot, kkill}
use osmini_project.Proc.Life.{kfork}
use osmini_project.Proc.Inv.Defs.{IsSlot, IsTable}
use osmini_project.Proc.Inv.Fork.{failed, born, Forked, kfork_cases}
use osmini_project.Proc.Inv.Distinct.{find_from-pid}

module _ {W : Type 0} where
  -- `kkill` of the pid of a process returns 0, marks this process as killed, makes it RUNNABLE if it
  -- was SLEEPING, and changes no other process.
  pub kkill_lem :
      (k : Kernel W) (i : ℕ)
      → IsTable k.nextpid k.procs
      → i < length k.procs
      → (proc_at k i).pid ≢ 0
      → kkill (proc_at k i).pid k ≡ (
        0,
        record k {
          procs = modify k.procs i (λ p. record p {
            killed = 1;
            state = if is_sleeping p.state then runnable else p.state;
          });
        },
      )
  unfolding kkill
  kkill_lem k i t lt used =
      let found =
        find_from-pid k.nextpid (λ p. p.pid == (proc_at k i).pid) k.procs i t lt used (ground arith)
          (λ p hit. ground arith) in
      rw (found, kkill)

  -- A free slot has pid 0, and `kkill(0)` marks the first of them.
  kkill-zero :
      (k : Kernel W) (j : ℕ)
      → IsTable k.nextpid k.procs
      → j < length k.procs
      → is_unused (proc_at k j).state ≡ true
      → FailsBelow (λ p. is_unused p.state) k.procs zero_proc j
      → kkill 0 k ≡ (0, update_proc k j kill_slot)
  unfolding kkill
  kkill-zero k j t lt free first =
      let found : find_from 0 (λ (p : Proc). p.pid == 0) k.procs ≡ some j =
        find_from_first 0 (λ p. p.pid == 0) k.procs zero_proc j lt (sym (slot j lt).free ∙ free)
          (λ m h. sym (slot m (omega arith)).free ∙ first m h)
        ∙ ap some (omega arith) in
      rw (found, kkill)
    where
      slot : (m : ℕ) → m < length k.procs → IsSlot k.nextpid (proc_at k m)
      slot m h = All-get_or (IsSlot k.nextpid) k.procs m zero_proc h t.slots

kill_slot-unused : (p : Proc) → is_unused p.state ≡ true → is_unused (kill_slot p).state ≡ true
kill_slot-unused p e = ground arith

module _ {W : Type 0} (s : Services W) where
  -- The mark of a free slot stays through `allocproc` and `kfork`.
  marked :
      (i j : ℕ) (k : Kernel W) (out : ℕ × Kernel W)
      → j < length k.procs
      → is_unused (proc_at k j).state ≡ true
      → FailsBelow (λ p. is_unused p.state) k.procs zero_proc j
      → Forked s i (update_proc k j kill_slot) out
      → out.0 ≢ minus_one
      → ((proc_at out.1 j).killed ≡ 1) × ((proc_at out.1 j).pid ≡ out.0)
  marked i j k out lt free first f made =
      rw
        (
          f.procs_are,
          same,
          get_or-modify_self (modify k.procs j kill_slot) j f.write zero_proc
              (omega (arith, length-modify k.procs j kill_slot)),
          here,
        )
        (elim f.outcome [
          | born r child ↦ (
            (child (kill_slot (proc_at k j))).1 ∙ refl,
            (child (kill_slot (proc_at k j))).0.pid_is ∙ sym r,
          )
          | failed r _ ↦ absurd (made r)
        ])
    where
      here : get_or (modify k.procs j kill_slot) j zero_proc ≡ kill_slot (proc_at k j)
      here = get_or-modify_self k.procs j kill_slot zero_proc lt

      same : f.j ≡ j
      same = elim (ℕ_discrete f.j j) [
        | yes e ↦ e
        | no ne ↦ elim (dec_lt f.j j) [
          | yes below ↦
              let there = get_or-modify_ne k.procs j f.j kill_slot zero_proc (λ e. ne (sym e)) in
              cc (first f.j below, rw there at f.was_free)
          | no above ↦
              let used = f.is_first j (omega arith) in
              let unused = kill_slot-unused (proc_at k j) free in cc (rw here at used)
        ]
      ]

  -- After `kkill(0)`, if it finds a free slot, the next child that a `kfork` makes is born killed.
  pub kkill-kfork :
      (i j : ℕ) (k : Kernel W)
      → IsTable k.nextpid k.procs
      → j < length k.procs
      → is_unused (proc_at k j).state ≡ true
      → FailsBelow (λ p. is_unused p.state) k.procs zero_proc j
      → (kfork s i (kkill 0 k).1).0 ≢ minus_one
      → let out = kfork s i (kkill 0 k).1 in
        ((proc_at out.1 j).killed ≡ 1) × ((proc_at out.1 j).pid ≡ out.0)
  kkill-kfork i j k t lt free first made =
      let k1 = update_proc k j kill_slot in
      let e = kkill-zero k j t lt free first in
      rw e (elim (kfork_cases s i k1) [
        | inl (full, _) ↦ absurd (made (rw (e, full) refl))
        | inr f ↦ marked i j k (kfork s i k1) lt free first f (rw e at made)
      ])
