-- ===== src/Proc/FamilyTests.antt =====
-- Theorems on fork, kill, exit and wait of kernel/proc.c, at a machine with two processes.
use osmini_project.Base.{
  ℕ, zero, suc, ◌<◌, ◌≡◌, refl, ◌≢◌, ◌⊎◌, true, false, none, some, arith, modify, get_or, length,
  FailsBelow, All, minus_one, add32,
}
use osmini_project.Proc.Defs.{
  Kernel, zero_proc, proc_at, update_proc, sleeping, running, proc_chan, is_unused, is_runnable,
  is_zombie,
}
use osmini_project.Proc.Alloc.{
  allocproc, alloc_slot, allocpid, alloc_pagetable, proc_pagetable, freeproc,
}
use osmini_project.Proc.Wait.{kill_slot, kkill}
use osmini_project.Proc.Life.{
  kfork, fork_with, fork_into, finish_fork, exit_files, kexit, kwait_pass, is_child_of, returns,
}
use osmini_project.Proc.Inv.Alloc.{allocproc_cases}
use osmini_project.Proc.Inv.Fork.{Forked, kfork_cases}
use osmini_project.Proc.Kill.{kkill_lem, kkill-kfork}
use osmini_project.Proc.Family.{kexit-no_orphans, kexit-wakes_parent, kexit-kwait}
use osmini_project.Proc.Tests.{booted, booted-IsIdle, services}

allocproc_cases_run :
    ((allocproc services booted ≡ (none, booted))
      × All (λ p. is_unused p.state ≡ false) booted.procs)
    ⊎ ((j : ℕ) × (j < length booted.procs)
        × (is_unused (get_or booted.procs j zero_proc).state ≡ true)
        × FailsBelow (λ p. is_unused p.state) booted.procs zero_proc j
        × (allocproc services booted ≡ alloc_slot services j booted))
allocproc_cases_run = allocproc_cases services booted

kfork_cases_example :
    ((kfork services 0 booted ≡ (minus_one, booted))
      × All (λ p. is_unused p.state ≡ false) booted.procs)
    ⊎ Forked services 0 booted (kfork services 0 booted)
kfork_cases_example = kfork_cases services 0 booted

kkill_lem_run : kkill 1 booted ≡ (0, update_proc booted 0 kill_slot)
unfolding booted
kkill_lem_run = kkill_lem booted 0 booted-IsIdle.valid.table (omega arith) (omega arith)

first_free : FailsBelow (λ p. is_unused p.state) booted.procs zero_proc 1
unfolding booted
first_free zero h = refl
first_free (suc j) h = absurd (omega arith)

forked : (kfork services 0 (kkill 0 booted).1).0 ≢ minus_one
unfolding booted kkill kfork fork_with fork_into finish_fork allocproc alloc_slot allocpid
    alloc_pagetable proc_pagetable
forked = omega arith

kkill-kfork_example :
    let out = kfork services 0 (kkill 0 booted).1 in
    ((proc_at out.1 1).killed ≡ 1) × ((proc_at out.1 1).pid ≡ out.0)
unfolding booted
kkill-kfork_example =
    kkill-kfork services 0 1 booted booted-IsIdle.valid.table (omega arith) refl first_free forked

-- The first process waits in slot 0 for its child in slot 1, which runs.
unfoldable family : Kernel ℕ
unfolding booted
family = record booted {
  procs =
      modify (modify booted.procs 0 (λ p. record p { state = sleeping; chan = proc_chan 0 })) 1
        (λ p. record p { state = running; pid = 2; parent = some 0 });
  cpu_proc = some 1;
}

-- The clock ticks while the child closes its files.
abbrev one_tick : Kernel ℕ → Kernel ℕ
one_tick k = record k { ticks = add32 k.ticks 1 }

abbrev closed : Kernel ℕ
closed = one_tick (exit_files services 1 family)

-- The child has exited.
unfoldable after_exit : Kernel ℕ
unfolding family booted kexit exit_files
after_exit = elim (kexit services one_tick 1 7 family) [ none ↦ family | some k ↦ k ]

kexit-family : kexit services one_tick 1 7 family ≡ some after_exit
unfolding after_exit kexit
kexit-family = refl

kexit-no_orphans_example : is_child_of 1 (proc_at after_exit 2) ≡ false
unfolding exit_files
kexit-no_orphans_example =
    kexit-no_orphans services one_tick 1 7 2 family closed after_exit refl refl kexit-family
      (omega arith)

kexit-wakes_parent_example : is_runnable (proc_at after_exit 0).state ≡ true
unfolding family exit_files
kexit-wakes_parent_example =
    kexit-wakes_parent services one_tick 1 7 0 family closed after_exit refl kexit-family refl
      (omega arith) refl refl

kexit-kwait_example :
    (j : ℕ) × (is_child_of 0 (proc_at after_exit j) ≡ true)
    × (is_zombie (proc_at after_exit j).state ≡ true)
    × (kwait_pass services 0 0 after_exit
        ≡ returns (proc_at after_exit j).pid (freeproc services j after_exit))
unfolding family exit_files
kexit-kwait_example =
    kexit-kwait services one_tick 1 7 0 family closed after_exit refl kexit-family (omega arith)
      refl
