-- ===== src/Proc/Tests.antt =====
-- Runs of the model of kernel/proc.c on a small machine, and its theorems at concrete states.
use osmini_project.Base.{ℕ, modify, suc, ◌+◌, ◌*◌, ◌≡◌, refl, true, false, none, some, [], arith}
use osmini_project.Proc.Defs.{Kernel, Services, nproc, running}
use osmini_project.Proc.Alloc.{
  procinit, userinit, allocproc, alloc_slot, allocpid, alloc_pagetable, proc_pagetable,
}
use osmini_project.Proc.Wait.{yield_enter}
use osmini_project.Proc.Sched.{fresh_advice, schedule, round_robin_from, try_advised}
use osmini_project.Proc.Stats.{sys_set_llm_advice}
use osmini_project.Proc.Inv.Defs.{IsIdle}
use osmini_project.Proc.Inv.Turn.{yields, last}
use osmini_project.Proc.Inv.Boot.{zero_table, userinit-IsIdle}
use osmini_project.Proc.Inv.Sched.{IsTurns, schedule-IsIdle}
use osmini_project.Proc.Advice.{
  schedule-advised, schedule-unadvised, schedule_idle, advice_lifetime, clock_ticks,
}

-- Memory without end: the state is the number of pages handed out.
abbrev pub services : Services ℕ
services = record {
  forkret = 0x80001000;
  trampoline = 0x80007000;
  kalloc = λ w. (some (0x80008000 + w * 4096), suc w);
  kfree = λ page w. w;
  uvmcreate = λ w. (some (0x80008000 + w * 4096), suc w);
  mappages = λ pagetable va size pa perm w. (true, w);
  uvmunmap = λ pagetable va npages do_free w. w;
  uvmfree = λ pagetable sz w. w;
  uvmalloc = λ pagetable oldsz newsz perm w. (newsz, w);
  uvmdealloc = λ pagetable oldsz newsz w. (newsz, w);
  uvmcopy = λ old new sz w. (true, w);
  copyout = λ pagetable dst bytes w. (true, w);
  filedup = λ f w. w;
  fileclose = λ f w. w;
  idup = λ ip w. w;
  iput = λ ip w. w;
  begin_op = λ w. w;
  end_op = λ w. w;
  namei = λ path w. (some 1, w);
}

abbrev pub zero_kernel : Kernel ℕ
zero_kernel = record {
  procs = zero_table;
  nextpid = 1;
  initproc = none;
  cpu_proc = none;
  advice = record { recommended_pid = 0; valid = false; timestamp = 0 };
  ticks = 0;
  log_counter = 0;
  console = [];
  rest = 0;
}

-- The kernel when the scheduler starts: the first process, with pid 1, is ready in slot 0.
unfoldable pub booted : Kernel ℕ
unfolding userinit procinit allocproc alloc_slot allocpid alloc_pagetable proc_pagetable
booted = elim (userinit services (procinit zero_kernel)) [ none ↦ zero_kernel | some k ↦ k ]

userinit-booted : userinit services (procinit zero_kernel) ≡ some booted
unfolding booted
userinit-booted = refl

pub booted-IsIdle : IsIdle booted
booted-IsIdle = userinit-IsIdle services zero_kernel booted refl refl userinit-booted

-- A process that gives the CPU back at once.
abbrev pub yield_at_once : ℕ → Kernel ℕ → Kernel ℕ
yield_at_once i k = yield_enter i k

yield_at_once-IsTurns : IsTurns services yield_at_once
yield_at_once-IsTurns i k v = last yields

userinit-IsIdle_example : IsIdle booted
userinit-IsIdle_example = userinit-IsIdle services zero_kernel booted refl refl userinit-booted

schedule-IsIdle_example : IsIdle (schedule yield_at_once booted).0
schedule-IsIdle_example =
    schedule-IsIdle services yield_at_once yield_at_once-IsTurns booted booted-IsIdle

abbrev advised : Kernel ℕ
advised = record booted { advice = record { recommended_pid = 1; valid = true; timestamp = 0 } }

advised-IsIdle : IsIdle advised
advised-IsIdle =
    let idle = booted-IsIdle in
    record {
      valid = record {
        table = idle.valid.table;
        pid_start = idle.valid.pid_start;
        pid_range = idle.valid.pid_range;
      };
      quiet = idle.quiet;
    }

schedule-advised_example : schedule yield_at_once advised ≡ (
  record (yield_at_once 0 (record advised {
    procs = modify advised.procs 0 (λ p. record p { state = running });
    cpu_proc = some 0;
    advice = record advised.advice { valid = false };
  })) { cpu_proc = none },
  true,
)
unfolding booted
schedule-advised_example =
    schedule-advised yield_at_once advised 0 1 advised-IsIdle refl refl (omega arith) refl refl

schedule-unadvised_run :
    schedule yield_at_once booted ≡ round_robin_from yield_at_once nproc 0 (booted, false)
unfolding booted fresh_advice
schedule-unadvised_run = schedule-unadvised yield_at_once booted (λ pid e. cc)

-- Nobody is ready before `userinit`.
schedule_idle_example : (schedule yield_at_once zero_kernel).0 ≡ zero_kernel
unfolding schedule try_advised fresh_advice round_robin_from
schedule_idle_example = (schedule_idle yield_at_once zero_kernel refl).0

-- 200 clock interrupts later the advice has run out.
advice_lifetime_example : fresh_advice (clock_ticks 200 (sys_set_llm_advice 7 zero_kernel).1) ≡ none
advice_lifetime_example =
    advice_lifetime 7 200 zero_kernel (omega arith) (omega arith) (omega arith)
