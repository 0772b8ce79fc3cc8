-- ===== src/Proc/Inv/Turn.antt =====
-- kernel/proc.c, kernel/trap.c and kernel/sysproc.c: what a process may do from the moment that the
-- scheduler switches to it until it gives up the CPU, as a relation.
use osmini_project.Base.{ℕ, ◌+◌, ◌^◌, ◌<◌, ◌≡◌, List, Option, none, some, add64, sext64}
use osmini_project.Proc.Defs.{Chan, Trapframe, Kernel, Services, update_proc}
use osmini_project.Proc.Alloc.{growproc}
use osmini_project.Proc.Wait.{wakeup, yield_enter, sleep_enter, sleep_resume, kkill, setkilled}
use osmini_project.Proc.Life.{kfork, finish_exit, kwait_pass, returns, sleeps}
use osmini_project.Proc.Stats.{clockintr, sys_set_llm_advice, count_io}

-- A write through a pointer that a running process has.
abbrev pub write_at : {A : Type 0} → (A → A) → Option A → Option A
write_at f none = none
write_at f (some a) = some (f a)

-- `p->sz += n` of sys_sbrk.
abbrev pub lazy_sbrk : {W : Type 0} → (i n : ℕ) → Kernel W → Kernel W
lazy_sbrk i n k = update_proc k i (λ p. record p { sz = add64 p.sz (sext64 n) })

-- What kexec writes to the process: its new page table takes the place of the old one.
abbrev pub exec_image :
    {W : Type 0}
    → (i pagetable sz : ℕ) → (Trapframe → Trapframe)
    → (name : List ℕ) → Kernel W
    → Kernel W
exec_image i pagetable sz registers name k = update_proc k i (λ p. record p {
  pagetable = write_at (λ _. pagetable) p.pagetable;
  sz = sz;
  trapframe = write_at registers p.trapframe;
  name = name;
})

-- What open, dup, close, pipe and chdir write to the process.
abbrev pub set_files :
    {W : Type 0} → (i : ℕ) → (ofile : List (Option ℕ)) → (cwd : Option ℕ) → Kernel W → Kernel W
set_files i ofile cwd k = update_proc k i (λ p. record p { ofile = ofile; cwd = cwd })

-- What usertrap, prepare_return and syscall write to the trapframe.
abbrev pub set_registers : {W : Type 0} → (i : ℕ) → (Trapframe → Trapframe) → Kernel W → Kernel W
set_registers i registers k =
    update_proc k i (λ p. record p { trapframe = write_at registers p.trapframe })

-- A call by process `i`, or a part of one, that comes back to it. A fork is allowed as long as pids do not run out.
pub data Act {W : Type 0} (s : Services W) (i : ℕ) (k : Kernel W) : Kernel W → Type 0 where
  forks : k.nextpid + 1 < 2 ^ 31 → Act s i k (kfork s i k).1
  waits : (addr : ℕ) {r : ℕ} {k' : Kernel W} → kwait_pass s i addr k ≡ returns r k' → Act s i k k'
  wakes : (chan : Chan) → Act s i k (wakeup chan k)
  kills : (pid : ℕ) → Act s i k (kkill pid k).1
  marks : (j : ℕ) → Act s i k (setkilled j k)
  resumes : Act s i k (sleep_resume i k)
  grows : (n : ℕ) → Act s i k (growproc s i n k).1
  clock : Act s i k (clockintr k)
  advises : (pid : ℕ) → Act s i k (sys_set_llm_advice pid k).1
  counts : Act s i k (count_io i k)
  sbrks : (n : ℕ) → Act s i k (lazy_sbrk i n k)
  execs :
      (pagetable sz : ℕ) (registers : Trapframe → Trapframe) (name : List ℕ)
      → Act s i k (exec_image i pagetable sz registers name k)
  files : (ofile : List (Option ℕ)) (cwd : Option ℕ) → Act s i k (set_files i ofile cwd k)
  traps : (registers : Trapframe → Trapframe) → Act s i k (set_registers i registers k)
  others : (w : W) → Act s i k (record k { rest = w })

-- A call by process `i` that ends in the scheduler. The part of `kexit` before `finish_exit` is made of steps
-- of Act, and of sleeps in the calls that close its files.
pub data Leave {W : Type 0} (s : Services W) (i : ℕ) (k : Kernel W) : Kernel W → Type 0 where
  yields : Leave s i k (yield_enter i k)
  blocks : (chan : Chan) → Leave s i k (sleep_enter i chan k)
  waiting : (addr : ℕ) {k' : Kernel W} → kwait_pass s i addr k ≡ sleeps k' → Leave s i k k'
  exits : (status : ℕ) → Leave s i k (finish_exit i status k)

-- All that process `i` does on the CPU in one go.
pub data Turn {W : Type 0} (s : Services W) (i : ℕ) : Kernel W → Kernel W → Type 0 where
  last : {k k' : Kernel W} → Leave s i k k' → Turn s i k k'
  then_more : {k k1 k' : Kernel W} → Act s i k k1 → Turn s i k1 k' → Turn s i k k'
