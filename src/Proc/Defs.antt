-- ===== src/Proc/Defs.antt =====
-- kernel/proc.h, kernel/param.h and the globals of kernel/proc.c and kernel/trap.c: the state that
-- the functions below work on. A process is named by its index in `proc[]`, a null pointer to one
-- is `none`. A lock makes the lines that it brackets one step, and is no part of the state.
use osmini_project.Base.{
  ℕ, ◌+◌, ◌-◌, ◌*◌, ◌^◌, Bool, true, false, List, Option, none, get_or, modify, replicate, ◌==◌,
}

-- `enum procstate`.
pub data ProcState : Type 0 where
  unused used sleeping runnable running zombie : ProcState

abbrev pub is_unused : ProcState → Bool
is_unused unused = true
is_unused _ = false

abbrev pub is_sleeping : ProcState → Bool
is_sleeping sleeping = true
is_sleeping _ = false

abbrev pub is_runnable : ProcState → Bool
is_runnable runnable = true
is_runnable _ = false

abbrev pub is_running : ProcState → Bool
is_running running = true
is_running _ = false

abbrev pub is_zombie : ProcState → Bool
is_zombie zombie = true
is_zombie _ = false

-- What a process may sleep on: `&ticks`, its own `struct proc`, or any other address.
pub data Chan : Type 0 where
  null ticks_chan : Chan
  proc_chan : ℕ → Chan
  address : ℕ → Chan

abbrev pub chan_eq : Chan → Chan → Bool
chan_eq null null = true
chan_eq ticks_chan ticks_chan = true
chan_eq (proc_chan i) (proc_chan j) = i == j
chan_eq (address a) (address b) = a == b
chan_eq _ _ = false

-- `struct trapframe` in its page: the saved pc, the argument registers a0 to a7 and the others.
pub record Trapframe : Type 0 where
  pub page : ℕ
  pub epc : ℕ
  pub args : List ℕ
  pub others : List ℕ

-- `struct context`: ra, sp and the saved registers s0 to s11.
pub record Context : Type 0 where
  pub ra : ℕ
  pub sp : ℕ
  pub saved : List ℕ

-- `struct proc`. The file table entries and the inode are those of kernel/file.c and kernel/fs.c.
pub record Proc : Type 0 where
  pub state : ProcState
  pub chan : Chan
  pub killed : ℕ
  pub xstate : ℕ
  pub pid : ℕ
  pub parent : Option ℕ
  pub kstack : ℕ
  pub sz : ℕ
  pub pagetable : Option ℕ
  pub trapframe : Option Trapframe
  pub context : Context
  pub ofile : List (Option ℕ)
  pub cwd : Option ℕ
  pub cpu_ticks : ℕ
  pub wait_ticks : ℕ
  pub io_count : ℕ
  pub recent_cpu : ℕ
  pub name : List ℕ

-- llm_recommended_pid, llm_advice_valid and llm_advice_timestamp.
pub record Advice : Type 0 where
  pub recommended_pid : ℕ
  pub valid : Bool
  pub timestamp : ℕ

-- A line of the log that `log_scheduling_state` prints.
pub data LogLine : Type 0 where
  log_start log_end : LogLine
  timestamp_line : ℕ → LogLine
  proc_line : (pid : ℕ) → ProcState → (cpu_ticks wait_ticks io_count recent_cpu : ℕ) → LogLine

-- The globals. `rest` is the state of the other parts of the kernel, `cpu_proc` is `cpus[0].proc`,
-- and `console` holds the log lines printed so far.
pub record Kernel (W : Type 0) : Type 0 where
  pub procs : List Proc
  pub nextpid : ℕ
  pub initproc : Option ℕ
  pub cpu_proc : Option ℕ
  pub advice : Advice
  pub ticks : ℕ
  pub log_counter : ℕ
  pub console : List LogLine
  pub rest : W

-- What kernel/proc.c calls of kernel/kalloc.c, kernel/vm.c, kernel/file.c, kernel/fs.c and
-- kernel/log.c, and two addresses that the linker gives. `none` is a null pointer, `false` a result
-- below 0.
pub record Services (W : Type 0) : Type 0 where
  pub forkret : ℕ
  pub trampoline : ℕ
  pub kalloc : W → Option ℕ × W
  pub kfree : ℕ → W → W
  pub uvmcreate : W → Option ℕ × W
  pub mappages : (pagetable va size pa perm : ℕ) → W → Bool × W
  pub uvmunmap : (pagetable va npages : ℕ) (do_free : Bool) → W → W
  pub uvmfree : (pagetable sz : ℕ) → W → W
  pub uvmalloc : (pagetable oldsz newsz perm : ℕ) → W → ℕ × W
  pub uvmdealloc : (pagetable oldsz newsz : ℕ) → W → ℕ × W
  pub uvmcopy : (old new sz : ℕ) → W → Bool × W
  pub copyout : (pagetable dst : ℕ) (bytes : List ℕ) → W → Bool × W
  pub filedup : ℕ → W → W
  pub fileclose : ℕ → W → W
  pub idup : ℕ → W → W
  pub iput : ℕ → W → W
  pub begin_op : W → W
  pub end_op : W → W
  pub namei : (path : List ℕ) → W → Option ℕ × W

-- kernel/param.h, kernel/riscv.h and kernel/memlayout.h.
abbrev pub nproc : ℕ
nproc = 64

abbrev pub nofile : ℕ
nofile = 16

abbrev pub pgsize : ℕ
pgsize = 4096

abbrev pub pte_r : ℕ
pte_r = 2

abbrev pub pte_w : ℕ
pte_w = 4

abbrev pub pte_x : ℕ
pte_x = 8

abbrev pub trampoline_va : ℕ
trampoline_va = 2 ^ 38 - pgsize

abbrev pub trapframe_va : ℕ
trapframe_va = trampoline_va - pgsize

-- `KSTACK(i)`.
abbrev pub kstack_of : ℕ → ℕ
kstack_of i = trampoline_va - (i + 1) * (2 * pgsize)

-- What a page that `kalloc` has filled with 5s holds.
abbrev pub junk_word : ℕ
junk_word = 0x0505050505050505

abbrev pub junk_trapframe : ℕ → Trapframe
junk_trapframe page = record {
  page = page;
  epc = junk_word;
  args = replicate 8 junk_word;
  others = replicate 27 junk_word;
}

-- A slot of the zeroed `proc[]`; also what a read past its end would give.
abbrev pub zero_proc : Proc
zero_proc = record {
  state = unused;
  chan = null;
  killed = 0;
  xstate = 0;
  pid = 0;
  parent = none;
  kstack = 0;
  sz = 0;
  pagetable = none;
  trapframe = none;
  context = record { ra = 0; sp = 0; saved = replicate 12 0 };
  ofile = replicate nofile none;
  cwd = none;
  cpu_ticks = 0;
  wait_ticks = 0;
  io_count = 0;
  recent_cpu = 0;
  name = replicate 16 0;
}

module _ {W : Type 0} where
  abbrev pub proc_at : Kernel W → ℕ → Proc
  proc_at k i = get_or k.procs i zero_proc

  -- Writes to fields of `proc[i]`.
  abbrev pub update_proc : Kernel W → ℕ → (Proc → Proc) → Kernel W
  update_proc k i f = record k { procs = modify k.procs i f }
