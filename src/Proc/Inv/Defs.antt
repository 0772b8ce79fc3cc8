-- ===== src/Proc/Inv/Defs.antt =====
-- What holds of the process table of kernel/proc.c whenever its locks are free.
use osmini_project.Base.{
  true, get_or, some, ℕ, zero, suc, ◌^◌, ◌<◌, ◌≡◌, ◌≢◌, false, not, ◌⊎◌, List, [], ◌∷◌, map,
  is_some, ◌==◌, All, length,
}
use osmini_project.Proc.Defs.{is_unused, is_running, zero_proc, Proc, Kernel, nproc}

-- A slot is free exactly when its pid is 0, and a slot in use has its memory.
pub record IsSlot (n : ℕ) (p : Proc) : Type 0 where
  pub bound : p.pid < n
  pub free : is_unused p.state ≡ (p.pid == 0)
  pub frame : is_some p.trapframe ≡ not (is_unused p.state)
  pub pages : is_some p.pagetable ≡ not (is_unused p.state)

-- No two of the pids are equal, but for 0.
abbrev pub Apart : ℕ → List ℕ → Type 0
Apart a = All (λ b. (a ≡ 0) ⊎ (a ≢ b))

abbrev pub IsDistinct : List ℕ → Type 0
IsDistinct [] = Unit {0}
IsDistinct (a ∷ bs) = Apart a bs × IsDistinct bs

abbrev pub pids : List Proc → List ℕ
pids = map λ p. p.pid

-- Nobody is RUNNING.
abbrev pub IsQuiet : List Proc → Type 0
IsQuiet = All λ p. is_running p.state ≡ false

-- Nobody but the process of index `i` is RUNNING.
abbrev pub IsQuietBut : ℕ → List Proc → Type 0
IsQuietBut i [] = Unit {0}
IsQuietBut zero (p ∷ ps) = IsQuiet ps
IsQuietBut (suc i) (p ∷ ps) = (is_running p.state ≡ false) × IsQuietBut i ps

pub record IsTable (nextpid : ℕ) (procs : List Proc) : Type 0 where
  pub size : length procs ≡ nproc
  pub slots : All (IsSlot nextpid) procs
  pub distinct : IsDistinct (pids procs)

pub record IsValid {W : Type 0} (k : Kernel W) : Type 0 where
  pub table : IsTable k.nextpid k.procs
  pub pid_start : 0 < k.nextpid
  pub pid_range : k.nextpid < 2 ^ 31

-- Process `i` is in the kernel: it runs, nobody else does, and its CPU knows it.
pub record InKernel {W : Type 0} (i : ℕ) (k : Kernel W) : Type 0 where
  pub valid : IsValid k
  pub quiet : IsQuietBut i k.procs
  pub current : k.cpu_proc ≡ some i
  pub runs : is_running (get_or k.procs i zero_proc).state ≡ true

-- The scheduler is between two processes.
pub record IsIdle {W : Type 0} (k : Kernel W) : Type 0 where
  pub valid : IsValid k
  pub quiet : IsQuiet k.procs
