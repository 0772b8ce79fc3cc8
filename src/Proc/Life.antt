-- ===== src/Proc/Life.antt =====
-- kernel/proc.c: fork, exit and wait of the process `i`.
use osmini_project.Base.{
  ℕ, zero, suc, map, ◌+◌, ◌/◌, ◌%◌, ◌^◌, Bool, true, false, not, ◌&&◌, ◌||◌, List, [], ◌∷◌, Option,
  none, some, set, find_from, is_some, if◌then◌else◌, ◌==◌, minus_one,
}
use osmini_project.Str.{safestrcpy}
use osmini_project.Proc.Defs.{
  runnable, zombie, is_zombie, Chan, null, proc_chan, Proc, Trapframe, Kernel, Services, nproc,
  proc_at, update_proc,
}
use osmini_project.Proc.Alloc.{allocproc, freeproc}
use osmini_project.Proc.Wait.{is_current, wakeup, killed, sleep_enter}

-- `pp->parent == p`.
abbrev pub is_child_of : ℕ → Proc → Bool
is_child_of i p = elim p.parent [ none ↦ false | some j ↦ j == i ]

-- The registers of a child: the parent's, with 0 in a0. The page stays the child's own.
abbrev pub child_trapframe : Option Trapframe → Option Trapframe → Option Trapframe
child_trapframe (some parent) (some child) =
    some (record parent { page = child.page; args = set parent.args 0 0 })
child_trapframe none child = child
child_trapframe (some parent) none = none

-- The channel that a pointer to a process stands for.
abbrev pub proc_ptr : Option ℕ → Chan
proc_ptr none = null
proc_ptr (some i) = proc_chan i

-- The bytes of an `int`, the lowest first.
abbrev pub word_bytes : ℕ → List ℕ
word_bytes x = x % 256 ∷ x / 256 % 256 ∷ x / 2 ^ 16 % 256 ∷ x / 2 ^ 24 % 256 ∷ []

-- What a pass of `kwait` over `proc[]` comes to: a result, or a sleep until a child exits.
pub data Waited (W : Type 0) : Type 0 where
  returns : ℕ → Kernel W → Waited W
  sleeps : Kernel W → Waited W

module _ {W : Type 0} where
  -- The loop of `reparent` with `rounds` slots to go, the next one `j`.
  unfoldable pub reparent_from : (i rounds j : ℕ) → Kernel W → Kernel W
  reparent_from i zero j k = k
  reparent_from i (suc rounds) j k = reparent_from i rounds (j + 1) (
      if is_child_of i (proc_at k j)
      then wakeup (proc_ptr k.initproc) (update_proc k j (λ p. record p { parent = k.initproc }))
      else k)

  unfoldable pub reparent : ℕ → Kernel W → Kernel W
  reparent i k = reparent_from i nproc 0 k

  -- The children of a process that exits, and its parent, while it has `wait_lock`.
  unfoldable pub exit_family : ℕ → Kernel W → Kernel W
  exit_family i k = wakeup (proc_ptr (proc_at k i).parent) (reparent i k)

  -- `kexit` from `acquire(&wait_lock)` up to its call of `sched`.
  unfoldable pub finish_exit : (i status : ℕ) → Kernel W → Kernel W
  finish_exit i status k =
      update_proc (exit_family i k) i (λ q. record q { xstate = status; state = zombie })

module _ {W : Type 0} (s : Services W) where
  -- `filedup` of every open file.
  unfoldable pub dup_files : List (Option ℕ) → W → W
  dup_files [] w = w
  dup_files (none ∷ fs) w = dup_files fs w
  dup_files (some f ∷ fs) w = dup_files fs (s.filedup f w)

  -- `fileclose` of every open file.
  unfoldable pub close_files : List (Option ℕ) → W → W
  close_files [] w = w
  close_files (none ∷ fs) w = close_files fs w
  close_files (some f ∷ fs) w = close_files fs (s.fileclose f w)

  abbrev pub dup_cwd : Option ℕ → W → W
  dup_cwd none w = w
  dup_cwd (some ip) w = s.idup ip w

  -- What the child's slot gets of its parent `p`, the index `i`.
  abbrev pub child_of : ℕ → Proc → Proc → Proc
  child_of i p np = record np {
    sz = p.sz;
    trapframe = child_trapframe p.trapframe np.trapframe;
    ofile = p.ofile;
    cwd = p.cwd;
    name = safestrcpy np.name p.name 16;
    parent = some i;
    state = runnable;
  }

  -- The end of `kfork` of the process `i` with the child's slot `j`, by the result of `uvmcopy`.
  unfoldable pub finish_fork : (i j : ℕ) → Bool → W → Kernel W → ℕ × Kernel W
  finish_fork i j false w k = (minus_one, freeproc s j (record k { rest = w }))
  finish_fork i j true w k =
      let p = proc_at k i in
      (
        (proc_at k j).pid,
        update_proc (record k { rest = dup_cwd p.cwd (dup_files p.ofile w) }) j (child_of i p),
      )

  -- `kfork` once the child's slot `j` is there.
  unfoldable pub fork_into : (i j : ℕ) → Kernel W → ℕ × Kernel W
  unfolding finish_fork
  fork_into i j k =
      let p = proc_at k i in
      let old : ℕ = elim p.pagetable [ none ↦ 0 | some a ↦ a ] in
      let new : ℕ = elim (proc_at k j).pagetable [ none ↦ 0 | some a ↦ a ] in
      let (copied, w) = s.uvmcopy old new p.sz k.rest in finish_fork i j copied w k

  -- `kfork` by the slot that `allocproc` gave.
  unfoldable pub fork_with : ℕ → Option ℕ → Kernel W → ℕ × Kernel W
  unfolding fork_into
  fork_with i none k = (minus_one, k)
  fork_with i (some j) k = fork_into i j k

  unfoldable pub kfork : ℕ → Kernel W → ℕ × Kernel W
  unfolding fork_with
  kfork i k = let (np, k1) = allocproc s k in fork_with i np k1

  abbrev pub put_cwd : Option ℕ → W → W
  put_cwd none w = s.end_op (s.begin_op w)
  put_cwd (some ip) w = s.end_op (s.iput ip (s.begin_op w))

  -- `kexit` closes the files and gives back the working directory.
  unfoldable pub exit_files : ℕ → Kernel W → Kernel W
  exit_files i k =
      let p = proc_at k i in
      update_proc (record k { rest = put_cwd p.cwd (close_files p.ofile k.rest) }) i
        (λ q. record q { ofile = map (λ _. none) q.ofile; cwd = none })

  -- `kexit` up to its call of `sched`; `none` is the panic "init exiting". `fileclose`, `begin_op`, `iput` and
  -- `end_op` may wake other processes, and sleep: `meanwhile` is what they and the other processes do to the
  -- process table until the process takes `wait_lock`.
  unfoldable pub kexit :
      (meanwhile : Kernel W → Kernel W) → (i status : ℕ) → Kernel W → Option (Kernel W)
  kexit meanwhile i status k =
      if is_current k.initproc i
      then none
      else some (finish_exit i status (meanwhile (exit_files i k)))

  -- The exit status goes out if there is an address for it; `false` is a fault.
  abbrev pub copy_status : Proc → (addr xstate : ℕ) → W → Bool × W
  copy_status p addr xstate w =
      let root : ℕ = elim p.pagetable [ none ↦ 0 | some a ↦ a ] in
      if addr == 0 then (true, w) else s.copyout root addr (word_bytes xstate) w

  -- The end of a pass that found the zombie `j`, by the result of the copy.
  unfoldable pub finish_reap : ℕ → Bool → W → Kernel W → Waited W
  finish_reap j false w k = returns minus_one (record k { rest = w })
  finish_reap j true w k = returns (proc_at k j).pid (freeproc s j (record k { rest = w }))

  unfoldable pub reap : (i addr j : ℕ) → Kernel W → Waited W
  unfolding finish_reap
  reap i addr j k =
      let (ok, w) = copy_status (proc_at k i) addr (proc_at k j).xstate k.rest in
      finish_reap j ok w k

  -- The end of a pass that found no zombie.
  unfoldable pub no_zombie : ℕ → Kernel W → Waited W
  no_zombie i k =
      if not (is_some (find_from 0 (is_child_of i) k.procs)) || not (killed i k == 0)
      then returns minus_one k
      else sleeps (sleep_enter i (proc_chan i) k)

  -- One pass of the endless loop of `kwait`: the first zombie among the children is reaped.
  unfoldable pub kwait_pass : (i addr : ℕ) → Kernel W → Waited W
  unfolding reap no_zombie
  kwait_pass i addr k =
      elim (find_from 0 (λ (q : Proc). is_child_of i q && is_zombie q.state) k.procs) [
        | some j ↦ reap i addr j k
        | none ↦ no_zombie i k
      ]
