-- ===== src/Proc/Alloc.antt =====
-- kernel/proc.c: slots of the process table are set up, handed out and freed.
use osmini_project.Base.{
  ℕ, ◌+◌, false, [], ◌∷◌, Option, none, some, set, ltb, replicate, find_from, map_from,
  if◌then◌else◌, add32, add64, sext64, is_negative, minus_one, ◌==◌,
}
use osmini_project.Proc.Defs.{
  unused, used, runnable, is_unused, null, Proc, Trapframe, Kernel, Services, pgsize, pte_r, pte_w,
  pte_x, trampoline_va, trapframe_va, kstack_of, junk_trapframe, proc_at, update_proc,
}

-- The loop of `procinit` over `proc[]`.
abbrev pub init_slot : ℕ → Proc → Proc
init_slot i p = record p {
  state = unused;
  kstack = kstack_of i;
  cpu_ticks = 0;
  wait_ticks = 0;
  io_count = 0;
  recent_cpu = 0;
}

-- The trapframe that a pointer to a new page is.
abbrev pub new_frame : Option ℕ → Option Trapframe
new_frame none = none
new_frame (some page) = some (junk_trapframe page)

-- The fields that `freeproc` resets.
abbrev pub cleared : Proc → Proc
cleared p = record p {
  trapframe = none;
  pagetable = none;
  sz = 0;
  pid = 0;
  parent = none;
  name = set p.name 0 0;
  chan = null;
  killed = 0;
  xstate = 0;
  cpu_ticks = 0;
  wait_ticks = 0;
  io_count = 0;
  recent_cpu = 0;
  state = unused;
}

-- The fields that `allocproc` sets at once.
abbrev pub claimed : ℕ → Proc → Proc
claimed pid p = record p {
  pid = pid;
  state = used;
  cpu_ticks = 0;
  wait_ticks = 0;
  io_count = 0;
  recent_cpu = 0;
  sz = 0;
}

module _ {W : Type 0} where
  unfoldable pub procinit : Kernel W → Kernel W
  procinit k = record k { procs = map_from 0 init_slot k.procs }

  -- The new pid and the state in which it is taken.
  unfoldable pub allocpid : Kernel W → ℕ × Kernel W
  allocpid k = (k.nextpid, record k { nextpid = add32 k.nextpid 1 })

  -- `p->sz = sz` and the result 0.
  abbrev pub set_sz : (i sz : ℕ) → Kernel W → W → ℕ × Kernel W
  set_sz i sz k w = (0, update_proc (record k { rest = w }) i (λ p. record p { sz = sz }))

module _ {W : Type 0} (s : Services W) where
  unfoldable pub proc_freepagetable : (pagetable sz : ℕ) → W → W
  proc_freepagetable pagetable sz w =
      let w1 = s.uvmunmap pagetable trampoline_va 1 false w in
      let w2 = s.uvmunmap pagetable trapframe_va 1 false w1 in s.uvmfree pagetable sz w2

  abbrev pub free_trapframe : Option Trapframe → W → W
  free_trapframe none w = w
  free_trapframe (some t) w = s.kfree t.page w

  abbrev pub free_pagetable : Option ℕ → ℕ → W → W
  free_pagetable none sz w = w
  free_pagetable (some pagetable) sz w = proc_freepagetable pagetable sz w

  unfoldable pub freeproc : ℕ → Kernel W → Kernel W
  freeproc i k =
      let p = proc_at k i in
      let w = free_pagetable p.pagetable p.sz (free_trapframe p.trapframe k.rest) in
      update_proc (record k { rest = w }) i cleared

  -- `proc_pagetable` of a process with its trapframe in `page`.
  abbrev pub map_trapframe : (pagetable page : ℕ) → W → Option ℕ × W
  map_trapframe pagetable page w =
      let (ok, w1) = s.mappages pagetable trapframe_va pgsize page (pte_r + pte_w) w in
      if ok
      then (some pagetable, w1)
      else (none, s.uvmfree pagetable 0 (s.uvmunmap pagetable trampoline_va 1 false w1))

  abbrev pub map_trampoline : (pagetable page : ℕ) → W → Option ℕ × W
  map_trampoline pagetable page w =
      let (ok, w1) = s.mappages pagetable trampoline_va pgsize s.trampoline (pte_r + pte_x) w in
      if ok then map_trapframe pagetable page w1 else (none, s.uvmfree pagetable 0 w1)

  unfoldable pub proc_pagetable : (page : ℕ) → W → Option ℕ × W
  proc_pagetable page w =
      let (root, w1) = s.uvmcreate w in
      elim root [ none ↦ (none, w1) | some pagetable ↦ map_trampoline pagetable page w1 ]

  abbrev pub first_context : Proc → Proc
  first_context p = record p {
    context = record { ra = s.forkret; sp = add64 p.kstack pgsize; saved = replicate 12 0 };
  }

  -- The end of `allocproc`, by the page table that it got.
  unfoldable pub finish_alloc : ℕ → Option ℕ → Kernel W → Option ℕ × Kernel W
  finish_alloc i none k = (none, freeproc i k)
  finish_alloc i (some _) k = (some i, update_proc k i first_context)

  -- `allocproc` from the page table on, by the page that it got for the trapframe.
  unfoldable pub alloc_pagetable : ℕ → Option ℕ → Kernel W → Option ℕ × Kernel W
  unfolding finish_alloc
  alloc_pagetable i none k = (none, freeproc i k)
  alloc_pagetable i (some page) k =
      let (root, w) = proc_pagetable page k.rest in
      finish_alloc i root
        (update_proc (record k { rest = w }) i (λ p. record p { pagetable = root }))

  -- `allocproc` from the label `found` on, in the slot `i`.
  unfoldable pub alloc_slot : ℕ → Kernel W → Option ℕ × Kernel W
  unfolding alloc_pagetable
  alloc_slot i k =
      let (pid, k1) = allocpid k in
      let k2 = update_proc k1 i (claimed pid) in
      let (page, w) = s.kalloc k2.rest in
      alloc_pagetable i page
        (update_proc (record k2 { rest = w }) i (λ p. record p { trapframe = new_frame page }))

  unfoldable pub allocproc : Kernel W → Option ℕ × Kernel W
  allocproc k = elim (find_from 0 (λ (p : Proc). is_unused p.state) k.procs) [
    | none ↦ (none, k)
    | some i ↦ alloc_slot i k
  ]

  -- `userinit` by the slot that `allocproc` gave; `none` is the panic.
  unfoldable pub init_with : Option ℕ → Kernel W → Option (Kernel W)
  init_with none k = none
  init_with (some i) k =
      let (cwd, w) = s.namei (0x2f ∷ []) k.rest in
      some (
        update_proc (record k { initproc = some i; rest = w }) i
          (λ p. record p { cwd = cwd; state = runnable }))

  unfoldable pub userinit : Kernel W → Option (Kernel W)
  unfolding init_with
  userinit k = let (np, k1) = allocproc k in init_with np k1

  -- The end of `growproc` after `uvmalloc`.
  unfoldable pub grown : ℕ → Kernel W → ℕ × W → ℕ × Kernel W
  grown i k (sz, w) = if sz == 0 then (minus_one, record k { rest = w }) else set_sz i sz k w

  -- The end of `growproc` after `uvmdealloc`.
  unfoldable pub shrunk : ℕ → Kernel W → ℕ × W → ℕ × Kernel W
  shrunk i k (sz, w) = set_sz i sz k w

  -- `growproc(n)` by the process `i`: its result and the new state.
  unfoldable pub growproc : (i n : ℕ) → Kernel W → ℕ × Kernel W
  unfolding grown shrunk
  growproc i n k =
      let p = proc_at k i in
      let newsz = add64 p.sz (sext64 n) in
      let pagetable : ℕ = elim p.pagetable [ none ↦ 0 | some a ↦ a ] in
      if n == 0
      then set_sz i p.sz k k.rest
      else if is_negative n
      then shrunk i k (s.uvmdealloc pagetable p.sz newsz k.rest)
      else if ltb trapframe_va newsz
      then (minus_one, k)
      else grown i k (s.uvmalloc pagetable p.sz newsz pte_w k.rest)
