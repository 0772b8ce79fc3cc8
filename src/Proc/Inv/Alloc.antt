-- ===== src/Proc/Inv/Alloc.antt =====
-- kernel/proc.c: `allocproc` and `freeproc` keep the invariant of the process table.
use osmini_project.Base.{
  find_from-eq-some, find_from-eq-none, find_from, Option-cases, FailsBelow, get_or, length, false,
  ℕ, ◌+◌, ◌≤◌, ◌<◌, ◌≡◌, refl, ◌≢◌, ◌⊎◌, inl, inr, true, Option, none, some, is_some, arith, All,
  All-modify, length-modify, modify, modify-modify, add32, List,
}
use osmini_project.Proc.Defs.{
  zero_proc, is_unused, unused, used, Proc, Kernel, Services, update_proc, junk_trapframe,
}
use osmini_project.Proc.Alloc.{
  allocproc, allocpid, freeproc, new_frame, finish_alloc, alloc_pagetable, alloc_slot,
  proc_pagetable, claimed, cleared, first_context,
}
use osmini_project.Proc.Inv.Defs.{IsSlot, Apart, pids, IsTable}
use osmini_project.Proc.Inv.Tables.{
  IsDistinct-set, Apart-zero, others_pos, Apart-above, others_below, pids-modify-set, IsSlot-mono,
}

-- What a successful allocation makes of a slot.
pub record IsNew (pid : ℕ) (p : Proc) : Type 0 where
  pub pid_is : p.pid ≡ pid
  pub is_used : p.state ≡ used
  pub has_frame : is_some p.trapframe ≡ true
  pub has_pages : is_some p.pagetable ≡ true
  pub no_ticks : p.cpu_ticks ≡ 0
  pub no_wait : p.wait_ticks ≡ 0

-- What `freeproc` makes of a slot.
pub record IsFreed (p : Proc) : Type 0 where
  pub pid_is : p.pid ≡ 0
  pub is_free : p.state ≡ unused
  pub no_frame : p.trapframe ≡ none
  pub no_pages : p.pagetable ≡ none
  pub no_parent : p.parent ≡ none
  pub not_killed : p.killed ≡ 0

-- The write to slot `i` that an allocation comes to, and its result.
abbrev pub Outcome : ℕ → ℕ → Option ℕ → (Proc → Proc) → Type 0
Outcome i pid r f =
    ((r ≡ some i) × ((p : Proc) → IsNew pid (f p) × ((f p).killed ≡ p.killed)))
    ⊎ ((r ≡ none) × ((p : Proc) → IsFreed (f p)))

module _ {W : Type 0} (s : Services W) where
  -- Only the slot, the pid counter and the rest of the kernel change.
  pub record Allocated (i pid : ℕ) (procs : List Proc) (nextpid : ℕ) (cpu_proc initproc : Option ℕ)
      (out : Option ℕ × Kernel W) : Type 0 where
    pub write : Proc → Proc
    pub procs_are : out.1.procs ≡ modify procs i write
    pub outcome : Outcome i pid out.0 write
    pub cpu_same : out.1.cpu_proc ≡ cpu_proc
    pub init_same : out.1.initproc ≡ initproc
    pub next_same : out.1.nextpid ≡ nextpid

  freed-Allocated :
      (i pid : ℕ) (k : Kernel W) (f : Proc → Proc) (ps : List Proc)
      → k.procs ≡ modify ps i f
      → Allocated i pid ps k.nextpid k.cpu_proc k.initproc (none, freeproc s i k)
  unfolding freeproc
  freed-Allocated i pid k f ps e = record {
    write = λ p. cleared (f p);
    procs_are = rw e (modify-modify ps i f cleared);
    outcome = inr (
      refl,
      λ p. record {
        pid_is = refl;
        is_free = refl;
        no_frame = refl;
        no_pages = refl;
        no_parent = refl;
        not_killed = refl;
      },
    );
    cpu_same = refl;
    init_same = refl;
    next_same = refl;
  }

  -- What `finish_alloc` finds in the slot.
  pub record IsClaimed (pid : ℕ) (killed : ℕ) (p : Proc) : Type 0 where
    pub pid_is : p.pid ≡ pid
    pub is_used : p.state ≡ used
    pub has_frame : is_some p.trapframe ≡ true
    pub no_ticks : p.cpu_ticks ≡ 0
    pub no_wait : p.wait_ticks ≡ 0
    pub killed_same : p.killed ≡ killed

  finish_alloc-Allocated :
      (i pid : ℕ) (root : Option ℕ) (k : Kernel W) (f : Proc → Proc) (ps : List Proc)
      → k.procs ≡ modify ps i f
      → ((p : Proc) → IsClaimed pid p.killed (f p) × ((f p).pagetable ≡ root))
      → Allocated i pid ps k.nextpid k.cpu_proc k.initproc (finish_alloc s i root k)
  unfolding finish_alloc
  finish_alloc-Allocated i pid none k f ps e h = freed-Allocated i pid k f ps e
  finish_alloc-Allocated i pid (some root) k f ps e h = record {
    write = λ p. first_context s (f p);
    procs_are = rw e (modify-modify ps i f (first_context s));
    outcome = inl (refl, λ p. ground (arith, h p));
    cpu_same = refl;
    init_same = refl;
    next_same = refl;
  }

  alloc_pagetable-Allocated :
      (i pid : ℕ) (page : Option ℕ) (k : Kernel W) (f : Proc → Proc) (ps : List Proc)
      → k.procs ≡ modify ps i f
      → ((p : Proc)
          → IsClaimed pid p.killed (record (f p) { trapframe = some (junk_trapframe 0) })
            × ((f p).trapframe ≡ new_frame page))
      → Allocated i pid ps k.nextpid k.cpu_proc k.initproc (alloc_pagetable s i page k)
  unfolding alloc_pagetable
  alloc_pagetable-Allocated i pid none k f ps e h = freed-Allocated i pid k f ps e
  alloc_pagetable-Allocated i pid (some page) k f ps e h =
      let (root, w) = proc_pagetable s page k.rest in
      finish_alloc-Allocated i pid root
        (update_proc (record k { rest = w }) i (λ p. record p { pagetable = root }))
        (λ p. record (f p) { pagetable = root }) ps
        (rw e (modify-modify ps i f (λ p. record p { pagetable = root })))
        (λ p. (ground (arith, h p), refl))

  pub alloc_slot-Allocated :
      (i : ℕ) (k : Kernel W)
      → Allocated i k.nextpid k.procs (add32 k.nextpid 1) k.cpu_proc k.initproc (alloc_slot s i k)
  unfolding alloc_slot allocpid
  alloc_slot-Allocated i k =
      let (page, w) = s.kalloc k.rest in
      let k1 = record k {
        rest = w;
        nextpid = add32 k.nextpid 1;
        procs = modify k.procs i (claimed k.nextpid);
      } in
      alloc_pagetable-Allocated i k.nextpid page
        (update_proc k1 i (λ p. record p { trapframe = new_frame page }))
        (λ p. record (claimed k.nextpid p) { trapframe = new_frame page }) k.procs
        (modify-modify k.procs i (claimed k.nextpid) (λ p. record p { trapframe = new_frame page }))
        (λ p. (
          record {
            pid_is = refl;
            is_used = refl;
            has_frame = refl;
            no_ticks = refl;
            no_wait = refl;
            killed_same = refl;
          },
          refl,
        ))

module _ {W : Type 0} (s : Services W) where
  -- A write to one slot that gives it a pid of its own keeps the table.
  pub rewrite-IsTable :
      {m n : ℕ} (ps : List Proc) (i v : ℕ) (f : Proc → Proc)
      → m ≤ n
      → ((p : Proc) → (f p).pid ≡ v)
      → ((p : Proc) → IsSlot n (f p))
      → Apart v (pids ps)
      → All (λ a. (a ≡ 0) ⊎ (a ≢ v)) (pids ps)
      → IsTable m ps
      → IsTable n (modify ps i f)
  rewrite-IsTable {m} {n} ps i v f le pid slot mine others t = record {
    size = rw (length-modify ps i f) t.size;
    slots = All-modify (IsSlot n) f (λ p _. slot p) ps i (IsSlot-mono ps le t.slots);
    distinct =
        rw (pids-modify-set ps i v f pid) (IsDistinct-set v (pids ps) i mine others t.distinct);
  }

  IsNew-IsSlot : {n : ℕ} {p : Proc} → 0 < n → IsNew n p → IsSlot (n + 1) p
  IsNew-IsSlot h v = ground arith

  pub IsFreed-IsSlot : {n : ℕ} {p : Proc} → 0 < n → IsFreed p → IsSlot n p
  IsFreed-IsSlot h v = ground arith

  Outcome-IsTable :
      {n : ℕ} (i : ℕ) (r : Option ℕ) (f : Proc → Proc) (ps : List Proc)
      → 0 < n
      → Outcome i n r f
      → IsTable n ps
      → IsTable (n + 1) (modify ps i f)
  Outcome-IsTable {n} i r f ps pos (inl (_, h)) t =
      rewrite-IsTable ps i n f (omega arith) (λ p. (h p).0.pid_is) (λ p. IsNew-IsSlot pos (h p).0)
        (Apart-above n ps t.slots) (others_below n ps t.slots) t
  Outcome-IsTable {n} i r f ps pos (inr (_, h)) t =
      rewrite-IsTable ps i 0 f (omega arith) (λ p. (h p).pid_is)
        (λ p. IsFreed-IsSlot (omega arith) (h p)) (Apart-zero (pids ps)) (others_pos n ps t.slots) t

  -- `freeproc` keeps the table.
  pub freeproc-IsTable :
      {n : ℕ} (i : ℕ) (k : Kernel W) → 0 < n → IsTable n k.procs → IsTable n (freeproc s i k).procs
  unfolding freeproc
  freeproc-IsTable {n} i k pos t =
      rewrite-IsTable k.procs i 0 cleared (omega arith) (λ p. refl) (λ p. ground arith)
        (Apart-zero (pids k.procs)) (others_pos n k.procs t.slots) t

  -- `allocproc` takes the first free slot, or fails with no change if there is none.
  pub allocproc_cases :
      (k : Kernel W)
      → ((allocproc s k ≡ (none, k)) × All (λ p. is_unused p.state ≡ false) k.procs)
        ⊎ ((j : ℕ) × (j < length k.procs)
            × (is_unused (get_or k.procs j zero_proc).state ≡ true)
            × FailsBelow (λ p. is_unused p.state) k.procs zero_proc j
            × (allocproc s k ≡ alloc_slot s j k))
  unfolding allocproc
  allocproc_cases k = elim (Option-cases (find_from 0 (λ p. is_unused p.state) k.procs)) [
    | inl e ↦ inl (rw (e, allocproc) refl, find_from-eq-none 0 (λ p. is_unused p.state) k.procs e)
    | inr (n, e) ↦
        let (m, eq, lt, hit, below) =
          find_from-eq-some 0 (λ p. is_unused p.state) k.procs zero_proc e in
        let same : n ≡ m = omega arith in inr (m, lt, hit, below, rw (e, allocproc, same) refl)
  ]
