-- ===== src/Proc/Inv/Fork.antt =====
-- kernel/proc.c: `kfork` makes one slot the child, or leaves it free, and touches no other.
use osmini_project.Base.{
  All, List, ℕ, ◌+◌, ◌^◌, ◌<◌, ◌≡◌, refl, subst, ap, ◌∙◌, ◌≢◌, ◌⊎◌, inl, inr, FailsBelow, Bool,
  true, false, Option, none, some, is_some, arith, length, modify, modify-modify, get_or,
  get_or-modify_self, get_or-modify_ne, add32, minus_one,
}
use osmini_project.Proc.Defs.{
  runnable, is_unused, is_running, Proc, Trapframe, Kernel, Services, zero_proc, proc_at,
}
use osmini_project.Proc.Alloc.{freeproc, cleared}
use osmini_project.Proc.Life.{child_trapframe, child_of, fork_into, kfork, finish_fork, fork_with}
use osmini_project.Proc.Inv.Defs.{IsSlot, IsTable, InKernel, pids}
use osmini_project.Proc.Inv.Tables.{
  Apart-above, others_below, Apart-zero, others_pos, IsQuietBut-modify,
}
use osmini_project.Proc.Inv.Alloc.{
  IsNew, IsFreed, IsFreed-IsSlot, Allocated, alloc_slot-Allocated, rewrite-IsTable, allocproc_cases,
}

-- A child of process `i`, ready to run.
pub record IsChild (i pid : ℕ) (p : Proc) : Type 0 where
  pub pid_is : p.pid ≡ pid
  pub ready : p.state ≡ runnable
  pub parent_is : p.parent ≡ some i
  pub has_frame : is_some p.trapframe ≡ true
  pub has_pages : is_some p.pagetable ≡ true
  pub no_ticks : p.cpu_ticks ≡ 0
  pub no_wait : p.wait_ticks ≡ 0

child_trapframe-some :
    (t u : Option Trapframe) → is_some u ≡ true → is_some (child_trapframe t u) ≡ true
child_trapframe-some t none h = cc
child_trapframe-some none (some u) h = refl
child_trapframe-some (some t) (some u) h = refl

-- What `kfork` comes to.
pub data ForkOutcome (i j pid result : ℕ) (write : Proc → Proc) : Type 0 where
  born :
      result ≡ pid
      → ((p : Proc) → IsChild i pid (write p) × ((write p).killed ≡ p.killed))
      → ForkOutcome i j pid result write
  failed : result ≡ minus_one → ((p : Proc) → IsFreed (write p)) → ForkOutcome i j pid result write

module _ {W : Type 0} (s : Services W) where
  -- The slot `j` was free, and is the only one written.
  pub record Forked (i : ℕ) (k : Kernel W) (out : ℕ × Kernel W) : Type 0 where
    pub j : ℕ
    pub write : Proc → Proc
    pub in_table : j < length k.procs
    pub was_free : is_unused (get_or k.procs j zero_proc).state ≡ true
    pub is_first : FailsBelow (λ p. is_unused p.state) k.procs zero_proc j
    pub procs_are : out.1.procs ≡ modify k.procs j write
    pub outcome : ForkOutcome i j k.nextpid out.0 write
    pub cpu_same : out.1.cpu_proc ≡ k.cpu_proc
    pub init_same : out.1.initproc ≡ k.initproc
    pub next_is : out.1.nextpid ≡ add32 k.nextpid 1

  freeproc-rest :
      (j : ℕ) (k : Kernel W)
      → ((freeproc s j k).procs ≡ modify k.procs j cleared)
        × ((freeproc s j k).cpu_proc ≡ k.cpu_proc)
        × ((freeproc s j k).initproc ≡ k.initproc)
        × ((freeproc s j k).nextpid ≡ k.nextpid)
  unfolding freeproc
  freeproc-rest j k = (refl, refl, refl, refl)

  cleared-IsFreed : (p : Proc) → IsFreed (cleared p)
  cleared-IsFreed p = record {
    pid_is = refl;
    is_free = refl;
    no_frame = refl;
    no_pages = refl;
    no_parent = refl;
    not_killed = refl;
  }

  finish_fork-Forked :
      (i j : ℕ) (copied : Bool) (w : W) (k k1 : Kernel W)
      → j < length k.procs
      → is_unused (get_or k.procs j zero_proc).state ≡ true
      → FailsBelow (λ p. is_unused p.state) k.procs zero_proc j
      → (f : Proc → Proc) → k1.procs ≡ modify k.procs j f
      → ((p : Proc) → IsNew k.nextpid (f p) × ((f p).killed ≡ p.killed))
      → k1.cpu_proc ≡ k.cpu_proc
      → k1.initproc ≡ k.initproc
      → k1.nextpid ≡ add32 k.nextpid 1
      → Forked i k (finish_fork s i j copied w k1)
  unfolding finish_fork
  finish_fork-Forked i j false w k k1 lt free first f e new cpu init next = record {
    j = j;
    write = λ p. cleared (f p);
    in_table = lt;
    was_free = free;
    is_first = first;
    procs_are =
        (freeproc-rest j (record k1 { rest = w })).0
        ∙ ap (λ ps. modify ps j cleared) e
        ∙ modify-modify k.procs j f cleared;
    outcome = failed refl (λ p. cleared-IsFreed (f p));
    cpu_same = (freeproc-rest j (record k1 { rest = w })).1 ∙ cpu;
    init_same = (freeproc-rest j (record k1 { rest = w })).2 ∙ init;
    next_is = (freeproc-rest j (record k1 { rest = w })).3 ∙ next;
  }
  finish_fork-Forked i j true w k k1 lt free first f e new cpu init next = record {
    j = j;
    write = λ p. child_of s i (proc_at k1 i) (f p);
    in_table = lt;
    was_free = free;
    is_first = first;
    procs_are =
        ap (λ ps. modify ps j (child_of s i (proc_at k1 i))) e
        ∙ modify-modify k.procs j f (child_of s i (proc_at k1 i));
    outcome =
        born
          (rw (e, get_or-modify_self k.procs j f zero_proc lt)
            (new (get_or k.procs j zero_proc)).0.pid_is)
          (λ p. (child-IsChild p, (new p).1));
    cpu_same = cpu;
    init_same = init;
    next_is = next;
  }
    where
      child-IsChild : (p : Proc) → IsChild i k.nextpid (child_of s i (proc_at k1 i) (f p))
      child-IsChild p = record {
        pid_is = (new p).0.pid_is;
        ready = refl;
        parent_is = refl;
        has_frame =
            child_trapframe-some (proc_at k1 i).trapframe (f p).trapframe (new p).0.has_frame;
        has_pages = (new p).0.has_pages;
        no_ticks = (new p).0.no_ticks;
        no_wait = (new p).0.no_wait;
      }

  -- The slot found for a child was free.
  fork_with-Forked :
      (i j : ℕ) (k : Kernel W) (r : Option ℕ) (k1 : Kernel W)
      → j < length k.procs
      → is_unused (get_or k.procs j zero_proc).state ≡ true
      → FailsBelow (λ p. is_unused p.state) k.procs zero_proc j
      → Allocated s j k.nextpid k.procs (add32 k.nextpid 1) k.cpu_proc k.initproc (r, k1)
      → Forked i k (fork_with s i r k1)
  unfolding fork_with fork_into
  fork_with-Forked i j k none k1 lt free first a = record {
    j = j;
    write = a.write;
    in_table = lt;
    was_free = free;
    is_first = first;
    procs_are = a.procs_are;
    outcome = failed refl (elim a.outcome [ inl (e, _) ↦ cc | inr (_, h) ↦ h ]);
    cpu_same = a.cpu_same;
    init_same = a.init_same;
    next_is = a.next_same;
  }
  fork_with-Forked i j k (some n) k1 lt free first a = elim a.outcome [
    | inl (e, new) ↦
        let same : j ≡ n = cc in
        subst (λ m. Forked i k (fork_into s i m k1)) same
          (finish_fork-Forked i j _ _ k k1 lt free first a.write a.procs_are new a.cpu_same
            a.init_same a.next_same)
    | inr (e, _) ↦ cc
  ]

  -- `kfork` returns -1 with no change only if no slot is free; otherwise it takes the first free slot, writes no
  -- other, and either makes it a RUNNABLE child with the next pid or leaves it free and returns -1.
  pub kfork_cases :
      (i : ℕ) (k : Kernel W)
      → ((kfork s i k ≡ (minus_one, k)) × All (λ p. is_unused p.state ≡ false) k.procs)
        ⊎ Forked i k (kfork s i k)
  unfolding kfork
  kfork_cases i k = elim (allocproc_cases s k) [
    | inl (e, busy) ↦ inl (rw (e, kfork) refl, busy)
    | inr (j, lt, free, first, e) ↦
        inr (rw (e, kfork) (fork_with-Forked i j k _ _ lt free first (alloc_slot-Allocated s j k)))
  ]

  IsChild-IsSlot : {i n : ℕ} {p : Proc} → 0 < n → IsChild i n p → IsSlot (n + 1) p
  IsChild-IsSlot h v = ground arith

  written-IsTable :
      {n result : ℕ} (i j : ℕ) (write : Proc → Proc) (ps : List Proc)
      → 0 < n
      → ForkOutcome i j n result write
      → IsTable n ps
      → IsTable (n + 1) (modify ps j write)
  written-IsTable {n} i j write ps pos (born _ h) t =
      rewrite-IsTable s ps j n write (omega arith) (λ p. (h p).0.pid_is)
        (λ p. IsChild-IsSlot pos (h p).0) (Apart-above n ps t.slots) (others_below n ps t.slots) t
  written-IsTable {n} i j write ps pos (failed _ h) t =
      rewrite-IsTable s ps j 0 write (omega arith) (λ p. (h p).pid_is)
        (λ p. IsFreed-IsSlot s (omega arith) (h p)) (Apart-zero (pids ps)) (others_pos n ps t.slots)
        t

  not_running :
      {i j n result : ℕ} {write : Proc → Proc} (p : Proc)
      → ForkOutcome i j n result write
      → is_running (write p).state ≡ false
  not_running p (born _ h) = rw (h p).0.ready
  not_running p (failed _ h) = rw (h p).is_free

  -- A slot that is written by a call of the running process `i` is not its own.
  pub other_slot :
      (i j : ℕ) (ps : List Proc)
      → is_running (get_or ps i zero_proc).state ≡ true
      → is_unused (get_or ps j zero_proc).state ≡ true
      → j ≢ i
  other_slot i j ps runs free e =
      let free' : is_unused (get_or ps i zero_proc).state ≡ true = rw e at free in ground arith

  Forked-InKernel :
      (i : ℕ) (k : Kernel W) (out : ℕ × Kernel W)
      → k.nextpid + 1 < 2 ^ 31
      → InKernel i k
      → Forked i k out
      → InKernel i out.1
  Forked-InKernel i k out room v f = record {
    valid = record {
      table =
          rw (f.procs_are, next)
            (written-IsTable i f.j f.write k.procs v.valid.pid_start f.outcome v.valid.table);
      pid_start = omega (arith, next);
      pid_range = omega (arith, next);
    };
    quiet =
        rw f.procs_are
          (IsQuietBut-modify k.procs i f.j f.write (λ p _. not_running p f.outcome) v.quiet);
    current = f.cpu_same ∙ v.current;
    runs =
        rw
          (
            f.procs_are,
            get_or-modify_ne k.procs f.j i f.write zero_proc
                (other_slot i f.j k.procs v.runs f.was_free),
          )
          v.runs;
  }
    where
      next : out.1.nextpid ≡ k.nextpid + 1
      next = omega (arith, f.next_is)

  pub kfork-InKernel :
      (i : ℕ) (k : Kernel W) → k.nextpid + 1 < 2 ^ 31 → InKernel i k → InKernel i (kfork s i k).1
  kfork-InKernel i k room v = elim (kfork_cases i k) [
    | inl (e, _) ↦ rw e v
    | inr f ↦ Forked-InKernel i k _ room v f
  ]
