-- ===== src/Proc/Inv/Boot.antt =====
-- kernel/proc.c: `procinit` and `userinit` set the invariant up.
use osmini_project.Base.{
  ℕ, zero, suc, ◌≡◌, refl, ap, subst, ◌∙◌, inl, inr, false, Option, none, some, some-injective,
  List, [], ◌∷◌, arith, All, map_from, modify, modify-modify, replicate, add32,
}
use osmini_project.Proc.Defs.{runnable, is_running, Proc, Kernel, Services, zero_proc, nproc}
use osmini_project.Proc.Alloc.{init_slot, procinit, alloc_slot, init_with, userinit}
use osmini_project.Proc.Inv.Defs.{IsSlot, IsDistinct, pids, IsTable, IsIdle, IsQuiet}
use osmini_project.Proc.Inv.Tables.{Apart-zero, Apart-above, others_below}
use osmini_project.Proc.Inv.Alloc.{
  IsNew, Allocated, alloc_slot-Allocated, allocproc_cases, rewrite-IsTable,
}

-- The table of the zeroed kernel image.
abbrev pub zero_table : List Proc
zero_table = replicate nproc zero_proc

All-zero :
    (P : Proc → Type 0) (n i : ℕ)
    → ((j : ℕ) → P (init_slot j zero_proc))
    → All P (map_from i init_slot (replicate n zero_proc))
All-zero P zero i h = tt
All-zero P (suc n) i h = (h i, All-zero P n (suc i) h)

IsDistinct-zero : (n i : ℕ) → IsDistinct (pids (map_from i init_slot (replicate n zero_proc)))
IsDistinct-zero zero i = tt
IsDistinct-zero (suc n) i = (Apart-zero _, IsDistinct-zero n (suc i))

procinit-IsTable : IsTable 1 (map_from 0 init_slot zero_table)
procinit-IsTable = record {
  size = refl;
  slots = All-zero (IsSlot 1) nproc 0 (λ j. ground arith);
  distinct = IsDistinct-zero nproc 0;
}

IsQuiet-modify_idle :
    (ps : List Proc) (i : ℕ) (f : Proc → Proc)
    → ((p : Proc) → is_running (f p).state ≡ false)
    → IsQuiet ps
    → IsQuiet (modify ps i f)
IsQuiet-modify_idle [] i f h q = q
IsQuiet-modify_idle (p ∷ ps) zero f h q = (h p, q.1)
IsQuiet-modify_idle (p ∷ ps) (suc i) f h q = (q.0, IsQuiet-modify_idle ps i f h q.1)

module _ {W : Type 0} (s : Services W) where
  first_proc-IsSlot :
      (p : Proc) (cwd : Option ℕ) → IsNew 1 p → IsSlot 2 (record p { cwd = cwd; state = runnable })
  first_proc-IsSlot p cwd v = ground arith

  -- The write of `userinit` to the slot that was allocated.
  first_proc-IsIdle :
      (j : ℕ) (cwd : Option ℕ) (ps : List Proc) (f : Proc → Proc) (k : Kernel W)
      → IsTable 1 ps
      → IsQuiet ps
      → ((p : Proc) → IsNew 1 (f p) × ((f p).killed ≡ p.killed))
      → k.procs ≡ modify (modify ps j f) j (λ p. record p { cwd = cwd; state = runnable })
      → k.nextpid ≡ 2
      → IsIdle k
  first_proc-IsIdle j cwd ps f k t q new e two = record {
    valid = record {
      table =
          rw (shape, two)
            (rewrite-IsTable s ps j 1 g (omega arith) (λ p. (new p).0.pid_is)
              (λ p. first_proc-IsSlot (f p) cwd (new p).0) (Apart-above 1 ps t.slots)
              (others_below 1 ps t.slots) t);
      pid_start = omega (arith, two);
      pid_range = omega (arith, two);
    };
    quiet = rw shape (IsQuiet-modify_idle ps j g (λ _. refl) q);
  }
    where
      g : Proc → Proc
      g p = record (f p) { cwd = cwd; state = runnable }

      shape : k.procs ≡ modify ps j g
      shape = e ∙ modify-modify ps j f (λ p. record p { cwd = cwd; state = runnable })

  init_with-IsIdle :
      (j : ℕ) (r : Option ℕ) (ps : List Proc) (cpu init : Option ℕ) (k1 k' : Kernel W)
      → IsTable 1 ps
      → IsQuiet ps
      → Allocated s j 1 ps 2 cpu init (r, k1)
      → init_with s r k1 ≡ some k'
      → IsIdle k'
  unfolding init_with
  init_with-IsIdle j none ps cpu init k1 k' t q a e = cc
  init_with-IsIdle j (some n) ps cpu init k1 k' t q a e = elim a.outcome [
    | inr (other, _) ↦ cc
    | inl (same, new) ↦
        let j_is : j ≡ n = cc in
        subst IsIdle (some-injective _ _ e) (
          first_proc-IsIdle j (s.namei (0x2f ∷ []) k1.rest).0 ps a.write _ t q new
            (rw (← j_is) (
              ap
                (λ qs.
                  modify qs j
                    (λ p. record p { cwd = (s.namei (0x2f ∷ []) k1.rest).0; state = runnable }))
                a.procs_are))
            a.next_same)
  ]

  -- A boot that does not panic, from a zeroed table and a nextpid of 1, leaves the process table in its
  -- invariant.
  pub userinit-IsIdle :
      (k k' : Kernel W)
      → k.procs ≡ zero_table
      → k.nextpid ≡ 1
      → userinit s (procinit k) ≡ some k'
      → IsIdle k'
  unfolding userinit procinit
  userinit-IsIdle k k' zeroed one e =
      let k0 = procinit k in
      let table : IsTable 1 k0.procs = rw zeroed procinit-IsTable in
      let quiet : IsQuiet k0.procs =
        rw zeroed (All-zero (λ p. is_running p.state ≡ false) nproc 0 (λ _. refl)) in
      elim (allocproc_cases s k0) [
        | inl (full, _) ↦ cc (rw (full, userinit) at e)
        | inr (j, _, _, _, found) ↦
            let first =
              subst
                (λ n.
                  Allocated s j n k0.procs (add32 n 1) k0.cpu_proc k0.initproc (alloc_slot s j k0))
                one (alloc_slot-Allocated s j k0) in
            init_with-IsIdle j (alloc_slot s j k0).0 k0.procs k0.cpu_proc k0.initproc
              (alloc_slot s j k0).1 k' table quiet first (rw (found, userinit) at e)
      ]
