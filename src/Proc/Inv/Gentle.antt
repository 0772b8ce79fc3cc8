-- ===== src/Proc/Inv/Gentle.antt =====
-- kernel/proc.c: writes that leave a slot in use or free, running or not, as it was. Most of the
-- functions make only such writes.
use osmini_project.Base.{
  ℕ, zero, suc, ◌+◌, ◌<◌, ◌≡◌, true, List, [], ◌∷◌, arith, is_some, length, modify, map_from,
  get_or, get_or-map_from, get_or-modify_self, get_or-modify_ne, ℕ_discrete,
}
use osmini_project.Proc.Defs.{is_unused, is_running, Proc, Kernel, zero_proc, update_proc}
use osmini_project.Proc.Inv.Defs.{InKernel}
use osmini_project.Proc.Inv.Tables.{
  Keeps, modify-IsTable, map_from-IsTable, IsQuietBut-modify, IsQuietBut-map_from,
}

pub record IsGentle (f : Proc → Proc) : Type 0 where
  pub pid : (p : Proc) → (f p).pid ≡ p.pid
  pub free : (p : Proc) → is_unused (f p).state ≡ is_unused p.state
  pub runs : (p : Proc) → is_running (f p).state ≡ is_running p.state
  pub frame : (p : Proc) → is_some (f p).trapframe ≡ is_some p.trapframe
  pub pages : (p : Proc) → is_some (f p).pagetable ≡ is_some p.pagetable

IsGentle-Keeps : (n : ℕ) {f : Proc → Proc} → IsGentle f → Keeps n f
IsGentle-Keeps n {f} g = record {
  same_pid = g.pid;
  slot = λ p v. record {
    bound = rw (g.pid p) v.bound;
    free = rw (g.free p, g.pid p) v.free;
    frame = rw (g.frame p, g.free p) v.frame;
    pages = rw (g.pages p, g.free p) v.pages;
  };
}

-- A process that runs has a slot.
pub lt_of_runs :
    (i : ℕ) (ps : List Proc) → is_running (get_or ps i zero_proc).state ≡ true → i < length ps
lt_of_runs i [] h = cc
lt_of_runs zero (p ∷ ps) h = omega arith
lt_of_runs (suc i) (p ∷ ps) h = omega (arith, lt_of_runs i ps h)

runs-modify :
    (i j : ℕ) (ps : List Proc) (f : Proc → Proc)
    → IsGentle f
    → is_running (get_or ps i zero_proc).state ≡ true
    → is_running (get_or (modify ps j f) i zero_proc).state ≡ true
runs-modify i j ps f g h = elim (ℕ_discrete j i) [
  | yes e ↦
      rw
        (e, get_or-modify_self ps i f zero_proc (lt_of_runs i ps h), g.runs (get_or ps i zero_proc))
        h
  | no ne ↦ rw (get_or-modify_ne ps j i f zero_proc ne) h
]

runs-map_from :
    (i : ℕ) (ps : List Proc) (f : ℕ → Proc → Proc)
    → ((j : ℕ) → IsGentle (f j))
    → is_running (get_or ps i zero_proc).state ≡ true
    → is_running (get_or (map_from 0 f ps) i zero_proc).state ≡ true
runs-map_from i ps f g h =
    rw
      (
        get_or-map_from ps i 0 f zero_proc (lt_of_runs i ps h),
        (g (0 + i)).runs (get_or ps i zero_proc),
      )
      h

module _ {W : Type 0} where
  pub modify-InKernel :
      (i j : ℕ) (f : Proc → Proc) (k : Kernel W)
      → IsGentle f
      → InKernel i k
      → InKernel i (update_proc k j f)
  modify-InKernel i j f k g v = record {
    valid = record {
      table = modify-IsTable j f (IsGentle-Keeps k.nextpid g) v.valid.table;
      pid_start = v.valid.pid_start;
      pid_range = v.valid.pid_range;
    };
    quiet = IsQuietBut-modify k.procs i j f (λ p h. rw (g.runs p) h) v.quiet;
    current = v.current;
    runs = runs-modify i j k.procs f g v.runs;
  }

  pub map_from-InKernel :
      (i : ℕ) (f : ℕ → Proc → Proc) (k : Kernel W)
      → ((j : ℕ) → IsGentle (f j))
      → InKernel i k
      → InKernel i (record k { procs = map_from 0 f k.procs })
  map_from-InKernel i f k g v = record {
    valid = record {
      table = map_from-IsTable f (λ j. IsGentle-Keeps k.nextpid (g j)) v.valid.table;
      pid_start = v.valid.pid_start;
      pid_range = v.valid.pid_range;
    };
    quiet = IsQuietBut-map_from k.procs i 0 f (λ j p h. rw ((g j).runs p) h) v.quiet;
    current = v.current;
    runs = runs-map_from i k.procs f g v.runs;
  }
