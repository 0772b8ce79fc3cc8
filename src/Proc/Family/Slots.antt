-- ===== src/Proc/Family/Slots.antt =====
-- kernel/proc.c: tests of slots that the writes of `kexit` and `wakeup` keep.
use osmini_project.Base.{
  ℕ, zero, suc, ◌+◌, ◌≡◌, refl, sym, ap, ◌∙◌, inl, inr, Bool, true, false, ◌&&◌, ◌||◌, Option, none,
  some, List, [], ◌∷◌, arith, ◌==◌, All, modify, get_or, map_from, Bool-cases,
}
use osmini_project.Proc.Defs.{
  Chan, chan_eq, Proc, zero_proc, is_runnable, is_sleeping, is_zombie, zombie, runnable,
}
use osmini_project.Proc.Wait.{is_current, wake_slot}
use osmini_project.Proc.Life.{is_child_of}

-- A test of a slot that a pass or a write keeps.
module _ (test : Proc → Bool) (b : Bool) where
  pub test-map_from :
      (f : ℕ → Proc → Proc) (xs : List Proc) (i j : ℕ)
      → ((n : ℕ) (p : Proc) → test p ≡ b → test (f n p) ≡ b)
      → test (get_or xs i zero_proc) ≡ b
      → test (get_or (map_from j f xs) i zero_proc) ≡ b
  test-map_from f [] i j h e = e
  test-map_from f (x ∷ xs) zero j h e = h j x e
  test-map_from f (x ∷ xs) (suc i) j h e = test-map_from f xs i (suc j) h e

  pub test-modify :
      (f : Proc → Proc) (xs : List Proc) (i j : ℕ)
      → (test (get_or xs j zero_proc) ≡ b → test (f (get_or xs j zero_proc)) ≡ b)
      → test (get_or xs i zero_proc) ≡ b
      → test (get_or (modify xs j f) i zero_proc) ≡ b
  test-modify f [] i j h e = e
  test-modify f (x ∷ xs) zero zero h e = h e
  test-modify f (x ∷ xs) (suc i) zero h e = e
  test-modify f (x ∷ xs) zero (suc j) h e = e
  test-modify f (x ∷ xs) (suc i) (suc j) h e = test-modify f xs i j h e

  pub test-modify_self :
      (f : Proc → Proc) (xs : List Proc) (j : ℕ)
      → ((p : Proc) → test (f p) ≡ b)
      → test zero_proc ≡ b
      → test (get_or (modify xs j f) j zero_proc) ≡ b
  test-modify_self f [] j h e = e
  test-modify_self f (x ∷ xs) zero h e = h x
  test-modify_self f (x ∷ xs) (suc j) h e = test-modify_self f xs j h e

-- A test that a change of the parent from `i` to `init` keeps, and a wake.
pub record Steady (i : ℕ) (init : Option ℕ) (test : Proc → Bool) (b : Bool) : Type 0 where
  pub wakes : (p : Proc) → test p ≡ b → test (record p { state = runnable }) ≡ b
  pub adopts :
      (p : Proc) → is_child_of i p ≡ true → test p ≡ b → test (record p { parent = init }) ≡ b

pub is_child_of-init :
    (i : ℕ) (init : Option ℕ) (p : Proc)
    → is_current init i ≡ false
    → is_child_of i (record p { parent = init }) ≡ false
is_child_of-init i none p h = refl
is_child_of-init i (some j) p h = h

pub orphans-Steady :
    (i : ℕ) (init : Option ℕ) → is_current init i ≡ false → Steady i init (is_child_of i) false
orphans-Steady i init h = record { wakes = λ p e. e; adopts = λ p _ _. is_child_of-init i init p h }

-- A test that a waiting or a ready process passes, for its own channel.
abbrev pub waits_or_ready : Chan → Proc → Bool
waits_or_ready chan p = is_runnable p.state || (is_sleeping p.state && chan_eq p.chan chan)

pub wake_slot-ready :
    (current : Option ℕ) (chan : Chan) (i : ℕ) (p : Proc)
    → is_current current i ≡ false
    → waits_or_ready chan p ≡ true
    → is_runnable (wake_slot current chan i p).state ≡ true
wake_slot-ready current chan i p other e =
    elim (Bool-cases (is_sleeping p.state && chan_eq p.chan chan)) [
      | inl c ↦ rw (other, c) refl
      | inr c ↦ rw (other, c) ground arith
    ]

pub wake_slots-ready :
    (current : Option ℕ) (chan : Chan) (xs : List Proc) (n j : ℕ)
    → is_current current (j + n) ≡ false
    → waits_or_ready chan (get_or xs n zero_proc) ≡ true
    → is_runnable (get_or (map_from j (wake_slot current chan) xs) n zero_proc).state ≡ true
wake_slots-ready current chan [] n j other e = cc
wake_slots-ready current chan (x ∷ xs) zero j other e =
    let here : j + 0 ≡ j = omega arith in
    wake_slot-ready current chan j x (ap (is_current current) (sym here) ∙ other) e
wake_slots-ready current chan (x ∷ xs) (suc n) j other e =
    let next : suc j + n ≡ j + suc n = omega arith in
    wake_slots-ready current chan xs n (suc j) (ap (is_current current) next ∙ other) e

-- Whether a pointer to a parent is that of process `i`.
abbrev pub owns : ℕ → Option ℕ → Bool
owns i none = false
owns i (some a) = a == i

pub one_owner : {i j : ℕ} (o : Option ℕ) → owns i o ≡ true → owns j o ≡ true → i ≡ j
one_owner none e e' = cc
one_owner (some a) e e' = ground arith

pub owns-parent : (i : ℕ) (p : Proc) (o : Option ℕ) → p.parent ≡ o → is_child_of i p ≡ owns i o
owns-parent i p none e = rw (e, is_child_of)
owns-parent i p (some a) e = rw (e, is_child_of)

pub one_parent : {i j : ℕ} (p : Proc) → is_child_of i p ≡ true → is_child_of j p ≡ true → i ≡ j
one_parent {i} {j} p e e' =
    one_owner p.parent (sym (owns-parent i p p.parent refl) ∙ e)
      (sym (owns-parent j p p.parent refl) ∙ e')

abbrev pub has_exited : ℕ → Proc → Bool
has_exited parent q = is_child_of parent q && is_zombie q.state

pub modify-zombie :
    (parent status : ℕ) (xs : List Proc) (i : ℕ)
    → is_child_of parent (get_or xs i zero_proc) ≡ true
    → has_exited parent
        (get_or (modify xs i (λ q. record q { xstate = status; state = zombie })) i zero_proc)
      ≡ true
modify-zombie parent status [] i e = cc
modify-zombie parent status (x ∷ xs) zero e = rw e
modify-zombie parent status (x ∷ xs) (suc i) e = modify-zombie parent status xs i e

pub All-test :
    (test : Proc → Bool) (xs : List Proc) (i : ℕ)
    → All (λ x. test x ≡ false) xs
    → test zero_proc ≡ false
    → test (get_or xs i zero_proc) ≡ false
All-test test [] i h e = e
All-test test (x ∷ xs) zero h e = h.0
All-test test (x ∷ xs) (suc i) h e = All-test test xs i h.1 e
