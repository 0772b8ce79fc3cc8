-- ===== src/Proc/Inv/Tables.antt =====
-- How writes to single slots, and passes over all of them, keep the parts of the invariant of the
-- process table of kernel/proc.c.
use osmini_project.Base.{
  ℕ, zero, suc, ◌≤◌, ◌≡◌, refl, ◌≢◌, ◌⊎◌, inl, inr, false, List, [], ◌∷◌, arith, All, All-modify,
  All-map_from, length-modify, length-map_from, modify, map_from, set,
}
use osmini_project.Proc.Defs.{is_running, Proc}
use osmini_project.Proc.Inv.Defs.{IsSlot, Apart, IsDistinct, pids, IsQuiet, IsQuietBut, IsTable}

-- A slot that a pass or a write leaves in order, with the same pid.
pub record Keeps (n : ℕ) (f : Proc → Proc) : Type 0 where
  pub same_pid : (p : Proc) → (f p).pid ≡ p.pid
  pub slot : (p : Proc) → IsSlot n p → IsSlot n (f p)

pub pids-modify :
    (ps : List Proc) (i : ℕ) (f : Proc → Proc)
    → ((p : Proc) → (f p).pid ≡ p.pid)
    → pids (modify ps i f) ≡ pids ps
pids-modify [] i f h = refl
pids-modify (p ∷ ps) zero f h = rw (h p)
pids-modify (p ∷ ps) (suc i) f h = rw (pids-modify ps i f h)

pub pids-map_from :
    (ps : List Proc) (i : ℕ) (f : ℕ → Proc → Proc)
    → ((i : ℕ) (p : Proc) → (f i p).pid ≡ p.pid)
    → pids (map_from i f ps) ≡ pids ps
pids-map_from [] i f h = refl
pids-map_from (p ∷ ps) i f h = rw (h i p, pids-map_from ps (suc i) f h)

pub modify-IsTable :
    {n : ℕ} {ps : List Proc} (i : ℕ) (f : Proc → Proc)
    → Keeps n f
    → IsTable n ps
    → IsTable n (modify ps i f)
modify-IsTable {n} {ps} i f k t = record {
  size = rw (length-modify ps i f) t.size;
  slots = All-modify (IsSlot n) f k.slot ps i t.slots;
  distinct = rw (pids-modify ps i f k.same_pid) t.distinct;
}

pub map_from-IsTable :
    {n : ℕ} {ps : List Proc} (f : ℕ → Proc → Proc)
    → ((i : ℕ) → Keeps n (f i))
    → IsTable n ps
    → IsTable n (map_from 0 f ps)
map_from-IsTable {n} {ps} f k t = record {
  size = rw (length-map_from ps 0 f) t.size;
  slots = All-map_from (IsSlot n) f (λ i. (k i).slot) ps 0 t.slots;
  distinct = rw (pids-map_from ps 0 f (λ i. (k i).same_pid)) t.distinct;
}

-- Giving a slot a pid that no other has.
Apart-set : (a v : ℕ) (bs : List ℕ) (i : ℕ) → (a ≡ 0) ⊎ (a ≢ v) → Apart a bs → Apart a (set bs i v)
Apart-set a v [] i h t = t
Apart-set a v (b ∷ bs) zero h t = (h, t.1)
Apart-set a v (b ∷ bs) (suc i) h t = (t.0, Apart-set a v bs i h t.1)

pub IsDistinct-set :
    (v : ℕ) (bs : List ℕ) (i : ℕ)
    → Apart v bs
    → All (λ a. (a ≡ 0) ⊎ (a ≢ v)) bs
    → IsDistinct bs
    → IsDistinct (set bs i v)
IsDistinct-set v [] i h g d = d
IsDistinct-set v (a ∷ bs) zero h g d = (h.1, d.1)
IsDistinct-set v (a ∷ bs) (suc i) h g d =
    (Apart-set a v bs i g.0 d.0, IsDistinct-set v bs i h.1 g.1 d.1)

-- 0 is always such a pid, and so is one that is above all.
pub Apart-zero : (bs : List ℕ) → Apart 0 bs
Apart-zero [] = tt
Apart-zero (a ∷ bs) = (inl refl, Apart-zero bs)

pub others_pos :
    (n : ℕ) (ps : List Proc) → All (IsSlot n) ps → All (λ a. (a ≡ 0) ⊎ (a ≢ 0)) (pids ps)
others_pos n [] h = tt
others_pos n (p ∷ ps) h = (ground arith, others_pos n ps h.1)

pub Apart-above : (n : ℕ) (ps : List Proc) → All (IsSlot n) ps → Apart n (pids ps)
Apart-above n [] h = tt
Apart-above n (p ∷ ps) h = (inr (omega (arith, h.0.bound)), Apart-above n ps h.1)

pub others_below :
    (n : ℕ) (ps : List Proc) → All (IsSlot n) ps → All (λ a. (a ≡ 0) ⊎ (a ≢ n)) (pids ps)
others_below n [] h = tt
others_below n (p ∷ ps) h = (inr (omega (arith, h.0.bound)), others_below n ps h.1)

pub pids-modify-set :
    (ps : List Proc) (i v : ℕ) (f : Proc → Proc)
    → ((p : Proc) → (f p).pid ≡ v)
    → pids (modify ps i f) ≡ set (pids ps) i v
pids-modify-set [] i v f h = refl
pids-modify-set (p ∷ ps) zero v f h = rw (h p)
pids-modify-set (p ∷ ps) (suc i) v f h = rw (pids-modify-set ps i v f h)

pub IsSlot-mono : {m n : ℕ} (ps : List Proc) → m ≤ n → All (IsSlot m) ps → All (IsSlot n) ps
IsSlot-mono [] h t = t
IsSlot-mono (p ∷ ps) h t = (ground arith, IsSlot-mono ps h t.1)

-- RUNNING processes.
pub IsQuiet-modify :
    (ps : List Proc) (i : ℕ) (f : Proc → Proc) → IsQuiet ps → IsQuietBut i (modify ps i f)
IsQuiet-modify [] i f q = q
IsQuiet-modify (p ∷ ps) zero f q = q.1
IsQuiet-modify (p ∷ ps) (suc i) f q = (q.0, IsQuiet-modify ps i f q.1)

pub IsQuietBut-modify_self :
    (ps : List Proc) (i : ℕ) (f : Proc → Proc)
    → ((p : Proc) → is_running (f p).state ≡ false)
    → IsQuietBut i ps
    → IsQuiet (modify ps i f)
IsQuietBut-modify_self [] i f h q = q
IsQuietBut-modify_self (p ∷ ps) zero f h q = (h p, q)
IsQuietBut-modify_self (p ∷ ps) (suc i) f h q = (q.0, IsQuietBut-modify_self ps i f h q.1)

pub IsQuietBut-modify :
    (ps : List Proc) (i j : ℕ) (f : Proc → Proc)
    → ((p : Proc) → is_running p.state ≡ false → is_running (f p).state ≡ false)
    → IsQuietBut i ps
    → IsQuietBut i (modify ps j f)
IsQuietBut-modify [] i j f h q = q
IsQuietBut-modify (p ∷ ps) zero zero f h q = q
IsQuietBut-modify (p ∷ ps) zero (suc j) f h q =
    All-modify (λ p. is_running p.state ≡ false) f h ps j q
IsQuietBut-modify (p ∷ ps) (suc i) zero f h q = (h p q.0, q.1)
IsQuietBut-modify (p ∷ ps) (suc i) (suc j) f h q = (q.0, IsQuietBut-modify ps i j f h q.1)

pub IsQuietBut-map_from :
    (ps : List Proc) (i j : ℕ) (f : ℕ → Proc → Proc)
    → ((j : ℕ) (p : Proc) → is_running p.state ≡ false → is_running (f j p).state ≡ false)
    → IsQuietBut i ps
    → IsQuietBut i (map_from j f ps)
IsQuietBut-map_from [] i j f h q = q
IsQuietBut-map_from (p ∷ ps) zero j f h q =
    All-map_from (λ p. is_running p.state ≡ false) f h ps (suc j) q
IsQuietBut-map_from (p ∷ ps) (suc i) j f h q = (h j p q.0, IsQuietBut-map_from ps i (suc j) f h q.1)
