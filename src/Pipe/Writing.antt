-- ===== src/Pipe/Writing.antt =====
-- kernel/pipe.c: `pipewrite` puts the bytes of its buffer into the pipe.
use osmini_project.Base.{
  ℕ, zero, suc, ◌+◌, ◌≡◌, refl, sym, ap, ◌∙◌, inl, inr, Bool, true, false, not, ◌||◌, Option, none,
  some, List, [], ◌∷◌, ◌++◌, append_assoc, append-nil, arith, Bool-cases,
}
use osmini_project.Pipe.{
  Pipe, Side, readers, pipesize, is_full, put, wake, Written, wrote, write_failed, write_sleeps,
  write_from, pipewrite,
}
use osmini_project.Pipe.Ring.{IsValid, contents, count, put_lem, is_full_lem}

-- The first `n` bytes of a buffer in user memory, up to a fault.
abbrev pub taken : ℕ → List (Option ℕ) → List ℕ
taken zero bs = []
taken (suc n) [] = []
taken (suc n) (none ∷ bs) = []
taken (suc n) (some b ∷ bs) = b ∷ taken n bs

abbrev pub pipe_written : Written → Pipe
pipe_written (wrote n pi) = pi
pipe_written (write_failed pi) = pi
pipe_written (write_sleeps n rest pi) = pi

abbrev pub left_over : ℕ → List (Option ℕ) → List (Option ℕ)
left_over zero bs = bs
left_over (suc n) [] = []
left_over (suc n) (b ∷ bs) = left_over n bs

-- How a run of the loop ends that took `m` bytes from byte `i` on: it has written all or met a
-- fault, or it sleeps on a full pipe, with the bytes that are left.
abbrev pub WriteEnds : (i m : ℕ) → List (Option ℕ) → Written → Type 0
WriteEnds i m bs (wrote n pi) = (n ≡ i + m) × (taken (suc m) bs ≡ taken m bs)
WriteEnds i m bs (write_failed pi) = ⊥
WriteEnds i m bs (write_sleeps n rest pi) =
    (n ≡ i + m) × (rest ≡ left_over m bs) × (count pi ≡ pipesize)

pub record Wrote (pi : Pipe) (i : ℕ) (bs : List (Option ℕ)) (out : Written) : Type 0 where
  pub took : ℕ
  pub ends : WriteEnds i took bs out
  pub valid : IsValid (pipe_written out)
  pub holds : contents (pipe_written out) ≡ contents pi ++ taken took bs
  pub open_same : (pipe_written out).readopen ≡ pi.readopen

pub wake-IsValid : (side : Side) (pi : Pipe) → IsValid pi → IsValid (wake side pi)
wake-IsValid side pi v = ground arith

WriteEnds-suc :
    (i m ch : ℕ) (bs : List (Option ℕ)) (out : Written)
    → WriteEnds (i + 1) m bs out
    → WriteEnds i (suc m) (some ch ∷ bs) out
WriteEnds-suc i m ch bs (wrote n pi) e = (omega arith, ap (λ l. ch ∷ l) e.1)
WriteEnds-suc i m ch bs (write_failed pi) e = e
WriteEnds-suc i m ch bs (write_sleeps n rest pi) e = (omega arith, e.1, e.2)

readopen-put : (ch : ℕ) (pi : Pipe) → (put ch pi).readopen ≡ pi.readopen
unfolding put
readopen-put ch pi = refl

write_from-Wrote :
    (killed : Bool) (i : ℕ) (bs : List (Option ℕ)) (pi : Pipe)
    → IsValid pi
    → (not pi.readopen || killed) ≡ false
    → Wrote pi i bs (write_from killed i bs pi)
unfolding write_from
write_from-Wrote killed i [] pi v ok = record {
  took = 0;
  ends = (omega arith, refl);
  valid = wake-IsValid readers pi v;
  holds = sym (append-nil (contents pi));
  open_same = refl;
}
write_from-Wrote killed i (none ∷ bs) pi v ok = elim (Bool-cases (is_full pi)) [
  | inl full ↦
      rw (ok, full, write_from)
        (record {
          took = 0;
          ends = (omega arith, refl, ground (arith, is_full_lem pi v));
          valid = wake-IsValid readers pi v;
          holds = sym (append-nil (contents pi));
          open_same = refl;
        })
  | inr room ↦
      rw (ok, room, write_from)
        (record {
          took = 0;
          ends = (omega arith, refl);
          valid = wake-IsValid readers pi v;
          holds = sym (append-nil (contents pi));
          open_same = refl;
        })
]
write_from-Wrote killed i (some ch ∷ bs) pi v ok = elim (Bool-cases (is_full pi)) [
  | inl full ↦
      rw (ok, full, write_from)
        (record {
          took = 0;
          ends = (omega arith, refl, ground (arith, is_full_lem pi v));
          valid = wake-IsValid readers pi v;
          holds = sym (append-nil (contents pi));
          open_same = refl;
        })
  | inr room ↦
      let (v', grown) = put_lem ch pi v room in
      let rest = write_from-Wrote killed (i + 1) bs (put ch pi) v' (rw (readopen-put ch pi) ok) in
      rw (ok, room, write_from)
        (record {
          took = suc rest.took;
          ends = WriteEnds-suc i rest.took ch bs _ rest.ends;
          valid = rest.valid;
          holds =
              rest.holds
              ∙ ap (λ l. l ++ taken rest.took bs) grown
              ∙ append_assoc (contents pi) (ch ∷ []) (taken rest.took bs);
          open_same = rest.open_same ∙ readopen-put ch pi;
        })
]

-- A call of `pipewrite` on an open pipe by a process that is not killed takes the bytes of its
-- buffer in order, and comes back when all are in or the next one faults; it sleeps only when
-- exactly PIPESIZE bytes are in the pipe.
pub pipewrite-Wrote :
    (killed : Bool) (bs : List (Option ℕ)) (pi : Pipe)
    → IsValid pi
    → (not pi.readopen || killed) ≡ false
    → Wrote pi 0 bs (pipewrite killed bs pi)
unfolding pipewrite
pipewrite-Wrote killed bs pi v ok = write_from-Wrote killed 0 bs pi v ok

-- `pipewrite` refuses a byte when nobody can read it any more, or when its caller is to die; the pipe
-- is as it was.
pub pipewrite-refused :
    (killed : Bool) (b : Option ℕ) (bs : List (Option ℕ)) (pi : Pipe)
    → (not pi.readopen || killed) ≡ true
    → pipewrite killed (b ∷ bs) pi ≡ write_failed pi
unfolding pipewrite write_from
pipewrite-refused killed none bs pi h = rw h
pipewrite-refused killed (some ch) bs pi h = rw (h, write_from)
