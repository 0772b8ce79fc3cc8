-- ===== src/Pipe/Stream.antt =====
-- kernel/pipe.c: in every order of calls, what is read from a pipe is what was written to it.
use osmini_project.Base.{
  ℕ, ◌≡◌, refl, sym, ap, ◌∙◌, inl, inr, Bool, true, false, not, ◌||◌, Option, List, [], ◌∷◌, ◌++◌,
  append_assoc, append-nil, arith, length, Bool-cases,
}
use mathlib.Core.List.{reverse}
use osmini_project.Pipe.{
  Pipe, readers, pipesize, Written, wrote, write_failed, write_sleeps, write_from, pipewrite, Read,
  read_done, read_failed, read_sleeps, piperead, pipeclose, new_pipe,
}
use osmini_project.Pipe.Ring.{IsValid, contents}
use osmini_project.Pipe.Writing.{
  taken, pipe_written, wake-IsValid, Wrote, pipewrite-Wrote, pipewrite-refused,
}
use osmini_project.Pipe.Reading.{ReadCall, piperead-ReadCall}

-- A call on the pipe, by a process that is killed or not, with what `copyin` and `copyout` give for
-- the bytes of its buffer. A call that sleeps comes back as a new one with the bytes left.
pub data Call : Type 0 where
  writes : (killed : Bool) → List (Option ℕ) → Call
  reads : (killed : Bool) → List Bool → Call
  closes : (writable : Bool) → Call

-- The pipe, and all that has gone in and come out of it.
pub record History : Type 0 where
  pub pipe : Pipe
  pub sent : List ℕ
  pub received : List ℕ

abbrev pub written : List (Option ℕ) → Written → List ℕ
written bs (wrote n pi) = taken n bs
written bs (write_failed pi) = []
written bs (write_sleeps n rest pi) = taken n bs

abbrev pub bytes_read : Read → List ℕ
bytes_read (read_done r out pi) = reverse out
bytes_read (read_failed pi) = []
bytes_read (read_sleeps pi) = []

abbrev pub pipe_read : Read → Pipe
pipe_read (read_done r out pi) = pi
pipe_read (read_failed pi) = pi
pipe_read (read_sleeps pi) = pi

unfoldable pub step : History → Call → History
step h (writes killed bs) =
    let out = pipewrite killed bs h.pipe in
    record h { pipe = pipe_written out; sent = h.sent ++ written bs out }
step h (reads killed ds) =
    let out = piperead killed ds h.pipe in
    record h { pipe = pipe_read out; received = h.received ++ bytes_read out }
step h (closes writable) = record h { pipe = (pipeclose writable h.pipe).0 }

unfoldable pub run : History → List Call → History
run h [] = h
run h (c ∷ cs) = run (step h c) cs

-- A pipe is valid, and what was sent is what was received and then what it holds.
pub record IsStream (h : History) : Type 0 where
  pub valid : IsValid h.pipe
  pub balance : h.sent ≡ h.received ++ contents h.pipe

Wrote-written :
    (pi : Pipe) (bs : List (Option ℕ)) (out : Written) (w : Wrote pi 0 bs out)
    → contents (pipe_written out) ≡ contents pi ++ written bs out
Wrote-written pi bs (wrote n pi') w = rw same w.holds
  where
    same : n ≡ w.took
    same = omega (arith, w.ends.0)
Wrote-written pi bs (write_failed pi') w = absurd w.ends
Wrote-written pi bs (write_sleeps n rest pi') w = rw same w.holds
  where
    same : n ≡ w.took
    same = omega (arith, w.ends.0)

-- Each call keeps what was sent, received and held in balance.
Written-IsStream :
    (h : History) (bs : List (Option ℕ)) (out : Written)
    → IsStream h
    → Wrote h.pipe 0 bs out
    → IsStream (record h { pipe = pipe_written out; sent = h.sent ++ written bs out })
Written-IsStream h bs out v w = record {
  valid = w.valid;
  balance =
      ap (λ l. l ++ written bs out) v.balance
      ∙ append_assoc h.received (contents h.pipe) (written bs out)
      ∙ ap (λ l. h.received ++ l) (sym (Wrote-written h.pipe bs out w));
}

writes-IsStream :
    (h : History) (killed : Bool) (bs : List (Option ℕ))
    → IsStream h
    → IsStream (step h (writes killed bs))
unfolding step
writes-IsStream h killed [] v =
    unfold pipewrite write_from in
    record { valid = wake-IsValid readers h.pipe v.valid; balance = append-nil h.sent ∙ v.balance }
writes-IsStream h killed (b ∷ bs) v = elim (Bool-cases (not h.pipe.readopen || killed)) [
  | inl refused ↦
      rw (pipewrite-refused killed b bs h.pipe refused)
        (record { valid = v.valid; balance = append-nil h.sent ∙ v.balance })
  | inr ok ↦ Written-IsStream h (b ∷ bs) _ v (pipewrite-Wrote killed (b ∷ bs) h.pipe v.valid ok)
]

Read-IsStream :
    (h : History) (killed : Bool) (out : Read)
    → IsStream h
    → ReadCall killed h.pipe out
    → IsStream (record h { pipe = pipe_read out; received = h.received ++ bytes_read out })
Read-IsStream h killed (read_done r out pi) v e = record {
  valid = e.0;
  balance =
      v.balance
      ∙ ap (λ l. h.received ++ l) (sym e.1)
      ∙ sym (append_assoc h.received (reverse out) (contents pi));
}
Read-IsStream h killed (read_failed pi) v e = record {
  valid = rw e.0 v.valid;
  balance = rw (append-nil h.received, e.0) v.balance;
}
Read-IsStream h killed (read_sleeps pi) v e = record {
  valid = rw e.0 v.valid;
  balance = rw (append-nil h.received, e.0) v.balance;
}

closes-IsStream : (h : History) (writable : Bool) → IsStream h → IsStream (step h (closes writable))
unfolding step pipeclose
closes-IsStream h true v = record { valid = ground (arith, v.valid); balance = v.balance }
closes-IsStream h false v = record { valid = ground (arith, v.valid); balance = v.balance }

step-IsStream : (h : History) (c : Call) → IsStream h → IsStream (step h c)
step-IsStream h (writes killed bs) v = writes-IsStream h killed bs v
step-IsStream h (reads killed ds) v =
    unfold step in Read-IsStream h killed _ v (piperead-ReadCall killed ds h.pipe v.valid)
step-IsStream h (closes writable) v = closes-IsStream h writable v

run-keeps : (h : History) (cs : List Call) → IsStream h → IsStream (run h cs)
unfolding run
run-keeps h [] v = v
run-keeps h (c ∷ cs) v = run-keeps (step h c) cs (step-IsStream h c v)

-- In every sequence of calls on a new pipe, by any processes, the bytes that come out are those that
-- went in, in order: what is not out yet is in the pipe, and that is at most PIPESIZE bytes.
pub run-IsStream :
    (page : List ℕ) (cs : List Call)
    → length page ≡ pipesize
    → IsStream (run (record { pipe = new_pipe page; sent = []; received = [] }) cs)
run-IsStream page cs size = run-keeps _ cs (record { valid = ground arith; balance = refl })
