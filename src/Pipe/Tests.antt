-- ===== src/Pipe/Tests.antt =====
-- Runs of the model of kernel/pipe.c, and its theorems at concrete pipes.
use osmini_project.Base.{
  ℕ, ◌≡◌, refl, true, false, none, some, List, [], ◌∷◌, ◌++◌, arith, replicate,
}
use osmini_project.Pipe.{
  Pipe, new_pipe, put, front, drop_front, pipewrite, piperead, pipeclose, write_failed,
}
use osmini_project.Pipe.Ring.{IsValid, contents}
use osmini_project.Pipe.Writing.{Wrote, pipewrite-Wrote, pipewrite-refused}
use osmini_project.Pipe.Reading.{ReadCall, piperead-ReadCall}
use osmini_project.Pipe.Stream.{Call, writes, reads, closes, step, run, IsStream, run-IsStream}

abbrev page : List ℕ
page = replicate 512 5

-- The counters are about to wrap: 65 is in the ring, and the next byte goes to index 0.
abbrev wrapping : Pipe
wrapping = record {
  buf = replicate 511 0 ++ 65 ∷ [];
  nread = 0xffffffff;
  nwrite = 0;
  readopen = true;
  writeopen = true;
  woken = [];
}

wrapping-IsValid : IsValid wrapping
wrapping-IsValid = record {
  room = refl;
  read_range = omega arith;
  write_range = omega arith;
  bounded = omega arith;
}

wrapping_holds : contents wrapping ≡ 65 ∷ []
wrapping_holds = refl

pipewrite-Wrote_run :
    Wrote wrapping 0 (some 66 ∷ none ∷ []) (pipewrite false (some 66 ∷ none ∷ []) wrapping)
pipewrite-Wrote_run = pipewrite-Wrote false (some 66 ∷ none ∷ []) wrapping wrapping-IsValid refl

killed_write : pipewrite true (some 66 ∷ []) wrapping ≡ write_failed wrapping
killed_write = pipewrite-refused true (some 66) [] wrapping refl

piperead-ReadCall_run : ReadCall false wrapping (piperead false (true ∷ true ∷ []) wrapping)
piperead-ReadCall_run = piperead-ReadCall false (true ∷ true ∷ []) wrapping wrapping-IsValid

abbrev calls : List Call
calls =
    writes false (some 72 ∷ some 105 ∷ [])
    ∷ reads false (true ∷ [])
    ∷ closes true
    ∷ reads false (true ∷ true ∷ [])
    ∷ []

run_received :
    (run (record { pipe = new_pipe page; sent = []; received = [] }) calls).received ≡ 72 ∷ 105 ∷ []
unfolding run step pipewrite piperead pipeclose put front drop_front
run_received = refl

run-IsStream_example :
    IsStream (run (record { pipe = new_pipe page; sent = []; received = [] }) calls)
run-IsStream_example = run-IsStream page calls refl
