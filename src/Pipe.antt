-- ===== src/Pipe.antt =====
-- kernel/pipe.c: a pipe, its ring of bytes with counters that wrap, and the calls on it. A call runs
-- under the lock of the pipe until it returns or sleeps; a sleep is a result, with what is left to do.
pub mod Ring
pub mod Writing
pub mod Reading
pub mod Stream
mod Tests
use osmini_project.Base.{
  ℕ, ◌+◌, ◌%◌, Bool, true, false, not, ◌&&◌, ◌||◌, List, [], ◌∷◌, Option, none, some, get_or, set,
  replicate, ◌==◌, if◌then◌else◌, add32, minus_one,
}

-- PIPESIZE.
abbrev pub pipesize : ℕ
pipesize = 512

-- The two channels of a pipe: `&pi->nread`, where readers sleep, and `&pi->nwrite`.
pub data Side : Type 0 where
  readers writers : Side

-- `struct pipe`, with the calls of `wakeup` so far, the latest first.
pub record Pipe : Type 0 where
  pub buf : List ℕ
  pub nread : ℕ
  pub nwrite : ℕ
  pub readopen : Bool
  pub writeopen : Bool
  pub woken : List Side

-- What `pipealloc` writes to the page of a new pipe.
abbrev pub new_pipe : List ℕ → Pipe
new_pipe page = record {
  buf = page;
  nread = 0;
  nwrite = 0;
  readopen = true;
  writeopen = true;
  woken = [];
}

abbrev pub wake : Side → Pipe → Pipe
wake side pi = record pi { woken = side ∷ pi.woken }

abbrev pub is_full : Pipe → Bool
is_full pi = pi.nwrite == add32 pi.nread pipesize

abbrev pub is_empty : Pipe → Bool
is_empty pi = pi.nread == pi.nwrite

-- `pi->data[pi->nwrite++ % PIPESIZE] = ch`.
unfoldable pub put : ℕ → Pipe → Pipe
put ch pi = record pi { buf = set pi.buf (pi.nwrite % pipesize) ch; nwrite = add32 pi.nwrite 1 }

-- `pi->data[pi->nread % PIPESIZE]`.
unfoldable pub front : Pipe → ℕ
front pi = get_or pi.buf (pi.nread % pipesize) 0

-- `pi->nread++`.
unfoldable pub drop_front : Pipe → Pipe
drop_front pi = record pi { nread = add32 pi.nread 1 }

pub data Written : Type 0 where
  wrote : (count : ℕ) → Pipe → Written
  write_failed : Pipe → Written
  write_sleeps : (count : ℕ) (rest : List (Option ℕ)) → Pipe → Written

-- The loop of `pipewrite`, at its byte `i`. The list is what `copyin` gives for the bytes that are
-- left, `none` for a fault.
unfoldable pub write_from : (killed : Bool) (i : ℕ) → List (Option ℕ) → Pipe → Written
write_from killed i [] pi = wrote i (wake readers pi)
write_from killed i (none ∷ bs) pi =
    if not pi.readopen || killed
    then write_failed pi
    else if is_full pi
    then write_sleeps i (none ∷ bs) (wake readers pi)
    else wrote i (wake readers pi)
write_from killed i (some ch ∷ bs) pi =
    let rest = write_from killed (i + 1) bs (put ch pi) in
    if not pi.readopen || killed
    then write_failed pi
    else if is_full pi
    then write_sleeps i (some ch ∷ bs) (wake readers pi)
    else rest

unfoldable pub pipewrite : Bool → List (Option ℕ) → Pipe → Written
unfolding write_from
pipewrite killed bs pi = write_from killed 0 bs pi

pub data Read : Type 0 where
  read_done : (result : ℕ) (bytes : List ℕ) → Pipe → Read
  read_failed : Pipe → Read
  read_sleeps : Pipe → Read

-- The loop of `piperead` that copies, at its byte `i`; the list says for each byte that is left to
-- read whether `copyout` takes it. `bytes` are those copied out so far, the latest first.
unfoldable pub read_from : (i : ℕ) → List Bool → (bytes : List ℕ) → Pipe → Read
read_from i [] bytes pi = read_done i bytes (wake writers pi)
read_from i (false ∷ ds) bytes pi =
    if is_empty pi
    then read_done i bytes (wake writers pi)
    else read_done (if i == 0 then minus_one else i) bytes (wake writers pi)
read_from i (true ∷ ds) bytes pi =
    let rest = read_from (i + 1) ds (front pi ∷ bytes) (drop_front pi) in
    if is_empty pi then read_done i bytes (wake writers pi) else rest

unfoldable pub piperead : Bool → List Bool → Pipe → Read
unfolding read_from
piperead killed ds pi =
    if is_empty pi && pi.writeopen
    then (if killed then read_failed pi else read_sleeps pi)
    else read_from 0 ds [] pi

-- `pipeclose`: the pipe, and whether its page is freed.
unfoldable pub pipeclose : (writable : Bool) → Pipe → Pipe × Bool
pipeclose writable pi =
    let pi' =
      if writable
      then wake readers (record pi { writeopen = false })
      else wake writers (record pi { readopen = false }) in
    (pi', not pi'.readopen && not pi'.writeopen)
