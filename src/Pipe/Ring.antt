-- ===== src/Pipe/Ring.antt =====
-- kernel/pipe.c: the ring with its wrapping counters holds a queue of bytes.
use osmini_project.Base.{
  ℕ, zero, suc, ◌+◌, ◌%◌, ◌^◌, ◌≤◌, ◌<◌, ◌≡◌, refl, ap, ap₂, false, List, [], ◌∷◌, ◌++◌, arith,
  length, length-set, get_or, set, get_or-set_self, get_or-set_ne, sub32, add32, ◌==◌,
}
use osmini_project.Pipe.{Pipe, pipesize, is_full, is_empty, put, front, drop_front}

-- The bytes in the pipe.
abbrev pub count : Pipe → ℕ
count pi = sub32 pi.nwrite pi.nread

pub record IsValid (pi : Pipe) : Type 0 where
  pub room : length pi.buf ≡ pipesize
  pub read_range : pi.nread < 2 ^ 32
  pub write_range : pi.nwrite < 2 ^ 32
  pub bounded : count pi ≤ pipesize

-- The `n` bytes from the counter `r` on.
abbrev pub window : List ℕ → ℕ → ℕ → List ℕ
window buf r zero = []
window buf r (suc n) = get_or buf (r % pipesize) 0 ∷ window buf (add32 r 1) n

abbrev pub contents : Pipe → List ℕ
contents pi = window pi.buf pi.nread (count pi)

pub length-window : (buf : List ℕ) (r n : ℕ) → length (window buf r n) ≡ n
length-window buf r zero = refl
length-window buf r (suc n) = ap suc (length-window buf (add32 r 1) n)

-- A write just past a window that is not full extends it.
window-set :
    (buf : List ℕ) (ch r n i : ℕ)
    → length buf ≡ pipesize
    → n < pipesize
    → i ≡ (r + n) % pipesize
    → window (set buf i ch) r (suc n) ≡ window buf r n ++ ch ∷ []
window-set buf ch r zero i room lt e =
    let same : i ≡ r % pipesize = omega arith in
    rw (same, get_or-set_self buf (r % pipesize) ch 0 (omega arith))
window-set buf ch r (suc n) i room lt e =
    ap₂ ◌∷◌ (get_or-set_ne buf ch 0 (omega arith))
      (window-set buf ch (add32 r 1) n i room (omega arith) (omega arith))

-- A pipe that is not full takes a byte at its end.
pub put_lem :
    (ch : ℕ) (pi : Pipe)
    → IsValid pi
    → is_full pi ≡ false
    → IsValid (put ch pi) × (contents (put ch pi) ≡ contents pi ++ ch ∷ [])
unfolding put
put_lem ch pi v room =
    let grown : count (put ch pi) ≡ suc (count pi) = ground (arith, v) in
    (
      ground (arith, length-set pi.buf (pi.nwrite % pipesize) ch),
      rw grown (
          window-set pi.buf ch pi.nread (count pi) (pi.nwrite % pipesize) v.room (ground arith)
            (omega (arith, v))),
    )

-- A pipe that is not empty gives its first byte up.
pub drop_front_lem :
    (pi : Pipe)
    → IsValid pi
    → is_empty pi ≡ false
    → IsValid (drop_front pi) × (contents pi ≡ front pi ∷ contents (drop_front pi))
unfolding drop_front front
drop_front_lem pi v more =
    let fewer : count pi ≡ suc (count (drop_front pi)) = ground (arith, v) in
    (ground arith, rw fewer refl)

-- The test for a full ring, and for an empty one, are right also when the counters have wrapped.
pub is_full_lem : (pi : Pipe) → IsValid pi → is_full pi ≡ (count pi == pipesize)
is_full_lem pi v = ground arith

pub is_empty_lem : (pi : Pipe) → IsValid pi → is_empty pi ≡ (count pi == 0)
is_empty_lem pi v = ground arith
