-- ===== src/Pipe/Reading.antt =====
-- kernel/pipe.c: `piperead` takes bytes off the front of the pipe.
use osmini_project.Base.{
  ℕ, ◌+◌, ◌≡◌, refl, ◌∙◌, ◌⊎◌, inl, inr, Bool, true, false, ◌&&◌, List, [], ◌∷◌, ◌++◌, append_assoc,
  arith, length, Bool-cases, if◌then◌else◌, ◌==◌, minus_one,
}
use mathlib.Core.List.{reverse, reverse-cons}
use osmini_project.Pipe.{
  Pipe, writers, is_empty, front, drop_front, Read, read_done, read_failed, read_sleeps, read_from,
  piperead,
}
use osmini_project.Pipe.Ring.{IsValid, contents, count, drop_front_lem, is_empty_lem}
use osmini_project.Pipe.Writing.{wake-IsValid}

-- What a run of the copying loop of `piperead` ends with, given the bytes copied so far: nothing is
-- lost or made up, and the result is the number of bytes copied, or -1 if the first one faults.
abbrev pub ReadEnds : (pi : Pipe) (bytes : List ℕ) → Read → Type 0
ReadEnds pi bytes (read_done r out pi') =
    IsValid pi'
    × (reverse out ++ contents pi' ≡ reverse bytes ++ contents pi)
    × ((r ≡ length out) ⊎ ((r ≡ minus_one) × (out ≡ [])))
ReadEnds pi bytes (read_failed pi') = ⊥
ReadEnds pi bytes (read_sleeps pi') = ⊥

ReadEnds-drop :
    (pi : Pipe) (bytes : List ℕ) (out : Read)
    → contents pi ≡ front pi ∷ contents (drop_front pi)
    → ReadEnds (drop_front pi) (front pi ∷ bytes) out
    → ReadEnds pi bytes out
ReadEnds-drop pi bytes (read_done r out pi') first e =
    (e.0, e.1 ∙ rw (reverse-cons (front pi) bytes, append_assoc, first) refl, e.2)
ReadEnds-drop pi bytes (read_failed pi') first e = e
ReadEnds-drop pi bytes (read_sleeps pi') first e = e

read_from-ReadEnds :
    (i : ℕ) (ds : List Bool) (bytes : List ℕ) (pi : Pipe)
    → IsValid pi
    → i ≡ length bytes
    → ReadEnds pi bytes (read_from i ds bytes pi)
unfolding read_from
read_from-ReadEnds i [] bytes pi v e = (wake-IsValid writers pi v, refl, inl e)
read_from-ReadEnds i (false ∷ ds) bytes pi v e = elim (Bool-cases (is_empty pi)) [
  | inl empty ↦ rw (empty, read_from) (wake-IsValid writers pi v, refl, inl e)
  | inr more ↦ rw (more, read_from) (wake-IsValid writers pi v, refl, fault bytes e)
]
  where
    fault :
        (bytes : List ℕ)
        → i ≡ length bytes
        → ((if i == 0 then minus_one else i) ≡ length bytes)
          ⊎ (((if i == 0 then minus_one else i) ≡ minus_one) × (bytes ≡ []))
    fault [] e = inr (ground arith, refl)
    fault (b ∷ bytes) e = inl (ground arith)
read_from-ReadEnds i (true ∷ ds) bytes pi v e = elim (Bool-cases (is_empty pi)) [
  | inl empty ↦ rw (empty, read_from) (wake-IsValid writers pi v, refl, inl e)
  | inr more ↦
      let (v', first) = drop_front_lem pi v more in
      rw (more, read_from)
        (ReadEnds-drop pi bytes _ first
          (read_from-ReadEnds (i + 1) ds (front pi ∷ bytes) (drop_front pi) v' (omega arith)))
]

-- What a call of `piperead` comes to.
abbrev pub ReadCall : (killed : Bool) → Pipe → Read → Type 0
ReadCall killed pi (read_done r out pi') = ReadEnds pi [] (read_done r out pi')
ReadCall killed pi (read_failed pi') =
    (pi' ≡ pi) × (killed ≡ true) × (contents pi ≡ []) × (pi.writeopen ≡ true)
ReadCall killed pi (read_sleeps pi') =
    (pi' ≡ pi) × (killed ≡ false) × (contents pi ≡ []) × (pi.writeopen ≡ true)

refused-or-sleeps :
    (killed : Bool) (pi : Pipe)
    → contents pi ≡ []
    → pi.writeopen ≡ true
    → ReadCall killed pi (if killed then read_failed pi else read_sleeps pi)
refused-or-sleeps true pi empty open_end = (refl, refl, empty, open_end)
refused-or-sleeps false pi empty open_end = (refl, refl, empty, open_end)

contents-empty : (pi : Pipe) → IsValid pi → is_empty pi ≡ true → contents pi ≡ []
contents-empty pi v empty =
    let none_left : count pi ≡ 0 = ground (arith, is_empty_lem pi v) in rw none_left

ReadEnds-ReadCall :
    (killed : Bool) (pi : Pipe) (out : Read) → ReadEnds pi [] out → ReadCall killed pi out
ReadEnds-ReadCall killed pi (read_done r out pi') e = e
ReadEnds-ReadCall killed pi (read_failed pi') e = absurd e
ReadEnds-ReadCall killed pi (read_sleeps pi') e = absurd e

-- A call of `piperead` sleeps only on an empty pipe with its write end open, is refused only to a
-- killed process in that state, and otherwise takes bytes off the front of the pipe; its result is
-- their number, or -1 if the first one faults.
pub piperead-ReadCall :
    (killed : Bool) (ds : List Bool) (pi : Pipe)
    → IsValid pi
    → ReadCall killed pi (piperead killed ds pi)
unfolding piperead
piperead-ReadCall killed ds pi v = elim (Bool-cases (is_empty pi && pi.writeopen)) [
  | inl waits ↦
      rw (waits, piperead)
        (refused-or-sleeps killed pi (contents-empty pi v (ground arith)) (ground arith))
  | inr ready ↦
      rw (ready, piperead) (ReadEnds-ReadCall killed pi _ (read_from-ReadEnds 0 ds [] pi v refl))
]
