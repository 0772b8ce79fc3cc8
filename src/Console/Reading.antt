-- ===== src/Console/Reading.antt =====
-- kernel/console.c: `consoleread` takes bytes off the complete lines, up to the end of a line.
use osmini_project.Base.{
  ℕ, zero, suc, ◌+◌, ◌-◌, ◌%◌, ◌≡◌, refl, sym, ap, ◌∙◌, inl, inr, true, false, List, Bool, length,
  [], ◌∷◌, ◌++◌, arith, ◌==◌, ltb, if◌then◌else◌, Bool-cases, length-replicate, replicate, get_or,
  sub32, add32,
}
use osmini_project.Console.{
  Cons, input_buf_size, newline, end_of_file, ReadLine, read_killed, read_sleeps, read_returns,
  read_line,
}
use osmini_project.Console.Ring.{window}
use osmini_project.Console.Spec.{typed_of, IsValid}

-- What a read of complete lines comes to, with the bytes that it gives and those that are left: it is refused,
-- waits for `n` more bytes, or returns a count.
pub data Outcome : Type 0 where
  refused : (given left : List ℕ) → Outcome
  waits : (n : ℕ) (given left : List ℕ) → Outcome
  gives : (result : ℕ) (given left : List ℕ) → Outcome

-- A read of at most `n` more bytes when `given` are read. A ^D ends it; one that comes after other bytes is
-- left for the next read. A newline ends it and is given. Where the lines are used up, a process that is
-- killed is refused.
abbrev pub consume : (killed : Bool) (given : List ℕ) (n : ℕ) → List ℕ → Outcome
consume killed given zero lines = gives (length given) given lines
consume true given (suc n) [] = refused given []
consume false given (suc n) [] = waits (suc n) given []
consume killed given (suc n) (c ∷ lines) =
    if c == end_of_file
    then gives (length given) given (if ltb 0 (length given) then c ∷ lines else lines)
    else if c == newline
    then gives (length given + 1) (given ++ c ∷ []) lines
    else consume killed (given ++ c ∷ []) n lines

abbrev pub outcome : ReadLine → Outcome
outcome (read_killed given k) = refused given (typed_of k).lines
outcome (read_sleeps n given k) = waits n given (typed_of k).lines
outcome (read_returns result given k) = gives result given (typed_of k).lines

-- The state when a byte is read.
abbrev next : Cons → Cons
next k = record k { r = add32 k.r 1 }

next-IsValid : (m : ℕ) (k : Cons) → IsValid k → sub32 k.w k.r ≡ suc m → IsValid (next k)
next-IsValid m k v size = record {
  room = v.room;
  read_range = omega arith;
  write_range = v.write_range;
  edit_range = v.edit_range;
  bounded = omega (arith, v.bounded, v.write_range, v.read_range);
  plain = v.plain;
}

lines-next :
    (m : ℕ) (k : Cons)
    → IsValid k
    → sub32 k.w k.r ≡ suc m
    → (typed_of k).lines ≡ get_or k.buf (k.r % input_buf_size) 0 ∷ (typed_of (next k)).lines
lines-next m k v size =
    let fewer : m ≡ sub32 k.w (add32 k.r 1) = omega (arith, v.write_range, v.read_range) in
    ap (window k.buf k.r) size
    ∙ ap (λ n. get_or k.buf (k.r % input_buf_size) 0 ∷ window k.buf (add32 k.r 1) n) fewer

-- A `consoleread` of at most `n` bytes, where no copy faults, copies the bytes of the complete lines in their
-- order as `consume` says, and leaves the others in the ring; it returns how many it has copied. It sleeps,
-- or returns -1 if the process is killed, only when the complete lines are used up, and has copied them
-- then.
pub read_line_lem :
    (killed : Bool) (n : ℕ) (given : List ℕ) (k : Cons)
    → IsValid k
    → outcome (read_line killed given (replicate n true) k)
      ≡ consume killed given n (typed_of k).lines
unfolding read_line
read_line_lem killed zero given k v = refl
read_line_lem killed (suc n) given k v = elim (Bool-cases (k.r == k.w)) [
  | inl e ↦
      let none_left : sub32 k.w k.r ≡ 0 = ground (arith, v.write_range, v.read_range) in
      elim (Bool-cases killed) [
        | inl dead ↦ rw (e, dead, read_line, none_left) refl
        | inr alive ↦
            rw (e, alive, read_line, none_left)
              (ap (λ m. waits (suc m) given []) (length-replicate n true))
      ]
  | inr e ↦
      let m = sub32 k.w k.r - 1 in
      let size : sub32 k.w k.r ≡ suc m = ground (arith, v.write_range, v.read_range) in
      let c = get_or k.buf (k.r % input_buf_size) 0 in
      let lines = lines-next m k v size in
      let ih = read_line_lem killed n (given ++ c ∷ []) (next k) (next-IsValid m k v size) in
      elim (Bool-cases (c == end_of_file)) [
        | inl eof ↦ elim (Bool-cases (ltb 0 (length given))) [
          | inl later ↦ spec lines (rw (e, eof, later) (ap (gives (length given) given) lines))
          | inr first ↦ spec lines (rw (e, eof, first) refl)
        ]
        | inr e1 ↦ elim (Bool-cases (c == newline)) [
          | inl nl ↦ spec lines (rw (e, e1, nl) refl)
          | inr e2 ↦ spec lines (rw (e, e1, e2) ih)
        ]
      ]
]
  where
    spec :
        {out : Outcome} {xs ys : List ℕ}
        → xs ≡ ys
        → out ≡ consume killed given (suc n) ys
        → out ≡ consume killed given (suc n) xs
    spec same h = h ∙ sym (ap (consume killed given (suc n)) same)
