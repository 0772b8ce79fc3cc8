-- ===== src/Log/Space.antt =====
-- kernel/log.c: the operations under way share the space of the log, and none runs out of it.
use osmini_project.Base.{
  ◌^◌, subst, some-injective, ℕ, zero, suc, ◌+◌, ◌*◌, ◌-◌, ◌≤◌, ◌<◌, ◌≡◌, refl, sym, ap, ◌∙◌, inl,
  inr, Bool, true, false, List, [], ◌∷◌, some, arith, ◌==◌, ltb, leb, Bool-cases, All, All-modify,
  length, length-modify, modify, get_or, sub32,
}
use osmini_project.Log.{
  Log, logblocks, maxopblocks, begin_op, absorb, log_write, end_op, end_commit,
}

abbrev pub sum : List ℕ → ℕ
sum [] = 0
sum (n ∷ ns) = n + sum ns

abbrev pub remove : List ℕ → ℕ → List ℕ
remove [] i = []
remove (n ∷ ns) zero = ns
remove (n ∷ ns) (suc i) = n ∷ remove ns i

-- The log after `initlog`.
abbrev pub new_log : Log
new_log = record { outstanding = 0; committing = false; lh = [] }

-- The states of the log, with the number of blocks that each operation under way may still write: an
-- operation writes at most MAXOPBLOCKS.
pub data Reachable : Log → List ℕ → Type 0 where
  starts : Reachable new_log []
  begins :
      {l l' : Log} {left : List ℕ}
      → Reachable l left
      → begin_op l ≡ some l'
      → Reachable l' (maxopblocks ∷ left)
  writes :
      {l l' : Log} {left : List ℕ} (b i : ℕ)
      → Reachable l left
      → 0 < get_or left i 0
      → log_write b l ≡ some l'
      → Reachable l' (modify left i (λ n. n - 1))
  ends :
      {l l' : Log} {left : List ℕ} {commits_now : Bool} (i : ℕ)
      → Reachable l left
      → i < length left
      → end_op l ≡ some (l', commits_now)
      → Reachable l' (remove left i)
  commits :
      {l : Log} {left : List ℕ}
      → Reachable l left
      → l.committing ≡ true
      → Reachable (end_commit l) left

pub record HasRoom (l : Log) (left : List ℕ) : Type 0 where
  pub count : l.outstanding ≡ length left
  pub room : length l.lh + sum left ≤ logblocks
  pub few : length left ≤ 3
  pub each : All (λ n. n ≤ maxopblocks) left
  pub quiet : l.committing ≡ true → length left ≡ 0

length-absorb : (b : ℕ) (lh : List ℕ) → length (absorb b lh) ≤ length lh + 1
unfolding absorb
length-absorb b [] = omega arith
length-absorb b (x ∷ lh) = ground (arith, length-absorb b lh)

sum-each : (left : List ℕ) → All (λ n. n ≤ maxopblocks) left → sum left ≤ length left * maxopblocks
sum-each [] h = omega arith
sum-each (n ∷ left) h = omega (arith, h.0, sum-each left h.1)

sum-modify :
    (left : List ℕ) (i : ℕ) → 0 < get_or left i 0 → sum (modify left i (λ n. n - 1)) + 1 ≡ sum left
sum-modify [] i h = absurd (omega arith)
sum-modify (n ∷ left) zero h = omega arith
sum-modify (n ∷ left) (suc i) h = omega (arith, sum-modify left i h)

sum-remove : (left : List ℕ) (i : ℕ) → sum (remove left i) ≤ sum left
sum-remove [] i = omega arith
sum-remove (n ∷ left) zero = omega arith
sum-remove (n ∷ left) (suc i) = omega (arith, sum-remove left i)

length-remove : (left : List ℕ) (i : ℕ) → i < length left → length (remove left i) + 1 ≡ length left
length-remove [] i h = absurd (omega arith)
length-remove (n ∷ left) zero h = omega arith
length-remove (n ∷ left) (suc i) h = omega (arith, length-remove left i (omega arith))

All-remove : (P : ℕ → Type 0) (left : List ℕ) (i : ℕ) → All P left → All P (remove left i)
All-remove P [] i h = h
All-remove P (n ∷ left) zero h = h.1
All-remove P (n ∷ left) (suc i) h = (h.0, All-remove P left i h.1)

begin_op-eq-some :
    (l : Log) {l' : Log}
    → begin_op l ≡ some l'
    → (l' ≡ record l { outstanding = l.outstanding + 1; committing = false })
      × (l.committing ≡ false)
      × (length l.lh + (l.outstanding + 1) * maxopblocks ≤ logblocks)
unfolding begin_op
begin_op-eq-some l e = elim (Bool-cases l.committing) [
  | inl c ↦ cc (rw c at e)
  | inr c ↦ elim (Bool-cases (ltb logblocks (length l.lh + (l.outstanding + 1) * maxopblocks))) [
    | inl full ↦ cc (rw (c, full) at e)
    | inr fits ↦ (sym (some-injective _ _ (rw (c, fits) at e)), c, ground arith)
  ]
]

log_write-eq-some :
    (b : ℕ) (l : Log) {l' : Log} → log_write b l ≡ some l' → l' ≡ record l { lh = absorb b l.lh }
unfolding log_write
log_write-eq-some b l e = elim (Bool-cases (leb logblocks (length l.lh))) [
  | inl full ↦ cc (rw full at e)
  | inr fits ↦ elim (Bool-cases (ltb l.outstanding 1)) [
    | inl outside ↦ cc (rw (fits, outside) at e)
    | inr inside ↦ sym (some-injective _ _ (rw (fits, inside) at e))
  ]
]

begin_op-HasRoom :
    {l l' : Log} {left : List ℕ}
    → HasRoom l left
    → begin_op l ≡ some l'
    → HasRoom l' (maxopblocks ∷ left)
begin_op-HasRoom {l} {l'} {left} v e =
    let (same, not_busy, fits) = begin_op-eq-some l e in
    subst (λ l. HasRoom l (maxopblocks ∷ left)) (sym same)
      (record {
        count = omega (arith, v.count);
        room = omega (arith, v.count, fits, sum-each left v.each);
        few = omega (arith, v.count, fits);
        each = (omega arith, v.each);
        quiet = λ c. cc;
      })

log_write-HasRoom :
    (b i : ℕ) {l l' : Log} {left : List ℕ}
    → HasRoom l left
    → 0 < get_or left i 0
    → log_write b l ≡ some l'
    → HasRoom l' (modify left i (λ n. n - 1))
log_write-HasRoom b i {l} {l'} {left} v more e =
    subst (λ l. HasRoom l (modify left i (λ n. n - 1))) (sym (log_write-eq-some b l e))
      (record {
        count = v.count ∙ sym (length-modify left i (λ n. n - 1));
        room = omega (arith, v.room, length-absorb b l.lh, sum-modify left i more);
        few = omega (arith, v.few, length-modify left i (λ n. n - 1));
        each = All-modify (λ n. n ≤ maxopblocks) (λ n. n - 1) (λ n h. omega arith) left i v.each;
        quiet = λ c. length-modify left i (λ n. n - 1) ∙ v.quiet c;
      })

end_op-eq-some :
    (l : Log) {l' : Log} {now : Bool}
    → 0 < l.outstanding
    → l.outstanding < 2 ^ 32
    → end_op l ≡ some (l', now)
    → (l'.outstanding + 1 ≡ l.outstanding)
      × (l'.lh ≡ l.lh)
      × (l'.committing ≡ true → l'.outstanding ≡ 0)
      × (l.committing ≡ false)
unfolding end_op
end_op-eq-some l {l'} pos small e = elim (Bool-cases l.committing) [
  | inl c ↦ cc (rw c at e)
  | inr c ↦ elim (Bool-cases (sub32 l.outstanding 1 == 0)) [
    | inl last ↦
        let same = some-injective _ _ (rw (c, last) at e) in
        subst
          (λ (l' : Log).
            (l'.outstanding + 1 ≡ l.outstanding)
            × (l'.lh ≡ l.lh)
            × (l'.committing ≡ true → l'.outstanding ≡ 0)
            × (l.committing ≡ false))
          (ap (λ (r : Log × Bool). r.0) same) (ground arith, refl, λ _. refl, c)
    | inr others ↦
        let same = some-injective _ _ (rw (c, others) at e) in
        subst
          (λ (l' : Log).
            (l'.outstanding + 1 ≡ l.outstanding)
            × (l'.lh ≡ l.lh)
            × (l'.committing ≡ true → l'.outstanding ≡ 0)
            × (l.committing ≡ false))
          (ap (λ (r : Log × Bool). r.0) same) (ground arith, refl, λ on. cc, c)
  ]
]

end_op-HasRoom :
    (i : ℕ) {l l' : Log} {left : List ℕ} {now : Bool}
    → HasRoom l left
    → i < length left
    → end_op l ≡ some (l', now)
    → HasRoom l' (remove left i)
end_op-HasRoom i {l} {l'} {left} v lt e =
    let small : l.outstanding < 2 ^ 32 = omega (arith, v.count, v.few) in
    let (fewer, same, last, _) = end_op-eq-some l (omega (arith, v.count)) small e in
    let one_less = length-remove left i lt in
    record {
      count = omega (arith, v.count);
      room = rw same (omega (arith, v.room, sum-remove left i));
      few = omega (arith, v.few);
      each = All-remove (λ n. n ≤ maxopblocks) left i v.each;
      quiet = λ on. let none_left = last on in omega (arith, v.count);
    }

-- In every state that can come about the log has room for all that the operations under way may still
-- write, there are at most three of them, and none while it commits.
pub Reachable-HasRoom : {l : Log} {left : List ℕ} → Reachable l left → HasRoom l left
unfolding end_commit
Reachable-HasRoom starts = record {
  count = refl;
  room = omega arith;
  few = omega arith;
  each = tt;
  quiet = λ e. cc;
}
Reachable-HasRoom (begins r e) = begin_op-HasRoom (Reachable-HasRoom r) e
Reachable-HasRoom (writes b i r more e) = log_write-HasRoom b i (Reachable-HasRoom r) more e
Reachable-HasRoom (ends i r lt e) = end_op-HasRoom i (Reachable-HasRoom r) lt e
Reachable-HasRoom (commits r e) =
    let v = Reachable-HasRoom r in
    record {
      count = v.count;
      room = omega (arith, v.room);
      few = v.few;
      each = v.each;
      quiet = λ on. cc;
    }

-- In every state that can come about, `end_op` of an operation under way does not panic, and commits
-- exactly when it is the last one.
pub end_op_succeeds :
    (i : ℕ) {l : Log} {left : List ℕ}
    → Reachable l left
    → i < length left
    → end_op l
      ≡ some (
        record l { outstanding = length left - 1; committing = length left == 1 },
        length left == 1,
      )
unfolding end_op
end_op_succeeds i {l} {left} r lt =
    let v = Reachable-HasRoom r in
    elim (Bool-cases l.committing) [
      | inl busy ↦ absurd (omega (arith, v.quiet busy))
      | inr idle ↦
          let small : l.outstanding < 2 ^ 32 = omega (arith, v.count, v.few) in
          let fewer : sub32 l.outstanding 1 ≡ length left - 1 = omega (arith, v.count, lt) in
          elim (Bool-cases (length left == 1)) [
            | inl one ↦
                let none_left : length left - 1 ≡ 0 = ground arith in
                rw (idle, fewer, none_left, one)
            | inr more ↦
                let some_left : (length left - 1 == 0) ≡ false = ground (arith, lt) in
                rw (idle, fewer, some_left, more)
          ]
    ]
