-- ===== src/Console/Editing.antt =====
-- kernel/console.c: `consoleintr` is a line editor on what was typed.
use osmini_project.Base.{
  ℕ, ◌+◌, ◌-◌, ◌<◌, ◌≡◌, refl, sym, ap, ap₂, ◌∙◌, inl, inr, Bool, not, ◌&&◌, ◌||◌, arith, ◌==◌, ltb,
  if◌then◌else◌, Bool-cases, length, sub32,
}
use osmini_project.Console.{
  Cons, input_buf_size, newline, erase, store_char, commit_line, type_char, consoleintr,
}
use osmini_project.Console.Ring.{window, length-window, drop_last}
use osmini_project.Console.Spec.{typed_of, ends_line, append_char, edit, IsValid, Edits}
use osmini_project.Console.Erasing.{erase-Edits, kill_line-Edits}
use osmini_project.Console.Storing.{go_on-Edits, commit-Edits}

size-Typed :
    (k : Cons)
    → length (typed_of k).lines + length (typed_of k).line ≡ sub32 k.w k.r + sub32 k.e k.w
size-Typed k =
    ap₂ ◌+◌ (length-window k.buf k.r (sub32 k.w k.r)) (length-window k.buf k.w (sub32 k.e k.w))

append_char-Edits :
    (ch : ℕ) (k : Cons)
    → IsValid k
    → sub32 k.w k.r + sub32 k.e k.w < input_buf_size
    → Edits
        (if ends_line ch (sub32 (store_char ch k).e (store_char ch k).r)
          then commit_line (store_char ch k)
          else store_char ch k)
        (append_char ch (typed_of k))
append_char-Edits ch k v lt =
    let size : sub32 (store_char ch k).e (store_char ch k).r
        ≡ length (typed_of k).lines + length (typed_of k).line + 1 =
      unfold store_char in omega (arith, size-Typed k, v.edit_range, v.write_range, v.read_range) in
    elim (Bool-cases (ends_line ch (length (typed_of k).lines + length (typed_of k).line + 1))) [
      | inl ends ↦ rw (size, ends) (commit-Edits ch k v lt)
      | inr goes_on ↦ rw (size, goes_on) (go_on-Edits ch k v lt (ground arith))
    ]

type_char-Edits :
    (c : ℕ) (k : Cons)
    → IsValid k
    → Edits (type_char c k) (
        if not (c == 0) && ltb (length (typed_of k).lines + length (typed_of k).line) input_buf_size
        then append_char (if c == 13 then newline else c) (typed_of k)
        else typed_of k)
unfolding type_char
type_char-Edits c k v =
    let size : length (typed_of k).lines + length (typed_of k).line ≡ sub32 k.e k.r =
      omega (arith, size-Typed k, v.edit_range, v.write_range, v.read_range, v.bounded) in
    elim (Bool-cases (not (c == 0) && ltb (sub32 k.e k.r) input_buf_size)) [
      | inl takes ↦
          rw (takes, has_room size takes)
            (append_char-Edits (if c == 13 then newline else c) k v
              (ground (arith, size, size-Typed k)))
      | inr full ↦ rw (full, has_room size full) (record { valid = v; typed_is = refl })
    ]
  where
    has_room :
        {n m : ℕ} {b : Bool}
        → n ≡ m
        → (not (c == 0) && ltb m input_buf_size) ≡ b
        → (not (c == 0) && ltb n input_buf_size) ≡ b
    has_room e h = ap (λ n. not (c == 0) && ltb n input_buf_size) e ∙ h

backspace-Edits :
    (k : Cons)
    → IsValid k
    → Edits
        (if k.e == k.w then k else erase k)
        (record (typed_of k) { line = drop_last (typed_of k).line })
backspace-Edits k v = elim (Bool-cases (k.e == k.w)) [
  | inl e ↦
      let none_typed : sub32 k.e k.w ≡ 0 = ground (arith, v.edit_range, v.write_range) in
      rw e (record {
        valid = v;
        typed_is =
            ap (λ n. record (typed_of k) { line = window k.buf k.w n }) none_typed
            ∙ ap (λ n. record (typed_of k) { line = drop_last (window k.buf k.w n) })
                (sym none_typed);
      })
  | inr e ↦ rw e (erase-Edits (sub32 k.e k.w - 1) k v (ground (arith, v.edit_range, v.write_range)))
]

-- `consoleintr` is the line editor: a key changes the complete lines and the line that is edited as
-- `edit` says, with the ring, its wrapping counters and its limit in order before and after.
pub consoleintr_lem :
    (c : ℕ) (k : Cons)
    → IsValid k
    → IsValid (consoleintr c k) × (typed_of (consoleintr c k) ≡ edit c (typed_of k))
unfolding consoleintr
consoleintr_lem c k v = elim (Bool-cases (c == 16)) [
  | inl e ↦ rw (e, consoleintr) (v, refl)
  | inr e ↦ elim (Bool-cases (c == 21)) [
    | inl e1 ↦
        let r = kill_line-Edits (sub32 k.e k.w) k v refl in
        rw (e, e1, consoleintr) (r.valid, r.typed_is)
    | inr e1 ↦ elim (Bool-cases ((c == 8) || (c == 127))) [
      | inl e2 ↦ let r = backspace-Edits k v in rw (e, e1, e2, consoleintr) (r.valid, r.typed_is)
      | inr e2 ↦ let r = type_char-Edits c k v in rw (e, e1, e2, consoleintr) (r.valid, r.typed_is)
    ]
  ]
]
