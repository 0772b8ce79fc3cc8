-- ===== src/Console/Erasing.antt =====
-- kernel/console.c: erasing a character, and a line.
use osmini_project.Base.{
  ℕ, zero, suc, ◌+◌, ◌%◌, ◌≡◌, sym, ap, ◌∙◌, false, List, [], ◌∷◌, arith, ◌==◌, get_or, sub32,
  subst,
}
use osmini_project.Console.{Cons, input_buf_size, newline, erase, kill_line}
use osmini_project.Console.Ring.{window, drop_last, window-pred, window-last}
use osmini_project.Console.Spec.{Typed, typed_of, IsPlain, IsValid, Edits}

All-drop_last : (xs : List ℕ) → IsPlain xs → IsPlain (drop_last xs)
All-drop_last [] h = h
All-drop_last (x ∷ []) h = tt
All-drop_last (x ∷ y ∷ ys) h = (h.0, All-drop_last (y ∷ ys) h.1)

pub erase-Edits :
    (n : ℕ) (k : Cons)
    → IsValid k
    → sub32 k.e k.w ≡ suc n
    → Edits (erase k) (record (typed_of k) { line = drop_last (typed_of k).line })
unfolding erase
erase-Edits n k v size =
    let fewer : sub32 (sub32 k.e 1) k.w ≡ n = omega (arith, v.edit_range, v.write_range) in
    let shorter : window k.buf k.w (sub32 (sub32 k.e 1) k.w)
        ≡ drop_last (window k.buf k.w (sub32 k.e k.w)) =
      ap (window k.buf k.w) fewer
      ∙ window-pred k.buf k.w n
      ∙ ap (λ m. drop_last (window k.buf k.w m)) (sym size) in
    record {
      valid = record {
        room = v.room;
        read_range = v.read_range;
        write_range = v.write_range;
        edit_range = omega arith;
        bounded = omega (arith, v.bounded);
        plain =
            subst IsPlain (sym shorter) (All-drop_last (window k.buf k.w (sub32 k.e k.w)) v.plain);
      };
      typed_is = ap (λ l. record (typed_of k) { line = l }) shorter;
    }

pub kill_line-Edits :
    (n : ℕ) (k : Cons)
    → IsValid k
    → sub32 k.e k.w ≡ n
    → Edits (kill_line n k) (record (typed_of k) { line = [] })
unfolding kill_line erase
kill_line-Edits zero k v size = record {
  valid = v;
  typed_is = ap (λ n. record (typed_of k) { line = window k.buf k.w n }) size;
}
kill_line-Edits (suc n) k v size =
    let differs : (k.e == k.w) ≡ false = ground (arith, v.edit_range, v.write_range) in
    let at : (k.w + n) % input_buf_size ≡ sub32 k.e 1 % input_buf_size =
      omega (arith, v.edit_range, v.write_range) in
    let typed : (get_or k.buf (sub32 k.e 1 % input_buf_size) 0 == newline) ≡ false =
      subst (λ i. (get_or k.buf i 0 == newline) ≡ false) at
        (window-last (λ c. (c == newline) ≡ false) k.buf k.w n
          (subst (λ m. IsPlain (window k.buf k.w m)) size v.plain)) in
    let one = erase-Edits n k v size in
    let fewer : sub32 (sub32 k.e 1) k.w ≡ n = omega (arith, v.edit_range, v.write_range) in
    let rest = kill_line-Edits n (erase k) one.valid fewer in
    rw (differs, typed)
      (record {
        valid = rest.valid;
        typed_is = rest.typed_is ∙ ap (λ (t : Typed). record t { line = [] }) one.typed_is;
      })
