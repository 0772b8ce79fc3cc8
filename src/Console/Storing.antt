-- ===== src/Console/Storing.antt =====
-- kernel/console.c: storing a character, and ending a line.
use osmini_project.Base.{
  ℕ, ◌+◌, ◌%◌, ◌<◌, ◌≡◌, sym, ap, ap₂, ◌∙◌, false, List, [], ◌∷◌, ◌++◌, arith, ◌==◌, length-set,
  set, sub32, add32, subst,
}
use osmini_project.Console.{Cons, input_buf_size, newline, store_char, commit_line}
use osmini_project.Console.Ring.{window, window-set_ne, window-append, window-set}
use osmini_project.Console.Spec.{typed_of, IsPlain, IsValid, Edits}

-- The bytes of the ring after a byte is stored where there is room.
record Stored (k : Cons) (ch : ℕ) : Type 0 where
  lines_same : (typed_of (store_char ch k)).lines ≡ (typed_of k).lines
  line_grows : (typed_of (store_char ch k)).line ≡ (typed_of k).line ++ ch ∷ []
  size_grows : sub32 (store_char ch k).e k.w ≡ sub32 k.e k.w + 1

store_char-Stored :
    (ch : ℕ) (k : Cons) → IsValid k → sub32 k.w k.r + sub32 k.e k.w < input_buf_size → Stored k ch
unfolding store_char
store_char-Stored ch k v lt =
    let m = sub32 k.e k.w in
    let n = sub32 k.w k.r in
    let grows : sub32 (add32 k.e 1) k.w ≡ m + 1 = omega (arith, v.edit_range, v.write_range) in
    let from_w : k.e % input_buf_size ≡ (k.w + m) % input_buf_size =
      omega (arith, v.edit_range, v.write_range) in
    let from_r : k.e % input_buf_size ≡ (k.r + (n + m)) % input_buf_size =
      omega (arith, v.edit_range, v.write_range, v.read_range) in
    record {
      lines_same =
          ap (λ i. window (set k.buf i ch) k.r n) from_r
          ∙ window-set_ne k.buf ch k.r n (n + m) (omega arith) lt;
      line_grows =
          ap₂ (λ i l. window (set k.buf i ch) k.w l) from_w grows
          ∙ window-set k.buf ch k.w m v.room v.write_range (omega arith);
      size_grows = grows;
    }

All-snoc : (xs : List ℕ) (c : ℕ) → IsPlain xs → (c == newline) ≡ false → IsPlain (xs ++ c ∷ [])
All-snoc [] c h e = (e, tt)
All-snoc (x ∷ xs) c h e = (h.0, All-snoc xs c h.1 e)

-- A byte that does not end its line.
pub go_on-Edits :
    (ch : ℕ) (k : Cons)
    → IsValid k
    → sub32 k.w k.r + sub32 k.e k.w < input_buf_size
    → (ch == newline) ≡ false
    → Edits (store_char ch k) (record (typed_of k) { line = (typed_of k).line ++ ch ∷ [] })
unfolding store_char
go_on-Edits ch k v lt other =
    let s = store_char-Stored ch k v lt in
    record {
      valid = record {
        room = length-set k.buf (k.e % input_buf_size) ch ∙ v.room;
        read_range = v.read_range;
        write_range = v.write_range;
        edit_range = omega arith;
        bounded = omega (arith, s.size_grows);
        plain = subst IsPlain (sym s.line_grows) (All-snoc (typed_of k).line ch v.plain other);
      };
      typed_is = ap₂ (λ a b. record { lines = a; line = b }) s.lines_same s.line_grows;
    }

-- A byte that ends its line.
pub commit-Edits :
    (ch : ℕ) (k : Cons)
    → IsValid k
    → sub32 k.w k.r + sub32 k.e k.w < input_buf_size
    → Edits
        (commit_line (store_char ch k))
        (record { lines = (typed_of k).lines ++ ((typed_of k).line ++ ch ∷ []); line = [] })
unfolding store_char
commit-Edits ch k v lt =
    let s = store_char-Stored ch k v lt in
    let k1 = store_char ch k in
    let n = sub32 k.w k.r in
    let nothing_left : sub32 k1.e k1.e ≡ 0 = omega arith in
    let both : sub32 k1.e k.r ≡ n + sub32 k1.e k.w =
      omega (arith, s.size_grows, v.edit_range, v.write_range, v.read_range) in
    let middle : add32 k.r n ≡ k.w = omega (arith, v.write_range, v.read_range) in
    let lines : window k1.buf k.r (sub32 k1.e k.r)
        ≡ (typed_of k).lines ++ ((typed_of k).line ++ ch ∷ []) =
      ap (window k1.buf k.r) both
      ∙ window-append k1.buf k.r n (sub32 k1.e k.w) v.read_range
      ∙ ap₂ ◌++◌ s.lines_same (ap (λ w. window k1.buf w (sub32 k1.e k.w)) middle ∙ s.line_grows) in
    record {
      valid = record {
        room = length-set k.buf (k.e % input_buf_size) ch ∙ v.room;
        read_range = v.read_range;
        write_range = omega arith;
        edit_range = omega arith;
        bounded = omega (arith, s.size_grows, both, nothing_left);
        plain = subst (λ n. IsPlain (window k1.buf k1.e n)) (sym nothing_left) tt;
      };
      typed_is =
          ap₂ (λ a b. record { lines = a; line = b }) lines (ap (window k1.buf k1.e) nothing_left);
    }
