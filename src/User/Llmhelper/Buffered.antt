-- ===== src/User/Llmhelper/Buffered.antt =====
-- user/llmhelper.c: the indices of the buffer cut out the lines of the bytes in it.
use osmini_project.Base.{
  ℕ, suc, ◌+◌, ◌-◌, ◌<◌, ◌≡◌, ◌≢◌, refl, sym, ap, ap₂, ◌∙◌, inl, inr, true, false, ◌&&◌, List, [],
  ◌∷◌, ◌++◌, none, some, arith, Bool-cases, ◌==◌, leb, ltb, if◌then◌else◌, length, length-append,
  list_of, update, update_self, update_ne, subst,
}
use osmini_project.User.Line.{newline, split_lines}
use osmini_project.User.Llmhelper.{
  buf_sz, c_string, handle_line, Buffer, drop_full, store_bytes, fill_buffer, scan_lines, move_down,
  compact, helper_round,
}

-- The calls that a list of lines leads to, in order.
unfoldable pub handle_lines : List (List ℕ) → List ℕ
handle_lines [] = []
handle_lines (l ∷ ls) = elim (handle_line (c_string l)) [
  | none ↦ handle_lines ls
  | some pid ↦ pid ∷ handle_lines ls
]

-- The bytes from `s` on are those of a list.
abbrev pub HoldsAt : (ℕ → ℕ) → (s : ℕ) → List ℕ → Type 0
HoldsAt f s [] = Unit {0}
HoldsAt f s (c ∷ cs) = (f s ≡ c) × HoldsAt f (suc s) cs

list_of-HoldsAt : (f : ℕ → ℕ) (s : ℕ) (cs : List ℕ) → HoldsAt f s cs → list_of (length cs) f s ≡ cs
list_of-HoldsAt f s [] h = refl
list_of-HoldsAt f s (c ∷ cs) h = ap₂ (λ c cs. c ∷ cs) h.0 (list_of-HoldsAt f (suc s) cs h.1)

-- Bytes that agree are held alike.
HoldsAt-agree :
    (f g : ℕ → ℕ) (s t : ℕ) (cs : List ℕ)
    → ((a b k : ℕ) → a ≡ s + k → b ≡ t + k → k < length cs → g b ≡ f a)
    → HoldsAt f s cs
    → HoldsAt g t cs
HoldsAt-agree f g s t [] same h = tt
HoldsAt-agree f g s t (c ∷ cs) same h = (
  same s t 0 (omega arith) (omega arith) (omega arith) ∙ h.0,
  HoldsAt-agree f g (suc s) (suc t) cs
      (λ a b k ea eb lt. same a b (suc k) (omega arith) (omega arith) (omega arith)) h.1,
)

-- A write outside.
HoldsAt-update :
    (f : ℕ → ℕ) (s p v : ℕ) (cs : List ℕ)
    → ((b k : ℕ) → b ≡ s + k → k < length cs → b ≢ p)
    → HoldsAt f s cs
    → HoldsAt (update f p v) s cs
HoldsAt-update f s p v cs out h =
    HoldsAt-agree f (update f p v) s s cs
      (λ a b k ea eb lt.
        let same : b ≡ a = omega arith in update_ne f p v b (out b k eb lt) ∙ ap f same)
      h

HoldsAt-append :
    (f : ℕ → ℕ) (s : ℕ) (xs ys : List ℕ)
    → HoldsAt f s xs
    → HoldsAt f (s + length xs) ys
    → HoldsAt f s (xs ++ ys)
HoldsAt-append f s [] ys h h' =
    let place : s + 0 ≡ s = omega arith in subst (λ s. HoldsAt f s ys) place h'
HoldsAt-append f s (x ∷ xs) ys h h' =
    let place : s + suc (length xs) ≡ suc s + length xs = omega arith in
    (h.0, HoldsAt-append f (suc s) xs ys h.1 (subst (λ s. HoldsAt f s ys) place h'))

store_bytes-ne : (cs : List ℕ) (to : ℕ) (f : ℕ → ℕ) (a : ℕ) → a < to → store_bytes cs to f a ≡ f a
unfolding store_bytes
store_bytes-ne [] to f a lt = refl
store_bytes-ne (c ∷ cs) to f a lt =
    store_bytes-ne cs (suc to) (update f to c) a (omega arith)
    ∙ update_ne f to c a (λ e. absurd (omega arith))

store_bytes-HoldsAt : (cs : List ℕ) (to : ℕ) (f : ℕ → ℕ) → HoldsAt (store_bytes cs to f) to cs
unfolding store_bytes
store_bytes-HoldsAt [] to f = tt
store_bytes-HoldsAt (c ∷ cs) to f = (
  store_bytes-ne cs (suc to) (update f to c) to (omega arith) ∙ update_self f to c,
  store_bytes-HoldsAt cs (suc to) (update f to c),
)

-- The buffer between two rounds has the bytes kept.
pub record IsKept (kept : List ℕ) (b : Buffer) : Type 0 where
  pub start_is : b.start ≡ 0
  pub end_is : b.end ≡ length kept
  pub bytes : HoldsAt b.byte 0 kept

-- A scan that has not come to the end of the first line, with the bytes `line` before `i`.
record IsScanned (line todo : List ℕ) (i : ℕ) (b : Buffer) : Type 0 where
  at : i ≡ b.start + length line
  before : HoldsAt b.byte b.start line
  after : HoldsAt b.byte i todo

-- The buffer after the scan.
pub record IsLeft (rest : List ℕ) (end : ℕ) (b : Buffer) : Type 0 where
  pub end_same : b.end ≡ end
  pub stop : b.start + length rest ≡ end
  pub bytes : HoldsAt b.byte b.start rest

scan_lines_lem :
    (line todo : List ℕ) (i : ℕ) (b : Buffer)
    → IsScanned line todo i b
    → b.end ≡ i + length todo
    → ((scan_lines (length todo) i b).0 ≡ handle_lines (split_lines line todo).0)
      × IsLeft (split_lines line todo).1 b.end (scan_lines (length todo) i b).1
unfolding scan_lines split_lines handle_lines
scan_lines_lem line [] i b h end =
    (refl, record { end_same = refl; stop = omega (arith, h.at); bytes = h.before })
scan_lines_lem line (c ∷ todo) i b h end =
    let size : i - b.start ≡ length line = omega (arith, h.at) in
    let cut : list_of (i - b.start) b.byte b.start ≡ line =
      ap (λ n. list_of n b.byte b.start) size ∙ list_of-HoldsAt b.byte b.start line h.before in
    elim (Bool-cases (c == newline)) [
      | inl nl ↦
          let b1 = record b { byte = update b.byte i 0; start = suc i } in
          let (calls, left) =
            scan_lines_lem [] todo (suc i) b1
              (record {
                at = omega arith;
                before = tt;
                after =
                    HoldsAt-update b.byte (suc i) i 0 todo (λ b k eb lt e. absurd (omega arith))
                      h.after.1;
              })
              (omega arith) in
          rw (h.after.0, nl, cut)
            (
              ap
                  (λ more. elim (handle_line (c_string line)) as (λ _. List ℕ) [
                    | none ↦ more
                    | some pid ↦ pid ∷ more
                  ])
                  calls,
              left,
            )
      | inr other ↦
          let longer = length-append line (c ∷ []) in
          let (calls, left) =
            scan_lines_lem (line ++ c ∷ []) todo (suc i) b
              (record {
                at = omega (arith, h.at);
                before =
                    HoldsAt-append b.byte b.start line (c ∷ []) h.before
                      (subst (λ a. HoldsAt b.byte a (c ∷ [])) h.at (h.after.0, tt));
                after = h.after.1;
              })
              (omega arith) in
          rw (h.after.0, other) (calls, left)
    ]

compact-IsKept : (rest : List ℕ) (b : Buffer) → IsLeft rest b.end b → IsKept rest (compact b)
compact-IsKept rest b h = elim (Bool-cases (b.start == b.end)) [
  | inl all ↦
      let nil : length rest ≡ 0 = ground (arith, h.stop) in
      rw all (record {
        start_is = refl;
        end_is = sym nil;
        bytes =
            HoldsAt-agree b.byte b.byte b.start 0 rest (λ a b k _ _ lt. absurd (omega arith))
              h.bytes;
      })
  | inr some_left ↦ elim (Bool-cases (ltb 0 b.start)) [
    | inl later ↦
        let n = b.end - b.start in
        let size : n ≡ length rest = omega (arith, h.stop) in
        rw (some_left, later)
          (record {
            start_is = refl;
            end_is = size;
            bytes =
                HoldsAt-update (move_down b.start n b.byte) 0 n 0 rest
                  (λ a k ea lt e. absurd (omega arith))
                  (HoldsAt-agree b.byte (move_down b.start n b.byte) b.start 0 rest
                    (λ a x k ea ex lt.
                      let inside : ltb x n ≡ true = ground arith in
                      let place : b.start + x ≡ a = omega arith in rw inside (ap b.byte place))
                    h.bytes);
          })
    | inr at_front ↦
        let zero_start : b.start ≡ 0 = ground arith in
        rw (some_left, at_front)
          (record {
            start_is = zero_start;
            end_is = omega (arith, h.stop);
            bytes = subst (λ s. HoldsAt b.byte s rest) zero_start h.bytes;
          })
  ]
]

-- The bytes kept before a round, or none if they fill the buffer.
abbrev pub kept_from : List ℕ → List ℕ
kept_from kept = if leb (buf_sz - 1) (length kept) then [] else kept

drop_full-IsKept :
    (kept : List ℕ) (b : Buffer) → IsKept kept b → IsKept (kept_from kept) (drop_full b)
drop_full-IsKept kept b h = elim (Bool-cases (leb (buf_sz - 1) (length kept))) [
  | inl full ↦
      let full' : (leb (buf_sz - 1) b.end && b.start == 0) ≡ true =
        ground (arith, h.start_is, h.end_is) in
      rw (full, full') (record { start_is = h.start_is; end_is = refl; bytes = tt })
  | inr room ↦
      let room' : (leb (buf_sz - 1) b.end && b.start == 0) ≡ false =
        ground (arith, h.start_is, h.end_is) in
      rw (room, room') h
]

fill_buffer-HoldsAt :
    (kept chunk : List ℕ) (b : Buffer)
    → IsKept kept b
    → HoldsAt (fill_buffer chunk b).byte 0 (kept ++ chunk)
fill_buffer-HoldsAt kept chunk b h =
    let total = length-append kept chunk in
    let place : b.end ≡ 0 + length kept = omega (arith, h.end_is) in
    HoldsAt-update (store_bytes chunk b.end b.byte) 0 (b.end + length chunk) 0 (kept ++ chunk)
      (λ a k ea lt e. absurd (omega (arith, h.end_is)))
      (HoldsAt-append (store_bytes chunk b.end b.byte) 0 kept chunk
        (HoldsAt-agree b.byte (store_bytes chunk b.end b.byte) 0 0 kept
          (λ a x k ea ex lt.
            let same : x ≡ a = omega arith in
            store_bytes-ne chunk b.end b.byte x (omega (arith, h.end_is)) ∙ ap b.byte same)
          h.bytes)
        (subst (λ a. HoldsAt (store_bytes chunk b.end b.byte) a chunk) place
          (store_bytes-HoldsAt chunk b.end b.byte)))

-- A round makes the calls for the complete lines, and keeps what follows them.
pub helper_round_lem :
    (kept chunk : List ℕ) (b : Buffer)
    → IsKept kept b
    → let (lines, rest) = split_lines [] (kept_from kept ++ chunk) in
      ((helper_round b chunk).0 ≡ handle_lines lines) × IsKept rest (helper_round b chunk).1
unfolding helper_round
helper_round_lem kept chunk b h =
    let from = kept_from kept in
    let b1 = drop_full b in
    let v = drop_full-IsKept kept b h in
    let filled = fill_buffer chunk b1 in
    let todo = from ++ chunk in
    let total : filled.end ≡ length todo = omega (arith, v.end_is, length-append from chunk) in
    let whole = fill_buffer-HoldsAt from chunk b1 v in
    let (calls, left) =
      scan_lines_lem [] todo filled.start filled
        (record {
          at = omega arith;
          before = tt;
          after = subst (λ s. HoldsAt filled.byte s todo) (sym v.start_is) whole;
        })
        (omega (arith, v.start_is, total)) in
    let rounds : filled.end - filled.start ≡ length todo = omega (arith, v.start_is, total) in
    let (lines, rest) = split_lines [] todo in
    subst
      (λ n.
        ((scan_lines n filled.start filled).0 ≡ handle_lines lines)
        × IsKept rest (compact (scan_lines n filled.start filled).1))
      (sym rounds)
      (
        calls,
        compact-IsKept rest (scan_lines (length todo) filled.start filled).1
            (record { end_same = refl; stop = left.stop ∙ sym left.end_same; bytes = left.bytes }),
      )
