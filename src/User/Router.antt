-- ===== src/User/Router.antt =====
-- user/init.c: the router reads the console and passes each line on to the shell or to `llmhelper`.
use osmini_project.Base.{
  inr, inl, ◌-◌, ℕ, ◌+◌, ◌<◌, ◌≡◌, refl, sym, ap, ◌∙◌, Bool, true, false, not, ◌&&◌, ◌||◌, List, [],
  ◌∷◌, ◌++◌, arith, is_some, append_assoc, append-nil, Bool-cases, ◌==◌, ltb, if◌then◌else◌, length,
  length-append, All,
}
use osmini_project.User.Line.{codes, newline, advice_prefix, strip_prefix}

-- LINE_BUF.
abbrev pub line_buf : ℕ
line_buf = 512

-- `buf` up to `n`, what was written to the two pipes, and whether each of them is there.
pub record Router : Type 0 where
  pub line : List ℕ
  pub to_shell : List ℕ
  pub to_helper : List ℕ
  pub shell_open : Bool
  pub helper_open : Bool

unfoldable pub is_advice_line : List ℕ → Bool
is_advice_line line = is_some (strip_prefix advice_prefix line)

-- A complete line goes out.
unfoldable pub forward : Router → Router
forward r =
    let out = r.line ++ newline ∷ [] in
    if not (length r.line == 0) && is_advice_line r.line
    then record r {
      line = [];
      to_helper = if r.helper_open then r.to_helper ++ out else r.to_helper;
    }
    else record r { line = []; to_shell = if r.shell_open then r.to_shell ++ out else r.to_shell }

abbrev pub is_end : ℕ → Bool
is_end c = c == newline || c == 13

-- A round of `router_loop` with the byte read; `\r` counts as `\n`.
unfoldable pub route : Router → ℕ → Router
route r c =
    if is_end c
    then forward r
    else if ltb (length r.line) (line_buf - 1)
    then record r { line = r.line ++ c ∷ [] }
    else r

unfoldable pub router_loop : Router → List ℕ → Router
router_loop r [] = r
router_loop r (c ∷ cs) = router_loop (route r c) cs

-- A line that was typed, and how it ended.
pub record Typed : Type 0 where
  pub text : List ℕ
  pub ending : ℕ

pub record IsTyped (t : Typed) : Type 0 where
  pub plain : All (λ c. is_end c ≡ false) t.text
  pub fits : length t.text < line_buf
  pub ended : is_end t.ending ≡ true

abbrev pub keys : List Typed → List ℕ
keys [] = []
keys (t ∷ ts) = t.text ++ (t.ending ∷ keys ts)

-- The line goes on after a prefix.
abbrev pub begins_with : (prefix line : List ℕ) → Bool
begins_with [] line = true
begins_with (p ∷ ps) [] = false
begins_with (p ∷ ps) (c ∷ cs) = c == p && begins_with ps cs

strip_prefix-begins_with :
    (prefix line : List ℕ) → is_some (strip_prefix prefix line) ≡ begins_with prefix line
unfolding strip_prefix
strip_prefix-begins_with [] line = refl
strip_prefix-begins_with (p ∷ ps) [] = refl
strip_prefix-begins_with (p ∷ ps) (c ∷ cs) = elim (Bool-cases (c == p)) [
  | inl e ↦ rw e (strip_prefix-begins_with ps cs)
  | inr e ↦ rw e
]

is_advice_line-begins_with :
    (line : List ℕ) → is_advice_line line ≡ begins_with (codes "ADVICE:PID=") line
unfolding is_advice_line
is_advice_line-begins_with line = strip_prefix-begins_with advice_prefix line

-- The lines that one side gets: those that begin with "ADVICE:PID=", or the others.
abbrev pub lines_for : Bool → List Typed → List ℕ
lines_for advice [] = []
lines_for true (t ∷ ts) =
    if begins_with (codes "ADVICE:PID=") t.text
    then t.text ++ (newline ∷ lines_for true ts)
    else lines_for true ts
lines_for false (t ∷ ts) =
    if begins_with (codes "ADVICE:PID=") t.text
    then lines_for false ts
    else t.text ++ (newline ∷ lines_for false ts)

route_plain :
    (r : Router) (c : ℕ)
    → is_end c ≡ false
    → length r.line < line_buf - 1
    → route r c ≡ record r { line = r.line ++ c ∷ [] }
unfolding route
route_plain r c p lt = ground arith

route_end : (r : Router) (c : ℕ) → is_end c ≡ true → route r c ≡ forward r
unfolding route
route_end r c e = ground arith

-- The bytes of a line are gathered.
gather :
    (xs ys : List ℕ) (r : Router)
    → All (λ c. is_end c ≡ false) xs
    → length r.line + length xs < line_buf
    → router_loop r (xs ++ ys) ≡ router_loop (record r { line = r.line ++ xs }) ys
unfolding router_loop
gather [] ys r p lt = rw append-nil
gather (c ∷ xs) ys r p lt =
    rw (router_loop, route_plain r c p.0 (omega arith))
      (gather xs ys (record r { line = r.line ++ c ∷ [] }) p.1
          (omega (arith, length-append r.line (c ∷ [])))
        ∙ ap (λ l. router_loop (record r { line = l }) ys) (append_assoc r.line (c ∷ []) xs))

-- A router between two lines, with both pipes.
abbrev pub between : (to_shell to_helper : List ℕ) → Router
between to_shell to_helper = record {
  line = [];
  to_shell = to_shell;
  to_helper = to_helper;
  shell_open = true;
  helper_open = true;
}

not_empty : (line : List ℕ) → is_advice_line line ≡ true → (length line == 0) ≡ false
unfolding is_advice_line strip_prefix
not_empty [] e = cc
not_empty (c ∷ cs) e = ground arith

forward_lem :
    (text a b : List ℕ)
    → forward (record (between a b) { line = text }) ≡ (
        if is_advice_line text
        then between a (b ++ (text ++ newline ∷ []))
        else between (a ++ (text ++ newline ∷ [])) b)
unfolding forward
forward_lem text a b = elim (Bool-cases (is_advice_line text)) [
  | inl e ↦ rw (e, not_empty text e) refl
  | inr e ↦ elim (Bool-cases (length text == 0)) [ inl z ↦ rw (e, z) refl | inr z ↦ rw (e, z) refl ]
]

-- After whole lines of at most LINE_BUF - 1 bytes, with both pipes open, `llmhelper` has got the lines that
-- begin with "ADVICE:PID=" and the shell all others, each in the order typed and ended by a newline.
pub router_loop_lem :
    (ts : List Typed) (a b : List ℕ)
    → All IsTyped ts
    → router_loop (between a b) (keys ts)
      ≡ between (a ++ lines_for false ts) (b ++ lines_for true ts)
unfolding router_loop
router_loop_lem [] a b h = rw (append-nil a, append-nil b)
router_loop_lem (t ∷ ts) a b h =
    gather t.text (t.ending ∷ keys ts) (between a b) h.0.plain (omega (arith, h.0.fits))
    ∙ ap (λ r. router_loop r (keys ts)) (route_end _ t.ending h.0.ended ∙ forward_lem t.text a b)
    ∙ elim (Bool-cases (is_advice_line t.text)) [
      | inl e ↦
          rw (e, sym (is_advice_line-begins_with t.text) ∙ e)
            (router_loop_lem ts a (b ++ (t.text ++ newline ∷ [])) h.1
              ∙ ap (between (a ++ lines_for false ts)) (regroup b (lines_for true ts)))
      | inr e ↦
          rw (e, sym (is_advice_line-begins_with t.text) ∙ e)
            (router_loop_lem ts (a ++ (t.text ++ newline ∷ [])) b h.1
              ∙ ap (λ l. between l (b ++ lines_for true ts)) (regroup a (lines_for false ts)))
    ]
  where
    regroup :
        (xs rest : List ℕ)
        → (xs ++ (t.text ++ newline ∷ [])) ++ rest ≡ xs ++ (t.text ++ (newline ∷ rest))
    regroup xs rest = simp append_assoc
