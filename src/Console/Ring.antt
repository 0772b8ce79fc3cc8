-- ===== src/Console/Ring.antt =====
-- kernel/console.c: stretches of the ring of typed bytes.
use osmini_project.Base.{
  ℕ, zero, suc, ◌+◌, ◌-◌, ◌%◌, ◌^◌, ◌≤◌, ◌<◌, ◌≡◌, refl, ap, ap₂, ◌∙◌, List, [], ◌∷◌, ◌++◌, arith,
  All, length, get_or, set, get_or-set_self, get_or-set_ne, add32, subst,
}
use osmini_project.Console.{input_buf_size}

-- The `n` bytes from the counter `r` on.
abbrev pub window : List ℕ → ℕ → ℕ → List ℕ
window buf r zero = []
window buf r (suc n) = get_or buf (r % input_buf_size) 0 ∷ window buf (add32 r 1) n

pub length-window : (buf : List ℕ) (r n : ℕ) → length (window buf r n) ≡ n
length-window buf r zero = refl
length-window buf r (suc n) = ap suc (length-window buf (add32 r 1) n)

-- A write outside a stretch leaves it.
pub window-set_ne :
    (buf : List ℕ) (ch r n m : ℕ)
    → n ≤ m
    → m < input_buf_size
    → window (set buf ((r + m) % input_buf_size) ch) r n ≡ window buf r n
window-set_ne buf ch r zero m le lt = refl
window-set_ne buf ch r (suc n) m le lt =
    let next : (r + m) % input_buf_size ≡ (add32 r 1 + (m - 1)) % input_buf_size = omega arith in
    ap₂ ◌∷◌ (get_or-set_ne buf ch 0 (omega arith)) (
      ap (λ i. window (set buf i ch) (add32 r 1) n) next
      ∙ window-set_ne buf ch (add32 r 1) n (m - 1) (omega arith) (omega arith))

pub window-append :
    (buf : List ℕ) (r n m : ℕ)
    → r < 2 ^ 32
    → window buf r (n + m) ≡ window buf r n ++ window buf (add32 r n) m
window-append buf r zero m lt = ap₂ (window buf) (omega arith) (omega arith)
window-append buf r (suc n) m lt =
    let size : suc n + m ≡ suc (n + m) = omega arith in
    let next : add32 (add32 r 1) n ≡ add32 r (suc n) = omega arith in
    ap (window buf r) size
    ∙ ap (λ l. get_or buf (r % input_buf_size) 0 ∷ l)
        (window-append buf (add32 r 1) n m (omega arith)
          ∙ ap (λ s. window buf (add32 r 1) n ++ window buf s m) next)

-- A write just past a stretch that is not the whole ring extends it.
pub window-set :
    (buf : List ℕ) (ch r n : ℕ)
    → length buf ≡ input_buf_size
    → r < 2 ^ 32
    → n < input_buf_size
    → window (set buf ((r + n) % input_buf_size) ch) r (n + 1) ≡ window buf r n ++ ch ∷ []
window-set buf ch r n room range lt =
    let there : add32 r n % input_buf_size ≡ (r + n) % input_buf_size = omega arith in
    window-append (set buf ((r + n) % input_buf_size) ch) r n 1 range
    ∙ ap₂ ◌++◌ (window-set_ne buf ch r n n (omega arith) lt) (
        ap (λ c. c ∷ [])
          (ap (λ i. get_or (set buf ((r + n) % input_buf_size) ch) i 0) there
            ∙ get_or-set_self buf ((r + n) % input_buf_size) ch 0 (omega arith)))

-- A list without its last element.
abbrev pub drop_last : List ℕ → List ℕ
drop_last [] = []
drop_last (x ∷ []) = []
drop_last (x ∷ y ∷ ys) = x ∷ drop_last (y ∷ ys)

pub window-pred : (buf : List ℕ) (r n : ℕ) → window buf r n ≡ drop_last (window buf r (suc n))
window-pred buf r zero = refl
window-pred buf r (suc n) =
    ap (λ l. get_or buf (r % input_buf_size) 0 ∷ l) (window-pred buf (add32 r 1) n)

-- What holds of all bytes of a stretch holds of the last.
pub window-last :
    (P : ℕ → Type 0) (buf : List ℕ) (r n : ℕ)
    → All P (window buf r (suc n))
    → P (get_or buf ((r + n) % input_buf_size) 0)
window-last P buf r zero h = subst (λ i. P (get_or buf i 0)) (omega arith) h.0
window-last P buf r (suc n) h =
    let next : (add32 r 1 + n) % input_buf_size ≡ (r + suc n) % input_buf_size = omega arith in
    subst (λ i. P (get_or buf i 0)) next (window-last P buf (add32 r 1) n h.1)
