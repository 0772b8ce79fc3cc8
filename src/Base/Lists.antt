-- ===== src/Base/Lists.antt =====
-- Arrays as lists with native indices, and the loops over them that several parts share.
use Prim.Native.Nat.{ℕ, zero, suc, ◌+◌, ◌<◌}
use mathlib.Core.Path.{sym, ◌≡◌, refl, ap, ◌∙◌}
use mathlib.Core.Logic.{◌≢◌, inl, inr}
use mathlib.Core.Bool.{Bool, true, false}
use mathlib.Core.Option
use mathlib.Core.Option.{Option, none, some}
use mathlib.Core.List.{List, [], ◌∷◌, ◌++◌}
use native.Mathlib.Omega.{arith}
use osmini_project.Base.Tests.{◌==◌, if◌then◌else◌, Bool-cases}

module _ {ℓ} {A : Type ℓ} where
  abbrev pub length : List A → ℕ
  length [] = 0
  length (x ∷ xs) = suc (length xs)

  abbrev pub get_elem? : List A → ℕ → Option A
  get_elem? [] i = none
  get_elem? (x ∷ xs) zero = some x
  get_elem? (x ∷ xs) (suc i) = get_elem? xs i

  abbrev pub get_or : List A → ℕ → A → A
  get_or [] i d = d
  get_or (x ∷ xs) zero d = x
  get_or (x ∷ xs) (suc i) d = get_or xs i d

  -- A write out of bounds changes nothing.
  abbrev pub set : List A → ℕ → A → List A
  set [] i v = []
  set (x ∷ xs) zero v = v ∷ xs
  set (x ∷ xs) (suc i) v = x ∷ set xs i v

  -- `a[i] = f(a[i])`.
  abbrev pub modify : List A → ℕ → (A → A) → List A
  modify [] i f = []
  modify (x ∷ xs) zero f = f x ∷ xs
  modify (x ∷ xs) (suc i) f = x ∷ modify xs i f

  abbrev pub replicate : ℕ → A → List A
  replicate zero a = []
  replicate (suc n) a = a ∷ replicate n a

  -- The index of the first element that passes the test, counted from `i`.
  abbrev pub find_from : ℕ → (A → Bool) → List A → Option ℕ
  find_from i test [] = none
  find_from i test (x ∷ xs) = if test x then some i else find_from (suc i) test xs

  -- `for(i = from; ...)` over an array whose elements are rewritten one by one.
  abbrev pub map_from : ℕ → (ℕ → A → A) → List A → List A
  map_from i f [] = []
  map_from i f (x ∷ xs) = f i x ∷ map_from (suc i) f xs

module _ {ℓ κ} {A : Type ℓ} where
  -- A predicate of every element; it computes to tuples.
  abbrev pub All : (A → Type κ) → List A → Type κ
  All P [] = Unit
  All P (x ∷ xs) = P x × All P xs

  pub All-modify :
      (P : A → Type κ) (f : A → A)
      → ((x : A) → P x → P (f x))
      → (xs : List A) (i : ℕ) → All P xs
      → All P (modify xs i f)
  All-modify P f h [] i a = a
  All-modify P f h (x ∷ xs) zero a = (h x a.0, a.1)
  All-modify P f h (x ∷ xs) (suc i) a = (a.0, All-modify P f h xs i a.1)

  pub All-map_from :
      (P : A → Type κ) (f : ℕ → A → A)
      → ((i : ℕ) (x : A) → P x → P (f i x))
      → (xs : List A) (i : ℕ) → All P xs
      → All P (map_from i f xs)
  All-map_from P f h [] i a = a
  All-map_from P f h (x ∷ xs) i a = (h i x a.0, All-map_from P f h xs (suc i) a.1)

module _ {ℓ} {A : Type ℓ} where
  pub length-modify : (xs : List A) (i : ℕ) (f : A → A) → length (modify xs i f) ≡ length xs
  length-modify [] i f = refl
  length-modify (x ∷ xs) zero f = refl
  length-modify (x ∷ xs) (suc i) f = ap suc (length-modify xs i f)

  pub length-map_from : (xs : List A) (i : ℕ) (f : ℕ → A → A) → length (map_from i f xs) ≡ length xs
  length-map_from [] i f = refl
  length-map_from (x ∷ xs) i f = ap suc (length-map_from xs (suc i) f)

  pub length-set : (xs : List A) (i : ℕ) (v : A) → length (set xs i v) ≡ length xs
  length-set [] i v = refl
  length-set (x ∷ xs) zero v = refl
  length-set (x ∷ xs) (suc i) v = ap suc (length-set xs i v)

  pub length-append : (xs ys : List A) → length (xs ++ ys) ≡ length xs + length ys
  length-append [] ys = omega arith
  length-append (x ∷ xs) ys = omega (arith, length-append xs ys)

  pub length-replicate : (n : ℕ) (a : A) → length (replicate n a) ≡ n
  length-replicate zero a = refl
  length-replicate (suc n) a = ap suc (length-replicate n a)

  pub get_elem?-modify :
      (xs : List A) (i j : ℕ) (f : A → A)
      → get_elem? (modify xs i f) j
        ≡ (if i == j then Option.map f (get_elem? xs j) else get_elem? xs j)
  get_elem?-modify [] i j f = ground arith
  get_elem?-modify (x ∷ xs) zero zero f = ground arith
  get_elem?-modify (x ∷ xs) zero (suc j) f = ground arith
  get_elem?-modify (x ∷ xs) (suc i) zero f = ground arith
  get_elem?-modify (x ∷ xs) (suc i) (suc j) f = ground (arith, get_elem?-modify xs i j f)

  pub get_or-set_self :
      (xs : List A) (i : ℕ) (v d : A) → i < length xs → get_or (set xs i v) i d ≡ v
  get_or-set_self [] i v d h = absurd (omega arith)
  get_or-set_self (x ∷ xs) zero v d h = refl
  get_or-set_self (x ∷ xs) (suc i) v d h = get_or-set_self xs i v d (omega arith)

  pub get_or-set_ne :
      (xs : List A) {i j : ℕ} (v d : A) → i ≢ j → get_or (set xs i v) j d ≡ get_or xs j d
  get_or-set_ne [] v d h = refl
  get_or-set_ne (x ∷ xs) {i = zero} {j = zero} v d h = absurd (h refl)
  get_or-set_ne (x ∷ xs) {i = zero} {j = suc j} v d h = refl
  get_or-set_ne (x ∷ xs) {i = suc i} {j = zero} v d h = refl
  get_or-set_ne (x ∷ xs) {i = suc i} {j = suc j} v d h = get_or-set_ne xs v d (λ e. h (ap suc e))

module _ {ℓ κ} {A : Type ℓ} where
  -- A write where only the element that is there has to keep the predicate.
  pub All-modify_at :
      (P : A → Type κ) (f : A → A) (d : A) (xs : List A) (i : ℕ)
      → (P (get_or xs i d) → P (f (get_or xs i d)))
      → All P xs
      → All P (modify xs i f)
  All-modify_at P f d [] i h a = a
  All-modify_at P f d (x ∷ xs) zero h a = (h a.0, a.1)
  All-modify_at P f d (x ∷ xs) (suc i) h a = (a.0, All-modify_at P f d xs i h a.1)

  pub All-get_or :
      (P : A → Type κ) (xs : List A) (i : ℕ) (d : A) → i < length xs → All P xs → P (get_or xs i d)
  All-get_or P [] i d h a = absurd (omega arith)
  All-get_or P (x ∷ xs) zero d h a = a.0
  All-get_or P (x ∷ xs) (suc i) d h a = All-get_or P xs i d (omega arith) a.1

module _ {ℓ} {A : Type ℓ} where
  pub modify-modify :
      (xs : List A) (i : ℕ) (f g : A → A) → modify (modify xs i f) i g ≡ modify xs i (λ x. g (f x))
  modify-modify [] i f g = refl
  modify-modify (x ∷ xs) zero f g = refl
  modify-modify (x ∷ xs) (suc i) f g = ap (λ ys. x ∷ ys) (modify-modify xs i f g)

  pub get_or-modify_self :
      (xs : List A) (i : ℕ) (f : A → A) (d : A)
      → i < length xs
      → get_or (modify xs i f) i d ≡ f (get_or xs i d)
  get_or-modify_self [] i f d h = absurd (omega arith)
  get_or-modify_self (x ∷ xs) zero f d h = refl
  get_or-modify_self (x ∷ xs) (suc i) f d h = get_or-modify_self xs i f d (omega arith)

  pub get_or-modify_ne :
      (xs : List A) (i j : ℕ) (f : A → A) (d : A)
      → i ≢ j
      → get_or (modify xs i f) j d ≡ get_or xs j d
  get_or-modify_ne [] i j f d h = refl
  get_or-modify_ne (x ∷ xs) zero zero f d h = absurd (h refl)
  get_or-modify_ne (x ∷ xs) zero (suc j) f d h = refl
  get_or-modify_ne (x ∷ xs) (suc i) zero f d h = refl
  get_or-modify_ne (x ∷ xs) (suc i) (suc j) f d h = get_or-modify_ne xs i j f d (λ e. h (ap suc e))

  pub get_or-map_from :
      (xs : List A) (i j : ℕ) (f : ℕ → A → A) (d : A)
      → i < length xs
      → get_or (map_from j f xs) i d ≡ f (j + i) (get_or xs i d)
  get_or-map_from [] i j f d h = absurd (omega arith)
  get_or-map_from (x ∷ xs) zero j f d h = ap (λ n. f n x) (omega arith)
  get_or-map_from (x ∷ xs) (suc i) j f d h =
      get_or-map_from xs i (suc j) f d (omega arith) ∙ ap (λ n. f n (get_or xs i d)) (omega arith)

  pub find_from-eq-none :
      (i : ℕ) (test : A → Bool) (xs : List A)
      → find_from i test xs ≡ none
      → All (λ x. test x ≡ false) xs
  find_from-eq-none i test [] e = tt
  find_from-eq-none i test (x ∷ xs) e = elim (Bool-cases (test x)) [
    | inl hit ↦ cc (rw hit at e)
    | inr miss ↦ (miss, find_from-eq-none (suc i) test xs (rw miss at e))
  ]

  -- All before index `m` fail the test.
  abbrev pub FailsBelow : (A → Bool) → List A → A → ℕ → Type 0
  FailsBelow test xs d m = (j : ℕ) → j < m → test (get_or xs j d) ≡ false

  FailsBelow-cons :
      (test : A → Bool) (x : A) (xs : List A) (d : A) (m : ℕ)
      → test x ≡ false
      → FailsBelow test xs d m
      → FailsBelow test (x ∷ xs) d (suc m)
  FailsBelow-cons test x xs d m h t zero lt = h
  FailsBelow-cons test x xs d m h t (suc j) lt = t j (omega arith)

  -- The element found passes the test, and no earlier one does.
  abbrev pub Found : ℕ → (A → Bool) → List A → A → ℕ → Type 0
  Found i test xs d n =
      (m : ℕ) × (n ≡ i + m)
      × (m < length xs)
      × (test (get_or xs m d) ≡ true)
      × FailsBelow test xs d m

  pub find_from-eq-some :
      (i : ℕ) (test : A → Bool) (xs : List A) (d : A) {n : ℕ}
      → find_from i test xs ≡ some n
      → Found i test xs d n
  find_from-eq-some i test [] d e = cc
  find_from-eq-some i test (x ∷ xs) d {n} e = elim (Bool-cases (test x)) [
    | inl hit ↦
        let same : some i ≡ some n = rw hit at e in
        (zero, ground arith, omega arith, hit, λ j h. absurd (omega arith))
    | inr miss ↦
        let (m, eq, lt, hit, below) = find_from-eq-some (suc i) test xs d (rw miss at e) in
        (suc m, omega arith, omega arith, hit, FailsBelow-cons test x xs d m miss below)
  ]

  -- The search finds the first element that passes.
  pub find_from_first :
      (i : ℕ) (test : A → Bool) (xs : List A) (d : A) (m : ℕ)
      → m < length xs
      → test (get_or xs m d) ≡ true
      → FailsBelow test xs d m
      → find_from i test xs ≡ some (i + m)
  find_from_first i test [] d m lt hit below = absurd (omega arith)
  find_from_first i test (x ∷ xs) d zero lt hit below = rw hit (ap some (omega arith))
  find_from_first i test (x ∷ xs) d (suc m) lt hit below = rw (below 0 (omega arith)) (
      find_from_first (suc i) test xs d m (omega arith) hit (λ j h. below (suc j) (omega arith))
      ∙ ap some (omega arith))

  -- A search for what is not there.
  pub find_from-none :
      (i : ℕ) (test : A → Bool) (xs : List A)
      → All (λ x. test x ≡ false) xs
      → find_from i test xs ≡ none
  find_from-none i test [] h = refl
  find_from-none i test (x ∷ xs) h = rw h.0 (find_from-none (suc i) test xs h.1)

-- The `n` values of `f` from `a` on.
abbrev pub list_of : (n : ℕ) → (ℕ → ℕ) → ℕ → List ℕ
list_of zero f a = []
list_of (suc n) f a = f a ∷ list_of n f (suc a)

pub get_or-list_of : (n : ℕ) (f : ℕ → ℕ) (a j : ℕ) → j < n → get_or (list_of n f a) j 0 ≡ f (a + j)
get_or-list_of zero f a j lt = absurd (omega arith)
get_or-list_of (suc n) f a zero lt = let place : a + 0 ≡ a = omega arith in ap f (sym place)
get_or-list_of (suc n) f a (suc j) lt =
    let place : suc a + j ≡ a + suc j = omega arith in
    get_or-list_of n f (suc a) j (omega arith) ∙ ap f place

pub list_of-agree :
    (n : ℕ) (f g : ℕ → ℕ) (a b : ℕ)
    → ((j : ℕ) → j < n → f (a + j) ≡ g (b + j))
    → list_of n f a ≡ list_of n g b
list_of-agree zero f g a b h = refl
list_of-agree (suc n) f g a b h =
    let first : f a ≡ g b =
      let place : a + 0 ≡ a = omega arith in
      let place' : b + 0 ≡ b = omega arith in sym (ap f place) ∙ h 0 (omega arith) ∙ ap g place' in
    let rest : list_of n f (suc a) ≡ list_of n g (suc b) =
      list_of-agree n f g (suc a) (suc b) (λ j lt.
        let place : a + suc j ≡ suc a + j = omega arith in
        let place' : b + suc j ≡ suc b + j = omega arith in
        sym (ap f place) ∙ h (suc j) (omega arith) ∙ ap g place') in
    rw (first, rest)

pub list_of-append :
    (n k : ℕ) (f : ℕ → ℕ) (a : ℕ) → list_of (n + k) f a ≡ list_of n f a ++ list_of k f (a + n)
list_of-append zero k f a =
    let none_more : 0 + k ≡ k = omega arith in
    let place : a + 0 ≡ a = omega arith in rw (none_more, place)
list_of-append (suc n) k f a =
    let more : suc n + k ≡ suc (n + k) = omega arith in
    let place : suc a + n ≡ a + suc n = omega arith in
    ap (λ n. list_of n f a) more
    ∙ ap (λ l. f a ∷ l)
        (list_of-append n k f (suc a) ∙ ap (λ b. list_of n f (suc a) ++ list_of k f b) place)
