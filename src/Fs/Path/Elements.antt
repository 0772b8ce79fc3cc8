-- ===== src/Fs/Path/Elements.antt =====
-- kernel/fs.c: `skipelem` takes the elements of a path one by one.
use osmini_project.Base.{
  ℕ, suc, ◌+◌, ◌≤◌, ◌<◌, ◌≡◌, inl, inr, refl, sym, ap, ◌∙◌, Bool, true, false, List, [], ◌∷◌, ◌++◌,
  Option, none, some, ◌==◌, if◌then◌else◌, length, get_or, arith, append_assoc, append-nil,
  Bool-cases, subst,
}
use osmini_project.Fs.Path.{slash, skip_slashes, take_element, copy_name, skipelem, is_empty}

abbrev flush : List ℕ → List (List ℕ) → List (List ℕ)
flush [] pieces = pieces
flush (c ∷ s) pieces = (c ∷ s) ∷ pieces

-- What lies between slashes, with `s` before the first.
abbrev pieces : List ℕ → List ℕ → List (List ℕ)
pieces s [] = flush s []
pieces s (c ∷ path) = if c == slash then flush s (pieces [] path) else pieces (s ++ c ∷ []) path

-- The elements of a path.
unfoldable pub elements : List ℕ → List (List ℕ)
elements path = pieces [] path

elements-skip_slashes : (path : List ℕ) → elements (skip_slashes path) ≡ elements path
unfolding elements skip_slashes
elements-skip_slashes [] = refl
elements-skip_slashes (c ∷ path) = elim (Bool-cases (c == slash)) [
  | inl e ↦ rw e (elements-skip_slashes path)
  | inr e ↦ rw e (rw e)
]

length-skip_slashes : (path : List ℕ) → length (skip_slashes path) ≤ length path
unfolding skip_slashes
length-skip_slashes [] = omega arith
length-skip_slashes (c ∷ path) =
    let rest = length-skip_slashes path in
    elim (Bool-cases (c == slash)) [ inl e ↦ rw e (omega arith) | inr e ↦ rw e (omega arith) ]

pieces-take_element :
    (s path : List ℕ)
    → pieces s path ≡ flush (s ++ (take_element path).0) (elements (take_element path).1)
unfolding elements take_element
pieces-take_element s [] = ap (λ t. flush t []) (sym (append-nil s))
pieces-take_element s (c ∷ path) = elim (Bool-cases (c == slash)) [
  | inl e ↦ rw (e, append-nil s) (rw e)
  | inr e ↦
      let next = pieces-take_element (s ++ c ∷ []) path in
      let place = append_assoc s (c ∷ []) (take_element path).0 in
      rw e (next ∙ ap (λ t. flush t (elements (take_element path).1)) place)
]

length-take_element :
    (path : List ℕ) → length (take_element path).0 + length (take_element path).1 ≡ length path
unfolding take_element
length-take_element [] = refl
length-take_element (c ∷ path) =
    let rest = length-take_element path in
    elim (Bool-cases (c == slash)) [ inl e ↦ rw e (omega arith) | inr e ↦ rw e (omega arith) ]

first_not_slash :
    (path : List ℕ) {c : ℕ} {rest : List ℕ} → skip_slashes path ≡ c ∷ rest → (c == slash) ≡ false
unfolding skip_slashes
first_not_slash [] e = cc
first_not_slash (x ∷ path) {c} e = elim (Bool-cases (x == slash)) [
  | inl t ↦ first_not_slash path (rw t at e)
  | inr t ↦
      let first : x ≡ c = ap (λ l. get_or l 0 0) (rw t at e) in sym (ap (λ c. c == slash) first) ∙ t
]

abbrev pub is_nil : List (List ℕ) → Bool
is_nil [] = true
is_nil (s ∷ ss) = false

-- There is no element left, or the first one is in `name` and the others are in the rest.
pub data Skipelem (path name : List ℕ) : Option (List ℕ × List ℕ) → Type 0 where
  no_element : elements path ≡ [] → Skipelem path name none
  element :
      (s rest : List ℕ)
      → elements path ≡ s ∷ elements rest
      → length rest < length path
      → is_empty rest ≡ is_nil (elements rest)
      → Skipelem path name (some (rest, copy_name s name))

-- An element that does not begin with a slash is not empty.
flush-take_element :
    (c : ℕ) (rest : List ℕ) (pieces : List (List ℕ))
    → (c == slash) ≡ false
    → (flush (take_element (c ∷ rest)).0 pieces ≡ (take_element (c ∷ rest)).0 ∷ pieces)
      × (0 < length (take_element (c ∷ rest)).0)
unfolding take_element
flush-take_element c rest pieces e = (rw e, rw e (omega arith))

-- A path without slashes at its start is empty when it has no element.
last_element :
    (path from : List ℕ) → skip_slashes path ≡ from → is_empty from ≡ is_nil (elements from)
unfolding elements
last_element path [] e = refl
last_element path (c ∷ rest) e =
    let (whole, _) =
      flush-take_element c rest (elements (take_element (c ∷ rest)).1) (first_not_slash path e) in
    sym (ap is_nil (pieces-take_element [] (c ∷ rest) ∙ whole))

-- The path from its first element on.
Skipelem-from :
    (path name from : List ℕ)
    → skip_slashes path ≡ from
    → Skipelem path name (elim from [
      | [] ↦ none
      | c ∷ rest ↦
          some
            (skip_slashes (take_element (c ∷ rest)).1, copy_name (take_element (c ∷ rest)).0 name)
    ])
unfolding elements
Skipelem-from path name [] e = no_element (sym (elements-skip_slashes path) ∙ ap elements e)
Skipelem-from path name (c ∷ rest) e =
    let s = (take_element (c ∷ rest)).0 in
    let after = (take_element (c ∷ rest)).1 in
    let (whole, nonempty) = flush-take_element c rest (elements after) (first_not_slash path e) in
    let total = length-take_element (c ∷ rest) in
    let skipped = length-skip_slashes after in
    let shorter : suc (length rest) ≤ length path =
      subst (λ p. length p ≤ length path) e (length-skip_slashes path) in
    element s (skip_slashes after)
      (sym (elements-skip_slashes path)
        ∙ ap elements e
        ∙ pieces-take_element [] (c ∷ rest)
        ∙ whole
        ∙ ap (λ p. s ∷ p) (sym (elements-skip_slashes after)))
      (omega arith) (last_element after (skip_slashes after) refl)

pub skipelem-Skipelem : (path name : List ℕ) → Skipelem path name (skipelem path name)
unfolding skipelem
skipelem-Skipelem path name = Skipelem-from path name (skip_slashes path) refl
