-- ===== src/Fs/Path/Resolve.antt =====
-- kernel/fs.c: `namex` goes along the elements of its path.
use osmini_project.Base.{
  ℕ, zero, suc, ◌<◌, ◌≡◌, inl, inr, refl, sym, ap, ◌∙◌, Bool, true, false, ◌&&◌, ◌++◌, Bool-cases,
  ltb, List, [], ◌∷◌, Option, none, some, ◌==◌, if◌then◌else◌, length, arith,
}
use osmini_project.Fs.{Superblock}
use osmini_project.Fs.Table.{State, iget, idup, ilock, iunlock, iunlockput, iput}
use osmini_project.Fs.Dir.{dirlookup}
use osmini_project.Fs.Path.{
  slash, skipelem, namex_body, namex_end, namex_from, namex, Result, is_empty, copy_name, give_up,
  drop, take, rootdev, rootino,
}
use osmini_project.Fs.Path.Elements.{
  Skipelem, no_element, element, skipelem-Skipelem, elements, is_nil,
}

-- The array `name`, with `room` bytes, when an element is there: its bytes, and a 0 if there is room.
abbrev pub name_of : (room : ℕ) → (element name : List ℕ) → List ℕ
name_of zero s name = name
name_of (suc room) [] [] = 0 ∷ []
name_of (suc room) [] (b ∷ name) = 0 ∷ name
name_of (suc room) (c ∷ s) [] = c ∷ name_of room s []
name_of (suc room) (c ∷ s) (b ∷ name) = c ∷ name_of room s name

drop_none : (n : ℕ) → drop n [] ≡ []
drop_none zero = refl
drop_none (suc n) = refl

name_of-copy :
    (room : ℕ) (s name : List ℕ)
    → (if ltb (length s) room
        then s ++ 0 ∷ drop (suc (length s)) name
        else take room s ++ drop room name)
      ≡ name_of room s name
name_of-copy zero s name = let full : ltb (length s) 0 ≡ false = ground arith in rw full
name_of-copy (suc room) [] [] = let fits : ltb 0 (suc room) ≡ true = ground arith in rw fits
name_of-copy (suc room) [] (b ∷ name) = let fits : ltb 0 (suc room) ≡ true = ground arith in rw fits
name_of-copy (suc room) (c ∷ s) [] = elim (Bool-cases (ltb (length s) room)) [
  | inl e ↦
      let e' : ltb (suc (length s)) (suc room) ≡ true = ground arith in
      rw (e', ap (λ l. c ∷ l) (sym (name_of-copy room s []))) (rw (e, drop_none (suc (length s))))
  | inr e ↦
      let e' : ltb (suc (length s)) (suc room) ≡ false = ground arith in
      rw (e', ap (λ l. c ∷ l) (sym (name_of-copy room s []))) (rw (e, drop_none room))
]
name_of-copy (suc room) (c ∷ s) (b ∷ name) = elim (Bool-cases (ltb (length s) room)) [
  | inl e ↦
      let e' : ltb (suc (length s)) (suc room) ≡ true = ground arith in
      rw (e', ap (λ l. c ∷ l) (sym (name_of-copy room s name))) (rw e)
  | inr e ↦
      let e' : ltb (suc (length s)) (suc room) ≡ false = ground arith in
      rw (e', ap (λ l. c ∷ l) (sym (name_of-copy room s name))) (rw e)
]

copy_name-name_of : (s name : List ℕ) → copy_name s name ≡ name_of 14 s name
unfolding copy_name
copy_name-name_of s name = name_of-copy 14 s name

module _ (sb : Superblock) where
  -- The walk along the elements of a path, one by one. At each of them the inode has to be a directory; the
  -- last one is not looked up if the parent is wanted.
  unfoldable pub resolve :
      (parent : Bool) → List (List ℕ) → (name : List ℕ) → (ip : ℕ) → State → Result
  resolve false [] name ip k = some (some ip, name, k)
  resolve true [] name ip k = elim (iput sb ip k) [ none ↦ none | some k1 ↦ some (none, name, k1) ]
  resolve parent (s ∷ ss) name ip k = elim (ilock ip k) [
    | none ↦ none
    | some k1 ↦ elim ((k1.inode ip).kind == 1) [
      | false ↦ elim (iunlockput sb ip k1) [
        | none ↦ none
        | some k2 ↦ some (none, name_of 14 s name, k2)
      ]
      | true ↦ elim (parent && is_nil ss) [
        | true ↦ elim (iunlock ip k1) [
          | none ↦ none
          | some k2 ↦ some (some ip, name_of 14 s name, k2)
        ]
        | false ↦ elim (dirlookup sb ip (name_of 14 s name) k1) [
          | none ↦ none
          | some (none, k2) ↦ elim (iunlockput sb ip k2) [
            | none ↦ none
            | some k3 ↦ some (none, name_of 14 s name, k3)
          ]
          | some (some (_, next), k2) ↦ elim (iunlockput sb ip k2) [
            | none ↦ none
            | some k3 ↦ resolve parent ss (name_of 14 s name) next k3
          ]
        ]
      ]
    ]
  ]

  resolve_end :
      (parent : Bool) (name : List ℕ) (ip : ℕ) (k : State)
      → namex_end sb parent name ip k ≡ resolve parent [] name ip k
  unfolding namex_end resolve
  resolve_end false name ip k = refl
  resolve_end true name ip k = refl

  resolve_step :
      (parent : Bool) (s : List ℕ) (ss : List (List ℕ)) (name : List ℕ) (ip : ℕ) (k : State)
      → namex_body sb
          (resolve parent ss (name_of 14 s name))
          parent
          (is_nil ss)
          (name_of 14 s name)
          ip
          k
        ≡ resolve parent (s ∷ ss) name ip k
  unfolding namex_body resolve give_up
  resolve_step false s ss name ip k = refl
  resolve_step true s ss name ip k = refl

  namex_body-agree :
      (f g : ℕ → State → Result) (parent last : Bool) (name : List ℕ) (ip : ℕ) (k : State)
      → ((next : ℕ) (k : State) → f next k ≡ g next k)
      → namex_body sb f parent last name ip k ≡ namex_body sb g parent last name ip k
  namex_body-agree f g parent last name ip k h =
      ap (λ c. namex_body sb c parent last name ip k) (λ t next k. h next k t)

  -- One round.
  round-resolve :
      (f : List ℕ → List ℕ → ℕ → State → Result) (parent : Bool) (path name : List ℕ) (ip : ℕ)
      (k : State) (e : Option (List ℕ × List ℕ))
      → ((rest name : List ℕ) (next : ℕ) (k : State)
          → length rest < length path
          → f rest name next k ≡ resolve parent (elements rest) name next k)
      → Skipelem path name e
      → elim e as (λ _. Result) [
        | none ↦ namex_end sb parent name ip k
        | some (path1, name1) ↦ namex_body sb (f path1 name1) parent (is_empty path1) name1 ip k
      ]
        ≡ resolve parent (elements path) name ip k
  round-resolve f parent path name ip k _ h (no_element e) =
      resolve_end parent name ip k ∙ sym (ap (λ ss. resolve parent ss name ip k) e)
  round-resolve f parent path name ip k _ h (element s rest e shorter last) =
      namex_body-agree (f rest (copy_name s name))
        (resolve parent (elements rest) (copy_name s name)) parent (is_empty rest)
        (copy_name s name) ip k (λ next k. h rest (copy_name s name) next k shorter)
      ∙ ap
          (λ b.
            namex_body sb (resolve parent (elements rest) (copy_name s name)) parent b
              (copy_name s name) ip k)
          last
      ∙ ap
          (λ n.
            namex_body sb (resolve parent (elements rest) n) parent (is_nil (elements rest)) n ip k)
          (copy_name-name_of s name)
      ∙ resolve_step parent s (elements rest) name ip k
      ∙ sym (ap (λ ss. resolve parent ss name ip k) e)

  -- More rounds than the path is long are enough for the walk.
  pub namex_from-resolve :
      (rounds : ℕ) (parent : Bool) (path name : List ℕ) (ip : ℕ) (k : State)
      → length path < rounds
      → namex_from sb rounds parent path name ip k ≡ resolve parent (elements path) name ip k
  unfolding namex_from
  namex_from-resolve zero parent path name ip k enough = absurd (omega arith)
  namex_from-resolve (suc rounds) parent path name ip k enough =
      round-resolve (namex_from sb rounds parent) parent path name ip k (skipelem path name)
        (λ rest name next k shorter.
          namex_from-resolve rounds parent rest name next k (omega arith))
        (skipelem-Skipelem path name)

  -- The inode where a path starts.
  abbrev pub start : (cwd : ℕ) → List ℕ → State → Option (ℕ × State)
  start cwd [] k = some (idup cwd k)
  start cwd (c ∷ path) k = if c == slash then iget rootdev rootino k else some (idup cwd k)

  after_start :
      (r : Option (ℕ × State)) (parent : Bool) (path name : List ℕ)
      → elim r as (λ _. Result) [
        | none ↦ none
        | some (ip, k) ↦ namex_from sb (suc (length path)) parent path name ip k
      ]
        ≡ elim r as (λ _. Result) [
          | none ↦ none
          | some (ip, k) ↦ resolve parent (elements path) name ip k
        ]
  after_start none parent path name = refl
  after_start (some (ip, k)) parent path name =
      namex_from-resolve (suc (length path)) parent path name ip k (omega arith)

  -- `namex` is the walk along the elements of the path, from the root or the working directory: its loop has
  -- enough rounds for every path, and `name` gets each element that is reached.
  pub namex-resolve :
      (cwd : ℕ) (path name : List ℕ) (parent : Bool) (k : State)
      → namex sb cwd path parent name k ≡ elim (start cwd path k) as (λ _. Result) [
        | none ↦ none
        | some (ip, k1) ↦ resolve parent (elements path) name ip k1
      ]
  unfolding namex
  namex-resolve cwd [] name parent k =
      namex_from-resolve 1 parent [] name (idup cwd k).0 (idup cwd k).1 (omega arith)
  namex-resolve cwd (c ∷ path) name parent k =
      after_start (start cwd (c ∷ path) k) parent (c ∷ path) name
