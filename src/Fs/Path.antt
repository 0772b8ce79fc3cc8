-- ===== src/Fs/Path.antt =====
-- kernel/fs.c: `skipelem` and `namex`. A path is the list of its bytes up to the NUL.
pub mod Elements
pub mod Resolve
pub mod Unlocked
use osmini_project.Base.{
  ℕ, zero, suc, ◌+◌, ◌-◌, Bool, true, false, not, ◌&&◌, List, [], ◌∷◌, ◌++◌, Option, none, some,
  ◌==◌, ltb, if◌then◌else◌, length,
}
use osmini_project.Fs.{Superblock}
use osmini_project.Fs.Table.{State, iget, idup, ilock, iunlock, iunlockput, iput}
use osmini_project.Fs.Dir.{t_dir, dirsiz, dirlookup}

abbrev pub slash : ℕ
slash = 47

abbrev pub rootdev : ℕ
rootdev = 1

abbrev pub rootino : ℕ
rootino = 1

-- `while(*path == '/') path++`.
unfoldable pub skip_slashes : List ℕ → List ℕ
skip_slashes [] = []
skip_slashes (c ∷ path) = let rest = skip_slashes path in if c == slash then rest else c ∷ path

-- `while(*path != '/' && *path != 0) path++`: what is passed over, and the rest.
unfoldable pub take_element : List ℕ → List ℕ × List ℕ
take_element [] = ([], [])
take_element (c ∷ path) =
    let rest = take_element path in if c == slash then ([], c ∷ path) else (c ∷ rest.0, rest.1)

abbrev pub take : ℕ → List ℕ → List ℕ
take zero s = []
take (suc n) [] = []
take (suc n) (c ∷ s) = c ∷ take n s

abbrev pub drop : ℕ → List ℕ → List ℕ
drop zero s = s
drop (suc n) [] = []
drop (suc n) (c ∷ s) = drop n s

-- The bytes of an element in the array `name`, with a NUL after them if there is room.
unfoldable pub copy_name : List ℕ → List ℕ → List ℕ
copy_name s name =
    if ltb (length s) dirsiz
    then s ++ 0 ∷ drop (suc (length s)) name
    else take dirsiz s ++ drop dirsiz name

-- The rest of the path and `name`, or `none` for 0.
unfoldable pub skipelem : List ℕ → List ℕ → Option (List ℕ × List ℕ)
skipelem path name = elim (skip_slashes path) [
  | [] ↦ none
  | c ∷ path ↦ let (s, rest) = take_element (c ∷ path) in some (skip_slashes rest, copy_name s name)
]

abbrev pub is_empty : List ℕ → Bool
is_empty [] = true
is_empty (c ∷ s) = false

-- What `namex` returns: the inode or the null pointer, and `name`.
abbrev pub Result : Type 0
Result = Option (Option ℕ × List ℕ × State)

module _ (sb : Superblock) where
  -- `iunlockput(ip); return 0`.
  unfoldable pub give_up : (ip : ℕ) → List ℕ → State → Result
  give_up ip name k = elim (iunlockput sb ip k) [ none ↦ none | some k1 ↦ some (none, name, k1) ]

  -- The body of the loop of `namex`, after `skipelem`, with the rest of the loop as `continue` and whether
  -- `*path == '\0'` as `last`; `none` is a panic.
  unfoldable pub namex_body :
      (continue : ℕ → State → Result)
      → (parent last : Bool) → (name : List ℕ) → (ip : ℕ) → State
      → Result
  namex_body continue parent last name ip k = elim (ilock ip k) [
    | none ↦ none
    | some k1 ↦ elim ((k1.inode ip).kind == t_dir) [
      | false ↦ give_up ip name k1
      | true ↦ elim (parent && last) [
        | true ↦ elim (iunlock ip k1) [ none ↦ none | some k2 ↦ some (some ip, name, k2) ]
        | false ↦ elim (dirlookup sb ip name k1) [
          | none ↦ none
          | some (none, k2) ↦ give_up ip name k2
          | some (some (_, next), k2) ↦ elim (iunlockput sb ip k2) [
            | none ↦ none
            | some k3 ↦ continue next k3
          ]
        ]
      ]
    ]
  ]

  -- What follows the loop.
  unfoldable pub namex_end : (parent : Bool) → (name : List ℕ) → (ip : ℕ) → State → Result
  namex_end false name ip k = some (some ip, name, k)
  namex_end true name ip k = elim (iput sb ip k) [ none ↦ none | some k1 ↦ some (none, name, k1) ]

  unfoldable pub namex_from :
      (rounds : ℕ) → (parent : Bool) → (path name : List ℕ) → (ip : ℕ) → State → Result
  namex_from zero parent path name ip k = none
  namex_from (suc rounds) parent path name ip k = elim (skipelem path name) [
    | none ↦ namex_end parent name ip k
    | some (path1, name1) ↦
        namex_body (namex_from rounds parent path1 name1) parent (is_empty path1) name1 ip k
  ]

  -- `namex` for a process whose working directory is `cwd`.
  unfoldable pub namex :
      (cwd : ℕ) → (path : List ℕ) → (parent : Bool) → (name : List ℕ) → State → Result
  namex cwd path parent name k =
      let start : Option (ℕ × State) = elim path [
        | [] ↦ some (idup cwd k)
        | c ∷ _ ↦ if c == slash then iget rootdev rootino k else some (idup cwd k)
      ] in
      elim start [
        | none ↦ none
        | some (ip, k1) ↦ namex_from (suc (length path)) parent path name ip k1
      ]

  unfoldable pub namei : (cwd : ℕ) → (path name : List ℕ) → State → Result
  namei cwd path name k = namex cwd path false name k

  unfoldable pub nameiparent : (cwd : ℕ) → (path name : List ℕ) → State → Result
  nameiparent cwd path name k = namex cwd path true name k
