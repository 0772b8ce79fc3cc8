-- ===== src/Files/Count.antt =====
-- kernel/file.c: a file has as many references as there are handles of it, and what it stands for is
-- closed with the last one.
use osmini_project.Base.{
  subst, ℕ, zero, suc, ◌+◌, ◌≤◌, ◌<◌, ◌^◌, ◌≡◌, refl, sym, ap, ◌∙◌, ◌≢◌, inl, inr, true, false,
  List, [], ◌∷◌, some, some-injective, arith, ◌==◌, if◌then◌else◌, Bool-cases, Option-cases, length,
  modify, get_or-modify_self, get_or-modify_ne, find_from, find_from-eq-some, ℕ_discrete, sub32,
  add32,
}
use osmini_project.Files.{
  File, zero_file, file_at, filealloc, filedup, fileclose, is_closed, is_shared, Kind, Closing,
  nothing, closes_pipe, puts_inode, closing, fd_none, fd_pipe, fd_inode, fd_device,
}

-- The number of handles of file `i`.
abbrev pub count : ℕ → List ℕ → ℕ
count i [] = 0
count i (h ∷ hs) = if h == i then suc (count i hs) else count i hs

abbrev pub drop_one : ℕ → List ℕ → List ℕ
drop_one i [] = []
drop_one i (h ∷ hs) = if h == i then hs else h ∷ drop_one i hs

-- Each file has as many references as handles, and there are fewer handles than an `int` counts.
pub record IsCounted (fs : List File) (handles : List ℕ) : Type 0 where
  pub refs : (i : ℕ) → (file_at fs i).ref ≡ count i handles
  pub few : length handles < 2 ^ 31

le-length : (i : ℕ) (hs : List ℕ) → count i hs ≤ length hs
le-length i [] = omega arith
le-length i (h ∷ hs) = ground (arith, le-length i hs)

count-drop_one : (i : ℕ) (hs : List ℕ) → 0 < count i hs → count i (drop_one i hs) + 1 ≡ count i hs
count-drop_one i [] lt = absurd (omega arith)
count-drop_one i (h ∷ hs) lt = elim (Bool-cases (h == i)) [
  | inl e ↦ rw e (omega arith)
  | inr e ↦ rw (e, drop_one, count) (ground (arith, count-drop_one i hs (rw e at lt)))
]

count-drop_ne : (i j : ℕ) (hs : List ℕ) → i ≢ j → count j (drop_one i hs) ≡ count j hs
count-drop_ne i j [] ne = refl
count-drop_ne i j (h ∷ hs) ne = elim (Bool-cases (h == i)) [
  | inl e ↦ let other : (h == j) ≡ false = ground arith in rw (e, other)
  | inr e ↦ rw e (ground (arith, count-drop_ne i j hs ne))
]

le-length-drop_one : (i : ℕ) (hs : List ℕ) → length (drop_one i hs) ≤ length hs
le-length-drop_one i [] = omega arith
le-length-drop_one i (h ∷ hs) = ground (arith, le-length-drop_one i hs)

-- A file with a handle is in the table.
in_table : (fs : List File) (i : ℕ) → 0 < (file_at fs i).ref → i < length fs
in_table [] i h = absurd (omega arith)
in_table (f ∷ fs) zero h = omega arith
in_table (f ∷ fs) (suc i) h = omega (arith, in_table fs i h)

rewrite-IsCounted :
    (i : ℕ) (f : File → File) (fs : List File) (handles handles' : List ℕ)
    → IsCounted fs handles
    → i < length fs
    → (f (file_at fs i)).ref ≡ count i handles'
    → ((j : ℕ) → i ≢ j → count j handles' ≡ count j handles)
    → length handles' < 2 ^ 31
    → IsCounted (modify fs i f) handles'
rewrite-IsCounted i f fs handles handles' v lt new others few = record {
  refs = λ j. elim (ℕ_discrete i j) [
    | yes e ↦
        subst (λ j. (file_at (modify fs i f) j).ref ≡ count j handles') e
          (ap (λ (g : File). g.ref) (get_or-modify_self fs i f zero_file lt) ∙ new)
    | no ne ↦
        ap (λ (g : File). g.ref) (get_or-modify_ne fs i j f zero_file ne)
        ∙ v.refs j
        ∙ sym (others j ne)
  ];
  few = few;
}

-- What is to be closed with the last handle of a file: a pipe at the end that the file is, or the inode
-- of a file or device.
pub data IsClosedBy (f : File) : Closing → Type 0 where
  no_kind : f.kind ≡ fd_none → IsClosedBy f nothing
  pipe_end : (pipe : ℕ) → f.kind ≡ fd_pipe pipe → IsClosedBy f (closes_pipe pipe f.writable)
  inode_ref : (ip : ℕ) → f.kind ≡ fd_inode ip → IsClosedBy f (puts_inode ip)
  device_ref : (ip major : ℕ) → f.kind ≡ fd_device ip major → IsClosedBy f (puts_inode ip)

closing-IsClosedBy : (f : File) → IsClosedBy f (closing f)
closing-IsClosedBy f = cases f.kind refl
  where
    cases : (kind : Kind) → f.kind ≡ kind → IsClosedBy f (closing (record f { kind = kind }))
    cases fd_none e = no_kind e
    cases (fd_pipe pipe) e = pipe_end pipe e
    cases (fd_inode ip) e = inode_ref ip e
    cases (fd_device ip major) e = device_ref ip major e

-- Closing a handle of a file never panics and leaves every count right. With the last handle the pipe end
-- or the inode that the file stands for is closed, also for a device; with any other, nothing.
pub fileclose_lem :
    (i : ℕ) (fs : List File) (handles : List ℕ)
    → IsCounted fs handles
    → 0 < count i handles
    → (fs' : List File) × (c : Closing) × (fileclose i fs ≡ some (fs', c))
      × IsCounted fs' (drop_one i handles)
      × (count i handles ≡ 1 → IsClosedBy (file_at fs i) c)
      × (count i handles ≢ 1 → c ≡ nothing)
unfolding fileclose
fileclose_lem i fs handles v held =
    let ref = v.refs i in
    let used : is_closed (file_at fs i) ≡ false = ground (arith, v.few, le-length i handles) in
    let lt = in_table fs i (omega (arith, ref)) in
    let fewer = count-drop_one i handles held in
    let short : length (drop_one i handles) < 2 ^ 31 =
      omega (arith, v.few, le-length-drop_one i handles) in
    let less : sub32 (file_at fs i).ref 1 ≡ count i (drop_one i handles) =
      omega (arith, v.few, le-length i handles) in
    elim (Bool-cases (count i handles == 1)) [
      | inl last ↦
          let gone : count i (drop_one i handles) ≡ 0 = ground arith in
          let alone : is_shared (file_at fs i) ≡ false = ground arith in
          (
            modify fs i (λ f. record f { ref = 0; kind = fd_none }),
            closing (file_at fs i),
            rw (used, alone),
            rewrite-IsCounted i _ fs handles (drop_one i handles) v lt (sym gone)
                (λ j ne. count-drop_ne i j handles ne) short,
            λ _. closing-IsClosedBy (file_at fs i),
            λ ne. absurd (ne (ground arith)),
          )
      | inr more ↦
          let shared : is_shared (file_at fs i) ≡ true =
            ground (arith, v.few, le-length i handles) in
          (
            modify fs i (λ f. record f { ref = sub32 f.ref 1 }),
            nothing,
            rw (used, shared),
            rewrite-IsCounted i _ fs handles (drop_one i handles) v lt less
                (λ j ne. count-drop_ne i j handles ne) short,
            λ one. absurd (ground arith),
            λ _. refl,
          )
    ]

-- A new handle of a file that has one never panics and leaves every count right.
pub filedup_lem :
    (i : ℕ) (fs : List File) (handles : List ℕ)
    → IsCounted fs handles
    → 0 < count i handles
    → length handles + 1 < 2 ^ 31
    → (fs' : List File) × (filedup i fs ≡ some fs') × IsCounted fs' (i ∷ handles)
unfolding filedup
filedup_lem i fs handles v held room =
    let ref = v.refs i in
    let used : is_closed (file_at fs i) ≡ false = ground (arith, v.few, le-length i handles) in
    let lt = in_table fs i (omega (arith, ref)) in
    (
      modify fs i (λ f. record f { ref = add32 f.ref 1 }),
      rw used,
      rewrite-IsCounted i _ fs handles (i ∷ handles) v lt
          (ground (arith, v.few, le-length i handles)) (λ j ne. ground arith) (omega arith),
    )

-- The file that `filealloc` gives had no handle, and has one then.
pub filealloc-eq-some :
    (fs : List File) (handles : List ℕ) {i : ℕ} {fs' : List File}
    → IsCounted fs handles
    → length handles + 1 < 2 ^ 31
    → filealloc fs ≡ some (i, fs')
    → (count i handles ≡ 0) × IsCounted fs' (i ∷ handles)
unfolding filealloc
filealloc-eq-some fs handles {i} {fs'} v room e =
    elim (Option-cases (find_from 0 (λ (f : File). f.ref == 0) fs)) [
      | inl full ↦ cc (rw (full, filealloc) at e)
      | inr (n, hit) ↦
          let (m, at, lt, free, _) = find_from-eq-some 0 (λ f. f.ref == 0) fs zero_file hit in
          let pair = some-injective _ _ (rw (hit, filealloc) at e) in
          let same : n ≡ i = ap (λ (r : ℕ × List File). r.0) pair in
          let here : m ≡ i = omega arith in
          let free' : ((file_at fs i).ref == 0) ≡ true = rw here at free in
          let unused : count i handles ≡ 0 = ground (arith, v.refs i) in
          (
            unused,
            subst (λ fs. IsCounted fs (i ∷ handles)) (ap (λ (r : ℕ × List File). r.1) pair)
                (subst (λ n. IsCounted (modify fs n (λ f. record f { ref = 1 })) (i ∷ handles))
                  (sym same)
                  (rewrite-IsCounted i _ fs handles (i ∷ handles) v (omega arith) (ground arith)
                    (λ j ne. ground arith) (omega arith))),
          )
    ]
