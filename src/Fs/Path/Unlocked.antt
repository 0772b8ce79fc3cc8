-- ===== src/Fs/Path/Unlocked.antt =====
-- kernel/fs.c: `namex` leaves no inode locked.
use osmini_project.Base.{
  ℕ, zero, suc, ◌+◌, ◌≡◌, refl, ap, ◌∙◌, inl, inr, Bool, true, false, not, ◌&&◌, ◌||◌, List, [],
  ◌∷◌, Option, none, some, some-injective, ◌==◌, ltb, if◌then◌else◌, Bool-cases, Option-cases,
  length, subst, update, is_nonpositive, if-cases,
}
use osmini_project.Fs.{Superblock, Inode, Disk}
use osmini_project.Fs.Content.{Mem, readi}
use osmini_project.Fs.Table.{
  State, iget, idup, ilock, iunlock, iunlockput, iput, free_inode, drop_ref,
}
use osmini_project.Fs.Table.Get.{Iget, hit, free, full, iget-Iget}
use osmini_project.Fs.Trunc.{itrunc}
use osmini_project.Fs.Dir.{
  t_dir, dirent_size, de_memory, de_inum, de_name, namecmp, dirlookup, lookup_from, read_entry,
}
use osmini_project.Fs.Path.{
  Result, skipelem, give_up, namex_body, namex_end, namex_from, namex, is_empty, slash, rootdev,
  rootino,
}

-- What holds of a result that there is.
abbrev OnSome : {A : Type 0} → (A → Type 0) → Option A → Type 0
OnSome P none = Unit {0}
OnSome P (some a) = P a

OnSome-bind :
    {A B : Type 0} (P : A → Type 0) (Q : B → Type 0) (x : Option A) (f : A → Option B)
    → OnSome P x
    → ((a : A) → P a → OnSome Q (f a))
    → OnSome Q (elim x as (λ _. Option B) [ none ↦ none | some a ↦ f a ])
OnSome-bind P Q none f h next = tt
OnSome-bind P Q (some a) f h next = next a h

OnSome-here : {A : Type 0} (P : A → Type 0) (x : Option A) {a : A} → OnSome P x → x ≡ some a → P a
OnSome-here P none h e = cc
OnSome-here P (some a) h e = subst P (some-injective _ _ e) h

abbrev pub IsUnlocked : State → Type 0
IsUnlocked k = (j : ℕ) → k.locked j ≡ false

-- Only inode `i` is locked.
abbrev IsHolding : (i : ℕ) → State → Type 0
IsHolding i k = (j : ℕ) → k.locked j ≡ (j == i)

-- The locks are those of the table `l`.
abbrev HasLocks : (ℕ → Bool) → State → Type 0
HasLocks l k = k.locked ≡ l

iget-HasLocks :
    (dev inum : ℕ) (k : State) → OnSome (λ (p : ℕ × State). HasLocks k.locked p.1) (iget dev inum k)
iget-HasLocks dev inum k = cases (iget dev inum k) (iget-Iget dev inum k)
  where
    cases :
        (r : Option (ℕ × State))
        → Iget dev inum k r
        → OnSome (λ (p : ℕ × State). HasLocks k.locked p.1) r
    cases _ (hit i _ _ _) = refl
    cases _ (free i _ _ _ _) = refl
    cases _ (full _ _) = tt

module _ (sb : Superblock) where
  read_entry-HasLocks :
      (dp off : ℕ) (k : State)
      → OnSome (λ (p : Mem × State). HasLocks k.locked p.1) (read_entry sb dp off k)
  unfolding read_entry
  read_entry-HasLocks dp off k = cases (readi sb de_memory 0 off dirent_size (k.inode dp) k.disk)
    where
      cases :
          (r : Option (Option ℕ × Inode × Disk × Mem))
          → OnSome
              (λ (p : Mem × State). HasLocks k.locked p.1)
              (elim r as (λ _. Option (Mem × State)) [
                | none ↦ none
                | some (none, _, _, _) ↦ none
                | some (some n, ip, d, de) ↦
                    if n == dirent_size
                    then some (de, record k { inode = update k.inode dp ip; disk = d })
                    else none
              ])
      cases none = tt
      cases (some (none, _, _, _)) = tt
      cases (some (some n, ip, d, de)) =
          if-cases (OnSome (λ (p : Mem × State). HasLocks k.locked p.1)) (n == dirent_size)
            (some (de, record k { inode = update k.inode dp ip; disk = d })) none refl tt

  lookup_from-HasLocks :
      (rounds off dp : ℕ) (name : List ℕ) (l : ℕ → Bool) (k : State)
      → HasLocks l k
      → OnSome
          (λ (p : Option (ℕ × ℕ) × State). HasLocks l p.1)
          (lookup_from sb rounds off dp name k)
  unfolding lookup_from
  lookup_from-HasLocks zero off dp name l k h = tt
  lookup_from-HasLocks (suc rounds) off dp name l k h =
      elim (Bool-cases (ltb off (k.inode dp).size)) [
        | inr end ↦ rw (end, lookup_from) h
        | inl going ↦
            rw (going, lookup_from)
              (OnSome-bind _ _ (read_entry sb dp off k) _ (read_entry-HasLocks dp off k) (λ p same.
                elim (Bool-cases (not (de_inum p.0 == 0) && namecmp name (de_name p.0) == 0)) [
                  | inr miss ↦
                      rw miss
                        (lookup_from-HasLocks rounds (off + dirent_size) dp name l p.1 (same ∙ h))
                  | inl found ↦ rw found (
                      OnSome-bind _ _ (iget (p.1.inode dp).dev (de_inum p.0) p.1) _
                        (iget-HasLocks (p.1.inode dp).dev (de_inum p.0) p.1)
                        (λ q same'. same' ∙ same ∙ h))
                ]))
      ]

  dirlookup-HasLocks :
      (dp : ℕ) (name : List ℕ) (k : State)
      → OnSome (λ (p : Option (ℕ × ℕ) × State). HasLocks k.locked p.1) (dirlookup sb dp name k)
  unfolding dirlookup
  dirlookup-HasLocks dp name k =
      if-cases (OnSome (λ (p : Option (ℕ × ℕ) × State). HasLocks k.locked p.1))
        (not ((k.inode dp).kind == t_dir)) none (lookup_from sb (suc (k.inode dp).size) 0 dp name k)
        tt (lookup_from-HasLocks (suc (k.inode dp).size) 0 dp name k.locked k refl)

  free_inode-HasLocks : (i : ℕ) (k : State) → OnSome (HasLocks k.locked) (free_inode sb i k)
  unfolding free_inode
  free_inode-HasLocks i k =
      OnSome-bind (λ _. Unit {0}) _ (itrunc sb (k.inode i) k.disk) _
        (any (itrunc sb (k.inode i) k.disk)) (λ p _. refl)
    where
      any : (x : Option (Inode × Disk)) → OnSome (λ _. Unit {0}) x
      any none = tt
      any (some p) = tt

  iput-HasLocks : (i : ℕ) (k : State) → OnSome (HasLocks k.locked) (iput sb i k)
  unfolding iput
  iput-HasLocks i k =
      let freed =
        OnSome-bind _ (HasLocks k.locked) (free_inode sb i k) (λ k1. some (drop_ref sb i k1))
          (free_inode-HasLocks i k) (λ k1 same. same) in
      if-cases (OnSome (HasLocks k.locked))
        ((k.inode i).ref == 1 && ((k.inode i).valid && (k.inode i).nlink == 0)) _ _
        (if-cases (OnSome (HasLocks k.locked)) (k.locked i) _ _ tt freed) refl

  ilock-IsHolding : (i : ℕ) (k : State) → IsUnlocked k → OnSome (IsHolding i) (ilock i k)
  unfolding ilock
  ilock-IsHolding i k h =
      let held : (j : ℕ) → update k.locked i true j ≡ (j == i) =
        λ j. elim (Bool-cases (j == i)) [ inl e ↦ rw e refl | inr e ↦ rw e (h j) ] in
      if-cases (OnSome (IsHolding i)) (is_nonpositive (k.inode i).ref) _ _ tt (
        if-cases (OnSome (IsHolding i)) (k.locked i) _ _ tt (
          if-cases (OnSome (IsHolding i)) (k.inode i).valid _ _ held (
            if-cases (OnSome (IsHolding i)) ((k.disk.dinode (k.inode i).inum).kind == 0) _ _ tt
              held)))

  iunlock-IsUnlocked : (i : ℕ) (k : State) → IsHolding i k → OnSome IsUnlocked (iunlock i k)
  unfolding iunlock
  iunlock-IsUnlocked i k h =
      if-cases (OnSome IsUnlocked) (not (k.locked i) || is_nonpositive (k.inode i).ref) _ _ tt
        (λ j. elim (Bool-cases (j == i)) [ inl e ↦ rw e refl | inr e ↦ rw e (h j ∙ e) ])

  iput-IsUnlocked : (i : ℕ) (k : State) → IsUnlocked k → OnSome IsUnlocked (iput sb i k)
  iput-IsUnlocked i k h = weaken (iput sb i k) (iput-HasLocks i k)
    where
      weaken : (x : Option State) → OnSome (HasLocks k.locked) x → OnSome IsUnlocked x
      weaken none _ = tt
      weaken (some k1) same = λ j. ap (λ l. l j) same ∙ h j

  iunlockput-IsUnlocked :
      (i : ℕ) (k : State) → IsHolding i k → OnSome IsUnlocked (iunlockput sb i k)
  unfolding iunlockput
  iunlockput-IsUnlocked i k h =
      OnSome-bind _ _ (iunlock i k) _ (iunlock-IsUnlocked i k h) (λ k1 h1. iput-IsUnlocked i k1 h1)

  abbrev EndsUnlocked : Result → Type 0
  EndsUnlocked = OnSome λ (r : Option ℕ × List ℕ × State). IsUnlocked r.2

  give_up-EndsUnlocked :
      (ip : ℕ) (name : List ℕ) (k : State) → IsHolding ip k → EndsUnlocked (give_up sb ip name k)
  unfolding give_up
  give_up-EndsUnlocked ip name k h =
      OnSome-bind _ _ (iunlockput sb ip k) _ (iunlockput-IsUnlocked ip k h) (λ k1 h1. h1)

  looked_up :
      (continue : ℕ → State → Result) (name : List ℕ) (ip : ℕ) (k : State)
      (x : Option (Option (ℕ × ℕ) × State))
      → ((next : ℕ) (k : State) → IsUnlocked k → EndsUnlocked (continue next k))
      → IsHolding ip k
      → OnSome (λ (p : Option (ℕ × ℕ) × State). HasLocks k.locked p.1) x
      → EndsUnlocked (elim x as (λ _. Result) [
        | none ↦ none
        | some (none, k2) ↦ give_up sb ip name k2
        | some (some (_, next), k2) ↦ elim (iunlockput sb ip k2) [
          | none ↦ none
          | some k3 ↦ continue next k3
        ]
      ])
  looked_up continue name ip k none h holding same = tt
  looked_up continue name ip k (some (none, k2)) h holding same =
      give_up-EndsUnlocked ip name k2 (λ j. ap (λ l. l j) same ∙ holding j)
  looked_up continue name ip k (some (some (_, next), k2)) h holding same =
      OnSome-bind _ _ (iunlockput sb ip k2) _
        (iunlockput-IsUnlocked ip k2 (λ j. ap (λ l. l j) same ∙ holding j)) (λ k3 h3. h next k3 h3)

  namex_body-EndsUnlocked :
      (continue : ℕ → State → Result) (parent last : Bool) (name : List ℕ) (ip : ℕ) (k : State)
      → ((next : ℕ) (k : State) → IsUnlocked k → EndsUnlocked (continue next k))
      → IsUnlocked k
      → EndsUnlocked (namex_body sb continue parent last name ip k)
  unfolding namex_body
  namex_body-EndsUnlocked continue parent last name ip k h start =
      OnSome-bind _ _ (ilock ip k) _ (ilock-IsHolding ip k start) (λ k1 holding.
        elim (Bool-cases ((k1.inode ip).kind == t_dir)) [
          | inr other ↦ rw other (give_up-EndsUnlocked ip name k1 holding)
          | inl dir ↦ elim (Bool-cases (parent && last)) [
            | inl stop ↦
                rw (dir, stop)
                  (OnSome-bind _ _ (iunlock ip k1) _ (iunlock-IsUnlocked ip k1 holding)
                    (λ k2 h2. h2))
            | inr on ↦
                rw (dir, on)
                  (looked_up continue name ip k1 (dirlookup sb ip name k1) h holding
                    (dirlookup-HasLocks ip name k1))
          ]
        ])

  namex_end-EndsUnlocked :
      (parent : Bool) (name : List ℕ) (ip : ℕ) (k : State)
      → IsUnlocked k
      → EndsUnlocked (namex_end sb parent name ip k)
  unfolding namex_end
  namex_end-EndsUnlocked false name ip k h = h
  namex_end-EndsUnlocked true name ip k h =
      OnSome-bind _ _ (iput sb ip k) _ (iput-IsUnlocked ip k h) (λ k1 h1. h1)

  namex_from-EndsUnlocked :
      (rounds : ℕ) (parent : Bool) (path name : List ℕ) (ip : ℕ) (k : State)
      → IsUnlocked k
      → EndsUnlocked (namex_from sb rounds parent path name ip k)
  unfolding namex_from
  namex_from-EndsUnlocked zero parent path name ip k h = tt
  namex_from-EndsUnlocked (suc rounds) parent path name ip k h =
      elim (Option-cases (skipelem path name)) [
        | inl none_left ↦ rw (none_left, namex_from) (namex_end-EndsUnlocked parent name ip k h)
        | inr ((rest, name'), e) ↦
            rw (e, namex_from)
              (namex_body-EndsUnlocked (namex_from sb rounds parent rest name') parent
                (is_empty rest) name' ip k
                (λ next k1 h1. namex_from-EndsUnlocked rounds parent rest name' next k1 h1) h)
      ]

  started :
      (parent : Bool) (path name : List ℕ) (k : State) (x : Option (ℕ × State))
      → IsUnlocked k
      → OnSome (λ (p : ℕ × State). HasLocks k.locked p.1) x
      → EndsUnlocked (elim x as (λ _. Result) [
        | none ↦ none
        | some (ip, k1) ↦ namex_from sb (suc (length path)) parent path name ip k1
      ])
  started parent path name k none h same = tt
  started parent path name k (some (ip, k1)) h same =
      namex_from-EndsUnlocked (suc (length path)) parent path name ip k1
        (λ j. ap (λ l. l j) same ∙ h j)

  namex-EndsUnlocked :
      (cwd : ℕ) (path name : List ℕ) (parent : Bool) (k : State)
      → IsUnlocked k
      → EndsUnlocked (namex sb cwd path parent name k)
  unfolding namex idup
  namex-EndsUnlocked cwd [] name parent k h = started parent [] name k (some (idup cwd k)) h refl
  namex-EndsUnlocked cwd (c ∷ path) name parent k h =
      started parent (c ∷ path) name k
        (if c == slash then iget rootdev rootino k else some (idup cwd k)) h
        (if-cases (OnSome λ (p : ℕ × State). HasLocks k.locked p.1) (c == slash) _ _
          (iget-HasLocks rootdev rootino k) refl)

  -- When no inode is locked at the start of `namex`, and it comes back, none is locked then, whether it
  -- gives an inode or not.
  pub namex-IsUnlocked :
      (cwd : ℕ) (path name name' : List ℕ) (parent : Bool) (r : Option ℕ) (k k' : State)
      → IsUnlocked k
      → namex sb cwd path parent name k ≡ some (r, name', k')
      → IsUnlocked k'
  namex-IsUnlocked cwd path name name' parent r k k' h e =
      OnSome-here (λ (r : Option ℕ × List ℕ × State). IsUnlocked r.2)
        (namex sb cwd path parent name k) (namex-EndsUnlocked cwd path name parent k h) e
