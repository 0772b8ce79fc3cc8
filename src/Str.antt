-- ===== src/Str.antt =====
-- kernel/string.c: byte strings. A buffer is the list of its bytes from the pointer on; a read past
-- the end of the list gives 0, and a write past it is lost, which the lengths in the theorems
-- exclude.
pub mod Copy
pub mod Compare
mod Tests
use osmini_project.Base.{
  ℕ, zero, suc, ◌+◌, ◌-◌, ◌%◌, not, ◌&&◌, List, [], ◌∷◌, ◌==◌, if◌then◌else◌, get_or, set, sub32,
  is_nonpositive,
}

abbrev pub uchar : ℕ → ℕ
uchar c = c % 256

-- `for(i = i0; i < n; i++) cdst[i] = c`, with `rounds = n - i0` to go.
unfoldable pub memset_from : ℕ → ℕ → ℕ → List ℕ → List ℕ
memset_from zero i c dst = dst
memset_from (suc rounds) i c dst = memset_from rounds (i + 1) c (set dst i (uchar c))

unfoldable pub memset : List ℕ → ℕ → ℕ → List ℕ
memset dst c n = memset_from n 0 c dst

-- The loop of `memcmp` from `s1[i]` and `s2[i]` on; the difference of two bytes is an `int`.
unfoldable pub memcmp_from : (i : ℕ) (s1 s2 : List ℕ) (n : ℕ) → ℕ
memcmp_from i s1 s2 zero = 0
memcmp_from i s1 s2 (suc n) =
    let a = get_or s1 i 0 in
    let b = get_or s2 i 0 in
    let rest = memcmp_from (i + 1) s1 s2 n in if a == b then rest else sub32 a b

unfoldable pub memcmp : List ℕ → List ℕ → ℕ → ℕ
memcmp s1 s2 n = memcmp_from 0 s1 s2 n

-- The loop of `strncmp` from `p[i]` and `q[i]` on, and its result.
unfoldable pub strncmp_from : (i : ℕ) (p q : List ℕ) (n : ℕ) → ℕ
strncmp_from i p q zero = 0
strncmp_from i p q (suc n) =
    let a = get_or p i 0 in
    let b = get_or q i 0 in
    let rest = strncmp_from (i + 1) p q n in if not (a == 0) && (a == b) then rest else sub32 a b

unfoldable pub strncmp : List ℕ → List ℕ → ℕ → ℕ
strncmp p q n = strncmp_from 0 p q n

-- The loops of `strncpy`: the copy, and the zeroes after it.
unfoldable pub pad : ℕ → List ℕ → List ℕ
pad zero s = s
pad (suc n) [] = []
pad (suc n) (x ∷ s) = 0 ∷ pad n s

unfoldable pub strncpy : List ℕ → List ℕ → ℕ → List ℕ
strncpy s t zero = s
strncpy [] t (suc n) = []
strncpy (x ∷ s) [] (suc n) = 0 ∷ pad n s
strncpy (x ∷ s) (c ∷ t) (suc n) =
    let rest = strncpy s t n in if c == 0 then 0 ∷ pad n s else c ∷ rest

abbrev pub write_nul : List ℕ → List ℕ
write_nul [] = []
write_nul (x ∷ s) = 0 ∷ s

-- The loop of `safestrcpy` with `--n` at `rounds`, and the write of the last 0.
unfoldable pub safe_copy : ℕ → List ℕ → List ℕ → List ℕ
safe_copy zero s t = write_nul s
safe_copy (suc rounds) [] t = []
safe_copy (suc rounds) (x ∷ s) [] = 0 ∷ write_nul s
safe_copy (suc rounds) (x ∷ s) (c ∷ t) =
    let rest = safe_copy rounds s t in if c == 0 then 0 ∷ write_nul s else c ∷ rest

unfoldable pub safestrcpy : List ℕ → List ℕ → ℕ → List ℕ
unfolding safe_copy
safestrcpy s t n = if is_nonpositive n then s else safe_copy (n - 1) s t

unfoldable pub strlen : List ℕ → ℕ
strlen [] = 0
strlen (c ∷ s) = let rest = strlen s in if c == 0 then 0 else rest + 1
