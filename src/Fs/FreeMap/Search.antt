-- ===== src/Fs/FreeMap/Search.antt =====
-- kernel/fs.c: what the search of `balloc` finds in the free map.
use osmini_project.Base.{
  ◌≢◌, dec_lt, subst, ℕ, zero, suc, ◌+◌, ◌*◌, ◌/◌, ◌%◌, ◌≤◌, ◌<◌, ◌≡◌, inl, inr, sym, ap, ◌∙◌, Bool,
  true, false, none, some, some-injective, arith, ◌==◌, ltb, if◌then◌else◌, update, update_self,
  update_ne, Bool-cases, Option-cases, ℕ_discrete,
}
use osmini_project.Fs.{Superblock, Disk, bsize, bpb}
use osmini_project.Fs.Bits.{bit}
use osmini_project.Fs.FreeMap.{map_bit, find_bit, find_free}

-- Whether block `b` is in use.
abbrev pub in_use : Disk → ℕ → Bool
in_use d b = bit (d.map (b / 8)) (b % 8)

-- A block in use is not a free one.
pub used_not_free : (d : Disk) {a b : ℕ} → in_use d b ≡ true → in_use d a ≡ false → b ≢ a
used_not_free d used free e = let clash : true ≡ false = sym used ∙ ap (in_use d) e ∙ free in cc

pub map_bit_lem :
    (d : Disk) (k bi : ℕ) → bi < bpb → map_bit d (k * bpb) bi ≡ in_use d (k * bpb + bi)
map_bit_lem d k bi lt =
    let byte : k * bpb / bpb * bsize + bi / 8 ≡ (k * bpb + bi) / 8 = omega arith in
    let place : bi % 8 ≡ (k * bpb + bi) % 8 = omega arith in
    ap (λ i. bit (d.map i) (bi % 8)) byte ∙ ap (bit (d.map ((k * bpb + bi) / 8))) place

pub map_bit-mod : (d : Disk) (b : ℕ) → map_bit d b (b % bpb) ≡ in_use d b
map_bit-mod d b =
    let byte : b / bpb * bsize + b % bpb / 8 ≡ b / 8 = omega arith in
    let place : b % bpb % 8 ≡ b % 8 = omega arith in
    ap (λ i. bit (d.map i) (b % bpb % 8)) byte ∙ ap (bit (d.map (b / 8))) place

-- The map with the bit of block `b` changed.
pub with_bit :
    (d : Disk) (b c v : ℕ) (t : Bool)
    → ((j : ℕ) → bit v j ≡ (if j == b % 8 then t else bit (d.map (b / 8)) j))
    → in_use (record d { map = update d.map (b / 8) v }) c ≡ (if c == b then t else in_use d c)
with_bit d b c v t h = elim (ℕ_discrete (c / 8) (b / 8)) [
  | yes same ↦
      let agree : (c % 8 == b % 8) ≡ (c == b) = ground arith in
      rw (same, update_self d.map (b / 8) v)
        (h (c % 8) ∙ ap (λ x. if x then t else bit (d.map (b / 8)) (c % 8)) agree)
  | no ne ↦
      let other : (c == b) ≡ false = ground arith in
      rw (update_ne d.map (b / 8) v (c / 8) ne, other)
]

-- The first bit that `find_bit` meets.
abbrev pub IsFirst : Disk → (from b : ℕ) → Type 0
IsFirst d from b = (in_use d b ≡ false) × ((c : ℕ) → from ≤ c → c < b → in_use d c ≡ true)

module _ (sb : Superblock) where
  find_bit-eq-some :
      (rounds k bi : ℕ) (d : Disk) {n : ℕ}
      → bi + rounds ≤ bpb
      → find_bit sb rounds (k * bpb) bi d ≡ some n
      → (n < bpb) × (k * bpb + n < sb.size) × IsFirst d (k * bpb + bi) (k * bpb + n)
  unfolding find_bit
  find_bit-eq-some zero k bi d room e = cc
  find_bit-eq-some (suc rounds) k bi d {n} room e = elim (Bool-cases (ltb (k * bpb + bi) sb.size)) [
    | inr far ↦ cc (rw far at e)
    | inl near ↦ elim (Bool-cases (map_bit d (k * bpb) bi)) [
      | inr free ↦
          let same : bi ≡ n = some-injective _ _ (rw (near, free) at e) in
          subst (λ n. (n < bpb) × (k * bpb + n < sb.size) × IsFirst d (k * bpb + bi) (k * bpb + n))
            same
            (
              omega arith,
              ground arith,
              (sym (map_bit_lem d k bi (omega arith)) ∙ free, λ c le lt. absurd (omega arith)),
            )
      | inl used ↦
          let (small, inside, (free, before)) =
            find_bit-eq-some rounds k (bi + 1) d (omega arith) (rw (near, used) at e) in
          (
            small,
            inside,
            (
              free,
              λ c le lt. elim (ℕ_discrete (k * bpb + bi) c) [
                | yes here ↦
                    subst (λ c. in_use d c ≡ true) here
                      (sym (map_bit_lem d k bi (omega arith)) ∙ used)
                | no ne ↦ before c (omega arith) lt
              ],
            ),
          )
    ]
  ]

  find_bit-eq-none :
      (rounds k bi : ℕ) (d : Disk)
      → bi + rounds ≤ bpb
      → find_bit sb rounds (k * bpb) bi d ≡ none
      → (c : ℕ) → k * bpb + bi ≤ c
      → c < k * bpb + bi + rounds
      → c < sb.size
      → in_use d c ≡ true
  unfolding find_bit
  find_bit-eq-none zero k bi d room e c le lt small = absurd (omega arith)
  find_bit-eq-none (suc rounds) k bi d room e c le lt small =
      elim (Bool-cases (ltb (k * bpb + bi) sb.size)) [
        | inr far ↦ absurd (ground arith)
        | inl near ↦ elim (Bool-cases (map_bit d (k * bpb) bi)) [
          | inr free ↦ cc (rw (near, free) at e)
          | inl used ↦ elim (ℕ_discrete (k * bpb + bi) c) [
            | yes here ↦
                subst (λ c. in_use d c ≡ true) here (sym (map_bit_lem d k bi (omega arith)) ∙ used)
            | no ne ↦
                find_bit-eq-none rounds k (bi + 1) d (omega arith) (rw (near, used) at e) c
                  (omega arith) (omega arith) small
          ]
        ]
      ]

  -- `find_free` from the block `k` of the map on.
  pub find_free-eq-some :
      (rounds k : ℕ) (d : Disk) {b bi : ℕ}
      → find_free sb rounds (k * bpb) d ≡ some (b, bi)
      → (b % bpb ≡ 0) × (bi < bpb) × (b + bi < sb.size) × IsFirst d (k * bpb) (b + bi)
  unfolding find_free
  find_free-eq-some zero k d e = cc
  find_free-eq-some (suc rounds) k d {b} {bi} e =
      elim (Option-cases (find_bit sb bpb (k * bpb) 0 d)) [
        | inr (n, hit) ↦
            let (small, inside, (free, before)) = find_bit-eq-some bpb k 0 d (omega arith) hit in
            let whole : k * bpb % bpb ≡ 0 = omega arith in
            let first : IsFirst d (k * bpb) (k * bpb + n) =
              (free, λ c le lt. before c (omega arith) lt) in
            subst
              (λ (p : ℕ × ℕ).
                (p.0 % bpb ≡ 0)
                × (p.1 < bpb)
                × (p.0 + p.1 < sb.size)
                × IsFirst d (k * bpb) (p.0 + p.1))
              (some-injective _ _ (rw (hit, find_free) at e)) (whole, small, inside, first)
        | inl miss ↦
            let next : k * bpb + bpb ≡ suc k * bpb = omega arith in
            let (whole, small, inside, (free, before)) =
              find_free-eq-some rounds (suc k) d
                (sym (ap (λ x. find_free sb rounds x d) next) ∙ rw (miss, find_free) at e) in
            (
              whole,
              small,
              inside,
              (
                free,
                λ c le lt. elim (dec_lt c (suc k * bpb)) [
                  | yes here ↦
                      find_bit-eq-none bpb k 0 d (omega arith) miss c (omega arith) (omega arith)
                        (omega arith)
                  | no later ↦ before c (omega arith) lt
                ],
              ),
            )
      ]

  pub find_free-eq-none :
      (rounds k : ℕ) (d : Disk)
      → find_free sb rounds (k * bpb) d ≡ none
      → (c : ℕ) → k * bpb ≤ c
      → c < (k + rounds) * bpb
      → c < sb.size
      → in_use d c ≡ true
  unfolding find_free
  find_free-eq-none zero k d e c le lt small = absurd (omega arith)
  find_free-eq-none (suc rounds) k d e c le lt small =
      elim (Option-cases (find_bit sb bpb (k * bpb) 0 d)) [
        | inr (n, hit) ↦ cc (rw (hit, find_free) at e)
        | inl miss ↦ elim (dec_lt c (suc k * bpb)) [
          | yes here ↦
              find_bit-eq-none bpb k 0 d (omega arith) miss c (omega arith) (omega arith) small
          | no later ↦
              let next : k * bpb + bpb ≡ suc k * bpb = omega arith in
              find_free-eq-none rounds (suc k) d
                (sym (ap (λ x. find_free sb rounds x d) next) ∙ rw (miss, find_free) at e) c
                (omega arith) (omega arith) small
        ]
      ]
