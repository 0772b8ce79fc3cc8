-- ===== src/Fs/Bits.antt =====
-- kernel/fs.c: the bits of a byte, and the words of a block.
use osmini_project.Base.{
  ℕ, zero, suc, ◌+◌, ◌-◌, ◌*◌, ◌/◌, ◌%◌, ◌^◌, ◌<◌, ◌≡◌, Bool, true, false, ◌==◌, if◌then◌else◌,
  arith, Bool-cases, inl, inr,
}

-- `(byte & (1 << k)) != 0`.
unfoldable pub bit : (byte k : ℕ) → Bool
bit byte zero = byte % 2 == 1
bit byte (suc k) = bit (byte / 2) k

-- `byte | (1 << k)` and `byte & ~(1 << k)`.
unfoldable pub set_bit : (byte k : ℕ) → ℕ
set_bit byte zero = if byte % 2 == 1 then byte else byte + 1
set_bit byte (suc k) = byte % 2 + 2 * set_bit (byte / 2) k

unfoldable pub clear_bit : (byte k : ℕ) → ℕ
clear_bit byte zero = byte - byte % 2
clear_bit byte (suc k) = byte % 2 + 2 * clear_bit (byte / 2) k

pub bit-set_bit : (byte k j : ℕ) → bit (set_bit byte k) j ≡ (if j == k then true else bit byte j)
unfolding bit set_bit
bit-set_bit byte zero zero = ground arith
bit-set_bit byte zero (suc j) =
    let half : (if byte % 2 == 1 then byte else byte + 1) / 2 ≡ byte / 2 = ground arith in
    let other : (suc j == zero) ≡ false = ground arith in rw (other, half)
bit-set_bit byte (suc k) zero = ground arith
bit-set_bit byte (suc k) (suc j) =
    let half : (byte % 2 + 2 * set_bit (byte / 2) k) / 2 ≡ set_bit (byte / 2) k = omega arith in
    rw half (ground (arith, bit-set_bit (byte / 2) k j))

pub bit-clear_bit :
    (byte k j : ℕ) → bit (clear_bit byte k) j ≡ (if j == k then false else bit byte j)
unfolding bit clear_bit
bit-clear_bit byte zero zero = ground arith
bit-clear_bit byte zero (suc j) =
    let half : (byte - byte % 2) / 2 ≡ byte / 2 = omega arith in
    let other : (suc j == zero) ≡ false = ground arith in rw (other, half)
bit-clear_bit byte (suc k) zero = ground arith
bit-clear_bit byte (suc k) (suc j) =
    let half : (byte % 2 + 2 * clear_bit (byte / 2) k) / 2 ≡ clear_bit (byte / 2) k = omega arith in
    rw half (ground (arith, bit-clear_bit (byte / 2) k j))

-- Entry `i` of a block that is read as an array of `uint`.
abbrev pub word_at : (ℕ → ℕ) → ℕ → ℕ
word_at blk i =
    blk (4 * i) + 2 ^ 8 * blk (4 * i + 1) + 2 ^ 16 * blk (4 * i + 2) + 2 ^ 24 * blk (4 * i + 3)

-- Byte `k` of a `uint`.
abbrev pub word_byte : (v k : ℕ) → ℕ
word_byte v k =
    if k == 0
    then v % 2 ^ 8
    else if k == 1
    then v / 2 ^ 8 % 2 ^ 8
    else if k == 2
    then v / 2 ^ 16 % 2 ^ 8
    else v / 2 ^ 24 % 2 ^ 8

unfoldable pub put_word : (ℕ → ℕ) → ℕ → ℕ → ℕ → ℕ
put_word blk i v o = if o / 4 == i then word_byte v (o % 4) else blk o

put_word_byte :
    (blk : ℕ → ℕ) (i v j k : ℕ)
    → k < 4
    → put_word blk i v (4 * j + k) ≡ (if j == i then word_byte v k else blk (4 * j + k))
unfolding put_word
put_word_byte blk i v j k lt =
    let word : (4 * j + k) / 4 ≡ j = omega arith in
    let byte : (4 * j + k) % 4 ≡ k = omega arith in rw (word, byte)

put_word_first :
    (blk : ℕ → ℕ) (i v j : ℕ)
    → put_word blk i v (4 * j) ≡ (if j == i then word_byte v 0 else blk (4 * j))
unfolding put_word
put_word_first blk i v j =
    let word : 4 * j / 4 ≡ j = omega arith in
    let byte : 4 * j % 4 ≡ 0 = omega arith in rw (word, byte)

pub word_at-put_word :
    (blk : ℕ → ℕ) (i v j : ℕ)
    → v < 2 ^ 32
    → word_at (put_word blk i v) j ≡ (if j == i then v else word_at blk j)
word_at-put_word blk i v j h =
    rw
      (
        put_word_first blk i v j,
        put_word_byte blk i v j 1 (omega arith),
        put_word_byte blk i v j 2 (omega arith),
        put_word_byte blk i v j 3 (omega arith),
      )
      (elim (Bool-cases (j == i)) [ inl e ↦ rw e (omega arith) | inr e ↦ rw e ])
