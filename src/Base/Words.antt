-- ===== src/Base/Words.antt =====
-- `uint` and `int` as 32-bit patterns below 2 ^ 32: `int` values from 2 ^ 31 on are negative. The
-- kernel is compiled for a two's complement machine, so signed sums wrap like unsigned ones.
use Prim.Native.Nat.{ℕ, ◌+◌, ◌-◌, ◌%◌, ◌^◌, ◌<◌}
use mathlib.Core.Path.{◌≡◌}
use mathlib.Core.Bool.{Bool, ◌||◌}
use native.Mathlib.Omega.{arith}
use osmini_project.Base.Tests.{leb, ◌==◌, if◌then◌else◌}

abbrev pub u32 : ℕ → ℕ
u32 n = n % 2 ^ 32

abbrev pub add32 : ℕ → ℕ → ℕ
add32 a b = (a + b) % 2 ^ 32

abbrev pub sub32 : ℕ → ℕ → ℕ
sub32 a b = (a + 2 ^ 32 - b % 2 ^ 32) % 2 ^ 32

-- `x < 0` of an `int`.
abbrev pub is_negative : ℕ → Bool
is_negative x = leb (2 ^ 31) x

-- `x <= 0` of an `int`.
abbrev pub is_nonpositive : ℕ → Bool
is_nonpositive x = (x == 0) || is_negative x

-- `uint64` sums, and the conversion of an `int` to `uint64`, which extends its sign.
abbrev pub add64 : ℕ → ℕ → ℕ
add64 a b = (a + b) % 2 ^ 64

abbrev pub sext64 : ℕ → ℕ
sext64 x = if is_negative x then x + (2 ^ 64 - 2 ^ 32) else x

abbrev pub minus_one : ℕ
minus_one = 2 ^ 32 - 1

-- A difference of two readings of a wrapping clock is the time in between.
pub sub32-add32 : (t d : ℕ) → t < 2 ^ 32 → d < 2 ^ 32 → sub32 (add32 t d) t ≡ d
sub32-add32 t d ht hd = omega arith
