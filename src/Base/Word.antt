-- ===== src/Base/Word.antt =====
-- Integers of C. A `size_t` or `uint64_t` is a number below 2 ^ 64; an `ssize_t` is kept as the
-- same 64 bits, so that the conversions between the two are the identity, as they are in C.
use Prim.Native.Nat.{ℕ, ◌+◌, ◌-◌, ◌*◌, ◌/◌, ◌%◌, ◌^◌}
use mathlib.Core.Bool.{Bool}
use psplay.Base.Tests.{leb, ltb, if◌then◌else◌}

-- `a + b` and `a - b` on `size_t`; 2 ^ 64 is added first since `-` on ℕ stops at 0.
abbrev pub add_size : ℕ → ℕ → ℕ
add_size a b = (a + b) % 2 ^ 64

abbrev pub sub_size : ℕ → ℕ → ℕ
sub_size a b = (a + 2 ^ 64 - b) % 2 ^ 64

abbrev pub mul_size : ℕ → ℕ → ℕ
mul_size a b = a * b % 2 ^ 64

-- The sign bit of an `ssize_t`, and the pattern of `-e`.
abbrev pub is_negative : ℕ → Bool
is_negative w = leb (2 ^ 63) w

abbrev pub neg_errno : ℕ → ℕ
neg_errno e = 2 ^ 64 - e

-- The error numbers of <errno.h> on Linux.
abbrev pub e2big : ℕ
e2big = 7

abbrev pub emsgsize : ℕ
emsgsize = 90

-- BIT_ONES(n) and MASK(N)
abbrev pub bit_ones : ℕ → ℕ
bit_ones n = 2 ^ n - 1

infixl 75 ◌<<<◌ ◌>>>◌
abbrev pub ◌<<<◌ : ℕ → ℕ → ℕ
x <<< k = x * 2 ^ k

abbrev pub ◌>>>◌ : ℕ → ℕ → ℕ
x >>> k = x / 2 ^ k

-- MIN(x, y)
abbrev pub min_size : ℕ → ℕ → ℕ
min_size x y = if ltb x y then x else y
