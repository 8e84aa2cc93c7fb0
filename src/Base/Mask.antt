-- ===== src/Base/Mask.antt =====
-- `&` with a mask of low ones is a remainder, and `|` of two fields that do not overlap is a sum.
use Prim.Native.Nat.{
  ℕ, zero, suc, ◌+◌, ◌-◌, ◌*◌, ◌/◌, ◌%◌, ◌^◌, ◌≤◌, ◌<◌, min, max, bit_and, bit_or, digits, bitwise,
}
use Prim.Native.Nat.{bit_and-bitwise, bit_or-bitwise}
use mathlib.Core.Path.{◌≡◌, refl, ap, ap₂}
use native.Mathlib.Nat.{pow-suc, one-le-pow}
use native.Mathlib.Omega.{arith}
use psplay.Base.Tests.{ltb, ◌==◌, if◌then◌else◌}
use mathlib.Core.Bool.{not}
use psplay.Base.Word.{bit_ones, ◌<<<◌}

-- The digit recursion behind the native operations does not depend on spare fuel.
module _ (low : ℕ → ℕ) (op : ℕ → ℕ → ℕ) where
  spare_fuel : (f g a b : ℕ) → a ≤ f → a ≤ g → digits low op f a b ≡ digits low op g a b
  spare_fuel zero zero zero b p q = refl
  spare_fuel zero (suc g) zero b p q = refl
  spare_fuel (suc f) zero zero b p q = refl
  spare_fuel (suc f) (suc g) zero b p q = refl
  spare_fuel zero g (suc a) b p q = absurd (omega arith)
  spare_fuel (suc f) zero (suc a) b p q = absurd (omega arith)
  spare_fuel (suc f) (suc g) (suc a) b p q =
      ap (λ (t : ℕ). t * 2 + op (suc a % 2) (b % 2))
        (spare_fuel f g (suc a / 2) (b / 2) (omega arith) (omega arith))

  lowest_digit :
      (a b : ℕ)
      → bitwise low op (suc a) b ≡ bitwise low op (suc a / 2) (b / 2) * 2 + op (suc a % 2) (b % 2)
  lowest_digit a b =
      ap (λ (t : ℕ). t * 2 + op (suc a % 2) (b % 2))
        (spare_fuel a (suc a / 2) (suc a / 2) (b / 2) (omega arith) (omega arith))

bit_and-halves : (a b : ℕ) → bit_and a b ≡ bit_and (a / 2) (b / 2) * 2 + min (a % 2) (b % 2)
bit_and-halves zero b = omega (arith, bit_and-bitwise 0 b, bit_and-bitwise 0 (b / 2))
bit_and-halves (suc a) b = omega (
  arith,
  bit_and-bitwise (suc a) b,
  bit_and-bitwise (suc a / 2) (b / 2),
  lowest_digit (λ b. zero) min a b,
)

bit_or-halves : (a b : ℕ) → bit_or a b ≡ bit_or (a / 2) (b / 2) * 2 + max (a % 2) (b % 2)
bit_or-halves zero b = omega (arith, bit_or-bitwise 0 b, bit_or-bitwise 0 (b / 2))
bit_or-halves (suc a) b = omega (
  arith,
  bit_or-bitwise (suc a) b,
  bit_or-bitwise (suc a / 2) (b / 2),
  lowest_digit (λ b. b) max a b,
)

bit_and-zero_below : (n a : ℕ) → a ≤ n → bit_and a 0 ≡ 0
bit_and-zero_below n zero h = refl
bit_and-zero_below zero (suc a) h = absurd (omega arith)
bit_and-zero_below (suc n) (suc a) h =
    omega (arith, bit_and-halves (suc a) 0, bit_and-zero_below n (suc a / 2) (omega arith))

bit_or-zero_below : (n a : ℕ) → a ≤ n → bit_or a 0 ≡ a
bit_or-zero_below n zero h = refl
bit_or-zero_below zero (suc a) h = absurd (omega arith)
bit_or-zero_below (suc n) (suc a) h =
    omega (arith, bit_or-halves (suc a) 0, bit_or-zero_below n (suc a / 2) (omega arith))

-- 2 ^ (k + 1), multiplied by any number.
times_power : (q k : ℕ) → q * 2 ^ suc k ≡ 2 * (q * 2 ^ k)
times_power q k = omega (arith, ap (λ (t : ℕ). q * t) (pow-suc 2 k))

-- A field of `k` bits above a remainder of `k` bits, under the mask.
bit_and-fields : (k q r : ℕ) → r < 2 ^ k → bit_and (q * 2 ^ k + r) (bit_ones k) ≡ r
bit_and-fields zero q r h = ground (arith, bit_and-zero_below (q * 2 ^ 0 + r) (q * 2 ^ 0 + r))
bit_and-fields (suc k) q r h = ground (
  arith,
  bit_and-halves (q * 2 ^ suc k + r) (bit_ones (suc k)),
  times_power q k,
  pow-suc 2 k,
  one-le-pow k 2,
  bit_and-fields k q (r / 2),
)

-- `x & BIT_ONES(k)` keeps the low `k` bits.
pub bit_and-bit_ones : (k a : ℕ) → bit_and a (bit_ones k) ≡ a % 2 ^ k
bit_and-bit_ones k a = ground (arith, one-le-pow k 2, bit_and-fields k (a / 2 ^ k) (a % 2 ^ k))

-- `(q << k) | r` is a sum if `r` has at most `k` bits.
pub bit_or-fields : (k q r : ℕ) → r < 2 ^ k → bit_or (q <<< k) r ≡ q * 2 ^ k + r
bit_or-fields zero q r h = ground (arith, bit_or-zero_below q q)
bit_or-fields (suc k) q r h = ground (
  arith,
  bit_or-halves (q * 2 ^ suc k) r,
  times_power q k,
  pow-suc 2 k,
  bit_or-fields k q (r / 2),
)

-- `1U & x` is the lowest bit.
pub one-bit_and : (a : ℕ) → bit_and 1 a ≡ a % 2
one-bit_and a = omega (arith, bit_and-halves 1 a, bit_and-bitwise 0 (a / 2))

-- One bit under a mask of low ones.
bit_ones-bit_and : (n i : ℕ) → bit_and (bit_ones n) (1 <<< i) ≡ (if ltb i n then 2 ^ i else 0)
bit_ones-bit_and zero i = ground (arith, bit_and-bitwise 0 (1 <<< i))
bit_ones-bit_and (suc n) zero = ground (
  arith,
  bit_and-halves (bit_ones (suc n)) 1,
  bit_and-zero_below (bit_ones n) (bit_ones n),
  pow-suc 2 n,
  one-le-pow n 2,
)
bit_ones-bit_and (suc n) (suc i) = ground (
  arith,
  bit_and-halves (bit_ones (suc n)) (1 <<< suc i),
  bit_ones-bit_and n i,
  pow-suc 2 n,
  pow-suc 2 i,
  one-le-pow n 2,
)

pub bit_ones-has_bit : (n i : ℕ) → not (bit_and (bit_ones n) (1 <<< i) == 0) ≡ ltb i n
bit_ones-has_bit n i = ground (arith, bit_ones-bit_and n i, one-le-pow i 2)

bit_and-self_below : (n a : ℕ) → a ≤ n → bit_and a a ≡ a
bit_and-self_below n zero h = refl
bit_and-self_below zero (suc a) h = absurd (omega arith)
bit_and-self_below (suc n) (suc a) h =
    omega (arith, bit_and-halves (suc a) (suc a), bit_and-self_below n (suc a / 2) (omega arith))

-- `x & (x - 1)` of an even number, and of an odd one.
pub even-bit_and : (q : ℕ) → 1 ≤ q → bit_and (2 * q) (2 * q - 1) ≡ 2 * bit_and q (q - 1)
even-bit_and q h =
    let half : (2 * q) / 2 ≡ q = omega arith in
    let less : (2 * q - 1) / 2 ≡ q - 1 = omega arith in
    ground (arith, bit_and-halves (2 * q) (2 * q - 1), ap₂ bit_and half less)

pub odd-bit_and : (q : ℕ) → bit_and (2 * q + 1) (2 * q + 1 - 1) ≡ 2 * q
odd-bit_and q =
    let half : (2 * q + 1) / 2 ≡ q = omega arith in
    let less : (2 * q + 1 - 1) / 2 ≡ q = omega arith in
    ground (
      arith,
      bit_and-halves (2 * q + 1) (2 * q + 1 - 1),
      ap₂ bit_and half less,
      bit_and-self_below q q,
    )
