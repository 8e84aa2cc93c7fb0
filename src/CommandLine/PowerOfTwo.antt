-- ===== src/CommandLine/PowerOfTwo.antt =====
-- IS_POT of utils.h and `log2_int`, as psplay.c uses them.
use psplay.Base.{
  ℕ, zero, suc, ◌+◌, ◌-◌, ◌*◌, ◌/◌, ◌%◌, ◌^◌, ◌≤◌, ◌<◌, ◌≡◌, refl, ap, ◌∙◌, arith, true, not, ◌&&◌,
  ◌==◌, bit_and, some, ◌↔◌,
}
use psplay.Base.Mask.{even-bit_and, odd-bit_and}
use psplay.CommandLine.{is_pot}
use psplay.Utils.{log2_int}
use psplay.Utils.Log.{log2_int_lem}
use native.Mathlib.Nat.{pow-suc, one-le-pow, pow-le-pow_right}
use native.Mathlib.Decide.{dec_lt, ℕ_discrete}

-- By halving, below a bound.
alone : (n x : ℕ) → x ≤ n → 1 ≤ x → bit_and x (x - 1) ≡ 0 → (k : ℕ) × (x ≡ 2 ^ k)
alone zero x h one e = absurd (omega arith)
alone (suc n) x h one e = elim (ℕ_discrete (x % 2) 0) [
  | yes even ↦
      let q = x / 2 in
      let split : x ≡ 2 * q = omega arith in
      let low : bit_and q (q - 1) ≡ 0 =
        ground (arith, even-bit_and q (omega arith), ap (λ (t : ℕ). bit_and t (t - 1)) split) in
      let (k, p) = alone n q (omega arith) (omega arith) low in (suc k, omega (arith, pow-suc 2 k))
  | no odd ↦
      let q = x / 2 in
      let split : x ≡ 2 * q + 1 = omega arith in
      let gone : q ≡ 0 = ground (arith, odd-bit_and q, ap (λ (t : ℕ). bit_and t (t - 1)) split) in
      (0, omega arith)
]

power-alone : (k : ℕ) → bit_and (2 ^ k) (2 ^ k - 1) ≡ 0
power-alone zero = refl
power-alone (suc k) = ground (
  arith,
  even-bit_and (2 ^ k) (one-le-pow k 2 (omega arith)),
  power-alone k,
  ap (λ (t : ℕ). bit_and t (t - 1)) (pow-suc 2 k),
)

-- The macro accepts the powers of two and nothing else.
pub is_pot_iff : (x : ℕ) → (is_pot x ≡ true) ↔ ((k : ℕ) × (x ≡ 2 ^ k))
unfolding is_pot
is_pot_iff x = (to, from)
  where
    to : (not (x == 0) && bit_and x (x - 1) == 0) ≡ true → (k : ℕ) × (x ≡ 2 ^ k)
    to h = alone x x (omega arith) (ground arith) (ground arith)

    from : ((k : ℕ) × (x ≡ 2 ^ k)) → (not (x == 0) && bit_and x (x - 1) == 0) ≡ true
    from (k, e) =
        let z : bit_and x (x - 1) ≡ 0 = ap (λ (t : ℕ). bit_and t (t - 1)) e ∙ power-alone k in
        ground (arith, one-le-pow k 2 (omega arith))

-- Powers of two in order have their exponents in order.
exponent : (j k : ℕ) → 2 ^ j ≤ 2 ^ k → 2 ^ k < 2 ^ suc j → j ≡ k
exponent j k h l = elim (dec_lt j k) [
  | yes less ↦
      absurd
        (omega (arith, pow-le-pow_right {n = 2} (omega arith) {i = suc j} {j = k} (omega arith)))
  | no ge ↦ elim (dec_lt k j) [
    | yes more ↦ absurd (
        omega (
          arith,
          pow-le-pow_right {n = 2} (omega arith) {i = suc k} {j = j} (omega arith),
          pow-suc 2 k,
          one-le-pow k 2 (omega arith),
        ))
    | no le ↦ omega arith
  ]
]

-- The logarithm of a power of two is its exponent.
pub log2_int-power : (k : ℕ) → k < 32 → log2_int (2 ^ k) ≡ some k
log2_int-power k h =
    let one = one-le-pow k 2 (omega arith) in
    let top = pow-le-pow_right {n = 2} (omega arith) {i = suc k} {j = 32} (omega arith) in
    let (j, runs, above, below) = log2_int_lem (2 ^ k) one (omega (arith, pow-suc 2 k)) in
    runs ∙ ap some (exponent j k above below)
