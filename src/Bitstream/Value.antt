-- ===== src/Bitstream/Value.antt =====
-- The number that a buffer's bits stand for, lowest first: how a caller of `bitstream_read`
-- (bitstream.c) uses what it is given.
use psplay.Base.{
  ℕ, zero, suc, ◌+◌, ◌-◌, ◌*◌, ◌/◌, ◌%◌, ◌^◌, ◌≤◌, ◌<◌, ◌≡◌, refl, arith, ap, ◌∙◌, List, [], ◌∷◌,
  ◌++◌, get_or, length,
}
use psplay.Bitstream.Bits.{bit_at, bits, bits-add, bits-ext, bit-le}
use native.Mathlib.Nat.{pow-suc}

abbrev pub number : List ℕ → ℕ
number [] = 0
number (b ∷ bs) = b + 2 * number bs

-- Bits that are all zero add nothing.
number-zeros :
    (bytes : List ℕ) (start n : ℕ)
    → ((i : ℕ) → start ≤ i → i < start + n → bit_at bytes i ≡ 0)
    → number (bits bytes start n) ≡ 0
number-zeros bytes start zero h = refl
number-zeros bytes start (suc n) h = omega (
  arith,
  h start (omega arith) (omega arith),
  number-zeros bytes (start + 1) n (λ i le lt. h i (omega arith) (omega arith)),
)

number-append_zeros : (xs ys : List ℕ) → number ys ≡ 0 → number (xs ++ ys) ≡ number xs
number-append_zeros [] ys h = h
number-append_zeros (x ∷ xs) ys h = omega (arith, number-append_zeros xs ys h)

number-byte :
    (b : ℕ) (bytes ys : List ℕ)
    → number (bits (b ∷ bytes) 0 8 ++ ys) ≡ b % 2 ^ 8 + 2 ^ 8 * number ys
number-byte b bytes ys = omega arith

bits-tail :
    (b : ℕ) (bytes : List ℕ) (start n : ℕ) → bits (b ∷ bytes) (8 + start) n ≡ bits bytes start n
bits-tail b bytes start n = bits-ext (b ∷ bytes) bytes (8 + start) start n λ k lt.
    let e : (8 + start + k) / 8 ≡ suc ((start + k) / 8) = omega arith in
    let i : (8 + start + k) % 8 ≡ (start + k) % 8 = omega arith in rw (e, i)

-- All the bits of some bytes are the number that they hold.
pub number-cons :
    (b : ℕ) (bytes : List ℕ)
    → number (bits (b ∷ bytes) 0 (8 * length (b ∷ bytes)))
      ≡ b % 2 ^ 8 + 2 ^ 8 * number (bits bytes 0 (8 * length bytes))
number-cons b bytes =
    let e : 8 * suc (length bytes) ≡ 8 + 8 * length bytes = omega arith in
    rw (e, bits-add (b ∷ bytes) 0 8 (8 * length bytes))
      (number-byte b bytes (bits (b ∷ bytes) (8 + 0) (8 * length bytes))
        ∙ ap (λ l. b % 2 ^ 8 + 2 ^ 8 * number l) (bits-tail b bytes 0 (8 * length bytes)))

-- If no bit is set from `n` on, the first `n` say it all.
pub number-first :
    (bytes : List ℕ) (n m : ℕ)
    → n ≤ m
    → ((i : ℕ) → n ≤ i → bit_at bytes i ≡ 0)
    → number (bits bytes 0 m) ≡ number (bits bytes 0 n)
number-first bytes n m le h =
    let e : m ≡ n + (m - n) = omega arith in
    ap (λ (k : ℕ). number (bits bytes 0 k)) e
    ∙ ap number (bits-add bytes 0 n (m - n))
    ∙ number-append_zeros (bits bytes 0 n) (bits bytes (0 + n) (m - n))
        (number-zeros bytes (0 + n) (m - n) (λ i from to. h i (omega arith)))

-- A number of `n` bits, none above 1.
pub number-lt : (bytes : List ℕ) (start n : ℕ) → number (bits bytes start n) < 2 ^ n
number-lt bytes start zero = omega arith
number-lt bytes start (suc n) = omega (
  arith,
  pow-suc 2 n,
  number-lt bytes (start + 1) n,
  bit-le (get_or bytes (start / 8) 0) (start % 8),
)
