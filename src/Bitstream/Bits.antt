-- ===== src/Bitstream/Bits.antt =====
-- The independent description of a buffer: its bits, counted from the lowest bit of byte 0.
use psplay.Base.{
  ℕ, zero, suc, ◌+◌, ◌*◌, ◌/◌, ◌%◌, ◌^◌, ◌≤◌, ◌<◌, ◌≡◌, refl, arith, ap, ap₂, ◌∙◌, sym,
}
use psplay.Base.{List, [], ◌∷◌, ◌++◌, get_or, length}
use native.Mathlib.Nat.{pow-suc, one-le-pow, div-add-mod', mod-lt}

-- Bit `i` of a number.
abbrev pub bit : ℕ → ℕ → ℕ
bit x zero = x % 2
bit x (suc i) = bit (x / 2) i

abbrev pub bit_at : List ℕ → ℕ → ℕ
bit_at bytes i = bit (get_or bytes (i / 8) 0) (i % 8)

-- The `n` bits from position `start` on.
abbrev pub bits : List ℕ → ℕ → ℕ → List ℕ
bits bytes start zero = []
bits bytes start (suc n) = bit_at bytes start ∷ bits bytes (start + 1) n

pub bit-le : (x i : ℕ) → bit x i ≤ 1
bit-le x zero = omega arith
bit-le x (suc i) = bit-le (x / 2) i

pub bit-zero : (i : ℕ) → bit 0 i ≡ 0
bit-zero zero = refl
bit-zero (suc i) = bit-zero i

-- Halving takes one bit off the field below `v`.
half_field : (p v r : ℕ) → (v * 2 ^ suc p + r) / 2 ≡ v * 2 ^ p + r / 2
half_field p v r = omega (arith, ap (λ (t : ℕ). v * t) (pow-suc 2 p))

-- Above a field of `p` bits stand the bits of `v`, and in it those of `r`.
pub bit-above : (p v r k : ℕ) → r < 2 ^ p → bit (v * 2 ^ p + r) (p + k) ≡ bit v k
bit-above zero v r k h =
    let e : v * 2 ^ 0 + r ≡ v = omega arith in let i : 0 + k ≡ k = omega arith in rw (e, i)
bit-above (suc p) v r k h =
    let i : suc p + k ≡ suc (p + k) = omega arith in
    let q : bit ((v * 2 ^ suc p + r) / 2) (p + k) ≡ bit v k =
      rw (half_field p v r) (bit-above p v (r / 2) k (omega (arith, pow-suc 2 p))) in
    rw i q

pub bit-below : (p v r k : ℕ) → k < p → bit (v * 2 ^ p + r) k ≡ bit r k
bit-below zero v r k h = absurd (omega arith)
bit-below (suc p) v r zero h = omega (arith, ap (λ (t : ℕ). v * t) (pow-suc 2 p))
bit-below (suc p) v r (suc k) h = rw (half_field p v r) (bit-below p v (r / 2) k (omega arith))

-- A number is its quotient above its remainder.
fields : (p x : ℕ) → x / 2 ^ p * 2 ^ p + x % 2 ^ p ≡ x
fields p x = div-add-mod' x (2 ^ p)

mod-lt_power : (p x : ℕ) → x % 2 ^ p < 2 ^ p
mod-lt_power p x = mod-lt x (one-le-pow p 2 (omega arith))

pub bit-mod : (p x k : ℕ) → k < p → bit (x % 2 ^ p) k ≡ bit x k
bit-mod p x k h =
    sym (bit-below p (x / 2 ^ p) (x % 2 ^ p) k h) ∙ ap (λ (y : ℕ). bit y k) (fields p x)

pub bit-shift : (s x k : ℕ) → bit (x / 2 ^ s) k ≡ bit x (s + k)
bit-shift s x k =
    sym (bit-above s (x / 2 ^ s) (x % 2 ^ s) k (mod-lt_power s x))
    ∙ ap (λ (y : ℕ). bit y (s + k)) (fields s x)

-- A number of `p` bits has no bit from `p` on.
pub bit-small : (p x k : ℕ) → x < 2 ^ p → p ≤ k → bit x k ≡ 0
bit-small zero x k h le = let e : x ≡ 0 = omega arith in rw e (bit-zero k)
bit-small (suc p) x zero h le = absurd (omega arith)
bit-small (suc p) x (suc k) h le = bit-small p (x / 2) k (omega (arith, pow-suc 2 p)) (omega arith)

module _ (xs : List ℕ) where
  pub length-bits : (start n : ℕ) → length (bits xs start n) ≡ n
  length-bits start zero = refl
  length-bits start (suc n) = ap suc (length-bits (start + 1) n)

  pub bits-add : (start n m : ℕ) → bits xs start (n + m) ≡ bits xs start n ++ bits xs (start + n) m
  bits-add start zero m =
      let e : 0 + m ≡ m = omega arith in let i : start + 0 ≡ start = omega arith in rw (e, i)
  bits-add start (suc n) m =
      let e : suc n + m ≡ suc (n + m) = omega arith in
      let i : start + suc n ≡ start + 1 + n = omega arith in
      rw (e, i) (ap (λ t. bit_at xs start ∷ t) (bits-add (start + 1) n m))

-- Equal bits, position by position, are equal lists.
pub bits-ext :
    (xs ys : List ℕ) (a b n : ℕ)
    → ((k : ℕ) → k < n → bit_at xs (a + k) ≡ bit_at ys (b + k))
    → bits xs a n ≡ bits ys b n
bits-ext xs ys a b zero h = refl
bits-ext xs ys a b (suc n) h =
    ap₂ ◌∷◌ first (bits-ext xs ys (a + 1) (b + 1) n λ k lt. later k (h (suc k) (omega arith)))
  where
    first : bit_at xs a ≡ bit_at ys b
    first =
        let e : a + 0 ≡ a = omega arith in
        let i : b + 0 ≡ b = omega arith in rw (e, i) at (h 0 (omega arith))

    later :
        (k : ℕ)
        → bit_at xs (a + suc k) ≡ bit_at ys (b + suc k)
        → bit_at xs (a + 1 + k) ≡ bit_at ys (b + 1 + k)
    later k q =
        let e : a + suc k ≡ a + 1 + k = omega arith in
        let i : b + suc k ≡ b + 1 + k = omega arith in rw (e, i) at q
