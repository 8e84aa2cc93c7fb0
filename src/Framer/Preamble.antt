-- ===== src/Framer/Preamble.antt =====
-- The preamble of a frame (framer.c) against its description.
use psplay.Base.{
  ℕ, zero, suc, ◌+◌, ◌*◌, ◌%◌, ◌^◌, ◌≤◌, ◌<◌, ◌≡◌, refl, ◌∙◌, subst, arith, false, Option, some,
  List, [], ◌++◌, length, length-append, leb, ◌<<<◌, min,
}
use psplay.Bitstream
use psplay.Bitstream.{Bitstream}
use psplay.Bitstream.Numbers.{bits_of, length-bits_of, write_n-Written}
use psplay.Bitstream.Stream.{IsValid, Written, Written-nil, Written-append}
use psplay.Framer.Outcome.{next, check}
use psplay.Framer.Build.{Platform, preamble}
use native.Mathlib.Nat.{pow-le-pow_right}

-- The preamble as bits: the symbol 2 ^ m_exp in 2 m_exp bits, which is a zero symbol and then the
-- symbol 1, each of m_exp bits.
abbrev pub preamble_bits : ℕ → ℕ → List ℕ
preamble_bits m_exp zero = []
preamble_bits m_exp (suc n) = bits_of (m_exp * 2) (2 ^ m_exp) ++ preamble_bits m_exp n

pub length-preamble_bits : (m_exp n : ℕ) → length (preamble_bits m_exp n) ≡ n * (m_exp * 2)
length-preamble_bits m_exp zero = omega arith
length-preamble_bits m_exp (suc n) = omega (
  arith,
  length-append (bits_of (m_exp * 2) (2 ^ m_exp)) (preamble_bits m_exp n),
  length-bits_of (m_exp * 2) (2 ^ m_exp),
  length-preamble_bits m_exp n,
)

symbol_small : (m_exp : ℕ) → m_exp ≤ 30 → (1 <<< m_exp) % 2 ^ 64 ≡ 2 ^ m_exp
symbol_small m_exp h = omega (arith, pow-le-pow_right {n = 2} (omega arith) h)

-- CHECK_ERROR_LT0 lets a count of bits through.
pub check_ok {ℓ} :
    {A : Type ℓ} (o : Option (ℕ × A)) (n : ℕ) (a : A)
    → o ≡ some (n, a)
    → n < 2 ^ 63
    → check o ≡ next a
check_ok o n a e h = let i : leb (2 ^ 63) n ≡ false = ground arith in rw (e, i)

module _ (c : Platform) where
  preamble_step :
      (m_exp left : ℕ) (s s' : Bitstream)
      → m_exp ≤ 30
      → Bitstream.write_n s (2 ^ m_exp) (m_exp * 2) ≡ some (min 64 (m_exp * 2), s')
      → preamble c m_exp (suc left) s ≡ preamble c m_exp left s'
  unfolding preamble
  preamble_step m_exp left s s' small e =
      rw (symbol_small m_exp small, check_ok _ _ s' e (omega arith))

  pub preamble-Written :
      (m_exp n : ℕ) (s : Bitstream)
      → IsValid s
      → m_exp ≤ 30
      → s.len + n * (m_exp * 2) ≤ s.cap
      → (s' : Bitstream) × (preamble c m_exp n s ≡ next s') × Written s (preamble_bits m_exp n) s'
  preamble-Written m_exp zero s v small room = (s, unfold preamble in refl, Written-nil s v)
  preamble-Written m_exp (suc n) s v small room =
      let e : min 64 (m_exp * 2) ≡ m_exp * 2 = omega arith in
      let (s', runs, w) = write_n-Written s (2 ^ m_exp) (m_exp * 2) v (omega arith) in
      let w₁ = subst (λ (k : ℕ). Written s (bits_of k (2 ^ m_exp)) s') e w in
      let (u, rest, w') =
        preamble-Written m_exp n s' w.valid small
          (omega (arith, w₁.longer, w.cap_kept, length-bits_of (m_exp * 2) (2 ^ m_exp))) in
      (
        u,
        preamble_step m_exp n s s' small runs ∙ rest,
        Written-append (bits_of (m_exp * 2) (2 ^ m_exp)) (preamble_bits m_exp n) w₁ w',
      )
