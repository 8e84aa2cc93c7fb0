-- ===== src/Sender/Symbols.antt =====
-- The symbols that a stream's unread bits stand for, and what one `bitstream_read` into an
-- `unsigned int` (fsk.c, dbpsk.c) takes of them.
use psplay.Base.{
  ℕ, zero, suc, ◌+◌, ◌-◌, ◌*◌, ◌/◌, ◌%◌, ◌^◌, ◌<◌, ◌≤◌, ◌≡◌, refl, sym, ap, ap₂, ◌∙◌, arith, List,
  [], ◌∷◌, ◌++◌, length, take, drop, take-append, drop-append, append-nil, get_or, ◌⊎◌, inl, inr,
  subst,
}
use psplay.Bitstream.{Bitstream}
use psplay.Bitstream.Bits.{bit, bit_at, bits, bit-zero}
use psplay.Bitstream.Reading.{Fetched}
use psplay.Bitstream.Value.{number, number-cons, number-first, number-lt}
use psplay.Sender.{zero_uint, value_of}
use native.Mathlib.Decide.{dec_lt}

-- Bits in groups of `m`, each the number whose lowest bit is the first; the last group may be short.
abbrev pub symbols_in : ℕ → ℕ → List ℕ → List ℕ
symbols_in m zero bs = []
symbols_in m (suc rounds) [] = []
symbols_in m (suc rounds) (b ∷ bs) =
    number (take m (b ∷ bs)) ∷ symbols_in m rounds (drop m (b ∷ bs))

abbrev pub symbols : ℕ → List ℕ → List ℕ
symbols m bs = symbols_in m (length bs) bs

symbols_in-nil : (m rounds : ℕ) → symbols_in m rounds [] ≡ []
symbols_in-nil m zero = refl
symbols_in-nil m (suc rounds) = refl

take-long {ℓ} : {A : Type ℓ} (m : ℕ) (xs : List A) → length xs ≤ m → take m xs ≡ xs
take-long zero [] h = refl
take-long zero (x ∷ xs) h = absurd (omega arith)
take-long (suc m) [] h = refl
take-long (suc m) (x ∷ xs) h = ap (λ t. x ∷ t) (take-long m xs (omega arith))

drop-long {ℓ} : {A : Type ℓ} (m : ℕ) (xs : List A) → length xs ≤ m → drop m xs ≡ []
drop-long zero [] h = refl
drop-long zero (x ∷ xs) h = absurd (omega arith)
drop-long (suc m) [] h = refl
drop-long (suc m) (x ∷ xs) h = drop-long m xs (omega arith)

symbols_in-step :
    (m rounds : ℕ) (bs : List ℕ)
    → 0 < length bs
    → symbols_in m (suc rounds) bs ≡ number (take m bs) ∷ symbols_in m rounds (drop m bs)
symbols_in-step m rounds [] h = absurd (omega arith)
symbols_in-step m rounds (b ∷ bs) h = refl

-- One group off the front: a whole one, or the last.
pub symbols_in-append :
    (m rounds : ℕ) (group rest : List ℕ)
    → 0 < length group
    → (length group ≡ m) ⊎ ((length group ≤ m) × (rest ≡ []))
    → symbols_in m (suc rounds) (group ++ rest) ≡ number group ∷ symbols_in m rounds rest
symbols_in-append m rounds [] rest more whole = absurd (omega arith)
symbols_in-append m rounds (b ∷ bs) rest more (inl whole) =
    subst
      (λ (k : ℕ).
        symbols_in k (suc rounds) ((b ∷ bs) ++ rest) ≡ number (b ∷ bs) ∷ symbols_in k rounds rest)
      whole
      (ap₂ (λ t d. number t ∷ symbols_in (length (b ∷ bs)) rounds d) (take-append (b ∷ bs) rest)
        (drop-append (b ∷ bs) rest))
symbols_in-append m rounds (b ∷ bs) rest more (inr (short, last)) =
    rw (last, append-nil (b ∷ bs))
      (ap₂ (λ t d. number t ∷ symbols_in m rounds d) (take-long m (b ∷ bs) short)
        (drop-long m (b ∷ bs) short))

length-drop : (m : ℕ) (bs : List ℕ) → length (drop m bs) ≡ length bs - m
length-drop zero bs = omega arith
length-drop (suc m) [] = omega arith
length-drop (suc m) (b ∷ bs) = omega (arith, length-drop m bs)

-- More rounds than bits change nothing.
pub symbols_in-enough :
    (m rounds : ℕ) (bs : List ℕ)
    → 1 ≤ m
    → length bs ≤ rounds
    → symbols_in m rounds bs ≡ symbols m bs
symbols_in-enough m rounds bs low enough = same rounds (length bs) bs enough (omega arith)
  where
    same :
        (k n : ℕ) (bs : List ℕ)
        → length bs ≤ k
        → length bs ≤ n
        → symbols_in m k bs ≡ symbols_in m n bs
    same k n [] h i = symbols_in-nil m k ∙ sym (symbols_in-nil m n)
    same zero n (b ∷ bs) h i = absurd (omega arith)
    same (suc k) zero (b ∷ bs) h i = absurd (omega arith)
    same (suc k) (suc n) (b ∷ bs) h i =
        ap (λ t. number (take m (b ∷ bs)) ∷ t)
          (same k n (drop m (b ∷ bs)) (omega (arith, length-drop m (b ∷ bs)))
            (omega (arith, length-drop m (b ∷ bs))))

value_of-number : (bytes : List ℕ) → value_of bytes ≡ number (bits bytes 0 (8 * length bytes))
unfolding value_of
value_of-number [] = refl
value_of-number (b ∷ bytes) = omega (arith, number-cons b bytes, value_of-number bytes)

zero_uint_zero : (j : ℕ) → get_or zero_uint j 0 ≡ 0
zero_uint_zero zero = refl
zero_uint_zero (suc zero) = refl
zero_uint_zero (suc (suc zero)) = refl
zero_uint_zero (suc (suc (suc zero))) = refl
zero_uint_zero (suc (suc (suc (suc j)))) = refl

module _ {s s' : Bitstream} {n : ℕ} {buf : List ℕ} (f : Fetched s n zero_uint s' buf)
    (more : 0 < n) where
  beyond_zero : (i : ℕ) → n ≤ i → bit_at buf i ≡ 0
  beyond_zero i le = elim (dec_lt i ((n + 7) / 8 * 8)) [
    | yes lt ↦ f.cleared more i le lt
    | no ge ↦
        ap (λ (x : ℕ). bit x (i % 8)) (f.beyond (i / 8) (omega arith) ∙ zero_uint_zero (i / 8))
        ∙ bit-zero (i % 8)
  ]

  -- What the variable holds is the number of the bits delivered, and fits as many bits.
  pub value_of-Fetched : n ≤ 32 → (value_of buf ≡ number (bits buf 0 n)) × (value_of buf < 2 ^ n)
  value_of-Fetched small =
      let four : 8 * length buf ≡ 32 = omega (arith, f.same_length) in
      let e =
        value_of-number buf
        ∙ ap (λ (k : ℕ). number (bits buf 0 k)) four
        ∙ number-first buf n 32 small beyond_zero in
      (e, omega (arith, e, number-lt buf 0 n))

-- Symbols of one bit are the bits.
pub symbols_in-one : (rounds : ℕ) (bs : List ℕ) → length bs ≤ rounds → symbols_in 1 rounds bs ≡ bs
symbols_in-one rounds [] h = symbols_in-nil 1 rounds
symbols_in-one zero (b ∷ bs) h = absurd (omega arith)
symbols_in-one (suc rounds) (b ∷ bs) h = ap₂ ◌∷◌ (just b) (symbols_in-one rounds bs (omega arith))
  where
    just : (b : ℕ) → b + 2 * 0 ≡ b
    just b = omega arith
