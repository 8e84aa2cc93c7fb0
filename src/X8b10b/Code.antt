-- ===== src/X8b10b/Code.antt =====
-- One data byte in the line code (x8b10b.c): the call succeeds, the disparity stays at -1 or +1 and
-- follows the ones of the code word, and no two bytes share a code word.
use psplay.Base.{
  ℕ, zero, suc, ◌+◌, ◌*◌, ◌/◌, ◌%◌, ◌^◌, ◌<◌, ◌≡◌, refl, sym, ◌∙◌, ap, arith, Bool, true, false,
  ◌&&◌, ◌||◌, ◌==◌, ltb, if◌then◌else◌, Option, none, some, List, [], ◌∷◌, all_below,
  all_below_sound, ◌>>=◌, ◌⊎◌, inl, inr,
}
use psplay.Base.Int.{ℤ, pos, negsuc, ◌+ℤ◌, ◌-ℤ◌, eqb_ℤ, eqb_ℤ_iff}
use psplay.X8b10b.{Encoding, enc, select, next_rd, alternate}
use psplay.X8b10b.Tables.{b5b6_1, b5b6_2, b3b4_1, b3b4_2}

-- The running disparities: -1 for `true`, +1 for `false`.
abbrev pub disparity : Bool → ℤ
disparity true = negsuc 0
disparity false = pos 1

-- How many of the lowest `n` bits are ones.
abbrev pub ones : ℕ → ℕ → ℕ
ones zero x = 0
ones (suc n) x = x % 2 + ones n (x / 2)

-- Ones less zeros in a code word of ten bits.
abbrev pub imbalance : ℕ → ℤ
imbalance w = pos (2 * ones 10 w) -ℤ pos 10

-- The position of the first entry of either table with these low bits.
abbrev index_of : ℕ → ℕ → List ℕ → List ℕ → ℕ → Option ℕ
index_of modulus v [] ts i = none
index_of modulus v (s ∷ ss) [] i = none
index_of modulus v (s ∷ ss) (t ∷ ts) i =
    let rest = index_of modulus v ss ts (i + 1) in
    if s % modulus == v || t % modulus == v then some i else rest

-- A decoder for data words, which the proof of injectivity needs.
decode : ℕ → Option ℕ
decode w = do
  x ← index_of 64 (w / 16) b5b6_1 b5b6_2 0
  y ← index_of 16 (w % 16) b3b4_1 b3b4_2 0
  some (x + 32 * (if y == 8 then 7 else y))

is_byte : Option ℕ → ℕ → Bool
is_byte none b = false
is_byte (some a) b = a == b

is_byte_sound : (o : Option ℕ) (b : ℕ) → is_byte o b ≡ true → o ≡ some b
unfolding is_byte
is_byte_sound none b h = cc
is_byte_sound (some a) b h = ground arith

-- The result is what the theorems below say of it, as a test.
sound : Encoding → ℤ → ℕ → Bool
unfolding is_byte decode
sound e rd b =
    e.ret == 1
    && (ltb e.p10b (2 ^ 10)
        && (eqb_ℤ e.rd (rd +ℤ imbalance e.p10b)
            && ((eqb_ℤ e.rd (negsuc 0) || eqb_ℤ e.rd (pos 1)) && is_byte (decode e.p10b) b)))

sound_all :
    (m : Bool) (p : ℕ)
    → all_below 256 (λ b. sound (enc b p false (disparity m)) (disparity m) b) ≡ true
unfolding all_below sound enc select next_rd alternate
sound_all true p = refl
sound_all false p = refl

sound_parts :
    (e : Encoding) (rd : ℤ) (b : ℕ)
    → sound e rd b ≡ true
    → (e.ret ≡ 1)
      × (e.p10b < 2 ^ 10)
      × (e.rd ≡ rd +ℤ imbalance e.p10b)
      × ((e.rd ≡ negsuc 0) ⊎ (e.rd ≡ pos 1))
      × (decode e.p10b ≡ some b)
unfolding sound
sound_parts e rd b h = ground (
  arith,
  eqb_ℤ_iff e.rd (rd +ℤ imbalance e.p10b),
  eqb_ℤ_iff e.rd (negsuc 0),
  eqb_ℤ_iff e.rd (pos 1),
  is_byte_sound (decode e.p10b) b,
)

sign_of : (rd : ℤ) → (rd ≡ negsuc 0) ⊎ (rd ≡ pos 1) → (m : Bool) × (rd ≡ disparity m)
sign_of rd (inl e) = (true, e)
sign_of rd (inr e) = (false, e)

module _ (m : Bool) (p b : ℕ) (small : b < 256) where
  parts :
      let e = enc b p false (disparity m) in
      (e.ret ≡ 1)
      × (e.p10b < 2 ^ 10)
      × (e.rd ≡ disparity m +ℤ imbalance e.p10b)
      × ((e.rd ≡ negsuc 0) ⊎ (e.rd ≡ pos 1))
      × (decode e.p10b ≡ some b)
  parts = sound_parts (enc b p false (disparity m)) (disparity m) b (
      all_below_sound 256 (λ b. sound (enc b p false (disparity m)) (disparity m) b) b
        (sound_all m p) small)

  -- From either disparity, encoding a data byte succeeds with a word of ten bits; the disparity is
  -- again -1 or +1, and it moves by the word's ones less its zeros.
  pub enc_lem :
      let e = enc b p false (disparity m) in
      (e.ret ≡ 1)
      × (e.p10b < 2 ^ 10)
      × (e.rd ≡ disparity m +ℤ imbalance e.p10b)
      × ((m' : Bool) × (e.rd ≡ disparity m'))
  enc_lem = (parts.0, parts.1, parts.2, sign_of _ parts.3)

  decode-enc : decode (enc b p false (disparity m)).p10b ≡ some b
  decode-enc = parts.4

-- No code word stands for two data bytes, whatever the disparities.
pub enc-injective :
    (m m' : Bool) (p p' a b : ℕ)
    → a < 256
    → b < 256
    → (enc a p false (disparity m)).p10b ≡ (enc b p' false (disparity m')).p10b
    → a ≡ b
enc-injective m m' p p' a b ha hb h =
    let q = sym (decode-enc m p a ha) ∙ ap decode h ∙ decode-enc m' p' b hb in ground arith

-- What a successful call returns does not depend on what `*p10b` held before.
pub enc_old :
    (u p q : ℕ) (ctrl : Bool) (rd : ℤ)
    → (enc u p ctrl rd).ret ≡ 1
    → enc u p ctrl rd ≡ enc u q ctrl rd
unfolding enc
enc_old u p q ctrl rd h = ground arith
