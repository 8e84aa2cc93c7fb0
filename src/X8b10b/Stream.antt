-- ===== src/X8b10b/Stream.antt =====
-- A run of data bytes through the encoder (x8b10b.c), the disparity handed from each call to the
-- next, as `bitstream_write_8b10b_chunk` of framer.c does: the words differ for different bytes,
-- and the ones and zeros among all their bits stay within two of each other.
use psplay.Base.{
  ℕ, suc, ◌+◌, ◌*◌, ◌≤◌, ◌<◌, ◌≡◌, ap₂, arith, Bool, true, false, List, [], ◌∷◌, length, All, refl,
  ap, drop, sym, ◌∙◌,
}
use psplay.Base.Int.{ℤ, pos, ◌+ℤ◌, ◌-ℤ◌}
use psplay.X8b10b.{enc}
use psplay.X8b10b.Code.{disparity, ones, enc_lem, enc-injective}

abbrev pub IsByte : ℕ → Type 0
IsByte b = b < 256

-- The code words, and the disparity at the end.
abbrev pub words : ℤ → List ℕ → List ℕ
words rd [] = []
words rd (b ∷ bs) = let e = enc b 0 false rd in e.p10b ∷ words e.rd bs

abbrev pub last_rd : ℤ → List ℕ → ℤ
last_rd rd [] = rd
last_rd rd (b ∷ bs) = last_rd (enc b 0 false rd).rd bs

abbrev pub total_ones : List ℕ → ℕ
total_ones [] = 0
total_ones (w ∷ ws) = ones 10 w + total_ones ws

-- The disparity, counted from -1.
abbrev above_minus : Bool → ℕ
above_minus true = 0
above_minus false = 2

one_word :
    (m m' : Bool) (n : ℕ)
    → disparity m' ≡ disparity m +ℤ (pos (2 * n) -ℤ pos 10)
    → 2 * n + above_minus m ≡ 10 + above_minus m'
one_word true true n h = ground arith
one_word true false n h = ground arith
one_word false true n h = ground arith
one_word false false n h = ground arith

-- What the calls have added up to.
record Tally (m : Bool) (bs : List ℕ) : Type 0 where
  last : Bool
  is_last : last_rd (disparity m) bs ≡ disparity last
  sum : 2 * total_ones (words (disparity m) bs) + above_minus m ≡ 10 * length bs + above_minus last

add_word :
    (k t n a a' l : ℕ)
    → 2 * k + a ≡ 10 + a'
    → 2 * t + a' ≡ 10 * n + l
    → 2 * (k + t) + a ≡ 10 * suc n + l
add_word k t n a a' l h i = omega arith

tally : (m : Bool) (bs : List ℕ) → All IsByte bs → Tally m bs
tally m [] h = record { last = m; is_last = refl; sum = omega arith }
tally m (b ∷ bs) h =
    let (ret, ten, moves, (m', rd)) = enc_lem m 0 b h.0 in
    let rest = tally m' bs h.1 in
    let first = one_word m m' (ones 10 (enc b 0 false (disparity m)).p10b) (sym rd ∙ moves) in
    record {
      last = rest.last;
      is_last = rw rd rest.is_last;
      sum =
          add_word (ones 10 (enc b 0 false (disparity m)).p10b)
            (total_ones (words (enc b 0 false (disparity m)).rd bs)) (length bs) (above_minus m)
            (above_minus m') (above_minus rest.last) first (rw (← rd) at rest.sum);
    }

above_minus-le : (m : Bool) → above_minus m ≤ 2
above_minus-le true = omega arith
above_minus-le false = omega arith

-- Over any number of data bytes, from either disparity, the disparity stays at -1 or +1, and the
-- ones and the zeros sent differ by at most two.
pub words-balanced :
    (m : Bool) (bs : List ℕ)
    → All IsByte bs
    → ((m' : Bool) × (last_rd (disparity m) bs ≡ disparity m'))
      × (2 * total_ones (words (disparity m) bs) ≤ 10 * length bs + 2)
      × (10 * length bs ≤ 2 * total_ones (words (disparity m) bs) + 2)
words-balanced m bs h =
    let t = tally m bs h in
    (
      (t.last, t.is_last),
      omega (arith, t.sum, above_minus-le t.last),
      omega (arith, t.sum, above_minus-le m),
    )

-- Two runs of data bytes with the same code words are the same bytes, whatever the disparities that
-- they start from.
pub words-injective :
    (m m' : Bool) (xs ys : List ℕ)
    → All IsByte xs
    → All IsByte ys
    → words (disparity m) xs ≡ words (disparity m') ys
    → xs ≡ ys
words-injective m m' [] [] ha hb e = refl
words-injective m m' [] (b ∷ ys) ha hb e = absurd (omega (arith, ap length e))
words-injective m m' (a ∷ xs) [] ha hb e = absurd (omega (arith, ap length e))
words-injective m m' (a ∷ xs) (b ∷ ys) ha hb e =
    let (n, rd) = (enc_lem m 0 a ha.0).3 in
    let (n', rd') = (enc_lem m' 0 b hb.0).3 in
    let tails : words (disparity n) xs ≡ words (disparity n') ys =
      rw (rd, rd') at (ap (drop 1) e) in
    ap₂ ◌∷◌ (enc-injective m m' 0 0 a b ha.0 hb.0 (cons-injective e).0)
      (words-injective n n' xs ys ha.1 hb.1 tails)
  where
    cons-injective : {x y : ℕ} {xs ys : List ℕ} → x ∷ xs ≡ y ∷ ys → (x ≡ y) × (xs ≡ ys)
    cons-injective e = (cc, cc)
