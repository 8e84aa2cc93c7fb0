-- ===== src/X8b10b/Runs.antt =====
-- Line code (x8b10b.c) on the wire: however the data bytes are chosen, no more than five equal bits
-- follow one another, also across the boundaries of the code words.
use psplay.Base.{
  ℕ, zero, suc, ◌+◌, ◌≤◌, ◌<◌, ◌≡◌, refl, arith, Bool, true, false, ◌&&◌, ◌==◌, if◌then◌else◌, leb,
  List, [], ◌∷◌, ◌++◌, max, all_below, all_below_sound, All, subst,
}
use psplay.Bitstream.Bits.{bit}
use psplay.X8b10b.{enc, is_minus, select, next_rd, alternate}
use psplay.X8b10b.Code.{disparity, enc_lem}
use psplay.X8b10b.Stream.{IsByte, words}
use Prim.Native.Nat.{zero-le}
use native.Mathlib.Nat.{le_trans}

-- The lowest `n` bits of a number, highest first: the order in which a code word is sent.
unfoldable pub msb_bits : ℕ → ℕ → List ℕ
msb_bits zero w = []
msb_bits (suc n) w = bit w n ∷ msb_bits n w

abbrev pub wire : List ℕ → List ℕ
wire [] = []
wire (w ∷ ws) = msb_bits 10 w ++ wire ws

-- The longest run of equal bits, behind `k` bits that are `v`.
pub longest : ℕ → ℕ → List ℕ → ℕ
longest v k [] = k
longest v k (b ∷ bs) = elim (b == v) [
  | true ↦ longest v (k + 1) bs
  | false ↦ max k (longest b 1 bs)
]

abbrev pub longest_run : List ℕ → ℕ
longest_run bs = longest 0 0 bs

-- The value and the length of the run at the end.
last_run : ℕ → ℕ → List ℕ → ℕ × ℕ
last_run v k [] = (v, k)
last_run v k (b ∷ bs) = elim (b == v) [ true ↦ last_run v (k + 1) bs | false ↦ last_run b 1 bs ]

longest-append :
    (v k n : ℕ) (xs ys : List ℕ)
    → longest v k xs ≤ n
    → longest (last_run v k xs).0 (last_run v k xs).1 ys ≤ n
    → longest v k (xs ++ ys) ≤ n
unfolding longest last_run
longest-append v k n [] ys h i = i
longest-append v k n (b ∷ xs) ys h i =
    ground (arith, longest-append v (k + 1) n xs ys, longest-append b 1 n xs ys)

-- How long a run of `v` may be in front of a code word, for each disparity.
unfoldable pub longest_before : Bool → ℕ → ℕ
longest_before true v = if v == 0 then 3 else 1
longest_before false v = if v == 0 then 1 else 3

-- Such a run and the next word keep to five, and leave such a run.
fits : Bool → ℕ → ℕ → ℕ → Bool
unfolding longest last_run longest_before msb_bits
fits m b v k =
    let xs = msb_bits 10 (enc b 0 false (disparity m)).p10b in
    let (v', k') = last_run v k xs in
    let m' = is_minus (enc b 0 false (disparity m)).rd in
    leb (longest v k xs) 5 && (leb v' 1 && leb k' (longest_before m' v'))

fits_all :
    (m : Bool)
    → all_below 256 (λ b. all_below 2 (λ v. all_below (longest_before m v + 1) (λ k. fits m b v k)))
      ≡ true
unfolding all_below fits longest_before enc select next_rd alternate
fits_all true = refl
fits_all false = refl

three_bounds :
    (a b c l : ℕ) → (leb a 5 && (leb b 1 && leb c l)) ≡ true → (a ≤ 5) × (b ≤ 1) × (c ≤ l)
three_bounds a b c l h = ground arith

pub is_minus-disparity : (m : Bool) → is_minus (disparity m) ≡ m
is_minus-disparity true = refl
is_minus-disparity false = refl

-- One code word behind a run that is short enough.
one_word :
    (m m' : Bool) (b v k : ℕ)
    → b < 256
    → v ≤ 1
    → k ≤ longest_before m v
    → (enc b 0 false (disparity m)).rd ≡ disparity m'
    → let xs = msb_bits 10 (enc b 0 false (disparity m)).p10b in
      (longest v k xs ≤ 5)
      × ((last_run v k xs).0 ≤ 1)
      × ((last_run v k xs).1 ≤ longest_before m' (last_run v k xs).0)
one_word m m' b v k hb hv hk e =
    let xs = msb_bits 10 (enc b 0 false (disparity m)).p10b in
    let checked : fits m b v k ≡ true =
      all_below_sound (longest_before m v + 1) (fits m b v) k
        (all_below_sound 2 (λ v. all_below (longest_before m v + 1) (λ k. fits m b v k)) v
          (all_below_sound 256
            (λ b. all_below 2 (λ v. all_below (longest_before m v + 1) (λ k. fits m b v k))) b
            (fits_all m) hb)
          (omega arith))
        (omega arith) in
    let n : is_minus (enc b 0 false (disparity m)).rd ≡ m' = rw e (is_minus-disparity m') in
    subst
      (λ (s : Bool).
        (longest v k xs ≤ 5)
        × ((last_run v k xs).0 ≤ 1)
        × ((last_run v k xs).1 ≤ longest_before s (last_run v k xs).0))
      n (three_bounds _ _ _ _ (unfold fits in checked))

longest_before-le : (m : Bool) (v : ℕ) → longest_before m v ≤ 5
unfolding longest_before
longest_before-le true v = ground arith
longest_before-le false v = ground arith

wire_from :
    (m : Bool) (v k : ℕ) (bs : List ℕ)
    → All IsByte bs
    → v ≤ 1
    → k ≤ longest_before m v
    → longest v k (wire (words (disparity m) bs)) ≤ 5
unfolding longest
wire_from m v k [] h hv hk = le_trans hk (longest_before-le m v)
wire_from m v k (b ∷ bs) h hv hk =
    let (m', rd) = (enc_lem m 0 b h.0).3 in
    let (bound, bit_left, run_left) = one_word m m' b v k h.0 hv hk rd in
    let xs = msb_bits 10 (enc b 0 false (disparity m)).p10b in
    longest-append v k 5 xs (wire (words (enc b 0 false (disparity m)).rd bs)) bound
      (rw rd (wire_from m' (last_run v k xs).0 (last_run v k xs).1 bs h.1 bit_left run_left))

-- No more than five equal bits follow one another in what is sent for data bytes.
pub longest_run-words :
    (m : Bool) (bs : List ℕ) → All IsByte bs → longest_run (wire (words (disparity m) bs)) ≤ 5
longest_run-words m bs h = wire_from m 0 0 bs h (omega arith) (zero-le)
