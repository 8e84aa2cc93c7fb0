-- ===== src/Framer/Line.antt =====
-- The line-coded parts of a frame (framer.c): each byte's code word goes into the stream highest
-- bit first, since `rev10b` reverses it and the stream takes the lowest bit first.
use psplay.Base.{
  ℕ, zero, suc, ◌+◌, ◌*◌, ◌^◌, ◌≤◌, ◌<◌, ◌≡◌, refl, sym, ap, ap₂, ◌∙◌, subst, arith, Bool, true,
  false, ◌&&◌, ◌==◌, Option, none, some, List, [], ◌∷◌, length, All, all_below, all_below_sound,
  add_size, neg_errno, e2big, mul_size, take, ltb, length-append,
}
use psplay.Base.Int.{ℤ}
use psplay.Bitstream
use psplay.Bitstream.{Bitstream}
use psplay.Bitstream.Numbers.{bits_of, bits-bytes_of, length-bytes_of}
use psplay.Bitstream.Stream.{
  IsValid, Written, write-Written, remaining_cap_lem, Written-nil, Written-append,
}
use psplay.Framer.{rev10b, write_8b10b, chunk_loop, write_8b10b_chunk}
use psplay.X8b10b.{enc}
use psplay.X8b10b.Code.{disparity, enc_lem, enc_old}
use psplay.X8b10b.Stream.{IsByte, words, last_rd}
use psplay.X8b10b.Runs.{msb_bits, wire}

eqb_list : List ℕ → List ℕ → Bool
eqb_list [] [] = true
eqb_list [] (y ∷ ys) = false
eqb_list (x ∷ xs) [] = false
eqb_list (x ∷ xs) (y ∷ ys) = x == y && eqb_list xs ys

eqb_list_sound : (xs ys : List ℕ) → eqb_list xs ys ≡ true → xs ≡ ys
unfolding eqb_list
eqb_list_sound [] [] h = refl
eqb_list_sound [] (y ∷ ys) h = cc
eqb_list_sound (x ∷ xs) [] h = cc
eqb_list_sound (x ∷ xs) (y ∷ ys) h = ground (arith, eqb_list_sound xs ys)

-- The reversed word exists, and its bits from the lowest are the word's from the highest.
reverses : ℕ → Option ℕ → Bool
unfolding eqb_list msb_bits
reverses w none = false
reverses w (some r) = eqb_list (bits_of 10 r) (msb_bits 10 w)

reverses_all : all_below 1024 (λ w. reverses w (rev10b w)) ≡ true
unfolding all_below reverses rev10b
reverses_all = refl

reverses_sound :
    (w : ℕ) (o : Option ℕ)
    → reverses w o ≡ true
    → (r : ℕ) × (o ≡ some r) × (bits_of 10 r ≡ msb_bits 10 w)
unfolding reverses
reverses_sound w none h = cc
reverses_sound w (some r) h = (r, refl, eqb_list_sound _ _ h)

-- `rev10b` reads its table within bounds, and reverses the ten bits of a code word.
pub rev10b_lem :
    (w : ℕ) → w < 2 ^ 10 → (r : ℕ) × (rev10b w ≡ some r) × (bits_of 10 r ≡ msb_bits 10 w)
rev10b_lem w h =
    reverses_sound w (rev10b w) (all_below_sound 1024 (λ w. reverses w (rev10b w)) w reverses_all h)

pub length-msb_bits : (n w : ℕ) → length (msb_bits n w) ≡ n
unfolding msb_bits
length-msb_bits zero w = refl
length-msb_bits (suc n) w = ap suc (length-msb_bits n w)

pub length-wire : (ws : List ℕ) → length (wire ws) ≡ 10 * length ws
length-wire [] = refl
length-wire (w ∷ ws) =
    omega (arith, length-append (msb_bits 10 w) (wire ws), length-msb_bits 10 w, length-wire ws)

pub length-words : (rd : ℤ) (bs : List ℕ) → length (words rd bs) ≡ length bs
length-words rd [] = refl
length-words rd (b ∷ bs) = ap suc (length-words (enc b 0 false rd).rd bs)

write_8b10b_at :
    (t : ℕ) (s s' : Bitstream) (b : ℕ) (rd : ℤ) (ctrl : Bool) (r ret : ℕ)
    → rev10b (enc b t ctrl rd).p10b ≡ some r
    → Bitstream.write s (Bitstream.bytes_of 2 r) 10 ≡ some (ret, s')
    → write_8b10b t s b rd ctrl ≡ some (ret, (s', (enc b t ctrl rd).rd))
unfolding write_8b10b
write_8b10b_at t s s' b rd ctrl r ret found runs = rw (found, runs)

-- One byte, with room for its ten bits.
pub write_8b10b-Written :
    (t : ℕ) (s : Bitstream) (b : ℕ) (rd : ℤ) (ctrl : Bool)
    → IsValid s
    → s.len + 10 ≤ s.cap
    → (enc b t ctrl rd).p10b < 2 ^ 10
    → (s' : Bitstream) × (write_8b10b t s b rd ctrl ≡ some (10, (s', (enc b t ctrl rd).rd)))
      × Written s (msb_bits 10 (enc b t ctrl rd).p10b) s'
write_8b10b-Written t s b rd ctrl v room ten =
    let (r, found, reversed) = rev10b_lem (enc b t ctrl rd).p10b ten in
    let (s', runs, w) =
      write-Written s (Bitstream.bytes_of 2 r) 10 v (omega (arith, length-bytes_of 2 r)) room in
    (
      s',
      write_8b10b_at t s s' b rd ctrl r 10 found runs,
      subst (λ a. Written s a s') (bits-bytes_of 2 10 r (omega arith) ∙ reversed) w,
    )

-- A data byte, described by the encoder at a blank `*p10b`.
write_data :
    (t : ℕ) (s : Bitstream) (b : ℕ) (m : Bool)
    → IsValid s
    → s.len + 10 ≤ s.cap
    → IsByte b
    → let e = enc b 0 false (disparity m) in
      (s' : Bitstream) × (write_8b10b t s b (disparity m) false ≡ some (10, (s', e.rd)))
      × Written s (msb_bits 10 e.p10b) s'
write_data t s b m v room small =
    let facts = enc_lem m t b small in
    rw (← enc_old b t 0 false (disparity m) facts.0)
      (write_8b10b-Written t s b (disparity m) false v room facts.1)

chunk_step :
    (t left b : ℕ) (bytes : List ℕ) (s s' : Bitstream) (rd rd' : ℤ) (total : ℕ)
    → write_8b10b t s b rd false ≡ some (10, (s', rd'))
    → total + 10 < 2 ^ 64
    → chunk_loop t (suc left) (b ∷ bytes) s rd total ≡ chunk_loop t left bytes s' rd' (total + 10)
unfolding chunk_loop
chunk_step t left b bytes s s' rd rd' total e small =
    let i : add_size total 10 ≡ total + 10 = omega arith in rw (e, i)

-- What the loop over the first `n` bytes of `bs` leaves.
abbrev Sent : Bitstream → Bool → List ℕ → ℕ → ℕ → Option (ℕ × (Bitstream × ℤ)) → Type 0
Sent s m bs n total result =
    (s' : Bitstream) × (result ≡ some (total + 10 * n, (s', last_rd (disparity m) (take n bs))))
    × Written s (wire (words (disparity m) (take n bs))) s'

chunk_loop-Sent :
    (t n : ℕ) (bs : List ℕ) (s : Bitstream) (m : Bool) (total : ℕ)
    → IsValid s
    → n ≤ length bs
    → All IsByte bs
    → s.len + 10 * n ≤ s.cap
    → total + 10 * n < 2 ^ 64
    → Sent s m bs n total (chunk_loop t n bs s (disparity m) total)
chunk_loop-Sent t zero bs s m total v enough ok room small = (
  s,
  unfold chunk_loop in ap (λ (k : ℕ). some (k, (s, disparity m))) (omega_zero total),
  Written-nil s v,
)
  where
    omega_zero : (k : ℕ) → k ≡ k + 10 * 0
    omega_zero k = omega arith
chunk_loop-Sent t (suc n) [] s m total v enough ok room small = absurd (omega arith)
chunk_loop-Sent t (suc n) (b ∷ bs) s m total v enough ok room small =
    let e = enc b 0 false (disparity m) in
    let (s', runs, w) = write_data t s b m v (omega arith) ok.0 in
    let (m', rd) = (enc_lem m 0 b ok.0).3 in
    let (u, rest, w') =
      chunk_loop-Sent t n bs s' m' (total + 10) w.valid (omega arith) ok.1
        (omega (arith, w.longer, w.cap_kept, length-msb_bits 10 e.p10b)) (omega arith) in
    (
      u,
      chunk_step t n b bs s s' (disparity m) e.rd total runs (omega arith)
          ∙ ap (λ d. chunk_loop t n bs s' d (total + 10)) rd
          ∙ rest
          ∙ ap₂ (λ (k : ℕ) d. some (k, (u, last_rd d (take n bs)))) (regroup total n) (sym rd),
      Written-append (msb_bits 10 e.p10b) (wire (words e.rd (take n bs))) w (rw rd w'),
    )
  where
    regroup : (k n : ℕ) → k + 10 + 10 * n ≡ k + 10 * suc n
    regroup k n = omega arith

chunk_at :
    (t n : ℕ) (bs : List ℕ) (s : Bitstream) (rd : ℤ)
    → IsValid s
    → n < 2 ^ 60
    → s.len + 10 * n ≤ s.cap
    → write_8b10b_chunk t s bs n rd ≡ chunk_loop t n bs s rd 0
unfolding write_8b10b_chunk
chunk_at t n bs s rd v few room =
    let e : ltb (Bitstream.remaining_cap s) (mul_size n 10) ≡ false =
      ground (arith, remaining_cap_lem s v, v.counted, v.fits) in
    rw e

-- On a valid stream with room for ten bits a byte, `bitstream_write_8b10b_chunk` appends the code words of the first
-- `n` bytes in order, highest bit first, returns the number of bits, and hands on the disparity.
pub chunk-Written :
    (t n : ℕ) (bs : List ℕ) (s : Bitstream) (m : Bool)
    → IsValid s
    → n ≤ length bs
    → All IsByte bs
    → n < 2 ^ 60
    → s.len + 10 * n ≤ s.cap
    → (s' : Bitstream) × (write_8b10b_chunk t s bs n (disparity m)
        ≡ some (10 * n, (s', last_rd (disparity m) (take n bs))))
      × Written s (wire (words (disparity m) (take n bs))) s'
chunk-Written t n bs s m v enough ok few room =
    let (s', runs, w) = chunk_loop-Sent t n bs s m 0 v enough ok room (omega arith) in
    (
      s',
      chunk_at t n bs s (disparity m) v few room
          ∙ runs
          ∙ ap (λ (k : ℕ). some (k, (s', last_rd (disparity m) (take n bs)))) (drop_zero (10 * n)),
      w,
    )
  where
    drop_zero : (k : ℕ) → 0 + k ≡ k
    drop_zero k = omega arith

-- On a valid stream without room for ten bits a byte, `bitstream_write_8b10b_chunk` returns -E2BIG
-- and changes neither the stream nor the disparity.
pub chunk_too_big :
    (t n : ℕ) (bs : List ℕ) (s : Bitstream) (rd : ℤ)
    → IsValid s
    → n < 2 ^ 60
    → s.cap < s.len + 10 * n
    → write_8b10b_chunk t s bs n rd ≡ some (neg_errno e2big, (s, rd))
unfolding write_8b10b_chunk
chunk_too_big t n bs s rd v few over =
    let e : ltb (Bitstream.remaining_cap s) (mul_size n 10) ≡ true =
      ground (arith, remaining_cap_lem s v, v.counted, v.fits) in
    rw e
