-- ===== src/Framer/Header.antt =====
-- The header of a frame (framer.c): start delimiter and coded length.
use psplay.Base.{
  ℕ, ◌+◌, ◌*◌, ◌%◌, ◌^◌, ◌≤◌, ◌<◌, ◌≡◌, sym, ap, ◌∙◌, arith, Bool, true, false, some, List, [], ◌∷◌,
  ◌++◌, length, All, take, take-append, append-nil, length-append, is_negative,
}
use psplay.Base.Int.{ℤ, negsuc}
use psplay.Bitstream.{Bitstream}
use psplay.Bitstream.Stream.{IsValid, Written, Written-append}
use psplay.Framer.{write_8b10b, write_8b10b_chunk, frame_sfd, frame_header_rs_parity_len}
use psplay.Framer.Outcome.{Run, next, check}
use psplay.Framer.Build.{Platform, Framer, header}
use psplay.Framer.Line.{
  write_8b10b-Written, chunk-Written, length-msb_bits, length-wire, length-words,
}
use psplay.Framer.Preamble.{check_ok}
use psplay.X8b10b.Control.{start_delimiter, enc-start}
use psplay.X8b10b.Code.{disparity}
use psplay.X8b10b.Stream.{IsByte, words, last_rd}
use psplay.X8b10b.Runs.{msb_bits, wire}

-- What the framer relies on of libcorrect: a coder for `n` parity bytes takes a message that fits a
-- block with them, reports no error, and writes the message's bytes and `n` more.
pub record ReedSolomon (c : Platform) : Type 0 where
  pub encoded :
      (n : ℕ) (coder : c.Coder) (msg : List ℕ)
      → c.create n ≡ some coder
      → length msg + n ≤ 255
      → All IsByte msg
      → ((c.encode coder msg).0 < 2 ^ 63)
        × (length (c.encode coder msg).1 ≡ length msg + n)
        × All IsByte (c.encode coder msg).1

take-all {ℓ} : {A : Type ℓ} (n : ℕ) (xs : List A) → length xs ≡ n → take n xs ≡ xs
take-all n xs h = rw (← h) (ap (take (length xs)) (sym (append-nil xs)) ∙ take-append xs [])

-- The whole of a list as one chunk.
pub whole_chunk :
    (t n : ℕ) (bs : List ℕ) (s : Bitstream) (m : Bool)
    → IsValid s
    → length bs ≡ n
    → n ≤ 255
    → All IsByte bs
    → s.len + 10 * n ≤ s.cap
    → (s' : Bitstream) × (check (write_8b10b_chunk t s bs n (disparity m))
        ≡ next (s', last_rd (disparity m) bs))
      × Written s (wire (words (disparity m) bs)) s'
whole_chunk t n bs s m v len few ok room =
    rw (take-all n bs len) at
      (checked (chunk-Written t n bs s m v (omega arith) ok (omega arith) room))
  where
    checked :
        (s' : Bitstream) × (write_8b10b_chunk t s bs n (disparity m)
            ≡ some (10 * n, (s', last_rd (disparity m) (take n bs))))
          × Written s (wire (words (disparity m) (take n bs))) s'
        → (s' : Bitstream) × (check (write_8b10b_chunk t s bs n (disparity m))
            ≡ next (s', last_rd (disparity m) (take n bs)))
          × Written s (wire (words (disparity m) (take n bs))) s'
    checked (s', runs, w) = (s', check_ok _ _ _ runs (omega arith), w)

module _ (c : Platform) where
  -- The coded length byte.
  abbrev pub coded_length : c.Coder → ℕ → List ℕ
  coded_length coder in_len = (c.encode coder (in_len ∷ [])).1

  abbrev pub header_bits : c.Coder → ℕ → List ℕ
  header_bits coder in_len =
      msb_bits 10 start_delimiter ++ wire (words (disparity false) (coded_length coder in_len))

module _ (c : Platform) (laws : ReedSolomon c) (f : Framer c) (t : ℕ) where
  pub coded_length-ok :
      (coder : c.Coder) (in_len : ℕ)
      → c.create frame_header_rs_parity_len ≡ some coder
      → in_len ≤ 255
      → ((c.encode coder (in_len ∷ [])).0 < 2 ^ 63)
        × (length (coded_length c coder in_len) ≡ 3)
        × All IsByte (coded_length c coder in_len)
  coded_length-ok coder in_len made small =
      laws.encoded frame_header_rs_parity_len coder (in_len ∷ []) made (omega arith)
        (omega arith, tt)

  pub length-header_bits :
      (coder : c.Coder) (in_len : ℕ)
      → c.create frame_header_rs_parity_len ≡ some coder
      → in_len ≤ 255
      → length (header_bits c coder in_len) ≡ 40
  length-header_bits coder in_len made small =
      let coded = coded_length c coder in_len in
      omega (
        arith,
        length-append (msb_bits 10 start_delimiter) (wire (words (disparity false) coded)),
        length-msb_bits 10 start_delimiter,
        length-wire (words (disparity false) coded),
        length-words (disparity false) coded,
        (coded_length-ok coder in_len made small).1,
      )

  start-Written :
      (s : Bitstream)
      → IsValid s
      → s.len + 10 ≤ s.cap
      → (s' : Bitstream) × (check (write_8b10b t s frame_sfd (negsuc 0) true)
          ≡ next (s', disparity false))
        × Written s (msb_bits 10 start_delimiter) s'
  start-Written s v room =
      let (s', runs, w) = rw (enc-start t) at (
        write_8b10b-Written t s frame_sfd (disparity true) true v room
          (rw (enc-start t) (omega arith))) in
      (s', check_ok _ _ _ runs (omega arith), w)

  header_at :
      (coder : c.Coder) (in_len : ℕ) (s s' : Bitstream) (rd : ℤ) (r : Run (Bitstream × ℤ))
      → check (write_8b10b t s frame_sfd (negsuc 0) true) ≡ next (s', rd)
      → f.rs_header ≡ some coder
      → in_len ≤ 255
      → (c.encode coder (in_len ∷ [])).0 < 2 ^ 63
      → check (write_8b10b_chunk t s' (coded_length c coder in_len) 3 rd) ≡ r
      → header c f t in_len s ≡ r
  unfolding header
  header_at coder in_len s s' rd r first here small ok second =
      let byte : in_len % 2 ^ 8 ≡ in_len = omega arith in
      let fine : is_negative (c.encode coder (in_len ∷ [])).0 ≡ false = ground arith in
      rw (first, here, byte, fine, second)

  -- With room for 40 bits the header is the start delimiter and the three coded length bytes.
  pub header-Written :
      (coder : c.Coder) (in_len : ℕ) (s : Bitstream)
      → IsValid s
      → f.rs_header ≡ some coder
      → c.create frame_header_rs_parity_len ≡ some coder
      → in_len ≤ 255
      → s.len + 40 ≤ s.cap
      → (s' : Bitstream) × (header c f t in_len s
          ≡ next (s', last_rd (disparity false) (coded_length c coder in_len)))
        × Written s (header_bits c coder in_len) s'
  header-Written coder in_len s v here made small room =
      let (ok, three, bytes) = coded_length-ok coder in_len made small in
      let (s₁, first, w) = start-Written s v (omega arith) in
      let (s₂, second, w') =
        whole_chunk t 3 (coded_length c coder in_len) s₁ false w.valid three (omega arith) bytes
          (omega (arith, w.longer, w.cap_kept, length-msb_bits 10 start_delimiter)) in
      (
        s₂,
        header_at coder in_len s s₁ (disparity false) _ first here small ok second,
        Written-append (msb_bits 10 start_delimiter)
            (wire (words (disparity false) (coded_length c coder in_len))) w w',
      )
