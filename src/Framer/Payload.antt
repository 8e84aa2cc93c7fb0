-- ===== src/Framer/Payload.antt =====
-- The payload of a frame (framer.c): the Reed-Solomon block, in the line code or raw.
use psplay.Base.{
  ℕ, zero, suc, ◌+◌, ◌*◌, ◌^◌, ◌≤◌, ◌<◌, ◌≡◌, refl, sym, ap, ◌∙◌, subst, arith, Bool, true, false,
  if◌then◌else◌, some, List, [], ◌∷◌, length, All, add_size, mul_size, take, is_negative,
}
use psplay.Base.Int.{ℤ}
use psplay.Bitstream
use psplay.Bitstream.{Bitstream}
use psplay.Bitstream.Bits.{bits, length-bits}
use psplay.Bitstream.Stream.{IsValid, Written, write-Written, write_too_big}
use psplay.Framer.{write_8b10b_chunk, has_flag, no_payload_line_coding}
use psplay.Framer.Outcome.{Run, aborted, next, check, ◌>>=◌}
use psplay.Framer.Build.{Platform, Framer, payload}
use psplay.Framer.Line.{chunk_too_big, length-wire, length-words}
use psplay.Framer.Preamble.{check_ok}
use psplay.Framer.Header.{ReedSolomon, whole_chunk}
use psplay.X8b10b.Code.{disparity}
use psplay.X8b10b.Stream.{IsByte, words}
use psplay.X8b10b.Runs.{wire}

-- The bits of a block of bytes, by the flag for a raw payload.
abbrev pub block_bits : Bool → ℤ → List ℕ → List ℕ
block_bits true rd block = bits block 0 (length block * 8)
block_bits false rd block = wire (words rd block)

abbrev pub per_byte : Bool → ℕ
per_byte true = 8
per_byte false = 10

pub length-block_bits :
    (raw : Bool) (rd : ℤ) (block : List ℕ)
    → length (block_bits raw rd block) ≡ length block * per_byte raw
length-block_bits true rd block = length-bits block 0 (length block * 8)
length-block_bits false rd block =
    omega (arith, length-wire (words rd block), length-words rd block)

All-take : (n : ℕ) (xs : List ℕ) → All IsByte xs → All IsByte (take n xs)
All-take zero xs h = tt
All-take (suc n) [] h = tt
All-take (suc n) (x ∷ xs) h = (h.0, All-take n xs h.1)

length-take_le : (n : ℕ) (xs : List ℕ) → n ≤ length xs → length (take n xs) ≡ n
length-take_le zero xs h = refl
length-take_le (suc n) [] h = absurd (omega arith)
length-take_le (suc n) (x ∷ xs) h = ap suc (length-take_le n xs (omega arith))

module _ (c : Platform) where
  abbrev pub is_raw : Framer c → Bool
  is_raw f = has_flag f.flags no_payload_line_coding

  -- The message with its parity.
  abbrev pub block : c.Coder → List ℕ → ℕ → List ℕ
  block coder input in_len = (c.encode coder (take in_len input)).1

module _ (c : Platform) (laws : ReedSolomon c) (f : Framer c) (t : ℕ) where
  -- What the payload does once the block is there.
  send_block : Bool → List ℕ → ℕ → Bitstream → ℤ → Run Bitstream
  send_block raw encoded n s rd =
      if raw
      then check (Bitstream.write s encoded (mul_size n 8))
      else (check (write_8b10b_chunk t s encoded n rd) >>= λ r. next r.0)

  send_block-Written :
      (raw : Bool) (encoded : List ℕ) (n : ℕ) (s : Bitstream) (m : Bool)
      → IsValid s
      → length encoded ≡ n
      → n ≤ 255
      → All IsByte encoded
      → s.len + n * per_byte raw ≤ s.cap
      → (s' : Bitstream) × (send_block raw encoded n s (disparity m) ≡ next s')
        × Written s (block_bits raw (disparity m) encoded) s'
  unfolding send_block
  send_block-Written true encoded n s m v len few ok room =
      let (s', runs, w) = write-Written s encoded (n * 8) v (omega arith) room in
      let e : mul_size n 8 ≡ n * 8 = omega arith in
      (
        s',
        ap (λ (k : ℕ). check (Bitstream.write s encoded k)) e ∙ check_ok _ _ _ runs (omega arith),
        subst (λ (k : ℕ). Written s (bits encoded 0 (k * 8)) s') (sym len) w,
      )
  send_block-Written false encoded n s m v len few ok room =
      let (s', runs, w) = whole_chunk t n encoded s m v len few ok (omega arith) in
      (s', ap (λ (r : Run (Bitstream × ℤ)). r >>= λ r. next r.0) runs, w)

  -- Without the room the process ends.
  send_block_aborts :
      (raw : Bool) (encoded : List ℕ) (n : ℕ) (s : Bitstream) (rd : ℤ)
      → IsValid s
      → length encoded ≡ n
      → n ≤ 255
      → s.cap < s.len + n * per_byte raw
      → send_block raw encoded n s rd ≡ aborted
  unfolding send_block
  send_block_aborts true encoded n s rd v len few over =
      let e : mul_size n 8 ≡ n * 8 = omega arith in
      rw (e, write_too_big s encoded (n * 8) v (omega arith) (omega arith) over)
  send_block_aborts false encoded n s rd v len few over =
      rw (chunk_too_big t n encoded s rd v (omega arith) (omega arith))

  payload_at :
      (coder : c.Coder) (input : List ℕ) (in_len parity_len : ℕ) (s : Bitstream) (rd : ℤ)
      → c.create parity_len ≡ some coder
      → (c.encode coder (take in_len input)).0 < 2 ^ 63
      → in_len + parity_len ≤ 255
      → payload c f t input in_len parity_len s rd
        ≡ send_block (is_raw c f) (block c coder input in_len) (in_len + parity_len) s rd
  unfolding payload send_block
  payload_at coder input in_len parity_len s rd made ok few =
      let fine : is_negative (c.encode coder (take in_len input)).0 ≡ false = ground arith in
      let e : add_size in_len parity_len ≡ in_len + parity_len = omega arith in rw (made, fine, e)

  pub block-ok :
      (coder : c.Coder) (input : List ℕ) (in_len parity_len : ℕ)
      → c.create parity_len ≡ some coder
      → in_len ≤ length input
      → All IsByte input
      → in_len + parity_len ≤ 255
      → ((c.encode coder (take in_len input)).0 < 2 ^ 63)
        × (length (block c coder input in_len) ≡ in_len + parity_len)
        × All IsByte (block c coder input in_len)
  block-ok coder input in_len parity_len made enough ok few =
      let e = length-take_le in_len input enough in
      rw e at (
        laws.encoded parity_len coder (take in_len input) made (omega arith)
          (All-take in_len input ok))

  -- With room for it, the payload is the message with its parity, coded or raw.
  pub payload-Written :
      (coder : c.Coder) (input : List ℕ) (in_len parity_len : ℕ) (s : Bitstream) (m : Bool)
      → IsValid s
      → c.create parity_len ≡ some coder
      → in_len ≤ length input
      → All IsByte input
      → in_len + parity_len ≤ 255
      → s.len + (in_len + parity_len) * per_byte (is_raw c f) ≤ s.cap
      → (s' : Bitstream) × (payload c f t input in_len parity_len s (disparity m) ≡ next s')
        × Written s (block_bits (is_raw c f) (disparity m) (block c coder input in_len)) s'
  payload-Written coder input in_len parity_len s m v made enough ok few room =
      let (fine, len, bytes) = block-ok coder input in_len parity_len made enough ok few in
      rw (payload_at coder input in_len parity_len s (disparity m) made fine few) (
        send_block-Written (is_raw c f) (block c coder input in_len) (in_len + parity_len) s m v len
          few bytes room)

  -- Without that room the process ends at the payload.
  pub payload_aborts :
      (coder : c.Coder) (input : List ℕ) (in_len parity_len : ℕ) (s : Bitstream) (rd : ℤ)
      → IsValid s
      → c.create parity_len ≡ some coder
      → in_len ≤ length input
      → All IsByte input
      → in_len + parity_len ≤ 255
      → s.cap < s.len + (in_len + parity_len) * per_byte (is_raw c f)
      → payload c f t input in_len parity_len s rd ≡ aborted
  payload_aborts coder input in_len parity_len s rd v made enough ok few over =
      let (fine, len, bytes) = block-ok coder input in_len parity_len made enough ok few in
      payload_at coder input in_len parity_len s rd made fine few
      ∙ send_block_aborts (is_raw c f) (block c coder input in_len) (in_len + parity_len) s rd v len
          few over
