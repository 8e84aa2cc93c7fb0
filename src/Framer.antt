-- ===== src/Framer.antt =====
-- framer.h and framer.c: a message becomes a frame of preamble, start delimiter, length and payload
-- in a bit stream.
pub mod Outcome
pub mod Build
pub mod Line
pub mod Preamble
pub mod Header
pub mod Payload
pub mod Frame
pub mod Result
pub mod Tests
use psplay.Base.{
  ℕ, zero, suc, ◌+◌, ◌*◌, ◌%◌, ◌^◌, bit_and, bit_or, bit_ones, ◌<<<◌, ◌>>>◌, Bool, true, false, not,
  ltb, ◌==◌, if◌then◌else◌, Option, none, some, List, [], ◌∷◌, get_elem?, ◌>>=◌, add_size, mul_size,
  neg_errno, e2big, emsgsize, is_negative, take,
}
use psplay.Base.Int.{ℤ, negsuc}
use psplay.Bitstream
use psplay.Bitstream.{Bitstream}
use psplay.X8b10b.{enc}

-- The table of `rev10b`: five bits in reverse.
abbrev pub lut : List ℕ
lut =
    0b00000 ∷ 0b10000 ∷ 0b01000 ∷ 0b11000 ∷ 0b00100 ∷ 0b10100 ∷ 0b01100 ∷ 0b11100 ∷ 0b00010
    ∷ 0b10010 ∷ 0b01010 ∷ 0b11010 ∷ 0b00110 ∷ 0b10110 ∷ 0b01110 ∷ 0b11110 ∷ 0b00001 ∷ 0b10001
    ∷ 0b01001 ∷ 0b11001 ∷ 0b00101 ∷ 0b10101 ∷ 0b01101 ∷ 0b11101 ∷ 0b00011 ∷ 0b10011 ∷ 0b01011
    ∷ 0b11011 ∷ 0b00111 ∷ 0b10111 ∷ 0b01111 ∷ 0b11111 ∷ []

pub rev10b : ℕ → Option ℕ
rev10b w = do
  low ← get_elem? lut (bit_and w (bit_ones 5))
  high ← get_elem? lut (w >>> 5)
  some (bit_or (low <<< 5) high % 2 ^ 16)

-- `t` is what the uninitialised variable of that name holds.
pub write_8b10b : ℕ → Bitstream → ℕ → ℤ → Bool → Option (ℕ × (Bitstream × ℤ))
write_8b10b t s octet rd ctrl = do
  let e = enc octet t ctrl rd
  w ← rev10b e.p10b
  (ret, s') ← Bitstream.write s (Bitstream.bytes_of 2 w) 10
  some (ret, (s', e.rd))

-- The loop of `bitstream_write_8b10b_chunk`, with `left` rounds to go over the bytes that are left.
pub chunk_loop : ℕ → ℕ → List ℕ → Bitstream → ℤ → ℕ → Option (ℕ × (Bitstream × ℤ))
chunk_loop t zero bytes s rd total = some (total, (s, rd))
chunk_loop t (suc left) [] s rd total = none
chunk_loop t (suc left) (b ∷ bytes) s rd total = do
  (ret, (s', rd')) ← write_8b10b t s b rd false
  let rest = chunk_loop t left bytes s' rd' (add_size total ret)
  if is_negative ret then some (ret, (s', rd')) else rest

pub write_8b10b_chunk : ℕ → Bitstream → List ℕ → ℕ → ℤ → Option (ℕ × (Bitstream × ℤ))
write_8b10b_chunk t s bytes len rd =
    if ltb (Bitstream.remaining_cap s) (mul_size len 10)
    then some (neg_errno e2big, (s, rd))
    else chunk_loop t len bytes s rd 0

-- The flags of framer.h.
abbrev pub no_payload_line_coding : ℕ
no_payload_line_coding = 1

abbrev pub no_header : ℕ
no_header = 2

abbrev pub has_flag : ℕ → ℕ → Bool
has_flag flags f = not (bit_and flags f == 0)

abbrev pub frame_sfd : ℕ
frame_sfd = 0x3c

abbrev pub frame_header_rs_parity_len : ℕ
frame_header_rs_parity_len = 2

abbrev pub frame_max_payload_size : ℕ
frame_max_payload_size = 255
