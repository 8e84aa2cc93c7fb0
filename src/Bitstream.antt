-- ===== src/Bitstream.antt =====
-- bitstream.h and bitstream.c: a buffer of bits, least significant bit of each byte first, with a
-- write position and a read position. The buffers that a call is given do not overlap the stream's.
pub mod Bits
pub mod Stored
pub mod Drain
pub mod Loop
pub mod Copy
pub mod Stream
pub mod Reading
pub mod Numbers
pub mod Value
pub mod Text
pub mod Tests
use psplay.Base.{ℕ, zero, suc, ◌+◌, ◌-◌, ◌*◌, ◌/◌, ◌%◌, ◌^◌, bit_and, bit_or}
use psplay.Base.{Bool, true, false, Option, none, some, List, [], ◌∷◌, ◌++◌, length, get_elem?}
use psplay.Base.{if◌then◌else◌, ltb, leb, ◌==◌, not, ◌>>=◌, store}
use psplay.Base.{add_size, sub_size, is_negative, neg_errno, e2big, bit_ones, min_size}
use psplay.Base.{◌<<<◌, ◌>>>◌}

-- `bitstream_t`
pub record Bitstream : Type 0 where
  pub data_ : List ℕ
  pub cap : ℕ
  pub len : ℕ
  pub pos_read : ℕ
  pub pos_write : ℕ

-- The variables of `bitwise_copy`: the union's 16-bit register with the number of bits in it,
-- what is left of the source, and the destination.
pub record Copier : Type 0 where
  pub src_offset : ℕ
  pub src_remaining : ℕ
  pub reg : ℕ
  pub u_len : ℕ
  pub dst : List ℕ
  pub dst_offset : ℕ
  pub total : ℕ

-- The head of the outer loop: up to the end of a source byte goes into the register.
pub produce : List ℕ → Copier → Option Copier
produce src c = do
  let n = min_size c.src_remaining (8 - c.src_offset % 8)
  octet ← get_elem? src (c.src_offset / 8)
  let bits_produced = bit_and (octet >>> (c.src_offset % 8)) (bit_ones n) % 2 ^ 8
  some (record c {
    src_offset = add_size c.src_offset n;
    src_remaining = c.src_remaining - n;
    reg = bit_or c.reg (bits_produced <<< c.u_len) % 2 ^ 16;
    u_len = add_size c.u_len n;
  })

-- The body of the inner loop: up to the end of a destination byte leaves the register.
pub consume : Copier → Option Copier
consume c = do
  let n = min_size c.u_len (8 - c.dst_offset % 8)
  let bits_consumed = bit_and c.reg (bit_ones n) % 2 ^ 8
  let pos = c.dst_offset % 8
  octet ← get_elem? c.dst (c.dst_offset / 8)
  dst' ←
      store c.dst (c.dst_offset / 8)
        (bit_or (bits_consumed <<< pos) (bit_and octet (bit_ones pos)) % 2 ^ 8)
  some (record c {
    dst = dst';
    dst_offset = add_size c.dst_offset n;
    reg = c.reg >>> n;
    u_len = c.u_len - n;
    total = add_size c.total n;
  })

-- `while (u_len > 0)`, on fuel.
pub drain : ℕ → Copier → Option Copier
drain zero c = none
drain (suc fuel) c = let rest = consume c >>= drain fuel in if c.u_len == 0 then some c else rest

-- `while (src_remaining > 0)`, on fuel. A round moves at least one bit, and the inner loop too.
pub copy_loop : ℕ → List ℕ → Copier → Option Copier
copy_loop zero src c = none
copy_loop (suc fuel) src c =
    let rest = produce src c >>= (λ p. drain (suc p.u_len) p) >>= copy_loop fuel src in
    if c.src_remaining == 0 then some c else rest

-- The result is the `ssize_t` and the destination's bytes.
pub bitwise_copy : List ℕ → ℕ → ℕ → List ℕ → ℕ → ℕ → ℕ → Option (ℕ × List ℕ)
bitwise_copy src src_offset src_cap dst dst_offset dst_cap count =
    let src_remaining = min_size count (sub_size src_cap src_offset) in
    let start : Copier = record {
      src_offset = src_offset;
      src_remaining = src_remaining;
      reg = 0;
      u_len = 0;
      dst = dst;
      dst_offset = dst_offset;
      total = 0;
    } in
    if ltb (sub_size dst_cap dst_offset) count
    then some (neg_errno e2big, dst)
    else (copy_loop (suc src_remaining) src start >>= (λ c. some (c.total, c.dst)))

-- `calloc` is the C library's: `none` is NULL, with `errno` set. The result is the return value,
-- and the stream where it is usable.
pub init : (ℕ → Option (List ℕ)) → ℕ → ℕ → ℕ × Option Bitstream
init calloc errno cap = elim (calloc (add_size cap 7 / 8)) [
  | none ↦ (neg_errno errno, none)
  | some bytes ↦
      (0, some (record { data_ = bytes; cap = cap; len = 0; pos_read = 0; pos_write = 0 }))
]

-- What `bitstream_write` does with the result of the copy.
pub finish_write : Bitstream → ℕ × List ℕ → ℕ × Bitstream
finish_write s (written, bytes) =
    let s' : Bitstream = record s { data_ = bytes } in
    if is_negative written
    then (written, s')
    else if ltb s.cap (add_size s.len written)
    then (neg_errno e2big, s')
    else (
      written,
      record s' { pos_write = add_size s.pos_write written; len = add_size s.len written },
    )

pub write : Bitstream → List ℕ → ℕ → Option (ℕ × Bitstream)
write s src len = do
  r ← bitwise_copy src 0 len s.data_ s.pos_write s.cap len
  some (finish_write s r)

-- The bytes of a `uint64_t` in memory, on a little-endian machine.
pub bytes_of : ℕ → ℕ → List ℕ
bytes_of zero x = []
bytes_of (suc k) x = x % 2 ^ 8 ∷ bytes_of k (x / 2 ^ 8)

pub write_n : Bitstream → ℕ → ℕ → Option (ℕ × Bitstream)
write_n s n len = write s (bytes_of 8 n) (min_size 64 len)

-- The stream and the caller's buffer after a read.
pub finish_read : Bitstream → ℕ × List ℕ → ℕ × Bitstream × List ℕ
finish_read s (bits_read, buf) =
    if is_negative bits_read
    then (bits_read, s, buf)
    else (bits_read, record s { pos_read = add_size s.pos_read bits_read }, buf)

pub read : Bitstream → List ℕ → ℕ → Option (ℕ × Bitstream × List ℕ)
read s buf count = do
  r ← bitwise_copy s.data_ s.pos_read s.len buf 0 count count
  some (finish_read s r)

pub seek : Bitstream → ℕ → ℕ × Bitstream
seek s pos = let pos' = if ltb s.len pos then s.len else pos in (pos', record s { pos_read = pos' })

pub remaining_cap : Bitstream → ℕ
remaining_cap s = sub_size s.cap s.pos_write

-- The loop of `bitstream_write_str` over the characters left, with the total so far.
pub write_chars : Bitstream → List ℕ → ℕ → Option (ℕ × Bitstream)
write_chars s [] total = some (total, s)
write_chars s (ch ∷ str) total = do
  let bit = if ch == b'0' then 0 else 1
  (written, s') ← write s (bit ∷ []) 1
  let rest = write_chars s' str (add_size total written)
  if is_negative written then some (written, s') else rest

pub write_str : Bitstream → List ℕ → Option (ℕ × Bitstream)
write_str s str = write_chars s str 0

-- The loop of `bitstream_dump` at index `i`, with `left` bits to print: the characters printed.
pub dump_bits : List ℕ → ℕ → ℕ → Option (List ℕ)
dump_bits bytes zero i = some []
dump_bits bytes (suc left) i = do
  octet ← get_elem? bytes (i / 8)
  rest ← dump_bits bytes left (i + 1)
  let digit = bit_and 1 (octet >>> (i % 8)) + b'0'
  some (digit ∷ (if i % 8 == 7 then b' ' ∷ rest else rest))

-- "<empty>" and "\n"
abbrev pub empty_mark : List ℕ
empty_mark = b'<' ∷ b'e' ∷ b'm' ∷ b'p' ∷ b't' ∷ b'y' ∷ b'>' ∷ []

pub dump : Bitstream → Option (List ℕ)
unfolding dump_bits
dump s = do
  body ← dump_bits s.data_ s.len 0
  some ((if s.len == 0 then empty_mark else []) ++ (body ++ 10 ∷ []))
