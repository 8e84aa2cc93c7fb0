-- ===== src/Bitstream/Reading.antt =====
-- `bitstream_read` and `bitstream_seek` (bitstream.c) against the list of the bits written.
use psplay.Base.{
  ℕ, ◌/◌, ◌+◌, ◌-◌, ◌*◌, ◌^◌, ◌≤◌, ◌<◌, ◌≡◌, arith, ap, ◌∙◌, get_or, List, append-nil,
  append-cancel, [], ◌++◌, length, some, refl, sym, min,
}
use psplay.Bitstream.{Bitstream, write, finish_read, read, seek}
use psplay.Bitstream.Bits.{bit_at, bits, bits-add, bits-ext, length-bits}
use psplay.Bitstream.Stored.{Stored}
use psplay.Bitstream.Copy.{CopyBounds, bitwise_copy_lem}
use psplay.Bitstream.Stream.{IsValid, contents, unread, write-Written}

finish_read_lem :
    (s : Bitstream) (n : ℕ) (buf : List ℕ)
    → IsValid s
    → s.pos_read + n ≤ s.len
    → finish_read s (n, buf) ≡ (n, record s { pos_read = s.pos_read + n }, buf)
unfolding finish_read
finish_read_lem s n buf v h = ground (arith, v.small, v.counted, v.fits)

read_bounds :
    (s : Bitstream) (buf : List ℕ) (count : ℕ)
    → IsValid s
    → count ≤ 8 * length buf
    → count < 2 ^ 64
    → CopyBounds s.data_ s.pos_read s.len buf 0 count count
read_bounds s buf count v room small = record {
  src_in = v.read_in;
  src_room = omega (arith, v.storage, v.fits, v.counted);
  src_small = omega (arith, v.small, v.fits, v.counted);
  dst_in = omega arith;
  dst_room = room;
  dst_small = small;
}

-- What a call of `read` leaves behind: `n` bits of the stream now stand in the caller's buffer, and
-- what is left of the last byte that they reach is cleared.
pub record Fetched (s : Bitstream) (n : ℕ) (buf : List ℕ) (s' : Bitstream) (buf' : List ℕ)
    : Type 0 where
  pub valid : IsValid s'
  pub delivered : unread s ≡ bits buf' 0 n ++ unread s'
  pub contents_kept : contents s' ≡ contents s
  pub advanced : s'.pos_read ≡ s.pos_read + n
  pub others_kept : (s'.len ≡ s.len) × (s'.cap ≡ s.cap) × (s'.pos_write ≡ s.pos_write)
  pub beyond : (j : ℕ) → n ≤ 8 * j → get_or buf' j 0 ≡ get_or buf j 0
  pub same_length : length buf' ≡ length buf
  pub cleared : 0 < n → (i : ℕ) → n ≤ i → i < (n + 7) / 8 * 8 → bit_at buf' i ≡ 0

moved-Fetched :
    (s : Bitstream) (n : ℕ) (buf buf' : List ℕ)
    → IsValid s
    → s.pos_read + n ≤ s.len
    → Stored (λ k. bit_at s.data_ (s.pos_read + k)) 0 n buf buf'
    → Fetched s n buf (record s { pos_read = s.pos_read + n }) buf'
moved-Fetched s n buf buf' v fits st = record {
  valid = record {
    storage = v.storage;
    small = v.small;
    counted = v.counted;
    fits = v.fits;
    read_in = fits;
  };
  delivered =
      let e : s.len - s.pos_read ≡ n + (s.len - (s.pos_read + n)) = omega arith in
      rw (e, bits-add s.data_ s.pos_read n (s.len - (s.pos_read + n)))
        (ap (λ t. t ++ bits s.data_ (s.pos_read + n) (s.len - (s.pos_read + n)))
          (bits-ext s.data_ buf' s.pos_read 0 n (λ k lt. sym (st.inside k lt))));
  contents_kept = refl;
  advanced = refl;
  others_kept = (refl, refl, refl);
  beyond = λ j le. st.beyond j (omega arith);
  same_length = st.same_length;
  cleared = λ more i le lt. st.cleared more i (omega arith) (omega arith);
}

-- On a valid stream, with a buffer that has room for the bits asked for, and fewer than 2 ^ 64 of
-- them, `bitstream_read` does not fail: it takes the next bits, as many as are asked for and there,
-- into the buffer, and returns their number; the rest stays unread, the contents stay, and the bytes
-- of the buffer behind the bits delivered are as before.
pub read-Fetched :
    (s : Bitstream) (buf : List ℕ) (count : ℕ)
    → IsValid s
    → count ≤ 8 * length buf
    → count < 2 ^ 64
    → let n = min count (s.len - s.pos_read) in
      (s' : Bitstream) × (buf' : List ℕ) × (read s buf count ≡ some (n, s', buf'))
      × Fetched s n buf s' buf'
unfolding read
read-Fetched s buf count v room small =
    let n = min count (s.len - s.pos_read) in
    let b = read_bounds s buf count v room small in
    let (after, runs, stored) =
      bitwise_copy_lem s.data_ s.pos_read s.len buf 0 count count b (omega arith) in
    (
      record s { pos_read = s.pos_read + n },
      after,
      rw (runs, finish_read_lem s n after v (omega (arith, v.read_in))),
      moved-Fetched s n buf after v (omega (arith, v.read_in)) stored,
    )

seek_at :
    (s : Bitstream) (pos : ℕ) → seek s pos ≡ (min pos s.len, record s { pos_read = min pos s.len })
unfolding seek
seek_at s pos = ground arith

at-IsValid : (s : Bitstream) (p : ℕ) → IsValid s → p ≤ s.len → IsValid (record s { pos_read = p })
at-IsValid s p v le = record {
  storage = v.storage;
  small = v.small;
  counted = v.counted;
  fits = v.fits;
  read_in = le;
}

-- A position splits the contents into what has been read and what has not.
split_at :
    (s : Bitstream) (p : ℕ)
    → p ≤ s.len
    → contents s ≡ bits s.data_ 0 p ++ bits s.data_ p (s.len - p)
split_at s p le =
    let e : s.len ≡ p + (s.len - p) = omega arith in
    let i : 0 + p ≡ p = omega arith in
    ap (bits s.data_ 0) e ∙ rw i at (bits-add s.data_ 0 p (s.len - p))

-- `bitstream_seek` moves the read position to the one asked for, or to the end if that is less,
-- returns it, and what is then unread is the contents from there on.
pub seek_lem :
    (s : Bitstream) (pos : ℕ)
    → IsValid s
    → let (p, s') = seek s pos in
      (p ≡ min pos s.len)
      × (s'.pos_read ≡ p)
      × IsValid s'
      × (contents s' ≡ contents s)
      × (contents s ≡ bits s.data_ 0 p ++ unread s')
seek_lem s pos v =
    let p = min pos s.len in
    rw (seek_at s pos)
      (refl, refl, at-IsValid s p v (omega arith), refl, split_at s p (omega arith))

-- After `bitstream_seek(stream, 0)` everything that was written is unread.
pub unread-seek_zero : (s : Bitstream) → unread (seek s 0).1 ≡ contents s
unread-seek_zero s =
    let e : min 0 s.len ≡ 0 = omega arith in rw (seek_at s 0, e) (ap (bits s.data_ 0) (omega arith))

-- What is written to a valid stream with room for it comes back: after the write and a seek to the
-- old end, a read of as many bits returns their number and delivers the bits written.
pub read-write :
    (s : Bitstream) (src buf : List ℕ) (n : ℕ)
    → IsValid s
    → n ≤ 8 * length src
    → n ≤ 8 * length buf
    → s.len + n ≤ s.cap
    → (s' : Bitstream) × (t : Bitstream) × (buf' : List ℕ) × (write s src n ≡ some (n, s'))
      × (read (seek s' s.len).1 buf n ≡ some (n, t, buf'))
      × (bits buf' 0 n ≡ bits src 0 n)
read-write s src buf n v src_room buf_room fits =
    let (s', wrote, w) = write-Written s src n v src_room fits in
    let (at, moved, valid, kept, split) = seek_lem s' s.len w.valid in
    let len_is : s'.len ≡ s.len + n = omega (arith, w.longer, length-bits src 0 n) in
    let p_is : (seek s' s.len).0 ≡ s.len = omega (arith, at, len_is) in
    let cut =
      append-cancel (contents s) (bits src 0 n) (bits s'.data_ 0 (seek s' s.len).0)
        (unread (seek s' s.len).1)
        (omega (arith, length-bits s.data_ 0 s.len, length-bits s'.data_ 0 (seek s' s.len).0, p_is))
        (sym w.appended ∙ split) in
    let left : (seek s' s.len).1.len - (seek s' s.len).1.pos_read ≡ n = omega (
      arith,
      ap length cut.1,
      length-bits src 0 n,
      length-bits (seek s' s.len).1.data_ (seek s' s.len).1.pos_read
          ((seek s' s.len).1.len - (seek s' s.len).1.pos_read),
    ) in
    let all_there : min n ((seek s' s.len).1.len - (seek s' s.len).1.pos_read) ≡ n =
      omega (arith, left) in
    let (t, buf', fetched, f) =
      rw all_there at
        (read-Fetched (seek s' s.len).1 buf n valid buf_room (omega (arith, v.small))) in
    let same =
      append-cancel (bits src 0 n) [] (bits buf' 0 n) (unread t)
        (omega (arith, length-bits src 0 n, length-bits buf' 0 n))
        (rw append-nil (cut.1 ∙ f.delivered)) in
    (s', t, buf', wrote, fetched, sym same.0)
