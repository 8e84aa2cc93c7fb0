-- ===== src/Bitstream/Copy.antt =====
-- `bitwise_copy` (bitstream.c) runs to its end, faults nowhere, and stores exactly the bits that
-- it is asked for and that the source has.
use psplay.Base.{
  ℕ, suc, ◌+◌, ◌-◌, ◌*◌, ◌^◌, ◌≤◌, ◌<◌, ◌≡◌, arith, List, length, some, refl, min_size, sub_size,
  neg_errno, e2big, ltb, min, true, false,
}
use psplay.Bitstream.{Copier, bitwise_copy}
use psplay.Bitstream.Bits.{bit_at}
use psplay.Bitstream.Stored.{Stored}
use psplay.Bitstream.Loop.{CanCopy, copy_loop-Copied}

-- How many bits a copy moves: what is asked for, as far as the source has it.
abbrev pub available : ℕ → ℕ → ℕ → ℕ
available src_offset src_cap count = min count (src_cap - src_offset)

module _ (src : List ℕ) (src_offset src_cap : ℕ) (dst : List ℕ) (dst_offset dst_cap count : ℕ) where
  pub record CopyBounds : Type 0 where
    pub src_in : src_offset ≤ src_cap
    pub src_room : src_cap ≤ 8 * length src
    pub src_small : src_cap < 2 ^ 64
    pub dst_in : dst_offset ≤ dst_cap
    pub dst_room : dst_cap ≤ 8 * length dst
    pub dst_small : dst_cap < 2 ^ 64

  -- Within the bounds of both buffers and with room for the bits asked for, `bitwise_copy` ends without
  -- a fault and returns how many of them the source had; the destination has those bits at its
  -- offset, and the bits before it and the bytes behind the last one written are as before.
  pub bitwise_copy_lem :
      CopyBounds
      → dst_offset + count ≤ dst_cap
      → (after : List ℕ) × (bitwise_copy src src_offset src_cap dst dst_offset dst_cap count
          ≡ some (available src_offset src_cap count, after))
        × Stored
            (λ k. bit_at src (src_offset + k))
            dst_offset
            (available src_offset src_cap count)
            dst
            after
  unfolding bitwise_copy
  bitwise_copy_lem b fits =
      let left = available src_offset src_cap count in
      let start : Copier = record {
        src_offset = src_offset;
        src_remaining = left;
        reg = 0;
        u_len = 0;
        dst = dst;
        dst_offset = dst_offset;
        total = 0;
      } in
      let can : CanCopy src start = record {
        empty = refl;
        clear = refl;
        src_room = omega (arith, b.src_in, b.src_room);
        src_small = omega (arith, b.src_in, b.src_small);
        dst_room = omega (arith, b.dst_room);
        dst_small = omega (arith, b.dst_small);
        total_small = omega (arith, b.dst_small);
      } in
      let done = copy_loop-Copied (suc left) src start (omega arith) can in
      let e : min_size count (sub_size src_cap src_offset) ≡ left =
        ground (arith, b.src_in, b.src_small) in
      let i : ltb (sub_size dst_cap dst_offset) count ≡ false =
        ground (arith, b.dst_in, b.dst_small) in
      let j : 0 + left ≡ left = omega arith in (done.after, rw (e, i, done.returns, j), done.stored)

  -- Within the bounds of both buffers but without room for the bits asked for, `bitwise_copy` returns
  -- -E2BIG and changes nothing.
  pub bitwise_copy_too_big :
      CopyBounds
      → dst_cap < dst_offset + count
      → bitwise_copy src src_offset src_cap dst dst_offset dst_cap count
        ≡ some (neg_errno e2big, dst)
  unfolding bitwise_copy
  bitwise_copy_too_big b over =
      let i : ltb (sub_size dst_cap dst_offset) count ≡ true =
        ground (arith, b.dst_in, b.dst_small) in
      rw i
