-- ===== src/Bitstream/Drain.antt =====
-- The inner loop of `bitwise_copy` (bitstream.c) empties its register into the destination.
use psplay.Base.{
  ℕ, zero, suc, ◌+◌, ◌-◌, ◌*◌, ◌/◌, ◌^◌, ◌≤◌, ◌<◌, ◌≡◌, arith, ap, ◌∙◌, List, length, Option, some,
  refl, subst, sym, ◌>>=◌, ==_iff,
}
use psplay.Bitstream.{Copier, consume, drain}
use psplay.Bitstream.Bits.{bit, bit-shift}
use psplay.Bitstream.Stored.{
  Stored, Stored-append, Stored-nil, chunk, chunk-bounds, after_consume, consume-Stored,
  consume_lem,
}
use native.Mathlib.Decide.{ℕ_discrete}
use native.Mathlib.Nat.{one-le-pow, pow-suc, div-lt_iff_lt-mul}

pow-add : (a b : ℕ) → 2 ^ (a + b) ≡ 2 ^ a * 2 ^ b
pow-add zero b = let e : zero + b ≡ b = omega arith in rw e (omega arith)
pow-add (suc a) b =
    let e : suc a + b ≡ suc (a + b) = omega arith in
    rw e (
      omega (
        arith,
        pow-suc 2 a,
        pow-suc 2 (a + b),
        pow-add a b,
        ap (λ (x : ℕ). x * 2 ^ b) (pow-suc 2 a),
      ))

-- Shifting a register of `u` bits by `n` leaves `u - n`.
shift-lt : (x n u : ℕ) → n ≤ u → x < 2 ^ u → x / 2 ^ n < 2 ^ (u - n)
shift-lt x n u le h = (div-lt_iff_lt-mul (one-le-pow n 2 (omega arith))).1 (
    let e : u ≡ u - n + n = omega arith in
    let i : x < 2 ^ (u - n + n) = subst (λ (k : ℕ). x < 2 ^ k) e h in
    omega (arith, pow-add (u - n) n))

-- The state after the inner loop: the register is empty, and its bits are stored.
pub record Drained (c : Copier) (result : Option Copier) : Type 0 where
  pub after : List ℕ
  pub returns :
      result
      ≡ some (record c {
        dst = after;
        dst_offset = c.dst_offset + c.u_len;
        reg = 0;
        u_len = 0;
        total = c.total + c.u_len;
      })
  pub stored : Stored (bit c.reg) c.dst_offset c.u_len c.dst after

-- What the inner loop needs: room for the register's bits, and no wrap.
pub record CanDrain (c : Copier) : Type 0 where
  pub fits : c.reg < 2 ^ c.u_len
  pub room : c.dst_offset + c.u_len ≤ 8 * length c.dst
  pub offset_small : c.dst_offset + c.u_len < 2 ^ 64
  pub total_small : c.total + c.u_len < 2 ^ 64

drain_done : (fuel : ℕ) (c : Copier) → c.u_len ≡ 0 → drain (suc fuel) c ≡ some c
unfolding drain
drain_done fuel c z = rw ((==_iff c.u_len 0).1 z)

drain_more : (fuel : ℕ) (c : Copier) → 0 < c.u_len → drain (suc fuel) c ≡ (consume c >>= drain fuel)
unfolding drain
drain_more fuel c more = ground arith

-- The state after `n` bits of the register have gone into the bytes `after`.
abbrev moved : Copier → ℕ → List ℕ → Copier
moved c n after = record c {
  dst = after;
  dst_offset = c.dst_offset + n;
  reg = c.reg / 2 ^ n;
  u_len = c.u_len - n;
  total = c.total + n;
}

module _ (c : Copier) (can : CanDrain c) (n : ℕ) (le : n ≤ c.u_len) (after : List ℕ) where
  moved-CanDrain : length after ≡ length c.dst → CanDrain (moved c n after)
  moved-CanDrain same = record {
    fits = shift-lt c.reg n c.u_len le can.fits;
    room = omega (arith, can.room);
    offset_small = omega (arith, can.offset_small);
    total_small = omega (arith, can.total_small);
  }

  -- What is stored after those bits completes them.
  moved-Drained :
      {result : Option Copier}
      → Stored (bit c.reg) c.dst_offset n c.dst after
      → Drained (moved c n after) result
      → Drained c result
  moved-Drained first rest =
      let e : n + (c.u_len - n) ≡ c.u_len = omega arith in
      let i : c.dst_offset + n + (c.u_len - n) ≡ c.dst_offset + c.u_len = omega arith in
      let j : c.total + n + (c.u_len - n) ≡ c.total + c.u_len = omega arith in
      record {
        after = rest.after;
        returns = rw (i, j) at rest.returns;
        stored =
            subst (λ (k : ℕ). Stored (bit c.reg) c.dst_offset k c.dst rest.after) e
              (Stored-append (bit c.reg) (bit (c.reg / 2 ^ n)) (bit c.reg) c.dst_offset n
                (c.u_len - n) first rest.stored (λ k lt. refl) (λ k lt. bit-shift n c.reg k));
      }

pub drain-Drained : (fuel : ℕ) (c : Copier) → c.u_len < fuel → CanDrain c → Drained c (drain fuel c)
drain-Drained zero c enough can = absurd (omega arith)
drain-Drained (suc fuel) c enough can = elim (ℕ_discrete c.u_len 0) [
  | yes z ↦
      let reg_zero : c.reg ≡ 0 = omega (arith, subst (λ (k : ℕ). c.reg < 2 ^ k) z can.fits) in
      record {
        after = c.dst;
        returns = drain_done fuel c z ∙ ground arith;
        stored = rw z (Stored-nil (bit c.reg) c.dst_offset c.dst);
      }
  | no ne ↦
      let more : 0 < c.u_len = omega arith in
      let in_range : c.dst_offset / 8 < length c.dst = omega (arith, can.room) in
      let bound = chunk-bounds c.u_len c.dst_offset more in
      let first = consume-Stored c more in_range in
      let runs =
        drain_more fuel c more
        ∙ ap (λ m. m >>= drain fuel)
            (consume_lem c more in_range can.offset_small can.total_small) in
      moved-Drained c can (chunk c.u_len c.dst_offset) bound.1 (after_consume c) first (
        subst (Drained (moved c (chunk c.u_len c.dst_offset) (after_consume c))) (sym runs) (
          drain-Drained fuel (moved c (chunk c.u_len c.dst_offset) (after_consume c)) (omega arith)
            (moved-CanDrain c can (chunk c.u_len c.dst_offset) bound.1 (after_consume c)
              first.same_length)))
]
