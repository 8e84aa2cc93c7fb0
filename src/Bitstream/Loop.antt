-- ===== src/Bitstream/Loop.antt =====
-- The loops of `bitwise_copy` (bitstream.c) run to their end and fault nowhere.
use psplay.Base.{
  ℕ, zero, suc, ◌+◌, ◌-◌, ◌*◌, ◌/◌, ◌%◌, ◌^◌, ◌≤◌, ◌<◌, ◌≡◌, arith, ap, ◌∙◌, bit_or, ◌<<<◌,
  add_size, List, length, get_or, get_elem?-eq-get_or, Option, some, refl, subst, sym, ◌>>=◌,
  ==_iff,
}
use psplay.Base.Mask.{bit_and-bit_ones, bit_or-fields}
use psplay.Bitstream.{Copier, produce, drain, copy_loop}
use psplay.Bitstream.Bits.{bit, bit_at, bit-mod, bit-shift}
use psplay.Bitstream.Stored.{Stored, Stored-append, Stored-nil, chunk, chunk-bounds}
use psplay.Bitstream.Drain.{CanDrain, drain-Drained}
use native.Mathlib.Decide.{ℕ_discrete}
use native.Mathlib.Nat.{mod-lt, one-le-pow, pow-le-pow_right}

-- What the outer loop needs: an empty register, bounds and no wrap.
pub record CanCopy (src : List ℕ) (c : Copier) : Type 0 where
  pub empty : c.u_len ≡ 0
  pub clear : c.reg ≡ 0
  pub src_room : c.src_offset + c.src_remaining ≤ 8 * length src
  pub src_small : c.src_offset + c.src_remaining < 2 ^ 64
  pub dst_room : c.dst_offset + c.src_remaining ≤ 8 * length c.dst
  pub dst_small : c.dst_offset + c.src_remaining < 2 ^ 64
  pub total_small : c.total + c.src_remaining < 2 ^ 64

-- The state after the outer loop: what was left of the source is stored.
pub record Copied (src : List ℕ) (c : Copier) (result : Option Copier) : Type 0 where
  pub after : List ℕ
  pub returns :
      result
      ≡ some (record c {
        src_offset = c.src_offset + c.src_remaining;
        src_remaining = 0;
        reg = 0;
        u_len = 0;
        dst = after;
        dst_offset = c.dst_offset + c.src_remaining;
        total = c.total + c.src_remaining;
      })
  pub stored : Stored (λ k. bit_at src (c.src_offset + k)) c.dst_offset c.src_remaining c.dst after

-- The bits that a round takes off the source.
abbrev taken : List ℕ → ℕ → ℕ → ℕ
taken src offset n = get_or src (offset / 8) 0 / 2 ^ (offset % 8) % 2 ^ n

-- The state after `n` bits of the source have gone into the register, and after they have left it.
abbrev filled : List ℕ → Copier → ℕ → Copier
filled src c n = record c {
  src_offset = c.src_offset + n;
  src_remaining = c.src_remaining - n;
  reg = taken src c.src_offset n;
  u_len = n;
}

abbrev emptied : List ℕ → Copier → ℕ → List ℕ → Copier
emptied src c n after = record c {
  src_offset = c.src_offset + n;
  src_remaining = c.src_remaining - n;
  reg = 0;
  u_len = 0;
  dst = after;
  dst_offset = c.dst_offset + n;
  total = c.total + n;
}

taken_small : (src : List ℕ) (offset n : ℕ) → n ≤ 8 → taken src offset n < 2 ^ 8
taken_small src offset n le = omega (
  arith,
  mod-lt (get_or src (offset / 8) 0 / 2 ^ (offset % 8)) (one-le-pow n 2 (omega arith)),
  pow-le-pow_right {n = 2} (omega arith) le,
)

bit-taken :
    (src : List ℕ) (offset n k : ℕ)
    → offset % 8 + n ≤ 8
    → k < n
    → bit (taken src offset n) k ≡ bit_at src (offset + k)
bit-taken src offset n k fits lt =
    let e : (offset + k) / 8 ≡ offset / 8 = omega arith in
    let i : (offset + k) % 8 ≡ offset % 8 + k = omega arith in
    rw (e, i)
      (bit-mod n (get_or src (offset / 8) 0 / 2 ^ (offset % 8)) k lt
        ∙ bit-shift (offset % 8) (get_or src (offset / 8) 0) k)

-- Into an empty register.
loaded : (v : ℕ) → v < 2 ^ 8 → bit_or 0 ((v % 2 ^ 8) <<< 0) % 2 ^ 16 ≡ v
loaded v h =
    let e : (v % 2 ^ 8) <<< 0 ≡ v = omega arith in rw e (omega (arith, bit_or-fields 8 0 v h))

produce_lem :
    (src : List ℕ) (c : Copier)
    → CanCopy src c
    → 0 < c.src_remaining
    → produce src c ≡ some (filled src c (chunk c.src_remaining c.src_offset))
unfolding produce
produce_lem src c can more =
    let n = chunk c.src_remaining c.src_offset in
    let bound = chunk-bounds c.src_remaining c.src_offset more in
    let room : c.src_offset / 8 < length src = omega (arith, can.src_room) in
    let e : add_size c.src_offset n ≡ c.src_offset + n = omega (arith, can.src_small) in
    let i : add_size 0 n ≡ n = omega arith in
    let j = bit_and-bit_ones n (get_or src (c.src_offset / 8) 0 / 2 ^ (c.src_offset % 8)) in
    simp (
      get_elem?-eq-get_or src (c.src_offset / 8) 0 room,
      can.empty,
      can.clear,
      e,
      i,
      j,
      loaded (taken src c.src_offset n) (taken_small src c.src_offset n (omega arith)),
    )

copy_done :
    (fuel : ℕ) (src : List ℕ) (c : Copier)
    → c.src_remaining ≡ 0
    → copy_loop (suc fuel) src c ≡ some c
unfolding copy_loop
copy_done fuel src c z = rw ((==_iff c.src_remaining 0).1 z)

copy_more :
    (fuel : ℕ) (src : List ℕ) (c : Copier)
    → 0 < c.src_remaining
    → copy_loop (suc fuel) src c
      ≡ (produce src c >>= (λ p. drain (suc p.u_len) p) >>= copy_loop fuel src)
unfolding copy_loop
copy_more fuel src c more = ground arith

module _ (src : List ℕ) (c : Copier) (can : CanCopy src c) (n : ℕ) (le : n ≤ c.src_remaining)
    (fits : c.src_offset % 8 + n ≤ 8) where
  filled-CanDrain : CanDrain (filled src c n)
  filled-CanDrain = record {
    fits = mod-lt _ (one-le-pow n 2 (omega arith));
    room = omega (arith, can.dst_room);
    offset_small = omega (arith, can.dst_small);
    total_small = omega (arith, can.total_small);
  }

  emptied-CanCopy :
      (after : List ℕ) → length after ≡ length c.dst → CanCopy src (emptied src c n after)
  emptied-CanCopy after same = record {
    empty = refl;
    clear = refl;
    src_room = omega (arith, can.src_room);
    src_small = omega (arith, can.src_small);
    dst_room = omega (arith, can.dst_room);
    dst_small = omega (arith, can.dst_small);
    total_small = omega (arith, can.total_small);
  }

  -- What the later rounds store completes what this one does.
  emptied-Copied :
      {after : List ℕ} {result : Option Copier}
      → Stored (bit (taken src c.src_offset n)) c.dst_offset n c.dst after
      → Copied src (emptied src c n after) result
      → Copied src c result
  emptied-Copied first rest =
      let left = c.src_remaining - n in
      let e : n + left ≡ c.src_remaining = omega arith in
      let i : c.src_offset + n + left ≡ c.src_offset + c.src_remaining = omega arith in
      let j : c.dst_offset + n + left ≡ c.dst_offset + c.src_remaining = omega arith in
      let k : c.total + n + left ≡ c.total + c.src_remaining = omega arith in
      record {
        after = rest.after;
        returns = rw (i, j, k) at rest.returns;
        stored =
            subst
              (λ (m : ℕ).
                Stored (λ k. bit_at src (c.src_offset + k)) c.dst_offset m c.dst rest.after)
              e
              (Stored-append _ _ _ c.dst_offset n left first rest.stored
                (λ k lt. bit-taken src c.src_offset n k fits lt)
                (λ k lt. ap (bit_at src) (regroup k)));
      }
    where
      regroup : (k : ℕ) → c.src_offset + n + k ≡ c.src_offset + (n + k)
      regroup k = omega arith

pub copy_loop-Copied :
    (fuel : ℕ) (src : List ℕ) (c : Copier)
    → c.src_remaining < fuel
    → CanCopy src c
    → Copied src c (copy_loop fuel src c)
copy_loop-Copied zero src c enough can = absurd (omega arith)
copy_loop-Copied (suc fuel) src c enough can = elim (ℕ_discrete c.src_remaining 0) [
  | yes z ↦ record {
    after = c.dst;
    returns = copy_done fuel src c z ∙ ground (arith, can.empty, can.clear);
    stored = rw z (Stored-nil _ c.dst_offset c.dst);
  }
  | no ne ↦
      let more : 0 < c.src_remaining = omega arith in
      let n = chunk c.src_remaining c.src_offset in
      let bound = chunk-bounds c.src_remaining c.src_offset more in
      let first =
        drain-Drained (suc n) (filled src c n) (omega arith)
          (filled-CanDrain src c can n bound.1 bound.2) in
      let runs =
        copy_more fuel src c more
        ∙ ap (λ m. m >>= (λ p. drain (suc p.u_len) p) >>= copy_loop fuel src)
            (produce_lem src c can more)
        ∙ ap (λ m. m >>= copy_loop fuel src) first.returns in
      emptied-Copied src c can n bound.1 bound.2 first.stored (
        subst (Copied src (emptied src c n first.after)) (sym runs) (
          copy_loop-Copied fuel src (emptied src c n first.after) (omega arith)
            (emptied-CanCopy src c can n bound.1 bound.2 first.after first.stored.same_length)))
]
