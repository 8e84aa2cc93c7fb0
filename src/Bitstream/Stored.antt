-- ===== src/Bitstream/Stored.antt =====
-- What storing bits into a buffer does, position by position: the bits at the offset are the ones
-- stored, those before it are as before, and so are the bytes behind the last one written; what is
-- left of that byte is cleared. One
-- round of the inner loop of `bitwise_copy` (bitstream.c) stores that way.
use psplay.Base.{
  ℕ, ◌+◌, ◌-◌, ◌*◌, ◌/◌, ◌%◌, ◌^◌, ◌≤◌, ◌<◌, ◌≡◌, arith, ap, ◌∙◌, bit_and, bit_or, bit_ones, ◌<<<◌,
  min_size, add_size, List, set, length, get_or, get_elem?-eq-get_or, get_or-set_self,
  get_or-set_ne, length-set, some, store_lem, refl,
}
use psplay.Base.Mask.{bit_and-bit_ones, bit_or-fields}
use psplay.Bitstream.{Copier, consume}
use psplay.Bitstream.Bits.{bit, bit_at, bit-above, bit-below, bit-mod, bit-small}
use native.Mathlib.Decide.{dec_lt, ℕ_discrete}
use native.Mathlib.Nat.{mod-lt, one-le-pow}

-- `after` is `before` with the bits `value 0 .. value (n - 1)` stored from position `d` on.
pub record Stored (value : ℕ → ℕ) (d n : ℕ) (before after : List ℕ) : Type 0 where
  pub same_length : length after ≡ length before
  pub inside : (k : ℕ) → k < n → bit_at after (d + k) ≡ value k
  pub below : (i : ℕ) → i < d → bit_at after i ≡ bit_at before i
  pub beyond : (j : ℕ) → d + n ≤ 8 * j → get_or after j 0 ≡ get_or before j 0
  pub cleared : 0 < n → (i : ℕ) → d + n ≤ i → i < (d + n + 7) / 8 * 8 → bit_at after i ≡ 0
  pub idle : n ≡ 0 → after ≡ before

-- Two runs, one behind the other.
pub Stored-append :
    (f g h : ℕ → ℕ) (d n m : ℕ) {a b c : List ℕ}
    → Stored f d n a b
    → Stored g (d + n) m b c
    → ((k : ℕ) → k < n → f k ≡ h k)
    → ((k : ℕ) → k < m → g k ≡ h (n + k))
    → Stored h d (n + m) a c
Stored-append f g h d n m {a} {b} {c} s t ef eg = record {
  same_length = t.same_length ∙ s.same_length;
  inside = λ k lt. elim (dec_lt k n) [
    | yes p ↦ t.below (d + k) (omega arith) ∙ s.inside k p ∙ ef k p
    | no p ↦
        let e : d + n + (k - n) ≡ d + k = omega arith in
        let i : n + (k - n) ≡ k = omega arith in
        let q = t.inside (k - n) (omega arith) ∙ eg (k - n) (omega arith) in rw (e, i) at q
  ];
  below = λ i lt. t.below i (omega arith) ∙ s.below i lt;
  beyond = λ j le. t.beyond j (omega arith) ∙ s.beyond j (omega arith);
  cleared = λ more i le lt. elim (ℕ_discrete m 0) [
    | yes z ↦ rw (← t.idle z) at (s.cleared (omega arith) i (omega arith) (omega arith))
    | no ne ↦ t.cleared (omega arith) i (omega arith) (omega arith)
  ];
  idle = λ z. t.idle (omega arith) ∙ s.idle (omega arith);
}

-- The byte that the inner loop stores: `v` from bit `pos` on, the old byte's bits below.
abbrev spliced : ℕ → ℕ → ℕ → ℕ
spliced v pos octet = bit_or (v <<< pos) (bit_and octet (bit_ones pos))

spliced_sum : (v pos octet : ℕ) → spliced v pos octet ≡ v * 2 ^ pos + octet % 2 ^ pos
spliced_sum v pos octet =
    rw (bit_and-bit_ones pos octet)
      (bit_or-fields pos v (octet % 2 ^ pos) (mod-lt octet (one-le-pow pos 2 (omega arith))))

spliced-above : (v pos octet k : ℕ) → bit (spliced v pos octet) (pos + k) ≡ bit v k
spliced-above v pos octet k =
    rw (spliced_sum v pos octet)
      (bit-above pos v (octet % 2 ^ pos) k (mod-lt octet (one-le-pow pos 2 (omega arith))))

spliced-below : (v pos octet k : ℕ) → k < pos → bit (spliced v pos octet) k ≡ bit octet k
spliced-below v pos octet k h =
    rw (spliced_sum v pos octet) (bit-below pos v (octet % 2 ^ pos) k h ∙ bit-mod pos octet k h)

-- Storing that byte, cut to 8 bits, stores `n` bits at `d`, if they fit the byte.
set-Stored :
    (xs : List ℕ) (v d n : ℕ)
    → 0 < n
    → d % 8 + n ≤ 8
    → d / 8 < length xs
    → v < 2 ^ n
    → Stored (bit v) d n xs (set xs (d / 8) (spliced v (d % 8) (get_or xs (d / 8) 0) % 2 ^ 8))
set-Stored xs v d n pos fits room small = record {
  same_length = length-set xs (d / 8) _;
  inside = λ k lt.
      let e : (d + k) / 8 ≡ d / 8 = omega arith in
      let i : (d + k) % 8 ≡ d % 8 + k = omega arith in
      rw (e, i, get_or-set_self xs (d / 8) (new % 2 ^ 8) 0 room)
        (bit-mod 8 new (d % 8 + k) (omega arith) ∙ spliced-above v (d % 8) old k);
  below = λ i lt. elim (ℕ_discrete (d / 8) (i / 8)) [
    | yes e ↦
        rw (← e, get_or-set_self xs (d / 8) (new % 2 ^ 8) 0 room)
          (bit-mod 8 new (i % 8) (omega arith) ∙ spliced-below v (d % 8) old (i % 8) (omega arith))
    | no ne ↦ rw (get_or-set_ne xs (d / 8) (i / 8) (new % 2 ^ 8) 0 ne)
  ];
  beyond = λ j le. get_or-set_ne xs (d / 8) j (new % 2 ^ 8) 0 (omega arith);
  cleared = λ more i le lt.
      let e : i / 8 ≡ d / 8 = omega arith in
      let r : i % 8 ≡ d % 8 + (i - d) = omega arith in
      rw (e, r, get_or-set_self xs (d / 8) (new % 2 ^ 8) 0 room)
        (bit-mod 8 new (d % 8 + (i - d)) (omega arith)
          ∙ spliced-above v (d % 8) old (i - d)
          ∙ bit-small n v (i - d) small (omega arith));
  idle = λ z. absurd (omega arith);
}
  where
    old : ℕ
    old = get_or xs (d / 8) 0

    new : ℕ
    new = spliced v (d % 8) old

pub Stored-ext :
    (f g : ℕ → ℕ) (d n : ℕ) {a b : List ℕ}
    → Stored f d n a b
    → ((k : ℕ) → k < n → f k ≡ g k)
    → Stored g d n a b
Stored-ext f g d n s e = record {
  same_length = s.same_length;
  inside = λ k lt. s.inside k lt ∙ e k lt;
  below = s.below;
  beyond = s.beyond;
  cleared = s.cleared;
  idle = s.idle;
}

pub Stored-nil : (f : ℕ → ℕ) (d : ℕ) (a : List ℕ) → Stored f d 0 a a
Stored-nil f d a = record {
  same_length = refl;
  inside = λ k lt. absurd (omega arith);
  below = λ i lt. refl;
  beyond = λ j le. refl;
  cleared = λ more i le lt. absurd (omega arith);
  idle = λ z. refl;
}

-- How many bits one round moves: what there is, up to the end of the byte at position `d`.
abbrev pub chunk : ℕ → ℕ → ℕ
chunk available d = min_size available (8 - d % 8)

-- The destination's bytes after one round of the inner loop.
abbrev pub after_consume : Copier → List ℕ
after_consume c =
    let n = chunk c.u_len c.dst_offset in
    set c.dst (c.dst_offset / 8) (
      spliced (bit_and c.reg (bit_ones n) % 2 ^ 8) (c.dst_offset % 8)
        (get_or c.dst (c.dst_offset / 8) 0)
      % 2 ^ 8)

pub chunk-bounds : (u d : ℕ) → 0 < u → (0 < chunk u d) × (chunk u d ≤ u) × (d % 8 + chunk u d ≤ 8)
chunk-bounds u d h = ground arith

module _ (c : Copier) (some_left : 0 < c.u_len) (room : c.dst_offset / 8 < length c.dst) where
  -- One round of the inner loop stores the low bits of the register.
  pub consume-Stored :
      Stored (bit c.reg) c.dst_offset (chunk c.u_len c.dst_offset) c.dst (after_consume c)
  consume-Stored =
      let n = chunk c.u_len c.dst_offset in
      let bound = chunk-bounds c.u_len c.dst_offset some_left in
      Stored-ext _ (bit c.reg) c.dst_offset n
        (set-Stored c.dst (bit_and c.reg (bit_ones n) % 2 ^ 8) c.dst_offset n bound.0 bound.2 room
          (omega (arith, bit_and-bit_ones n c.reg, mod-lt c.reg (one-le-pow n 2 (omega arith)))))
        λ k lt.
          bit-mod 8 (bit_and c.reg (bit_ones n)) k (omega arith)
          ∙ ap (λ (x : ℕ). bit x k) (bit_and-bit_ones n c.reg)
          ∙ bit-mod n c.reg k lt

  pub consume_lem :
      c.dst_offset + c.u_len < 2 ^ 64
      → c.total + c.u_len < 2 ^ 64
      → let n = chunk c.u_len c.dst_offset in
        consume c
        ≡ some (record c {
          dst = after_consume c;
          dst_offset = c.dst_offset + n;
          reg = c.reg / 2 ^ n;
          u_len = c.u_len - n;
          total = c.total + n;
        })
  unfolding consume
  consume_lem p q =
      let bound = chunk-bounds c.u_len c.dst_offset some_left in
      let e : add_size c.dst_offset (chunk c.u_len c.dst_offset)
          ≡ c.dst_offset + chunk c.u_len c.dst_offset =
        omega arith in
      let i : add_size c.total (chunk c.u_len c.dst_offset) ≡ c.total + chunk c.u_len c.dst_offset =
        omega arith in
      rw (
        get_elem?-eq-get_or c.dst (c.dst_offset / 8) 0 room,
        store_lem c.dst (c.dst_offset / 8) _ room,
        e,
        i,
      )
