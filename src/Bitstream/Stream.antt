-- ===== src/Bitstream/Stream.antt =====
-- The stream of bitstream.c against its abstract view: the list of the bits written, of which a
-- suffix is still to be read.
use psplay.Base.{
  ℕ, ◌+◌, ◌-◌, ◌*◌, ◌^◌, ◌≤◌, ◌<◌, ◌≡◌, arith, ap, ap₂, ◌∙◌, append_assoc, append-nil,
  length-append, List, [], ◌++◌, length, some, refl, sym, neg_errno, e2big,
}
use psplay.Bitstream.{Bitstream, finish_write, write, remaining_cap, bitwise_copy}
use psplay.Bitstream.Bits.{bit_at, bits, bits-add, bits-ext, length-bits}
use psplay.Bitstream.Stored.{Stored}
use psplay.Bitstream.Copy.{available, CopyBounds, bitwise_copy_lem, bitwise_copy_too_big}

-- A stream that the operations have built: what is written is counted once, and both positions lie
-- within it. An allocation is below 2 ^ 63 bytes, which keeps every `ssize_t` nonnegative.
pub record IsValid (s : Bitstream) : Type 0 where
  pub storage : s.cap ≤ 8 * length s.data_
  pub small : s.cap < 2 ^ 63
  pub counted : s.len ≡ s.pos_write
  pub fits : s.pos_write ≤ s.cap
  pub read_in : s.pos_read ≤ s.len

abbrev pub contents : Bitstream → List ℕ
contents s = bits s.data_ 0 s.len

abbrev pub unread : Bitstream → List ℕ
unread s = bits s.data_ s.pos_read (s.len - s.pos_read)

-- What a call of `write` with room for `n` bits leaves behind.
pub record Written (s : Bitstream) (added : List ℕ) (s' : Bitstream) : Type 0 where
  pub valid : IsValid s'
  pub appended : contents s' ≡ contents s ++ added
  pub longer : s'.len ≡ s.len + length added
  pub cap_kept : s'.cap ≡ s.cap
  pub read_kept : s'.pos_read ≡ s.pos_read

-- Nothing written, and one write behind another.
pub Written-nil : (s : Bitstream) → IsValid s → Written s [] s
Written-nil s v = record {
  valid = v;
  appended = sym (append-nil (contents s));
  longer = omega arith;
  cap_kept = refl;
  read_kept = refl;
}

pub Written-append :
    {s t u : Bitstream} (xs ys : List ℕ) → Written s xs t → Written t ys u → Written s (xs ++ ys) u
Written-append {s} {t} {u} xs ys w w' = record {
  valid = w'.valid;
  appended = w'.appended ∙ ap (λ c. c ++ ys) w.appended ∙ append_assoc (contents s) xs ys;
  longer = omega (arith, w.longer, w'.longer, length-append xs ys);
  cap_kept = w'.cap_kept ∙ w.cap_kept;
  read_kept = w'.read_kept ∙ w.read_kept;
}

finish_write_lem :
    (s : Bitstream) (n : ℕ) (bytes : List ℕ)
    → IsValid s
    → s.pos_write + n ≤ s.cap
    → finish_write s (n, bytes)
      ≡ (n, record s { data_ = bytes; pos_write = s.pos_write + n; len = s.len + n })
unfolding finish_write
finish_write_lem s n bytes v h = ground (arith, v.small, v.counted)

write_bounds :
    (s : Bitstream) (src : List ℕ) (n : ℕ)
    → IsValid s
    → n ≤ 8 * length src
    → n < 2 ^ 64
    → CopyBounds src 0 n s.data_ s.pos_write s.cap n
write_bounds s src n v room small = record {
  src_in = omega arith;
  src_room = room;
  src_small = small;
  dst_in = v.fits;
  dst_room = v.storage;
  dst_small = omega (arith, v.small);
}

Stored-appended :
    (s : Bitstream) (src : List ℕ) (n : ℕ) (after : List ℕ)
    → IsValid s
    → Stored (λ k. bit_at src (0 + k)) s.pos_write n s.data_ after
    → bits after 0 (s.len + n) ≡ contents s ++ bits src 0 n
Stored-appended s src n after v st =
    bits-add after 0 s.len n
    ∙ ap₂ ◌++◌ (bits-ext after s.data_ 0 0 s.len old) (bits-ext after src (0 + s.len) 0 n new)
  where
    old : (k : ℕ) → k < s.len → bit_at after (0 + k) ≡ bit_at s.data_ (0 + k)
    old k lt = st.below (0 + k) (omega (arith, v.counted))

    new : (k : ℕ) → k < n → bit_at after (0 + s.len + k) ≡ bit_at src (0 + k)
    new k lt =
        let e : s.pos_write + k ≡ 0 + s.len + k = omega (arith, v.counted) in
        rw e at (st.inside k lt)

-- The stream after `n` bits have been stored.
abbrev grown : Bitstream → ℕ → List ℕ → Bitstream
grown s n after = record s { data_ = after; pos_write = s.pos_write + n; len = s.len + n }

grown-Written :
    (s : Bitstream) (src : List ℕ) (n : ℕ) (after : List ℕ)
    → IsValid s
    → s.len + n ≤ s.cap
    → Stored (λ k. bit_at src (0 + k)) s.pos_write n s.data_ after
    → Written s (bits src 0 n) (grown s n after)
grown-Written s src n after v fits st = record {
  valid = record {
    storage = omega (arith, v.storage, st.same_length);
    small = v.small;
    counted = omega (arith, v.counted);
    fits = omega (arith, v.counted);
    read_in = omega (arith, v.read_in);
  };
  appended = Stored-appended s src n after v st;
  longer = omega (arith, length-bits src 0 n);
  cap_kept = refl;
  read_kept = refl;
}

copy_all :
    (s : Bitstream) (src : List ℕ) (n : ℕ)
    → CopyBounds src 0 n s.data_ s.pos_write s.cap n
    → s.pos_write + n ≤ s.cap
    → (after : List ℕ) × (bitwise_copy src 0 n s.data_ s.pos_write s.cap n ≡ some (n, after))
      × Stored (λ k. bit_at src (0 + k)) s.pos_write n s.data_ after
copy_all s src n b fits =
    let m : available 0 n n ≡ n = omega arith in
    rw m at (bitwise_copy_lem src 0 n s.data_ s.pos_write s.cap n b fits)

-- On a valid stream with room for them, `bitstream_write` appends the source's first `n` bits and
-- returns `n`.
pub write-Written :
    (s : Bitstream) (src : List ℕ) (n : ℕ)
    → IsValid s
    → n ≤ 8 * length src
    → s.len + n ≤ s.cap
    → (s' : Bitstream) × (write s src n ≡ some (n, s')) × Written s (bits src 0 n) s'
unfolding write
write-Written s src n v room fits =
    let b = write_bounds s src n v room (omega (arith, v.small)) in
    let (after, runs, stored) = copy_all s src n b (omega (arith, v.counted)) in
    (
      grown s n after,
      rw (runs, finish_write_lem s n after v (omega (arith, v.counted))),
      grown-Written s src n after v fits stored,
    )

-- On a valid stream without room for `n` bits, `bitstream_write` returns -E2BIG and changes nothing.
pub write_too_big :
    (s : Bitstream) (src : List ℕ) (n : ℕ)
    → IsValid s
    → n ≤ 8 * length src
    → n < 2 ^ 64
    → s.cap < s.len + n
    → write s src n ≡ some (neg_errno e2big, s)
unfolding write finish_write
write_too_big s src n v room small over =
    let b = write_bounds s src n v room small in
    rw (bitwise_copy_too_big src 0 n s.data_ s.pos_write s.cap n b (omega (arith, v.counted)))

-- The room that is left, which the framer asks for.
pub remaining_cap_lem : (s : Bitstream) → IsValid s → remaining_cap s ≡ s.cap - s.len
unfolding remaining_cap
remaining_cap_lem s v = omega (arith, v.small, v.counted, v.fits)
