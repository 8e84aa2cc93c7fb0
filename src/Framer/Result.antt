-- ===== src/Framer/Result.antt =====
-- What `framer_frame` of framer.c returns: the frame's length, an error, or nothing at all.
use psplay.Base.{
  ℕ, ◌+◌, ◌-◌, ◌*◌, ◌%◌, ◌^◌, ◌≤◌, ◌<◌, ◌≡◌, ap, ◌∙◌, arith, Bool, true, false, List, add_size,
  Bool-cases, neg_errno, e2big, emsgsize, ltb, ◌⊎◌, inl, inr,
}
use psplay.Bitstream
use psplay.Bitstream.{Bitstream}
use psplay.Bitstream.Stream.{IsValid, Written, remaining_cap_lem}
use psplay.Framer.{frame_max_payload_size}
use psplay.Framer.Outcome.{Run, aborted, next, ◌>>=◌}
use psplay.Framer.Build.{Platform, Framer, frame_len, build, frame}
use psplay.Framer.Header.{ReedSolomon}
use psplay.Framer.Payload.{per_byte, is_raw}
use psplay.Framer.Frame.{
  Ready, is_bare, head_len, preamble_len, frame_bits, total_len, build-Written, build_aborts,
}

-- The bits that `len` counts for the header: not those of the start delimiter.
abbrev pub counted_head : Bool → ℕ
counted_head true = 0
counted_head false = 30

pub counted_less :
    (c : Platform) (f : Framer c) (bare : Bool) → counted_head bare ≤ head_len c f bare
counted_less c f true = omega arith
counted_less c f false = omega arith

module _ (c : Platform) (f : Framer c) where
  -- The length that `framer_frame` computes.
  abbrev pub counted_len : ℕ → ℕ
  counted_len bytes = preamble_len c f + counted_head (is_bare c f) + bytes * per_byte (is_raw c f)

  frame_len_lem :
      (in_len parity_len : ℕ)
      → preamble_len c f < 2 ^ 60
      → in_len + parity_len ≤ 255
      → frame_len c f in_len parity_len ≡ counted_len (in_len + parity_len)
  unfolding frame_len
  frame_len_lem in_len parity_len small few = ground arith

  -- A message of more than 255 bytes, alone or with its parity, is refused with -EMSGSIZE, and
  -- nothing changes.
  pub frame_refuses_message :
      (t : ℕ) (input : List ℕ) (in_len : ℕ) (s : Bitstream)
      → (255 < in_len) ⊎ (255 < add_size in_len (c.ceil_times f.payload_parity_len_ratio in_len))
      → frame c f t input in_len s ≡ next (neg_errno emsgsize, s)
  unfolding frame
  frame_refuses_message t input in_len s (inl long) =
      let e : ltb frame_max_payload_size in_len ≡ true = ground arith in rw e
  frame_refuses_message t input in_len s (inr long) =
      let e : ltb 255 (add_size in_len (c.ceil_times f.payload_parity_len_ratio in_len)) ≡ true =
        ground arith in
      elim (Bool-cases (ltb frame_max_payload_size in_len)) [
        | inl over ↦ rw over
        | inr short ↦ rw (short, e)
      ]

  frame_refuses_room :
      (t : ℕ) (input : List ℕ) (in_len : ℕ) (s : Bitstream) (room len : ℕ)
      → in_len ≤ 255
      → add_size in_len (c.ceil_times f.payload_parity_len_ratio in_len) ≤ 255
      → Bitstream.remaining_cap s ≡ room
      → frame_len c f in_len (c.ceil_times f.payload_parity_len_ratio in_len) ≡ len
      → room < len
      → frame c f t input in_len s ≡ next (neg_errno e2big, s)
  unfolding frame
  frame_refuses_room t input in_len s room len few both left counted over = ground arith

  frame_at :
      (t : ℕ) (input : List ℕ) (in_len parity_len : ℕ) (s : Bitstream) (room len : ℕ)
      → c.ceil_times f.payload_parity_len_ratio in_len ≡ parity_len
      → in_len + parity_len ≤ 255
      → Bitstream.remaining_cap s ≡ room
      → frame_len c f in_len parity_len ≡ len
      → len ≤ room
      → frame c f t input in_len s
        ≡ (build c f t input in_len parity_len s >>= λ s'. next (len % 2 ^ 32, s'))
  unfolding frame
  frame_at t input in_len parity_len s room len parity few left counted enough =
      let a : ltb frame_max_payload_size in_len ≡ false = ground arith in
      let b : ltb 255 (add_size in_len parity_len) ≡ false = ground arith in
      let d : ltb room len ≡ false = ground arith in rw (parity, left, counted, a, b, d)

module _ (c : Platform) (laws : ReedSolomon c) (f : Framer c) (t : ℕ) (input : List ℕ)
    (in_len parity_len : ℕ) {header_coder payload_coder : c.Coder}
    (r : Ready c f input in_len parity_len header_coder payload_coder) (s : Bitstream)
    (v : IsValid s) where
  frame_passes :
      s.cap < 2 ^ 31
      → s.len + counted_len c f (in_len + parity_len) ≤ s.cap
      → frame c f t input in_len s ≡ (
          build c f t input in_len parity_len s >>= λ s'.
          next (counted_len c f (in_len + parity_len), s'))
  frame_passes small room =
      let e : counted_len c f (in_len + parity_len) % 2 ^ 32
          ≡ counted_len c f (in_len + parity_len) =
        omega arith in
      frame_at c f t input in_len parity_len s (s.cap - s.len)
        (counted_len c f (in_len + parity_len)) r.parity r.few (remaining_cap_lem s v)
        (frame_len_lem c f in_len parity_len (omega arith) r.few) (omega arith)
      ∙ ap (λ (k : ℕ). build c f t input in_len parity_len s >>= λ s'. next (k, s')) e

  -- With the coders there, symbols of at most 30 bits, a message and parity of at most 255 bytes, a
  -- capacity below 2 ^ 31 bits and room for the whole frame, `framer_frame` appends it: the preamble,
  -- the start delimiter and the coded length if there is a header, and the coded message, in the line
  -- code or raw. It returns the length, with a header less the 10 bits of the start delimiter.
  pub frame-Written :
      s.cap < 2 ^ 31
      → s.len + total_len c f (in_len + parity_len) ≤ s.cap
      → (s' : Bitstream) × (frame c f t input in_len s
          ≡ next (counted_len c f (in_len + parity_len), s'))
        × Written s (frame_bits c f header_coder payload_coder input in_len) s'
  frame-Written small room =
      let (s', runs, w) = build-Written c laws f t input in_len parity_len r s v room in
      (
        s',
        frame_passes small (omega (arith, counted_less c f (is_bare c f)))
            ∙ ap
                (λ (b : Run Bitstream).
                  b >>= λ s'. next (counted_len c f (in_len + parity_len), s'))
                runs,
        w,
      )

  -- With message and parity within 255 bytes and less room than the length that it computes,
  -- `framer_frame` returns -E2BIG and changes nothing.
  pub frame_too_big :
      preamble_len c f < 2 ^ 60
      → s.cap < s.len + counted_len c f (in_len + parity_len)
      → frame c f t input in_len s ≡ next (neg_errno e2big, s)
  frame_too_big small over =
      frame_refuses_room c f t input in_len s (s.cap - s.len)
        (counted_len c f (in_len + parity_len)) (omega (arith, r.few))
        (omega (arith, r.few, r.parity)) (remaining_cap_lem s v)
        (ap (frame_len c f in_len) r.parity ∙ frame_len_lem c f in_len parity_len small r.few)
        (omega (arith, v.counted, v.fits))

  -- With a header, a message that it accepts, ten payload bits or more, a capacity below 2 ^ 31 bits, and
  -- room for the length that it computes but not for the frame, which is ten bits longer,
  -- `framer_frame` ends the process.
  pub frame_aborts :
      s.cap < 2 ^ 31
      → is_bare c f ≡ false
      → 10 ≤ (in_len + parity_len) * per_byte (is_raw c f)
      → s.len + counted_len c f (in_len + parity_len) ≤ s.cap
      → s.cap < s.len + total_len c f (in_len + parity_len)
      → frame c f t input in_len s ≡ aborted
  frame_aborts small headed some_payload passes over =
      frame_passes small passes
      ∙ ap (λ (b : Run Bitstream). b >>= λ s'. next (counted_len c f (in_len + parity_len), s'))
          (build_aborts c laws f t input in_len parity_len r s v
            (omega (arith, ap counted_head headed, ap (head_len c f) headed)) over)
