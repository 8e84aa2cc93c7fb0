-- ===== src/Framer/Frame.antt =====
-- A whole frame (`framer_frame` of framer.c) against its description.
use psplay.Base.{
  ℕ, ◌+◌, ◌*◌, ◌≤◌, ◌<◌, ◌≡◌, refl, sym, ap, ◌∙◌, subst, arith, Bool, true, false, if◌then◌else◌,
  some, List, [], ◌++◌, length, All, length-append, append_assoc,
}
use psplay.Base.Int.{ℤ}
use psplay.Bitstream.{Bitstream}
use psplay.Bitstream.Stream.{IsValid, Written, Written-nil, Written-append}
use psplay.Framer.{has_flag, no_header, frame_header_rs_parity_len}
use psplay.Framer.Outcome.{Run, aborted, next}
use psplay.Framer.Build.{Platform, Framer, preamble, header, payload, build}
use psplay.Framer.Preamble.{preamble_bits, length-preamble_bits, preamble-Written}
use psplay.Framer.Header.{
  ReedSolomon, coded_length, coded_length-ok, header_bits, length-header_bits, header-Written,
}
use psplay.Framer.Payload.{block_bits, per_byte, is_raw, block, payload-Written, payload_aborts}
use psplay.X8b10b.Code.{disparity}
use psplay.X8b10b.Stream.{IsByte, last_rd, words-balanced}

module _ (c : Platform) (f : Framer c) (input : List ℕ) (in_len parity_len : ℕ) where
  -- What the caller of `framer_frame` hands over: the two coders are there, the message is bytes and
  -- fits a block with its parity, and a symbol fits an `int`.
  pub record Ready (header_coder payload_coder : c.Coder) : Type 0 where
    pub header_there : f.rs_header ≡ some header_coder
    pub header_made : c.create frame_header_rs_parity_len ≡ some header_coder
    pub payload_made : c.create parity_len ≡ some payload_coder
    pub parity : c.ceil_times f.payload_parity_len_ratio in_len ≡ parity_len
    pub enough : in_len ≤ length input
    pub bytes : All IsByte input
    pub few : in_len + parity_len ≤ 255
    pub symbol : f.m_exp ≤ 30

module _ (c : Platform) (f : Framer c) where
  abbrev pub is_bare : Bool
  is_bare = has_flag f.flags no_header

  -- The header's bits, if any, and the disparity behind it.
  abbrev pub head_bits : Bool → c.Coder → ℕ → List ℕ
  head_bits true coder in_len = []
  head_bits false coder in_len = header_bits c coder in_len

  abbrev pub head_rd : Bool → c.Coder → ℕ → ℤ
  head_rd true coder in_len = disparity true
  head_rd false coder in_len = last_rd (disparity false) (coded_length c coder in_len)

  abbrev pub head_len : Bool → ℕ
  head_len true = 0
  head_len false = 40

  abbrev pub preamble_len : ℕ
  preamble_len = f.preamble_length * (f.m_exp * 2)

  -- The frame as bits, and their number.
  abbrev pub frame_bits : c.Coder → c.Coder → List ℕ → ℕ → List ℕ
  frame_bits header_coder payload_coder input in_len =
      preamble_bits f.m_exp f.preamble_length
      ++ (head_bits is_bare header_coder in_len
          ++ block_bits (is_raw c f) (head_rd is_bare header_coder in_len)
              (block c payload_coder input in_len))

  abbrev pub total_len : ℕ → ℕ
  total_len bytes = preamble_len + head_len is_bare + bytes * per_byte (is_raw c f)

module _ (c : Platform) (laws : ReedSolomon c) (f : Framer c) (t : ℕ) (input : List ℕ)
    (in_len parity_len : ℕ) {header_coder payload_coder : c.Coder}
    (r : Ready c f input in_len parity_len header_coder payload_coder) where
  -- The step between the preamble and the payload.
  head_step : Bool → Bitstream → Run (Bitstream × ℤ)
  head_step bare s = if bare then next (s, disparity true) else header c f t in_len s

  head_step-Written :
      (bare : Bool) (s : Bitstream)
      → IsValid s
      → s.len + head_len c f bare ≤ s.cap
      → (s' : Bitstream) × (head_step bare s ≡ next (s', head_rd c f bare header_coder in_len))
        × Written s (head_bits c f bare header_coder in_len) s'
  unfolding head_step
  head_step-Written true s v room = (s, refl, Written-nil s v)
  head_step-Written false s v room =
      header-Written c laws f t header_coder in_len s v r.header_there r.header_made
        (omega (arith, r.few)) room

  length-head_bits :
      (bare : Bool) → length (head_bits c f bare header_coder in_len) ≡ head_len c f bare
  length-head_bits true = refl
  length-head_bits false =
      length-header_bits c laws f t header_coder in_len r.header_made (omega (arith, r.few))

  head_rd-disparity :
      (bare : Bool) → (m : Bool) × (head_rd c f bare header_coder in_len ≡ disparity m)
  head_rd-disparity true = (true, refl)
  head_rd-disparity false =
      (words-balanced false (coded_length c header_coder in_len)
        (coded_length-ok c laws f t header_coder in_len r.header_made (omega (arith, r.few))).2).0

  build_at :
      (s s₁ s₂ : Bitstream) (rd : ℤ)
      → preamble c f.m_exp f.preamble_length s ≡ next s₁
      → head_step (is_bare c f) s₁ ≡ next (s₂, rd)
      → build c f t input in_len parity_len s ≡ payload c f t input in_len parity_len s₂ rd
  unfolding build head_step
  build_at s s₁ s₂ rd first second = rw (first, second)

  -- What stands in front of the payload, behind the three checks.
  pub front-Written :
      (s : Bitstream)
      → IsValid s
      → s.len + (preamble_len c f + head_len c f (is_bare c f)) ≤ s.cap
      → (s₂ : Bitstream) × (build c f t input in_len parity_len s
          ≡ payload c f t input in_len parity_len s₂
              (head_rd c f (is_bare c f) header_coder in_len))
        × Written s
            (preamble_bits f.m_exp f.preamble_length
              ++ head_bits c f (is_bare c f) header_coder in_len)
            s₂
  front-Written s v room =
      let (s₁, first, w) =
        preamble-Written c f.m_exp f.preamble_length s v r.symbol (omega arith) in
      let counted = length-preamble_bits f.m_exp f.preamble_length in
      let (s₂, second, w') =
        head_step-Written (is_bare c f) s₁ w.valid (omega (arith, w.longer, w.cap_kept, counted)) in
      (
        s₂,
        build_at s s₁ s₂ _ first second,
        Written-append (preamble_bits f.m_exp f.preamble_length)
            (head_bits c f (is_bare c f) header_coder in_len) w w',
      )

  pub length-front :
      length
        (preamble_bits f.m_exp f.preamble_length ++ head_bits c f (is_bare c f) header_coder in_len)
      ≡ preamble_len c f + head_len c f (is_bare c f)
  length-front = omega (
    arith,
    length-append (preamble_bits f.m_exp f.preamble_length)
        (head_bits c f (is_bare c f) header_coder in_len),
    length-preamble_bits f.m_exp f.preamble_length,
    length-head_bits (is_bare c f),
  )

  -- With room for the whole frame, the body of `framer_frame` appends the frame.
  pub build-Written :
      (s : Bitstream)
      → IsValid s
      → s.len + total_len c f (in_len + parity_len) ≤ s.cap
      → (s' : Bitstream) × (build c f t input in_len parity_len s ≡ next s')
        × Written s (frame_bits c f header_coder payload_coder input in_len) s'
  build-Written s v room =
      let (s₁, runs, w) = front-Written s v (omega arith) in
      let (m, rd) = head_rd-disparity (is_bare c f) in
      let (s₂, rest, w') =
        payload-Written c laws f t payload_coder input in_len parity_len s₁ m w.valid r.payload_made
          r.enough r.bytes r.few (omega (arith, w.longer, w.cap_kept, length-front)) in
      let tail =
        block_bits (is_raw c f) (head_rd c f (is_bare c f) header_coder in_len)
          (block c payload_coder input in_len) in
      (
        s₂,
        runs ∙ ap (payload c f t input in_len parity_len s₁) rd ∙ rest,
        subst (λ a. Written s a s₂)
            (append_assoc (preamble_bits f.m_exp f.preamble_length)
              (head_bits c f (is_bare c f) header_coder in_len) tail)
            (Written-append
              (preamble_bits f.m_exp f.preamble_length
                ++ head_bits c f (is_bare c f) header_coder in_len)
              tail w
              (subst
                (λ d.
                  Written s₁ (block_bits (is_raw c f) d (block c payload_coder input in_len)) s₂)
                (sym rd) w')),
      )

  -- With room for the preamble and the header but not for the payload, the process ends.
  pub build_aborts :
      (s : Bitstream)
      → IsValid s
      → s.len + (preamble_len c f + head_len c f (is_bare c f)) ≤ s.cap
      → s.cap < s.len + total_len c f (in_len + parity_len)
      → build c f t input in_len parity_len s ≡ aborted
  build_aborts s v room over =
      let (s₁, runs, w) = front-Written s v room in
      runs
      ∙ payload_aborts c laws f t payload_coder input in_len parity_len s₁ _ w.valid r.payload_made
          r.enough r.bytes r.few (omega (arith, w.longer, w.cap_kept, length-front))
