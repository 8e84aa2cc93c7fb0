-- ===== src/Framer/Build.antt =====
-- `framer_init` and `framer_frame` of framer.c.
use psplay.Base.{
  ℕ, zero, suc, ◌+◌, ◌*◌, ◌%◌, ◌^◌, ◌<<<◌, true, ltb, if◌then◌else◌, Option, none, some, List, [],
  ◌∷◌, add_size, mul_size, neg_errno, e2big, emsgsize, take,
}
use psplay.Base.Int.{ℤ, negsuc}
use psplay.Bitstream
use psplay.Bitstream.{Bitstream}
use psplay.Framer.{
  write_8b10b, write_8b10b_chunk, no_payload_line_coding, no_header, has_flag, frame_sfd,
  frame_header_rs_parity_len, frame_max_payload_size,
}
use psplay.Framer.Outcome.{Run, next, check, present, ◌>>=◌}

-- What the framer calls: libcorrect's Reed-Solomon coder, made for a number of parity bytes
-- (polynomial, first root and root gap are fixed; `none` is NULL), its encoder with the `ssize_t`
-- that it returns and the bytes that it writes, and `ceil(ratio * n)` on doubles.
pub record Platform : Type 1 where
  pub Coder : Type 0
  pub create : ℕ → Option Coder
  pub encode : Coder → List ℕ → ℕ × List ℕ
  pub Ratio : Type 0
  pub ceil_times : Ratio → ℕ → ℕ

module _ (c : Platform) where
  -- `framer_t`
  pub record Framer : Type 0 where
    pub rs_header : Option c.Coder
    pub payload_parity_len_ratio : c.Ratio
    pub flags : ℕ
    pub preamble_length : ℕ
    pub m_exp : ℕ

  -- The framer, and the return value 0 or -1.
  unfoldable pub init : c.Ratio → ℕ → ℕ → ℕ → Framer × ℕ
  init ratio flags preamble_length m_exp =
      let rs_header = c.create frame_header_rs_parity_len in
      let framer : Framer = record {
        rs_header = rs_header;
        payload_parity_len_ratio = ratio;
        flags = flags;
        preamble_length = preamble_length;
        m_exp = m_exp;
      } in
      (framer, elim rs_header [ none ↦ neg_errno 1 | some _ ↦ 0 ])

  -- `len` of `framer_frame`: what the function checks for and returns.
  unfoldable pub frame_len : Framer → ℕ → ℕ → ℕ
  frame_len f in_len parity_len =
      let preamble = mul_size f.preamble_length (f.m_exp * 2) in
      let header = if has_flag f.flags no_header then 0 else 30 in
      let per_byte = if has_flag f.flags no_payload_line_coding then 8 else 10 in
      add_size (add_size preamble header) (mul_size (add_size in_len parity_len) per_byte)

  -- The preamble: `left` more symbol pairs, the highest symbol and the lowest.
  unfoldable pub preamble : ℕ → ℕ → Bitstream → Run Bitstream
  preamble m_exp zero s = next s
  preamble m_exp (suc left) s =
      check (Bitstream.write_n s ((1 <<< m_exp) % 2 ^ 64) (m_exp * 2)) >>= preamble m_exp left

  -- The start delimiter and the coded length; the disparity is handed on.
  unfoldable pub header : Framer → ℕ → ℕ → Bitstream → Run (Bitstream × ℤ)
  header f t in_len s = do
    (s', rd) ← check (write_8b10b t s frame_sfd (negsuc 0) true)
    rs ← present f.rs_header
    encoded ← check (some (c.encode rs (in_len % 2 ^ 8 ∷ [])))
    check (write_8b10b_chunk t s' encoded (1 + frame_header_rs_parity_len) rd)

  -- The payload with its parity, in the line code or raw.
  unfoldable pub payload : Framer → ℕ → List ℕ → ℕ → ℕ → Bitstream → ℤ → Run Bitstream
  payload f t input in_len parity_len s rd = do
    rs ← present (c.create parity_len)
    encoded ← check (some (c.encode rs (take in_len input)))
    let raw = check (Bitstream.write s encoded (mul_size (add_size in_len parity_len) 8))
    let coded =
        check (write_8b10b_chunk t s encoded (add_size in_len parity_len) rd) >>= λ r. next r.0
    if has_flag f.flags no_payload_line_coding then raw else coded

  -- The body of `framer_frame`, behind its three checks. The header starts at the disparity -1.
  unfoldable pub build : Framer → ℕ → List ℕ → ℕ → ℕ → Bitstream → Run Bitstream
  build f t input in_len parity_len s = do
    s₁ ← preamble f.m_exp f.preamble_length s
    (s₂, rd) ← (if has_flag f.flags no_header then next (s₁, negsuc 0) else header f t in_len s₁)
    payload f t input in_len parity_len s₂ rd

  -- The return value, as 64 bits, and the stream.
  unfoldable pub frame : Framer → ℕ → List ℕ → ℕ → Bitstream → Run (ℕ × Bitstream)
  frame f t input in_len s =
      let parity_len = c.ceil_times f.payload_parity_len_ratio in_len in
      let len = frame_len f in_len parity_len in
      let body = build f t input in_len parity_len s >>= λ s'. next (len % 2 ^ 32, s') in
      if ltb frame_max_payload_size in_len
      then next (neg_errno emsgsize, s)
      else if ltb 255 (add_size in_len parity_len)
      then next (neg_errno emsgsize, s)
      else if ltb (Bitstream.remaining_cap s) len
      then next (neg_errno e2big, s)
      else body
