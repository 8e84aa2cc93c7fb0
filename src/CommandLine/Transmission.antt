-- ===== src/CommandLine/Transmission.antt =====
-- What becomes of a message that psplay.c is given: the framer and the transmitter together.
use psplay.Base.{
  ℕ, suc, ◌+◌, ◌*◌, ◌/◌, ◌≤◌, ◌<◌, ◌≡◌, refl, ap, ◌∙◌, subst, arith, false, Option, some, List, [],
  length, is_negative,
}
use psplay.Base.Int.{ℤ, pos}
use psplay.Bitstream.{Bitstream}
use psplay.Bitstream.Numbers.{Calloc, fresh, init-fresh}
use psplay.Framer.Build
use psplay.Framer.Build.{Platform, Framer, frame}
use psplay.Framer.Header.{ReedSolomon}
use psplay.Framer.Frame.{Ready, is_bare, frame_bits, total_len}
use psplay.Framer.Payload.{per_byte, is_raw}
use psplay.Framer.Result.{counted_len, counted_less, frame-Written, frame_aborts}
use psplay.Sender.{Line, fsk_send_sequence, dbpsk_send_sequence}
use psplay.Sender.Symbols.{symbols}
use psplay.Sender.Fsk.{fsk_send_sequence-Drained}
use psplay.Sender.Dbpsk.{dbpsk_send_sequence-Drained}
use psplay.Utils.{Timespec}
use psplay.CommandLine.Message.{
  ends_in_abort, transmitted, frame_max_length_bits, after_frame, after_init, send_message,
}
use psplay.CommandLine.Rounds.{Transmits, Repeats, send_rounds-Repeats}

-- `fsk_send_sequence` with 1 to 6 bits a symbol, and `dbpsk_send_sequence`, are such transmissions.
pub fsk-Transmits :
    (half_period : ℕ → ℕ) (m_exp : ℕ) (duration : Timespec)
    → 1 ≤ m_exp
    → m_exp ≤ 6
    → Transmits (fsk_send_sequence half_period m_exp duration) (symbols m_exp)
fsk-Transmits half_period m_exp duration low high s v =
    let (ret, s', l, runs, d, said, tones) =
      fsk_send_sequence-Drained half_period m_exp duration s v low high in
    (ret, s', l, runs, d, said)

pub dbpsk-Transmits :
    (half_period : ℕ) (duration : Timespec)
    → Transmits (dbpsk_send_sequence half_period duration) (λ bits. bits)
dbpsk-Transmits half_period duration s v =
    let (ret, s', l, runs, d, said, tones) = dbpsk_send_sequence-Drained half_period duration s v in
    (ret, s', l, runs, d, said)

-- The framer that `main` sets up.
abbrev pub framer_of : (c : Platform) → c.Ratio → ℕ → ℕ → ℕ → Framer c
framer_of c ecc_level flags preamble_len m_exp = (Build.init c ecc_level flags preamble_len m_exp).0

-- The stream that `main` gets for the frame.
abbrev pub stream_of : List ℕ → Bitstream
stream_of bytes = fresh frame_max_length_bits bytes

module _ (c : Platform) (laws : ReedSolomon c) (calloc : ℕ → Option (List ℕ)) (errno t fuel : ℕ)
    (heap : Calloc calloc) (bytes : List ℕ)
    (there : calloc ((frame_max_length_bits + 7) / 8) ≡ some bytes) where
  -- With a stream, what becomes of the message hangs on its frame.
  at_frame :
      (send : Bitstream → Option (ℕ × Bitstream × Line)) (ecc_level : c.Ratio)
      (flags preamble_len m_exp : ℕ) (message : List ℕ) (count : ℤ)
      → send_message send c calloc errno t fuel ecc_level flags
          (pos preamble_len)
          m_exp
          message
          count
        ≡ after_frame send c calloc errno t fuel count (
            frame c
              (framer_of c ecc_level flags preamble_len m_exp)
              t
              message
              (length message)
              (stream_of bytes))
  unfolding send_message
  at_frame send ecc_level flags preamble_len m_exp message count =
      let (e, v) = init-fresh calloc errno frame_max_length_bits bytes heap (omega arith) there in
      ap
        (after_init send c calloc errno t fuel (framer_of c ecc_level flags preamble_len m_exp)
          message count)
        e

  module _ (ecc_level : c.Ratio) (flags preamble_len m_exp : ℕ) (message : List ℕ) (parity_len : ℕ)
      {header_coder payload_coder : c.Coder}
      (r : Ready c
        (framer_of c ecc_level flags preamble_len m_exp)
        message
        (length message)
        parity_len
        header_coder
        payload_coder) where
    -- If the coders and the memory are there, the message and its parity have at most 255 bytes, the
    -- frame at most 2620 bits, and `loop_count` is 1 or more, then the frame is sent `loop_count` times,
    -- whole each time.
    pub send_message-Repeats :
        (send : Bitstream → Option (ℕ × Bitstream × Line)) (code : List ℕ → List ℕ) (n : ℕ)
        → Transmits send code
        → total_len c (framer_of c ecc_level flags preamble_len m_exp) (length message + parity_len)
          ≤ frame_max_length_bits
        → n < fuel
        → (lines : List Line) × (send_message send c calloc errno t fuel ecc_level flags
              (pos preamble_len)
              m_exp
              message
              (pos (suc n))
            ≡ transmitted lines)
          × Repeats code
              (frame_bits c
                (framer_of c ecc_level flags preamble_len m_exp)
                header_coder
                payload_coder
                message
                (length message))
              (suc n)
              []
              lines
    send_message-Repeats send code n sends room enough =
        let f = framer_of c ecc_level flags preamble_len m_exp in
        let (e, v) = init-fresh calloc errno frame_max_length_bits bytes heap (omega arith) there in
        let (s', framed, w) =
          frame-Written c laws f t message (length message) parity_len r (stream_of bytes) v
            (omega arith) (omega arith) in
        let (lines, runs, repeats) =
          send_rounds-Repeats send code sends n fuel s' [] w.valid enough in
        let fine : is_negative (counted_len c f (length message + parity_len)) ≡ false =
          ground (arith, counted_less c f (is_bare c f)) in
        (
          lines,
          at_frame send ecc_level flags preamble_len m_exp message (pos (suc n))
              ∙ ap (after_frame send c calloc errno t fuel (pos (suc n))) framed
              ∙ rw (fine, runs) refl,
          subst (λ b. Repeats code b (suc n) [] lines) w.appended repeats,
        )

    -- If the frame has a header, ten bits of payload or more, and up to ten bits more than the 2620 that
    -- the stream has, though not the length that the framer checks, the process ends in `abort`.
    pub send_message-aborts :
        (send : Bitstream → Option (ℕ × Bitstream × Line)) (count : ℤ)
        → is_bare c (framer_of c ecc_level flags preamble_len m_exp) ≡ false
        → 10
          ≤ (length message + parity_len)
            * per_byte (is_raw c (framer_of c ecc_level flags preamble_len m_exp))
        → counted_len c
            (framer_of c ecc_level flags preamble_len m_exp)
            (length message + parity_len)
          ≤ frame_max_length_bits
        → frame_max_length_bits
          < total_len c
              (framer_of c ecc_level flags preamble_len m_exp)
              (length message + parity_len)
        → send_message send c calloc errno t fuel ecc_level flags
            (pos preamble_len)
            m_exp
            message
            count
          ≡ ends_in_abort
    send_message-aborts send count headed some_payload passes over =
        let f = framer_of c ecc_level flags preamble_len m_exp in
        let (e, v) = init-fresh calloc errno frame_max_length_bits bytes heap (omega arith) there in
        at_frame send ecc_level flags preamble_len m_exp message count
        ∙ ap (after_frame send c calloc errno t fuel count) (
            frame_aborts c laws f t message (length message) parity_len r (stream_of bytes) v
              (omega arith) headed some_payload (omega arith) (omega arith))
