-- ===== src/CommandLine/Sent.antt =====
-- What `main` of psplay.c sends of a message, with either transmitter.
use psplay.Base.{
  ℕ, suc, ◌≤◌, ◌<◌, ◌+◌, ◌/◌, ◌^◌, ◌≡◌, refl, ap, ap₂, ◌∙◌, arith, true, false, Option, some, List,
  [], ◌∷◌, length, get_elem?,
}
use psplay.Base.Int.{pos}
use native.Mathlib.Nat.{pow-le-pow_right}
use psplay.Bitstream.Numbers.{Calloc}
use psplay.Framer.Build.{Platform}
use psplay.Framer.Header.{ReedSolomon}
use psplay.Framer.Frame.{Ready, frame_bits, total_len}
use psplay.Sender.Symbols.{symbols}
use psplay.CommandLine.{message_mode, Settings, choose_m_exp, sends}
use psplay.CommandLine.Setup.{choose_m_exp-fsk}
use psplay.CommandLine.Message.{transmitted, frame_max_length_bits, send_message}
use psplay.CommandLine.Rounds.{Transmits, Repeats}
use psplay.CommandLine.Transmission.{
  framer_of, fsk-Transmits, dbpsk-Transmits, send_message-Repeats,
}
use psplay.CommandLine.Main.{
  Transmitter, by_fsk, by_dbpsk, init_sender, transmit, with_sender, with_m_exp, main_message,
  hz_to_period_timespec, fsk_init, dbpsk_init, half_period_at,
}

choose_m_exp-dbpsk :
    {Double : Type 0} (s : Settings Double) (carrier : Double)
    → s.mode ≡ message_mode
    → s.use_dbpsk ≡ true
    → s.freqs ≡ carrier ∷ []
    → choose_m_exp s ≡ some 1
unfolding choose_m_exp
choose_m_exp-dbpsk s carrier mode dbpsk one = rw (mode, dbpsk, one) refl

module _ {Double : Type 0} (period half_period : Double → ℕ) (c : Platform) (laws : ReedSolomon c)
    (ratio : Double → c.Ratio) (calloc : ℕ → Option (List ℕ)) (errno t fuel : ℕ)
    (heap : Calloc calloc) (bytes : List ℕ)
    (there : calloc ((frame_max_length_bits + 7) / 8) ≡ some bytes) where
  -- What the settings ask for is sent.
  abbrev pub Sends : (List ℕ → List ℕ) → Settings Double → ℕ → ℕ → ℕ → c.Coder → c.Coder → Type 0
  Sends code s m_exp preamble_len n header_coder payload_coder =
      (lines : _) × (main_message period half_period c ratio calloc errno t fuel s
        ≡ transmitted lines)
      × Repeats code
          (frame_bits c (framer_of c (ratio s.frame_ecc_level) s.frame_flags preamble_len m_exp)
            header_coder payload_coder s.message (length s.message))
          (suc n) [] lines

  sender-Sends :
      (sender : Transmitter Double) (code : List ℕ → List ℕ) (s : Settings Double)
      (m_exp preamble_len parity_len n : ℕ) {header_coder payload_coder : c.Coder}
      → Transmits (transmit period half_period sender) code
      → choose_m_exp s ≡ some m_exp
      → init_sender period half_period s m_exp ≡ some sender
      → s.frame_preamble_len ≡ pos preamble_len
      → s.loop_count ≡ pos (suc n)
      → Ready c
          (framer_of c (ratio s.frame_ecc_level) s.frame_flags preamble_len m_exp)
          s.message
          (length s.message)
          parity_len
          header_coder
          payload_coder
      → total_len c
          (framer_of c (ratio s.frame_ecc_level) s.frame_flags preamble_len m_exp)
          (length s.message + parity_len)
        ≤ frame_max_length_bits
      → n < fuel
      → Sends code s m_exp preamble_len n header_coder payload_coder
  unfolding main_message
  sender-Sends sender code s m_exp preamble_len parity_len n sends_all chosen made p k r room
        enough =
      let (lines, runs, repeats) =
        send_message-Repeats c laws calloc errno t fuel heap bytes there (ratio s.frame_ecc_level)
          s.frame_flags preamble_len m_exp s.message parity_len r
          (transmit period half_period sender) code n sends_all room enough in
      (
        lines,
        ap (with_m_exp period half_period c ratio calloc errno t fuel s) chosen
            ∙ ap (with_sender period half_period c ratio calloc errno t fuel s m_exp) made
            ∙ ap₂
                (λ q count.
                  send_message (transmit period half_period sender) c calloc errno t fuel
                    (ratio s.frame_ecc_level) s.frame_flags q m_exp s.message count)
                p k
            ∙ runs,
        repeats,
      )

  -- With FSK and a power of two of frequencies, 2 to 64, a loop count of 1 or more, the coders and the
  -- memory there, the message and its parity within 255 bytes, and a frame of at most 2620 bits: in
  -- message mode the settings' message is framed with the bits of a symbol that the frequencies make,
  -- and the frame is sent as often as the loop count says, whole each time, in symbols of so many bits.
  pub main_message-fsk :
      (s : Settings Double) (m_exp preamble_len parity_len n : ℕ)
      {header_coder payload_coder : c.Coder}
      → s.mode ≡ message_mode
      → s.use_dbpsk ≡ false
      → length s.freqs ≡ 2 ^ m_exp
      → 1 ≤ m_exp
      → m_exp ≤ 6
      → s.frame_preamble_len ≡ pos preamble_len
      → s.loop_count ≡ pos (suc n)
      → Ready c
          (framer_of c (ratio s.frame_ecc_level) s.frame_flags preamble_len m_exp)
          s.message
          (length s.message)
          parity_len
          header_coder
          payload_coder
      → total_len c
          (framer_of c (ratio s.frame_ecc_level) s.frame_flags preamble_len m_exp)
          (length s.message + parity_len)
        ≤ frame_max_length_bits
      → n < fuel
      → Sends (symbols m_exp) s m_exp preamble_len n header_coder payload_coder
  main_message-fsk s m_exp preamble_len parity_len n mode fsk many low high p k r room enough =
      let small : length s.freqs < 2 ^ 31 =
        omega (arith, pow-le-pow_right {n = 2} (omega arith) {i = m_exp} {j = 6} high) in
      let chosen = (choose_m_exp-fsk s (ap sends mode) fsk small m_exp).1 (low, many) in
      let duration = hz_to_period_timespec period half_period s.baudrate in
      sender-Sends (by_fsk (fsk_init period half_period s.freqs m_exp duration)) (symbols m_exp) s
        m_exp preamble_len parity_len n
        (fsk-Transmits (λ i. half_period_at period half_period (get_elem? s.freqs i)) m_exp duration
          low high)
        chosen (rw fsk refl) p k r room enough

  -- With DBPSK and one frequency, and the rest as above, the frame is sent bit by bit.
  main_message-dbpsk :
      (s : Settings Double) (carrier : Double) (preamble_len parity_len n : ℕ)
      {header_coder payload_coder : c.Coder}
      → s.mode ≡ message_mode
      → s.use_dbpsk ≡ true
      → s.freqs ≡ carrier ∷ []
      → s.frame_preamble_len ≡ pos preamble_len
      → s.loop_count ≡ pos (suc n)
      → Ready c
          (framer_of c (ratio s.frame_ecc_level) s.frame_flags preamble_len 1)
          s.message
          (length s.message)
          parity_len
          header_coder
          payload_coder
      → total_len c
          (framer_of c (ratio s.frame_ecc_level) s.frame_flags preamble_len 1)
          (length s.message + parity_len)
        ≤ frame_max_length_bits
      → n < fuel
      → Sends (λ bits. bits) s 1 preamble_len n header_coder payload_coder
  main_message-dbpsk s carrier preamble_len parity_len n mode dbpsk one p k r room enough =
      let duration = hz_to_period_timespec period half_period s.baudrate in
      sender-Sends (by_dbpsk (dbpsk_init period half_period carrier duration)) (λ bits. bits) s 1
        preamble_len parity_len n (dbpsk-Transmits (half_period carrier) duration)
        (choose_m_exp-dbpsk s carrier mode dbpsk one) (rw (dbpsk, one) refl) p k r room enough
