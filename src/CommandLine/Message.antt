-- ===== src/CommandLine/Message.antt =====
-- The case MODE_MESSAGE of `main` in psplay.c: a message is framed once and sent as often as asked for.
-- `send` is `fsk_send_sequence` or `dbpsk_send_sequence` on a transmitter that is set up. The pause
-- between two transmissions is not shown, nor is the dump of the stream, which only prints.
use psplay.Base.{
  ℕ, zero, suc, ◌-◌, ◌^◌, if◌then◌else◌, Option, none, some, List, [], ◌∷◌, ◌++◌, length,
  is_negative, ◌>>=◌,
}
use psplay.Base.Int.{ℤ, pos, negsuc, ◌-ℤ◌, eqb_ℤ, ltb_ℤ}
use psplay.Bitstream
use psplay.Bitstream.{Bitstream}
use psplay.Framer.Build
use psplay.Framer.Build.{Platform, Framer, frame}
use psplay.Framer.Outcome.{Run, fault, aborted, next}
use psplay.Sender.{Line}

-- FRAME_MAX_LENGTH_BITS
abbrev pub frame_max_length_bits : ℕ
frame_max_length_bits = 2620

-- An `int` as a `size_t`.
abbrev pub to_size : ℤ → ℕ
to_size (pos n) = n
to_size (negsuc n) = 2 ^ 64 - suc n

-- `if (loop_count != -1 && --loop_count <= 0) break;`: the count that it goes on with.
unfoldable pub next_count : ℤ → Option ℤ
next_count count =
    let less = count -ℤ pos 1 in
    let counted : Option ℤ = if ltb_ℤ (pos 0) less then some less else none in
    if eqb_ℤ count (negsuc 0) then some count else counted

-- How the process ends: with EXIT_FAILURE; with `abort`; by a fault in the framer, or in the loop of the
-- transmissions, where it may be fuel that ran out; or after the transmissions.
pub data Ending : Type 0 where
  refused ends_in_abort framing_faults sending_faults : Ending
  transmitted : List Line → Ending

module _ (send : Bitstream → Option (ℕ × Bitstream × Line)) where
  -- The loop, on fuel; `none` is a fault of a transmission, or fuel that ran out.
  unfoldable pub send_rounds : ℕ → ℤ → Bitstream → List Line → Option (List Line)
  send_rounds zero count s lines = none
  send_rounds (suc fuel) count s lines = send (Bitstream.seek s 0).1 >>= λ r.
      elim (next_count count) [
        | none ↦ some (lines ++ r.2 ∷ [])
        | some c ↦ send_rounds fuel c r.1 (lines ++ r.2 ∷ [])
      ]

  abbrev pub ended : Option (List Line) → Ending
  ended none = sending_faults
  ended (some lines) = transmitted lines

  -- `fuel` bounds the rounds. The result of `framer_init` is not looked at.
  module _ (c : Platform) (calloc : ℕ → Option (List ℕ)) (errno t fuel : ℕ) where
    abbrev pub after_frame : ℤ → Run (ℕ × Bitstream) → Ending
    after_frame count fault = framing_faults
    after_frame count aborted = ends_in_abort
    after_frame count (next (ret, s)) =
        if is_negative ret then refused else ended (send_rounds fuel count s [])

    -- With what `bitstream_init` gives: a stream only if it succeeds.
    abbrev pub after_init : Framer c → List ℕ → ℤ → ℕ × Option Bitstream → Ending
    after_init framer message count (ret, none) = refused
    after_init framer message count (ret, some s) =
        after_frame count (frame c framer t message (length message) s)

    unfoldable pub send_message : c.Ratio → ℕ → ℤ → ℕ → List ℕ → ℤ → Ending
    send_message ecc_level flags preamble_len m_exp message count =
        after_init (Build.init c ecc_level flags (to_size preamble_len) m_exp).0 message count
          (Bitstream.init calloc errno frame_max_length_bits)
