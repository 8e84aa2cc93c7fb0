-- ===== src/Sender/Tests.antt =====
-- The theorems about fsk.c and dbpsk.c for a short stream.
use psplay.Base.{ℕ, ◌*◌, ◌+◌, ◌≡◌, refl, arith, some, [], ◌∷◌}
use psplay.Bitstream.{Bitstream}
use psplay.Bitstream.Stream.{IsValid, unread}
use psplay.Base.Int.{pos}
use mathlib.Core.List.{map}
use psplay.Sender.Symbols.{symbols}
use psplay.Utils.{Timespec}
use psplay.Sender.{Line, fsk_send_sequence}
use psplay.Sender.Fsk.{Drained, fsk_send_sequence-Drained}

abbrev ten_bits : Bitstream
ten_bits = record { data_ = 0xa5 ∷ 1 ∷ []; cap = 12; len = 10; pos_read = 0; pos_write = 10 }

ten_bits-IsValid : IsValid ten_bits
ten_bits-IsValid = omega arith

abbrev second : Timespec
second = record { tv_sec = 1; tv_nsec = 0 }

abbrev half_period : ℕ → ℕ
half_period i = (i + 1) * 1000000

-- 10100101 1 0 in groups of three, the last one short.
symbols-unread : symbols 3 (unread ten_bits) ≡ 5 ∷ 4 ∷ 6 ∷ 0 ∷ []
symbols-unread = refl

fsk_send_sequence-Drained_example :
    (ret : ℕ) × (s' : Bitstream) × (l : Line) × (fsk_send_sequence half_period 3 second ten_bits
      ≡ some (ret, s', l))
    × Drained ten_bits 0 ret s'
    × (l.sent ≡ symbols 3 (unread ten_bits))
    × (l.tones ≡ map pos (symbols 3 (unread ten_bits)))
fsk_send_sequence-Drained_example =
    fsk_send_sequence-Drained half_period 3 second ten_bits ten_bits-IsValid (omega arith)
      (omega arith)
