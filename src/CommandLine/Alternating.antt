-- ===== src/CommandLine/Alternating.antt =====
-- The case MODE_ALTERNATING_SYMBOLS of `main` in psplay.c: all symbols in turn, as often as asked for.
use psplay.Base.{ℕ, zero, suc, ◌+◌, if◌then◌else◌, Option, none, some, ◌>>=◌}
use psplay.Base.Int.{ℤ, pos, negsuc, ◌-ℤ◌, eqb_ℤ, ltb_ℤ}
use psplay.Utils.{Timespec}
use psplay.Sender.{Line, fsk_start, fsk_send_symbol, stop, dbpsk_start, dbpsk_send_symbol}

-- `loop_count == -1 || loop_count-- > 0`: the count that a round starts with, if there is one.
unfoldable pub goes_on : ℤ → Option ℤ
goes_on count =
    let counted : Option ℤ = if ltb_ℤ (pos 0) count then some (count -ℤ pos 1) else none in
    if eqb_ℤ count (negsuc 0) then some count else counted

-- The inner loop, with `left` symbols to go from `i` on.
unfoldable pub sweep : ℕ → ℕ → Line → Option Line
sweep zero i l = some l
sweep (suc left) i l = fsk_send_symbol l i >>= λ l'. sweep left (i + 1) l'

abbrev pub both : Line → Option Line
both l = some (dbpsk_send_symbol (dbpsk_send_symbol l 0) 1)

abbrev pub or_end : Option ℤ → Line → (ℤ → Option Line) → Option Line
or_end none l round = some l
or_end (some count) l round = round count

-- The outer loop, on fuel, with what a round sends.
unfoldable pub sweeps : (Line → Option Line) → ℕ → ℤ → Line → Option Line
sweeps round zero count l = none
sweeps round (suc fuel) count l =
    or_end (goes_on count) l (λ c. round l >>= λ l'. sweeps round fuel c l')

unfoldable pub alternate_fsk : ℕ → (ℕ → ℕ) → ℕ → Timespec → ℕ → ℤ → Option Line
alternate_fsk fuel half_period m_exp duration n_freqs count = do
  l ← fsk_start half_period m_exp duration
  l' ← sweeps (sweep n_freqs 0) fuel count l
  stop l'

unfoldable pub alternate_dbpsk : ℕ → ℕ → Timespec → ℤ → Option Line
alternate_dbpsk fuel half_period duration count = do
  l ← dbpsk_start half_period duration
  l' ← sweeps both fuel count l
  stop l'
