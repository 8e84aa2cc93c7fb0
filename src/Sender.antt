-- ===== src/Sender.antt =====
-- fsk.h, fsk.c, dbpsk.h and dbpsk.c: the bits of a stream become tones, or changes of a tone's phase.
pub mod Symbols
pub mod Fsk
pub mod Dbpsk
pub mod Tests
use psplay.Base.{
  ℕ, zero, suc, ◌+◌, ◌-◌, ◌*◌, ◌%◌, ◌^◌, Bool, true, false, ltb, ◌==◌, if◌then◌else◌, bit_or,
  Option, none, some, List, [], ◌∷◌, ◌++◌, ◌>>=◌, ◌<<<◌, add_size, is_negative, replicate,
}
use psplay.Base.Int.{ℤ, pos, negsuc}
use psplay.Bitstream
use psplay.Bitstream.{Bitstream}
use psplay.Utils.{Timespec}
use psplay.Ftimer
use psplay.Ftimer.{Ftimer}
use psplay.ToneGen
use psplay.ToneGen.{ToneGen}

-- The bytes of an `unsigned int` that holds 0, and the number that four bytes hold.
abbrev pub zero_uint : List ℕ
zero_uint = replicate 4 0

unfoldable pub value_of : List ℕ → ℕ
value_of [] = 0
value_of (b ∷ bytes) = b % 2 ^ 8 + 2 ^ 8 * value_of bytes

-- An `unsigned int` as an `int`.
unfoldable pub to_int : ℕ → ℤ
to_int x = if ltb x (2 ^ 31) then pos x else negsuc (2 ^ 32 - x - 1)

-- The tone generator and the symbol timer. Two histories: the symbols sent, of which the last is
-- `last_symbol` of a `dbpsk_t`, and the tones that were current while the symbol timer ran.
pub record Line : Type 0 where
  pub tone_gen : ToneGen
  pub symbol_timer : Ftimer
  pub sent : List ℕ
  pub tones : List ℤ

abbrev pub symbol_timer_flags : ℕ
symbol_timer_flags = bit_or (bit_or Ftimer.run_rt Ftimer.run_async) Ftimer.compensate_misses

-- `fsk_start`, `fsk_send_symbol` and `fsk_stop`
unfoldable pub fsk_start : (ℕ → ℕ) → ℕ → Timespec → Option Line
fsk_start half_period m_exp duration = do
  gen ← ToneGen.init half_period (1 <<< m_exp) 0
  some (record {
    tone_gen = gen;
    symbol_timer = Ftimer.create symbol_timer_flags duration false;
    sent = [];
    tones = [];
  })

unfoldable pub fsk_send_symbol : Line → ℕ → Option Line
fsk_send_symbol l symbol = do
  gen ← ToneGen.switch_frequency l.tone_gen (to_int symbol)
  some (record {
    tone_gen = gen;
    symbol_timer = Ftimer.wait l.symbol_timer;
    sent = l.sent ++ symbol ∷ [];
    tones = l.tones ++ gen.freq_idx ∷ [];
  })

unfoldable pub stop : Line → Option Line
stop l = do
  gen ← ToneGen.destroy l.tone_gen
  some (record l { symbol_timer = Ftimer.exit l.symbol_timer; tone_gen = gen })

-- The loop of `fsk_send_sequence`, on fuel. Its `n_bits` is a `size_t`, never below 0.
pub fsk_loop : ℕ → ℕ → Bitstream → Line → ℕ → Option (ℕ × Bitstream × Line)
fsk_loop zero m_exp s l total = none
fsk_loop (suc fuel) m_exp s l total = do
  (n_bits, s', symbol) ← Bitstream.read s zero_uint m_exp
  let rest = fsk_send_symbol l (value_of symbol) >>= λ l'.
      fsk_loop fuel m_exp s' l' (add_size total n_bits)
  if n_bits == 0 then some (total, s', l) else rest

-- The fuel is one round for every unread bit, and the last.
pub fsk_send_sequence : (ℕ → ℕ) → ℕ → Timespec → Bitstream → Option (ℕ × Bitstream × Line)
fsk_send_sequence half_period m_exp duration s = do
  l ← fsk_start half_period m_exp duration
  (total, s', l') ← fsk_loop (suc (s.len - s.pos_read)) m_exp s l 0
  l'' ← stop l'
  some (total, s', l'')

-- `dbpsk_start` and `dbpsk_send_symbol`
unfoldable pub dbpsk_start : ℕ → Timespec → Option Line
dbpsk_start half_period duration = do
  gen ← ToneGen.init (λ i. half_period) 1 Ftimer.compensate_misses
  tuned ← ToneGen.switch_frequency gen (pos 0)
  some (record {
    tone_gen = tuned;
    symbol_timer = Ftimer.create symbol_timer_flags duration false;
    sent = [];
    tones = [];
  })

unfoldable pub dbpsk_send_symbol : Line → ℕ → Line
dbpsk_send_symbol l symbol = record {
  tone_gen = if symbol == 1 then ToneGen.switch_phase l.tone_gen else l.tone_gen;
  symbol_timer = Ftimer.wait l.symbol_timer;
  sent = l.sent ++ symbol ∷ [];
  tones = l.tones ++ l.tone_gen.freq_idx ∷ [];
}

-- The loop of `dbpsk_send_sequence`, on fuel. An error leaves without `dbpsk_stop`.
pub dbpsk_loop : ℕ → Bitstream → Line → ℕ → Option (ℕ × Bitstream × Line)
dbpsk_loop zero s l total = none
dbpsk_loop (suc fuel) s l total = do
  (n_bits, s', symbol) ← Bitstream.read s zero_uint 1
  let rest = dbpsk_loop fuel s' (dbpsk_send_symbol l (value_of symbol)) (add_size total n_bits)
  let stopped = stop l >>= λ l'. some (total, s', l')
  if n_bits == 0 then stopped else if is_negative n_bits then some (n_bits, s', l) else rest

pub dbpsk_send_sequence : ℕ → Timespec → Bitstream → Option (ℕ × Bitstream × Line)
dbpsk_send_sequence half_period duration s = do
  l ← dbpsk_start half_period duration
  dbpsk_loop (suc (s.len - s.pos_read)) s l 0
