-- ===== src/CommandLine/Main.antt =====
-- `main` of psplay.c in message mode, from the settings on: the transmitter is set up (fsk_init and dbpsk_init of
-- fsk.c and dbpsk.c), and the message is framed and sent.
use psplay.Base.{ℕ, if◌then◌else◌, Option, none, some, ◌>>=◌, List, get_elem?}
use psplay.Utils.{Timespec, ns_to_timespec}
use psplay.Bitstream.{Bitstream}
use psplay.Framer.Build.{Platform}
use psplay.Sender.{Line, fsk_send_sequence, dbpsk_send_sequence}
use psplay.CommandLine.{Settings, choose_m_exp}
use psplay.CommandLine.Message.{Ending, refused, send_message}

-- `fsk_t` and `dbpsk_t` before the start.
pub record Fsk (Double : Type 0) : Type 0 where
  pub freqs : List Double
  pub m_exp : ℕ
  pub symbol_duration : Timespec

pub record Dbpsk (Double : Type 0) : Type 0 where
  pub carrier_freq : Double
  pub symbol_duration : Timespec
  pub last_symbol : ℕ

pub data Transmitter (Double : Type 0) : Type 0 where
  by_fsk : Fsk Double → Transmitter Double
  by_dbpsk : Dbpsk Double → Transmitter Double

-- `GIGA / hz` and `GIGA / (hz * 2.0)`, as the numbers of nanoseconds that the code cuts them off to.
module _ {Double : Type 0} (period half_period : Double → ℕ) where
  abbrev pub hz_to_period_timespec : Double → Timespec
  hz_to_period_timespec hz = ns_to_timespec (period hz)

  abbrev pub fsk_init : List Double → ℕ → Timespec → Fsk Double
  fsk_init freqs m_exp symbol_duration = record {
    freqs = freqs;
    m_exp = m_exp;
    symbol_duration = symbol_duration;
  }

  abbrev pub dbpsk_init : Double → Timespec → Dbpsk Double
  dbpsk_init carrier_freq symbol_duration = record {
    carrier_freq = carrier_freq;
    symbol_duration = symbol_duration;
    last_symbol = 0;
  }

  -- The frequencies are an array; `none` where it has none at the index.
  abbrev pub init_sender : Settings Double → ℕ → Option (Transmitter Double)
  init_sender s m_exp =
      let duration = hz_to_period_timespec s.baudrate in
      let carrier = get_elem? s.freqs 0 >>= λ f. some (by_dbpsk (dbpsk_init f duration)) in
      if s.use_dbpsk then carrier else some (by_fsk (fsk_init s.freqs m_exp duration))

  -- No symbol of a transmitter that was set up has a frequency beyond the array.
  abbrev pub half_period_at : Option Double → ℕ
  half_period_at none = 0
  half_period_at (some f) = half_period f

  abbrev pub transmit : Transmitter Double → Bitstream → Option (ℕ × Bitstream × Line)
  transmit (by_fsk f) s =
      fsk_send_sequence (λ i. half_period_at (get_elem? f.freqs i)) f.m_exp f.symbol_duration s
  transmit (by_dbpsk d) s = dbpsk_send_sequence (half_period d.carrier_freq) d.symbol_duration s

  module _ (c : Platform) (ratio : Double → c.Ratio) (calloc : ℕ → Option (List ℕ))
      (errno t fuel : ℕ) where
    abbrev pub with_sender : Settings Double → ℕ → Option (Transmitter Double) → Ending
    with_sender s m_exp none = refused
    with_sender s m_exp (some sender) =
        send_message (transmit sender) c calloc errno t fuel (ratio s.frame_ecc_level) s.frame_flags
          s.frame_preamble_len m_exp s.message s.loop_count

    abbrev pub with_m_exp : Settings Double → Option ℕ → Ending
    with_m_exp s none = refused
    with_m_exp s (some m_exp) = with_sender s m_exp (init_sender s m_exp)

    unfoldable pub main_message : Settings Double → Ending
    main_message s = with_m_exp s (choose_m_exp s)
