-- ===== src/CommandLine.antt =====
-- psplay.c: the options of the command line, and what `main` makes of them. What `getopt_long`, `strtod`,
-- `strtol`, `strtok`, `read` and the sound library deliver is part of the input.
pub mod PowerOfTwo
pub mod Options
pub mod Setup
pub mod Message
pub mod Rounds
pub mod Transmission
pub mod Alternating
pub mod Sweeps
pub mod Audio
pub mod Padded
pub mod Blocks
pub mod Playback
pub mod Main
pub mod Sent
pub mod Chirps
pub mod Tests
use psplay.Base.{
  ℕ, zero, suc, ◌+◌, ◌-◌, Bool, true, false, not, ◌&&◌, ◌||◌, ltb, ◌==◌, if◌then◌else◌, bit_and,
  bit_or, Option, none, some, ◌>>=◌, List, [], ◌∷◌, ◌++◌, length, take,
}
use psplay.Base.Int.{ℤ, pos, negsuc, eqb_ℤ}
use psplay.Utils.{log2_int}
use psplay.Framer.{no_payload_line_coding, no_header, frame_max_payload_size}

pub data Mode : Type 0 where
  alternating_symbols message_mode chirp audio_file : Mode

abbrev pub max_freq_size : ℕ
max_freq_size = 128

-- IS_POT(x)
unfoldable pub is_pot : ℕ → Bool
is_pot x = not (x == 0) && bit_and x (x - 1) == 0

module _ (Double : Type 0) where
  -- The variables of `main`. The arrays `freqs` and `message` are shown as far as they are filled.
  pub record Settings : Type 0 where
    pub freqs : List Double
    pub mode : Mode
    pub frame_flags : ℕ
    pub frame_ecc_level : Double
    pub frame_preamble_len : ℤ
    pub message : List ℕ
    pub use_dbpsk : Bool
    pub loop_delay : Double
    pub loop_count : ℤ
    pub baudrate : Double
    pub audio_gain : Double

  -- An option with its argument: a number is `none` where it does not parse; of `-s` there is what the
  -- calls of `read` deliver in turn, `none` for an error; of `-i`, whether the file opens, and its
  -- channels. `help` is also any other.
  pub data CliOption : Type 0 where
    freqs_are : List (Option Double) → CliOption
    stdin_gives : List (Option (List ℕ)) → CliOption
    message_is : List ℕ → CliOption
    alternating : CliOption
    audio_input : Bool → ℕ → CliOption
    dbpsk : CliOption
    gain_is : Option Double → CliOption
    baudrate_is : Option Double → CliOption
    delay_is : Option Double → CliOption
    play_chirps : CliOption
    without_header : CliOption
    raw_payload : CliOption
    loops_are : Option ℤ → CliOption
    ecc_level_is : Option Double → CliOption
    preamble_is : Option ℤ → CliOption
    help : CliOption

module _ {Double : Type 0} where
  -- The loop of `-f`.
  unfoldable pub add_freqs : List (Option Double) → List Double → Option (List Double)
  add_freqs [] freqs = some freqs
  add_freqs (none ∷ tokens) freqs = if ltb (length freqs) max_freq_size then none else some freqs
  add_freqs (some f ∷ tokens) freqs =
      let rest = add_freqs tokens (freqs ++ f ∷ []) in
      if ltb (length freqs) max_freq_size then rest else some freqs

-- The loop of `-s`; after the reads that are given, `read` is at the end of the file.
unfoldable pub read_stdin : List (Option (List ℕ)) → List ℕ → Option (List ℕ)
read_stdin [] message = some message
read_stdin (none ∷ reads) message =
    if frame_max_payload_size - length message == 0 then some message else none
read_stdin (some bytes ∷ reads) message =
    let got = take (frame_max_payload_size - length message) bytes in
    let rest = read_stdin reads (message ++ got) in if length got == 0 then some message else rest

abbrev pub default_loops : Mode → ℤ
default_loops alternating_symbols = negsuc 0
default_loops message_mode = pos 1
default_loops chirp = pos 1
default_loops audio_file = pos 1

-- The modes that send symbols.
abbrev pub sends : Mode → Bool
sends alternating_symbols = true
sends message_mode = true
sends chirp = false
sends audio_file = false

module _ {Double : Type 0} where
  -- `none` where the process ends.
  unfoldable pub set_option : CliOption Double → Settings Double → Option (Settings Double)
  set_option (freqs_are tokens) s = add_freqs tokens s.freqs >>= λ f. some (record s { freqs = f })
  set_option (stdin_gives reads) s =
      read_stdin reads s.message >>= λ m. some (record s { mode = message_mode; message = m })
  set_option (message_is m) s =
      let taken : Settings Double = record s { mode = message_mode; message = m } in
      if ltb frame_max_payload_size (length m) then none else some taken
  set_option alternating s = some (record s { mode = alternating_symbols })
  set_option (audio_input opens channels) s =
      let taken : Settings Double = record s { mode = audio_file } in
      if not opens then none else if not (channels == 1) then none else some taken
  set_option dbpsk s = some (record s { use_dbpsk = true })
  set_option (gain_is x) s = x >>= λ d. some (record s { audio_gain = d })
  set_option (baudrate_is x) s = x >>= λ d. some (record s { baudrate = d })
  set_option (delay_is x) s = x >>= λ d. some (record s { loop_delay = d })
  set_option play_chirps s = some (record s { mode = chirp })
  set_option without_header s = some (record s { frame_flags = bit_or s.frame_flags no_header })
  set_option raw_payload s =
      some (record s { frame_flags = bit_or s.frame_flags no_payload_line_coding })
  set_option (loops_are x) s = x >>= λ n. some (record s { loop_count = n })
  set_option (ecc_level_is x) s = x >>= λ d. some (record s { frame_ecc_level = d })
  set_option (preamble_is x) s = x >>= λ n. some (record s { frame_preamble_len = n })
  set_option help s = none

  unfoldable pub set_options : List (CliOption Double) → Settings Double → Option (Settings Double)
  set_options [] s = some s
  set_options (o ∷ options) s = set_option o s >>= λ s'. set_options options s'

  -- The frequencies where none is given, with 3000.0 and 3200.0.
  abbrev pub default_freqs : Double → Double → Bool → List Double
  default_freqs f_3000 f_3200 true = f_3000 ∷ []
  default_freqs f_3000 f_3200 false = f_3000 ∷ f_3200 ∷ []

  unfoldable pub set_defaults : Double → Double → Settings Double → Settings Double
  set_defaults f_3000 f_3200 s =
      let n = if eqb_ℤ s.loop_count (pos 0) then default_loops s.mode else s.loop_count in
      let f = if length s.freqs == 0 then default_freqs f_3000 f_3200 s.use_dbpsk else s.freqs in
      record s { loop_count = n; freqs = f }

  -- How many bits a symbol has; `none` where `main` refuses the frequencies.
  unfoldable pub choose_m_exp : Settings Double → Option ℕ
  choose_m_exp s =
      let n_freqs = length s.freqs in
      let with_dbpsk : Option ℕ = if not (n_freqs == 1) then none else some 1 in
      let with_fsk : Option ℕ =
        if not (is_pot n_freqs) || ltb n_freqs 2 then none else log2_int n_freqs in
      if sends s.mode then (if s.use_dbpsk then with_dbpsk else with_fsk) else some 0
