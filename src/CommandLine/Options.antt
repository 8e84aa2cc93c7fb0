-- ===== src/CommandLine/Options.antt =====
-- What the loop over the options in psplay.c leaves in the arrays of `main`.
use psplay.Base.{
  ℕ, ◌-◌, ◌≤◌, ◌≡◌, arith, Bool-cases, inl, inr, ltb, ◌==◌, Option, none, some, >>=-eq-some, List,
  [], ◌∷◌, ◌++◌, length, take, length-append, length-take_bound,
}
use psplay.Framer.{frame_max_payload_size}
use psplay.CommandLine.{
  message_mode, max_freq_size, add_freqs, read_stdin, Settings, CliOption, freqs_are, stdin_gives,
  message_is, alternating, audio_input, dbpsk, gain_is, baudrate_is, delay_is, play_chirps,
  without_header, raw_payload, loops_are, ecc_level_is, preamble_is, help, set_option, set_options,
}

module _ {Double : Type 0} where
  add_freqs-bounded :
      (tokens : List (Option Double)) (f f' : List Double)
      → length f ≤ 128
      → add_freqs tokens f ≡ some f'
      → length f' ≤ 128
  unfolding add_freqs
  add_freqs-bounded [] f f' h e = ground arith
  add_freqs-bounded (none ∷ tokens) f f' h e = ground arith
  add_freqs-bounded (some x ∷ tokens) f f' h e = elim (Bool-cases (ltb (length f) max_freq_size)) [
    | inl room ↦
        add_freqs-bounded tokens (f ++ x ∷ []) f' (ground (arith, length-append f (x ∷ [])))
          (rw room at e)
    | inr filled ↦ ground arith
  ]

read_stdin-bounded :
    (reads : List (Option (List ℕ))) (m m' : List ℕ)
    → length m ≤ 255
    → read_stdin reads m ≡ some m'
    → length m' ≤ 255
unfolding read_stdin
read_stdin-bounded [] m m' h e = ground arith
read_stdin-bounded (none ∷ reads) m m' h e = ground arith
read_stdin-bounded (some bytes ∷ reads) m m' h e =
    let got = take (frame_max_payload_size - length m) bytes in
    elim (Bool-cases (length got == 0)) [
      | inl over ↦ ground arith
      | inr more ↦
          read_stdin-bounded reads (m ++ got) m'
            (omega (
              arith,
              length-append m got,
              length-take_bound (frame_max_payload_size - length m) bytes,
            ))
            (rw more at e)
    ]

module _ {Double : Type 0} where
  -- The arrays `freqs` and `message` are filled within their bounds.
  pub record IsBounded (s : Settings Double) : Type 0 where
    pub freqs_fit : length s.freqs ≤ 128
    pub message_fits : length s.message ≤ 255

  set_option-IsBounded :
      (o : CliOption Double) (s s' : Settings Double)
      → IsBounded s
      → set_option o s ≡ some s'
      → IsBounded s'
  unfolding set_option
  set_option-IsBounded (freqs_are tokens) s s' b e =
      let (f, runs, done) =
        >>=-eq-some (add_freqs tokens s.freqs) (λ f. some (record s { freqs = f })) e in
      ground (arith, add_freqs-bounded tokens s.freqs f b.freqs_fit runs)
  set_option-IsBounded (stdin_gives reads) s s' b e =
      let (m, runs, done) =
        >>=-eq-some (read_stdin reads s.message)
          (λ m. some (record s { mode = message_mode; message = m })) e in
      ground (arith, read_stdin-bounded reads s.message m b.message_fits runs)
  set_option-IsBounded (message_is m) s s' b e = ground arith
  set_option-IsBounded alternating s s' b e = ground arith
  set_option-IsBounded (audio_input opens channels) s s' b e = ground arith
  set_option-IsBounded dbpsk s s' b e = ground arith
  set_option-IsBounded (gain_is none) s s' b e = cc
  set_option-IsBounded (gain_is (some x)) s s' b e = ground arith
  set_option-IsBounded (baudrate_is none) s s' b e = cc
  set_option-IsBounded (baudrate_is (some x)) s s' b e = ground arith
  set_option-IsBounded (delay_is none) s s' b e = cc
  set_option-IsBounded (delay_is (some x)) s s' b e = ground arith
  set_option-IsBounded play_chirps s s' b e = ground arith
  set_option-IsBounded without_header s s' b e = ground arith
  set_option-IsBounded raw_payload s s' b e = ground arith
  set_option-IsBounded (loops_are none) s s' b e = cc
  set_option-IsBounded (loops_are (some x)) s s' b e = ground arith
  set_option-IsBounded (ecc_level_is none) s s' b e = cc
  set_option-IsBounded (ecc_level_is (some x)) s s' b e = ground arith
  set_option-IsBounded (preamble_is none) s s' b e = cc
  set_option-IsBounded (preamble_is (some x)) s s' b e = ground arith
  set_option-IsBounded help s s' b e = cc

  -- Whatever the options, and however often one is given: where `main` goes on behind them, there are
  -- at most 128 frequencies and at most 255 bytes of message, as the arrays can hold.
  pub set_options-IsBounded :
      (options : List (CliOption Double)) (s s' : Settings Double)
      → IsBounded s
      → set_options options s ≡ some s'
      → IsBounded s'
  unfolding set_options
  set_options-IsBounded [] s s' b e = ground arith
  set_options-IsBounded (o ∷ options) s s' b e =
      let (s1, runs, rest) = >>=-eq-some (set_option o s) (λ s1. set_options options s1) e in
      set_options-IsBounded options s1 s' (set_option-IsBounded o s s1 b runs) rest
