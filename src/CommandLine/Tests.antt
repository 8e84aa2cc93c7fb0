-- ===== src/CommandLine/Tests.antt =====
-- Tests of what psplay.c makes of its options, and instances of the theorems.
use psplay.Base.{
  ℕ, zero, suc, ◌^◌, ◌≤◌, ◌≡◌, ◌↔◌, refl, arith, false, Option, none, some, List, [], ◌∷◌, length,
  All, replicate,
}
use psplay.Base.Int.{pos, negsuc}
use psplay.Bitstream.{Bitstream}
use psplay.Framer.Build
use psplay.Framer.Build.{Platform}
use psplay.Framer.Frame.{Ready, frame_bits}
use psplay.Sender.{Line, fsk_start, fsk_send_sequence}
use psplay.Sender.Symbols.{symbols}
use psplay.Utils.{Timespec}
use psplay.X8b10b.Stream.{IsByte}
use psplay.Framer.Tests.{zero_coder, zero_coder-ReedSolomon}
use psplay.Bitstream.Tests.{zeros, zeros-Calloc}
use psplay.CommandLine.{
  Settings, alternating_symbols, message_mode, add_freqs, read_stdin, CliOption, freqs_are,
  stdin_gives, loops_are, set_option, set_options, set_defaults, choose_m_exp,
}
use psplay.CommandLine.Options.{IsBounded, set_options-IsBounded}
use psplay.CommandLine.Setup.{choose_m_exp-fsk, choose_m_exp-overflows}
use psplay.CommandLine.Message.{transmitted, ends_in_abort, send_message}
use psplay.CommandLine.Rounds.{Repeats}
use psplay.CommandLine.Alternating.{alternate_fsk}
use psplay.CommandLine.Sweeps.{times_over, symbols_from, alternate_fsk-Said}
use mathlib.Core.List.{map}
use psplay.Base.{take, drop, length-append, length-take_bound}
use psplay.Base.Cut.{length-drop, take-front}
use psplay.BitbangPlayer.{ncores_of}
use psplay.BitbangPlayer.Sounding.{Sounded}
use psplay.PingPong.{side_0}
use psplay.Base.{Bool, true, ◌<◌, ◌++◌}
use psplay.PingPong.{Pair}
use psplay.BitbangPlayer.Playing.{begin_playing}
use psplay.BitbangPlayer.Played.{Plays}
use psplay.BitbangPlayer.Feeding.{Feeding, run_feeding}
use psplay.BitbangPlayer.Tests.{whole, fresh}
use psplay.Base.{◌/◌}
use psplay.CommandLine.Sent.{Sends, main_message-fsk}
use psplay.CommandLine.Playback.{begin_filling, file-played}
use psplay.CommandLine.Audio.{SoundLibrary, Filler, read_file}
use psplay.CommandLine.Blocks.{LibraryView}
use psplay.CommandLine.Transmission.{
  framer_of, fsk-Transmits, send_message-Repeats, send_message-aborts,
}

-- The settings of `main` before the options, a double as a number of hundredths.
abbrev initial : Settings ℕ
initial = record {
  freqs = [];
  mode = alternating_symbols;
  frame_flags = 0;
  frame_ecc_level = 20;
  frame_preamble_len = pos 5;
  message = [];
  use_dbpsk = false;
  loop_delay = 50;
  loop_count = pos 0;
  baudrate = 10000;
  audio_gain = 100;
}

initial-IsBounded : IsBounded initial
initial-IsBounded = omega arith

abbrev four_freqs : List (Option ℕ)
four_freqs = some 10 ∷ some 20 ∷ some 30 ∷ some 40 ∷ []

-- `-s -f 10,20,30,40 -n 2` where two reads deliver three bytes.
abbrev options : List (CliOption ℕ)
options =
    stdin_gives (some (1 ∷ 2 ∷ []) ∷ some (3 ∷ []) ∷ some [] ∷ none ∷ [])
    ∷ freqs_are four_freqs
    ∷ loops_are (some (pos 2))
    ∷ []

abbrev after_options : Settings ℕ
after_options = record initial {
  freqs = 10 ∷ 20 ∷ 30 ∷ 40 ∷ [];
  mode = message_mode;
  message = 1 ∷ 2 ∷ 3 ∷ [];
  loop_count = pos 2;
}

set_options-four : set_options options initial ≡ some after_options
unfolding set_options set_option add_freqs read_stdin
set_options-four = refl

set_options-refuses : set_options (freqs_are (some 10 ∷ none ∷ []) ∷ []) initial ≡ none
unfolding set_options set_option add_freqs
set_options-refuses = refl

set_defaults-forever : (set_defaults 300000 320000 initial).loop_count ≡ negsuc 0
unfolding set_defaults
set_defaults-forever = refl

set_options-IsBounded_example : IsBounded after_options
set_options-IsBounded_example =
    set_options-IsBounded options initial after_options initial-IsBounded set_options-four

choose_m_exp-fsk_example :
    (choose_m_exp after_options ≡ some 2) ↔ ((◌≤◌ 1 2) × (length after_options.freqs ≡ 2 ^ 2))
choose_m_exp-fsk_example = choose_m_exp-fsk after_options refl refl (omega arith) 2

abbrev many_freqs : Settings ℕ
many_freqs = record initial { freqs = replicate 128 1000 }

abbrev tenth : Timespec
tenth = record { tv_sec = 0; tv_nsec = 100000000 }

choose_m_exp-overflows_example :
    (m_exp : ℕ) × (choose_m_exp many_freqs ≡ some m_exp)
    × (fsk_start (λ i. 500000) m_exp tenth ≡ none)
choose_m_exp-overflows_example =
    choose_m_exp-overflows many_freqs refl refl refl (λ i. 500000) tenth

abbrev short_message : List ℕ
short_message = 0x41 ∷ 0x42 ∷ []

-- A frame of four-bit symbols whose payload and parity fill the 255 bytes.
abbrev long_message : List ℕ
long_message = replicate 85 0x41

replicate-All : (n : ℕ) → All IsByte (replicate n 0x41)
replicate-All zero = tt
replicate-All (suc n) = (omega arith, replicate-All n)

short-Ready :
    Ready zero_coder (framer_of zero_coder 1 0 2 1) short_message (length short_message) 2 2 2
unfolding Build.init
short-Ready = record {
  header_there = refl;
  header_made = refl;
  payload_made = refl;
  parity = refl;
  enough = omega arith;
  bytes = (omega arith, (omega arith, tt));
  few = omega arith;
  symbol = omega arith;
}

long-Ready :
    Ready zero_coder (framer_of zero_coder 2 0 5 4) long_message (length long_message) 170 2 170
unfolding Build.init
long-Ready = record {
  header_there = refl;
  header_made = refl;
  payload_made = refl;
  parity = refl;
  enough = omega arith;
  bytes = replicate-All 85;
  few = omega arith;
  symbol = omega arith;
}

abbrev send_bits : Bitstream → Option (ℕ × Bitstream × Line)
send_bits = fsk_send_sequence (λ i. 500000) 1 tenth

send_message-Repeats_example :
    (lines : List Line) × (send_message send_bits zero_coder zeros 12 7 9 1 0
        (pos 2)
        1
        short_message
        (pos 3)
      ≡ transmitted lines)
    × Repeats
        (symbols 1)
        (frame_bits zero_coder (framer_of zero_coder 1 0 2 1) 2 2 short_message 2)
        3
        []
        lines
unfolding Build.init
send_message-Repeats_example =
    send_message-Repeats zero_coder zero_coder-ReedSolomon zeros 12 7 9 zeros-Calloc
      (replicate 328 0) refl 1 0 2 1 short_message 2 short-Ready send_bits (symbols 1) 2
      (fsk-Transmits (λ i. 500000) 1 tenth (omega arith) (omega arith)) (omega arith) (omega arith)

send_message-aborts_example :
    send_message send_bits zero_coder zeros 12 7 9 2 0 (pos 5) 4 long_message (pos 1)
    ≡ ends_in_abort
unfolding Build.init
send_message-aborts_example =
    send_message-aborts zero_coder zero_coder-ReedSolomon zeros 12 7 9 zeros-Calloc
      (replicate 328 0) refl 2 0 5 4 long_message 170 long-Ready send_bits (pos 1) refl
      (omega arith) (omega arith) (omega arith)

-- Three sweeps over four symbols.
alternate_fsk-Said_example :
    (l : Line) × (alternate_fsk 9 (λ i. 500000) 2 tenth (2 ^ 2) (pos 3) ≡ some l)
    × (l.sent ≡ times_over 3 (symbols_from 0 (2 ^ 2)))
    × (l.tones ≡ map pos (times_over 3 (symbols_from 0 (2 ^ 2))))
alternate_fsk-Said_example =
    alternate_fsk-Said 9 (λ i. 500000) 2 tenth 3 (omega arith) (omega arith)

-- A file in memory, with what is left to read of it; a read leaves the rest of the array alone.
abbrev in_memory : SoundLibrary ℕ
in_memory = record {
  File = List ℕ × List ℕ;
  sf_read_double = λ f array n. record {
    count = length (take n f.1);
    array = take n f.1 ++ drop (length (take n f.1)) array;
    file = (f.0, drop n f.1);
  };
  sf_seek_start = λ f. (f.0, f.0);
}

same_length :
    (s array : List ℕ) (n : ℕ)
    → n ≤ length array
    → length (take n s ++ drop (length (take n s)) array) ≡ length array
same_length s array n room = omega (
  arith,
  length-append (take n s) (drop (length (take n s)) array),
  length-drop (length (take n s)) array,
  length-take_bound n s,
)

abbrev in_memory_view : LibraryView in_memory
in_memory_view = record {
  samples = λ f. f.1;
  counts = λ f array n room. refl;
  delivers = λ f array n room.
      take-front (length (take n f.1)) (take n f.1) (drop (length (take n f.1)) array) refl;
  sized = λ f array n room. same_length f.1 array n room;
  leaves = λ f array n room. refl;
}

-- Seven samples, and buffers of two that hold 8 and 9.
abbrev seven : Filler in_memory
seven = record {
  file = (1 ∷ 2 ∷ 3 ∷ 4 ∷ 5 ∷ 6 ∷ 7 ∷ [], 1 ∷ 2 ∷ 3 ∷ 4 ∷ 5 ∷ 6 ∷ 7 ∷ []);
  bufs = record { at_0 = 8 ∷ 8 ∷ []; at_1 = 9 ∷ 9 ∷ [] };
  side = side_0;
  blocks = [];
}

-- The writer fills both buffers; the player takes four samples, and so on.
abbrev turns : List Bool
turns = replicate 9 true ++ replicate 4 false ++ replicate 8 true ++ replicate 9 false

abbrev pads : Pair (List ℕ)
pads = record { at_0 = 8 ∷ 8 ∷ []; at_1 = 9 ∷ 9 ∷ [] }

file-played_example :
    (r : Filler in_memory) × (read_file 8 2 (begin_filling in_memory_view seven.file pads) ≡ some r)
    × (f : Feeding ℕ) × (run_feeding whole turns
          (record { playing = begin_playing pads 2 fresh; pending = r.blocks })
        ≡ some f)
    × Plays 2 f.playing
    × Sounded whole 1 4 [] f.playing.player.played f.playing.player.spinner.asked
    × (padding : List ℕ) × (length padding < 2)
    × (behind : List ℕ) × (seven.file.1 ++ padding ≡ f.playing.player.played ++ behind)
unfolding ncores_of read_file
file-played_example =
    file-played in_memory_view whole seven.file pads 2 fresh turns (omega arith) (refl, refl)
      (omega arith) refl refl

abbrev two_tones : Settings ℕ
two_tones = record initial {
  freqs = 3000 ∷ 3200 ∷ [];
  mode = message_mode;
  frame_ecc_level = 1;
  frame_preamble_len = pos 2;
  message = short_message;
  loop_count = pos 3;
}

main_message-fsk_example :
    Sends
      (λ hz. 1000000000 / hz)
      (λ hz. 500000000 / hz)
      zero_coder
      zero_coder-ReedSolomon
      (λ x. x)
      zeros
      12
      7
      9
      zeros-Calloc
      (replicate 328 0)
      refl
      (symbols 1)
      two_tones
      1
      2
      2
      2
      2
unfolding Build.init
main_message-fsk_example =
    main_message-fsk (λ hz. 1000000000 / hz) (λ hz. 500000000 / hz) zero_coder
      zero_coder-ReedSolomon (λ x. x) zeros 12 7 9 zeros-Calloc (replicate 328 0) refl two_tones 1 2
      2 2 refl refl refl (omega arith) (omega arith) refl refl short-Ready (omega arith)
      (omega arith)
