-- ===== src/BitbangPlayer/Tests.antt =====
-- Tests of the audio player, and instances of its theorems: samples are whole numbers.
use psplay.Base.{
  ℕ, ◌+◌, ◌*◌, ◌/◌, ◌≡◌, refl, arith, true, false, replicate, Option, none, some, List, [], ◌∷◌,
  ◌++◌,
}
use psplay.Base.Int.{pos}
use psplay.Ftimer.{create}
use psplay.CpuSpinner.{spin, edge_loop, n_cores_active}
use psplay.PingPong
use psplay.PingPong.{
  Pair, side_0, PpBuf, read_available, read_begin, get_state, set_state, read_done_set,
  read_done_turn, write_begin, write_done_set, write_done_turn,
}
use psplay.PingPong.System.{step_writer}
use psplay.BitbangPlayer.{
  Doubles, ncores_of, at_least_0, Player, playing, stopped, play, release, run_dry, fetch, emit,
  tick_cb_func,
}
use psplay.BitbangPlayer.Playing.{Playing, begin_playing, run}
use psplay.BitbangPlayer.Played.{Plays, run-played}
use psplay.BitbangPlayer.Sounding.{Sounded}
use psplay.BitbangPlayer.Feeding.{Feeding, run_feeding, feed}
use psplay.BitbangPlayer.Unset.{hand_over, unset, run-swapped}

-- Whole numbers in place of doubles.
abbrev pub whole : Doubles ℕ
whole = record {
  times = λ x y. x * y;
  plus = λ x y. x + y;
  over = λ x y. x / y;
  one = 1;
  two = 2;
  of_int = λ n. n;
  round = pos;
}

abbrev pub zeros : Pair (List ℕ)
zeros = record { at_0 = 0 ∷ 0 ∷ []; at_1 = 0 ∷ 0 ∷ [] }

abbrev pub fresh : Player ℕ
fresh = record {
  spinner = record { num_cores = 4; active_cores = 0; broadcasts = 0; asked = [] };
  sampling_interval = record { tv_sec = 0; tv_nsec = 20833 };
  ppbuf = record {
    buf = zeros;
    buf_state = record { at_0 = PingPong.free; at_1 = PingPong.free };
    buf_readi = side_0;
    buf_writei = side_0;
  };
  state = stopped;
  buf = none;
  index = 0;
  size = 0;
  gain = 1;
  timer = create 0 (record { tv_sec = 0; tv_nsec = 20833 }) true;
  played = [];
}

-- Two blocks and four ticks between the writer's steps.
abbrev schedule : List (Option (List ℕ))
schedule = none ∷ hand_over (1 ∷ 2 ∷ []) (none ∷ hand_over (3 ∷ 4 ∷ []) (none ∷ none ∷ []))

abbrev played_of : Option (Playing ℕ) → List ℕ
played_of none = []
played_of (some s) = s.player.played

run-three : played_of (run whole schedule (begin_playing zeros 2 fresh)) ≡ 1 ∷ 2 ∷ 3 ∷ []
unfolding run play PingPong.init create spin edge_loop n_cores_active ncores_of tick_cb_func emit
    fetch release run_dry read_available read_begin get_state set_state read_done_set read_done_turn
    step_writer write_begin write_done_set write_done_turn
run-three = refl

run-played_example :
    (s : Playing ℕ) × (run whole schedule (begin_playing zeros 2 fresh) ≡ some s)
    × Plays 2 s
    × Sounded whole 1 4 [] s.player.played s.player.spinner.asked
unfolding ncores_of
run-played_example =
    run-played whole zeros 2 fresh schedule refl refl (refl, refl) (omega arith) (omega arith)

-- A player that plays, at the end of a block.
abbrev at_end : Player ℕ
at_end = record fresh {
  spinner = record { num_cores = 4; active_cores = 3; broadcasts = 0; asked = [] };
  state = playing;
  ppbuf = record {
    buf = zeros;
    buf_state = record { at_0 = PingPong.active; at_1 = PingPong.free };
    buf_readi = side_0;
    buf_writei = PingPong.side_1;
  };
  buf = some side_0;
  index = 2;
  size = 2;
}

dry : read_available (release at_end).ppbuf ≡ false
unfolding release read_available get_state read_done_set read_done_turn set_state
dry = refl

run-swapped_example :
    (s : Playing ℕ) × (run whole
        (none ∷ hand_over (1 ∷ 2 ∷ []) (hand_over (3 ∷ 4 ∷ []) (none ∷ [])))
        (unset zeros 2 fresh side_0)
      ≡ some s)
    × (s.sent ≡ (1 ∷ 2 ∷ []) ∷ (3 ∷ 4 ∷ []) ∷ [])
    × (s.player.played ≡ [] ++ 3 ∷ [])
    × ((cores : ℕ) × (n_cores_active (at_least_0 (ncores_of whole 3 1 4)) ≡ some cores)
        × (s.player.spinner.asked ≡ [] ++ cores ∷ []))
unfolding ncores_of
run-swapped_example = run-swapped whole zeros 1 fresh side_0 (1 ∷ 2 ∷ []) (4 ∷ []) 3 (omega arith)

abbrev samples_of : Option (Feeding ℕ) → List ℕ
samples_of none = []
samples_of (some f) = f.playing.player.played

-- Nine turns of a writer with three blocks, of which it can hand over two; four ticks, and five turns more.
feeding-three :
    samples_of (
      run_feeding whole
        (replicate 9 true ++ replicate 4 false ++ replicate 5 true ++ replicate 3 false)
        (record {
          playing = begin_playing zeros 2 fresh;
          pending = (1 ∷ 2 ∷ []) ∷ (3 ∷ 4 ∷ []) ∷ (5 ∷ 6 ∷ []) ∷ [];
        }))
    ≡ 1 ∷ 2 ∷ 3 ∷ 4 ∷ 5 ∷ 6 ∷ []
unfolding run_feeding feed play PingPong.init create spin edge_loop n_cores_active ncores_of
    tick_cb_func emit fetch release run_dry read_available read_begin get_state set_state
    read_done_set read_done_turn step_writer write_begin write_done_set write_done_turn
feeding-three = refl
