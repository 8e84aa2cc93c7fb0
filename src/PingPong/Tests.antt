-- ===== src/PingPong/Tests.antt =====
-- A ping-pong buffer (ping_pong_buf.c) through some turns of its threads.
use psplay.Base.{
  ℕ, ◌≤◌, ◌≡◌, refl, Option, none, some, List, [], ◌∷◌, ◌++◌, length, true, false, ◌&&◌, replicate,
}
use psplay.PingPong.{
  Pair, init, get_state, set_state, write_begin, read_begin, write_done_set, write_done_turn,
  read_done_set, read_done_turn,
}
use psplay.PingPong.System.{start, step_writer, step_reader, run}
use psplay.PingPong.Order.{InHand, run-ordered, run-exclusive}
use psplay.PingPong.Sleeping
use psplay.PingPong.Sleeping.{reader_acts, writer_acts}
use psplay.PingPong.Awake.{WriterWaits, run-WriterWaits, run-awake}
use mathlib.Core.List.{map}

abbrev zeros : Pair ℕ
zeros = record { at_0 = 0; at_1 = 0 }

-- The writer sends 5 and fills its next buffer with 6 while the reader looks at the first.
abbrev turns : List (Option ℕ)
turns = some 5 ∷ some 5 ∷ some 5 ∷ none ∷ some 5 ∷ none ∷ some 6 ∷ some 6 ∷ []

turns-run : (run turns (start zeros)).received ≡ 5 ∷ []
unfolding run step_writer step_reader init get_state set_state write_begin read_begin write_done_set
    write_done_turn read_done_set read_done_turn
turns-run = refl

run-ordered_example :
    (rest : List ℕ) × ((run turns (start zeros)).sent ≡ (run turns (start zeros)).received ++ rest)
    × (length rest ≤ 2)
run-ordered_example = run-ordered zeros turns

both-InHand : InHand (run turns (start zeros)).writer × InHand (run turns (start zeros)).reader
unfolding run step_writer step_reader init get_state set_state write_begin read_begin write_done_set
    write_done_turn read_done_set read_done_turn
both-InHand = (tt, tt)

run-exclusive_example :
    ¬ ((run turns (start zeros)).pp.buf_writei ≡ (run turns (start zeros)).pp.buf_readi)
run-exclusive_example = run-exclusive zeros turns both-InHand.0 both-InHand.1

-- The reader falls asleep at once; the writer fills both buffers and falls asleep, while the reader, which it
-- has woken, is behind.
abbrev sleeping_turns : List (Sleeping.Turn ℕ)
sleeping_turns = reader_acts ∷ map writer_acts (replicate 9 5)

asleep : (Sleeping.run sleeping_turns (Sleeping.start zeros)).writer_asleep ≡ true
unfolding Sleeping.run Sleeping.take_turn Sleeping.writer_stepped Sleeping.reader_stepped
    step_writer step_reader init get_state set_state write_begin read_begin write_done_set
    write_done_turn
asleep = refl

run-awake_example :
    ((Sleeping.run sleeping_turns (Sleeping.start zeros)).writer_asleep
      && (Sleeping.run sleeping_turns (Sleeping.start zeros)).reader_asleep)
    ≡ false
run-awake_example = run-awake zeros sleeping_turns

run-WriterWaits_example : WriterWaits (Sleeping.run sleeping_turns (Sleeping.start zeros)).system
run-WriterWaits_example = run-WriterWaits zeros sleeping_turns asleep
