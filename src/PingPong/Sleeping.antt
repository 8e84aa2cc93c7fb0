-- ===== src/PingPong/Sleeping.antt =====
-- The threads around a ping-pong buffer (ping_pong_buf.c) asleep on its condition: `pthread_cond_wait` in
-- `wait_for_state_becomes`, and `pthread_cond_signal` in `set_state`. With two threads, a signal of the one
-- can only wake the other.
use psplay.Base.{Bool, true, false, not, ◌&&◌, if◌then◌else◌, Option, none, some, List, [], ◌∷◌}
use psplay.PingPong.{Pair}
use psplay.PingPong.System
use psplay.PingPong.System.{
  Stage, outside, holding, served, turning, System, step_writer, step_reader,
}

pub record Sleepers (A : Type 0) : Type 0 where
  pub system : System A
  pub writer_asleep : Bool
  pub reader_asleep : Bool

-- The step from here is `set_state`, which signals.
abbrev pub signals : Stage → Bool
signals outside = false
signals holding = false
signals served = true
signals turning = false

-- A turn of the writer, with what it writes next, or of the reader. A thread that sleeps may wake by itself.
pub data Turn (A : Type 0) : Type 0 where
  writer_acts : A → Turn A
  reader_acts writer_wakes reader_wakes : Turn A

module _ {A : Type 0} where
  abbrev pub start : Pair A → Sleepers A
  start buf = record { system = System.start buf; writer_asleep = false; reader_asleep = false }

  -- A thread that cannot go on falls asleep; a signal wakes the other one.
  unfoldable pub writer_stepped : Sleepers A → Option (System A) → Sleepers A
  writer_stepped s none = record s { writer_asleep = true }
  writer_stepped s (some y) = record s {
    system = y;
    reader_asleep = s.reader_asleep && not (signals s.system.writer);
  }

  unfoldable pub reader_stepped : Sleepers A → Option (System A) → Sleepers A
  reader_stepped s none = record s { reader_asleep = true }
  reader_stepped s (some y) = record s {
    system = y;
    writer_asleep = s.writer_asleep && not (signals s.system.reader);
  }

  unfoldable pub take_turn : Turn A → Sleepers A → Sleepers A
  take_turn (writer_acts a) s =
      if s.writer_asleep then s else writer_stepped s (step_writer a s.system.writer s.system)
  take_turn reader_acts s =
      if s.reader_asleep then s else reader_stepped s (step_reader s.system.reader s.system)
  take_turn writer_wakes s = record s { writer_asleep = false }
  take_turn reader_wakes s = record s { reader_asleep = false }

  unfoldable pub run : List (Turn A) → Sleepers A → Sleepers A
  run [] s = s
  run (t ∷ turns) s = run turns (take_turn t s)
