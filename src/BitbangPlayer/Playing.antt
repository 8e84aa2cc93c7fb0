-- ===== src/BitbangPlayer/Playing.antt =====
-- A player (bitbang_player.c) and the thread that fills its buffer (`main` in psplay.c), whose steps come
-- in any order.
use psplay.Base.{ℕ, Option, none, some, ◌>>=◌, List, [], ◌∷◌}
use psplay.PingPong.{Pair, init}
use psplay.PingPong.System.{Stage, outside, System, step_writer, or_stay}
use psplay.BitbangPlayer.{Doubles, Player, play, tick_cb_func}

-- `sent` is a history: the blocks that the writer has handed over.
pub record Playing (Double : Type 0) : Type 0 where
  pub player : Player Double
  pub writer : Stage
  pub sent : List (List Double)

module _ {Double : Type 0} where
  -- After `bitbang_player_play` with a buffer that nothing has been written to.
  abbrev pub begin_playing : Pair (List Double) → ℕ → Player Double → Playing Double
  begin_playing buf size p = record { player = play (init buf) size p; writer = outside; sent = [] }

  -- The two threads around the buffer, the player as one that is at a stage and is through with blocks.
  abbrev pub as_system : Stage → List (List Double) → Playing Double → System (List Double)
  as_system reader received s = record {
    pp = s.player.ppbuf;
    writer = s.writer;
    reader = reader;
    sent = s.sent;
    received = received;
  }

  abbrev pub with_writer : Playing Double → System (List Double) → Playing Double
  with_writer s y = record {
    player = record s.player { ppbuf = y.pp };
    writer = y.writer;
    sent = y.sent;
  }

  -- A step of the writer, which has `a` to write next.
  abbrev pub writer_step : List Double → Playing Double → Playing Double
  writer_step a s =
      let y = as_system outside [] s in with_writer s (or_stay y (step_writer a s.writer y))

  module _ (D : Doubles Double) where
    -- A schedule: `some a` is a turn of the writer, `none` a tick.
    unfoldable pub run : List (Option (List Double)) → Playing Double → Option (Playing Double)
    run [] s = some s
    run (some a ∷ turns) s = run turns (writer_step a s)
    run (none ∷ turns) s = tick_cb_func D s.player >>= λ p. run turns (record s { player = p })
