-- ===== src/PingPong/System.antt =====
-- The threads around a ping-pong buffer (ping_pong_buf.c): one writer and one reader, each in its
-- own loop, whose steps come in any order.
use psplay.Base.{Option, none, some, List, [], ◌∷◌, ◌++◌, ◌>>=◌}
use psplay.PingPong.{
  Pair, pair_at, pair_set, PpBuf, init, write_begin, read_begin, write_done_set, write_done_turn,
  read_done_set, read_done_turn,
}

-- Where a thread stands: outside, with a buffer in hand and not filled or looked at, with it filled
-- or looked at, and between the halves of `done`.
pub data Stage : Type 0 where
  outside holding served turning : Stage

-- `sent` and `received` are histories.
pub record System (A : Type 0) : Type 0 where
  pub pp : PpBuf A
  pub writer : Stage
  pub reader : Stage
  pub sent : List A
  pub received : List A

module _ {A : Type 0} where
  abbrev pub start : Pair A → System A
  start buf = record { pp = init buf; writer = outside; reader = outside; sent = []; received = [] }

  -- The next step of the writer, which has `a` to send next, and of the reader; `none` while it
  -- sleeps.
  unfoldable pub step_writer : A → Stage → System A → Option (System A)
  step_writer a outside s = write_begin s.pp >>= λ i. some (record s { writer = holding })
  step_writer a holding s =
      some (record s {
        pp = record s.pp { buf = pair_set s.pp.buf s.pp.buf_writei a };
        writer = served;
      })
  step_writer a served s = some (record s {
    pp = write_done_set s.pp;
    writer = turning;
    sent = s.sent ++ pair_at s.pp.buf s.pp.buf_writei ∷ [];
  })
  step_writer a turning s = some (record s { pp = write_done_turn s.pp; writer = outside })

  unfoldable pub step_reader : Stage → System A → Option (System A)
  step_reader outside s = read_begin s.pp >>= λ i. some (record s { reader = holding })
  step_reader holding s =
      some (record s {
        reader = served;
        received = s.received ++ pair_at s.pp.buf s.pp.buf_readi ∷ [];
      })
  step_reader served s = some (record s { pp = read_done_set s.pp; reader = turning })
  step_reader turning s = some (record s { pp = read_done_turn s.pp; reader = outside })

  abbrev pub or_stay : System A → Option (System A) → System A
  or_stay s none = s
  or_stay s (some s') = s'

  -- A schedule: `some a` is a turn of the writer, `none` one of the reader. Who sleeps, stays.
  unfoldable pub run : List (Option A) → System A → System A
  run [] s = s
  run (some a ∷ turns) s = run turns (or_stay s (step_writer a s.writer s))
  run (none ∷ turns) s = run turns (or_stay s (step_reader s.reader s))
