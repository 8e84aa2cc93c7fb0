-- ===== src/BitbangPlayer/Feeding.antt =====
-- A player (bitbang_player.c) and a thread that has certain blocks to hand over (`main` in psplay.c).
use psplay.Base.{Bool, true, false, Option, some, ◌>>=◌, List, [], ◌∷◌}
use psplay.PingPong.{pair_at}
use psplay.PingPong.System.{Stage, outside, holding, served, turning}
use psplay.BitbangPlayer.{Doubles, tick_cb_func}
use psplay.BitbangPlayer.Playing.{Playing, writer_step}

-- `pending` are the blocks that the writer has yet to fill its buffers with.
pub record Feeding (Double : Type 0) : Type 0 where
  pub playing : Playing Double
  pub pending : List (List Double)

module _ {Double : Type 0} where
  -- What is in the buffer that the writer is at.
  abbrev pub at_writer : Playing Double → List Double
  at_writer s = pair_at s.player.ppbuf.buf s.player.ppbuf.buf_writei

  -- A step of the writer, which has left its loop if it has a buffer in hand and no block.
  unfoldable pub feed : Stage → List (List Double) → Playing Double → Feeding Double
  feed holding [] s = record { playing = s; pending = [] }
  feed holding (a ∷ rest) s = record { playing = writer_step a s; pending = rest }
  feed outside blocks s = record { playing = writer_step (at_writer s) s; pending = blocks }
  feed served blocks s = record { playing = writer_step (at_writer s) s; pending = blocks }
  feed turning blocks s = record { playing = writer_step (at_writer s) s; pending = blocks }

  module _ (D : Doubles Double) where
    -- A schedule: `true` is a turn of the writer, `false` a tick.
    unfoldable pub run_feeding : List Bool → Feeding Double → Option (Feeding Double)
    run_feeding [] f = some f
    run_feeding (true ∷ turns) f = run_feeding turns (feed f.playing.writer f.pending f.playing)
    run_feeding (false ∷ turns) f = tick_cb_func D f.playing.player >>= λ p.
        run_feeding turns (record f { playing = record f.playing { player = p } })
