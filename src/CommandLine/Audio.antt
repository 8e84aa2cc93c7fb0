-- ===== src/CommandLine/Audio.antt =====
-- The case MODE_AUDIOFILE of `main` in psplay.c, on the side that fills the buffers: the samples of a file go
-- into the two buffers in turn. The player's side is in BitbangPlayer.
use psplay.Base.{ℕ, zero, suc, ◌==◌, if◌then◌else◌, Option, none, some, List, ◌∷◌, [], ◌++◌}
use psplay.PingPong.{Pair, pair_at, pair_set, Side, other}

-- What a read of the sound library comes to: how many samples it says that it has read, the array that it
-- was given as it leaves it, and the file.
pub record SoundRead (File Double : Type 0) : Type 0 where
  pub count : ℕ
  pub array : List Double
  pub file : File

-- Files of the sound library: a read of so many samples into an array, and the way back to the start.
pub record SoundLibrary (Double : Type 0) : Type 1 where
  pub File : Type 0
  pub sf_read_double : File → List Double → ℕ → SoundRead File Double
  pub sf_seek_start : File → File

module _ {Double : Type 0} (S : SoundLibrary Double) where
  -- The file, the buffers with the writer's index, and as a history the blocks handed over.
  pub record Filler : Type 0 where
    pub file : S.File
    pub bufs : Pair (List Double)
    pub side : Side
    pub blocks : List (List Double)

module _ {Double : Type 0} {S : SoundLibrary Double} where
  -- The array that `ppbuf_buf_write_begin` gives is filled.
  abbrev pub block_read : SoundRead S.File Double → Filler S → Filler S
  block_read got r = record r { file = got.file; bufs = pair_set r.bufs r.side got.array }

  -- `ppbuf_buf_write_done`: it is handed over, and the other one is next.
  abbrev pub block_done : Filler S → Filler S
  block_done r = record r { side = other r.side; blocks = r.blocks ++ pair_at r.bufs r.side ∷ [] }

  -- The loop over a file, on fuel.
  unfoldable pub read_file : ℕ → ℕ → Filler S → Option (Filler S)
  read_file zero size r = none
  read_file (suc fuel) size r =
      let got = S.sf_read_double r.file (pair_at r.bufs r.side) size in
      let rest = read_file fuel size (block_done (block_read got r)) in
      if got.count == 0 then some (block_read got r) else rest

  -- What has been handed over once the loop is through.
  abbrev pub handed_by : Option (Filler S) → List (List Double)
  handed_by none = []
  handed_by (some r) = r.blocks
