-- ===== src/CommandLine/Playback.antt =====
-- An audio file from the disk to the cores: the loop of psplay.c over the file, the ping-pong buffer and the
-- player put together.
use psplay.Base.{
  ℕ, suc, ◌<◌, ◌≡◌, arith, sym, subst, ◌∙◌, Bool, some, none, List, [], ◌++◌, All, length,
}
use psplay.PingPong.{Pair, side_0}
use psplay.BitbangPlayer.{Doubles, Player}
use psplay.BitbangPlayer.Playing.{begin_playing}
use psplay.BitbangPlayer.Follows.{AreFull}
use psplay.BitbangPlayer.Sounding.{AskFew, Sounded}
use psplay.BitbangPlayer.Played.{Plays}
use psplay.BitbangPlayer.Feeding.{Feeding, run_feeding}
use psplay.BitbangPlayer.Audible.{feeding-played}
use psplay.CommandLine.Audio.{SoundLibrary, Filler, read_file, handed_by}
use psplay.CommandLine.Blocks.{LibraryView, read_file_lem}

module _ {Double : Type 0} {S : SoundLibrary Double} (L : LibraryView S) where
  -- The buffers as `ppbuf_init` leaves them, with nothing handed over yet.
  abbrev pub begin_filling : S.File → Pair (List Double) → Filler S
  begin_filling file buf = record { file = file; bufs = buf; side = side_0; blocks = [] }

  -- Where the library puts a file's samples in turn at the front of the array, a block has a sample or
  -- more, both buffers are of its size, the player starts with no buffer in hand, and no sample of the
  -- blocks handed over asks for 64 cores or more, with the player's gain and so many cores as there are:
  -- the loop over the file ends; in every order of the steps of a writer with the blocks that it hands over
  -- and the ticks of the player no tick faults, at most two of the blocks handed over wait, and what
  -- has been played is the beginning of the file's samples with less than a block behind them; and the
  -- calls of `cpu_spinner_spin` are, for each sample played in turn, one with the cores that it asks for,
  -- and in between some for none.
  pub file-played :
      (D : Doubles Double) (file : S.File) (buf : Pair (List Double)) (size : ℕ) (p : Player Double)
      (turns : List Bool)
      → 0 < size
      → AreFull size buf
      → All
          (AskFew D p.gain p.spinner.num_cores)
          (handed_by (read_file (suc (length (L.samples file))) size (begin_filling file buf)))
      → p.buf ≡ none
      → p.played ≡ []
      → (r : Filler S) × (read_file (suc (length (L.samples file))) size (begin_filling file buf)
          ≡ some r)
        × (f : Feeding Double) × (run_feeding D turns
              (record { playing = begin_playing buf size p; pending = r.blocks })
            ≡ some f)
        × Plays size f.playing
        × Sounded D p.gain p.spinner.num_cores p.spinner.asked f.playing.player.played
            f.playing.player.spinner.asked
        × (padding : List Double) × (length padding < size)
        × (behind : List Double) × (L.samples file ++ padding ≡ f.playing.player.played ++ behind)
  file-played D file buf size p turns positive full few b e =
      let n = length (L.samples file) in
      let (r, runs, v) =
        read_file_lem L (suc n) size (begin_filling file buf) positive (omega arith) full in
      let blocks_few =
        subst (λ o. All (AskFew D p.gain p.spinner.num_cores) (handed_by o)) runs few in
      let (f, plays, waits, sounds, (behind, split)) =
        feeding-played D buf size p r.blocks turns b e full (v.blocks_sized tt) blocks_few in
      (r, runs, f, plays, waits, sounds, v.padding, v.short, behind, sym v.said ∙ split)
