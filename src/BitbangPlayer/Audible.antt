-- ===== src/BitbangPlayer/Audible.antt =====
-- What a player (bitbang_player.c) plays of the blocks that a writer has.
use psplay.Base.{
  ℕ, ◌≡◌, refl, sym, ap, ◌∙◌, Bool, true, false, none, some, List, [], ◌∷◌, ◌++◌, append_assoc,
  length, All, subst,
}
use psplay.PingPong.{Pair}
use psplay.PingPong.System.{Stage, outside, holding, served, turning}
use psplay.BitbangPlayer.{Doubles, Player, play}
use psplay.BitbangPlayer.Playing.{Playing, begin_playing, writer_step}
use psplay.BitbangPlayer.Follows.{AreFull, concat, Follows, between, within, writer_step-Follows}
use psplay.BitbangPlayer.Boundary.{concat-append, with_player, AreFull-length}
use psplay.BitbangPlayer.Sounding.{AskFew, Sounded, IsSounding, kept-IsSounding, tick-IsSounding}
use psplay.BitbangPlayer.Handed.{All-front}
use psplay.BitbangPlayer.Played.{Plays, Follows-Plays, play-Follows, play-IsSounding, tick-Follows}
use psplay.BitbangPlayer.Feeding.{Feeding, at_writer, feed, run_feeding}
use psplay.BitbangPlayer.Fed.{Fed, stepped-Fed, ticked-Fed}

module _ {Double : Type 0} where
  Follows-AreFull : (s : Playing Double) → Follows s → AreFull s.player.size s.player.ppbuf.buf
  Follows-AreFull s (between received b i e f d) = f
  Follows-AreFull s (within received b i e f d) = f

  abbrev pub AllSized : ℕ → List (List Double) → Type 0
  AllSized size blocks = All (λ b. length b ≡ size) blocks

  -- What the invariants say of a writer with these blocks and a player.
  record Feeds (size : ℕ) (blocks : List (List Double)) (f : Feeding Double) : Type 0 where
    follows : Follows f.playing
    sized : f.playing.player.size ≡ size
    pending_sized : AllSized size f.pending
    fed : Fed blocks f.playing.writer f.pending f.playing

  own-step : (s : Playing Double) → Follows s → Follows (writer_step (at_writer s) s)
  own-step s v =
      writer_step-Follows (at_writer s) s
        (AreFull-length s.player.size s.player.ppbuf.buf s.player.ppbuf.buf_writei
          (Follows-AreFull s v))
        v

  feed-Feeds :
      (size : ℕ) (blocks pending : List (List Double)) (w : Stage) (s : Playing Double)
      → s.writer ≡ w
      → Follows s
      → s.player.size ≡ size
      → AllSized size pending
      → Fed blocks w pending s
      → Feeds size blocks (feed w pending s)
  unfolding feed
  feed-Feeds size blocks [] holding s e v k all fed = record {
    follows = v;
    sized = k;
    pending_sized = all;
    fed = stepped-Fed blocks [] holding s e fed;
  }
  feed-Feeds size blocks (a ∷ rest) holding s e v k (l, all) fed = record {
    follows = writer_step-Follows a s (l ∙ sym k) v;
    sized = k;
    pending_sized = all;
    fed = stepped-Fed blocks (a ∷ rest) holding s e fed;
  }
  feed-Feeds size blocks pending outside s e v k all fed = record {
    follows = own-step s v;
    sized = k;
    pending_sized = all;
    fed = stepped-Fed blocks pending outside s e fed;
  }
  feed-Feeds size blocks pending served s e v k all fed = record {
    follows = own-step s v;
    sized = k;
    pending_sized = all;
    fed = stepped-Fed blocks pending served s e fed;
  }
  feed-Feeds size blocks pending turning s e v k all fed = record {
    follows = own-step s v;
    sized = k;
    pending_sized = all;
    fed = stepped-Fed blocks pending turning s e fed;
  }

  -- A step of the writer leaves the player's gain, its spinner and its history alone.
  feed-player :
      (pending : List (List Double)) (w : Stage) (s : Playing Double)
      → ((feed w pending s).playing.player.gain ≡ s.player.gain)
        × ((feed w pending s).playing.player.spinner ≡ s.player.spinner)
        × ((feed w pending s).playing.player.played ≡ s.player.played)
  unfolding feed
  feed-player [] holding s = (refl, refl, refl)
  feed-player (a ∷ rest) holding s = (refl, refl, refl)
  feed-player pending outside s = (refl, refl, refl)
  feed-player pending served s = (refl, refl, refl)
  feed-player pending turning s = (refl, refl, refl)

  -- The blocks begin with those handed over.
  Fed-begins :
      (blocks pending : List (List Double)) (w : Stage) (s : Playing Double)
      → Fed blocks w pending s
      → (behind : List (List Double)) × (blocks ≡ s.sent ++ behind)
  Fed-begins blocks pending outside s e = (pending, sym e)
  Fed-begins blocks pending holding s e = (pending, sym e)
  Fed-begins blocks pending served s e = (at_writer s ∷ pending, sym e)
  Fed-begins blocks pending turning s e = (pending, sym e)

  module _ (D : Doubles Double) (gain : Double) (num_cores : ℕ) (before : List ℕ) where
    run_feeding-Feeds :
        (size : ℕ) (blocks : List (List Double)) (turns : List Bool) (f : Feeding Double)
        → All (AskFew D gain num_cores) blocks
        → Feeds size blocks f
        → IsSounding D gain num_cores before f.playing.player
        → (f' : Feeding Double) × (run_feeding D turns f ≡ some f')
          × Feeds size blocks f'
          × IsSounding D gain num_cores before f'.playing.player
    unfolding run_feeding
    run_feeding-Feeds size blocks [] f few v o = (f, refl, v, o)
    run_feeding-Feeds size blocks (true ∷ turns) f few v o =
        let fed =
          feed-Feeds size blocks f.pending f.playing.writer f.playing refl v.follows v.sized
            v.pending_sized v.fed in
        let same = feed-player f.pending f.playing.writer f.playing in
        run_feeding-Feeds size blocks turns (feed f.playing.writer f.pending f.playing) few fed (
          kept-IsSounding D gain num_cores before f.playing.player
            (feed f.playing.writer f.pending f.playing).playing.player same.0 same.1 same.2 o)
    run_feeding-Feeds size blocks (false ∷ turns) f few v o =
        let (behind, split) = Fed-begins blocks f.pending f.playing.writer f.playing v.fed in
        let sent_few =
          All-front (AskFew D gain num_cores) f.playing.sent behind
            (subst (λ l. All (AskFew D gain num_cores) l) split few) in
        let (p, t, w, k) = tick-Follows D gain num_cores before f.playing o sent_few v.follows in
        let (f', r, v', o') =
          run_feeding-Feeds size blocks turns (record f { playing = with_player f.playing p }) few
            (record {
              follows = w;
              sized = k ∙ v.sized;
              pending_sized = v.pending_sized;
              fed = ticked-Fed D blocks f.pending f.playing.writer f.playing p t v.fed;
            })
            (tick-IsSounding D gain num_cores before f.playing.player p t o) in
        (f', rw t r, v', o')

  module _ (D : Doubles Double) where
    -- Where the player starts with no buffer in hand, every block fills a buffer, and no sample of theirs
    -- asks for 64 cores or more: in every order of the steps of a writer with these blocks and the ticks
    -- of the player no tick faults, what has been played is the beginning of the blocks' samples, at
    -- most two of the blocks handed over wait, and the spinner has been asked for what was played.
    pub feeding-played :
        (buf : Pair (List Double)) (size : ℕ) (p : Player Double) (blocks : List (List Double))
        (turns : List Bool)
        → p.buf ≡ none
        → p.played ≡ []
        → AreFull size buf
        → AllSized size blocks
        → All (AskFew D p.gain p.spinner.num_cores) blocks
        → (f : Feeding Double) × (run_feeding D turns
              (record { playing = begin_playing buf size p; pending = blocks })
            ≡ some f)
          × Plays size f.playing
          × Sounded D p.gain p.spinner.num_cores p.spinner.asked f.playing.player.played
              f.playing.player.spinner.asked
          × ((behind : List Double) × (concat blocks ≡ f.playing.player.played ++ behind))
    unfolding play
    feeding-played buf size p blocks turns b e full all few =
        let (f, r, v, o) =
          run_feeding-Feeds D p.gain p.spinner.num_cores p.spinner.asked size blocks turns
            (record { playing = begin_playing buf size p; pending = blocks }) few
            (record {
              follows = play-Follows D buf size p b e full;
              sized = refl;
              pending_sized = all;
              fed = refl;
            })
            (play-IsSounding D buf size p e) in
        let (rest, said, few_wait) = Follows-Plays f.playing v.follows in
        let (behind, split) = Fed-begins blocks f.pending f.playing.writer f.playing v.fed in
        (
          f,
          r,
          subst (λ n. Plays n f.playing) v.sized (rest, said, few_wait),
          o.asked_is,
          (
            rest ++ concat behind,
            ap concat split
                ∙ concat-append f.playing.sent behind
                ∙ ap (λ l. l ++ concat behind) said
                ∙ append_assoc f.playing.player.played rest (concat behind),
          ),
        )
