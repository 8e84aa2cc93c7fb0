-- ===== src/BitbangPlayer/Unset.antt =====
-- The player (bitbang_player.c) where `bbp->buf` is not NULL when it starts: neither
-- `bitbang_player_init` nor `bitbang_player_play` sets it.
use psplay.Base.{
  ℕ, suc, ◌<◌, ◌≡◌, refl, arith, true, ◌==◌, if◌then◌else◌, Option, none, some, ◌>>=◌, List, [],
  ◌∷◌, ◌++◌, ap, ◌∙◌,
}
use psplay.CpuSpinner.{n_cores_active}
use psplay.CpuSpinner.Edges.{spin-asked}
use psplay.CpuSpinner.Cores.{n_cores_active_lem}
use psplay.PingPong
use psplay.PingPong.{
  active, Side, side_0, side_1, Pair, PpBuf, read_available, read_begin, get_state, set_state,
  read_done_set, read_done_turn, write_begin, write_done_set, write_done_turn,
}
use psplay.PingPong.System.{outside, step_writer}
use psplay.BitbangPlayer.{
  Doubles, Player, playing, at_least_0, ncores_of, play, released, release, run_dry, fetch, emit,
  tick_cb_func,
}
use psplay.BitbangPlayer.Playing.{Playing, begin_playing, run}
use psplay.BitbangPlayer.Boundary.{with_player}
use psplay.BitbangPlayer.Played.{emit_sample}
use psplay.BitbangPlayer.Stall.{fetch_dry, emit_none}

module _ {Double : Type 0} where
  -- A block is handed over in four steps of the writer.
  abbrev pub hand_over : List Double → List (Option (List Double)) → List (Option (List Double))
  hand_over a turns = some a ∷ some a ∷ some a ∷ some a ∷ turns

  -- The player that starts with a pointer, and after its first tick.
  abbrev pub unset : Pair (List Double) → ℕ → Player Double → Side → Playing Double
  unset buf size p side = begin_playing buf size (record p { buf = some side })

  abbrev ticked : Pair (List Double) → ℕ → Player Double → Side → Player Double
  ticked buf size p side = released (some side) (unset buf size p side).player

  -- The player after two blocks are handed over.
  abbrev handed :
      Pair (List Double) → ℕ → Player Double → Side → List Double → List Double → Playing Double
  handed buf size p side a b = record {
    player = record (ticked buf size p side) {
      ppbuf = record {
        buf = record { at_0 = a; at_1 = b };
        buf_state = record { at_0 = active; at_1 = active };
        buf_readi = side_1;
        buf_writei = side_0;
      };
    };
    writer = outside;
    sent = a ∷ b ∷ [];
  }

module _ {Double : Type 0} (D : Doubles Double) where
  first_tick :
      (buf : Pair (List Double)) (size : ℕ) (p : Player Double) (side : Side)
      → tick_cb_func D (unset buf size p side).player ≡ some (ticked buf size p side)
  unfolding tick_cb_func play PingPong.init release run_dry read_available get_state read_done_turn
      read_done_set set_state
  first_tick buf size p side =
      let at_end : (size == size) ≡ true = ground arith in
      ap
        (λ b. emit D (if b then fetch (ticked buf size p side) else (unset buf size p side).player))
        at_end
      ∙ ap (emit D) (fetch_dry (ticked buf size p side) refl)
      ∙ emit_none D (ticked buf size p side) refl

  hand_over-handed :
      (buf : Pair (List Double)) (size : ℕ) (p : Player Double) (side : Side) (a b : List Double)
      (turns : List (Option (List Double)))
      → run D
          (hand_over a (hand_over b turns))
          (record (unset buf size p side) { player = ticked buf size p side })
        ≡ run D turns (handed buf size p side a b)
  unfolding run play PingPong.init read_done_turn read_done_set set_state step_writer write_begin
      get_state write_done_set write_done_turn
  hand_over-handed buf size p side a b turns = refl

  second_tick :
      (buf : Pair (List Double)) (size : ℕ) (p : Player Double) (side : Side) (a b : List Double)
      (x : Double)
      → at_least_0 (ncores_of D x p.gain p.spinner.num_cores) < 64
      → (q : Player Double) × (tick_cb_func D (handed buf (suc size) p side a (x ∷ b)).player
          ≡ some q)
        × (q.played ≡ p.played ++ x ∷ [])
        × ((cores : ℕ) × (n_cores_active (at_least_0 (ncores_of D x p.gain p.spinner.num_cores))
              ≡ some cores)
            × (q.spinner.asked ≡ p.spinner.asked ++ cores ∷ []))
  unfolding tick_cb_func play release fetch read_available get_state read_begin
  second_tick buf size p side a b x few =
      let h = (handed buf (suc size) p side a (x ∷ b)).player in
      let begun : Player Double = record h { buf = some side_1; index = 0; state = playing } in
      let asked = at_least_0 (ncores_of D x p.gain p.spinner.num_cores) in
      let (cores, c, on) = n_cores_active_lem asked few in
      let at_end : (suc size == suc size) ≡ true = ground arith in
      (
        _,
        ap (λ t. emit D (if t then fetch (release h) else h)) at_end
            ∙ emit_sample D begun side_1 x cores (omega arith) refl refl c,
        refl,
        (cores, c, (spin-asked p.spinner cores).0),
      )

  -- If `bbp->buf` is any pointer but NULL when the player starts, its first tick, with nothing written
  -- yet, gives back a buffer that it never had: of the first two blocks handed over then, it plays the
  -- second one first, where that block's first sample asks for fewer than 64 cores; the spinner has been
  -- asked for the cores of that sample, and for no others.
  pub run-swapped :
      (buf : Pair (List Double)) (size : ℕ) (p : Player Double) (side : Side) (a b : List Double)
      (x : Double)
      → at_least_0 (ncores_of D x p.gain p.spinner.num_cores) < 64
      → (s : Playing Double) × (run D
            (none ∷ hand_over a (hand_over (x ∷ b) (none ∷ [])))
            (unset buf (suc size) p side)
          ≡ some s)
        × (s.sent ≡ a ∷ (x ∷ b) ∷ [])
        × (s.player.played ≡ p.played ++ x ∷ [])
        × ((cores : ℕ) × (n_cores_active (at_least_0 (ncores_of D x p.gain p.spinner.num_cores))
              ≡ some cores)
            × (s.player.spinner.asked ≡ p.spinner.asked ++ cores ∷ []))
  run-swapped buf size p side a b x few =
      let s = unset buf (suc size) p side in
      let h = handed buf (suc size) p side a (x ∷ b) in
      let (q, t, e, sounds) = second_tick buf size p side a b x few in
      (
        with_player h q,
        unfold run in
            (ap
                (λ o.
                  o >>= λ r. run D (hand_over a (hand_over (x ∷ b) (none ∷ []))) (with_player s r))
                (first_tick buf (suc size) p side)
              ∙ hand_over-handed buf (suc size) p side a (x ∷ b) (none ∷ [])
              ∙ ap (λ o. o >>= λ r. some (with_player h r)) t),
        refl,
        e,
        sounds,
      )
