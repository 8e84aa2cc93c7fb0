-- ===== src/BitbangPlayer/Stall.antt =====
-- The audio player (bitbang_player.c) where it has no block to read.
use psplay.Base.{
  ℕ, ◌<◌, ◌≡◌, refl, arith, Bool, true, false, ◌||◌, ◌==◌, if◌then◌else◌, Option, none, some, ap,
  ◌∙◌, sym,
}
use psplay.Base.Mask.{bit_ones-has_bit}
use psplay.Ftimer.{exit}
use psplay.CpuSpinner.{core_status, spin}
use psplay.CpuSpinner.Edges.{spin_lem}
use psplay.PingPong.{Side, read_available}
use psplay.BitbangPlayer.{
  Doubles, Player, PlayState, stopped, playing, stopping, stalled, all_cores_idle, released,
  release, run_dry, fetch, emit, tick_cb_func,
}

idle_core : (i : ℕ) → core_status all_cores_idle i ≡ false
idle_core i = ground (arith, bit_ones-has_bit 0 i)

-- The state that a tick leaves behind, and whether it puts the cores to rest.
abbrev pub dry_state : PlayState → PlayState
dry_state stopped = stopped
dry_state playing = stalled
dry_state stopping = stopped
dry_state stalled = stalled

abbrev pub puts_to_rest : PlayState → Bool
puts_to_rest stopped = false
puts_to_rest playing = true
puts_to_rest stopping = true
puts_to_rest stalled = false

abbrev pub is_stopping : PlayState → Bool
is_stopping stopped = false
is_stopping playing = false
is_stopping stopping = true
is_stopping stalled = false

module _ {Double : Type 0} where
  -- What a tick with no block to read makes of `p`.
  pub record IsDry (p p' : Player Double) : Type 0 where
    pub state_is : p'.state ≡ dry_state p.state
    pub at_rest :
        puts_to_rest p.state ≡ true
        → (i : ℕ) → i < p.spinner.num_cores
        → core_status p'.spinner.active_cores i ≡ false
    pub left_alone : puts_to_rest p.state ≡ false → p'.spinner ≡ p.spinner
    pub exiting_is : p'.timer.exiting ≡ (p.timer.exiting || is_stopping p.state)
    pub played_is : p'.played ≡ p.played
    pub ppbuf_is : p'.ppbuf ≡ p.ppbuf
    pub buf_is : p'.buf ≡ p.buf

  spun :
      (p : Player Double) (i : ℕ)
      → i < p.spinner.num_cores
      → core_status (spin p.spinner all_cores_idle).active_cores i ≡ false
  spun p i l = let (f, b, n) = spin_lem p.spinner all_cores_idle in f i l ∙ idle_core i

  run_dry-IsDry :
      (state : PlayState) (p : Player Double) → p.state ≡ state → IsDry p (run_dry state p)
  unfolding run_dry exit
  run_dry-IsDry stopped p e = ground arith
  run_dry-IsDry playing p e = record {
    state_is = sym (ap dry_state e);
    at_rest = λ h i l. spun p i l;
    left_alone = λ h. absurd (ground arith);
    exiting_is = ground arith;
    played_is = refl;
    ppbuf_is = refl;
    buf_is = refl;
  }
  run_dry-IsDry stopping p e = record {
    state_is = sym (ap dry_state e);
    at_rest = λ h i l. spun p i l;
    left_alone = λ h. absurd (ground arith);
    exiting_is = ground arith;
    played_is = refl;
    ppbuf_is = refl;
    buf_is = refl;
  }
  run_dry-IsDry stalled p e = ground arith

  run_dry-ends :
      (state : PlayState) (p : Player Double)
      → p.size ≡ p.index
      → (run_dry state p).size ≡ (run_dry state p).index
  unfolding run_dry
  run_dry-ends stopped p e = e
  run_dry-ends playing p e = e
  run_dry-ends stopping p e = e
  run_dry-ends stalled p e = e

  release-ends :
      (o : Option Side) (p : Player Double)
      → p.size ≡ p.index
      → (released o p).size ≡ (released o p).index
  release-ends none p e = e
  release-ends (some side) p e = e

  pub fetch_dry : (p : Player Double) → read_available p.ppbuf ≡ false → fetch p ≡ run_dry p.state p
  unfolding fetch
  fetch_dry p h = ground arith

  module _ (D : Doubles Double) where
    pub emit_none : (p : Player Double) → p.size ≡ p.index → emit D p ≡ some p
    unfolding emit
    emit_none p e = ground arith

    -- A tick at the end of a block, with no other to read once the block is given back: a player that
    -- plays stalls and one that stops has stopped, both with every core at rest, and one that stops
    -- tells its timer to exit; any other stays as it is. No sample is played.
    pub tick-IsDry :
        (p : Player Double)
        → p.size ≡ p.index
        → read_available (release p).ppbuf ≡ false
        → (p' : Player Double) × (tick_cb_func D p ≡ some p') × IsDry (release p) p'
    unfolding tick_cb_func
    tick-IsDry p e h =
        let q = release p in
        let dry = run_dry q.state q in
        let at_end : (p.size == p.index) ≡ true = ground arith in
        let ends : q.size ≡ q.index = unfold release in release-ends p.buf p e in
        (
          dry,
          ap (λ b. emit D (if b then fetch q else p)) at_end
              ∙ ap (emit D) (fetch_dry q h)
              ∙ emit_none dry (run_dry-ends q.state q ends),
          run_dry-IsDry q.state q refl,
        )
