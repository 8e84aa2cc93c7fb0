-- ===== src/BitbangPlayer.antt =====
-- bitbang_player.h and bitbang_player.c: an audio player whose timer takes a sample a tick from a
-- ping-pong buffer and sets how many processor cores are busy. A tick is one step: what it does with
-- the buffer, each call under the buffer's lock, is not cut by a step of the writer.
pub mod Playing
pub mod Boundary
pub mod Follows
pub mod Played
pub mod Stall
pub mod Feeding
pub mod Fed
pub mod Audible
pub mod Unset
pub mod Sounding
pub mod Handed
pub mod Tests
use psplay.Base.{
  ℕ, ◌+◌, Bool, true, false, ◌==◌, ltb, if◌then◌else◌, Option, none, some, ◌>>=◌, List, [], ◌∷◌,
  ◌++◌, get_elem?,
}
use psplay.Base.Int.{ℤ, pos, negsuc}
use psplay.Utils.{Timespec}
use psplay.Ftimer.{Ftimer, create, exit, run_async, run_rt}
use psplay.CpuSpinner.{Spinner, spin, n_cores_active}
use psplay.PingPong.{
  Side, PpBuf, pair_at, read_available, read_begin, read_done_set, read_done_turn,
}

-- BITBANG_PLAYER_STATE_STOPPED, _PLAYING, _STOPPING and _STALLED
pub data PlayState : Type 0 where
  stopped playing stopping stalled : PlayState

-- CPU_SPINNER_ALL_CORES_IDLE
abbrev pub all_cores_idle : ℕ
all_cores_idle = 0

-- `if (ncores < 0) ncores = 0;`
abbrev pub at_least_0 : ℤ → ℕ
at_least_0 (pos n) = n
at_least_0 (negsuc n) = 0

-- A player with a block to play no longer waits for one.
abbrev pub resume : PlayState → PlayState
resume stalled = playing
resume playing = playing
resume stopping = stopping
resume stopped = stopped

-- The machine's arithmetic on doubles: `*`, `+` and `/`, 1.0 and 2.0, the conversion of an int, and `round`
-- with the conversion to an int.
pub record Doubles (Double : Type 0) : Type 0 where
  pub times : Double → Double → Double
  pub plus : Double → Double → Double
  pub over : Double → Double → Double
  pub one : Double
  pub two : Double
  pub of_int : ℕ → Double
  pub round : Double → ℤ

module _ (Double : Type 0) where
  -- `bitbang_player_t` and what it points to; `buf` is the side of the buffer it points to, `none` for
  -- NULL. `played` is a history: the samples that a core set was asked for.
  pub record Player : Type 0 where
    pub spinner : Spinner
    pub sampling_interval : Timespec
    pub ppbuf : PpBuf (List Double)
    pub state : PlayState
    pub buf : Option Side
    pub index : ℕ
    pub size : ℕ
    pub gain : Double
    pub timer : Ftimer
    pub played : List Double

module _ {Double : Type 0} where
  -- `p` is the memory that the call gets; the timer and the buffer are not set yet.
  unfoldable pub init : Spinner → Timespec → Double → Player Double → Player Double
  init spinner sampling_interval gain p = record p {
    spinner = spinner;
    sampling_interval = sampling_interval;
    state = stopped;
    gain = gain;
  }

  -- `size` is the size of a buffer of `ppbuf` over that of a double.
  unfoldable pub play : PpBuf (List Double) → ℕ → Player Double → Player Double
  play ppbuf size p = record p {
    ppbuf = ppbuf;
    state = stalled;
    size = size;
    index = size;
    timer = create (run_async + run_rt) p.sampling_interval true;
  }

  unfoldable pub begin_stop : PlayState → Player Double → Player Double
  begin_stop stalled p = record p { state = stopping; timer = exit p.timer }
  begin_stop playing p = record p { state = stopping; timer = exit p.timer }
  begin_stop stopping p = p
  begin_stop stopped p = p

  -- `bitbang_player_stop`, up to the join of the timer's thread.
  unfoldable pub stop : Player Double → Player Double
  stop p = begin_stop p.state p

  -- `if (bbp->buf != NULL)`
  abbrev pub released : Option Side → Player Double → Player Double
  released none p = p
  released (some side) p = record p { ppbuf = read_done_turn (read_done_set p.ppbuf); buf = none }

  unfoldable pub release : Player Double → Player Double
  release p = released p.buf p

  -- With no block to read.
  unfoldable pub run_dry : PlayState → Player Double → Player Double
  run_dry stopping p = record p {
    state = stopped;
    spinner = spin p.spinner all_cores_idle;
    timer = exit p.timer;
  }
  run_dry playing p = record p { state = stalled; spinner = spin p.spinner all_cores_idle }
  run_dry stalled p = p
  run_dry stopped p = p

  unfoldable pub fetch : Player Double → Player Double
  fetch p =
      let begun : Player Double = record p {
        buf = read_begin p.ppbuf;
        index = 0;
        state = resume p.state;
      } in
      if read_available p.ppbuf then begun else run_dry p.state p

  module _ (D : Doubles Double) where
    -- `round((sample * gain + 1.0) * num_cores / 2.0)`
    unfoldable pub ncores_of : Double → Double → ℕ → ℤ
    ncores_of sample gain num_cores =
        D.round (D.over (D.times (D.plus (D.times sample gain) D.one) (D.of_int num_cores)) D.two)

    -- `none` is an access through NULL or out of bounds, or a shift by 64 bits or more.
    unfoldable pub emit : Player Double → Option (Player Double)
    emit p =
        let sounded : Option (Player Double) = p.buf >>= λ side.
        get_elem? (pair_at p.ppbuf.buf side) p.index >>= λ sample.
        n_cores_active (at_least_0 (ncores_of sample p.gain p.spinner.num_cores)) >>= λ cores.
        some (record p {
          spinner = spin p.spinner cores;
          index = p.index + 1;
          played = p.played ++ sample ∷ [];
        }) in
        if ltb p.index p.size then sounded else some p

    -- `tick_cb_func`
    unfoldable pub tick_cb_func : Player Double → Option (Player Double)
    tick_cb_func p = emit (if p.size == p.index then fetch (release p) else p)
