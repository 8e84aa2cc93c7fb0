-- ===== src/Ftimer.antt =====
-- ftimer.h and ftimer.c: what a timer's owner does to it. Here the worker thread is seen only in what
-- the owner waits for, that it has parked and that it has counted a tick; Threads has both threads.
pub mod Threads
pub mod Portable
pub mod Catching
pub mod Sound
pub mod Handshake
pub mod Counted
pub mod Shutdown
pub mod Tests
use psplay.Base.{
  ℕ, ◌+◌, ◌-◌, Bool, true, false, not, ◌&&◌, ◌==◌, ltb, ◌%◌, ◌^◌, if◌then◌else◌, bit_and,
}
use psplay.Utils.{Timespec}

abbrev pub start_paused : ℕ
start_paused = 1

abbrev pub compensate_misses : ℕ
compensate_misses = 2

abbrev pub run_async : ℕ
run_async = 4

abbrev pub run_rt : ℕ
run_rt = 8

-- `ftimer_t`, without its locks and its thread. `cb` is whether there is a callback, that is, whether it is
-- not NULL; `outstanding_ticks`, an int, is its word of 32 bits.
pub record Ftimer : Type 0 where
  pub flags : ℕ
  pub interval : Timespec
  pub cb : Bool
  pub paused : Bool
  pub pausing : Bool
  pub exiting : Bool
  pub outstanding_ticks : ℕ

unfoldable pub create : ℕ → Timespec → Bool → Ftimer
create flags interval cb = record {
  flags = flags;
  interval = interval;
  cb = cb;
  paused = false;
  pausing = not (bit_and flags start_paused == 0);
  exiting = false;
  outstanding_ticks = 0;
}

-- With `wait_for_paused` the call returns once the worker has parked.
unfoldable pub pause : Bool → Ftimer → Ftimer
pause wait_for_paused t =
    let asked : Ftimer = record t { pausing = true } in
    if wait_for_paused then record asked { paused = true } else asked

unfoldable pub unpause : Ftimer → Ftimer
unpause t = record t { pausing = false }

-- The worker counts a tick; past the largest int the word goes on to the negative ones.
unfoldable pub tick : Ftimer → Ftimer
tick t = record t { outstanding_ticks = (t.outstanding_ticks + 1) % 2 ^ 32 }

-- Whether a word is that of an int above 0.
abbrev pub is_positive : ℕ → Bool
is_positive n = ltb 0 n && ltb n (2 ^ 31)

-- Where the owner would sleep, the worker ticks until there is one tick.
unfoldable pub wait : Ftimer → Ftimer
wait t =
    let one_tick : Ftimer = record t { outstanding_ticks = 1 } in
    let ticked = if is_positive t.outstanding_ticks then t else one_tick in
    record ticked { outstanding_ticks = ticked.outstanding_ticks - 1 }

unfoldable pub exit : Ftimer → Ftimer
exit t = let going = unpause t in record going { exiting = true }
