-- ===== src/Ftimer/Portable.antt =====
-- The loop of `ftimer_run` (ftimer.c) outside Linux, with its own clock. What the clock reads is part of the
-- input; a sleep lasts as long as asked for, and the callback takes no time.
use psplay.Base.{
  ℕ, zero, suc, Bool, true, false, if◌then◌else◌, Option, none, some, ◌>>=◌, List, [], ◌∷◌, ◌++◌,
}
use psplay.Base.Int.{pos, ltb_ℤ}
use psplay.Utils.{Timespec, timespec_diff, timespec_step, timespec_cmp}
use psplay.Ftimer.{Ftimer, create, tick}
use psplay.Ftimer.Threads.{compensates}

-- A call of `cb`: what the clock read before it, and the sleep after that.
pub record Callback : Type 0 where
  pub now : Timespec
  pub slept : Timespec

-- `ftimer_t`; `calls` is a history.
pub record Portable : Type 0 where
  pub timer : Ftimer
  pub last_tick : Timespec
  pub calls : List Callback

abbrev pub create_portable : ℕ → Timespec → Bool → Timespec → Portable
create_portable flags interval cb now = record {
  timer = create flags interval cb;
  last_tick = now;
  calls = [];
}

-- The inner `while`, on fuel, with `last_tick` and `diff`.
unfoldable pub catch_up :
    ℕ → Timespec → Timespec → Timespec × Timespec → Option (Timespec × Timespec)
catch_up zero interval now (last, diff) = none
catch_up (suc fuel) interval now (last, diff) =
    let next = timespec_step last interval in
    let rest = catch_up fuel interval now (next, timespec_diff now next) in
    if ltb_ℤ (pos 0) (timespec_cmp now (record { tv_sec = 0; tv_nsec = 0 }))
    then some (last, diff)
    else rest

abbrev pub or_catch_up :
    Bool → ℕ → Timespec → Timespec → Timespec × Timespec → Option (Timespec × Timespec)
or_catch_up true fuel interval now due = some due
or_catch_up false fuel interval now due = catch_up fuel interval now due

-- `if (ftimer->cb != NULL) ftimer->cb(ftimer->cb_args);`
abbrev pub called_back : Bool → Callback → List Callback → List Callback
called_back true c calls = calls ++ c ∷ []
called_back false c calls = calls

-- What the loop does behind its checks of `pausing` and `exiting`.
unfoldable pub pass : ℕ → Timespec → Portable → Option Portable
pass fuel now p = do
  let last = timespec_step p.last_tick p.timer.interval
  (last', diff) ←
      or_catch_up (compensates p.timer) fuel p.timer.interval now (last, timespec_diff now last)
  some (record p {
    timer = tick p.timer;
    last_tick = last';
    calls = called_back p.timer.cb (record { now = now; slept = diff }) p.calls;
  })

unfoldable pub passes : ℕ → List Timespec → Portable → Option Portable
passes fuel [] p = some p
passes fuel (now ∷ readings) p = pass fuel now p >>= λ p'. passes fuel readings p'
