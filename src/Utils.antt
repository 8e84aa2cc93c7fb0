-- ===== src/Utils.antt =====
-- utils.h: points in time as seconds and nanoseconds, or microseconds, the base-2 logarithm, and the
-- warning about the priority.
pub mod Time
pub mod Units
pub mod Log
pub mod Tests
use psplay.Base.{
  ℕ, zero, suc, ◌+◌, ◌*◌, ◌/◌, ◌%◌, Bool, true, false, ◌&&◌, not, ltb, ◌==◌, if◌then◌else◌, Option,
  none, some, ◌>>>◌,
}
use psplay.Base.Int.{ℤ, pos, negsuc, ◌+ℤ◌, ◌-ℤ◌, ltb_ℤ, eqb_ℤ, pos_part}
use mathlib.Core.Bool.{◌||◌}

abbrev pub giga : ℕ
giga = 1000000000

-- `struct timespec`. The code keeps no time before the clock's zero, and no clock reaches the end
-- of `long`, so both fields are natural numbers; only `timespec_diff` goes below 0 on its way.
pub record Timespec : Type 0 where
  pub tv_sec : ℕ
  pub tv_nsec : ℕ

-- `a = b - a`
pub timespec_diff : Timespec → Timespec → Timespec
timespec_diff a b =
    let sec : ℤ = pos b.tv_sec -ℤ pos a.tv_sec in
    let nsec : ℤ = pos b.tv_nsec -ℤ pos a.tv_nsec in
    if ltb_ℤ sec (pos 0)
    then record { tv_sec = 0; tv_nsec = 0 }
    else if ltb_ℤ nsec (pos 0)
    then (if eqb_ℤ sec (pos 0)
        then record { tv_sec = 0; tv_nsec = 0 }
        else record { tv_sec = pos_part (sec -ℤ pos 1); tv_nsec = pos_part (nsec +ℤ pos giga) })
    else record { tv_sec = pos_part sec; tv_nsec = pos_part nsec }

pub timespec_step : Timespec → Timespec → Timespec
timespec_step a b =
    let sec = a.tv_sec + b.tv_sec in
    let nsec = a.tv_nsec + b.tv_nsec in record { tv_sec = sec + nsec / giga; tv_nsec = nsec % giga }

unfoldable pub ns_to_timespec : ℕ → Timespec
ns_to_timespec ns = record { tv_sec = ns / giga; tv_nsec = ns % giga }

pub timespec_cmp : Timespec → Timespec → ℤ
timespec_cmp a b =
    if ltb b.tv_sec a.tv_sec || (a.tv_sec == b.tv_sec && ltb b.tv_nsec a.tv_nsec)
    then pos 1
    else if a.tv_sec == b.tv_sec && a.tv_nsec == b.tv_nsec
    then pos 0
    else negsuc 0

abbrev pub mega : ℕ
mega = 1000000

-- `struct timeval`
pub record Timeval : Type 0 where
  pub tv_sec : ℕ
  pub tv_usec : ℕ

pub us_to_timeval : ℕ → Timeval
us_to_timeval us = record { tv_sec = us / mega; tv_usec = us % mega }

pub timespec_to_timeval : Timespec → Timeval
timespec_to_timeval a = record { tv_sec = a.tv_sec; tv_usec = a.tv_nsec / 1000 }

pub timeval_to_timespec : Timeval → Timespec
timeval_to_timespec a = record { tv_sec = a.tv_sec; tv_nsec = a.tv_usec * 1000 }

-- The static variable of `thread_set_priority_to_max`, and as a history the warnings it has shown.
pub record Priority : Type 0 where
  pub warning_shown : Bool
  pub warnings : ℕ

-- `ret` is what `pthread_setschedparam` returns.
pub thread_set_priority_to_max : ℕ → Priority → Priority
thread_set_priority_to_max ret p =
    if not (ret == 0) && not p.warning_shown
    then record { warning_shown = true; warnings = p.warnings + 1 }
    else p

-- The loop `while (x >>= 1) y++`, with fuel for the bits of an `unsigned int`.
pub log2_loop : ℕ → ℕ → ℕ → Option ℕ
log2_loop zero x y = none
log2_loop (suc fuel) x y =
    let rest = log2_loop fuel (x >>> 1) (y + 1) in if x >>> 1 == 0 then some y else rest

pub log2_int : ℕ → Option ℕ
log2_int x = log2_loop 32 x 0
