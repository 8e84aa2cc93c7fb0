-- ===== src/Utils/Units.antt =====
-- The conversions of utils.h between nanoseconds and microseconds, and its warning about the priority.
use psplay.Base.{ℕ, ◌+◌, ◌*◌, ◌<◌, ◌≤◌, ◌≡◌, refl, arith, if◌then◌else◌, List, [], ◌∷◌}
use psplay.Utils.{
  mega, Timespec, Timeval, us_to_timeval, timespec_to_timeval, timeval_to_timespec, Priority,
  thread_set_priority_to_max,
}
use psplay.Utils.Time.{in_ns, IsNormal}

abbrev in_us : Timeval → ℕ
in_us t = t.tv_sec * mega + t.tv_usec

-- A number of microseconds keeps its value, with less than a second of them behind the seconds.
us_to_timeval_lem : (us : ℕ) → (in_us (us_to_timeval us) ≡ us) × ((us_to_timeval us).tv_usec < mega)
unfolding us_to_timeval
us_to_timeval_lem us = (omega arith, omega arith)

-- To nanoseconds and back nothing is lost.
timespec_to_timeval-timeval_to_timespec :
    (a : Timeval)
    → ((timespec_to_timeval (timeval_to_timespec a)).tv_sec ≡ a.tv_sec)
      × ((timespec_to_timeval (timeval_to_timespec a)).tv_usec ≡ a.tv_usec)
unfolding timespec_to_timeval timeval_to_timespec
timespec_to_timeval-timeval_to_timespec a = (refl, omega arith)

-- To microseconds and back less than a microsecond is lost, and a normal time stays one.
timeval_to_timespec-timespec_to_timeval :
    (a : Timespec)
    → IsNormal a
    → IsNormal (timeval_to_timespec (timespec_to_timeval a))
      × (in_ns (timeval_to_timespec (timespec_to_timeval a)) ≤ in_ns a)
      × (in_ns a < in_ns (timeval_to_timespec (timespec_to_timeval a)) + 1000)
unfolding timespec_to_timeval timeval_to_timespec
timeval_to_timespec-timespec_to_timeval a n = (omega arith, omega arith, omega arith)

-- The calls in turn, with what each meets.
abbrev set_all : List ℕ → Priority → Priority
set_all [] p = p
set_all (ret ∷ rets) p = set_all rets (thread_set_priority_to_max ret p)

-- However many calls fail, one warning is shown at most.
set_all-once :
    (rets : List ℕ) (p : Priority)
    → p.warnings ≡ (if p.warning_shown then 1 else 0)
    → (set_all rets p).warnings ≡ (if (set_all rets p).warning_shown then 1 else 0)
unfolding thread_set_priority_to_max
set_all-once [] p h = h
set_all-once (ret ∷ rets) p h = set_all-once rets (thread_set_priority_to_max ret p) (ground arith)
