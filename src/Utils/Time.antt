-- ===== src/Utils/Time.antt =====
-- The time arithmetic of utils.h against nanoseconds.
use psplay.Base.{ℕ, ◌+◌, ◌-◌, ◌*◌, ◌<◌, ◌≡◌, arith, ltb, if◌then◌else◌}
use psplay.Base.Int.{ℤ, pos, negsuc}
use psplay.Utils.{giga, Timespec, timespec_diff, timespec_step, timespec_cmp, ns_to_timespec}

abbrev pub in_ns : Timespec → ℕ
in_ns t = t.tv_sec * giga + t.tv_nsec

abbrev pub IsNormal : Timespec → Type 0
IsNormal t = t.tv_nsec < giga

-- Of two normal times, `timespec_diff` leaves the normal time between them in nanoseconds, and zero
-- where the second is not the later one.
pub timespec_diff_lem :
    (a b : Timespec)
    → IsNormal a
    → IsNormal b
    → IsNormal (timespec_diff a b) × (in_ns (timespec_diff a b) ≡ in_ns b - in_ns a)
unfolding timespec_diff
timespec_diff_lem a b na nb = ground arith

-- `timespec_step` adds two times in nanoseconds, and its result is normal.
pub timespec_step_lem :
    (a b : Timespec)
    → IsNormal (timespec_step a b) × (in_ns (timespec_step a b) ≡ in_ns a + in_ns b)
unfolding timespec_step
timespec_step_lem a b = omega arith

-- `ns_to_timespec` gives a normal time of that many nanoseconds.
pub ns_to_timespec_lem : (ns : ℕ) → IsNormal (ns_to_timespec ns) × (in_ns (ns_to_timespec ns) ≡ ns)
unfolding ns_to_timespec
ns_to_timespec_lem ns = omega arith

-- The sign of the difference of two numbers.
abbrev pub order : ℕ → ℕ → ℤ
order a b = if ltb b a then pos 1 else if ltb a b then negsuc 0 else pos 0

-- Of two normal times, `timespec_cmp` gives the order of their nanoseconds: 1, 0 or -1.
pub timespec_cmp_lem :
    (a b : Timespec) → IsNormal a → IsNormal b → timespec_cmp a b ≡ order (in_ns a) (in_ns b)
unfolding timespec_cmp
timespec_cmp_lem a b na nb = ground arith
