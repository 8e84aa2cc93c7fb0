-- ===== src/Utils/Tests.antt =====
-- Runs of the functions of utils.h at small times and numbers.
use psplay.Base.{◌≡◌, refl, some}
use psplay.Utils.{Timespec, timespec_diff, log2_loop, log2_int}

abbrev early : Timespec
early = record { tv_sec = 3; tv_nsec = 999999999 }

abbrev late : Timespec
late = record { tv_sec = 5; tv_nsec = 1 }

borrow_run : timespec_diff early late ≡ record { tv_sec = 1; tv_nsec = 2 }
unfolding timespec_diff
borrow_run = refl

log2_run : log2_int 64 ≡ some 6
unfolding log2_int log2_loop
log2_run = refl
