-- ===== src/SimpleToneGen/Tests.antt =====
-- The theorems about simple_tone_gen.c for a chirp of two steps.
use psplay.Base.{ℕ, ◌≡◌, refl, false, List, [], ◌∷◌}
use psplay.Utils.{Timespec}
use psplay.Utils.Time.{in_ns}
use psplay.SimpleToneGen.{SimpleToneGen, Reading}
use psplay.SimpleToneGen.Steps.{planned}

abbrev quiet : SimpleToneGen ℕ
quiet = record {
  spinner = record { num_cores = 4; active_cores = 0; broadcasts = 0; asked = [] };
  last_step_time = record { tv_sec = 0; tv_nsec = 0 };
  step_duration = record { tv_sec = 0; tv_nsec = 0 };
  status = false;
  played = [];
}

abbrev at_time : ℕ → ℕ → Timespec
at_time sec nsec = record { tv_sec = sec; tv_nsec = nsec }

-- The second reading is a millisecond late.
abbrev two_rounds : List Reading
two_rounds =
    record { now = at_time 5 0; ticks = 3 } ∷ record { now = at_time 5 21000000; ticks = 2 } ∷ []

planned-late : planned (in_ns (at_time 5 0)) 20000000 two_rounds ≡ 20000000 ∷ 19000000 ∷ []
planned-late = refl
