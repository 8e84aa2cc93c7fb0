-- ===== src/Ftimer/Tests.antt =====
-- Tests of the two threads of a timer, and instances of their theorems.
use psplay.Base.{◌*◌, some, ◌≡◌, refl, arith, true, false, if◌then◌else◌, ◌+◌, ap, List, [], ◌∷◌}
use psplay.Ftimer.{create, tick, exit, unpause}
use psplay.Utils.{Timespec}
use psplay.Utils.Time.{in_ns}
use psplay.Ftimer.Portable.{Portable, create_portable, passes}
use psplay.Ftimer.Catching.{made_at, due, passes_lem}
use psplay.Ftimer.Threads.{
  returned, ready, holding, Threads, start, go_on, worker_turn, pause, wait_for_tick, destroy,
  begin, owner_turn, Turn, worker_acts, owner_acts, take_turn, run,
}
use psplay.Ftimer.Handshake.{run-held}
use psplay.Ftimer.Counted.{uncounted, run-counted}
use psplay.Ftimer.Shutdown.{before_join, run-stuck}

abbrev interval : Timespec
interval = record { tv_sec = 0; tv_nsec = 20833 }

abbrev works : Turn
works = worker_acts 1 false

-- A tick, a pause that is asked for while the worker calls back, and the worker parks.
abbrev pausing_turns : List Turn
pausing_turns =
    works ∷ works ∷ owner_acts (pause true) ∷ works ∷ works ∷ works ∷ owner_acts (pause true) ∷ []

-- A tick, and another whose callback ends the timer.
abbrev ending_turns : List Turn
ending_turns =
    works ∷ works ∷ works ∷ works ∷ works ∷ works ∷ worker_acts 1 true ∷ works ∷ works ∷ []

-- The owner destroys the timer while the worker is in `read`.
abbrev destroying_turns : List Turn
destroying_turns = works ∷ owner_acts destroy ∷ owner_acts destroy ∷ []

pausing_owner : (run pausing_turns (start 4 interval true)).owner ≡ holding
unfolding run worker_turn owner_turn go_on begin create tick
pausing_owner = refl

pausing_called : (run pausing_turns (start 4 interval true)).seen.calls ≡ 1
unfolding run worker_turn owner_turn go_on begin create tick
pausing_called = refl

ending_worker : (run ending_turns (start 4 interval true)).worker ≡ returned
unfolding run worker_turn go_on create tick exit unpause
ending_worker = refl

ending_owner : (run ending_turns (start 4 interval true)).owner ≡ ready
unfolding run worker_turn go_on create tick exit unpause
ending_owner = refl

run-held_example :
    take_turn (worker_acts 3 true) (run pausing_turns (start 4 interval true))
    ≡ run pausing_turns (start 4 interval true)
run-held_example = run-held 4 interval true pausing_turns pausing_owner 3 true

-- A symbol timer: it has no callback, and its owner waits for a tick.
abbrev waiting_turns : List Turn
waiting_turns =
    works
    ∷ works
    ∷ works
    ∷ works
    ∷ owner_acts wait_for_tick
    ∷ works
    ∷ worker_acts 2 false
    ∷ works
    ∷ []

abbrev waited : Threads
waited = run waiting_turns (start 4 interval false)

waited_rounds : waited.seen.rounds ≡ 2
unfolding run worker_turn owner_turn go_on begin create tick
waited_rounds = refl

run-counted_example :
    (waited.seen.rounds ≡ waited.timer.outstanding_ticks + waited.waited + uncounted waited.worker)
    × (waited.seen.calls ≡ (if waited.timer.cb then waited.seen.rounds else 0))
run-counted_example = run-counted 4 interval false waiting_turns (rw waited_rounds (omega arith))

run-stuck_example :
    (run
      (owner_acts destroy ∷ works ∷ owner_acts destroy ∷ [])
      (run ending_turns (start 4 interval true))).owner
    ≡ (run ending_turns (start 4 interval true)).owner
run-stuck_example =
    run-stuck 4 interval true ending_turns ending_worker (ap before_join ending_owner)
      (owner_acts destroy ∷ works ∷ owner_acts destroy ∷ [])

abbrev six_turns : List Turn
six_turns = works ∷ worker_acts 2 false ∷ works ∷ works ∷ works ∷ works ∷ []

-- The clock, 5 microseconds behind the start, and 100: two intervals have been missed.
abbrev readings : List Timespec
readings = record { tv_sec = 0; tv_nsec = 6000 } ∷ record { tv_sec = 0; tv_nsec = 101000 } ∷ []

abbrev portable : Portable
portable = create_portable 4 interval true (record { tv_sec = 0; tv_nsec = 1000 })

passes_lem_example :
    (p : Portable) × (passes 1 readings portable ≡ some p)
    × (made_at p.calls ≡ due 1000 20833 readings)
    × (in_ns p.last_tick ≡ 1000 + 2 * 20833)
    × (p.timer.outstanding_ticks ≡ 2)
unfolding create
passes_lem_example =
    passes_lem readings 0 portable ((omega arith, omega arith), ((omega arith, omega arith), tt))
      (omega arith)
