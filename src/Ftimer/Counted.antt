-- ===== src/Ftimer/Counted.antt =====
-- What becomes of a timer's ticks (ftimer.c) in every order of the turns of its two threads.
use psplay.Base.{
  ℕ, zero, suc, ◌+◌, ◌<◌, ◌^◌, ◌≡◌, refl, arith, Bool, true, false, if◌then◌else◌, List, [], ◌∷◌,
}
use psplay.Ftimer.{Ftimer, create, tick, exit, unpause}
use psplay.Utils.{Timespec}
use psplay.Ftimer.Threads.{
  WorkerAt, top, parked, reading, calling, counting, returned, OwnerAt, ready, awaiting_park,
  holding, leaving, joining, gone, Seen, Threads, start, go_on, next_call, compensates, worker_turn,
  Call, pause, unpause_it, wait_for_tick, destroy, begin, owner_turn, Turn, worker_acts, owner_acts,
  take_turn, run,
}
use psplay.Ftimer.Sound.{threads}

-- A round whose tick is not yet counted.
abbrev pub uncounted : WorkerAt → ℕ
uncounted top = 0
uncounted parked = 0
uncounted reading = 0
uncounted (calling k) = 0
uncounted (counting k) = 1
uncounted returned = 0

-- The rounds are the ticks, and each has called back if there is a callback.
abbrev Tallies : Threads → Type 0
Tallies s =
    (s.seen.rounds < 2 ^ 31
      → s.seen.rounds ≡ s.timer.outstanding_ticks + s.waited + uncounted s.worker)
    × (s.seen.calls ≡ (if s.timer.cb then s.seen.rounds else 0))

uncounted-next : (b : Bool) (k : ℕ) → uncounted (next_call b k) ≡ 0
uncounted-next true k = refl
uncounted-next false zero = refl
uncounted-next false (suc k) = refl

by_worker :
    (expirations : ℕ) (ends : Bool) (t : Ftimer) (l : Bool) (w : WorkerAt) (o : OwnerAt) (c : Seen)
    (n : ℕ)
    → Tallies (threads t l w o c n)
    → Tallies (worker_turn expirations ends w (threads t l w o c n))
unfolding worker_turn go_on exit unpause tick
by_worker e ends t l top o c n (v, b) = (λ h. ground (arith, v), ground arith)
by_worker e ends t l parked o c n (v, b) = (λ h. ground (arith, v), ground arith)
by_worker zero ends t l reading o c n v = v
by_worker (suc e) ends t l reading o c n v = v
by_worker e ends t l (calling k) o c n (v, b) =
    (λ h. let below : c.rounds < 2 ^ 31 = omega arith in ground (arith, v below), ground arith)
by_worker e ends t l (counting k) o c n (v, b) =
    (λ h. omega (arith, v h, uncounted-next (compensates t) k), b)
by_worker e ends t l returned o c n v = v

by_begin :
    (call : Call) (back : OwnerAt) (t : Ftimer) (l : Bool) (w : WorkerAt) (o : OwnerAt) (c : Seen)
    (n : ℕ)
    → Tallies (threads t l w o c n)
    → Tallies (begin call back (threads t l w o c n))
unfolding begin unpause
by_begin (pause b) back t true w o c n v = v
by_begin (pause b) back t false w o c n v = v
by_begin unpause_it back t true w o c n v = v
by_begin unpause_it back t false w o c n v = v
by_begin destroy back t true w o c n v = v
by_begin destroy back t false w o c n v = v
by_begin wait_for_tick back t l w o c n (v, b) = (λ h. ground (arith, v), ground arith)

by_owner :
    (call : Call) (t : Ftimer) (l : Bool) (w : WorkerAt) (o : OwnerAt) (c : Seen) (n : ℕ)
    → Tallies (threads t l w o c n)
    → Tallies (owner_turn call o (threads t l w o c n))
unfolding owner_turn
by_owner call t l w ready c n v = by_begin call ready t l w ready c n v
by_owner call t l w holding c n v = by_begin call holding t l w holding c n v
by_owner call t l w awaiting_park c n (v, b) = (λ h. ground (arith, v), ground arith)
by_owner call t true w leaving c n v = v
by_owner call t false w leaving c n v = v
by_owner call t l w joining c n (v, b) = (λ h. ground (arith, v), ground arith)
by_owner call t l w gone c n v = v

run-Tallies : (turns : List Turn) (s : Threads) → Tallies s → Tallies (run turns s)
unfolding run
run-Tallies [] s v = v
run-Tallies (worker_acts e ends ∷ turns) s v =
    run-Tallies turns (take_turn (worker_acts e ends) s)
      (by_worker e ends s.timer s.locked s.worker s.owner s.seen s.waited v)
run-Tallies (owner_acts call ∷ turns) s v =
    run-Tallies turns (take_turn (owner_acts call) s)
      (by_owner call s.timer s.locked s.worker s.owner s.seen s.waited v)

start-Tallies : (flags : ℕ) (interval : Timespec) (cb : Bool) → Tallies (start flags interval cb)
unfolding create
start-Tallies flags interval true = (λ h. refl, refl)
start-Tallies flags interval false = (λ h. refl, refl)

-- In every order of the turns, with fewer than 2 ^ 31 rounds of the loop over the expirations: these are
-- the ticks that `ftimer_wait` has taken, the ticks that are outstanding, and one more while the worker
-- has not counted the round it is in; and each round has called back if the timer has a callback, and
-- none if it has not.
pub run-counted :
    (flags : ℕ) (interval : Timespec) (cb : Bool) (turns : List Turn)
    → (run turns (start flags interval cb)).seen.rounds < 2 ^ 31
    → ((run turns (start flags interval cb)).seen.rounds
        ≡ (run turns (start flags interval cb)).timer.outstanding_ticks
          + (run turns (start flags interval cb)).waited
          + uncounted (run turns (start flags interval cb)).worker)
      × ((run turns (start flags interval cb)).seen.calls ≡ (
          if (run turns (start flags interval cb)).timer.cb
          then (run turns (start flags interval cb)).seen.rounds
          else 0))
run-counted flags interval cb turns few =
    let (ticks, calls) =
      run-Tallies turns (start flags interval cb) (start-Tallies flags interval cb) in
    (ticks few, calls)
