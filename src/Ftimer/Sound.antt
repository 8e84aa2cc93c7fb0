-- ===== src/Ftimer/Sound.antt =====
-- What every turn of a timer's two threads (ftimer.c) keeps.
use psplay.Base.{ℕ, ◌≡◌, refl, arith, Bool, true, false, not, ◌||◌, List, [], ◌∷◌}
use psplay.Ftimer.{Ftimer, create, tick, exit, unpause}
use psplay.Utils.{Timespec}
use psplay.Ftimer.Threads.{
  WorkerAt, top, parked, reading, calling, counting, returned, Seen, OwnerAt, ready, awaiting_park,
  holding, leaving, joining, gone, Threads, start, go_on, worker_turn, Call, pause, unpause_it,
  wait_for_tick, destroy, begin, is_returned, owner_turn, Turn, worker_acts, owner_acts, take_turn,
  run,
}

abbrev pub is_parked : WorkerAt → Bool
is_parked top = false
is_parked parked = true
is_parked reading = false
is_parked (calling k) = false
is_parked (counting k) = false
is_parked returned = false

-- What the owner may rely on.
abbrev pub Relies : OwnerAt → Ftimer → WorkerAt → Type 0
Relies ready t w = Unit {0}
Relies awaiting_park t w = (t.pausing || not (is_parked w)) ≡ true
Relies holding t w = (t.pausing ≡ true) × (is_parked w ≡ true)
Relies leaving t w = t.pausing ≡ false
Relies joining t w = (t.pausing ≡ false) × (t.exiting ≡ true)
Relies gone t w = is_returned w ≡ true

pub record IsSound (s : Threads) : Type 0 where
  pub parked_is : s.timer.paused ≡ is_parked s.worker
  pub locked_is : s.locked ≡ is_returned s.worker
  pub relies : Relies s.owner s.timer s.worker

abbrev pub threads : Ftimer → Bool → WorkerAt → OwnerAt → Seen → ℕ → Threads
threads t l w o c n = record { timer = t; locked = l; worker = w; owner = o; seen = c; waited = n }

by_worker :
    (expirations : ℕ) (ends : Bool) (t : Ftimer) (l : Bool) (w : WorkerAt) (o : OwnerAt) (c : Seen)
    (n : ℕ)
    → IsSound (threads t l w o c n)
    → IsSound (worker_turn expirations ends w (threads t l w o c n))
unfolding worker_turn go_on exit unpause tick
by_worker expirations ends t l top ready c n v = ground arith
by_worker expirations ends t l top awaiting_park c n v = ground arith
by_worker expirations ends t l top holding c n v = ground arith
by_worker expirations ends t l top leaving c n v = ground arith
by_worker expirations ends t l top joining c n v = ground arith
by_worker expirations ends t l top gone c n v = ground arith
by_worker expirations ends t l parked ready c n v = ground arith
by_worker expirations ends t l parked awaiting_park c n v = ground arith
by_worker expirations ends t l parked holding c n v = ground arith
by_worker expirations ends t l parked leaving c n v = ground arith
by_worker expirations ends t l parked joining c n v = ground arith
by_worker expirations ends t l parked gone c n v = ground arith
by_worker expirations ends t l reading ready c n v = ground arith
by_worker expirations ends t l reading awaiting_park c n v = ground arith
by_worker expirations ends t l reading holding c n v = ground arith
by_worker expirations ends t l reading leaving c n v = ground arith
by_worker expirations ends t l reading joining c n v = ground arith
by_worker expirations ends t l reading gone c n v = ground arith
by_worker expirations ends t l (calling k) ready c n v = ground arith
by_worker expirations ends t l (calling k) awaiting_park c n v = ground arith
by_worker expirations ends t l (calling k) holding c n v = ground arith
by_worker expirations ends t l (calling k) leaving c n v = ground arith
by_worker expirations ends t l (calling k) joining c n v = ground arith
by_worker expirations ends t l (calling k) gone c n v = ground arith
by_worker expirations ends t l (counting k) ready c n v = ground arith
by_worker expirations ends t l (counting k) awaiting_park c n v = ground arith
by_worker expirations ends t l (counting k) holding c n v = ground arith
by_worker expirations ends t l (counting k) leaving c n v = ground arith
by_worker expirations ends t l (counting k) joining c n v = ground arith
by_worker expirations ends t l (counting k) gone c n v = ground arith
by_worker expirations ends t l returned ready c n v = ground arith
by_worker expirations ends t l returned awaiting_park c n v = ground arith
by_worker expirations ends t l returned holding c n v = ground arith
by_worker expirations ends t l returned leaving c n v = ground arith
by_worker expirations ends t l returned joining c n v = ground arith
by_worker expirations ends t l returned gone c n v = ground arith

module _ (t : Ftimer) (l : Bool) (c : Seen) (n : ℕ) where
  by_call :
      (call : Call) (w : WorkerAt)
      → IsSound (threads t l w ready c n)
      → IsSound (begin call ready (threads t l w ready c n))
  unfolding begin unpause
  by_call (pause true) top v = ground arith
  by_call (pause true) parked v = ground arith
  by_call (pause true) reading v = ground arith
  by_call (pause true) (calling k) v = ground arith
  by_call (pause true) (counting k) v = ground arith
  by_call (pause true) returned v = ground arith
  by_call (pause false) top v = ground arith
  by_call (pause false) parked v = ground arith
  by_call (pause false) reading v = ground arith
  by_call (pause false) (calling k) v = ground arith
  by_call (pause false) (counting k) v = ground arith
  by_call (pause false) returned v = ground arith
  by_call unpause_it top v = ground arith
  by_call unpause_it parked v = ground arith
  by_call unpause_it reading v = ground arith
  by_call unpause_it (calling k) v = ground arith
  by_call unpause_it (counting k) v = ground arith
  by_call unpause_it returned v = ground arith
  by_call wait_for_tick top v = ground arith
  by_call wait_for_tick parked v = ground arith
  by_call wait_for_tick reading v = ground arith
  by_call wait_for_tick (calling k) v = ground arith
  by_call wait_for_tick (counting k) v = ground arith
  by_call wait_for_tick returned v = ground arith
  by_call destroy top v = ground arith
  by_call destroy parked v = ground arith
  by_call destroy reading v = ground arith
  by_call destroy (calling k) v = ground arith
  by_call destroy (counting k) v = ground arith
  by_call destroy returned v = ground arith

  by_call_holding :
      (call : Call) (w : WorkerAt)
      → IsSound (threads t l w holding c n)
      → IsSound (begin call holding (threads t l w holding c n))
  unfolding begin unpause
  by_call_holding (pause true) top v = ground arith
  by_call_holding (pause true) parked v = ground arith
  by_call_holding (pause true) reading v = ground arith
  by_call_holding (pause true) (calling k) v = ground arith
  by_call_holding (pause true) (counting k) v = ground arith
  by_call_holding (pause true) returned v = ground arith
  by_call_holding (pause false) top v = ground arith
  by_call_holding (pause false) parked v = ground arith
  by_call_holding (pause false) reading v = ground arith
  by_call_holding (pause false) (calling k) v = ground arith
  by_call_holding (pause false) (counting k) v = ground arith
  by_call_holding (pause false) returned v = ground arith
  by_call_holding unpause_it top v = ground arith
  by_call_holding unpause_it parked v = ground arith
  by_call_holding unpause_it reading v = ground arith
  by_call_holding unpause_it (calling k) v = ground arith
  by_call_holding unpause_it (counting k) v = ground arith
  by_call_holding unpause_it returned v = ground arith
  by_call_holding wait_for_tick top v = ground arith
  by_call_holding wait_for_tick parked v = ground arith
  by_call_holding wait_for_tick reading v = ground arith
  by_call_holding wait_for_tick (calling k) v = ground arith
  by_call_holding wait_for_tick (counting k) v = ground arith
  by_call_holding wait_for_tick returned v = ground arith
  by_call_holding destroy top v = ground arith
  by_call_holding destroy parked v = ground arith
  by_call_holding destroy reading v = ground arith
  by_call_holding destroy (calling k) v = ground arith
  by_call_holding destroy (counting k) v = ground arith
  by_call_holding destroy returned v = ground arith

  by_owner :
      (call : Call) (o : OwnerAt) (w : WorkerAt)
      → IsSound (threads t l w o c n)
      → IsSound (owner_turn call o (threads t l w o c n))
  unfolding owner_turn
  by_owner call ready w v = by_call call w v
  by_owner call holding w v = by_call_holding call w v
  by_owner call awaiting_park top v = ground arith
  by_owner call awaiting_park parked v = ground arith
  by_owner call awaiting_park reading v = ground arith
  by_owner call awaiting_park (calling k) v = ground arith
  by_owner call awaiting_park (counting k) v = ground arith
  by_owner call awaiting_park returned v = ground arith
  by_owner call leaving top v = ground arith
  by_owner call leaving parked v = ground arith
  by_owner call leaving reading v = ground arith
  by_owner call leaving (calling k) v = ground arith
  by_owner call leaving (counting k) v = ground arith
  by_owner call leaving returned v = ground arith
  by_owner call joining top v = ground arith
  by_owner call joining parked v = ground arith
  by_owner call joining reading v = ground arith
  by_owner call joining (calling k) v = ground arith
  by_owner call joining (counting k) v = ground arith
  by_owner call joining returned v = ground arith
  by_owner call gone top v = ground arith
  by_owner call gone parked v = ground arith
  by_owner call gone reading v = ground arith
  by_owner call gone (calling k) v = ground arith
  by_owner call gone (counting k) v = ground arith
  by_owner call gone returned v = ground arith

pub take_turn-IsSound : (turn : Turn) (s : Threads) → IsSound s → IsSound (take_turn turn s)
take_turn-IsSound (worker_acts expirations ends) s v =
    by_worker expirations ends s.timer s.locked s.worker s.owner s.seen s.waited v
take_turn-IsSound (owner_acts call) s v =
    by_owner s.timer s.locked s.seen s.waited call s.owner s.worker v

start-IsSound : (flags : ℕ) (interval : Timespec) (cb : Bool) → IsSound (start flags interval cb)
unfolding create
start-IsSound flags interval cb = record { parked_is = refl; locked_is = refl; relies = tt }

run-IsSound : (turns : List Turn) (s : Threads) → IsSound s → IsSound (run turns s)
unfolding run
run-IsSound [] s v = v
run-IsSound (turn ∷ turns) s v = run-IsSound turns (take_turn turn s) (take_turn-IsSound turn s v)

pub run-start-IsSound :
    (flags : ℕ) (interval : Timespec) (cb : Bool) (turns : List Turn)
    → IsSound (run turns (start flags interval cb))
run-start-IsSound flags interval cb turns =
    run-IsSound turns (start flags interval cb) (start-IsSound flags interval cb)
