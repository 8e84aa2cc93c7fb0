-- ===== src/Ftimer/Threads.antt =====
-- A timer's two threads (ftimer.c): the worker, which is `ftimer_run`, and the owner, which calls the
-- other functions. A turn is what a thread does up to the next point where it sleeps or lets go of
-- `control_mutex`; a thread that has to wait for the other stays where it is.
use psplay.Base.{
  ℕ, zero, suc, ◌+◌, ◌-◌, Bool, true, false, not, ◌&&◌, ◌==◌, if◌then◌else◌, bit_and, List, [], ◌∷◌,
}
use psplay.Ftimer.{Ftimer, create, tick, exit, unpause, compensate_misses, is_positive}
use psplay.Utils.{Timespec}

-- Where the worker is: at the head of its loop; asleep on `control_cond`; in `read`; about to call
-- back, with so many expirations to follow; behind the callback; at its end, with `control_mutex`
-- locked, since `return` does not unlock it.
pub data WorkerAt : Type 0 where
  top parked reading : WorkerAt
  calling counting : ℕ → WorkerAt
  returned : WorkerAt

-- Where the owner is: between calls; in `ftimer_pause`, asleep on `paused_cond`; between calls,
-- behind such a pause; in `ftimer_destroy`, between the halves of `ftimer_exit`, in `pthread_join`,
-- and behind it.
pub data OwnerAt : Type 0 where
  ready awaiting_park holding leaving joining gone : OwnerAt

-- Histories of the loop over the expirations: its rounds, and the callbacks made.
pub record Seen : Type 0 where
  pub rounds : ℕ
  pub calls : ℕ

-- `waited` is a history: how often `ftimer_wait` has taken a tick.
pub record Threads : Type 0 where
  pub timer : Ftimer
  pub locked : Bool
  pub worker : WorkerAt
  pub owner : OwnerAt
  pub seen : Seen
  pub waited : ℕ

abbrev pub start : ℕ → Timespec → Bool → Threads
start flags interval cb = record {
  timer = create flags interval cb;
  locked = false;
  worker = top;
  owner = ready;
  seen = record { rounds = 0; calls = 0 };
  waited = 0;
}

-- The worker behind its checks of `pausing`.
unfoldable pub go_on : Threads → Threads
go_on s =
    if s.timer.exiting
    then record s { locked = true; worker = returned }
    else record s { worker = reading }

abbrev pub next_call : Bool → ℕ → WorkerAt
next_call true k = top
next_call false zero = top
next_call false (suc k) = calling k

abbrev pub compensates : Ftimer → Bool
compensates t = not (bit_and t.flags compensate_misses == 0)

-- The worker's turn. A callback may call `ftimer_exit`, in one step, since nothing that the owner does
-- hangs on `exiting`; it calls no other function of the timer. `expirations` is what `read` delivers,
-- at least 1 once it returns; `ends` says whether the callback, if there is one, calls `ftimer_exit`.
unfoldable pub worker_turn : ℕ → Bool → WorkerAt → Threads → Threads
unfolding go_on
worker_turn expirations ends top s =
    if s.timer.pausing
    then record s { worker = parked; timer = record s.timer { paused = true } }
    else go_on s
worker_turn expirations ends parked s =
    if s.timer.pausing then s else go_on (record s { timer = record s.timer { paused = false } })
worker_turn zero ends reading s = s
worker_turn (suc k) ends reading s = record s { worker = calling k }
worker_turn expirations ends (calling k) s = record s {
  seen = record {
    rounds = s.seen.rounds + 1;
    calls = if s.timer.cb then s.seen.calls + 1 else s.seen.calls;
  };
  worker = counting k;
  timer = if s.timer.cb && ends then exit s.timer else s.timer;
}
worker_turn expirations ends (counting k) s = record s {
  timer = tick s.timer;
  worker = next_call (compensates s.timer) k;
}
worker_turn expirations ends returned s = s

pub data Call : Type 0 where
  pause : Bool → Call
  unpause_it wait_for_tick destroy : Call

abbrev pub after_pause : Bool → OwnerAt → OwnerAt
after_pause true back = awaiting_park
after_pause false back = back

-- A call that the owner starts; `back` is where it then is.
unfoldable pub begin : Call → OwnerAt → Threads → Threads
begin (pause wait_for_paused) back s = if s.locked then s else record s {
  timer = record s.timer { pausing = true };
  owner = after_pause wait_for_paused back;
}
begin unpause_it back s =
    if s.locked then s else record s { timer = unpause s.timer; owner = ready }
begin wait_for_tick back s = if not (is_positive s.timer.outstanding_ticks) then s else record s {
  timer = record s.timer { outstanding_ticks = s.timer.outstanding_ticks - 1 };
  waited = s.waited + 1;
}
begin destroy back s = if s.locked then s else record s { timer = unpause s.timer; owner = leaving }

abbrev pub is_returned : WorkerAt → Bool
is_returned top = false
is_returned parked = false
is_returned reading = false
is_returned (calling k) = false
is_returned (counting k) = false
is_returned returned = true

unfoldable pub owner_turn : Call → OwnerAt → Threads → Threads
unfolding begin
owner_turn c ready s = begin c ready s
owner_turn c awaiting_park s = if s.timer.paused then record s { owner = holding } else s
owner_turn c holding s = begin c holding s
owner_turn c leaving s =
    if s.locked then s else record s { timer = record s.timer { exiting = true }; owner = joining }
owner_turn c joining s = if is_returned s.worker then record s { owner = gone } else s
owner_turn c gone s = s

pub data Turn : Type 0 where
  worker_acts : ℕ → Bool → Turn
  owner_acts : Call → Turn

abbrev pub take_turn : Turn → Threads → Threads
take_turn (worker_acts expirations ends) s = worker_turn expirations ends s.worker s
take_turn (owner_acts c) s = owner_turn c s.owner s

unfoldable pub run : List Turn → Threads → Threads
run [] s = s
run (t ∷ turns) s = run turns (take_turn t s)
