-- ===== src/CpuSpinner/Workers.antt =====
-- One worker thread of cpu_spinner.c, which is `worker`, and the owner, in `cpu_spinner_spin` for the
-- worker's core or in `shutdown_worker`. A turn is what a thread does up to the next point where
-- another may run; a thread that waits for the mutex, or for the worker's end, stays where it is.
use psplay.Base.{Bool, true, false, not, ◌&&◌, if◌then◌else◌, List, [], ◌∷◌}

-- Where the worker is: about to lock the mutex, at the head of its loop or behind the wait; in the
-- inner loop with the mutex; asleep on the condition; in the loop of the kernel; at its end.
pub data WorkerStage : Type 0 where
  locking checking asleep spinning ended : WorkerStage

-- Where the owner is: between calls; about to lock the mutex for a core that starts, with it, having
-- set the cores; having set `shutdown_req`, with the mutex; in `pthread_join`; and behind it.
pub data OwnerStage : Type 0 where
  between starting started shutting broadcasting joining joined : OwnerStage

-- Who has the mutex.
pub data Holder : Type 0 where
  nobody the_worker the_owner : Holder

-- `sig` is the worker's bit of the active cores.
pub record Crew : Type 0 where
  pub sig : Bool
  pub shutdown_req : Bool
  pub mutex : Holder
  pub worker : WorkerStage
  pub owner : OwnerStage

abbrev pub start : Crew
start = record {
  sig = false;
  shutdown_req = false;
  mutex = nobody;
  worker = locking;
  owner = between;
}

abbrev pub is_free : Holder → Bool
is_free nobody = true
is_free the_worker = false
is_free the_owner = false

-- A broadcast wakes a worker that is asleep: it then has to lock the mutex again.
abbrev pub woken : WorkerStage → WorkerStage
woken locking = locking
woken checking = checking
woken asleep = locking
woken spinning = spinning
woken ended = ended

-- The worker's turn; a sleeping worker may also wake by itself, and does if `by_itself` says so.
unfoldable pub worker_turn : Bool → WorkerStage → Crew → Crew
worker_turn by_itself locking s =
    if is_free s.mutex then record s { mutex = the_worker; worker = checking } else s
worker_turn by_itself checking s =
    if not s.sig && not s.shutdown_req
    then record s { mutex = nobody; worker = asleep }
    else record s { mutex = nobody; worker = spinning }
worker_turn by_itself asleep s = if by_itself then record s { worker = locking } else s
worker_turn by_itself spinning s =
    if s.sig && not s.shutdown_req
    then s
    else if s.shutdown_req
    then record s { worker = ended }
    else record s { worker = locking }
worker_turn by_itself ended s = s

-- What the owner calls: `cpu_spinner_spin` for this core, or `shutdown_worker`.
pub data Call : Type 0 where
  spin_core : Bool → Call
  shut_down : Call

-- A core that is to stop is stopped without the mutex; one that is as asked for is left alone.
abbrev pub begin : Call → Crew → Crew
begin (spin_core true) s = if s.sig then s else record s { owner = starting }
begin (spin_core false) s = record s { sig = false }
begin shut_down s = record s { shutdown_req = true; owner = shutting }

unfoldable pub owner_turn : Call → OwnerStage → Crew → Crew
owner_turn c between s = begin c s
owner_turn c starting s =
    if is_free s.mutex then record s { mutex = the_owner; sig = true; owner = started } else s
owner_turn c started s = record s { worker = woken s.worker; mutex = nobody; owner = between }
owner_turn c shutting s =
    if is_free s.mutex then record s { mutex = the_owner; owner = broadcasting } else s
owner_turn c broadcasting s = record s { worker = woken s.worker; mutex = nobody; owner = joining }
owner_turn c joining s = elim s.worker [
  | ended ↦ record s { owner = joined }
  | locking ↦ s
  | checking ↦ s
  | asleep ↦ s
  | spinning ↦ s
]
owner_turn c joined s = s

pub data Turn : Type 0 where
  worker_acts : Bool → Turn
  owner_acts : Call → Turn

abbrev pub take_turn : Turn → Crew → Crew
take_turn (worker_acts by_itself) s = worker_turn by_itself s.worker s
take_turn (owner_acts c) s = owner_turn c s.owner s

unfoldable pub run : List Turn → Crew → Crew
run [] s = s
run (t ∷ turns) s = run turns (take_turn t s)
