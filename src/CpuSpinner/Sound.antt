-- ===== src/CpuSpinner/Sound.antt =====
-- What every turn of a worker of cpu_spinner.c and its owner keeps.
use psplay.Base.{◌≡◌, arith, Bool, true, false, ◌&&◌, List, [], ◌∷◌}
use psplay.CpuSpinner.Workers.{
  WorkerStage, locking, checking, asleep, spinning, ended, OwnerStage, between, starting, started,
  shutting, broadcasting, joining, joined, Holder, nobody, the_worker, the_owner, Crew, start,
  worker_turn, Call, spin_core, shut_down, owner_turn, Turn, worker_acts, owner_acts, take_turn,
  run,
}

-- Who has the mutex, by where the two threads are.
abbrev pub worker_holds : WorkerStage → Bool
worker_holds locking = false
worker_holds checking = true
worker_holds asleep = false
worker_holds spinning = false
worker_holds ended = false

abbrev pub owner_holds : OwnerStage → Bool
owner_holds between = false
owner_holds starting = false
owner_holds started = true
owner_holds shutting = false
owner_holds broadcasting = true
owner_holds joining = false
owner_holds joined = false

abbrev pub holder_of : Bool → Bool → Holder
holder_of true o = the_worker
holder_of false true = the_owner
holder_of false false = nobody

abbrev pub is_asleep : WorkerStage → Bool
is_asleep locking = false
is_asleep checking = false
is_asleep asleep = true
is_asleep spinning = false
is_asleep ended = false

abbrev pub is_ended : WorkerStage → Bool
is_ended locking = false
is_ended checking = false
is_ended asleep = false
is_ended spinning = false
is_ended ended = true

-- `shutdown_req` is set from `shutdown_worker` on.
abbrev pub shut_of : OwnerStage → Bool
shut_of between = false
shut_of starting = false
shut_of started = false
shut_of shutting = true
shut_of broadcasting = true
shut_of joining = true
shut_of joined = true

-- A worker may sleep on if no core is asked for and none to be, or a broadcast is still to come.
abbrev pub MaySleep : OwnerStage → Bool → Type 0
MaySleep between sig = sig ≡ false
MaySleep starting sig = sig ≡ false
MaySleep started sig = Unit
MaySleep shutting sig = Unit
MaySleep broadcasting sig = Unit
MaySleep joining sig = ⊥
MaySleep joined sig = ⊥

pub record IsSound (s : Crew) : Type 0 where
  pub held : s.mutex ≡ holder_of (worker_holds s.worker) (owner_holds s.owner)
  pub not_both : (worker_holds s.worker && owner_holds s.owner) ≡ false
  pub shut_is : s.shutdown_req ≡ shut_of s.owner
  pub ends : is_ended s.worker ≡ true → shut_of s.owner ≡ true
  pub wakes : is_asleep s.worker ≡ true → MaySleep s.owner s.sig

abbrev pub crew : Bool → Bool → Holder → WorkerStage → OwnerStage → Crew
crew sig shut m w o = record { sig = sig; shutdown_req = shut; mutex = m; worker = w; owner = o }

module _ (sig shut : Bool) (m : Holder) where
  by_worker :
      (by_itself : Bool) (w : WorkerStage) (o : OwnerStage)
      → IsSound (crew sig shut m w o)
      → IsSound (worker_turn by_itself w (crew sig shut m w o))
  unfolding worker_turn
  by_worker b locking between v = ground arith
  by_worker b locking starting v = ground arith
  by_worker b locking started v = ground arith
  by_worker b locking shutting v = ground arith
  by_worker b locking broadcasting v = ground arith
  by_worker b locking joining v = ground arith
  by_worker b locking joined v = ground arith
  by_worker b checking between v = ground arith
  by_worker b checking starting v = ground arith
  by_worker b checking started v = ground arith
  by_worker b checking shutting v = ground arith
  by_worker b checking broadcasting v = ground arith
  by_worker b checking joining v = ground arith
  by_worker b checking joined v = ground arith
  by_worker b asleep between v = ground arith
  by_worker b asleep starting v = ground arith
  by_worker b asleep started v = ground arith
  by_worker b asleep shutting v = ground arith
  by_worker b asleep broadcasting v = ground arith
  by_worker b asleep joining v = ground arith
  by_worker b asleep joined v = ground arith
  by_worker b spinning between v = ground arith
  by_worker b spinning starting v = ground arith
  by_worker b spinning started v = ground arith
  by_worker b spinning shutting v = ground arith
  by_worker b spinning broadcasting v = ground arith
  by_worker b spinning joining v = ground arith
  by_worker b spinning joined v = ground arith
  by_worker b ended between v = ground arith
  by_worker b ended starting v = ground arith
  by_worker b ended started v = ground arith
  by_worker b ended shutting v = ground arith
  by_worker b ended broadcasting v = ground arith
  by_worker b ended joining v = ground arith
  by_worker b ended joined v = ground arith

  by_owner :
      (c : Call) (o : OwnerStage) (w : WorkerStage)
      → IsSound (crew sig shut m w o)
      → IsSound (owner_turn c o (crew sig shut m w o))
  unfolding owner_turn
  by_owner (spin_core true) between locking v = ground arith
  by_owner (spin_core false) between locking v = ground arith
  by_owner shut_down between locking v = ground arith
  by_owner (spin_core true) between checking v = ground arith
  by_owner (spin_core false) between checking v = ground arith
  by_owner shut_down between checking v = ground arith
  by_owner (spin_core true) between asleep v = ground arith
  by_owner (spin_core false) between asleep v = ground arith
  by_owner shut_down between asleep v = ground arith
  by_owner (spin_core true) between spinning v = ground arith
  by_owner (spin_core false) between spinning v = ground arith
  by_owner shut_down between spinning v = ground arith
  by_owner (spin_core true) between ended v = ground arith
  by_owner (spin_core false) between ended v = ground arith
  by_owner shut_down between ended v = ground arith
  by_owner c starting locking v = ground arith
  by_owner c starting checking v = ground arith
  by_owner c starting asleep v = ground arith
  by_owner c starting spinning v = ground arith
  by_owner c starting ended v = ground arith
  by_owner c started locking v = ground arith
  by_owner c started checking v = ground arith
  by_owner c started asleep v = ground arith
  by_owner c started spinning v = ground arith
  by_owner c started ended v = ground arith
  by_owner c shutting locking v = ground arith
  by_owner c shutting checking v = ground arith
  by_owner c shutting asleep v = ground arith
  by_owner c shutting spinning v = ground arith
  by_owner c shutting ended v = ground arith
  by_owner c broadcasting locking v = ground arith
  by_owner c broadcasting checking v = ground arith
  by_owner c broadcasting asleep v = ground arith
  by_owner c broadcasting spinning v = ground arith
  by_owner c broadcasting ended v = ground arith
  by_owner c joining locking v = ground arith
  by_owner c joining checking v = ground arith
  by_owner c joining asleep v = ground arith
  by_owner c joining spinning v = ground arith
  by_owner c joining ended v = ground arith
  by_owner c joined locking v = ground arith
  by_owner c joined checking v = ground arith
  by_owner c joined asleep v = ground arith
  by_owner c joined spinning v = ground arith
  by_owner c joined ended v = ground arith

take_turn-IsSound : (turn : Turn) (s : Crew) → IsSound s → IsSound (take_turn turn s)
take_turn-IsSound (worker_acts b) s v = by_worker s.sig s.shutdown_req s.mutex b s.worker s.owner v
take_turn-IsSound (owner_acts c) s v = by_owner s.sig s.shutdown_req s.mutex c s.owner s.worker v

run-IsSound : (turns : List Turn) (s : Crew) → IsSound s → IsSound (run turns s)
unfolding run
run-IsSound [] s v = v
run-IsSound (turn ∷ turns) s v = run-IsSound turns (take_turn turn s) (take_turn-IsSound turn s v)

start-IsSound : IsSound start
start-IsSound = ground arith

pub run-start-IsSound : (turns : List Turn) → IsSound (run turns start)
run-start-IsSound turns = run-IsSound turns start start-IsSound
