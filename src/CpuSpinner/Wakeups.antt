-- ===== src/CpuSpinner/Wakeups.antt =====
-- No wake-up of a worker of cpu_spinner.c is lost.
use psplay.Base.{◌≡◌, arith, sym, subst, Bool, true, List, [], ◌∷◌}
use psplay.CpuSpinner.Workers.{
  WorkerStage, locking, checking, asleep, spinning, ended, between, joining, joined, Holder, start,
  worker_turn, Call, owner_turn, Turn, worker_acts, owner_acts, run,
}
use psplay.CpuSpinner.Sound.{IsSound, crew, run-start-IsSound}

abbrev pub two_turns : Bool → Bool → List Turn
two_turns a b = worker_acts a ∷ worker_acts b ∷ []

module _ (a b d : Bool) (m : Holder) where
  spins :
      (shut : Bool) (w : WorkerStage)
      → IsSound (crew true shut m w between)
      → (run (two_turns a b) (crew true shut m w between)).worker ≡ spinning
  unfolding run worker_turn
  spins shut locking v = ground arith
  spins shut checking v = ground arith
  spins shut asleep v = ground arith
  spins shut spinning v = ground arith
  spins shut ended v = ground arith

  ends_in :
      (sig shut : Bool) (c : Call) (w : WorkerStage)
      → IsSound (crew sig shut m w joining)
      → (run
          (worker_acts a ∷ worker_acts b ∷ worker_acts d ∷ owner_acts c ∷ [])
          (crew sig shut m w joining)).owner
        ≡ joined
  unfolding run worker_turn owner_turn
  ends_in sig shut c locking v = ground arith
  ends_in sig shut c checking v = ground arith
  ends_in sig shut c asleep v = ground arith
  ends_in sig shut c spinning v = ground arith
  ends_in sig shut c ended v = ground arith

-- In every order of the turns of the two threads, once `cpu_spinner_spin` has come back with the core
-- asked for, the worker is in the loop of its kernel after two of its turns.
pub run-spins :
    (turns : List Turn) (a b : Bool)
    → (run turns start).owner ≡ between
    → (run turns start).sig ≡ true
    → (run (two_turns a b) (run turns start)).worker ≡ spinning
run-spins turns a b o g =
    let s = run turns start in
    let p : s ≡ crew true s.shutdown_req s.mutex s.worker between =
      λ i. record s { sig = g i; owner = o i } in
    subst (λ x. (run (two_turns a b) x).worker ≡ spinning) (sym p)
      (spins a b true s.mutex s.shutdown_req s.worker (subst IsSound p (run-start-IsSound turns)))

-- In every order of the turns before, `shutdown_worker` does not wait for ever: once it is in
-- `pthread_join`, three turns of the worker, whatever they are, and its own next turn end it.
pub run-joins :
    (turns : List Turn) (a b d : Bool) (c : Call)
    → (run turns start).owner ≡ joining
    → (run
        (worker_acts a ∷ worker_acts b ∷ worker_acts d ∷ owner_acts c ∷ [])
        (run turns start)).owner
      ≡ joined
run-joins turns a b d c o =
    let s = run turns start in
    let p : s ≡ crew s.sig s.shutdown_req s.mutex s.worker joining =
      λ i. record s { owner = o i } in
    subst
      (λ x.
        (run (worker_acts a ∷ worker_acts b ∷ worker_acts d ∷ owner_acts c ∷ []) x).owner ≡ joined)
      (sym p)
      (ends_in a b d s.mutex s.sig s.shutdown_req c s.worker
        (subst IsSound p (run-start-IsSound turns)))
