-- ===== src/Ftimer/Shutdown.antt =====
-- How a timer's threads end (ftimer.c: `ftimer_exit`, `ftimer_destroy`, and `return` in `ftimer_run`).
use psplay.Base.{
  ℕ, zero, suc, ◌+◌, ◌*◌, ◌≡◌, refl, arith, Bool, true, false, ◌&&◌, leb, List, [], ◌∷◌, ap, ◌∙◌,
  sym, subst,
}
use psplay.Ftimer.{Ftimer}
use psplay.Utils.{Timespec}
use psplay.Ftimer.Threads.{
  WorkerAt, top, parked, reading, calling, counting, returned, OwnerAt, ready, awaiting_park,
  holding, leaving, joining, gone, Seen, Threads, start, worker_turn, Call, pause, unpause_it,
  wait_for_tick, destroy, begin, is_returned, owner_turn, Turn, worker_acts, owner_acts, take_turn,
  run,
}
use psplay.Ftimer.Sound.{IsSound, is_parked, threads, run-start-IsSound}

-- Whether the owner has yet to lock `control_mutex` before it can join the worker.
abbrev pub before_join : OwnerAt → Bool
before_join ready = true
before_join awaiting_park = true
before_join holding = true
before_join leaving = true
before_join joining = false
before_join gone = false

-- The worker has returned and taken `control_mutex` along.
abbrev IsStuck : OwnerAt → Threads → Type 0
IsStuck o s = (s.locked ≡ true) × (s.worker ≡ returned) × (s.owner ≡ o) × (s.timer.paused ≡ false)

call-IsStuck :
    (c : Call) (o : OwnerAt) (t : Ftimer) (a : Seen) (b : ℕ)
    → before_join o ≡ true
    → t.paused ≡ false
    → IsStuck o (owner_turn c o (threads t true returned o a b))
unfolding owner_turn begin
call-IsStuck (pause w) ready t a b h p = ground arith
call-IsStuck unpause_it ready t a b h p = ground arith
call-IsStuck wait_for_tick ready t a b h p = ground arith
call-IsStuck destroy ready t a b h p = ground arith
call-IsStuck (pause w) holding t a b h p = ground arith
call-IsStuck unpause_it holding t a b h p = ground arith
call-IsStuck wait_for_tick holding t a b h p = ground arith
call-IsStuck destroy holding t a b h p = ground arith
call-IsStuck c awaiting_park t a b h p = ground arith
call-IsStuck c leaving t a b h p = ground arith
call-IsStuck c joining t a b h p = ground arith
call-IsStuck c gone t a b h p = ground arith

worker-IsStuck :
    (expirations : ℕ) (ends : Bool) (o : OwnerAt) (t : Ftimer) (a : Seen) (b : ℕ)
    → t.paused ≡ false
    → IsStuck o (worker_turn expirations ends returned (threads t true returned o a b))
unfolding worker_turn
worker-IsStuck expirations ends o t a b p = (refl, refl, refl, p)

turn-IsStuck :
    (turn : Turn) (o : OwnerAt) (s : Threads)
    → before_join o ≡ true
    → IsStuck o s
    → IsStuck o (take_turn turn s)
turn-IsStuck turn o s h (l, w, e, p) =
    subst (λ x. IsStuck o (take_turn turn x))
      (λ i. record s { locked = sym l i; worker = sym w i; owner = sym e i }) (at turn)
  where
    at :
        (turn : Turn) → IsStuck o (take_turn turn (threads s.timer true returned o s.seen s.waited))
    at (worker_acts expirations ends) = worker-IsStuck expirations ends o s.timer s.seen s.waited p
    at (owner_acts c) = call-IsStuck c o s.timer s.seen s.waited h p

run-IsStuck :
    (turns : List Turn) (o : OwnerAt) (s : Threads)
    → before_join o ≡ true
    → IsStuck o s
    → IsStuck o (run turns s)
unfolding run
run-IsStuck [] o s h v = v
run-IsStuck (turn ∷ turns) o s h v =
    run-IsStuck turns o (take_turn turn s) h (turn-IsStuck turn o s h v)

-- If the worker has returned, because a callback called `ftimer_exit`, before the owner is through
-- `ftimer_exit`, then whatever turns follow, the owner stays where it is: `ftimer_destroy` never gets
-- to the join, and a call that has to lock `control_mutex` never comes back.
pub run-stuck :
    (flags : ℕ) (interval : Timespec) (cb : Bool) (turns : List Turn)
    → (run turns (start flags interval cb)).worker ≡ returned
    → before_join (run turns (start flags interval cb)).owner ≡ true
    → (later : List Turn)
    → (run later (run turns (start flags interval cb))).owner
      ≡ (run turns (start flags interval cb)).owner
run-stuck flags interval cb turns w h later =
    let s : Threads = run turns (start flags interval cb) in
    let v : IsSound s = run-start-IsSound flags interval cb turns in
    let at : IsStuck s.owner s =
      (v.locked_is ∙ ap is_returned w, w, refl, v.parked_is ∙ ap is_parked w) in
    owner_of (run later s) (run-IsStuck later s.owner s h at)
  where
    owner_of : {o : OwnerAt} (x : Threads) → IsStuck o x → x.owner ≡ o
    owner_of x (l, r, e, p) = e

-- A turn of the worker whose `read` comes back, with `most` expirations or fewer.
abbrev pub progresses : ℕ → Turn → Bool
progresses most (worker_acts zero ends) = false
progresses most (worker_acts (suc j) ends) = leb (suc j) most
progresses most (owner_acts c) = false

abbrev pub all_progress : ℕ → List Turn → Bool
all_progress most [] = true
all_progress most (turn ∷ turns) = progresses most turn && all_progress most turns

-- The turns of the worker from here to its end, once it is told to exit: two for each callback, and
-- one each for the checks at the top and for `read`.
abbrev pub turns_left : ℕ → WorkerAt → ℕ
turns_left most top = 1
turns_left most parked = 1
turns_left most reading = 2 * most + 2
turns_left most (calling k) = 2 * k + 3
turns_left most (counting k) = 2 * k + 2
turns_left most returned = 0

abbrev IsEnding : Threads → Type 0
IsEnding s = (s.timer.pausing ≡ false) × (s.timer.exiting ≡ true) × (s.owner ≡ joining)
