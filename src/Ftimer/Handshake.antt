-- ===== src/Ftimer/Handshake.antt =====
-- What holds of a timer's two threads (ftimer.c) in every order of their turns.
use psplay.Base.{ℕ, ◌≡◌, arith, Bool, List, sym, subst}
use psplay.Ftimer.{Ftimer}
use psplay.Utils.{Timespec}
use psplay.Ftimer.Threads.{
  WorkerAt, top, parked, reading, calling, counting, returned, holding, Seen, Threads, start,
  worker_turn, Turn, worker_acts, take_turn, run,
}
use psplay.Ftimer.Sound.{IsSound, threads, run-start-IsSound}

held_at :
    (t : Ftimer) (l : Bool) (w : WorkerAt) (c : Seen) (n : ℕ)
    → IsSound (threads t l w holding c n)
    → (expirations : ℕ) (ends : Bool)
    → worker_turn expirations ends w (threads t l w holding c n) ≡ threads t l w holding c n
unfolding worker_turn
held_at t l top c n v expirations ends = ground arith
held_at t l parked c n v expirations ends = ground arith
held_at t l reading c n v expirations ends = ground arith
held_at t l (calling k) c n v expirations ends = ground arith
held_at t l (counting k) c n v expirations ends = ground arith
held_at t l returned c n v expirations ends = ground arith

held :
    (s : Threads)
    → IsSound s
    → s.owner ≡ holding
    → (expirations : ℕ) (ends : Bool) → take_turn (worker_acts expirations ends) s ≡ s
held s v h expirations ends =
    let p : s ≡ threads s.timer s.locked s.worker holding s.seen s.waited =
      λ i. record s { owner = h i } in
    subst (λ x. take_turn (worker_acts expirations ends) x ≡ x) (sym p)
      (held_at s.timer s.locked s.worker s.seen s.waited (subst IsSound p v) expirations ends)

module _ (flags : ℕ) (interval : Timespec) (cb : Bool) (turns : List Turn) where
  -- Once `ftimer_pause` has come back to an owner that waited for it, and until the owner calls
  -- `ftimer_unpause` or `ftimer_destroy`, a turn of the worker changes nothing, whatever the order of
  -- the turns before.
  pub run-held :
      (run turns (start flags interval cb)).owner ≡ holding
      → (expirations : ℕ) (ends : Bool)
      → take_turn (worker_acts expirations ends) (run turns (start flags interval cb))
        ≡ run turns (start flags interval cb)
  run-held h expirations ends =
      held (run turns (start flags interval cb)) (run-start-IsSound flags interval cb turns) h
        expirations ends
