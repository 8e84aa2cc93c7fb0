-- ===== src/PingPong/Order.antt =====
-- What a ping-pong buffer (ping_pong_buf.c) promises its two threads, in every order of their steps.
use psplay.Base.{
  ◌≤◌, arith, Option, none, some, List, [], ◌∷◌, ◌++◌, length, ◌≡◌, refl, ◌⊎◌, inl, inr,
}
use psplay.PingPong.{Side, side_0, side_1, other, Pair, init, get_state, write_begin, read_begin}
use psplay.PingPong.System.{
  Stage, outside, holding, served, turning, System, start, step_writer, step_reader, or_stay, run,
}
use psplay.PingPong.Queue.{
  MayWrite, MayRead, Count, none_queued, one_queued, two_queued, pending, tail, behind, IsDrawn,
  as_drawn,
}
use psplay.PingPong.Queue.{Leads}
use psplay.PingPong.Writer.{begin_write-IsDrawn, fill-IsDrawn, publish-IsDrawn, turn_writer-IsDrawn}
use psplay.PingPong.Reader.{begin_read-IsDrawn, look-IsDrawn, release-IsDrawn, turn_reader-IsDrawn}

-- A thread has a buffer in hand between `begin` and `done`.
abbrev pub InHand : Stage → Type 0
InHand outside = ⊥
InHand holding = Unit
InHand served = Unit
InHand turning = ⊥

sides_differ : (i : Side) → ¬ (other i ≡ i)
sides_differ side_0 e = cc
sides_differ side_1 e = cc

apart :
    (i : Side) (n : Count) (w r : Stage)
    → MayWrite n w
    → MayRead n r
    → InHand w
    → InHand r
    → ¬ (behind w (tail i n) ≡ behind r i)
apart i none_queued holding holding w_ok r_ok hw hr e = absurd r_ok
apart i none_queued holding served w_ok r_ok hw hr e = absurd r_ok
apart i none_queued served holding w_ok r_ok hw hr e = absurd r_ok
apart i none_queued served served w_ok r_ok hw hr e = absurd r_ok
apart i one_queued holding holding w_ok r_ok hw hr e = sides_differ i e
apart i one_queued holding served w_ok r_ok hw hr e = sides_differ i e
apart i one_queued served holding w_ok r_ok hw hr e = sides_differ i e
apart i one_queued served served w_ok r_ok hw hr e = sides_differ i e
apart i two_queued holding holding w_ok r_ok hw hr e = absurd w_ok
apart i two_queued holding served w_ok r_ok hw hr e = absurd w_ok
apart i two_queued served holding w_ok r_ok hw hr e = absurd w_ok
apart i two_queued served served w_ok r_ok hw hr e = absurd w_ok
apart i n outside r w_ok r_ok hw hr e = absurd hw
apart i n turning r w_ok r_ok hw hr e = absurd hw
apart i n holding outside w_ok r_ok hw hr e = absurd hr
apart i n holding turning w_ok r_ok hw hr e = absurd hr
apart i n served outside w_ok r_ok hw hr e = absurd hr
apart i n served turning w_ok r_ok hw hr e = absurd hr

module _ {A : Type 0} where
  pub writer-Leads : (a : A) (s : System A) → IsDrawn s → Leads (step_writer a s.writer s)
  writer-Leads a s (as_drawn i n x y outside r sent received w_ok r_ok e) =
      begin_write-IsDrawn a i n x y r sent received w_ok r_ok e
  writer-Leads a s (as_drawn i n x y holding r sent received w_ok r_ok e) =
      fill-IsDrawn a i n x y r sent received w_ok r_ok e
  writer-Leads a s (as_drawn i n x y served r sent received w_ok r_ok e) =
      publish-IsDrawn a i n x y r sent received w_ok r_ok e
  writer-Leads a s (as_drawn i n x y turning r sent received w_ok r_ok e) =
      turn_writer-IsDrawn a i n x y r sent received w_ok r_ok e

  pub reader-Leads : (s : System A) → IsDrawn s → Leads (step_reader s.reader s)
  reader-Leads s (as_drawn i n x y w outside sent received w_ok r_ok e) =
      begin_read-IsDrawn i n x y w sent received w_ok r_ok e
  reader-Leads s (as_drawn i n x y w holding sent received w_ok r_ok e) =
      look-IsDrawn i n x y w sent received w_ok r_ok e
  reader-Leads s (as_drawn i n x y w served sent received w_ok r_ok e) =
      release-IsDrawn i n x y w sent received w_ok r_ok e
  reader-Leads s (as_drawn i n x y w turning sent received w_ok r_ok e) =
      turn_reader-IsDrawn i n x y w sent received w_ok r_ok e

  pub or_stay-IsDrawn :
      (s : System A) (o : Option (System A)) → IsDrawn s → Leads o → IsDrawn (or_stay s o)
  or_stay-IsDrawn s o d (inl e) = rw e d
  or_stay-IsDrawn s o d (inr (s', e, d')) = rw e d'

  pub run-IsDrawn : (turns : List (Option A)) (s : System A) → IsDrawn s → IsDrawn (run turns s)
  unfolding run
  run-IsDrawn [] s d = d
  run-IsDrawn (some a ∷ turns) s d =
      run-IsDrawn turns (or_stay s (step_writer a s.writer s))
        (or_stay-IsDrawn s (step_writer a s.writer s) d (writer-Leads a s d))
  run-IsDrawn (none ∷ turns) s d =
      run-IsDrawn turns (or_stay s (step_reader s.reader s))
        (or_stay-IsDrawn s (step_reader s.reader s) d (reader-Leads s d))

  pub start-IsDrawn : (buf : Pair A) → IsDrawn (start buf)
  unfolding init
  start-IsDrawn buf = as_drawn side_0 none_queued buf.at_0 buf.at_1 outside outside [] [] tt tt refl

  ordered :
      (s : System A)
      → IsDrawn s
      → (rest : List A) × (s.sent ≡ s.received ++ rest) × (length rest ≤ 2)
  ordered s (as_drawn i n x y w r sent received w_ok r_ok e) = (pending n x y r, e, few n r)
    where
      few : (n : Count) (r : Stage) → length (pending n x y r) ≤ 2
      few none_queued outside = omega arith
      few none_queued holding = omega arith
      few none_queued served = omega arith
      few none_queued turning = omega arith
      few one_queued outside = omega arith
      few one_queued holding = omega arith
      few one_queued served = omega arith
      few one_queued turning = omega arith
      few two_queued outside = omega arith
      few two_queued holding = omega arith
      few two_queued served = omega arith
      few two_queued turning = omega arith

  -- However the steps of the two threads interleave, what the reader has taken is what the writer has
  -- sent, in the same order, but for at most two values that still wait.
  pub run-ordered :
      (buf : Pair A) (turns : List (Option A))
      → let s = run turns (start buf) in
        (rest : List A) × (s.sent ≡ s.received ++ rest) × (length rest ≤ 2)
  run-ordered buf turns =
      ordered (run turns (start buf)) (run-IsDrawn turns (start buf) (start-IsDrawn buf))

  exclusive :
      (s : System A)
      → IsDrawn s
      → InHand s.writer
      → InHand s.reader
      → ¬ (s.pp.buf_writei ≡ s.pp.buf_readi)
  exclusive s (as_drawn i n x y w r sent received w_ok r_ok e) = apart i n w r w_ok r_ok

  -- However the steps interleave, the two threads never have the same buffer in hand.
  pub run-exclusive :
      (buf : Pair A) (turns : List (Option A))
      → InHand (run turns (start buf)).writer
      → InHand (run turns (start buf)).reader
      → ¬ ((run turns (start buf)).pp.buf_writei ≡ (run turns (start buf)).pp.buf_readi)
  run-exclusive buf turns =
      exclusive (run turns (start buf)) (run-IsDrawn turns (start buf) (start-IsDrawn buf))

  -- A step that the thread does not have to wait with.
  abbrev pub Moves : Option (System A) → Type 0
  Moves o = (s : System A) × (o ≡ some s)

  pub awake :
      (a : A) (s : System A)
      → IsDrawn s
      → Moves (step_writer a s.writer s) ⊎ Moves (step_reader s.reader s)
  unfolding step_writer step_reader write_begin read_begin get_state
  awake a s (as_drawn i n x y holding r sent received w_ok r_ok e) = inl (_, refl)
  awake a s (as_drawn i n x y served r sent received w_ok r_ok e) = inl (_, refl)
  awake a s (as_drawn i n x y turning r sent received w_ok r_ok e) = inl (_, refl)
  awake a s (as_drawn i n x y outside holding sent received w_ok r_ok e) = inr (_, refl)
  awake a s (as_drawn i n x y outside served sent received w_ok r_ok e) = inr (_, refl)
  awake a s (as_drawn i n x y outside turning sent received w_ok r_ok e) = inr (_, refl)
  awake a s (as_drawn side_0 none_queued x y outside outside sent received w_ok r_ok e) =
      inl (_, refl)
  awake a s (as_drawn side_1 none_queued x y outside outside sent received w_ok r_ok e) =
      inl (_, refl)
  awake a s (as_drawn side_0 one_queued x y outside outside sent received w_ok r_ok e) =
      inl (_, refl)
  awake a s (as_drawn side_1 one_queued x y outside outside sent received w_ok r_ok e) =
      inl (_, refl)
  awake a s (as_drawn side_0 two_queued x y outside outside sent received w_ok r_ok e) =
      inr (_, refl)
  awake a s (as_drawn side_1 two_queued x y outside outside sent received w_ok r_ok e) =
      inr (_, refl)
