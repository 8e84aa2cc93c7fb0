-- ===== src/BitbangPlayer/Follows.antt =====
-- How a player (bitbang_player.c) keeps in step with its buffer: the invariant under a writer's step.
use psplay.Base.{
  ℕ, ◌≤◌, ◌≡◌, refl, Option, none, some, ◌>>=◌, List, [], ◌∷◌, ◌++◌, length, take, subst, sym, ap,
  ◌∙◌,
}
use psplay.PingPong.{
  Side, Pair, side_0, side_1, pair_at, pair_set, write_begin, get_state, set_state, write_done_set,
  write_done_turn,
}
use psplay.PingPong.Queue.{none_queued, one_queued, two_queued, IsDrawn, as_drawn}
use psplay.PingPong.System.{Stage, outside, holding, served, turning, System, step_writer, or_stay}
use psplay.PingPong.Order.{or_stay-IsDrawn, writer-Leads}
use psplay.BitbangPlayer.{Player}
use psplay.BitbangPlayer.Playing.{Playing, as_system, writer_step}

module _ {A : Type 0} where
  -- A writer's step looks neither at the reader's stage nor at what it has received.
  unseen :
      (a : A) (w r : Stage) (q : List A) (y : System A)
      → or_stay
          (record y { reader = r; received = q })
          (step_writer a w (record y { reader = r; received = q }))
        ≡ record (or_stay y (step_writer a w y)) { reader = r; received = q }
  unfolding step_writer
  unseen a outside r q y =
      elim (write_begin y.pp)
        as (λ o.
          or_stay (record y { reader = r; received = q })
            (o >>= λ i. some (record y { writer = holding; reader = r; received = q }))
          ≡ record (or_stay y (o >>= λ i. some (record y { writer = holding }))) {
            reader = r;
            received = q;
          }) [ none ↦ refl | some i ↦ refl ]
  unseen a holding r q y = refl
  unseen a served r q y = refl
  unseen a turning r q y = refl

  -- The block that the reader has in hand is left alone.
  kept :
      (a : A) (y : System A)
      → IsDrawn y
      → y.reader ≡ holding
      → (pair_at
            (or_stay y (step_writer a y.writer y)).pp.buf
            (or_stay y (step_writer a y.writer y)).pp.buf_readi
          ≡ pair_at y.pp.buf y.pp.buf_readi)
        × ((or_stay y (step_writer a y.writer y)).pp.buf_readi ≡ y.pp.buf_readi)
  unfolding step_writer write_begin get_state set_state write_done_set write_done_turn
  kept a s (as_drawn i n x y w outside sent received w_ok r_ok e) h = cc
  kept a s (as_drawn i n x y w served sent received w_ok r_ok e) h = cc
  kept a s (as_drawn i n x y w turning sent received w_ok r_ok e) h = cc
  kept a s (as_drawn side_0 none_queued x y outside holding sent received w_ok r_ok e) h =
      absurd r_ok
  kept a s (as_drawn side_0 one_queued x y outside holding sent received w_ok r_ok e) h =
      (refl, refl)
  kept a s (as_drawn side_0 two_queued x y outside holding sent received w_ok r_ok e) h =
      (refl, refl)
  kept a s (as_drawn side_0 none_queued x y holding holding sent received w_ok r_ok e) h =
      absurd r_ok
  kept a s (as_drawn side_0 one_queued x y holding holding sent received w_ok r_ok e) h =
      (refl, refl)
  kept a s (as_drawn side_0 two_queued x y holding holding sent received w_ok r_ok e) h =
      absurd w_ok
  kept a s (as_drawn side_0 none_queued x y served holding sent received w_ok r_ok e) h =
      absurd r_ok
  kept a s (as_drawn side_0 one_queued x y served holding sent received w_ok r_ok e) h =
      (refl, refl)
  kept a s (as_drawn side_0 two_queued x y served holding sent received w_ok r_ok e) h = absurd w_ok
  kept a s (as_drawn side_0 none_queued x y turning holding sent received w_ok r_ok e) h =
      absurd r_ok
  kept a s (as_drawn side_0 one_queued x y turning holding sent received w_ok r_ok e) h =
      (refl, refl)
  kept a s (as_drawn side_0 two_queued x y turning holding sent received w_ok r_ok e) h =
      (refl, refl)
  kept a s (as_drawn side_1 none_queued x y outside holding sent received w_ok r_ok e) h =
      absurd r_ok
  kept a s (as_drawn side_1 one_queued x y outside holding sent received w_ok r_ok e) h =
      (refl, refl)
  kept a s (as_drawn side_1 two_queued x y outside holding sent received w_ok r_ok e) h =
      (refl, refl)
  kept a s (as_drawn side_1 none_queued x y holding holding sent received w_ok r_ok e) h =
      absurd r_ok
  kept a s (as_drawn side_1 one_queued x y holding holding sent received w_ok r_ok e) h =
      (refl, refl)
  kept a s (as_drawn side_1 two_queued x y holding holding sent received w_ok r_ok e) h =
      absurd w_ok
  kept a s (as_drawn side_1 none_queued x y served holding sent received w_ok r_ok e) h =
      absurd r_ok
  kept a s (as_drawn side_1 one_queued x y served holding sent received w_ok r_ok e) h =
      (refl, refl)
  kept a s (as_drawn side_1 two_queued x y served holding sent received w_ok r_ok e) h = absurd w_ok
  kept a s (as_drawn side_1 none_queued x y turning holding sent received w_ok r_ok e) h =
      absurd r_ok
  kept a s (as_drawn side_1 one_queued x y turning holding sent received w_ok r_ok e) h =
      (refl, refl)
  kept a s (as_drawn side_1 two_queued x y turning holding sent received w_ok r_ok e) h =
      (refl, refl)

-- Both buffers are arrays of `size` samples.
abbrev pub AreFull : {A : Type 0} → ℕ → Pair (List A) → Type 0
AreFull size b = (length b.at_0 ≡ size) × (length b.at_1 ≡ size)

module _ {A : Type 0} where
  pub fill-AreFull :
      (size : ℕ) (b : Pair (List A)) (i : Side) (a : List A)
      → length a ≡ size
      → AreFull size b
      → AreFull size (pair_set b i a)
  fill-AreFull size b side_0 a e (f, g) = (e, g)
  fill-AreFull size b side_1 a e (f, g) = (f, e)

  step_writer-AreFull :
      (size : ℕ) (a : List A) (w : Stage) (y : System (List A))
      → length a ≡ size
      → AreFull size y.pp.buf
      → AreFull size (or_stay y (step_writer a w y)).pp.buf
  unfolding step_writer write_done_set write_done_turn set_state
  step_writer-AreFull size a outside y e f = begun (write_begin y.pp)
    where
      begun :
          (o : Option Side)
          → AreFull size (or_stay y (o >>= λ i. some (record y { writer = holding }))).pp.buf
      begun none = f
      begun (some i) = f
  step_writer-AreFull size a holding y e f = fill-AreFull size y.pp.buf y.pp.buf_writei a e f
  step_writer-AreFull size a served y e f = f
  step_writer-AreFull size a turning y e f = f

abbrev pub concat : {A : Type 0} → List (List A) → List A
concat [] = []
concat (b ∷ blocks) = b ++ concat blocks

module _ {Double : Type 0} where
  -- The block that the player has in hand, if it has one.
  abbrev pub in_hand : Player Double → List Double
  in_hand p = pair_at p.ppbuf.buf p.ppbuf.buf_readi

  -- The invariant: between blocks, or so far into a block; `received` are the blocks played out.
  pub data Follows (s : Playing Double) : Type 0 where
    between :
        (received : List (List Double))
        → s.player.buf ≡ none
        → s.player.index ≡ s.player.size
        → s.player.played ≡ concat received
        → AreFull s.player.size s.player.ppbuf.buf
        → IsDrawn (as_system outside received s)
        → Follows s
    within :
        (received : List (List Double))
        → s.player.buf ≡ some s.player.ppbuf.buf_readi
        → s.player.index ≤ s.player.size
        → s.player.played ≡ concat received ++ take s.player.index (in_hand s.player)
        → AreFull s.player.size s.player.ppbuf.buf
        → IsDrawn (as_system holding received s)
        → Follows s

  writer_step-IsDrawn :
      (a : List Double) (r : Stage) (received : List (List Double)) (s : Playing Double)
      → IsDrawn (as_system r received s)
      → IsDrawn (as_system r received (writer_step a s))
  writer_step-IsDrawn a r received s d =
      let y = as_system r received s in
      subst IsDrawn (unseen a s.writer r received (as_system outside [] s))
        (or_stay-IsDrawn y (step_writer a s.writer y) d (writer-Leads a y d))

  pub writer_step-Follows :
      (a : List Double) (s : Playing Double)
      → length a ≡ s.player.size
      → Follows s
      → Follows (writer_step a s)
  writer_step-Follows a s l (between received b i e f d) =
      between received b i e
        (step_writer-AreFull s.player.size a s.writer (as_system outside [] s) l f)
        (writer_step-IsDrawn a outside received s d)
  writer_step-Follows a s l (within received b i e f d) =
      let y = as_system holding received s in
      let u = unseen a s.writer holding received (as_system outside [] s) in
      let (same, side) = kept a y d refl in
      within received (b ∙ ap some (sym (sym (ap (λ z. z.pp.buf_readi) u) ∙ side))) i
        (e
          ∙ ap (λ x. concat received ++ take s.player.index x)
              (sym (sym (ap (λ z. pair_at z.pp.buf z.pp.buf_readi) u) ∙ same)))
        (step_writer-AreFull s.player.size a s.writer (as_system outside [] s) l f)
        (writer_step-IsDrawn a holding received s d)
