-- ===== src/PingPong/Reader.antt =====
-- Every step of the reader of a ping-pong buffer (ping_pong_buf.c) keeps the drawing.
use psplay.Base.{List, [], ◌∷◌, ◌++◌, ◌≡◌, refl, sym, ◌∙◌, append_assoc, inl, inr}
use psplay.PingPong.{
  Side, side_0, side_1, get_state, set_state, read_begin, read_done_set, read_done_turn,
}
use psplay.PingPong.System.{Stage, outside, holding, served, turning, step_reader}
use psplay.PingPong.Queue.{Leads}
use psplay.PingPong.Queue.{
  Count, none_queued, one_queued, two_queued, MayWrite, MayRead, pending, drawn, as_drawn,
}

module _ {A : Type 0} where
  -- The reader takes the first pending value.
  look_first :
      (x : A) (rest sent received : List A)
      → sent ≡ received ++ x ∷ rest
      → sent ≡ (received ++ x ∷ []) ++ rest
  look_first x rest sent received e = e ∙ sym (append_assoc received (x ∷ []) rest)

  pub begin_read-IsDrawn :
      (i : Side) (n : Count) (x y : A) (w : Stage) (sent received : List A)
      → MayWrite n w
      → MayRead n outside
      → sent ≡ received ++ pending n x y outside
      → Leads (step_reader outside (drawn i n x y w outside sent received))
  unfolding step_reader read_begin get_state set_state read_done_set read_done_turn
  begin_read-IsDrawn side_0 none_queued x y w sent received ok_w ok e = inl refl
  begin_read-IsDrawn side_1 none_queued x y w sent received ok_w ok e = inl refl
  begin_read-IsDrawn side_0 one_queued x y w sent received ok_w ok e =
      inr (_, refl, as_drawn side_0 one_queued x y w holding sent received ok_w tt e)
  begin_read-IsDrawn side_1 one_queued x y w sent received ok_w ok e =
      inr (_, refl, as_drawn side_1 one_queued x y w holding sent received ok_w tt e)
  begin_read-IsDrawn side_0 two_queued x y w sent received ok_w ok e =
      inr (_, refl, as_drawn side_0 two_queued x y w holding sent received ok_w tt e)
  begin_read-IsDrawn side_1 two_queued x y w sent received ok_w ok e =
      inr (_, refl, as_drawn side_1 two_queued x y w holding sent received ok_w tt e)

  pub look-IsDrawn :
      (i : Side) (n : Count) (x y : A) (w : Stage) (sent received : List A)
      → MayWrite n w
      → MayRead n holding
      → sent ≡ received ++ pending n x y holding
      → Leads (step_reader holding (drawn i n x y w holding sent received))
  unfolding step_reader read_begin get_state set_state read_done_set read_done_turn
  look-IsDrawn i none_queued x y w sent received ok_w ok e = absurd ok
  look-IsDrawn side_0 one_queued x y w sent received ok_w ok e = inr (
    _,
    refl,
    as_drawn side_0 one_queued x y w served sent (received ++ x ∷ []) ok_w tt
        (look_first x [] sent received e),
  )
  look-IsDrawn side_1 one_queued x y w sent received ok_w ok e = inr (
    _,
    refl,
    as_drawn side_1 one_queued x y w served sent (received ++ x ∷ []) ok_w tt
        (look_first x [] sent received e),
  )
  look-IsDrawn side_0 two_queued x y w sent received ok_w ok e = inr (
    _,
    refl,
    as_drawn side_0 two_queued x y w served sent (received ++ x ∷ []) ok_w tt
        (look_first x (y ∷ []) sent received e),
  )
  look-IsDrawn side_1 two_queued x y w sent received ok_w ok e = inr (
    _,
    refl,
    as_drawn side_1 two_queued x y w served sent (received ++ x ∷ []) ok_w tt
        (look_first x (y ∷ []) sent received e),
  )

  pub release-IsDrawn :
      (i : Side) (n : Count) (x y : A) (w : Stage) (sent received : List A)
      → MayWrite n w
      → MayRead n served
      → sent ≡ received ++ pending n x y served
      → Leads (step_reader served (drawn i n x y w served sent received))
  unfolding step_reader read_begin get_state set_state read_done_set read_done_turn
  release-IsDrawn i none_queued x y w sent received ok_w ok e = absurd ok
  release-IsDrawn side_0 one_queued x y w sent received ok_w ok e =
      inr (_, refl, as_drawn side_1 none_queued y x w turning sent received tt tt e)
  release-IsDrawn side_1 one_queued x y w sent received ok_w ok e =
      inr (_, refl, as_drawn side_0 none_queued y x w turning sent received tt tt e)
  release-IsDrawn side_0 two_queued x y w sent received ok_w ok e =
      inr (_, refl, as_drawn side_1 one_queued y x w turning sent received tt tt e)
  release-IsDrawn side_1 two_queued x y w sent received ok_w ok e =
      inr (_, refl, as_drawn side_0 one_queued y x w turning sent received tt tt e)

  pub turn_reader-IsDrawn :
      (i : Side) (n : Count) (x y : A) (w : Stage) (sent received : List A)
      → MayWrite n w
      → MayRead n turning
      → sent ≡ received ++ pending n x y turning
      → Leads (step_reader turning (drawn i n x y w turning sent received))
  unfolding step_reader read_begin get_state set_state read_done_set read_done_turn
  turn_reader-IsDrawn side_0 none_queued x y w sent received ok_w ok e =
      inr (_, refl, as_drawn side_0 none_queued x y w outside sent received ok_w tt e)
  turn_reader-IsDrawn side_1 none_queued x y w sent received ok_w ok e =
      inr (_, refl, as_drawn side_1 none_queued x y w outside sent received ok_w tt e)
  turn_reader-IsDrawn side_0 one_queued x y w sent received ok_w ok e =
      inr (_, refl, as_drawn side_0 one_queued x y w outside sent received ok_w tt e)
  turn_reader-IsDrawn side_1 one_queued x y w sent received ok_w ok e =
      inr (_, refl, as_drawn side_1 one_queued x y w outside sent received ok_w tt e)
  turn_reader-IsDrawn side_0 two_queued x y w sent received ok_w ok e =
      inr (_, refl, as_drawn side_0 two_queued x y w outside sent received ok_w tt e)
  turn_reader-IsDrawn side_1 two_queued x y w sent received ok_w ok e =
      inr (_, refl, as_drawn side_1 two_queued x y w outside sent received ok_w tt e)
