-- ===== src/PingPong/Writer.antt =====
-- Every step of the writer of a ping-pong buffer (ping_pong_buf.c) keeps the drawing.
use psplay.Base.{List, [], ◌∷◌, ◌++◌, ◌≡◌, refl, ap, ◌∙◌, append_assoc, inl, inr}
use psplay.PingPong.{
  Side, side_0, side_1, get_state, set_state, write_begin, write_done_set, write_done_turn,
}
use psplay.PingPong.System.{Stage, outside, holding, served, turning, step_writer}
use psplay.PingPong.Queue.{Leads}
use psplay.PingPong.Queue.{
  Count, none_queued, one_queued, two_queued, MayWrite, MayRead, pending, drawn, as_drawn,
}

module _ {A : Type 0} where
  -- One more value behind the pending ones.
  publish_first :
      (x y : A) (r : Stage) (sent received : List A)
      → MayRead none_queued r
      → sent ≡ received ++ pending none_queued x y r
      → sent ++ x ∷ [] ≡ received ++ pending one_queued x y r
  publish_first x y outside sent received ok e =
      ap (λ l. l ++ x ∷ []) e ∙ append_assoc received [] (x ∷ [])
  publish_first x y holding sent received ok e = absurd ok
  publish_first x y served sent received ok e = absurd ok
  publish_first x y turning sent received ok e =
      ap (λ l. l ++ x ∷ []) e ∙ append_assoc received [] (x ∷ [])

  publish_second :
      (x y : A) (r : Stage) (sent received : List A)
      → sent ≡ received ++ pending one_queued x y r
      → sent ++ y ∷ [] ≡ received ++ pending two_queued x y r
  publish_second x y outside sent received e =
      ap (λ l. l ++ y ∷ []) e ∙ append_assoc received (x ∷ []) (y ∷ [])
  publish_second x y holding sent received e =
      ap (λ l. l ++ y ∷ []) e ∙ append_assoc received (x ∷ []) (y ∷ [])
  publish_second x y served sent received e =
      ap (λ l. l ++ y ∷ []) e ∙ append_assoc received [] (y ∷ [])
  publish_second x y turning sent received e =
      ap (λ l. l ++ y ∷ []) e ∙ append_assoc received (x ∷ []) (y ∷ [])

  -- What is not queued does not count.
  refill_first :
      (x a y : A) (r : Stage) {sent : List A} (received : List A)
      → sent ≡ received ++ pending none_queued x y r
      → sent ≡ received ++ pending none_queued a y r
  refill_first x a y outside received e = e
  refill_first x a y holding received e = e
  refill_first x a y served received e = e
  refill_first x a y turning received e = e

  refill_second :
      (x y a : A) (r : Stage) {sent : List A} (received : List A)
      → sent ≡ received ++ pending one_queued x y r
      → sent ≡ received ++ pending one_queued x a r
  refill_second x y a outside received e = e
  refill_second x y a holding received e = e
  refill_second x y a served received e = e
  refill_second x y a turning received e = e

  pub begin_write-IsDrawn :
      (a : A) (i : Side) (n : Count) (x y : A) (r : Stage) (sent received : List A)
      → MayWrite n outside
      → MayRead n r
      → sent ≡ received ++ pending n x y r
      → Leads (step_writer a outside (drawn i n x y outside r sent received))
  unfolding step_writer write_begin get_state set_state write_done_set write_done_turn
  begin_write-IsDrawn a side_0 none_queued x y r sent received ok ok_r e =
      inr (_, refl, as_drawn side_0 none_queued x y holding r sent received tt ok_r e)
  begin_write-IsDrawn a side_1 none_queued x y r sent received ok ok_r e =
      inr (_, refl, as_drawn side_1 none_queued x y holding r sent received tt ok_r e)
  begin_write-IsDrawn a side_0 one_queued x y r sent received ok ok_r e =
      inr (_, refl, as_drawn side_0 one_queued x y holding r sent received tt ok_r e)
  begin_write-IsDrawn a side_1 one_queued x y r sent received ok ok_r e =
      inr (_, refl, as_drawn side_1 one_queued x y holding r sent received tt ok_r e)
  begin_write-IsDrawn a side_0 two_queued x y r sent received ok ok_r e = inl refl
  begin_write-IsDrawn a side_1 two_queued x y r sent received ok ok_r e = inl refl

  pub fill-IsDrawn :
      (a : A) (i : Side) (n : Count) (x y : A) (r : Stage) (sent received : List A)
      → MayWrite n holding
      → MayRead n r
      → sent ≡ received ++ pending n x y r
      → Leads (step_writer a holding (drawn i n x y holding r sent received))
  unfolding step_writer write_begin get_state set_state write_done_set write_done_turn
  fill-IsDrawn a side_0 none_queued x y r sent received ok ok_r e = inr (
    _,
    refl,
    as_drawn side_0 none_queued a y served r sent received tt ok_r
        (refill_first x a y r received e),
  )
  fill-IsDrawn a side_1 none_queued x y r sent received ok ok_r e = inr (
    _,
    refl,
    as_drawn side_1 none_queued a y served r sent received tt ok_r
        (refill_first x a y r received e),
  )
  fill-IsDrawn a side_0 one_queued x y r sent received ok ok_r e = inr (
    _,
    refl,
    as_drawn side_0 one_queued x a served r sent received tt ok_r
        (refill_second x y a r received e),
  )
  fill-IsDrawn a side_1 one_queued x y r sent received ok ok_r e = inr (
    _,
    refl,
    as_drawn side_1 one_queued x a served r sent received tt ok_r
        (refill_second x y a r received e),
  )
  fill-IsDrawn a i two_queued x y r sent received ok ok_r e = absurd ok

  pub publish-IsDrawn :
      (a : A) (i : Side) (n : Count) (x y : A) (r : Stage) (sent received : List A)
      → MayWrite n served
      → MayRead n r
      → sent ≡ received ++ pending n x y r
      → Leads (step_writer a served (drawn i n x y served r sent received))
  unfolding step_writer write_begin get_state set_state write_done_set write_done_turn
  publish-IsDrawn a side_0 none_queued x y r sent received ok ok_r e = inr (
    _,
    refl,
    as_drawn side_0 one_queued x y turning r (sent ++ x ∷ []) received tt tt
        (publish_first x y r sent received ok_r e),
  )
  publish-IsDrawn a side_1 none_queued x y r sent received ok ok_r e = inr (
    _,
    refl,
    as_drawn side_1 one_queued x y turning r (sent ++ x ∷ []) received tt tt
        (publish_first x y r sent received ok_r e),
  )
  publish-IsDrawn a side_0 one_queued x y r sent received ok ok_r e = inr (
    _,
    refl,
    as_drawn side_0 two_queued x y turning r (sent ++ y ∷ []) received tt tt
        (publish_second x y r sent received e),
  )
  publish-IsDrawn a side_1 one_queued x y r sent received ok ok_r e = inr (
    _,
    refl,
    as_drawn side_1 two_queued x y turning r (sent ++ y ∷ []) received tt tt
        (publish_second x y r sent received e),
  )
  publish-IsDrawn a i two_queued x y r sent received ok ok_r e = absurd ok

  pub turn_writer-IsDrawn :
      (a : A) (i : Side) (n : Count) (x y : A) (r : Stage) (sent received : List A)
      → MayWrite n turning
      → MayRead n r
      → sent ≡ received ++ pending n x y r
      → Leads (step_writer a turning (drawn i n x y turning r sent received))
  unfolding step_writer write_begin get_state set_state write_done_set write_done_turn
  turn_writer-IsDrawn a side_0 none_queued x y r sent received ok ok_r e =
      inr (_, refl, as_drawn side_0 none_queued x y outside r sent received tt ok_r e)
  turn_writer-IsDrawn a side_1 none_queued x y r sent received ok ok_r e =
      inr (_, refl, as_drawn side_1 none_queued x y outside r sent received tt ok_r e)
  turn_writer-IsDrawn a side_0 one_queued x y r sent received ok ok_r e =
      inr (_, refl, as_drawn side_0 one_queued x y outside r sent received tt ok_r e)
  turn_writer-IsDrawn a side_1 one_queued x y r sent received ok ok_r e =
      inr (_, refl, as_drawn side_1 one_queued x y outside r sent received tt ok_r e)
  turn_writer-IsDrawn a side_0 two_queued x y r sent received ok ok_r e =
      inr (_, refl, as_drawn side_0 two_queued x y outside r sent received tt ok_r e)
  turn_writer-IsDrawn a side_1 two_queued x y r sent received ok ok_r e =
      inr (_, refl, as_drawn side_1 two_queued x y outside r sent received tt ok_r e)
