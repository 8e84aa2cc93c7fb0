-- ===== src/BitbangPlayer/Fed.antt =====
-- The blocks that a writer (`main` in psplay.c) has handed over to a player (bitbang_player.c), and those to
-- come, under every step.
use psplay.Base.{
  ◌≡◌, refl, sym, ap, ap₂, ◌∙◌, ltb, ◌==◌, Bool-cases, inl, inr, Option, none, some, Option-cases,
  >>=-eq-some, List, [], ◌∷◌, ◌++◌, append_assoc, get_elem?, subst,
}
use psplay.CpuSpinner.{n_cores_active}
use psplay.PingPong.{
  Side, side_0, side_1, Pair, pair_at, pair_set, read_available, read_done_set, read_done_turn,
  set_state, write_begin,
}
use psplay.PingPong.System.{Stage, outside, holding, served, turning, step_writer, or_stay}
use psplay.BitbangPlayer.{
  Player, PlayState, stopped, playing, stopping, stalled, released, release, run_dry, fetch, emit,
  tick_cb_func, at_least_0, Doubles, ncores_of,
}
use psplay.BitbangPlayer.Playing.{Playing, as_system, with_writer}
use psplay.BitbangPlayer.Boundary.{with_player}
use psplay.BitbangPlayer.Feeding.{at_writer, feed}

pub pair_at-set : {A : Type 0} (b : Pair A) (i : Side) (a : A) → pair_at (pair_set b i a) i ≡ a
pair_at-set b side_0 a = refl
pair_at-set b side_1 a = refl

injected : {A : Type 0} (a b : A) → some a ≡ some b → a ≡ b
injected a b e = cc

module _ {Double : Type 0} where
  -- The blocks handed over, the one filled and the ones to come are all there were.
  abbrev pub Fed : List (List Double) → Stage → List (List Double) → Playing Double → Type 0
  Fed blocks outside pending s = s.sent ++ pending ≡ blocks
  Fed blocks holding pending s = s.sent ++ pending ≡ blocks
  Fed blocks served pending s = s.sent ++ at_writer s ∷ pending ≡ blocks
  Fed blocks turning pending s = s.sent ++ pending ≡ blocks

  -- A step of the writer at a stage.
  abbrev pub stepped : List Double → Stage → Playing Double → Playing Double
  stepped a w s = let y = as_system outside [] s in with_writer s (or_stay y (step_writer a w y))

  begun-Fed :
      (blocks pending : List (List Double)) (s : Playing Double)
      → s.writer ≡ outside
      → Fed blocks outside pending s
      → Fed blocks
          (stepped (at_writer s) outside s).writer
          pending
          (stepped (at_writer s) outside s)
  unfolding step_writer
  begun-Fed blocks pending s e v = elim (Option-cases (write_begin s.player.ppbuf)) [
    | inl asleep ↦ rw asleep (subst (λ w. Fed blocks w pending s) (sym e) v)
    | inr (i, at) ↦ rw at v
  ]

  pub stepped-Fed :
      (blocks pending : List (List Double)) (w : Stage) (s : Playing Double)
      → s.writer ≡ w
      → Fed blocks w pending s
      → Fed blocks
          (feed w pending s).playing.writer
          (feed w pending s).pending
          (feed w pending s).playing
  unfolding feed step_writer
  stepped-Fed blocks pending outside s e v =
      subst (λ w. Fed blocks (stepped (at_writer s) w s).writer pending (stepped (at_writer s) w s))
        (sym e) (begun-Fed blocks pending s e v)
  stepped-Fed blocks [] holding s e v = subst (λ w. Fed blocks w [] s) (sym e) v
  stepped-Fed blocks (a ∷ rest) holding s e v =
      subst (λ w. Fed blocks (stepped a w s).writer rest (stepped a w s)) (sym e)
        (ap (λ b. s.sent ++ b ∷ rest) (pair_at-set s.player.ppbuf.buf s.player.ppbuf.buf_writei a)
          ∙ v)
  stepped-Fed blocks pending served s e v =
      subst (λ w. Fed blocks (stepped (at_writer s) w s).writer pending (stepped (at_writer s) w s))
        (sym e) (append_assoc s.sent (at_writer s ∷ []) pending ∙ v)
  stepped-Fed blocks pending turning s e v =
      subst (λ w. Fed blocks (stepped (at_writer s) w s).writer pending (stepped (at_writer s) w s))
        (sym e) v

  pub released-keeps :
      (o : Option Side) (p : Player Double)
      → ((released o p).ppbuf.buf ≡ p.ppbuf.buf)
        × ((released o p).ppbuf.buf_writei ≡ p.ppbuf.buf_writei)
  unfolding read_done_set read_done_turn set_state
  released-keeps none p = (refl, refl)
  released-keeps (some i) p = (refl, refl)

  run_dry-keeps : (st : PlayState) (p : Player Double) → (run_dry st p).ppbuf ≡ p.ppbuf
  unfolding run_dry
  run_dry-keeps stopped p = refl
  run_dry-keeps playing p = refl
  run_dry-keeps stopping p = refl
  run_dry-keeps stalled p = refl

  fetch-keeps : (p : Player Double) → (fetch p).ppbuf ≡ p.ppbuf
  unfolding fetch
  fetch-keeps p = elim (Bool-cases (read_available p.ppbuf)) [
    | inl there ↦ rw there refl
    | inr dry ↦ rw dry (run_dry-keeps p.state p)
  ]

  module _ (D : Doubles Double) where
    emit-keeps : (p p' : Player Double) → emit D p ≡ some p' → p'.ppbuf ≡ p.ppbuf
    unfolding emit
    emit-keeps p p' e = elim (Bool-cases (ltb p.index p.size)) [
      | inr over ↦ ap (λ q. q.ppbuf) (sym (injected p p' (rw over at e)))
      | inl inside ↦
          let (side, b, e1) = >>=-eq-some p.buf _ (rw inside at e) in
          let (sample, g, e2) = >>=-eq-some (get_elem? (pair_at p.ppbuf.buf side) p.index) _ e1 in
          let (cores, c, e3) =
            >>=-eq-some
              (n_cores_active (at_least_0 (ncores_of D sample p.gain p.spinner.num_cores))) _ e2 in
          ap (λ q. q.ppbuf) (sym (injected _ p' e3))
    ]

    pub tick-keeps :
        (p p' : Player Double)
        → tick_cb_func D p ≡ some p'
        → (p'.ppbuf.buf ≡ p.ppbuf.buf) × (p'.ppbuf.buf_writei ≡ p.ppbuf.buf_writei)
    unfolding tick_cb_func release
    tick-keeps p p' e = elim (Bool-cases (p.size == p.index)) [
      | inr inside ↦
          let k = emit-keeps p p' (rw inside at e) in (ap (λ b. b.buf) k, ap (λ b. b.buf_writei) k)
      | inl over ↦
          let q = released p.buf p in
          let k = emit-keeps (fetch q) p' (rw over at e) ∙ fetch-keeps q in
          let (same_buf, same_writei) = released-keeps p.buf p in
          (ap (λ b. b.buf) k ∙ same_buf, ap (λ b. b.buf_writei) k ∙ same_writei)
    ]

    pub ticked-Fed :
        (blocks pending : List (List Double)) (w : Stage) (s : Playing Double) (p : Player Double)
        → tick_cb_func D s.player ≡ some p
        → Fed blocks w pending s
        → Fed blocks w pending (with_player s p)
    ticked-Fed blocks pending outside s p e v = v
    ticked-Fed blocks pending holding s p e v = v
    ticked-Fed blocks pending turning s p e v = v
    ticked-Fed blocks pending served s p e v =
        let (same_buf, same_writei) = tick-keeps s.player p e in
        ap₂ (λ b i. s.sent ++ pair_at b i ∷ pending) same_buf same_writei ∙ v
