-- ===== src/BitbangPlayer/Boundary.antt =====
-- What a tick of the player (bitbang_player.c) does, and that it keeps in step with the buffer.
use psplay.Base.{
  ℕ, ◌≡◌, refl, arith, Bool, true, false, if◌then◌else◌, Option, none, some, ◌>>=◌, List, [], ◌∷◌,
  ◌++◌, append_assoc, append-nil, length, take, take-length, subst, sym, ap, ◌∙◌,
}
use psplay.PingPong.{
  State, is_active, free, active, Side, side_0, side_1, Pair, PpBuf, pair_at, get_state,
  read_available, read_begin, read_done_set, read_done_turn, set_state,
}
use psplay.PingPong.Queue.{IsDrawn}
use psplay.PingPong.System.{outside, holding, System, step_reader, or_stay}
use psplay.PingPong.System as System
use psplay.PingPong.Order.{or_stay-IsDrawn, reader-Leads, run-IsDrawn}
use psplay.BitbangPlayer.{
  Player, PlayState, stopped, playing, stopping, stalled, released, release, resume, run_dry, fetch,
}
use psplay.BitbangPlayer.Playing.{Playing, as_system}
use psplay.BitbangPlayer.Follows.{AreFull, concat, in_hand, Follows, between, within}

module _ {A : Type 0} where
  available-begin : (pp : PpBuf A) → read_available pp ≡ true → read_begin pp ≡ some pp.buf_readi
  unfolding read_available read_begin
  available-begin pp h = by_state (get_state pp pp.buf_readi) h
    where
      by_state :
          (st : State)
          → is_active st ≡ true
          → elim st as (λ x. Option Side) [ active ↦ some pp.buf_readi | free ↦ none ]
            ≡ some pp.buf_readi
      by_state free h = cc
      by_state active h = refl

  pub concat-append : (xs ys : List (List A)) → concat (xs ++ ys) ≡ concat xs ++ concat ys
  concat-append [] ys = refl
  concat-append (x ∷ xs) ys =
      ap (λ t. x ++ t) (concat-append xs ys) ∙ sym (append_assoc x (concat xs) (concat ys))

  pub AreFull-length :
      (size : ℕ) (b : Pair (List A)) (i : Side) → AreFull size b → length (pair_at b i) ≡ size
  AreFull-length size b side_0 (f, g) = f
  AreFull-length size b side_1 (f, g) = g

module _ {Double : Type 0} where
  abbrev pub with_player : Playing Double → Player Double → Playing Double
  with_player s p = record s { player = p }

  take_block :
      (y : System (List Double)) (i : Side)
      → y.reader ≡ outside
      → read_begin y.pp ≡ some i
      → IsDrawn y
      → IsDrawn (record y { reader = holding })
  unfolding step_reader
  take_block y i r h d =
      subst (λ o. IsDrawn (or_stay y (o >>= λ j. some (record y { reader = holding })))) h
        (subst (λ r. IsDrawn (or_stay y (step_reader r y))) r
          (or_stay-IsDrawn y (step_reader y.reader y) d (reader-Leads y d)))

  module _ (s : Playing Double) (received : List (List Double)) where
    run_dry-Follows :
        (state : PlayState)
        → s.player.buf ≡ none
        → s.player.index ≡ s.player.size
        → s.player.played ≡ concat received
        → AreFull s.player.size s.player.ppbuf.buf
        → IsDrawn (as_system outside received s)
        → Follows (with_player s (run_dry state s.player))
    unfolding run_dry
    run_dry-Follows stopped b i e f d = between received b i e f d
    run_dry-Follows playing b i e f d = between received b i e f d
    run_dry-Follows stopping b i e f d = between received b i e f d
    run_dry-Follows stalled b i e f d = between received b i e f d

    fetch-Follows :
        s.player.buf ≡ none
        → s.player.index ≡ s.player.size
        → s.player.played ≡ concat received
        → AreFull s.player.size s.player.ppbuf.buf
        → IsDrawn (as_system outside received s)
        → Follows (with_player s (fetch s.player))
    unfolding fetch
    fetch-Follows b i e f d = by_available (read_available s.player.ppbuf) refl
      where
        by_available :
            (x : Bool)
            → read_available s.player.ppbuf ≡ x
            → Follows (
                with_player s (
                  if x
                  then record s.player {
                    buf = read_begin s.player.ppbuf;
                    index = 0;
                    state = resume s.player.state;
                  }
                  else run_dry s.player.state s.player))
        by_available true h =
            let begun = available-begin s.player.ppbuf h in
            within received begun (omega arith) (e ∙ sym (append-nil (concat received))) f
              (take_block (as_system outside received s) s.player.ppbuf.buf_readi refl begun d)
        by_available false h = run_dry-Follows s.player.state b i e f d

    release_within :
        s.player.buf ≡ some s.player.ppbuf.buf_readi
        → release s.player ≡ released (some s.player.ppbuf.buf_readi) s.player
    unfolding release
    release_within b = ap (λ o. released o s.player) b

    -- The block is played out.
    block_end :
        s.player.index ≡ s.player.size
        → s.player.played ≡ concat received ++ take s.player.index (in_hand s.player)
        → AreFull s.player.size s.player.ppbuf.buf
        → s.player.played ≡ concat (received ++ in_hand s.player ∷ [])
    block_end i e f =
        let l = AreFull-length s.player.size s.player.ppbuf.buf s.player.ppbuf.buf_readi f in
        e
        ∙ ap (λ k. concat received ++ take k (in_hand s.player)) (i ∙ sym l)
        ∙ ap (λ t. concat received ++ t) (take-length (in_hand s.player))
        ∙ ap (λ t. concat received ++ t) (sym (append-nil (in_hand s.player)))
        ∙ sym (concat-append received (in_hand s.player ∷ []))

    released-IsDrawn :
        IsDrawn (as_system holding received s)
        → IsDrawn (
            as_system outside
              (received ++ in_hand s.player ∷ [])
              (with_player s (released (some s.player.ppbuf.buf_readi) s.player)))
    unfolding System.run step_reader
    released-IsDrawn d = run-IsDrawn (none ∷ none ∷ none ∷ []) (as_system holding received s) d

    released-AreFull :
        AreFull s.player.size s.player.ppbuf.buf
        → AreFull s.player.size (read_done_turn (read_done_set s.player.ppbuf)).buf
    unfolding read_done_turn read_done_set set_state
    released-AreFull f = f

  -- At the end of a block, or between blocks.
  pub turn_over-Follows :
      (s : Playing Double)
      → s.player.index ≡ s.player.size
      → Follows s
      → Follows (with_player s (fetch (release s.player)))
  turn_over-Follows s i (between received b i' e f d) =
      subst (λ p. Follows (with_player s (fetch p))) (sym (stays b))
        (fetch-Follows s received b i e f d)
    where
      stays : s.player.buf ≡ none → release s.player ≡ s.player
      stays b = unfold release in ap (λ o. released o s.player) b
  turn_over-Follows s i (within received b i' e f d) =
      let s' = with_player s (released (some s.player.ppbuf.buf_readi) s.player) in
      subst (λ p. Follows (with_player s (fetch p))) (sym (release_within s received b))
        (fetch-Follows s' (received ++ in_hand s.player ∷ []) refl i (block_end s received i e f)
          (released-AreFull s received f) (released-IsDrawn s received d))

  released-size : (o : Option Side) (p : Player Double) → (released o p).size ≡ p.size
  released-size none p = refl
  released-size (some side) p = refl

  run_dry-size : (state : PlayState) (p : Player Double) → (run_dry state p).size ≡ p.size
  unfolding run_dry
  run_dry-size stopped p = refl
  run_dry-size playing p = refl
  run_dry-size stopping p = refl
  run_dry-size stalled p = refl

  fetch-size : (p : Player Double) → (fetch p).size ≡ p.size
  unfolding fetch
  fetch-size p = ground (arith, run_dry-size p.state p)

  pub turn_over-size : (p : Player Double) → (fetch (release p)).size ≡ p.size
  unfolding release
  turn_over-size p = fetch-size (release p) ∙ released-size p.buf p
