-- ===== src/BitbangPlayer/Played.antt =====
-- What an audio player (bitbang_player.c) plays of what the writer hands over.
use psplay.Base.{
  ℕ, suc, ◌+◌, ◌*◌, ◌<◌, ◌≤◌, ◌≡◌, refl, arith, Bool, true, false, ◌==◌, if◌then◌else◌, Option,
  none, some, ◌>>=◌, List, [], ◌∷◌, ◌++◌, append_assoc, length, get_elem?, take, drop, take-suc,
  take-append-drop, All, length-append, length-drop_le, subst, sym, ap, ◌∙◌,
}
use psplay.CpuSpinner.{spin, n_cores_active}
use psplay.CpuSpinner.Cores.{n_cores_active_lem}
use psplay.PingPong.{Side, side_0, side_1, Pair, PpBuf, pair_at}
use psplay.PingPong
use psplay.PingPong.Queue.{
  Count, none_queued, one_queued, two_queued, place, queued, IsDrawn, as_drawn,
}
use psplay.PingPong.System.{outside, holding, served, turning, System}
use psplay.PingPong.Order.{start-IsDrawn}
use psplay.BitbangPlayer.{
  Doubles, Player, play, release, fetch, ncores_of, emit, tick_cb_func, at_least_0,
}
use psplay.BitbangPlayer.Sounding.{
  AskFew, Sounded, silent, IsSounding, kept-IsSounding, turn_over-IsSounding, tick-IsSounding,
}
use psplay.BitbangPlayer.Handed.{
  All-middle, All-at, Handed, Handed-sent, stepped-Handed, ticked-Handed,
}
use psplay.BitbangPlayer.Playing.{Playing, begin_playing, as_system, writer_step, run}
use psplay.BitbangPlayer.Follows.{
  AreFull, concat, in_hand, Follows, between, within, writer_step-Follows,
}
use psplay.BitbangPlayer.Boundary.{
  concat-append, with_player, turn_over-Follows, turn_over-size, AreFull-length,
}
use native.Mathlib.Decide.{dec_lt}

module _ {A : Type 0} where
  length-queued :
      (size : ℕ) (i : Side) (n : Count) (x y : List A)
      → AreFull size (place i x y)
      → length (concat (queued n x y)) ≤ 2 * size
  length-queued size i none_queued x y f = omega arith
  length-queued size side_0 one_queued x y (f, g) = omega (arith, length-append x [])
  length-queued size side_1 one_queued x y (f, g) = omega (arith, length-append x [])
  length-queued size side_0 two_queued x y (f, g) =
      omega (arith, length-append x (y ++ []), length-append y [])
  length-queued size side_1 two_queued x y (f, g) =
      omega (arith, length-append x (y ++ []), length-append y [])

  -- What the player has yet to play, between blocks and within one.
  waiting :
      (size : ℕ) (y : System (List A))
      → IsDrawn y
      → y.reader ≡ outside
      → AreFull size y.pp.buf
      → (more : List (List A)) × (y.sent ≡ y.received ++ more) × (length (concat more) ≤ 2 * size)
  waiting size s (as_drawn i n x y w holding sent received w_ok r_ok e) h f = cc
  waiting size s (as_drawn i n x y w served sent received w_ok r_ok e) h f = cc
  waiting size s (as_drawn i n x y w turning sent received w_ok r_ok e) h f = cc
  waiting size s (as_drawn i n x y w outside sent received w_ok r_ok e) h f =
      (queued n x y, e, length-queued size i n x y f)

  waiting_behind :
      (size : ℕ) (y : System (List A))
      → IsDrawn y
      → y.reader ≡ holding
      → AreFull size y.pp.buf
      → (more : List (List A)) × (y.sent ≡ y.received ++ pair_at y.pp.buf y.pp.buf_readi ∷ more)
        × (length (concat more) ≤ size)
  waiting_behind size s (as_drawn i n x y w outside sent received w_ok r_ok e) h f = cc
  waiting_behind size s (as_drawn i n x y w served sent received w_ok r_ok e) h f = cc
  waiting_behind size s (as_drawn i n x y w turning sent received w_ok r_ok e) h f = cc
  waiting_behind size s (as_drawn side_0 none_queued x y w holding sent received w_ok r_ok e) h f =
      absurd r_ok
  waiting_behind size s (as_drawn side_0 one_queued x y w holding sent received w_ok r_ok e) h f =
      ([], e, omega arith)
  waiting_behind size s (as_drawn side_0 two_queued x y w holding sent received w_ok r_ok e) h
        (f, g) =
      (y ∷ [], e, omega (arith, length-append y []))
  waiting_behind size s (as_drawn side_1 none_queued x y w holding sent received w_ok r_ok e) h f =
      absurd r_ok
  waiting_behind size s (as_drawn side_1 one_queued x y w holding sent received w_ok r_ok e) h f =
      ([], e, omega arith)
  waiting_behind size s (as_drawn side_1 two_queued x y w holding sent received w_ok r_ok e) h
        (f, g) =
      (y ∷ [], e, omega (arith, length-append y []))

module _ {Double : Type 0} where
  -- Every block of the schedule fills a buffer.
  abbrev pub FullTurns : ℕ → List (Option (List Double)) → Type 0
  FullTurns size [] = Unit
  FullTurns size (none ∷ turns) = FullTurns size turns
  FullTurns size (some a ∷ turns) = (length a ≡ size) × FullTurns size turns

  -- What a player in step with its buffer has played, and what it has yet to play.
  abbrev pub Plays : ℕ → Playing Double → Type 0
  Plays size s =
      (rest : List Double) × (concat s.sent ≡ s.player.played ++ rest) × (length rest ≤ 2 * size)

  pub Follows-Plays : (s : Playing Double) → Follows s → Plays s.player.size s
  Follows-Plays s (between received b i e f d) =
      let (more, q, l) = waiting s.player.size (as_system outside received s) d refl f in
      (
        concat more,
        ap concat q ∙ concat-append received more ∙ ap (λ t. t ++ concat more) (sym e),
        l,
      )
  Follows-Plays s (within received b i e f d) =
      let x = in_hand s.player in
      let k = s.player.index in
      let (more, q, l) = waiting_behind s.player.size (as_system holding received s) d refl f in
      let full = AreFull-length s.player.size s.player.ppbuf.buf s.player.ppbuf.buf_readi f in
      (
        drop k x ++ concat more,
        ap concat q
            ∙ concat-append received (x ∷ more)
            ∙ ap (λ t. concat received ++ t)
                (ap (λ t. t ++ concat more) (sym (take-append-drop k x))
                  ∙ append_assoc (take k x) (drop k x) (concat more))
            ∙ sym (append_assoc (concat received) (take k x) (drop k x ++ concat more))
            ∙ ap (λ t. t ++ (drop k x ++ concat more)) (sym e),
        omega (arith, length-append (drop k x) (concat more), length-drop_le k x),
      )

module _ {Double : Type 0} (D : Doubles Double) where
  pub emit_sample :
      (p : Player Double) (side : Side) (sample : Double) (cores : ℕ)
      → p.index < p.size
      → p.buf ≡ some side
      → get_elem? (pair_at p.ppbuf.buf side) p.index ≡ some sample
      → n_cores_active (at_least_0 (ncores_of D sample p.gain p.spinner.num_cores)) ≡ some cores
      → emit D p
        ≡ some (record p {
          spinner = spin p.spinner cores;
          index = p.index + 1;
          played = p.played ++ sample ∷ [];
        })
  unfolding emit
  emit_sample p side sample cores l b g c = ground arith

  module _ (gain : Double) (num_cores : ℕ) (before : List ℕ) where
    -- The sample that comes next asks for fewer than 64 cores.
    next_few :
        (s : Playing Double) (received more : List (List Double)) (sample : Double)
        → IsSounding D gain num_cores before s.player
        → All (AskFew D gain num_cores) s.sent
        → s.sent ≡ received ++ in_hand s.player ∷ more
        → get_elem? (in_hand s.player) s.player.index ≡ some sample
        → at_least_0 (ncores_of D sample s.player.gain s.player.spinner.num_cores) < 64
    next_few s received more sample o few q at =
        let block_few =
          All-middle (AskFew D gain num_cores) received (in_hand s.player) more
            (subst (λ l. All (AskFew D gain num_cores) l) q few) in
        let sample_few =
          All-at (λ x. at_least_0 (ncores_of D x gain num_cores) < 64) (in_hand s.player)
            s.player.index sample block_few at in
        subst (λ g. at_least_0 (ncores_of D sample g s.player.spinner.num_cores) < 64)
          (sym o.gain_is)
          (subst (λ n. at_least_0 (ncores_of D sample gain n) < 64) (sym o.cores_are) sample_few)

    emit-Follows :
        (s : Playing Double)
        → IsSounding D gain num_cores before s.player
        → All (AskFew D gain num_cores) s.sent
        → Follows s
        → (p : Player Double) × (emit D s.player ≡ some p)
          × Follows (with_player s p)
          × (p.size ≡ s.player.size)
    unfolding emit
    emit-Follows s o few (between received b i e f d) =
        (s.player, ground arith, between received b i e f d, refl)
    emit-Follows s o few (within received b i e f d) = elim (dec_lt s.player.index s.player.size) [
      | yes l ↦
          let x = in_hand s.player in
          let full = AreFull-length s.player.size s.player.ppbuf.buf s.player.ppbuf.buf_readi f in
          let (sample, g, t) = take-suc x s.player.index (omega arith) in
          let asked = at_least_0 (ncores_of D sample s.player.gain s.player.spinner.num_cores) in
          let one_more : suc s.player.index ≡ s.player.index + 1 = omega arith in
          let (more, q, w) = waiting_behind s.player.size (as_system holding received s) d refl f in
          let (cores, c, on) =
            n_cores_active_lem asked (next_few s received more sample o few q g) in
          (
            _,
            emit_sample s.player s.player.ppbuf.buf_readi sample cores l b g c,
            within received b (omega arith)
                (ap (λ q. q ++ sample ∷ []) e
                  ∙ append_assoc (concat received) (take s.player.index x) (sample ∷ [])
                  ∙ ap (λ q. concat received ++ q) (sym t ∙ ap (λ (k : ℕ). take k x) one_more))
                f d,
            refl,
          )
      | no ge ↦ (s.player, ground arith, within received b i e f d, refl)
    ]

    pub tick-Follows :
        (s : Playing Double)
        → IsSounding D gain num_cores before s.player
        → All (AskFew D gain num_cores) s.sent
        → Follows s
        → (p : Player Double) × (tick_cb_func D s.player ≡ some p)
          × Follows (with_player s p)
          × (p.size ≡ s.player.size)
    unfolding tick_cb_func
    tick-Follows s o few v = by_end (s.player.size == s.player.index) refl
      where
        by_end :
            (b : Bool)
            → (s.player.size == s.player.index) ≡ b
            → (p : Player Double) × (emit D (if b then fetch (release s.player) else s.player)
                ≡ some p)
              × Follows (with_player s p)
              × (p.size ≡ s.player.size)
        by_end true h =
            let (p, e, w, k) =
              emit-Follows (with_player s (fetch (release s.player)))
                (turn_over-IsSounding D gain num_cores before s.player o) few
                (turn_over-Follows s (ground arith) v) in
            (p, e, w, k ∙ turn_over-size s.player)
        by_end false h = emit-Follows s o few v

    -- No sample of a block of the schedule asks for 64 cores or more.
    abbrev pub FewTurns : List (Option (List Double)) → Type 0
    FewTurns [] = Unit
    FewTurns (none ∷ turns) = FewTurns turns
    FewTurns (some a ∷ turns) = AskFew D gain num_cores a × FewTurns turns

    run-Follows :
        (turns : List (Option (List Double))) (s : Playing Double) (size : ℕ)
        → s.player.size ≡ size
        → FullTurns size turns
        → FewTurns turns
        → IsSounding D gain num_cores before s.player
        → Handed (AskFew D gain num_cores) s.writer s
        → Follows s
        → (s' : Playing Double) × (run D turns s ≡ some s')
          × Follows s'
          × (s'.player.size ≡ size)
          × IsSounding D gain num_cores before s'.player
    unfolding run
    run-Follows [] s size e full few o h v = (s, refl, v, e, o)
    run-Follows (some a ∷ turns) s size e (l, full) (q, few) o h v =
        run-Follows turns (writer_step a s) size e full few
          (kept-IsSounding D gain num_cores before s.player (writer_step a s).player refl refl refl
            o)
          (stepped-Handed (AskFew D gain num_cores) a s.writer s refl q h)
          (writer_step-Follows a s (l ∙ sym e) v)
    run-Follows (none ∷ turns) s size e full few o h v =
        let all_few = Handed-sent (AskFew D gain num_cores) s.writer s h in
        let (p, t, w, k) = tick-Follows s o all_few v in
        let (s', r, w', k', o') =
          run-Follows turns (with_player s p) size (k ∙ e) full few
            (tick-IsSounding D gain num_cores before s.player p t o)
            (ticked-Handed (AskFew D gain num_cores) D s.writer s p t h) w in
        (s', ap (λ o. o >>= λ p. run D turns (with_player s p)) t ∙ r, w', k', o')

  pub play-Follows :
      (buf : Pair (List Double)) (size : ℕ) (p : Player Double)
      → p.buf ≡ none
      → p.played ≡ []
      → AreFull size buf
      → Follows (begin_playing buf size p)
  unfolding play PingPong.init
  play-Follows buf size p b e f = between [] b refl e f (start-IsDrawn buf)

  pub play-IsSounding :
      (buf : Pair (List Double)) (size : ℕ) (p : Player Double)
      → p.played ≡ []
      → IsSounding D p.gain p.spinner.num_cores p.spinner.asked (begin_playing buf size p).player
  unfolding play
  play-IsSounding buf size p e = record {
    gain_is = refl;
    cores_are = refl;
    asked_is =
        subst (λ l. Sounded D p.gain p.spinner.num_cores p.spinner.asked l p.spinner.asked) (sym e)
          silent;
  }

  -- Where the player starts with no buffer in hand, and every block of the schedule fills a buffer and
  -- has no sample that asks for 64 cores or more, with the player's gain and so many cores as there
  -- are: in every order of the writer's steps and the player's ticks no tick faults; the samples played
  -- are those of the blocks handed over, in the same order and each once, and at most two blocks of
  -- them wait; and the calls of `cpu_spinner_spin` are, for each sample played in turn, one with the
  -- cores that it asks for, and in between some for none.
  pub run-played :
      (buf : Pair (List Double)) (size : ℕ) (p : Player Double)
      (turns : List (Option (List Double)))
      → p.buf ≡ none
      → p.played ≡ []
      → AreFull size buf
      → FullTurns size turns
      → FewTurns p.gain p.spinner.num_cores p.spinner.asked turns
      → (s : Playing Double) × (run D turns (begin_playing buf size p) ≡ some s)
        × Plays size s
        × Sounded D p.gain p.spinner.num_cores p.spinner.asked s.player.played
            s.player.spinner.asked
  unfolding play
  run-played buf size p turns b e f full few =
      let (s, r, v, k, o) =
        run-Follows p.gain p.spinner.num_cores p.spinner.asked turns (begin_playing buf size p) size
          refl full few (play-IsSounding buf size p e) tt (play-Follows buf size p b e f) in
      (s, r, subst (λ n. Plays n s) k (Follows-Plays s v), o.asked_is)
