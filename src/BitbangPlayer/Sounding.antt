-- ===== src/BitbangPlayer/Sounding.antt =====
-- The calls of `cpu_spinner_spin` that an audio player (bitbang_player.c) makes for what it plays.
use psplay.Base.{
  ℕ, ◌+◌, ◌<◌, ◌≡◌, sym, ap, ◌∙◌, ltb, ◌==◌, Bool-cases, inl, inr, Option, none, some, >>=-eq-some,
  List, [], ◌∷◌, ◌++◌, All, get_elem?, subst,
}
use psplay.CpuSpinner.{spin, n_cores_active}
use psplay.CpuSpinner.Edges.{spin-asked}
use psplay.PingPong.{Side, pair_at, read_available}
use psplay.BitbangPlayer.{
  Doubles, Player, PlayState, stopped, playing, stopping, stalled, all_cores_idle, released,
  release, run_dry, fetch, ncores_of, emit, tick_cb_func, at_least_0,
}

injected : {A : Type 0} (a b : A) → some a ≡ some b → a ≡ b
injected a b e = cc

module _ {Double : Type 0} (D : Doubles Double) (gain : Double) (num_cores : ℕ) where
  -- With this gain and so many cores, no sample asks for 64 cores or more.
  abbrev pub AskFew : List Double → Type 0
  AskFew samples = All (λ x. at_least_0 (ncores_of D x gain num_cores) < 64) samples

  -- What the spinner is asked for while samples are played, where it had been asked for `before`: for each
  -- sample in turn, the set of as many cores as the sample asks for; and now and then, in between, for
  -- none.
  pub data Sounded (before : List ℕ) : List Double → List ℕ → Type 0 where
    silent : Sounded before [] before
    rested :
        {samples : List Double} {asked : List ℕ}
        → Sounded before samples asked
        → Sounded before samples (asked ++ all_cores_idle ∷ [])
    sounded :
        {samples : List Double} {asked : List ℕ} (x : Double) (cores : ℕ)
        → Sounded before samples asked
        → n_cores_active (at_least_0 (ncores_of D x gain num_cores)) ≡ some cores
        → Sounded before (samples ++ x ∷ []) (asked ++ cores ∷ [])

  -- What the player has played, it has asked its spinner for.
  pub record IsSounding (before : List ℕ) (p : Player Double) : Type 0 where
    pub gain_is : p.gain ≡ gain
    pub cores_are : p.spinner.num_cores ≡ num_cores
    pub asked_is : Sounded before p.played p.spinner.asked

  -- What this is about is the gain, the spinner and the history.
  pub kept-IsSounding :
      (before : List ℕ) (p p' : Player Double)
      → p'.gain ≡ p.gain
      → p'.spinner ≡ p.spinner
      → p'.played ≡ p.played
      → IsSounding before p
      → IsSounding before p'
  kept-IsSounding before p p' g s l v = record {
    gain_is = g ∙ v.gain_is;
    cores_are = ap (λ t. t.num_cores) s ∙ v.cores_are;
    asked_is =
        subst (λ q. Sounded before q p'.spinner.asked) (sym l)
          (subst (λ t. Sounded before p.played t.asked) (sym s) v.asked_is);
  }

  released-IsSounding :
      (before : List ℕ) (o : Option Side) (p : Player Double)
      → IsSounding before p
      → IsSounding before (released o p)
  released-IsSounding before none p v = v
  released-IsSounding before (some side) p v = record {
    gain_is = v.gain_is;
    cores_are = v.cores_are;
    asked_is = v.asked_is;
  }

  at_rest :
      (before : List ℕ) (p : Player Double)
      → IsSounding before p
      → Sounded before p.played (spin p.spinner all_cores_idle).asked
  at_rest before p v =
      subst (λ a. Sounded before p.played a) (sym (spin-asked p.spinner all_cores_idle).0)
        (rested v.asked_is)

  run_dry-IsSounding :
      (before : List ℕ) (state : PlayState) (p : Player Double)
      → IsSounding before p
      → IsSounding before (run_dry state p)
  unfolding run_dry
  run_dry-IsSounding before stopped p v = v
  run_dry-IsSounding before stalled p v = v
  run_dry-IsSounding before playing p v = record {
    gain_is = v.gain_is;
    cores_are = (spin-asked p.spinner all_cores_idle).1 ∙ v.cores_are;
    asked_is = at_rest before p v;
  }
  run_dry-IsSounding before stopping p v = record {
    gain_is = v.gain_is;
    cores_are = (spin-asked p.spinner all_cores_idle).1 ∙ v.cores_are;
    asked_is = at_rest before p v;
  }

  fetch-IsSounding :
      (before : List ℕ) (p : Player Double) → IsSounding before p → IsSounding before (fetch p)
  unfolding fetch
  fetch-IsSounding before p v = elim (Bool-cases (read_available p.ppbuf)) [
    | inl there ↦
        rw there (record { gain_is = v.gain_is; cores_are = v.cores_are; asked_is = v.asked_is })
    | inr dry ↦ rw dry (run_dry-IsSounding before p.state p v)
  ]

  pub turn_over-IsSounding :
      (before : List ℕ) (p : Player Double)
      → IsSounding before p
      → IsSounding before (fetch (release p))
  turn_over-IsSounding before p v =
      fetch-IsSounding before (release p) (unfold release in released-IsSounding before p.buf p v)

  sample-IsSounding :
      (before : List ℕ) (p p' : Player Double) (x : Double) (cores : ℕ)
      → IsSounding before p
      → n_cores_active (at_least_0 (ncores_of D x p.gain p.spinner.num_cores)) ≡ some cores
      → record p {
        spinner = spin p.spinner cores;
        index = p.index + 1;
        played = p.played ++ x ∷ [];
      }
        ≡ p'
      → IsSounding before p'
  sample-IsSounding before p p' x cores v c e =
      let (asks, kept) = spin-asked p.spinner cores in
      let for_sample : n_cores_active (at_least_0 (ncores_of D x gain num_cores)) ≡ some cores =
        ap (λ g. n_cores_active (at_least_0 (ncores_of D x g num_cores))) (sym v.gain_is)
        ∙ ap (λ (n : ℕ). n_cores_active (at_least_0 (ncores_of D x p.gain n))) (sym v.cores_are)
        ∙ c in
      subst (IsSounding before) e (record {
        gain_is = v.gain_is;
        cores_are = kept ∙ v.cores_are;
        asked_is =
            subst (λ a. Sounded before (p.played ++ x ∷ []) a) (sym asks)
              (sounded x cores v.asked_is for_sample);
      })

  emit-IsSounding :
      (before : List ℕ) (p p' : Player Double)
      → emit D p ≡ some p'
      → IsSounding before p
      → IsSounding before p'
  unfolding emit
  emit-IsSounding before p p' e v = elim (Bool-cases (ltb p.index p.size)) [
    | inr over ↦ subst (IsSounding before) (injected p p' (rw over at e)) v
    | inl inside ↦
        let (side, b, e1) = >>=-eq-some p.buf _ (rw inside at e) in
        let (sample, g, e2) = >>=-eq-some (get_elem? (pair_at p.ppbuf.buf side) p.index) _ e1 in
        let (cores, c, e3) =
          >>=-eq-some (n_cores_active (at_least_0 (ncores_of D sample p.gain p.spinner.num_cores)))
            _ e2 in
        sample-IsSounding before p p' sample cores v c (injected _ p' e3)
  ]

  pub tick-IsSounding :
      (before : List ℕ) (p p' : Player Double)
      → tick_cb_func D p ≡ some p'
      → IsSounding before p
      → IsSounding before p'
  unfolding tick_cb_func
  tick-IsSounding before p p' e v = elim (Bool-cases (p.size == p.index)) [
    | inr inside ↦ emit-IsSounding before p p' (rw inside at e) v
    | inl over ↦
        emit-IsSounding before (fetch (release p)) p' (rw over at e)
          (turn_over-IsSounding before p v)
  ]
