-- ===== src/ToneGen/Switch.antt =====
-- `multi_tone_gen_switch_frequency` (multi_tone_gen.c).
use psplay.Base.{
  ℕ, zero, suc, ◌<◌, ◌≤◌, ◌≡◌, refl, ◌∙◌, arith, true, false, not, ◌==◌, Option, some, List, [],
  ◌∷◌, ◌++◌, length, inl, inr, ltb, if◌then◌else◌, ◌>>=◌,
}
use psplay.Base.Int.{ℤ, pos, negsuc, eqb_ℤ, ltb_ℤ}
use mathlib.Core.Bool.{◌||◌}
use psplay.Ftimer
use psplay.Ftimer.{Ftimer}
use psplay.ToneGen.{ToneGen, max_tones, on_timer, retune, switch_frequency}
use psplay.ToneGen.Tuned.{Runs, IsTone, IsTuned, Changed, on_timer-Changed, Runs-moved}
use native.Mathlib.Decide.{ℕ_discrete, dec_lt}

-- No timer runs.
abbrev AllPaused : ℕ → List (Option Ftimer) → Type 0
AllPaused n timers = (i : ℕ) → i < n → Runs timers i false

-- The timers once the current tone's is paused.
abbrev quiet : ToneGen → Option (List (Option Ftimer))
quiet g =
    if eqb_ℤ g.freq_idx (negsuc 0)
    then some g.timers
    else on_timer (Ftimer.pause true) g.freq_idx g.timers

eqb_pos_ne : (k i : ℕ) → ¬ (k ≡ i) → (k == i) ≡ false
eqb_pos_ne k i ne = ground arith

quiet_lem :
    (g : ToneGen)
    → IsTuned g
    → (timers : List (Option Ftimer)) × (quiet g ≡ some timers)
      × (length timers ≡ max_tones)
      × AllPaused g.n_freqs timers
quiet_lem g v = elim v.tone [
  | inl e ↦ (g.timers, rw e refl, v.slots, λ i lt. rw e at (v.only i lt))
  | inr (k, e, lt) ↦
      let (timers, runs, c) =
        on_timer-Changed (Ftimer.pause true) false (eqb_ℤ g.freq_idx (pos k)) g.timers k
          (omega (arith, v.fits, v.slots)) (v.only k lt) (λ t. unfold Ftimer.pause in refl) in
      (timers, rw e runs, c.slots ∙ v.slots, paused_but g k e v timers c)
]
  where
    paused_but :
        (g : ToneGen) (k : ℕ)
        → g.freq_idx ≡ pos k
        → IsTuned g
        → (timers : List (Option Ftimer)) → Changed g.timers timers k false
        → AllPaused g.n_freqs timers
    paused_but g k e v timers c i lt = elim (ℕ_discrete k i) [
      | yes same ↦ rw same at c.there
      | no ne ↦
          rw (eqb_pos_ne k i ne) at
            (rw e at (Runs-moved {timers' = timers} (c.others i ne) (v.only i lt)))
    ]

-- What `retune` does once no timer runs.
finish : ToneGen → ℤ → List (Option Ftimer) → Option ToneGen
finish g idx timers =
    if eqb_ℤ idx (negsuc 0)
    then some (record g { timers = timers; freq_idx = idx; calls = g.calls ++ 0 ∷ [] })
    else (on_timer Ftimer.unpause idx timers >>= λ timers'.
        some (record g { timers = timers'; freq_idx = idx }))

retune_at :
    (g : ToneGen) (idx : ℤ) (timers : List (Option Ftimer))
    → quiet g ≡ some timers
    → retune g idx ≡ finish g idx timers
unfolding retune finish
retune_at g idx timers e = rw e refl

-- A switch to none calls back with 0.
abbrev pub called_after : ToneGen → ℤ → List ℕ
called_after g idx = if eqb_ℤ idx (negsuc 0) then g.calls ++ 0 ∷ [] else g.calls

finish-IsTuned :
    (g : ToneGen) (idx : ℤ) (timers : List (Option Ftimer))
    → g.n_freqs ≤ max_tones
    → length timers ≡ max_tones
    → AllPaused g.n_freqs timers
    → IsTone g.n_freqs idx
    → (g' : ToneGen) × (finish g idx timers ≡ some g')
      × IsTuned g'
      × (g'.freq_idx ≡ idx)
      × (g'.n_freqs ≡ g.n_freqs)
      × (g'.status ≡ g.status)
      × (g'.calls ≡ called_after g idx)
unfolding finish
finish-IsTuned g idx timers fits slots paused (inl e) = (
  record g { timers = timers; freq_idx = idx; calls = g.calls ++ 0 ∷ [] },
  rw e refl,
  record { fits = fits; slots = slots; tone = inl e; only = λ i lt. rw e (paused i lt) },
  refl,
  refl,
  refl,
  rw e refl,
)
finish-IsTuned g idx timers fits slots paused (inr (k, e, lt)) =
    let (timers', runs, c) =
      on_timer-Changed Ftimer.unpause true false timers k (omega (arith, fits, slots)) (paused k lt)
        (λ t. unfold Ftimer.unpause in refl) in
    (
      record g { timers = timers'; freq_idx = idx },
      rw (e, runs) refl,
      record {
        fits = fits;
        slots = c.slots ∙ slots;
        tone = inr (k, e, lt);
        only = λ i below. rw e (running k i timers' c below);
      },
      refl,
      refl,
      refl,
      rw e refl,
    )
  where
    running :
        (k i : ℕ) (timers' : List (Option Ftimer))
        → Changed timers timers' k true
        → i < g.n_freqs
        → Runs timers' i (k == i)
    running k i timers' c below = elim (ℕ_discrete k i) [
      | yes same ↦ let eq : (k == i) ≡ true = ground arith in rw eq (rw same at c.there)
      | no ne ↦ rw (eqb_pos_ne k i ne) (Runs-moved (c.others i ne) (paused i below))
    ]

in_range :
    (n : ℕ) (idx : ℤ) → IsTone n idx → (ltb_ℤ idx (negsuc 0) || not (ltb_ℤ idx (pos n))) ≡ false
in_range n idx (inl e) = rw e (ground arith)
in_range n idx (inr (k, e, lt)) = rw e (ground arith)

-- From a state in which only the current tone's timer runs, a switch to a tone or to -1 succeeds in
-- such a state with that tone current; it keeps the number of tones and `status`, and calls the
-- callback once, with 0, if it is to -1, and not at all if it is to a tone.
pub switch-IsTuned :
    (g : ToneGen) (idx : ℤ)
    → IsTuned g
    → IsTone g.n_freqs idx
    → (g' : ToneGen) × (switch_frequency g idx ≡ some g')
      × IsTuned g'
      × (g'.freq_idx ≡ idx)
      × (g'.n_freqs ≡ g.n_freqs)
      × (g'.status ≡ g.status)
      × (g'.calls ≡ called_after g idx)
unfolding switch_frequency
switch-IsTuned g idx v tone =
    let (timers, e, slots, paused) = quiet_lem g v in
    let (g', runs, tuned, idx_is, n_is, status_is, calls_are) =
      finish-IsTuned g idx timers v.fits slots paused tone in
    (
      g',
      rw (in_range g.n_freqs idx tone) (retune_at g idx timers e ∙ runs),
      tuned,
      idx_is,
      n_is,
      status_is,
      calls_are,
    )

-- A number that is neither -1 nor a tone's leaves the generator as it is.
pub switch_ignored :
    (g : ToneGen) (idx : ℤ) → ¬ IsTone g.n_freqs idx → switch_frequency g idx ≡ some g
unfolding switch_frequency
switch_ignored g (pos k) out =
    let e : ltb k g.n_freqs ≡ false = elim (dec_lt k g.n_freqs) [
      | yes lt ↦ absurd (out (inr (k, refl, lt)))
      | no ge ↦ ground arith
    ] in
    ground arith
switch_ignored g (negsuc zero) out = absurd (out (inl refl))
switch_ignored g (negsuc (suc k)) out = ground arith
