-- ===== src/SimpleToneGen/Steps.antt =====
-- The steps of simple_tone_gen.c do not drift.
use psplay.Base.{
  ℕ, zero, suc, ◌+◌, ◌-◌, ◌*◌, ◌≡◌, refl, sym, ap, ap₂, ◌∙◌, arith, Bool, true, false, not, some,
  List, [], ◌∷◌, ◌++◌, append_assoc, append-nil, length, All,
}
use mathlib.Core.List.{map}
use psplay.Utils.{Timespec, timespec_diff, timespec_step}
use psplay.Utils.Time.{in_ns, IsNormal, timespec_diff_lem, timespec_step_lem}
use psplay.CpuSpinner.Edges.{spin-asked}
use psplay.SimpleToneGen.Toggles.{flipped}
use psplay.SimpleToneGen.{
  all_cores, Tone, SimpleToneGen, toggle, toggles, play, start, step, Reading, chirp_loop,
  play_chirp,
}

-- From a time on, with steps of so many nanoseconds, what is left of each step at its reading.
abbrev pub planned : ℕ → ℕ → List Reading → List ℕ
planned at d [] = []
planned at d (r ∷ readings) = (at + d - in_ns r.now) ∷ planned (at + d) d readings

abbrev pub ReadNormally : List Reading → Type 0
ReadNormally readings = All (λ r. IsNormal r.now) readings

-- What so many ticks ask the cores for: all and none in turn.
abbrev pub alternations : ℕ → Bool → List ℕ
alternations zero b = []
alternations (suc n) b = all_cores (not b) ∷ alternations n (not b)

abbrev pub all_ticks : List Reading → Bool → List ℕ
all_ticks [] b = []
all_ticks (r ∷ readings) b = alternations r.ticks b ++ all_ticks readings (flipped r.ticks b)

module _ {Freq : Type 0} where
  abbrev pub durations : List (Tone Freq) → List ℕ
  durations tones = map (λ t. in_ns t.duration) tones

  abbrev pub freqs : List (Tone Freq) → List Freq
  freqs tones = map (λ t. t.freq) tones

  toggles_keep :
      (n : ℕ) (g : SimpleToneGen Freq)
      → ((toggles n g).last_step_time ≡ g.last_step_time)
        × ((toggles n g).step_duration ≡ g.step_duration)
        × ((toggles n g).played ≡ g.played)
  unfolding toggles toggle
  toggles_keep zero g = (refl, refl, refl)
  toggles_keep (suc n) g = toggles_keep n (toggle g)

  toggles_ask :
      (n : ℕ) (g : SimpleToneGen Freq)
      → ((toggles n g).spinner.asked ≡ g.spinner.asked ++ alternations n g.status)
        × ((toggles n g).status ≡ flipped n g.status)
  unfolding toggles toggle
  toggles_ask zero g = (sym (append-nil g.spinner.asked), refl)
  toggles_ask (suc n) g =
      let cores = all_cores (not g.status) in
      let (asks, flips) = toggles_ask n (toggle g) in
      (
        asks
            ∙ ap (λ l. l ++ alternations n (not g.status)) (spin-asked g.spinner cores).0
            ∙ append_assoc g.spinner.asked (cores ∷ []) (alternations n (not g.status)),
        flips,
      )

  freqs-append : (xs ys : List (Tone Freq)) → freqs (xs ++ ys) ≡ freqs xs ++ freqs ys
  freqs-append [] ys = refl
  freqs-append (t ∷ xs) ys = ap (λ l. t.freq ∷ l) (freqs-append xs ys)

  durations-append :
      (xs ys : List (Tone Freq)) → durations (xs ++ ys) ≡ durations xs ++ durations ys
  durations-append [] ys = refl
  durations-append (t ∷ xs) ys = ap (λ l. in_ns t.duration ∷ l) (durations-append xs ys)

  step_lem :
      (r : Reading) (i : Freq) (g : SimpleToneGen Freq)
      → IsNormal r.now
      → (durations (step r.ticks r.now i g).played
          ≡ durations g.played
            ++ (in_ns g.last_step_time + in_ns g.step_duration - in_ns r.now) ∷ [])
        × (in_ns (step r.ticks r.now i g).last_step_time
            ≡ in_ns g.last_step_time + in_ns g.step_duration)
        × ((step r.ticks r.now i g).step_duration ≡ g.step_duration)
        × (freqs (step r.ticks r.now i g).played ≡ freqs g.played ++ i ∷ [])
        × ((step r.ticks r.now i g).spinner.asked
            ≡ g.spinner.asked ++ alternations r.ticks g.status)
        × ((step r.ticks r.now i g).status ≡ flipped r.ticks g.status)
  unfolding step play
  step_lem r i g ok =
      let last = timespec_step g.last_step_time g.step_duration in
      let (normal, sum) = timespec_step_lem g.last_step_time g.step_duration in
      let (normal', left) = timespec_diff_lem r.now last ok normal in
      let (last_kept, step_kept, played_kept) =
        toggles_keep r.ticks (record g { last_step_time = last }) in
      let lasts : in_ns (timespec_diff r.now last)
          ≡ in_ns g.last_step_time + in_ns g.step_duration - in_ns r.now =
        left ∙ ap (λ (k : ℕ). k - in_ns r.now) sum in
      (
        durations-append (toggles r.ticks (record g { last_step_time = last })).played _
            ∙ ap₂ (λ xs (k : ℕ). durations xs ++ k ∷ []) played_kept lasts,
        ap in_ns last_kept ∙ sum,
        step_kept,
        freqs-append (toggles r.ticks (record g { last_step_time = last })).played _
            ∙ ap (λ xs. freqs xs ++ i ∷ []) played_kept,
        (toggles_ask r.ticks (record g { last_step_time = last })).0,
        (toggles_ask r.ticks (record g { last_step_time = last })).1,
      )

module _ {Freq : Type 0} (at_most : Freq → Freq → Bool) (plus : Freq → Freq → Freq)
    (freq_end freq_step : Freq) where
  -- So many frequencies from `i` on, a step apart.
  abbrev pub frequencies : ℕ → Freq → List Freq
  frequencies zero i = []
  frequencies (suc n) i = i ∷ frequencies n (plus i freq_step)

  -- So many of them are at most the last one, and the next is not.
  abbrev pub Covers : ℕ → Freq → Type 0
  Covers zero i = at_most i freq_end ≡ false
  Covers (suc n) i = (at_most i freq_end ≡ true) × Covers n (plus i freq_step)

  -- What a chirp with these steps comes to.
  abbrev pub Chirps : ℕ → ℕ → List Reading → Freq → SimpleToneGen Freq → SimpleToneGen Freq → Type 0
  Chirps at d readings i g g' =
      (freqs g'.played ≡ freqs g.played ++ frequencies (length readings) i)
      × (durations g'.played ≡ durations g.played ++ planned at d readings)
      × (in_ns g'.last_step_time ≡ at + length readings * d)
      × (g'.spinner.asked ≡ g.spinner.asked ++ all_ticks readings g.status)

  chirp_loop_lem :
      (readings : List Reading) (i : Freq) (g : SimpleToneGen Freq) (at d : ℕ)
      → ReadNormally readings
      → Covers (length readings) i
      → in_ns g.last_step_time ≡ at
      → in_ns g.step_duration ≡ d
      → (g' : SimpleToneGen Freq) × (chirp_loop at_most plus freq_end freq_step readings i g
          ≡ some g')
        × Chirps at d readings i g g'
  unfolding chirp_loop
  chirp_loop_lem [] i g at d ok over a b = (
    g,
    rw over refl,
    (
      sym (append-nil (freqs g.played)),
      sym (append-nil (durations g.played)),
      omega arith,
      sym (append-nil g.spinner.asked),
    ),
  )
  chirp_loop_lem (r ∷ readings) i g at d (now_ok, ok) (below, more) a b =
      let (played, moved, kept, tones, asks, flips) = step_lem r i g now_ok in
      let left : in_ns g.last_step_time + in_ns g.step_duration - in_ns r.now
          ≡ at + d - in_ns r.now =
        omega arith in
      let (g', runs, (rest_tones, rest, end, rest_asks)) =
        chirp_loop_lem readings (plus i freq_step) (step r.ticks r.now i g) (at + d) d ok more
          (omega (arith, moved)) (ap in_ns kept ∙ b) in
      (
        g',
        rw below runs,
        (
          rest_tones
              ∙ ap (λ xs. xs ++ frequencies (length readings) (plus i freq_step)) tones
              ∙ append_assoc (freqs g.played) (i ∷ [])
                  (frequencies (length readings) (plus i freq_step)),
          rest
              ∙ ap (λ xs. xs ++ planned (at + d) d readings)
                  (played ∙ ap (λ (k : ℕ). durations g.played ++ k ∷ []) left)
              ∙ append_assoc (durations g.played) ((at + d - in_ns r.now) ∷ [])
                  (planned (at + d) d readings),
          end ∙ omega arith,
          rest_asks
              ∙ ap₂ (λ xs b. xs ++ all_ticks readings b) asks flips
              ∙ append_assoc g.spinner.asked (alternations r.ticks g.status)
                  (all_ticks readings (flipped r.ticks g.status)),
        ),
      )

  pub play_chirp_lem :
      (freq_start : Freq) (now step_duration : Timespec) (readings : List Reading)
      (g : SimpleToneGen Freq)
      → ReadNormally readings
      → Covers (length readings) freq_start
      → (g' : SimpleToneGen Freq) × (play_chirp at_most plus freq_start freq_end freq_step
            step_duration now readings g
          ≡ some g')
        × Chirps (in_ns now) (in_ns step_duration) readings freq_start g g'
  unfolding play_chirp start
  play_chirp_lem freq_start now step_duration readings g ok covers =
      chirp_loop_lem readings freq_start
        (record g { last_step_time = now; step_duration = step_duration }) (in_ns now)
        (in_ns step_duration) ok covers refl refl
