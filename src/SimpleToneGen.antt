-- ===== src/SimpleToneGen.antt =====
-- simple_tone_gen.h, simple_tone_gen.c and `play_chirp` of utils.h: tones one after the other, each until
-- its step is over. What the clock reads is part of the input; a sleep lasts as long as asked for.
pub mod Steps
pub mod Toggles
pub mod Tests
use psplay.Base.{
  ℕ, ◌-◌, ◌^◌, Bool, not, if◌then◌else◌, zero, suc, Option, none, some, List, [], ◌∷◌, ◌++◌,
}
use psplay.Utils.{Timespec, timespec_diff, timespec_step}
use psplay.CpuSpinner.{Spinner, spin}

-- CPU_SPINNER_ALL_CORES_ACTIVE and CPU_SPINNER_ALL_CORES_IDLE
abbrev pub all_cores : Bool → ℕ
all_cores status = if status then 2 ^ 64 - 1 else 0

module _ (Freq : Type 0) where
  -- A tone that was played, and for how long.
  pub record Tone : Type 0 where
    pub freq : Freq
    pub duration : Timespec

  -- `simple_tone_gen_t`; `played` is a history.
  pub record SimpleToneGen : Type 0 where
    pub spinner : Spinner
    pub last_step_time : Timespec
    pub step_duration : Timespec
    pub status : Bool
    pub played : List Tone

module _ {Freq : Type 0} where
  -- `toggler_cb_func`
  unfoldable pub toggle : SimpleToneGen Freq → SimpleToneGen Freq
  toggle g =
      let status = not g.status in
      record g { status = status; spinner = spin g.spinner (all_cores status) }

  -- The ticks of a timer while a tone plays.
  unfoldable pub toggles : ℕ → SimpleToneGen Freq → SimpleToneGen Freq
  toggles zero g = g
  toggles (suc n) g = toggles n (toggle g)

  -- `simple_tone_gen_play`, with the number of ticks of its timer.
  unfoldable pub play : ℕ → Freq → Timespec → SimpleToneGen Freq → SimpleToneGen Freq
  play ticks freq duration g =
      let g' = toggles ticks g in
      record g' { played = g'.played ++ record { freq = freq; duration = duration } ∷ [] }

  -- `now` is what the clock reads.
  unfoldable pub start : Timespec → Timespec → SimpleToneGen Freq → SimpleToneGen Freq
  start now step_duration g = record g { last_step_time = now; step_duration = step_duration }

  unfoldable pub step : ℕ → Timespec → Freq → SimpleToneGen Freq → SimpleToneGen Freq
  step ticks now freq g =
      let last = timespec_step g.last_step_time g.step_duration in
      play ticks freq (timespec_diff now last) (record g { last_step_time = last })

-- What a round of the loop of `play_chirp` meets: the clock's reading and the timer's ticks.
pub record Reading : Type 0 where
  pub now : Timespec
  pub ticks : ℕ

-- `<=` and `+` on frequencies, which are doubles.
module _ {Freq : Type 0} (at_most : Freq → Freq → Bool) (plus : Freq → Freq → Freq) where
  -- The loop at the frequency `i`, with what its rounds meet; `none` where there is no more of that.
  unfoldable pub chirp_loop :
      Freq → Freq → List Reading → Freq → SimpleToneGen Freq → Option (SimpleToneGen Freq)
  chirp_loop freq_end freq_step [] i g = if at_most i freq_end then none else some g
  chirp_loop freq_end freq_step (r ∷ readings) i g =
      let rest =
        chirp_loop freq_end freq_step readings (plus i freq_step) (step r.ticks r.now i g) in
      if at_most i freq_end then rest else some g

  -- `now` is what the clock reads at the start.
  unfoldable pub play_chirp :
      Freq
      → Freq
      → Freq
      → Timespec
      → Timespec
      → List Reading
      → SimpleToneGen Freq
      → Option (SimpleToneGen Freq)
  play_chirp freq_start freq_end freq_step step_duration now readings g =
      chirp_loop freq_end freq_step readings freq_start (start now step_duration g)
