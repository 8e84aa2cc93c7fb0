-- ===== src/ToneGen.antt =====
-- multi_tone_gen.h and multi_tone_gen.c: one timer a tone, of which at most one runs.
pub mod Tuned
pub mod Start
pub mod Switch
pub mod Stop
pub mod Tests
use psplay.Base.{
  ℕ, zero, suc, ◌+◌, Bool, true, false, not, ltb, ◌==◌, if◌then◌else◌, bit_or, Option, none, some,
  List, [], ◌∷◌, ◌++◌, get_elem?, replicate, store, ◌>>=◌,
}
use psplay.Base.Int.{ℤ, pos, negsuc, ltb_ℤ, eqb_ℤ}
use mathlib.Core.Bool.{◌||◌}
use psplay.Utils.{ns_to_timespec}
use psplay.Ftimer
use psplay.Ftimer.{Ftimer}

abbrev pub max_tones : ℕ
max_tones = 64

-- `multi_tone_gen_t`: a slot of `timers` is empty before its timer is created and after it is
-- destroyed. `calls` is what the callback has been called with.
pub record ToneGen : Type 0 where
  pub n_freqs : ℕ
  pub timers : List (Option Ftimer)
  pub status : Bool
  pub freq_idx : ℤ
  pub calls : List ℕ

abbrev pub int_of : Bool → ℕ
int_of true = 1
int_of false = 0

-- A timer's callback.
unfoldable pub toggle : ToneGen → ToneGen
toggle g = record g { status = not g.status; calls = g.calls ++ int_of (not g.status) ∷ [] }

unfoldable pub switch_phase : ToneGen → ToneGen
switch_phase g = record g { status = not g.status }

-- The loop of `multi_tone_gen_init` with `left` timers to create from `i` on. `half_period i` is
-- `GIGA / (freqs[i] * 2.0)`, which the code computes on doubles.
pub create_loop : (ℕ → ℕ) → ℕ → ℕ → ℕ → List (Option Ftimer) → Option (List (Option Ftimer))
create_loop half_period flags zero i timers = some timers
create_loop half_period flags (suc left) i timers = do
  timers' ← store timers i (some (Ftimer.create flags (ns_to_timespec (half_period i)) true))
  create_loop half_period flags left (i + 1) timers'

unfoldable pub timer_flags : ℕ → ℕ
timer_flags ext_timer_flags =
    bit_or (bit_or (bit_or Ftimer.start_paused Ftimer.run_async) Ftimer.run_rt) ext_timer_flags

pub init : (ℕ → ℕ) → ℕ → ℕ → Option ToneGen
init half_period n_freqs ext_timer_flags = do
  timers ←
      create_loop half_period (timer_flags ext_timer_flags) n_freqs 0 (replicate max_tones none)
  some (record {
    n_freqs = n_freqs;
    timers = timers;
    status = false;
    freq_idx = negsuc 0;
    calls = [];
  })

-- A call on the timer in a slot; `none` is a slot out of range or without a timer.
pub on_timer : (Ftimer → Ftimer) → ℤ → List (Option Ftimer) → Option (List (Option Ftimer))
on_timer f (negsuc i) timers = none
on_timer f (pos i) timers = do slot ← get_elem? timers i; t ← slot; store timers i (some (f t))

-- What follows the range check of `multi_tone_gen_switch_frequency`.
pub retune : ToneGen → ℤ → Option ToneGen
retune g freq_idx = do
  timers ←
      (if eqb_ℤ g.freq_idx (negsuc 0)
        then some g.timers
        else on_timer (Ftimer.pause true) g.freq_idx g.timers)
  let tuned : ToneGen = record g { timers = timers; freq_idx = freq_idx }
  let started = on_timer Ftimer.unpause freq_idx timers >>= λ timers'.
      some (record tuned { timers = timers' })
  if eqb_ℤ freq_idx (negsuc 0)
      then some (record tuned { calls = tuned.calls ++ 0 ∷ [] })
      else started

pub switch_frequency : ToneGen → ℤ → Option ToneGen
switch_frequency g freq_idx =
    let go = retune g freq_idx in
    if ltb_ℤ freq_idx (negsuc 0) || not (ltb_ℤ freq_idx (pos g.n_freqs)) then some g else go

-- The loop of `multi_tone_gen_destroy`.
pub destroy_loop : ℕ → ℕ → List (Option Ftimer) → Option (List (Option Ftimer))
destroy_loop zero i timers = some timers
destroy_loop (suc left) i timers = do
  slot ← get_elem? timers i
  t ← slot
  timers' ← store timers i none
  destroy_loop left (i + 1) timers'

pub destroy : ToneGen → Option ToneGen
destroy g = do
  g' ← switch_frequency g (negsuc 0)
  timers ← destroy_loop g'.n_freqs 0 g'.timers
  some (record g' { timers = timers })
