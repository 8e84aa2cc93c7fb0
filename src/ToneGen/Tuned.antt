-- ===== src/ToneGen/Tuned.antt =====
-- What holds of a tone generator (multi_tone_gen.c) between calls, and calls on one of its timers.
use psplay.Base.{
  ℕ, ◌<◌, ◌≤◌, ◌≡◌, refl, ◌∙◌, Bool, not, Option, none, some, List, length, get_or, set, store_lem,
  length-set, get_elem?-eq-get_or, get_or-set_self, get_or-set_ne, ◌⊎◌,
}
use psplay.Base.Int.{ℤ, pos, negsuc, eqb_ℤ}
use psplay.Ftimer.{Ftimer}
use psplay.ToneGen.{ToneGen, on_timer, max_tones}

-- The timer in slot `i` is there, and runs or not.
pub record Runs (timers : List (Option Ftimer)) (i : ℕ) (running : Bool) : Type 0 where
  pub timer : Ftimer
  pub there : get_or timers i none ≡ some timer
  pub pausing : timer.pausing ≡ not running

-- -1, or the number of a tone.
abbrev pub IsTone : ℕ → ℤ → Type 0
IsTone n idx = (idx ≡ negsuc 0) ⊎ ((i : ℕ) × (idx ≡ pos i) × (i < n))

-- There is a timer for every tone, and the only one that runs is the current tone's.
pub record IsTuned (g : ToneGen) : Type 0 where
  pub fits : g.n_freqs ≤ max_tones
  pub slots : length g.timers ≡ max_tones
  pub tone : IsTone g.n_freqs g.freq_idx
  pub only : (i : ℕ) → i < g.n_freqs → Runs g.timers i (eqb_ℤ g.freq_idx (pos i))

-- All timers but one, say, are left alone, and that one now runs or not.
pub record Changed (timers timers' : List (Option Ftimer)) (k : ℕ) (running : Bool) : Type 0 where
  pub slots : length timers' ≡ length timers
  pub there : Runs timers' k running
  pub others : (i : ℕ) → ¬ (k ≡ i) → get_or timers' i none ≡ get_or timers i none

pub on_timer-Changed :
    (f : Ftimer → Ftimer) (running was : Bool) (timers : List (Option Ftimer)) (k : ℕ)
    → k < length timers
    → Runs timers k was
    → ((t : Ftimer) → (f t).pausing ≡ not running)
    → (timers' : List (Option Ftimer)) × (on_timer f (pos k) timers ≡ some timers')
      × Changed timers timers' k running
unfolding on_timer
on_timer-Changed f running was timers k room r effect = (
  set timers k (some (f r.timer)),
  rw (get_elem?-eq-get_or timers k none room, r.there, store_lem timers k (some (f r.timer)) room)
      refl,
  record {
    slots = length-set timers k (some (f r.timer));
    there = record {
      timer = f r.timer;
      there = get_or-set_self timers k (some (f r.timer)) none room;
      pausing = effect r.timer;
    };
    others = λ i ne. get_or-set_ne timers k i (some (f r.timer)) none ne;
  },
)

-- A timer that keeps its slot keeps running or not.
pub Runs-moved :
    {timers timers' : List (Option Ftimer)} {i : ℕ} {running : Bool}
    → get_or timers' i none ≡ get_or timers i none
    → Runs timers i running
    → Runs timers' i running
Runs-moved e r = record { timer = r.timer; there = e ∙ r.there; pausing = r.pausing }
