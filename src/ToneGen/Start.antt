-- ===== src/ToneGen/Start.antt =====
-- `multi_tone_gen_init` (multi_tone_gen.c).
use psplay.Base.{
  ℕ, zero, suc, ◌+◌, ◌<◌, ◌≤◌, ◌≡◌, refl, ◌∙◌, arith, Bool, true, false, not, ◌==◌, Option, none,
  some, List, [], length, set, store, store_lem, length-set, get_or-set_self, get_or-set_ne, inl,
  replicate, length-replicate, bit_and, all_below, all_below_sound,
}
use psplay.Base.Int.{negsuc}
use psplay.Ftimer
use psplay.Ftimer.{Ftimer}
use psplay.Utils.{ns_to_timespec}
use psplay.ToneGen.{ToneGen, max_tones, create_loop, init, timer_flags}
use psplay.ToneGen.Tuned.{Runs, IsTuned, Runs-moved}
use native.Mathlib.Decide.{ℕ_discrete, dec_lt}

module _ (half_period : ℕ → ℕ) (flags : ℕ) where
  abbrev created : ℕ → Ftimer
  created i = Ftimer.create flags (ns_to_timespec (half_period i)) true

  create_step :
      (left i : ℕ) (timers : List (Option Ftimer))
      → i < length timers
      → create_loop half_period flags (suc left) i timers
        ≡ create_loop half_period flags left (i + 1) (set timers i (some (created i)))
  unfolding create_loop
  create_step left i timers room = rw (store_lem timers i (some (created i)) room) refl

  -- The slots from `i` on that the loop fills, and those before.
  pub create_loop_lem :
      (left i : ℕ) (timers : List (Option Ftimer))
      → not (bit_and flags Ftimer.start_paused == 0) ≡ true
      → i + left ≤ length timers
      → ((k : ℕ) → k < i → Runs timers k false)
      → (timers' : List (Option Ftimer)) × (create_loop half_period flags left i timers
          ≡ some timers')
        × (length timers' ≡ length timers)
        × ((k : ℕ) → k < i + left → Runs timers' k false)
  create_loop_lem zero i timers paused room so_far =
      (timers, unfold create_loop in refl, refl, λ k lt. so_far k (omega arith))
  create_loop_lem (suc left) i timers paused room so_far =
      let timers' = set timers i (some (created i)) in
      let (after, runs, len, all) =
        create_loop_lem left (i + 1) timers' paused
          (omega (arith, length-set timers i (some (created i)))) filled in
      (
        after,
        create_step left i timers (omega arith) ∙ runs,
        len ∙ length-set timers i (some (created i)),
        λ k lt. all k (omega arith),
      )
    where
      filled : (k : ℕ) → k < i + 1 → Runs (set timers i (some (created i))) k false
      filled k lt = elim (ℕ_discrete i k) [
        | yes e ↦ record {
          timer = created i;
          there = rw (← e) (get_or-set_self timers i (some (created i)) none (omega arith));
          pausing = unfold Ftimer.create in paused;
        }
        | no ne ↦
            Runs-moved (get_or-set_ne timers i k (some (created i)) none ne)
              (so_far k (omega arith))
      ]

  -- One slot too many and the loop writes behind the array.
  create_loop_faults :
      (left i : ℕ) (timers : List (Option Ftimer))
      → i ≤ length timers
      → length timers < i + left
      → create_loop half_period flags left i timers ≡ none
  create_loop_faults zero i timers room over = absurd (omega arith)
  create_loop_faults (suc left) i timers room over = elim (dec_lt i (length timers)) [
    | yes lt ↦
        create_step left i timers lt
        ∙ create_loop_faults left (i + 1) (set timers i (some (created i)))
            (omega (arith, length-set timers i (some (created i))))
            (omega (arith, length-set timers i (some (created i))))
    | no full ↦ unfold create_loop in unfold store in ground arith
  ]

starts_paused : ℕ → Bool
starts_paused ext_timer_flags = not (bit_and (timer_flags ext_timer_flags) Ftimer.start_paused == 0)

paused_all : all_below 16 starts_paused ≡ true
unfolding all_below starts_paused timer_flags
paused_all = refl

-- With flags below 16 and up to 64 tones, `multi_tone_gen_init` creates a paused timer for every
-- tone and selects none.
pub init-IsTuned :
    (half_period : ℕ → ℕ) (n_freqs ext_timer_flags : ℕ)
    → ext_timer_flags < 16
    → n_freqs ≤ max_tones
    → (g : ToneGen) × (init half_period n_freqs ext_timer_flags ≡ some g)
      × IsTuned g
      × (g.n_freqs ≡ n_freqs)
      × (g.freq_idx ≡ negsuc 0)
unfolding init starts_paused
init-IsTuned half_period n_freqs ext_timer_flags known fits =
    let empty : List (Option Ftimer) = replicate max_tones none in
    let slots = length-replicate {A = Option Ftimer} max_tones none in
    let paused = all_below_sound 16 starts_paused ext_timer_flags paused_all known in
    let (timers, runs, len, all) =
      create_loop_lem half_period (timer_flags ext_timer_flags) n_freqs 0 empty paused
        (omega (arith, slots)) (λ k lt. absurd (omega arith)) in
    (
      record {
        n_freqs = n_freqs;
        timers = timers;
        status = false;
        freq_idx = negsuc 0;
        calls = [];
      },
      rw runs refl,
      record {
        fits = fits;
        slots = len ∙ slots;
        tone = inl refl;
        only = λ i lt. all i (omega arith);
      },
      refl,
      refl,
    )

-- With more than 64 tones, `multi_tone_gen_init` writes behind the array of timers.
pub init_overflow :
    (half_period : ℕ → ℕ) (n_freqs ext_timer_flags : ℕ)
    → max_tones < n_freqs
    → init half_period n_freqs ext_timer_flags ≡ none
unfolding init
init_overflow half_period n_freqs ext_timer_flags over =
    let slots = length-replicate {A = Option Ftimer} max_tones none in
    rw
      (create_loop_faults half_period (timer_flags ext_timer_flags) n_freqs 0
        (replicate max_tones none) (omega arith) (omega (arith, slots)))
      refl
