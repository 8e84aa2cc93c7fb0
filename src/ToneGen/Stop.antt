-- ===== src/ToneGen/Stop.antt =====
-- `multi_tone_gen_destroy` (multi_tone_gen.c), and retuning to any number at all.
use psplay.Base.{
  ℕ, zero, suc, ◌+◌, ◌<◌, ◌≤◌, ◌≡◌, refl, ◌∙◌, arith, Bool, Option, none, some, List, length,
  get_or, set, store_lem, length-set, get_elem?-eq-get_or, get_or-set_self, get_or-set_ne, ◌⊎◌, inl,
  inr,
}
use psplay.Base.Int.{ℤ, pos, negsuc, eqb_ℤ}
use psplay.Ftimer.{Ftimer}
use psplay.ToneGen.{ToneGen, switch_frequency, destroy_loop, destroy}
use psplay.ToneGen.Tuned.{Runs, IsTone, IsTuned, Runs-moved}
use psplay.ToneGen.Switch.{switch-IsTuned, switch_ignored}
use native.Mathlib.Decide.{dec_lt, ℕ_discrete}

tone-lt : (n k : ℕ) → IsTone n (pos k) → k < n
tone-lt n k (inl e) = cc
tone-lt n k (inr (i, e, lt)) = ground arith

below_no-IsTone : (n k : ℕ) → ¬ IsTone n (negsuc (suc k))
below_no-IsTone n k (inl e) = ground arith
below_no-IsTone n k (inr (i, e, lt)) = cc

IsTone-dec : (n : ℕ) (idx : ℤ) → IsTone n idx ⊎ (¬ IsTone n idx)
IsTone-dec n (pos k) = elim (dec_lt k n) [
  | yes lt ↦ inl (inr (k, refl, lt))
  | no ge ↦ inr (λ t. ge (tone-lt n k t))
]
IsTone-dec n (negsuc zero) = inl (inl refl)
IsTone-dec n (negsuc (suc k)) = inr (below_no-IsTone n k)

-- A number of no tone leaves the generator as it is, so that any number is safe.
pub switch_total :
    (g : ToneGen) (idx : ℤ)
    → IsTuned g
    → (g' : ToneGen) × (switch_frequency g idx ≡ some g') × IsTuned g'
switch_total g idx v = elim (IsTone-dec g.n_freqs idx) [
  | inl tone ↦
      let (g', runs, tuned, idx_is, n_is, status_is, calls_are) = switch-IsTuned g idx v tone in
      (g', runs, tuned)
  | inr out ↦ (g, switch_ignored g idx out, v)
]

destroy_step :
    (left i : ℕ) (timers : List (Option Ftimer)) (running : Bool)
    → i < length timers
    → Runs timers i running
    → destroy_loop (suc left) i timers ≡ destroy_loop left (i + 1) (set timers i none)
unfolding destroy_loop
destroy_step left i timers running room r =
    rw (get_elem?-eq-get_or timers i none room, r.there, store_lem timers i none room) refl

-- Every slot up to the last one is emptied, and each was there.
destroy_loop_lem :
    (left i : ℕ) (timers : List (Option Ftimer)) (running : ℕ → Bool)
    → i + left ≤ length timers
    → ((k : ℕ) → k < i → get_or timers k none ≡ none)
    → ((k : ℕ) → i ≤ k → k < i + left → Runs timers k (running k))
    → (timers' : List (Option Ftimer)) × (destroy_loop left i timers ≡ some timers')
      × ((k : ℕ) → k < i + left → get_or timers' k none ≡ none)
destroy_loop_lem zero i timers running room gone there =
    (timers, unfold destroy_loop in refl, λ k lt. gone k (omega arith))
destroy_loop_lem (suc left) i timers running room gone there =
    let timers' = set timers i none in
    let (after, runs, all) =
      destroy_loop_lem left (i + 1) timers' running (omega (arith, length-set timers i none))
        emptied kept in
    (
      after,
      destroy_step left i timers (running i) (omega arith) (there i (omega arith) (omega arith))
          ∙ runs,
      λ k lt. all k (omega arith),
    )
  where
    emptied : (k : ℕ) → k < i + 1 → get_or (set timers i none) k none ≡ none
    emptied k lt = elim (ℕ_discrete i k) [
      | yes e ↦ rw (← e) (get_or-set_self timers i none none (omega arith))
      | no ne ↦ get_or-set_ne timers i k none none ne ∙ gone k (omega arith)
    ]

    kept : (k : ℕ) → i + 1 ≤ k → k < i + 1 + left → Runs (set timers i none) k (running k)
    kept k le lt =
        let ne : ¬ (i ≡ k) = omega arith in
        Runs-moved (get_or-set_ne timers i k none none ne) (there k (omega arith) (omega arith))

-- From a state in which only the current tone's timer runs, `multi_tone_gen_destroy` succeeds and
-- leaves no tone a timer.
pub destroy_lem :
    (g : ToneGen)
    → IsTuned g
    → (g' : ToneGen) × (destroy g ≡ some g')
      × ((i : ℕ) → i < g.n_freqs → get_or g'.timers i none ≡ none)
unfolding destroy
destroy_lem g v =
    let (g', runs, tuned, idx_is, n_is, status_is, calls_are) =
      switch-IsTuned g (negsuc 0) v (inl refl) in
    let (timers, gone, all) =
      destroy_loop_lem g'.n_freqs 0 g'.timers (λ i. eqb_ℤ g'.freq_idx (pos i))
        (omega (arith, tuned.fits, tuned.slots)) (λ k lt. absurd (omega arith))
        (λ k le lt. tuned.only k (omega arith)) in
    (record g' { timers = timers }, rw (runs, gone) refl, λ i lt. all i (omega arith))
