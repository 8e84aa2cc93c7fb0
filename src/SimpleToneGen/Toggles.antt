-- ===== src/SimpleToneGen/Toggles.antt =====
-- The ticks of simple_tone_gen.c switch the processor cores on and off in turn.
use psplay.Base.{ℕ, zero, suc, ◌<◌, ◌≤◌, ◌≡◌, refl, ap, ◌∙◌, arith, Bool, true, false, not}
use psplay.Base.Mask.{bit_ones-has_bit}
use psplay.CpuSpinner.{core_status}
use psplay.CpuSpinner.Edges.{spin_lem}
use psplay.SimpleToneGen.{all_cores, SimpleToneGen, toggle, toggles}

all_cores_lem : (b : Bool) (i : ℕ) → i < 64 → core_status (all_cores b) i ≡ b
all_cores_lem true i h = bit_ones-has_bit 64 i ∙ ground arith
all_cores_lem false i h = bit_ones-has_bit 0 i ∙ ground arith

-- After so many turns of a switch.
abbrev pub flipped : ℕ → Bool → Bool
flipped zero b = b
flipped (suc n) b = flipped n (not b)

module _ {Freq : Type 0} where
  -- The cores are as the status says.
  abbrev pub Sounds : SimpleToneGen Freq → Type 0
  Sounds g = (i : ℕ) → i < g.spinner.num_cores → core_status g.spinner.active_cores i ≡ g.status

  toggle-Sounds :
      (g : SimpleToneGen Freq)
      → g.spinner.num_cores ≤ 64
      → Sounds (toggle g) × ((toggle g).spinner.num_cores ≡ g.spinner.num_cores)
  unfolding toggle
  toggle-Sounds g few =
      let (set, woken, kept) = spin_lem g.spinner (all_cores (not g.status)) in
      (λ i h. set i (omega arith) ∙ all_cores_lem (not g.status) i (omega arith), kept)

  -- With up to 64 cores, after any number of ticks from one on every core is busy, or none is, as the
  -- status says, and the status has changed with every tick.
  pub toggles-Sounds :
      (n : ℕ) (g : SimpleToneGen Freq)
      → g.spinner.num_cores ≤ 64
      → Sounds (toggles (suc n) g) × ((toggles (suc n) g).status ≡ flipped (suc n) g.status)
  unfolding toggles
  toggles-Sounds zero g few =
      let (sounds, kept) = toggle-Sounds g few in (sounds, unfold toggle in refl)
  toggles-Sounds (suc n) g few =
      let (sounds, kept) = toggle-Sounds g few in
      let (rest, flips) = toggles-Sounds n (toggle g) (omega arith) in
      (rest, flips ∙ ap (flipped (suc n)) (unfold toggle in refl))
