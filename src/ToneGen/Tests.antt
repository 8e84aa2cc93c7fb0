-- ===== src/ToneGen/Tests.antt =====
-- The theorems about multi_tone_gen.c for two tones.
use psplay.Base.{
  ℕ, zero, suc, ◌*◌, ◌+◌, ◌<◌, ◌≡◌, refl, arith, Bool, true, false, none, some, [], ◌∷◌, replicate,
  inl, inr,
}
use psplay.Base.Int.{pos, eqb_ℤ}
use psplay.Ftimer.{Ftimer}
use psplay.ToneGen.{ToneGen, switch_frequency}
use psplay.ToneGen.Tuned.{Runs, IsTone, IsTuned}
use psplay.ToneGen.Switch.{switch-IsTuned}

-- One millisecond, two milliseconds, and so on.
abbrev half_period : ℕ → ℕ
half_period i = (i + 1) * 1000000

abbrev timer : Bool → Ftimer
timer pausing = record {
  flags = 13;
  cb = true;
  interval = record { tv_sec = 0; tv_nsec = 1000000 };
  paused = pausing;
  pausing = pausing;
  exiting = false;
  outstanding_ticks = 0;
}

-- Two tones, of which the second sounds.
abbrev second_tone : ToneGen
second_tone = record {
  n_freqs = 2;
  timers = some (timer true) ∷ some (timer false) ∷ replicate 62 none;
  status = true;
  freq_idx = pos 1;
  calls = 1 ∷ [];
}

second_tone-IsTuned : IsTuned second_tone
second_tone-IsTuned = record {
  fits = omega arith;
  slots = refl;
  tone = inr (1, refl, omega arith);
  only = runs;
}
  where
    runs : (i : ℕ) → i < 2 → Runs second_tone.timers i (eqb_ℤ (pos 1) (pos i))
    runs zero lt = record { timer = timer true; there = refl; pausing = refl }
    runs (suc zero) lt = record { timer = timer false; there = refl; pausing = refl }
    runs (suc (suc i)) lt = absurd (omega arith)

no-IsTone : ¬ IsTone 2 (pos 2)
no-IsTone (inl e) = cc
no-IsTone (inr (i, e, lt)) = ground arith

switch-IsTuned_example :
    (g : ToneGen) × (switch_frequency second_tone (pos 0) ≡ some g)
    × IsTuned g
    × (g.freq_idx ≡ pos 0)
    × (g.n_freqs ≡ 2)
    × (g.status ≡ true)
    × (g.calls ≡ 1 ∷ [])
switch-IsTuned_example =
    switch-IsTuned second_tone (pos 0) second_tone-IsTuned (inr (0, refl, omega arith))
