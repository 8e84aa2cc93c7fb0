-- ===== src/Utils/Log.antt =====
-- `log2_int` of utils.h.
use psplay.Base.{ℕ, zero, suc, ◌+◌, ◌/◌, ◌^◌, ◌≤◌, ◌<◌, ◌≡◌, arith, some, ◌∙◌, ap}
use psplay.Utils.{log2_loop, log2_int}
use native.Mathlib.Nat.{pow-suc}
use native.Mathlib.Decide.{dec_lt}

log2_last : (fuel x y : ℕ) → x < 2 → log2_loop (suc fuel) x y ≡ some y
unfolding log2_loop
log2_last fuel x y h = ground arith

log2_more : (fuel x y : ℕ) → 2 ≤ x → log2_loop (suc fuel) x y ≡ log2_loop fuel (x / 2) (y + 1)
unfolding log2_loop
log2_more fuel x y h = ground arith

log2_loop_lem :
    (fuel x y : ℕ)
    → 1 ≤ x
    → x < 2 ^ fuel
    → (k : ℕ) × (log2_loop fuel x y ≡ some (k + y)) × (2 ^ k ≤ x) × (x < 2 ^ suc k)
log2_loop_lem zero x y some_bit small = absurd (omega arith)
log2_loop_lem (suc fuel) x y some_bit small = elim (dec_lt x 2) [
  | yes low ↦ (0, log2_last fuel x y low ∙ ap some (drop_zero y), omega arith, omega arith)
  | no high ↦
      let (k, runs, above, below) =
        log2_loop_lem fuel (x / 2) (y + 1) (omega arith) (omega (arith, pow-suc 2 fuel)) in
      (
        suc k,
        log2_more fuel x y (omega arith) ∙ runs ∙ ap some (regroup y k),
        omega (arith, pow-suc 2 k),
        omega (arith, pow-suc 2 k, pow-suc 2 (suc k)),
      )
]
  where
    drop_zero : (k : ℕ) → k ≡ 0 + k
    drop_zero k = omega arith

    regroup : (y k : ℕ) → k + (y + 1) ≡ suc k + y
    regroup y k = omega arith

-- Of a positive `unsigned int`, `log2_int` returns the logarithm to base 2, rounded down; its fuel of
-- 32 rounds is enough.
pub log2_int_lem :
    (x : ℕ) → 1 ≤ x → x < 2 ^ 32 → (k : ℕ) × (log2_int x ≡ some k) × (2 ^ k ≤ x) × (x < 2 ^ suc k)
unfolding log2_int
log2_int_lem x some_bit small =
    let (k, runs, above, below) = log2_loop_lem 32 x 0 some_bit small in
    (k, runs ∙ ap some (drop_zero k), above, below)
  where
    drop_zero : (k : ℕ) → k + 0 ≡ k
    drop_zero k = omega arith
