-- ===== src/CpuSpinner/Cores.antt =====
-- CPU_SPINNER_N_CORES_ACTIVE of cpu_spinner.h.
use psplay.Base.{ℕ, ◌-◌, ◌*◌, ◌%◌, ◌^◌, ◌<◌, ◌≤◌, ◌≡◌, arith, ltb, bit_ones, some}
use psplay.Base.Mask.{bit_ones-has_bit}
use native.Mathlib.Nat.{pow-le-pow_right, one-le-pow}
use psplay.CpuSpinner.{core_status, n_cores_active}

complement : (p : ℕ) → 1 ≤ p → p ≤ 2 ^ 63 → 2 ^ 64 - 1 - (((2 ^ 64 - 1) * p) % 2 ^ 64) ≡ p - 1
complement p h k = omega arith

-- Below 64, the word asked for has the cores below `n` active and no other.
pub n_cores_active_lem :
    (n : ℕ)
    → n < 64
    → (cores : ℕ) × (n_cores_active n ≡ some cores) × ((i : ℕ) → core_status cores i ≡ ltb i n)
unfolding n_cores_active
n_cores_active_lem n h = (
  bit_ones n,
  ground (
    arith,
    complement (2 ^ n) (one-le-pow n 2 (omega arith))
        (pow-le-pow_right {n = 2} (omega arith) {i = n} {j = 63} (omega arith)),
  ),
  bit_ones-has_bit n,
)
