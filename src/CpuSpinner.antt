-- ===== src/CpuSpinner.antt =====
-- cpu_spinner.h and cpu_spinner.c: which processor cores are busy. A set of cores is a word of 64
-- bits, and there are at most that many cores.
pub mod Cores
pub mod Edges
pub mod Pool
pub mod Startup
pub mod Workers
pub mod Kernels
pub mod Sound
pub mod Wakeups
pub mod Tests
use psplay.Base.{
  ℕ, zero, suc, ◌+◌, Bool, true, false, not, ◌&&◌, ◌||◌, ◌==◌, if◌then◌else◌, bit_and, ◌<<<◌, ◌-◌,
  ◌%◌, ◌^◌, ltb, Option, none, some, List, [], ◌∷◌, ◌++◌,
}

-- CPU_SPINNER_CORE_MASK(n)
abbrev pub core_mask : ℕ → ℕ
core_mask i = 1 <<< i

-- CPU_SPINNER_N_CORES_ACTIVE(n), as a word of 64 bits; `none` is a shift that C leaves undefined.
unfoldable pub n_cores_active : ℕ → Option ℕ
n_cores_active n = if ltb n 64 then some (2 ^ 64 - 1 - (((2 ^ 64 - 1) <<< n) % 2 ^ 64)) else none

-- `cpu_spinner_t`, without its threads; `broadcasts` counts the wake-ups of the workers, and `asked` is a
-- history: the sets of cores that `cpu_spinner_spin` has been called with.
pub record Spinner : Type 0 where
  pub num_cores : ℕ
  pub active_cores : ℕ
  pub broadcasts : ℕ
  pub asked : List ℕ

-- `!!(active_cores & CPU_SPINNER_CORE_MASK(i))`
abbrev pub core_status : ℕ → ℕ → Bool
core_status cores i = not (bit_and cores (core_mask i) == 0)

-- The two flags of `cpu_spinner_spin`.
pub record EdgeFlags : Type 0 where
  pub has_rising_edge : Bool
  pub has_falling_edge : Bool

-- The loop with `left` cores to go from core `i` on.
unfoldable pub edge_loop : ℕ → ℕ → ℕ → ℕ → EdgeFlags → EdgeFlags
edge_loop old new zero i e = e
edge_loop old new (suc left) i e =
    let old_status = core_status old i in
    let new_status = core_status new i in
    let rise : EdgeFlags = record e { has_rising_edge = true } in
    let fall : EdgeFlags = record e { has_falling_edge = true } in
    edge_loop old new left (i + 1) (
      if not old_status && new_status
      then rise
      else if old_status && not new_status
      then fall
      else e)

unfoldable pub spin : Spinner → ℕ → Spinner
spin s active_cores =
    let e =
      edge_loop s.active_cores active_cores s.num_cores 0
        (record { has_rising_edge = false; has_falling_edge = false }) in
    let asked = s.asked ++ active_cores ∷ [] in
    let woken : Spinner = record s {
      active_cores = active_cores;
      broadcasts = s.broadcasts + 1;
      asked = asked;
    } in
    let stored : Spinner = record s { active_cores = active_cores; asked = asked } in
    let same : Spinner = record s { asked = asked } in
    if e.has_rising_edge then woken else if e.has_falling_edge then stored else same
