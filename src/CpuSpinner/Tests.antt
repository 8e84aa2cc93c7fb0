-- ===== src/CpuSpinner/Tests.antt =====
-- The theorems about cpu_spinner.c for four cores, and for a core's worker.
use psplay.Base.{
  ◌*◌, some, none, replicate, length-replicate, length, ltb, ◌⊎◌, inl, inr, Bool-cases,
}
use psplay.CpuSpinner.Kernels.{
  Registers, Calloc, Allocates, kernel_avx2, freed, returned, exited, live, live-avx2,
}
use psplay.Base.{
  ℕ, ◌+◌, ◌<◌, ◌≡◌, refl, if◌then◌else◌, arith, Bool, true, false, ◌==◌, List, [], ◌∷◌,
}
use psplay.CpuSpinner.{Spinner, core_status, edge_loop, spin}
use psplay.CpuSpinner.Pool.{shutdown_worker, shut_below, create_loop, init}
use psplay.Framer.Outcome.{next}
use psplay.CpuSpinner.Startup.{Creates, init-Creates}
use psplay.CpuSpinner.Workers.{
  between, joining, joined, spinning, start, worker_turn, spin_core, shut_down, owner_turn, Turn,
  worker_acts, owner_acts, run,
}
use psplay.CpuSpinner.Wakeups.{two_turns, run-spins, run-joins}
use psplay.CpuSpinner.Edges.{rises, some_core, spin_lem}

-- The two lower cores of four are busy.
abbrev two_busy : Spinner
two_busy = record { num_cores = 4; active_cores = 3; broadcasts = 1; asked = [] }

-- Only stops: no wake-up.
spin-stop :
    spin two_busy 1 ≡ record { num_cores = 4; active_cores = 1; broadcasts = 1; asked = 1 ∷ [] }
unfolding spin edge_loop
spin-stop = refl

spin_lem_example :
    ((i : ℕ) → i < 4 → core_status (spin two_busy 6).active_cores i ≡ core_status 6 i)
    × ((spin two_busy 6).broadcasts ≡ (if some_core (rises 3 6) 4 0 then 1 + 1 else 1))
    × ((spin two_busy 6).num_cores ≡ 4)
spin_lem_example = spin_lem two_busy 6

-- The third worker cannot be made.
third_fails : ℕ → Bool
third_fails i = i == 2

none_fails : ℕ → Bool
none_fails i = false

init-third :
    init false false third_fails none_fails 8 4
    ≡ next (1, record { num_cores = 4; cond_made = false; mutex_made = true; running = [] })
unfolding init create_loop third_fails none_fails shut_below shutdown_worker
init-third = refl

init-Creates_example :
    Creates third_fails none_fails 4 0
      (record { num_cores = 4; cond_made = true; mutex_made = true; running = [] })
      (init false false third_fails none_fails 8 4)
init-Creates_example = init-Creates third_fails none_fails 8 4 (omega arith)

-- The worker falls asleep, and the owner asks for its core; or shuts it down.
abbrev asking : List Turn
asking =
    worker_acts false
    ∷ worker_acts false
    ∷ owner_acts (spin_core true)
    ∷ owner_acts shut_down
    ∷ owner_acts shut_down
    ∷ []

abbrev shutting_down : List Turn
shutting_down =
    worker_acts false
    ∷ worker_acts false
    ∷ owner_acts shut_down
    ∷ owner_acts shut_down
    ∷ owner_acts shut_down
    ∷ []

asking-owner : (run asking start).owner ≡ between
unfolding run worker_turn owner_turn
asking-owner = refl

asking-sig : (run asking start).sig ≡ true
unfolding run worker_turn owner_turn
asking-sig = refl

shutting-owner : (run shutting_down start).owner ≡ joining
unfolding run worker_turn owner_turn
shutting-owner = refl

run-spins_example : (run (two_turns false false) (run asking start)).worker ≡ spinning
run-spins_example = run-spins asking false false asking-owner asking-sig

run-joins_example :
    (run
      (worker_acts false ∷ worker_acts false ∷ worker_acts true ∷ owner_acts shut_down ∷ [])
      (run shutting_down start)).owner
    ≡ joined
run-joins_example = run-joins shutting_down false false true shut_down shutting-owner

abbrev unset_registers : Registers ℕ
unset_registers = record { a = 1; b = 2; c = 3; d = 4; e = 5; f = 6; g = 7; h = 8; q = 9 }

-- Memory for up to 1000 elements.
abbrev some_memory : Calloc ℕ
some_memory count size = if ltb count 1000 then some (replicate count 0) else none

some_memory-Allocates : Allocates (λ x y z. x * y + z) some_memory
some_memory-Allocates count x h = elim (Bool-cases (ltb count 1000)) [
  | inl few ↦ gives (replicate count 0) (length-replicate {A = ℕ} count 0) (rw few at h)
  | inr many ↦ cc
]
  where
    gives : (y : List ℕ) → length y ≡ count → some y ≡ some x → length x ≡ count
    gives y l e = cc

live-avx2_example :
    (live (kernel_avx2 (λ x y z. x * y + z)) 3 some_memory unset_registers ≡ returned freed)
    ⊎ ((some_memory 128 32 ≡ none)
        × (live (kernel_avx2 (λ x y z. x * y + z)) 3 some_memory unset_registers ≡ exited))
live-avx2_example =
    live-avx2 (λ x y z. x * y + z) 3 some_memory unset_registers some_memory-Allocates
