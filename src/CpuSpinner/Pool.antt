-- ===== src/CpuSpinner/Pool.antt =====
-- `cpu_spinner_init` and `cpu_spinner_destroy` of cpu_spinner.c: which workers run, and what is set up.
-- What the calls of the system deliver is part of the input; a `malloc` gives memory, as the code takes
-- it to. Workers has what a worker does, and that `shutdown_worker` ends it.
use psplay.Base.{ℕ, zero, suc, ◌+◌, Bool, true, false, ◌==◌, if◌then◌else◌, List, [], ◌∷◌, ◌++◌}
use psplay.Framer.Outcome.{Run, fault, aborted, next, ◌>>=◌}

-- `running` has the cores with a worker.
pub record Pool : Type 0 where
  pub num_cores : ℕ
  pub cond_made : Bool
  pub mutex_made : Bool
  pub running : List ℕ

-- `pthread_join` of a core's worker, of which there has to be one.
abbrev pub remove : ℕ → List ℕ → Run (List ℕ)
remove i [] = fault
remove i (k ∷ cores) =
    let kept = remove i cores >>= λ rest. next (k ∷ rest) in if k == i then next cores else kept

unfoldable pub shutdown_worker : Pool → ℕ → Run Pool
shutdown_worker p i = remove i p.running >>= λ cores. next (record p { running = cores })

-- `for (int k = i - 1; k >= 0; k--)`
unfoldable pub shut_below : ℕ → Pool → Run Pool
shut_below zero p = next p
shut_below (suc k) p = shutdown_worker p k >>= λ q. shut_below k q

-- Whether `pthread_create` and `pthread_setaffinity_np` fail for a core: the second ends the process. The
-- loop has `left` cores to go, from `i` on; with it, the return value.
unfoldable pub create_loop : (ℕ → Bool) → (ℕ → Bool) → ℕ → ℕ → Pool → Run (ℕ × Pool)
create_loop create_fails affinity_fails zero i p = next (0, p)
create_loop create_fails affinity_fails (suc left) i p =
    let made : Pool = record p { running = p.running ++ i ∷ [] } in
    let rest = create_loop create_fails affinity_fails left (i + 1) made in
    let undone = shut_below i p >>= λ q. next (1, record q { cond_made = false }) in
    if create_fails i then undone else if affinity_fails i then aborted else rest

-- `online` is the number of cores that the system has.
unfoldable pub init : Bool → Bool → (ℕ → Bool) → (ℕ → Bool) → ℕ → ℕ → Run (ℕ × Pool)
init cond_fails mutex_fails create_fails affinity_fails online asked =
    let num_cores = if asked == 0 then online else asked in
    let made : Bool → Bool → Pool =
      λ c m. record { num_cores = num_cores; cond_made = c; mutex_made = m; running = [] } in
    let started = create_loop create_fails affinity_fails num_cores 0 (made true true) in
    if cond_fails
    then next (1, made false false)
    else if mutex_fails
    then next (1, made false false)
    else started

-- The loop of `cpu_spinner_destroy`, with `left` cores to go from `i` on.
unfoldable pub shut_loop : ℕ → ℕ → Pool → Run Pool
shut_loop zero i p = next p
shut_loop (suc left) i p = shutdown_worker p i >>= λ q. shut_loop left (i + 1) q

unfoldable pub destroy : Pool → Run Pool
destroy p =
    shut_loop p.num_cores 0 p >>= λ q. next (record q { mutex_made = false; cond_made = false })
