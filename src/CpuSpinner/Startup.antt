-- ===== src/CpuSpinner/Startup.antt =====
-- How the workers of cpu_spinner.c are started and ended together.
use psplay.Base.{
  ℕ, zero, suc, ◌+◌, ◌≤◌, ◌<◌, ◌≡◌, ◌⊎◌, inl, inr, refl, arith, sym, ap, ◌∙◌, Bool, Bool-cases,
  true, false, ◌==◌, List, [], ◌∷◌, ◌++◌,
}
use psplay.Framer.Outcome.{Run, aborted, next, ◌>>=◌}
use psplay.CpuSpinner.Pool.{
  Pool, remove, shutdown_worker, shut_below, create_loop, init, shut_loop, destroy,
}
use native.Mathlib.Decide.{ℕ_discrete}

-- The cores `i .. i + n - 1`.
abbrev pub cores_from : ℕ → ℕ → List ℕ
cores_from i zero = []
cores_from i (suc n) = i ∷ cores_from (i + 1) n

cores_from-end : (i n : ℕ) → cores_from i n ++ (i + n) ∷ [] ≡ cores_from i (suc n)
cores_from-end i zero = ap (λ (k : ℕ). k ∷ []) (omega arith)
cores_from-end i (suc n) =
    let next : i + suc n ≡ i + 1 + n = omega arith in
    ap (λ t. i ∷ t) (ap (λ (k : ℕ). cores_from (i + 1) n ++ k ∷ []) next ∙ cores_from-end (i + 1) n)

remove-end : (i n : ℕ) → remove (i + n) (cores_from i (suc n)) ≡ next (cores_from i n)
remove-end i zero = ground arith
remove-end i (suc n) =
    let further : i + suc n ≡ i + 1 + n = omega arith in
    let other : (i == i + suc n) ≡ false = ground arith in
    let rest : remove (i + suc n) (cores_from (i + 1) (suc n)) ≡ next (cores_from (i + 1) n) =
      ap (λ (k : ℕ). remove k (cores_from (i + 1) (suc n))) further ∙ remove-end (i + 1) n in
    rw other (ap (λ t. t >>= λ cores. next (i ∷ cores)) rest)

-- The same from core 0 on.
remove_top : (n : ℕ) → remove n (cores_from 0 (suc n)) ≡ next (cores_from 0 n)
remove_top n =
    let z : n ≡ 0 + n = omega arith in
    ap (λ (k : ℕ). remove k (cores_from 0 (suc n))) z ∙ remove-end 0 n

append_top : (n : ℕ) → cores_from 0 n ++ n ∷ [] ≡ cores_from 0 (n + 1)
append_top n =
    let z : n ≡ 0 + n = omega arith in
    let further : suc n ≡ n + 1 = omega arith in
    ap (λ (k : ℕ). cores_from 0 n ++ k ∷ []) z ∙ cores_from-end 0 n ∙ ap (cores_from 0) further

shutdown_worker_lem :
    (i : ℕ) (p : Pool) (cores : List ℕ)
    → remove i p.running ≡ next cores
    → shutdown_worker p i ≡ next (record p { running = cores })
unfolding shutdown_worker
shutdown_worker_lem i p cores e = ap (λ t. t >>= λ cores. next (record p { running = cores })) e

shut_below_lem :
    (n : ℕ) (p : Pool)
    → p.running ≡ cores_from 0 n
    → shut_below n p ≡ next (record p { running = [] })
unfolding shut_below
shut_below_lem zero p e = λ i. next (record p { running = e i })
shut_below_lem (suc n) p e =
    let ended = shutdown_worker_lem n p (cores_from 0 n) (ap (remove n) e ∙ remove_top n) in
    ap (λ t. t >>= λ q. shut_below n q) ended
    ∙ shut_below_lem n (record p { running = cores_from 0 n }) refl

-- From core `i` to before `n`, each worker can be made and bound to its core.
abbrev pub AllStart : (ℕ → Bool) → (ℕ → Bool) → ℕ → ℕ → Type 0
AllStart create_fails affinity_fails i n =
    (k : ℕ) → i ≤ k → k < n → (create_fails k ≡ false) × (affinity_fails k ≡ false)

-- What the loop over the cores comes to.
abbrev pub Creates : (ℕ → Bool) → (ℕ → Bool) → ℕ → ℕ → Pool → Run (ℕ × Pool) → Type 0
Creates create_fails affinity_fails n i p result =
    (AllStart create_fails affinity_fails i n
      × (result ≡ next (0, record p { running = cores_from 0 n })))
    ⊎ ((k : ℕ) × (i ≤ k)
        × (k < n)
        × AllStart create_fails affinity_fails i k
        × (((create_fails k ≡ true)
              × (result ≡ next (1, record p { cond_made = false; running = [] })))
            ⊎ ((create_fails k ≡ false) × (affinity_fails k ≡ true) × (result ≡ aborted))))

first_starts :
    (f g : ℕ → Bool) (i n : ℕ)
    → f i ≡ false
    → g i ≡ false
    → AllStart f g (i + 1) n
    → AllStart f g i n
first_starts f g i n starts bound later k a b = elim (ℕ_discrete i k) [
  | yes e ↦ (ap f (sym e) ∙ starts, ap g (sym e) ∙ bound)
  | no ne ↦ later k (omega arith) b
]

create_loop_lem :
    (f g : ℕ → Bool) (n left i : ℕ) (p : Pool)
    → i + left ≡ n
    → p.running ≡ cores_from 0 i
    → Creates f g n i p (create_loop f g left i p)
unfolding create_loop
create_loop_lem f g n zero i p h e =
    let all : i ≡ n = omega arith in
    inl (
      λ k a b. absurd (omega arith),
      λ j. next (0, record p { running = (e ∙ ap (cores_from 0) all) j }),
    )
create_loop_lem f g n (suc left) i p h e = elim (Bool-cases (f i)) [
  | inl fails ↦ inr (
    i,
    omega arith,
    omega arith,
    λ k a b. absurd (omega arith),
    inl (
      fails,
      rw fails
          (ap (λ t. t >>= λ q. next (1, record q { cond_made = false })) (shut_below_lem i p e)),
    ),
  )
  | inr starts ↦ elim (Bool-cases (g i)) [
    | inl unbound ↦ inr (
      i,
      omega arith,
      omega arith,
      λ k a b. absurd (omega arith),
      inr (starts, unbound, rw (starts, unbound) refl),
    )
    | inr bound ↦
        elim (create_loop_lem f g n left (i + 1) (record p { running = p.running ++ i ∷ [] })
          (omega arith) (ap (λ c. c ++ i ∷ []) e ∙ append_top i)) [
            | inl (all, r) ↦ inl (first_starts f g i n starts bound all, rw (starts, bound) r)
            | inr (k, a, b, all, inl (fails, r)) ↦ inr (
              k,
              omega arith,
              b,
              first_starts f g i k starts bound all,
              inl (fails, rw (starts, bound) r),
            )
            | inr (k, a, b, all, inr (made, unbound, r)) ↦ inr (
              k,
              omega arith,
              b,
              first_starts f g i k starts bound all,
              inr (made, unbound, rw (starts, bound) r),
            )
          ]
  ]
]

-- With the condition and the mutex made, `cpu_spinner_init` for one core or more: if each worker can
-- be made and bound to its core, it returns 0 with a worker for every core; else, at the first core
-- where one of these fails, if the worker cannot be made, it returns 1 with no worker left and the
-- condition destroyed, but not the mutex; if it cannot be bound, the process ends in `abort`.
pub init-Creates :
    (create_fails affinity_fails : ℕ → Bool) (online asked : ℕ)
    → 1 ≤ asked
    → Creates create_fails affinity_fails asked 0
        (record { num_cores = asked; cond_made = true; mutex_made = true; running = [] })
        (init false false create_fails affinity_fails online asked)
unfolding init
init-Creates create_fails affinity_fails online asked some_core =
    let given : (asked == 0) ≡ false = ground arith in
    rw given (
      create_loop_lem create_fails affinity_fails asked asked 0
        (record { num_cores = asked; cond_made = true; mutex_made = true; running = [] })
        (omega arith) refl)

shut_loop_lem :
    (left i : ℕ) (p : Pool)
    → p.running ≡ cores_from i left
    → shut_loop left i p ≡ next (record p { running = [] })
unfolding shut_loop
shut_loop_lem zero i p e = λ j. next (record p { running = e j })
shut_loop_lem (suc left) i p e =
    let same : (i == i) ≡ true = ground arith in
    let ended =
      shutdown_worker_lem i p (cores_from (i + 1) left) (ap (remove i) e ∙ rw same refl) in
    ap (λ t. t >>= λ q. shut_loop left (i + 1) q) ended
    ∙ shut_loop_lem left (i + 1) (record p { running = cores_from (i + 1) left }) refl

-- `cpu_spinner_destroy` of a spinner with a worker for every core joins each, and leaves nothing behind.
pub destroy-empties :
    (p : Pool)
    → p.running ≡ cores_from 0 p.num_cores
    → destroy p
      ≡ next
          (record { num_cores = p.num_cores; cond_made = false; mutex_made = false; running = [] })
unfolding destroy
destroy-empties p e =
    ap (λ t. t >>= λ (q : Pool). next (record q { mutex_made = false; cond_made = false }))
      (shut_loop_lem p.num_cores 0 p e)
