-- ===== src/CpuSpinner/Edges.antt =====
-- `cpu_spinner_spin` of cpu_spinner.c.
use psplay.Base.{
  ℕ, zero, suc, ◌+◌, ◌<◌, ◌≤◌, ◌≡◌, refl, ap, ap₂, ◌∙◌, arith, Bool, true, false, not, ◌&&◌, ◌||◌,
  if◌then◌else◌, [], ◌∷◌, ◌++◌,
}
use psplay.CpuSpinner.{Spinner, EdgeFlags, core_status, edge_loop, spin}
use native.Mathlib.Decide.{ℕ_discrete}

-- A core that is to start, and one that is to stop.
abbrev pub rises : ℕ → ℕ → ℕ → Bool
rises old new i = not (core_status old i) && core_status new i

abbrev pub falls : ℕ → ℕ → ℕ → Bool
falls old new i = core_status old i && not (core_status new i)

-- Some core of the `n` cores from `i` on has the property.
abbrev pub some_core : (ℕ → Bool) → ℕ → ℕ → Bool
some_core p zero i = false
some_core p (suc n) i = p i || some_core p n (i + 1)

-- The flags after one core.
abbrev step : ℕ → ℕ → ℕ → EdgeFlags → EdgeFlags
step old new i e =
    if rises old new i
    then record e { has_rising_edge = true }
    else if falls old new i
    then record e { has_falling_edge = true }
    else e

step_lem :
    (old new i : ℕ) (e : EdgeFlags)
    → ((step old new i e).has_rising_edge ≡ (e.has_rising_edge || rises old new i))
      × ((step old new i e).has_falling_edge ≡ (e.has_falling_edge || falls old new i))
step_lem old new i e = by_status (core_status old i) (core_status new i) e
  where
    by_status :
        (was is : Bool) (e : EdgeFlags)
        → let after : EdgeFlags =
            if not was && is
            then record e { has_rising_edge = true }
            else if was && not is
            then record e { has_falling_edge = true }
            else e in
          (after.has_rising_edge ≡ (e.has_rising_edge || (not was && is)))
          × (after.has_falling_edge ≡ (e.has_falling_edge || (was && not is)))
    by_status true true e = ground arith
    by_status true false e = ground arith
    by_status false true e = ground arith
    by_status false false e = ground arith

or_assoc : (a b c : Bool) → ((a || b) || c) ≡ (a || (b || c))
or_assoc true b c = refl
or_assoc false b c = refl

or_false : (a : Bool) → a ≡ (a || false)
or_false true = refl
or_false false = refl

edge_loop_lem :
    (old new n i : ℕ) (e : EdgeFlags)
    → ((edge_loop old new n i e).has_rising_edge
        ≡ (e.has_rising_edge || some_core (rises old new) n i))
      × ((edge_loop old new n i e).has_falling_edge
          ≡ (e.has_falling_edge || some_core (falls old new) n i))
unfolding edge_loop
edge_loop_lem old new zero i e = (or_false e.has_rising_edge, or_false e.has_falling_edge)
edge_loop_lem old new (suc n) i e =
    let (rise, fall) = edge_loop_lem old new n (i + 1) (step old new i e) in
    let (up, down) = step_lem old new i e in
    (
      rise
          ∙ ap (λ b. b || some_core (rises old new) n (i + 1)) up
          ∙ or_assoc e.has_rising_edge (rises old new i) (some_core (rises old new) n (i + 1)),
      fall
          ∙ ap (λ b. b || some_core (falls old new) n (i + 1)) down
          ∙ or_assoc e.has_falling_edge (falls old new i) (some_core (falls old new) n (i + 1)),
    )

none_of : (p : ℕ → Bool) (n i k : ℕ) → some_core p n i ≡ false → i ≤ k → k < i + n → p k ≡ false
none_of p zero i k h le lt = absurd (omega arith)
none_of p (suc n) i k h le lt = elim (ℕ_discrete i k) [
  | yes e ↦ rw e at (left_false (p i) (some_core p n (i + 1)) h)
  | no ne ↦
      none_of p n (i + 1) k (right_false (p i) (some_core p n (i + 1)) h) (omega arith)
        (omega arith)
]
  where
    left_false : (a b : Bool) → (a || b) ≡ false → a ≡ false
    left_false true b h = h
    left_false false b h = refl

    right_false : (a b : Bool) → (a || b) ≡ false → b ≡ false
    right_false true b h = cc
    right_false false b h = h

-- A core with neither edge is as it was.
no_edge : (was is : Bool) → (not was && is) ≡ false → (was && not is) ≡ false → was ≡ is
no_edge true true h k = refl
no_edge true false h k = cc
no_edge false true h k = cc
no_edge false false h k = refl

-- What `spin` does with the two flags.
abbrev outcome : Bool → Bool → Spinner → ℕ → Spinner
outcome rise fall s cores =
    if rise
    then record s {
      active_cores = cores;
      broadcasts = s.broadcasts + 1;
      asked = s.asked ++ cores ∷ [];
    }
    else if fall
    then record s { active_cores = cores; asked = s.asked ++ cores ∷ [] }
    else record s { asked = s.asked ++ cores ∷ [] }

spin_at :
    (s : Spinner) (cores : ℕ)
    → spin s cores
      ≡ outcome
          (some_core (rises s.active_cores cores) s.num_cores 0)
          (some_core (falls s.active_cores cores) s.num_cores 0)
          s
          cores
unfolding spin
spin_at s cores =
    let (rise, fall) =
      edge_loop_lem s.active_cores cores s.num_cores 0
        (record { has_rising_edge = false; has_falling_edge = false }) in
    ap₂ (λ a b. outcome a b s cores) rise fall

pub spin-asked :
    (s : Spinner) (cores : ℕ)
    → ((spin s cores).asked ≡ s.asked ++ cores ∷ []) × ((spin s cores).num_cores ≡ s.num_cores)
unfolding spin
spin-asked s cores = ground arith

-- After `cpu_spinner_spin` every core is on or off as was asked for, and the workers are woken, once,
-- exactly when some core is to start.
pub spin_lem :
    (s : Spinner) (cores : ℕ)
    → ((i : ℕ) → i < s.num_cores → core_status (spin s cores).active_cores i ≡ core_status cores i)
      × ((spin s cores).broadcasts ≡ (
          if some_core (rises s.active_cores cores) s.num_cores 0
          then s.broadcasts + 1
          else s.broadcasts))
      × ((spin s cores).num_cores ≡ s.num_cores)
spin_lem s cores = rw (spin_at s cores) (
    by_flags (some_core (rises s.active_cores cores) s.num_cores 0)
      (some_core (falls s.active_cores cores) s.num_cores 0)
      (λ h k i lt.
        no_edge (core_status s.active_cores i) (core_status cores i)
          (none_of (rises s.active_cores cores) s.num_cores 0 i h (omega arith) (omega arith))
          (none_of (falls s.active_cores cores) s.num_cores 0 i k (omega arith) (omega arith))))
  where
    by_flags :
        (rise fall : Bool)
        → (rise ≡ false
            → fall ≡ false
            → (i : ℕ) → i < s.num_cores
            → core_status s.active_cores i ≡ core_status cores i)
        → ((i : ℕ)
            → i < s.num_cores
            → core_status (outcome rise fall s cores).active_cores i ≡ core_status cores i)
          × ((outcome rise fall s cores).broadcasts
              ≡ (if rise then s.broadcasts + 1 else s.broadcasts))
          × ((outcome rise fall s cores).num_cores ≡ s.num_cores)
    by_flags true fall same = (λ i lt. refl, refl, refl)
    by_flags false true same = (λ i lt. refl, refl, refl)
    by_flags false false same = (same refl refl, refl, refl)
