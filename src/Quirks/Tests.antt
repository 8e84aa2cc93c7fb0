-- ===== src/Quirks/Tests.antt =====
-- Runs of the loop over two processors, with files in memory.
use mathlib.Core.Logic.{∥∥₁_elim}
use mathlib.Core.HLevel.{⊥_prop}
use mathlib.Core.List.{Mem, Memᴰ}
use mathlib.Core.List.Memᴰ.{cases_cons, not-nil}
use psplay.Base.{
  ℕ, zero, suc, ◌≡◌, ◌≢◌, refl, ap, subst, arith, Bool, true, false, ◌==◌, if◌then◌else◌,
  Bool-cases, inl, inr, Option, none, some, List, [], ◌∷◌, ◌++◌, length, replicate, store,
}
use psplay.Base.Int.{pos}
use psplay.Quirks.{
  CpuFile, scaling_driver, scaling_governor, FileSystem, newline, governor_target, supported_driver,
  Message, setting, unsupported, not_set, Run, set_governors, turn, file_read, read_opened,
  keep_line, first_line, fill, strcspn_newline, compare_driver, strncmp_differs, check_governor,
  compare_governor, set_governor, text, file_write,
}
use psplay.Quirks.Settled.{IsLawful}
use psplay.Quirks.Governors.{FilledFrom, Governed, set_governors-Governed}
use psplay.Quirks.Again.{begin_again, set_governors-again}

abbrev same_file : CpuFile → CpuFile → Bool
same_file (scaling_driver i) (scaling_driver j) = i == j
same_file (scaling_governor i) (scaling_governor j) = i == j
same_file (scaling_driver i) (scaling_governor j) = false
same_file (scaling_governor i) (scaling_driver j) = false

same_file_self : (p : CpuFile) → same_file p p ≡ true
same_file_self (scaling_driver i) = ground arith
same_file_self (scaling_governor i) = ground arith

same_file-ne : (p q : CpuFile) → q ≢ p → same_file p q ≡ false
same_file-ne (scaling_driver i) (scaling_driver j) ne = elim (Bool-cases (i == j)) [
  | inl is ↦ absurd (ne (ap scaling_driver (ground arith)))
  | inr other ↦ other
]
same_file-ne (scaling_governor i) (scaling_governor j) ne = elim (Bool-cases (i == j)) [
  | inl is ↦ absurd (ne (ap scaling_governor (ground arith)))
  | inr other ↦ other
]
same_file-ne (scaling_driver i) (scaling_governor j) ne = refl
same_file-ne (scaling_governor i) (scaling_driver j) ne = refl

-- Files in memory: every print succeeds and replaces what there was.
abbrev Memory : FileSystem
Memory = record {
  Files = CpuFile → Option (List ℕ);
  content = λ f p. f p;
  open_write = λ f p. some f;
  print = λ f p bytes. ((λ q. if same_file p q then some bytes else f q), pos (length bytes));
}

Memory-IsLawful : IsLawful Memory
Memory-IsLawful = record {
  printed = λ s opened p bytes n e k. rw (same_file_self p) refl;
  open_elsewhere = λ s opened p q e ne. cc;
  print_elsewhere = λ s p q bytes ne. rw (same_file-ne p q ne) refl;
}

-- "powersave" and "acpi-cpufreq"
abbrev powersave : List ℕ
powersave = 112 ∷ 111 ∷ 119 ∷ 101 ∷ 114 ∷ 115 ∷ 97 ∷ 118 ∷ 101 ∷ []

abbrev other_driver : List ℕ
other_driver = 97 ∷ 99 ∷ 112 ∷ 105 ∷ 45 ∷ 99 ∷ 112 ∷ 117 ∷ 102 ∷ 114 ∷ 101 ∷ 113 ∷ []

-- A first processor with the supported driver, and others with what is given for theirs.
abbrev machine : List ℕ → CpuFile → Option (List ℕ)
machine driver (scaling_driver zero) = some (supported_driver ++ newline ∷ [])
machine driver (scaling_driver (suc k)) = some driver
machine driver (scaling_governor k) = some (powersave ++ newline ∷ [])

abbrev begin : (CpuFile → Option (List ℕ)) → Run Memory
begin files = record {
  files = files;
  scaling_driver_buf = replicate 256 7;
  governor_current = replicate 256 7;
  log = [];
}

-- The governors of the first two processors after a run over them, and what was told.
abbrev governors : Option (Run Memory) → Option (List ℕ) × Option (List ℕ) × List (ℕ × Message)
governors none = (none, none, [])
governors (some r) = (r.files (scaling_governor 0), r.files (scaling_governor 1), r.log)

first_alone : governors (set_governors 2 0 (begin (machine (other_driver ++ newline ∷ [])))) ≡ (
  some (governor_target ++ newline ∷ []),
  some (powersave ++ newline ∷ []),
  (0, setting powersave) ∷ (1, unsupported other_driver) ∷ [],
)
unfolding set_governors turn file_read read_opened keep_line first_line fill strcspn_newline store
    compare_driver strncmp_differs check_governor compare_governor set_governor text file_write
first_alone = refl

-- A driver's file with nothing to read: the second processor passes for one with the driver of the
-- first, which the buffer still holds.
stale_driver : governors (set_governors 2 0 (begin (machine []))) ≡ (
  some (governor_target ++ newline ∷ []),
  some (governor_target ++ newline ∷ []),
  (0, setting powersave) ∷ (1, setting powersave) ∷ [],
)
unfolding set_governors turn file_read read_opened keep_line first_line fill strcspn_newline store
    compare_driver strncmp_differs check_governor compare_governor set_governor text file_write
stale_driver = refl

abbrev two : Run Memory
two = begin (machine (other_driver ++ newline ∷ []))

abbrev run_of : Option (Run Memory) → Run Memory
run_of none = two
run_of (some r) = r

two-ends : set_governors 2 0 two ≡ some (run_of (set_governors 2 0 two))
unfolding set_governors turn file_read read_opened keep_line first_line fill strcspn_newline store
    compare_driver strncmp_differs check_governor compare_governor set_governor text file_write
two-ends = refl

two-log :
    (run_of (set_governors 2 0 two)).log
    ≡ (0, setting powersave) ∷ (1, unsupported other_driver) ∷ []
unfolding set_governors turn file_read read_opened keep_line first_line fill strcspn_newline store
    compare_driver strncmp_differs check_governor compare_governor set_governor text file_write
two-log = refl

unreported :
    (k : ℕ)
    → Memᴰ {A = ℕ × Message}
        (k, not_set)
        ((0, setting powersave) ∷ (1, unsupported other_driver) ∷ [])
    → ⊥
unreported k m = elim (cases_cons m) [
  | inl e ↦ absurd (told (ap (λ p. p.1) e))
  | inr m' ↦ elim (cases_cons m') [
    | inl e ↦ absurd (refused (ap (λ p. p.1) e))
    | inr m'' ↦ absurd (not-nil m'')
  ]
]
  where
    told : not_set ≡ setting powersave → ⊥
    told e = cc

    refused : not_set ≡ unsupported other_driver → ⊥
    refused e = cc

two-FilledFrom : FilledFrom Memory 0 2 two.files
two-FilledFrom zero from to = (λ e. cc, λ e. cc)
two-FilledFrom (suc k) from to = (λ e. cc, λ e. cc)

set_governors-Governed_example :
    (r : Run Memory) × (set_governors 2 0 two ≡ some r) × Governed 0 2 two.files [] r
set_governors-Governed_example =
    set_governors-Governed Memory-IsLawful 2 0 two two-FilledFrom refl refl

set_governors-again_example :
    (s : Run Memory) × (set_governors 2 0
        (begin_again (replicate 256 1) (replicate 256 2) (run_of (set_governors 2 0 two)))
      ≡ some s)
    × ((q : CpuFile) → s.files q ≡ (run_of (set_governors 2 0 two)).files q)
set_governors-again_example =
    set_governors-again Memory-IsLawful 2 two (run_of (set_governors 2 0 two)) (replicate 256 1)
      (replicate 256 2) two-FilledFrom refl refl two-ends
      (λ k below m. ∥∥₁_elim (subst (Mem (k, not_set)) two-log m) ⊥_prop (unreported k)) refl refl
