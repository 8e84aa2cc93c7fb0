-- ===== src/Quirks/Again.antt =====
-- quirks.h: a second run finds the governors set.
use mathlib.Core.List.{Mem}
use psplay.Base.{
  ℕ, ◌<◌, ◌≡◌, ◌≢◌, refl, sym, ap, ◌∙◌, subst, arith, ltb, Bool-cases, inl, inr, Bool, true, false,
  ◌&&◌, Option, none, some, List, [], ◌∷◌, ◌++◌, length,
}
use psplay.Quirks.{
  CpuFile, scaling_driver, scaling_governor, FileSystem, newline, governor_target, supported_driver,
  Message, not_set, first_line, Run, set_governors,
}
use psplay.Quirks.Text.{same}
use psplay.Quirks.Settled.{IsLawful, wants, Settled, left_alone, set_now, reported, line_of}
use psplay.Quirks.Governors.{FilledFrom, Governed, set_governors-Governed, driver-ne, governor-ne}

abbrev target_line : List ℕ
target_line = governor_target ++ newline ∷ []

and_false : (b : Bool) → (b && false) ≡ false
and_false true = refl
and_false false = refl

set_is_enough : (d : Option (List ℕ)) → wants d (some target_line) ≡ false
unfolding first_line
set_is_enough none = refl
set_is_enough (some d) = and_false (same (line_of d) supported_driver)

target-ne : some target_line ≢ some []
target-ne h = cc

-- What a first run has settled without a report is not to be set any more, and can be read again.
idle_after :
    (d g g' : Option (List ℕ)) (T : Type 0)
    → ¬ T
    → g ≢ some []
    → Settled d g g' T
    → (wants d g' ≡ false) × (g' ≢ some [])
idle_after d g g' T quiet filled (left_alone w e) = (ap (wants d) e ∙ w, λ h. filled (sym e ∙ h))
idle_after d g g' T quiet filled (set_now w e) =
    (ap (wants d) e ∙ set_is_enough d, λ h. target-ne (sym e ∙ h))
idle_after d g g' T quiet filled (reported w t) = absurd (quiet t)

-- What is not to be set stays.
idle_stays : (d g g' : Option (List ℕ)) (T : Type 0) → wants d g ≡ false → Settled d g g' T → g' ≡ g
idle_stays d g g' T idle (left_alone w e) = e
idle_stays d g g' T idle (set_now w e) = cc
idle_stays d g g' T idle (reported w t) = cc

module _ {S : FileSystem} where
  -- The variables at the start of a run, over the files that an earlier one has left.
  abbrev pub begin_again : List ℕ → List ℕ → Run S → Run S
  begin_again driver governor r = record {
    files = r.files;
    scaling_driver_buf = driver;
    governor_current = governor;
    log = [];
  }

  idle-stays :
      (n : ℕ) (files : S.Files) (s : Run S)
      → ((k : ℕ)
          → k < n
          → wants (S.content files (scaling_driver k)) (S.content files (scaling_governor k))
            ≡ false)
      → Governed 0 n files [] s
      → (q : CpuFile) → S.content s.files q ≡ S.content files q
  idle-stays n files s idle v (scaling_driver k) =
      v.others (scaling_driver k) (λ j from to. driver-ne k j)
  idle-stays n files s idle v (scaling_governor k) = elim (Bool-cases (ltb k n)) [
    | inl inside ↦
        idle_stays (S.content files (scaling_driver k)) (S.content files (scaling_governor k))
          (S.content s.files (scaling_governor k)) (Mem (k, not_set) s.log) (idle k (ground arith))
          (v.settled k (omega arith) (ground arith))
    | inr outside ↦ v.others (scaling_governor k) (λ j from to. governor-ne k j (ground arith))
  ]

  idle_at :
      (n k : ℕ) (files : S.Files) (log : List (ℕ × Message)) (r : Run S)
      → FilledFrom S 0 n files
      → Governed 0 n files log r
      → ¬ Mem (k, not_set) r.log
      → k < n
      → (wants (S.content r.files (scaling_driver k)) (S.content r.files (scaling_governor k))
          ≡ false)
        × (S.content r.files (scaling_driver k) ≢ some [])
        × (S.content r.files (scaling_governor k) ≢ some [])
  idle_at n k files log r filled v quiet below =
      let (d, g) = filled k (omega arith) (omega arith) in
      let same_driver = v.others (scaling_driver k) (λ j from to. driver-ne k j) in
      let (idle, g') =
        idle_after (S.content files (scaling_driver k)) (S.content files (scaling_governor k))
          (S.content r.files (scaling_governor k)) (Mem (k, not_set) r.log) quiet g
          (v.settled k (omega arith) (omega arith)) in
      (
        ap (λ o. wants o (S.content r.files (scaling_governor k))) same_driver ∙ idle,
        λ e. d (sym same_driver ∙ e),
        g',
      )

  -- With the files as the C library has them, buffers of 256 bytes, and no file of a processor that
  -- opens and is empty: after a run that has reported no failure, a second one changes no file.
  pub set_governors-again :
      IsLawful S
      → (n : ℕ) (r r' : Run S) (driver governor : List ℕ) → FilledFrom S 0 n r.files
      → length r.scaling_driver_buf ≡ 256
      → length r.governor_current ≡ 256
      → set_governors n 0 r ≡ some r'
      → ((k : ℕ) → k < n → ¬ Mem (k, not_set) r'.log)
      → length driver ≡ 256
      → length governor ≡ 256
      → (s : Run S) × (set_governors n 0 (begin_again driver governor r') ≡ some s)
        × ((q : CpuFile) → S.content s.files q ≡ S.content r'.files q)
  set_governors-again L n r r' driver governor filled a b runs quiet a' b' =
      let (r0, runs0, v0) = set_governors-Governed L n 0 r filled a b in
      let same_run : r0 ≡ r' = cc in
      let v = subst (λ x. Governed 0 n r.files r.log x) same_run v0 in
      let idle =
        λ (k : ℕ) (below : k < n). idle_at n k r.files r.log r' filled v (quiet k below) below in
      let (s, again, w) =
        set_governors-Governed L n 0 (begin_again driver governor r')
          (λ k from to. ((idle k (omega arith)).1, (idle k (omega arith)).2)) a' b' in
      (s, again, idle-stays n r'.files s (λ k below. (idle k below).0) w)
