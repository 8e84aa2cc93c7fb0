-- ===== src/Quirks/Governors.antt =====
-- quirks.h: what the loop over all processors does to their governors.
use mathlib.Core.List.{Mem, mem-append_left}
use psplay.Base.{
  ℕ, zero, suc, ◌+◌, ◌≤◌, ◌<◌, ◌≡◌, ◌≢◌, refl, sym, ap, ◌∙◌, subst, arith, ◌==◌, ==_iff, Bool-cases,
  inl, inr, Option, some, List, [], ◌++◌, append_assoc, append-nil, length,
}
use psplay.Quirks.{
  CpuFile, scaling_driver, scaling_governor, FileSystem, Message, not_set, Run, set_governors,
}
use psplay.Quirks.Settled.{IsLawful, Settled, left_alone, set_now, reported, Turned}
use psplay.Quirks.Turns.{turn-Turned}

settled_after :
    (d g g1 g' : Option (List ℕ)) (T T' : Type 0)
    → g' ≡ g1
    → (T → T')
    → Settled d g g1 T
    → Settled d g g' T'
settled_after d g g1 g' T T' e f (left_alone w k) = left_alone w (e ∙ k)
settled_after d g g1 g' T T' e f (set_now w k) = set_now w (e ∙ k)
settled_after d g g1 g' T T' e f (reported w t) = reported w (f t)

pub governor-ne : (i k : ℕ) → i ≢ k → scaling_governor i ≢ scaling_governor k
governor-ne i k ne e = ne cc

pub driver-ne : (i k : ℕ) → scaling_driver i ≢ scaling_governor k
driver-ne i k e = cc

module _ (S : FileSystem) where
  -- None of the files of the processors from `i` on opens and is empty.
  abbrev pub FilledFrom : ℕ → ℕ → S.Files → Type 0
  FilledFrom i left files =
      (k : ℕ)
      → i ≤ k
      → k < i + left
      → (S.content files (scaling_driver k) ≢ some [])
        × (S.content files (scaling_governor k) ≢ some [])

module _ {S : FileSystem} where
  abbrev pub SettledAt : ℕ → S.Files → Run S → Type 0
  SettledAt k files r =
      Settled (S.content files (scaling_driver k)) (S.content files (scaling_governor k))
        (S.content r.files (scaling_governor k)) (Mem (k, not_set) r.log)

  -- What the turns for `left` processors from `i` on make of the files and the log that they find.
  pub record Governed (i left : ℕ) (files : S.Files) (log : List (ℕ × Message)) (r : Run S)
      : Type 0 where
    pub settled : (k : ℕ) → i ≤ k → k < i + left → SettledAt k files r
    pub others :
        (q : CpuFile)
        → ((k : ℕ) → i ≤ k → k < i + left → q ≢ scaling_governor k)
        → S.content r.files q ≡ S.content files q
    pub added : List (ℕ × Message)
    pub log_grows : r.log ≡ log ++ added

  first-Settled :
      (i left : ℕ) (files : S.Files) (log : List (ℕ × Message)) (r1 r' : Run S)
      → Turned i files log r1
      → Governed (i + 1) left r1.files r1.log r'
      → SettledAt i files r'
  first-Settled i left files log r1 r' u v =
      settled_after (S.content files (scaling_driver i)) (S.content files (scaling_governor i))
        (S.content r1.files (scaling_governor i)) (S.content r'.files (scaling_governor i))
        (Mem (i, not_set) r1.log) (Mem (i, not_set) r'.log)
        (v.others (scaling_governor i) (λ k from to. governor-ne i k (ground arith)))
        (λ m. subst (Mem (i, not_set)) (sym v.log_grows) (mem-append_left v.added m)) u.settled

  later-Settled :
      (i k : ℕ) (files : S.Files) (log : List (ℕ × Message)) (r1 r' : Run S)
      → Turned i files log r1
      → k ≢ i
      → SettledAt k r1.files r'
      → SettledAt k files r'
  later-Settled i k files log r1 r' u ne settled =
      subst
        (λ d.
          Settled d (S.content files (scaling_governor k)) (S.content r'.files (scaling_governor k))
            (Mem (k, not_set) r'.log))
        (u.others (scaling_driver k) (driver-ne k i))
        (subst
          (λ g.
            Settled (S.content r1.files (scaling_driver k)) g
              (S.content r'.files (scaling_governor k)) (Mem (k, not_set) r'.log))
          (u.others (scaling_governor k) (governor-ne k i ne)) settled)

  both-Governed :
      (i left : ℕ) (files : S.Files) (log : List (ℕ × Message)) (r1 r' : Run S)
      → Turned i files log r1
      → Governed (i + 1) left r1.files r1.log r'
      → Governed i (suc left) files log r'
  both-Governed i left files log r1 r' u v = record {
    settled = λ k from to. elim (Bool-cases (k == i)) [
      | inl is ↦
          subst (λ j. SettledAt j files r') (sym ((==_iff k i).0 is))
            (first-Settled i left files log r1 r' u v)
      | inr later ↦
          later-Settled i k files log r1 r' u (ground arith)
            (v.settled k (ground arith) (omega arith))
    ];
    others = λ q outside.
        v.others q (λ k from to. outside k (omega arith) (omega arith))
        ∙ u.others q (outside i (omega arith) (omega arith));
    added = u.added ++ v.added;
    log_grows = v.log_grows ∙ ap (λ l. l ++ v.added) u.log_grows ∙ append_assoc log u.added v.added;
  }

  filled_after :
      (i left : ℕ) (files : S.Files) (log : List (ℕ × Message)) (r1 : Run S)
      → Turned i files log r1
      → FilledFrom S i (suc left) files
      → FilledFrom S (i + 1) left r1.files
  filled_after i left files log r1 u filled k from to =
      let (d, g) = filled k (omega arith) (omega arith) in
      (
        λ e. d (sym (u.others (scaling_driver k) (driver-ne k i)) ∙ e),
        λ e. g (sym (u.others (scaling_governor k) (governor-ne k i (ground arith))) ∙ e),
      )

  -- With the files as the C library has them, buffers of 256 bytes, and no file of a processor that
  -- opens and is empty, the loop ends; of every processor the governor is set if its driver is
  -- the supported one and its governor can be read and is another one, unless the failure is
  -- reported, and left as it was if not; no other file changes.
  pub set_governors-Governed :
      IsLawful S
      → (left i : ℕ) (r : Run S) → FilledFrom S i left r.files
      → length r.scaling_driver_buf ≡ 256
      → length r.governor_current ≡ 256
      → (r' : Run S) × (set_governors left i r ≡ some r') × Governed i left r.files r.log r'
  unfolding set_governors
  set_governors-Governed L zero i r filled a b = (
    r,
    refl,
    record {
      settled = λ k from to. absurd (omega arith);
      others = λ q outside. refl;
      added = [];
      log_grows = sym (append-nil r.log);
    },
  )
  set_governors-Governed L (suc left) i r filled a b =
      let (d, g) = filled i (omega arith) (omega arith) in
      let (r1, runs, u) = turn-Turned L i r d g a b in
      let (r', rest, v) =
        set_governors-Governed L left (i + 1) r1 (filled_after i left r.files r.log r1 u filled)
          u.driver_size u.governor_size in
      (r', rw runs rest, both-Governed i left r.files r.log r1 r' u v)
