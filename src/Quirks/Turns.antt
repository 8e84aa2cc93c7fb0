-- ===== src/Quirks/Turns.antt =====
-- quirks.h: what one turn of the loop does to the governor of its processor.
use psplay.Base.{
  ℕ, suc, ◌≡◌, ◌≢◌, refl, sym, ap, ◌∙◌, arith, true, Bool-cases, Option-cases, inl, inr, some, List,
  [], ◌∷◌, ◌++◌, append-nil, length,
}
use psplay.Base.Int.{pos}
use psplay.Quirks.{
  CpuFile, scaling_driver, scaling_governor, FileSystem, newline, governor_target, supported_driver,
  text, file_read, file_write, setting, no_driver, unsupported, no_governor, Run, say, report_write,
  set_governor, compare_governor, check_governor, compare_driver, turn,
}
use psplay.Quirks.Text.{same, read_opened-none, read_opened_lem, strncmp_differs_lem}
use psplay.Quirks.Settled.{
  IsLawful, line_of, wants, left_alone, Turned, refused, target_bytes, driver_bytes, said,
  reported-Turned,
}

module _ {S : FileSystem} (L : IsLawful S) where
  write_others :
      (s : S.Files) (p q : CpuFile) (buf : List ℕ)
      → q ≢ p
      → S.content (file_write S s p buf).0 q ≡ S.content s q
  unfolding file_write
  write_others s p q buf ne = elim (Option-cases (S.open_write s p)) [
    | inl shut ↦ rw shut refl
    | inr (opened, e) ↦
        rw e (
          L.print_elsewhere opened p q (buf ++ newline ∷ []) ne
          ∙ L.open_elsewhere s opened p q e ne)
  ]

  write_done :
      (s : S.Files) (p : CpuFile) (buf : List ℕ) (n : ℕ)
      → (file_write S s p buf).1 ≡ pos (suc n)
      → S.content (file_write S s p buf).0 p ≡ some (buf ++ newline ∷ [])
  unfolding file_write
  write_done s p buf n = elim (Option-cases (S.open_write s p)) [
    | inl shut ↦ rw shut (λ h. cc)
    | inr (opened, e) ↦ rw e (λ h. L.printed s opened p (buf ++ newline ∷ []) n e h)
  ]

  set_governor-Turned :
      (i : ℕ) (t : List ℕ) (r : Run S)
      → text r.governor_current ≡ some t
      → length r.scaling_driver_buf ≡ 256
      → length r.governor_current ≡ 256
      → wants (S.content r.files (scaling_driver i)) (S.content r.files (scaling_governor i)) ≡ true
      → (r' : Run S) × (set_governor i r ≡ some r') × Turned i r.files r.log r'
  unfolding set_governor
  set_governor-Turned i t r e a b due =
      let w = file_write S r.files (scaling_governor i) governor_target in
      (
        report_write i w.1 (say i (setting t) (record r { files = w.0 })),
        rw e refl,
        reported-Turned i t r w.0 w.1 a b due
            (λ q ne. write_others r.files (scaling_governor i) q governor_target ne)
            (λ n h. write_done r.files (scaling_governor i) governor_target n h),
      )

  governor-Turned :
      (i : ℕ) (d g : List ℕ) (r : Run S)
      → S.content r.files (scaling_driver i) ≡ some d
      → S.content r.files (scaling_governor i) ≡ some g
      → same (line_of d) supported_driver ≡ true
      → text r.governor_current ≡ some (line_of g)
      → length r.scaling_driver_buf ≡ 256
      → length r.governor_current ≡ 256
      → (r' : Run S) × (compare_governor i r ≡ some r') × Turned i r.files r.log r'
  unfolding compare_governor
  governor-Turned i d g r ed eg ok e a b =
      let compared =
        strncmp_differs_lem 256 r.governor_current (line_of g) governor_target e target_bytes
          (omega arith) in
      elim (Bool-cases (same (line_of g) governor_target)) [
        | inl is ↦ (
          r,
          rw (compared, is) refl,
          record {
            driver_size = a;
            governor_size = b;
            others = λ q ne. refl;
            added = [];
            log_grows = sym (append-nil r.log);
            settled = left_alone (rw (ed, eg, ok, is) refl) refl;
          },
        )
        | inr other ↦
            let (r', runs, u) =
              set_governor-Turned i (line_of g) r e a b (rw (ed, eg, ok, other) refl) in
            (r', rw (compared, other) runs, u)
      ]

  check_governor-Turned :
      (i : ℕ) (d : List ℕ) (r : Run S)
      → S.content r.files (scaling_driver i) ≡ some d
      → S.content r.files (scaling_governor i) ≢ some []
      → same (line_of d) supported_driver ≡ true
      → length r.scaling_driver_buf ≡ 256
      → length r.governor_current ≡ 256
      → (r' : Run S) × (check_governor i r ≡ some r') × Turned i r.files r.log r'
  unfolding check_governor file_read
  check_governor-Turned i d r ed filled ok a b =
      elim (Option-cases (S.content r.files (scaling_governor i))) [
        | inl shut ↦ (
          say i no_governor r,
          rw (shut, read_opened-none) refl,
          said i no_governor r a b (rw (ed, shut) refl),
        )
        | inr (g, eg) ↦
            let (buf, reads, k, t) =
              read_opened_lem g r.governor_current (λ e. filled (eg ∙ ap some e)) b in
            let (r', runs, u) =
              governor-Turned i d g (record r { governor_current = buf }) ed eg ok t a k in
            (r', rw (eg, reads) runs, u)
      ]

  driver-Turned :
      (i : ℕ) (d : List ℕ) (r : Run S)
      → S.content r.files (scaling_driver i) ≡ some d
      → S.content r.files (scaling_governor i) ≢ some []
      → text r.scaling_driver_buf ≡ some (line_of d)
      → length r.scaling_driver_buf ≡ 256
      → length r.governor_current ≡ 256
      → (r' : Run S) × (compare_driver i r ≡ some r') × Turned i r.files r.log r'
  unfolding compare_driver
  driver-Turned i d r ed filled e a b =
      let compared =
        strncmp_differs_lem 256 r.scaling_driver_buf (line_of d) supported_driver e driver_bytes
          (omega arith) in
      elim (Bool-cases (same (line_of d) supported_driver)) [
        | inl is ↦
            let (r', runs, u) = check_governor-Turned i d r ed filled is a b in
            (r', rw (compared, is) runs, u)
        | inr other ↦ (
          say i (unsupported (line_of d)) r,
          rw (compared, other) (rw e refl),
          said i (unsupported (line_of d)) r a b
              (rw ed (refused d (S.content r.files (scaling_governor i)) other)),
        )
      ]

  -- A turn with buffers of 256 bytes, where neither file of the processor opens and is empty.
  pub turn-Turned :
      (i : ℕ) (r : Run S)
      → S.content r.files (scaling_driver i) ≢ some []
      → S.content r.files (scaling_governor i) ≢ some []
      → length r.scaling_driver_buf ≡ 256
      → length r.governor_current ≡ 256
      → (r' : Run S) × (turn i r ≡ some r') × Turned i r.files r.log r'
  unfolding turn file_read
  turn-Turned i r filled filled' a b = elim (Option-cases (S.content r.files (scaling_driver i))) [
    | inl shut ↦
        (say i no_driver r, rw (shut, read_opened-none) refl, said i no_driver r a b (rw shut refl))
    | inr (d, ed) ↦
        let (buf, reads, k, t) =
          read_opened_lem d r.scaling_driver_buf (λ e. filled (ed ∙ ap some e)) a in
        let (r', runs, u) =
          driver-Turned i d (record r { scaling_driver_buf = buf }) ed filled' t k b in
        (r', rw (ed, reads) runs, u)
  ]
