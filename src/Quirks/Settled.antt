-- ===== src/Quirks/Settled.antt =====
-- quirks.h: what is to become of a governor, and what a turn of the loop may do to it.
use mathlib.Core.List.{Mem, mem-append_right, mem-cons_self}
use psplay.Base.{
  ℕ, zero, suc, ◌≡◌, ◌≢◌, refl, arith, Bool, true, false, not, ◌&&◌, Option, none, some, List, [],
  ◌∷◌, ◌++◌, append_assoc, length, All,
}
use psplay.Base.Int.{ℤ, pos, negsuc, ltb_ℤ}
use psplay.Quirks.{
  CpuFile, scaling_driver, scaling_governor, FileSystem, newline, governor_target, supported_driver,
  first_line, Message, not_set, setting, Run, say, report_write,
}
use psplay.Quirks.Text.{upto, same}

-- What the functions of the C library promise: what has been printed into a file that was opened for
-- writing is there to read, and no other file is touched.
pub record IsLawful (S : FileSystem) : Type 0 where
  pub printed :
      (s opened : S.Files) (p : CpuFile) (bytes : List ℕ) (n : ℕ)
      → S.open_write s p ≡ some opened
      → (S.print opened p bytes).1 ≡ pos (suc n)
      → S.content (S.print opened p bytes).0 p ≡ some bytes
  pub open_elsewhere :
      (s opened : S.Files) (p q : CpuFile)
      → S.open_write s p ≡ some opened
      → q ≢ p
      → S.content opened q ≡ S.content s q
  pub print_elsewhere :
      (s : S.Files) (p q : CpuFile) (bytes : List ℕ)
      → q ≢ p
      → S.content (S.print s p bytes).0 q ≡ S.content s q

-- The first line of a file, as far as the buffers hold it.
abbrev pub line_of : List ℕ → List ℕ
line_of bytes = upto (first_line 255 bytes)

-- From what there is to read in the two files of a processor: its governor is to be set.
abbrev pub wants : Option (List ℕ) → Option (List ℕ) → Bool
wants none governor = false
wants (some d) none = false
wants (some d) (some g) =
    same (line_of d) supported_driver && not (same (line_of g) governor_target)

-- What becomes of a governor, from `g` to `g'`, where `Told` says that a failure was reported.
pub data Settled (d g g' : Option (List ℕ)) (Told : Type 0) : Type 0 where
  left_alone : wants d g ≡ false → g' ≡ g → Settled d g g' Told
  set_now : wants d g ≡ true → g' ≡ some (governor_target ++ newline ∷ []) → Settled d g g' Told
  reported : wants d g ≡ true → Told → Settled d g g' Told

pub refused :
    (d : List ℕ) (g : Option (List ℕ))
    → same (line_of d) supported_driver ≡ false
    → wants (some d) g ≡ false
refused d none other = refl
refused d (some g) other = rw other refl

pub target_bytes : All (λ c. c ≢ 0) governor_target
target_bytes = ground arith

pub driver_bytes : All (λ c. c ≢ 0) supported_driver
driver_bytes = ground arith

positive : (n : ℕ) → ltb_ℤ (pos 0) (pos (suc n)) ≡ true
positive n = ground arith

negative : (n : ℕ) → ltb_ℤ (pos 0) (negsuc n) ≡ false
negative n = ground arith

module _ {S : FileSystem} where
  -- What a turn for processor `i` makes of the files and the log that it finds.
  pub record Turned (i : ℕ) (files : S.Files) (log : List (ℕ × Message)) (r : Run S) : Type 0 where
    pub driver_size : length r.scaling_driver_buf ≡ 256
    pub governor_size : length r.governor_current ≡ 256
    pub others : (q : CpuFile) → q ≢ scaling_governor i → S.content r.files q ≡ S.content files q
    pub added : List (ℕ × Message)
    pub log_grows : r.log ≡ log ++ added
    pub settled :
        Settled
          (S.content files (scaling_driver i))
          (S.content files (scaling_governor i))
          (S.content r.files (scaling_governor i))
          (Mem (i, not_set) r.log)

  -- A turn that only tells something.
  pub said :
      (i : ℕ) (m : Message) (r : Run S)
      → length r.scaling_driver_buf ≡ 256
      → length r.governor_current ≡ 256
      → wants (S.content r.files (scaling_driver i)) (S.content r.files (scaling_governor i))
        ≡ false
      → Turned i r.files r.log (say i m r)
  said i m r a b idle = record {
    driver_size = a;
    governor_size = b;
    others = λ q ne. refl;
    added = (i, m) ∷ [];
    log_grows = refl;
    settled = left_alone idle refl;
  }

  -- The governor is to be set, and the write fails.
  failed-Turned :
      (i : ℕ) (t : List ℕ) (r : Run S) (files : S.Files)
      → length r.scaling_driver_buf ≡ 256
      → length r.governor_current ≡ 256
      → wants (S.content r.files (scaling_driver i)) (S.content r.files (scaling_governor i)) ≡ true
      → ((q : CpuFile) → q ≢ scaling_governor i → S.content files q ≡ S.content r.files q)
      → Turned i r.files r.log (say i not_set (say i (setting t) (record r { files = files })))
  failed-Turned i t r files a b due same_others = record {
    driver_size = a;
    governor_size = b;
    others = same_others;
    added = (i, setting t) ∷ (i, not_set) ∷ [];
    log_grows = append_assoc r.log ((i, setting t) ∷ []) ((i, not_set) ∷ []);
    settled = reported due (mem-append_right (r.log ++ (i, setting t) ∷ []) mem-cons_self);
  }

  -- A write that fails, or succeeds, and is reported if it fails.
  pub reported-Turned :
      (i : ℕ) (t : List ℕ) (r : Run S) (files : S.Files) (ret : ℤ)
      → length r.scaling_driver_buf ≡ 256
      → length r.governor_current ≡ 256
      → wants (S.content r.files (scaling_driver i)) (S.content r.files (scaling_governor i)) ≡ true
      → ((q : CpuFile) → q ≢ scaling_governor i → S.content files q ≡ S.content r.files q)
      → ((n : ℕ)
          → ret ≡ pos (suc n)
          → S.content files (scaling_governor i) ≡ some (governor_target ++ newline ∷ []))
      → Turned i r.files r.log (report_write i ret (say i (setting t) (record r { files = files })))
  reported-Turned i t r files (pos (suc n)) a b due same_others done = rw (positive n) (record {
    driver_size = a;
    governor_size = b;
    others = same_others;
    added = (i, setting t) ∷ [];
    log_grows = refl;
    settled = set_now due (done n refl);
  })
  reported-Turned i t r files (pos zero) a b due same_others done =
      failed-Turned i t r files a b due same_others
  reported-Turned i t r files (negsuc n) a b due same_others done =
      rw (negative n) (failed-Turned i t r files a b due same_others)
