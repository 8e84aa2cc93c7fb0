-- ===== src/CommandLine/Padded.antt =====
-- A buffer of psplay.c with samples of an audio file at its front.
use psplay.Base.{
  ℕ, ◌<◌, ◌≤◌, ◌≡◌, sym, ap, ◌∙◌, arith, leb, Bool-cases, inl, inr, List, [], ◌++◌, append_assoc,
  append-nil, length, take, drop, take-append-drop,
}
use psplay.Base.Cut.{length-drop, length-take, take-all, drop-all}

module _ {A : Type 0} where
  -- What stands in a block behind the next samples `s` of a file.
  abbrev pub behind : ℕ → List A → List A → List A
  behind size s block = drop (length (take size s)) block

  -- Behind the samples of a block that takes the last of a file, with none to come, or none, with the rest of
  -- the file to come: what is handed over are the file's samples with less than a block behind them.
  pub padded_lem :
      (size : ℕ) (s block padding : List A)
      → 0 < length s
      → length block ≡ size
      → take (length (take size s)) block ≡ take size s
      → length padding < size
      → (drop size s ≡ [] → padding ≡ [])
      → (padding' : List A) × (length padding' < size)
        × (block ++ (drop size s ++ padding) ≡ s ++ padding')
  padded_lem size s block padding some_left full front short none_behind =
      elim (Bool-cases (leb (length s) size)) [
        | inl last ↦
            let fits : length s ≤ size = ground arith in
            let over = drop-all size s fits in
            let all = take-all size s fits in
            let split = sym (take-append-drop (length (take size s)) block) in
            (
              behind size s block,
              omega (arith, length-drop (length (take size s)) block, ap length all),
              ap (λ l. block ++ l) (ap (λ l. l ++ padding) over ∙ none_behind over)
                  ∙ append-nil block
                  ∙ split
                  ∙ ap (λ l. l ++ behind size s block) (front ∙ all),
            )
        | inr on ↦
            let long : size < length s = ground arith in
            let got = length-take size s (omega arith) in
            let whole : block ≡ take size s =
              sym (take-all (length (take size s)) block (omega (arith, got))) ∙ front in
            (
              padding,
              short,
              ap (λ l. l ++ (drop size s ++ padding)) whole
                  ∙ sym (append_assoc (take size s) (drop size s) padding)
                  ∙ ap (λ l. l ++ padding) (take-append-drop size s),
            )
      ]
