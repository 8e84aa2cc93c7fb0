-- ===== src/X8b10b/Tests.antt =====
-- The theorems about x8b10b.c at bytes of both kinds.
use psplay.Base.{
  ℕ, ◌^◌, ◌<◌, ◌≤◌, ◌≡◌, ◌↔◌, refl, arith, Bool, true, false, ◌||◌, ◌==◌, List, [], ◌∷◌, All, ◌++◌,
}
use psplay.Base.Int.{◌+ℤ◌}
use psplay.X8b10b.{enc, select, next_rd, alternate}
use psplay.X8b10b.Code.{disparity, imbalance, enc_lem}
use psplay.X8b10b.Stream.{IsByte, words, words-injective}
use psplay.X8b10b.Comma.{silence, delimiter, commas, commas-delimiter}
use psplay.X8b10b.Runs.{wire, longest_run, longest_run-words}
use psplay.X8b10b.Control.{control_word, is_mixed_up, control_word-eq_iff}

-- D.17.7, in its alternate form from a negative disparity.
alternate_run :
    enc 0xf1 0 false (disparity true)
    ≡ record { ret = 1; p10b = 0b1000110111; rd = disparity false }
unfolding enc select next_rd alternate
alternate_run = refl

abbrev three_bytes : List ℕ
three_bytes = 0xf1 ∷ 0x00 ∷ 0xff ∷ []

three_bytes-IsByte : All IsByte three_bytes
three_bytes-IsByte = (omega arith, (omega arith, (omega arith, tt)))

enc_lem_example :
    let e = enc 0xf1 7 false (disparity true) in
    (e.ret ≡ 1)
    × (e.p10b < 2 ^ 10)
    × (e.rd ≡ disparity true +ℤ imbalance e.p10b)
    × ((m' : Bool) × (e.rd ≡ disparity m'))
enc_lem_example = enc_lem true 7 0xf1 (omega arith)

words-injective_example : three_bytes ≡ three_bytes
words-injective_example =
    words-injective true true three_bytes three_bytes three_bytes-IsByte three_bytes-IsByte refl

longest_run-words_example : longest_run (wire (words (disparity true) three_bytes)) ≤ 5
longest_run-words_example = longest_run-words true three_bytes three_bytes-IsByte

control_word-eq_iff_example :
    (control_word true 2 ≡ control_word true 5) ↔ ((2 == 5 || is_mixed_up true 2 5) ≡ true)
control_word-eq_iff_example = control_word-eq_iff true 2 5 (omega arith) (omega arith)

commas-delimiter_example :
    commas silence (delimiter ++ wire (words (disparity false) (0 ∷ 0xff ∷ []))) ≡ 1
commas-delimiter_example = commas-delimiter (0 ∷ 0xff ∷ []) (omega arith, (omega arith, tt))
