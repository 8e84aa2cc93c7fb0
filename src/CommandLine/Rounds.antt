-- ===== src/CommandLine/Rounds.antt =====
-- How often `main` of psplay.c sends a message.
use psplay.Base.{
  ℕ, zero, suc, ◌<◌, ◌≡◌, refl, ap, ◌∙◌, subst, arith, Option, none, some, List, [], ◌∷◌, ◌++◌,
  append_assoc, length, All,
}
use psplay.Base.Int.{pos}
use psplay.Bitstream.{Bitstream, seek}
use psplay.Bitstream.Stream.{IsValid, contents, unread}
use psplay.Bitstream.Reading.{seek_lem, unread-seek_zero}
use psplay.Sender.{Line}
use psplay.Sender.Fsk.{Drained}
use psplay.CommandLine.Message.{next_count, send_rounds}

-- `n` lines behind the ones there were, each with the symbols that the bits stand for.
abbrev pub Repeats : (List ℕ → List ℕ) → List ℕ → ℕ → List Line → List Line → Type 0
Repeats code bits n before lines =
    (added : List Line) × (lines ≡ before ++ added)
    × (length added ≡ n)
    × All (λ l. l.sent ≡ code bits) added

pub next_count-one : next_count (pos 1) ≡ none
unfolding next_count
next_count-one = refl

pub next_count-more : (n : ℕ) → next_count (pos (suc (suc n))) ≡ some (pos (suc n))
unfolding next_count
next_count-more n = ground arith

module _ (send : Bitstream → Option (ℕ × Bitstream × Line)) (code : List ℕ → List ℕ) where
  -- A transmission of a valid stream sends its unread bits and leaves it valid and as it was.
  abbrev pub Transmits : Type 0
  Transmits =
      (s : Bitstream)
      → IsValid s
      → (ret : ℕ) × (s' : Bitstream) × (l : Line) × (send s ≡ some (ret, s', l))
        × Drained s 0 ret s'
        × (l.sent ≡ code (unread s))

  round_lem :
      Transmits
      → (s : Bitstream) → IsValid s
      → (ret : ℕ) × (s' : Bitstream) × (l : Line) × (send (seek s 0).1 ≡ some (ret, s', l))
        × IsValid s'
        × (contents s' ≡ contents s)
        × (l.sent ≡ code (contents s))
  round_lem sends s v =
      let (p, at, v0, kept, split) = seek_lem s 0 v in
      let (ret, s', l, runs, d, said) = sends (seek s 0).1 v0 in
      (ret, s', l, runs, d.valid, d.contents_kept ∙ kept, said ∙ ap code (unread-seek_zero s))

  -- With a count of 1 or more, so many transmissions.
  pub send_rounds-Repeats :
      Transmits
      → (n fuel : ℕ) (s : Bitstream) (before : List Line) → IsValid s
      → n < fuel
      → (lines : List Line) × (send_rounds send fuel (pos (suc n)) s before ≡ some lines)
        × Repeats code (contents s) (suc n) before lines
  unfolding send_rounds
  send_rounds-Repeats sends n zero s before v enough = absurd (omega arith)
  send_rounds-Repeats sends zero (suc fuel) s before v enough =
      let (ret, s', l, runs, v', kept, said) = round_lem sends s v in
      (before ++ l ∷ [], rw (runs, next_count-one) refl, (l ∷ [], refl, refl, (said, tt)))
  send_rounds-Repeats sends (suc n) (suc fuel) s before v enough =
      let (ret, s', l, runs, v', kept, said) = round_lem sends s v in
      let (lines, rest, (added, e, k, all)) =
        send_rounds-Repeats sends n fuel s' (before ++ l ∷ []) v' (omega arith) in
      (
        lines,
        rw (runs, next_count-more n) rest,
        (
          l ∷ added,
          e ∙ append_assoc before (l ∷ []) added,
          ap suc k,
          (said, subst (λ b. All (λ x. x.sent ≡ code b) added) kept all),
        ),
      )
