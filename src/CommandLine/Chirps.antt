-- ===== src/CommandLine/Chirps.antt =====
-- The case MODE_CHIRP of `main` in psplay.c: chirps with steps of 20 milliseconds, as often as asked for. The
-- pause between two chirps is not shown.
use psplay.Base.{
  ℕ, suc, ◌≡◌, refl, sym, ap, ◌∙◌, Bool, Option, ◌>>=◌, none, some, List, [], ◌∷◌, ◌++◌,
  append_assoc, append-nil, length, All,
}
use psplay.Base.Int.{ℤ, pos}
use psplay.Utils.{Timespec}
use psplay.Utils.Time.{in_ns}
use psplay.SimpleToneGen.{SimpleToneGen, Reading, play_chirp}
use psplay.SimpleToneGen.Steps.{planned, durations, ReadNormally, Covers, play_chirp_lem}
use psplay.CommandLine.Message.{next_count}
use psplay.CommandLine.Rounds.{next_count-one, next_count-more}

abbrev chirp_step : Timespec
chirp_step = record { tv_sec = 0; tv_nsec = 20000000 }

-- What a chirp meets: the clock's reading at its start, and what its rounds meet.
pub record Chirp : Type 0 where
  pub now : Timespec
  pub readings : List Reading

-- `<=` and `+` on doubles, and the three numbers that the call has.
pub record ChirpRange (Freq : Type 0) : Type 0 where
  pub at_most : Freq → Freq → Bool
  pub plus : Freq → Freq → Freq
  pub freq_1000 : Freq
  pub freq_20000 : Freq
  pub freq_10 : Freq

module _ {Freq : Type 0} (f : ChirpRange Freq) where
  abbrev chirp : Chirp → SimpleToneGen Freq → Option (SimpleToneGen Freq)
  chirp c g =
      play_chirp f.at_most f.plus f.freq_1000 f.freq_20000 f.freq_10 chirp_step c.now c.readings g

  abbrev pub or_break :
      Option ℤ
      → SimpleToneGen Freq
      → (ℤ → Option (SimpleToneGen Freq))
      → Option (SimpleToneGen Freq)
  or_break none g next = some g
  or_break (some less) g next = next less

  -- The loop, with what each chirp meets; `none` where there is no more of that.
  pub chirp_rounds : ℤ → List Chirp → SimpleToneGen Freq → Option (SimpleToneGen Freq)
  chirp_rounds count [] g = none
  chirp_rounds count (c ∷ chirps) g =
      chirp c g >>= λ g'. or_break (next_count count) g' (λ less. chirp_rounds less chirps g')

  -- For each step of each chirp, what is left of it at its reading.
  abbrev pub all_planned : List Chirp → List ℕ
  all_planned [] = []
  all_planned (c ∷ chirps) = planned (in_ns c.now) 20000000 c.readings ++ all_planned chirps

  -- Normal times are read, and the readings are as many as the frequencies.
  abbrev pub Meets : Chirp → Type 0
  Meets c =
      ReadNormally c.readings
      × Covers f.at_most f.plus f.freq_20000 f.freq_10 (length c.readings) f.freq_1000

  -- With a loop count of 1 or more, the clock reading normal times, and each chirp meeting as many
  -- readings as it has frequencies, as many chirps are played; each begins its steps of 20 milliseconds
  -- at the clock's reading, and the tone of each step is played for what is left of it at its own
  -- reading.
  pub chirp_rounds_lem :
      (c : Chirp) (chirps : List Chirp) (g : SimpleToneGen Freq)
      → All Meets (c ∷ chirps)
      → (g' : SimpleToneGen Freq) × (chirp_rounds (pos (suc (length chirps))) (c ∷ chirps) g
          ≡ some g')
        × (durations g'.played ≡ durations g.played ++ all_planned (c ∷ chirps))
  unfolding chirp_rounds
  chirp_rounds_lem c [] g ((ok, covers), more) =
      let (g1, runs, (tones, said, end, asks)) =
        play_chirp_lem f.at_most f.plus f.freq_20000 f.freq_10 f.freq_1000 c.now chirp_step
          c.readings g ok covers in
      (
        g1,
        rw (runs, next_count-one) refl,
        said
            ∙ ap (λ l. durations g.played ++ l)
                (sym (append-nil (planned (in_ns c.now) 20000000 c.readings))),
      )
  chirp_rounds_lem c (d ∷ chirps) g ((ok, covers), more) =
      let (g1, runs, (tones, said, end, asks)) =
        play_chirp_lem f.at_most f.plus f.freq_20000 f.freq_10 f.freq_1000 c.now chirp_step
          c.readings g ok covers in
      let (g', rest, said') = chirp_rounds_lem d chirps g1 more in
      (
        g',
        rw (runs, next_count-more (length chirps)) rest,
        said'
            ∙ ap (λ l. l ++ all_planned (d ∷ chirps)) said
            ∙ append_assoc (durations g.played) (planned (in_ns c.now) 20000000 c.readings)
                (all_planned (d ∷ chirps)),
      )
