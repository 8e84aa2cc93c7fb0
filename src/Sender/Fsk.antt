-- ===== src/Sender/Fsk.antt =====
-- `fsk_send_sequence` of fsk.c.
use psplay.Base.Int.{pos, negsuc}
use psplay.Bitstream.Bits.{bits, length-bits}
use psplay.Bitstream.Stream.{unread}
use psplay.Bitstream.Reading.{Fetched}
use psplay.Bitstream.Value.{number}
use psplay.Sender.Symbols.{
  symbols_in, symbols, symbols_in-append, symbols_in-enough, value_of-Fetched,
}
use psplay.ToneGen.Switch.{switch-IsTuned}
use mathlib.Core.List.{map}
use psplay.Base.{
  ap₂, length, append_assoc, append-nil, sym, subst, ◌⊎◌, inl, inr, ltb, if◌then◌else◌, ℕ, zero,
  suc, ◌+◌, ◌-◌, ◌^◌, ◌<◌, ◌≤◌, ◌≡◌, refl, ap, ◌∙◌, arith, false, none, some, List, [], ◌∷◌, ◌++◌,
  min, ◌==◌, add_size, ◌<<<◌,
}
use psplay.Bitstream
use psplay.Bitstream.{Bitstream}
use psplay.Bitstream.Stream.{IsValid, contents}
use psplay.Bitstream.Reading.{read-Fetched}
use psplay.Utils.{Timespec}
use psplay.Ftimer
use psplay.ToneGen.{max_tones}
use psplay.ToneGen.Tuned.{IsTuned}
use psplay.ToneGen.Start.{init-IsTuned, init_overflow}
use psplay.ToneGen.Stop.{destroy_lem}
use psplay.Sender.{
  Line, zero_uint, value_of, to_int, symbol_timer_flags, fsk_start, fsk_send_symbol, stop, fsk_loop,
  fsk_send_sequence,
}
use native.Mathlib.Nat.{pow-le-pow_right}
use native.Mathlib.Decide.{dec_lt}

-- The number of bits that are still to be read.
abbrev pub left_of : Bitstream → ℕ
left_of s = s.len - s.pos_read

-- What a loop over a stream ends with: a valid stream, every bit read, counted, and still there.
pub record Drained (s : Bitstream) (total : ℕ) (ret : ℕ) (s' : Bitstream) : Type 0 where
  pub counted : ret ≡ total + left_of s
  pub finished : s'.pos_read ≡ s'.len
  pub contents_kept : contents s' ≡ contents s
  pub valid : IsValid s'

-- A generator that sounds `n` tones.
pub record Sounds (n : ℕ) (l : Line) : Type 0 where
  pub tuned : IsTuned l.tone_gen
  pub count : l.tone_gen.n_freqs ≡ n

-- What sending adds to the two histories: the symbols, each with its tone.
pub record Said (l : Line) (added : List ℕ) (l' : Line) : Type 0 where
  pub symbols_sent : l'.sent ≡ l.sent ++ added
  pub tones_played : l'.tones ≡ l.tones ++ map pos added

pub Said-nil : (l : Line) → Said l [] l
Said-nil l = record {
  symbols_sent = sym (append-nil l.sent);
  tones_played = sym (append-nil l.tones);
}

Said-cons :
    (symbol : ℕ) (added : List ℕ) {l l' l'' : Line}
    → Said l (symbol ∷ []) l'
    → Said l' added l''
    → Said l (symbol ∷ added) l''
Said-cons symbol added {l} a b = record {
  symbols_sent =
      b.symbols_sent
      ∙ ap (λ t. t ++ added) a.symbols_sent
      ∙ append_assoc l.sent (symbol ∷ []) added;
  tones_played =
      b.tones_played
      ∙ ap (λ t. t ++ map pos added) a.tones_played
      ∙ append_assoc l.tones (pos symbol ∷ []) (map pos added);
}

-- A symbol below the number of tones sounds its tone.
pub send_symbol-Said :
    (n symbol : ℕ) (l : Line)
    → Sounds n l
    → symbol < n
    → symbol < 2 ^ 31
    → (l' : Line) × (fsk_send_symbol l symbol ≡ some l') × Sounds n l' × Said l (symbol ∷ []) l'
unfolding fsk_send_symbol to_int
send_symbol-Said n symbol l v below small =
    let (g, runs, tuned, idx, count, status, calls) =
      switch-IsTuned l.tone_gen (pos symbol) v.tuned (inr (symbol, refl, omega (arith, v.count))) in
    let e : (if ltb symbol (2 ^ 31) then pos symbol else negsuc (2 ^ 32 - symbol - 1))
        ≡ pos symbol =
      ground arith in
    (
      record {
        tone_gen = g;
        symbol_timer = Ftimer.wait l.symbol_timer;
        sent = l.sent ++ symbol ∷ [];
        tones = l.tones ++ g.freq_idx ∷ [];
      },
      rw (e, runs) refl,
      record { tuned = tuned; count = count ∙ v.count },
      record { symbols_sent = refl; tones_played = ap (λ t. l.tones ++ t ∷ []) idx },
    )

module _ (m_exp : ℕ) where
  loop_ends :
      (fuel : ℕ) (s s' : Bitstream) (l : Line) (total : ℕ) (buf : List ℕ)
      → Bitstream.read s zero_uint m_exp ≡ some (0, s', buf)
      → fsk_loop (suc fuel) m_exp s l total ≡ some (total, s', l)
  unfolding fsk_loop
  loop_ends fuel s s' l total buf e = rw e refl

  loop_sends :
      (fuel : ℕ) (s s' : Bitstream) (l l' : Line) (total n : ℕ) (buf : List ℕ)
      → Bitstream.read s zero_uint m_exp ≡ some (n, s', buf)
      → 0 < n
      → fsk_send_symbol l (value_of buf) ≡ some l'
      → fsk_loop (suc fuel) m_exp s l total ≡ fsk_loop fuel m_exp s' l' (add_size total n)
  unfolding fsk_loop
  loop_sends fuel s s' l l' total n buf e more sent =
      let more' : (n == 0) ≡ false = ground arith in rw (e, sent, more') refl

  -- The symbol that a round takes off the front.
  pub front_symbol :
      (fuel : ℕ) (s s' : Bitstream) (buf : List ℕ)
      → 0 < left_of s
      → 1 ≤ m_exp
      → Fetched s (min m_exp (left_of s)) zero_uint s' buf
      → symbols_in m_exp (suc fuel) (unread s)
        ≡ number (bits buf 0 (min m_exp (left_of s))) ∷ symbols_in m_exp fuel (unread s')
  front_symbol fuel s s' buf more low f =
      ap (symbols_in m_exp (suc fuel)) f.delivered
      ∙ symbols_in-append m_exp fuel (bits buf 0 (min m_exp (left_of s))) (unread s')
          (omega (arith, length-bits buf 0 (min m_exp (left_of s))))
          (whole_or_last (dec_lt (left_of s) m_exp))
    where
      whole_or_last :
          Dec (left_of s < m_exp)
          → (length (bits buf 0 (min m_exp (left_of s))) ≡ m_exp)
            ⊎ ((length (bits buf 0 (min m_exp (left_of s))) ≤ m_exp) × (unread s' ≡ []))
      whole_or_last (yes short) =
          let z : s'.len - s'.pos_read ≡ 0 = omega (arith, f.advanced, f.others_kept.0) in
          inr (omega (arith, length-bits buf 0 (min m_exp (left_of s))), rw z refl)
      whole_or_last (no enough) = inl (omega (arith, length-bits buf 0 (min m_exp (left_of s))))

  fsk_loop_lem :
      (fuel : ℕ) (s : Bitstream) (l : Line) (total : ℕ)
      → IsValid s
      → 1 ≤ m_exp
      → m_exp ≤ 30
      → Sounds (2 ^ m_exp) l
      → left_of s < fuel
      → total + left_of s < 2 ^ 64
      → (ret : ℕ) × (s' : Bitstream) × (l' : Line) × (fsk_loop fuel m_exp s l total
          ≡ some (ret, s', l'))
        × Drained s total ret s'
        × Sounds (2 ^ m_exp) l'
        × Said l (symbols_in m_exp fuel (unread s)) l'
  fsk_loop_lem zero s l total v low high sounds enough small = absurd (omega arith)
  fsk_loop_lem (suc fuel) s l total v low high sounds enough small =
      let (s', buf, runs, f) = read-Fetched s zero_uint m_exp v (omega arith) (omega arith) in
      elim (dec_lt 0 (left_of s)) [
        | no empty ↦
            let z : min m_exp (left_of s) ≡ 0 = omega arith in
            let none_left : left_of s ≡ 0 = omega arith in
            (
              total,
              s',
              l,
              loop_ends fuel s s' l total buf (rw z at runs),
              record {
                counted = omega arith;
                finished = omega (arith, f.advanced, f.others_kept.0, v.read_in);
                contents_kept = f.contents_kept;
                valid = f.valid;
              },
              sounds,
              rw none_left (Said-nil l),
            )
        | yes more ↦
            let n = min m_exp (left_of s) in
            let (value, fits) = value_of-Fetched f (omega arith) (omega arith) in
            let below : value_of buf < 2 ^ m_exp =
              omega
                (arith, fits, pow-le-pow_right {n = 2} (omega arith) (min_le m_exp (left_of s))) in
            let top = pow-le-pow_right {n = 2} (omega arith) high in
            let (l', sent, sounds', said) =
              send_symbol-Said (2 ^ m_exp) (value_of buf) l sounds below (omega (arith, top)) in
            let e : add_size total n ≡ total + n = omega arith in
            let (ret, u, l'', rest, d, t, said') =
              fsk_loop_lem fuel s' l' (total + n) f.valid low high sounds'
                (omega (arith, f.advanced, f.others_kept.0))
                (omega (arith, f.advanced, f.others_kept.0)) in
            (
              ret,
              u,
              l'',
              loop_sends fuel s s' l l' total n buf runs (omega arith) sent
                  ∙ ap (fsk_loop fuel m_exp s' l') e
                  ∙ rest,
              record {
                counted = omega (arith, d.counted, f.advanced, f.others_kept.0, v.read_in);
                finished = d.finished;
                contents_kept = d.contents_kept ∙ f.contents_kept;
                valid = d.valid;
              },
              t,
              subst (λ a. Said l a l'')
                  (ap (λ (x : ℕ). x ∷ symbols_in m_exp fuel (unread s')) value
                    ∙ sym (front_symbol fuel s s' buf more low f))
                  (Said-cons (value_of buf) (symbols_in m_exp fuel (unread s')) said said'),
            )
      ]
    where
      min_le : (a b : ℕ) → min a b ≤ a
      min_le a b = omega arith

pub stop_total :
    (l : Line)
    → IsTuned l.tone_gen
    → (l' : Line) × (stop l ≡ some l') × (l'.sent ≡ l.sent) × (l'.tones ≡ l.tones)
unfolding stop
stop_total l tuned =
    let (g, runs, gone) = destroy_lem l.tone_gen tuned in
    (record l { symbol_timer = Ftimer.exit l.symbol_timer; tone_gen = g }, rw runs refl, refl, refl)

pub fsk_start_total :
    (half_period : ℕ → ℕ) (m_exp : ℕ) (duration : Timespec)
    → 1 <<< m_exp ≤ max_tones
    → (l : Line) × (fsk_start half_period m_exp duration ≡ some l)
      × Sounds (2 ^ m_exp) l
      × (l.sent ≡ [])
      × (l.tones ≡ [])
unfolding fsk_start
fsk_start_total half_period m_exp duration fits =
    let (g, runs, tuned, n_is, idx_is) =
      init-IsTuned half_period (1 <<< m_exp) 0 (omega arith) fits in
    (
      record {
        tone_gen = g;
        symbol_timer = Ftimer.create symbol_timer_flags duration false;
        sent = [];
        tones = [];
      },
      rw runs refl,
      record { tuned = tuned; count = omega (arith, n_is) },
      refl,
      refl,
    )

-- With 1 to 6 bits a symbol, `fsk_send_sequence` ends on any valid stream, within a round for each
-- unread bit and one more; it returns the number of unread bits, has read them all, and keeps the
-- stream's contents. The symbols sent are the unread bits in groups, the lowest bit first, and while
-- the symbol timer runs for a symbol, the current tone is that symbol's.
pub fsk_send_sequence-Drained :
    (half_period : ℕ → ℕ) (m_exp : ℕ) (duration : Timespec) (s : Bitstream)
    → IsValid s
    → 1 ≤ m_exp
    → m_exp ≤ 6
    → (ret : ℕ) × (s' : Bitstream) × (l : Line) × (fsk_send_sequence half_period m_exp duration s
        ≡ some (ret, s', l))
      × Drained s 0 ret s'
      × (l.sent ≡ symbols m_exp (unread s))
      × (l.tones ≡ map pos (symbols m_exp (unread s)))
unfolding fsk_send_sequence
fsk_send_sequence-Drained half_period m_exp duration s v low high =
    let (l, started, sounds, sent_none, tones_none) =
      fsk_start_total half_period m_exp duration
        (omega (arith, pow-le-pow_right {n = 2} (omega arith) high)) in
    let (ret, s', l', runs, d, t, said) =
      fsk_loop_lem m_exp (suc (left_of s)) s l 0 v low (omega arith) sounds (omega arith)
        (omega (arith, v.small, v.fits, v.counted)) in
    let (l'', stopped, sent_kept, tones_kept) = stop_total l' t.tuned in
    let all =
      symbols_in-enough m_exp (suc (left_of s)) (unread s) low
        (omega (arith, length-bits s.data_ s.pos_read (left_of s))) in
    (
      ret,
      s',
      l'',
      rw (started, runs, stopped) refl,
      d,
      sent_kept ∙ said.symbols_sent ∙ ap₂ ◌++◌ sent_none all,
      tones_kept ∙ said.tones_played ∙ ap₂ ◌++◌ tones_none (ap (map pos) all),
    )

-- With 7 or more bits a symbol, `fsk_start` writes behind the tone generator's array of timers.
pub fsk_start_overflow :
    (half_period : ℕ → ℕ) (m_exp : ℕ) (duration : Timespec)
    → 7 ≤ m_exp
    → fsk_start half_period m_exp duration ≡ none
unfolding fsk_start
fsk_start_overflow half_period m_exp duration many =
    rw
      (init_overflow half_period (1 <<< m_exp) 0
        (omega (arith, pow-le-pow_right {n = 2} (omega arith) many)))
      refl
