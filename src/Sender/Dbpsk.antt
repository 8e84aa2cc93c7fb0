-- ===== src/Sender/Dbpsk.antt =====
-- `dbpsk_send_sequence` of dbpsk.c.
use psplay.Base.{
  ◌∷◌, ◌++◌, ap₂, append_assoc, append-nil, sym, subst, ℕ, zero, suc, ◌+◌, ◌^◌, ◌<◌, ◌≡◌, refl, ap,
  ◌∙◌, arith, Bool, true, false, some, List, [], min, ◌==◌, if◌then◌else◌, add_size, inr,
}
use psplay.Base.Int.{pos}
use psplay.Bitstream
use psplay.Bitstream.{Bitstream}
use psplay.Bitstream.Stream.{IsValid}
use psplay.Bitstream.Reading.{read-Fetched}
use psplay.Utils.{Timespec}
use psplay.Ftimer
use psplay.ToneGen
use psplay.ToneGen.{ToneGen}
use psplay.ToneGen.Tuned.{IsTuned}
use psplay.ToneGen.Start.{init-IsTuned}
use psplay.ToneGen.Switch.{switch-IsTuned}
use psplay.Sender.{
  Line, zero_uint, value_of, symbol_timer_flags, stop, dbpsk_start, dbpsk_send_symbol, dbpsk_loop,
  dbpsk_send_sequence,
}
use psplay.Sender.Fsk.{left_of, Drained, stop_total, front_symbol}
use psplay.Sender.Symbols.{symbols_in, symbols_in-one, value_of-Fetched}
use psplay.Bitstream.Bits.{length-bits}
use psplay.Bitstream.Stream.{unread}
use mathlib.Core.List.{map}
use native.Mathlib.Decide.{dec_lt}

phase-IsTuned :
    (g : ToneGen) (b : Bool) → IsTuned g → IsTuned (if b then ToneGen.switch_phase g else g)
unfolding ToneGen.switch_phase
phase-IsTuned g true v = record { fits = v.fits; slots = v.slots; tone = v.tone; only = v.only }
phase-IsTuned g false v = v

-- What sending adds to the two histories: the bits, and the one tone for each.
pub record Keyed (l : Line) (added : List ℕ) (l' : Line) : Type 0 where
  pub bits_sent : l'.sent ≡ l.sent ++ added
  pub one_tone : l'.tones ≡ l.tones ++ map (λ b. pos 0) added

-- A generator that sounds its only tone.
pub record IsKeying (l : Line) : Type 0 where
  pub tuned : IsTuned l.tone_gen
  pub first : l.tone_gen.freq_idx ≡ pos 0

phase-freq_idx :
    (g : ToneGen) (b : Bool) → (if b then ToneGen.switch_phase g else g).freq_idx ≡ g.freq_idx
unfolding ToneGen.switch_phase
phase-freq_idx g true = refl
phase-freq_idx g false = refl

pub send-IsKeying : (l : Line) (symbol : ℕ) → IsKeying l → IsKeying (dbpsk_send_symbol l symbol)
unfolding dbpsk_send_symbol
send-IsKeying l symbol v = record {
  tuned = phase-IsTuned l.tone_gen (symbol == 1) v.tuned;
  first = phase-freq_idx l.tone_gen (symbol == 1) ∙ v.first;
}

pub send-Keyed :
    (l : Line) (symbol : ℕ) → IsKeying l → Keyed l (symbol ∷ []) (dbpsk_send_symbol l symbol)
unfolding dbpsk_send_symbol
send-Keyed l symbol v = record { bits_sent = refl; one_tone = ap (λ t. l.tones ++ t ∷ []) v.first }

Keyed-cons :
    (symbol : ℕ) (added : List ℕ) {l l' l'' : Line}
    → Keyed l (symbol ∷ []) l'
    → Keyed l' added l''
    → Keyed l (symbol ∷ added) l''
Keyed-cons symbol added {l} a b = record {
  bits_sent =
      b.bits_sent ∙ ap (λ t. t ++ added) a.bits_sent ∙ append_assoc l.sent (symbol ∷ []) added;
  one_tone =
      b.one_tone
      ∙ ap (λ t. t ++ map (λ b. pos 0) added) a.one_tone
      ∙ append_assoc l.tones (pos 0 ∷ []) (map (λ b. pos 0) added);
}

loop_ends :
    (fuel : ℕ) (s s' : Bitstream) (l l' : Line) (total : ℕ) (buf : List ℕ)
    → Bitstream.read s zero_uint 1 ≡ some (0, s', buf)
    → stop l ≡ some l'
    → dbpsk_loop (suc fuel) s l total ≡ some (total, s', l')
unfolding dbpsk_loop
loop_ends fuel s s' l l' total buf e stopped = rw (e, stopped) refl

loop_sends :
    (fuel : ℕ) (s s' : Bitstream) (l : Line) (total : ℕ) (buf : List ℕ)
    → Bitstream.read s zero_uint 1 ≡ some (1, s', buf)
    → dbpsk_loop (suc fuel) s l total
      ≡ dbpsk_loop fuel s' (dbpsk_send_symbol l (value_of buf)) (add_size total 1)
unfolding dbpsk_loop
loop_sends fuel s s' l total buf e = rw e refl

dbpsk_loop_lem :
    (fuel : ℕ) (s : Bitstream) (l : Line) (total : ℕ)
    → IsValid s
    → IsKeying l
    → left_of s < fuel
    → total + left_of s < 2 ^ 64
    → (ret : ℕ) × (s' : Bitstream) × (l' : Line) × (dbpsk_loop fuel s l total ≡ some (ret, s', l'))
      × Drained s total ret s'
      × Keyed l (symbols_in 1 fuel (unread s)) l'
dbpsk_loop_lem zero s l total v tuned enough small = absurd (omega arith)
dbpsk_loop_lem (suc fuel) s l total v tuned enough small =
    let (s', buf, runs, f) = read-Fetched s zero_uint 1 v (omega arith) (omega arith) in
    elim (dec_lt 0 (left_of s)) [
      | no empty ↦
          let z : min 1 (left_of s) ≡ 0 = omega arith in
          let none_left : left_of s ≡ 0 = omega arith in
          let (l', stopped, sent_kept, tones_kept) = stop_total l tuned.tuned in
          (
            total,
            s',
            l',
            loop_ends fuel s s' l l' total buf (rw z at runs) stopped,
            record {
              counted = omega arith;
              finished = omega (arith, f.advanced, f.others_kept.0, v.read_in);
              contents_kept = f.contents_kept;
              valid = f.valid;
            },
            rw none_left (record {
              bits_sent = sent_kept ∙ sym (append-nil l.sent);
              one_tone = tones_kept ∙ sym (append-nil l.tones);
            }),
          )
      | yes more ↦
          let one : min 1 (left_of s) ≡ 1 = omega arith in
          let next = dbpsk_send_symbol l (value_of buf) in
          let e : add_size total 1 ≡ total + 1 = omega arith in
          let (value, fits) = value_of-Fetched f (omega arith) (omega arith) in
          let (ret, u, l'', rest, d, keyed) =
            dbpsk_loop_lem fuel s' next (total + 1) f.valid (send-IsKeying l (value_of buf) tuned)
              (omega (arith, f.advanced, f.others_kept.0))
              (omega (arith, f.advanced, f.others_kept.0)) in
          (
            ret,
            u,
            l'',
            loop_sends fuel s s' l total buf (rw one at runs)
                ∙ ap (dbpsk_loop fuel s' next) e
                ∙ rest,
            record {
              counted = omega (arith, d.counted, f.advanced, f.others_kept.0, v.read_in);
              finished = d.finished;
              contents_kept = d.contents_kept ∙ f.contents_kept;
              valid = d.valid;
            },
            subst (λ a. Keyed l a l'')
                (ap (λ (x : ℕ). x ∷ symbols_in 1 fuel (unread s')) value
                  ∙ sym (front_symbol 1 fuel s s' buf more (omega arith) f))
                (Keyed-cons (value_of buf) (symbols_in 1 fuel (unread s'))
                  (send-Keyed l (value_of buf) tuned) keyed),
          )
    ]

pub dbpsk_start_total :
    (half_period : ℕ) (duration : Timespec)
    → (l : Line) × (dbpsk_start half_period duration ≡ some l)
      × IsKeying l
      × (l.sent ≡ [])
      × (l.tones ≡ [])
unfolding dbpsk_start
dbpsk_start_total half_period duration =
    let (g, runs, tuned, n_is, idx_is) =
      init-IsTuned (λ i. half_period) 1 Ftimer.compensate_misses (omega arith) (omega arith) in
    let (g', switched, tuned', idx) = tuned_to g tuned n_is in
    (
      record {
        tone_gen = g';
        symbol_timer = Ftimer.create symbol_timer_flags duration false;
        sent = [];
        tones = [];
      },
      rw (runs, switched) refl,
      record { tuned = tuned'; first = idx },
      refl,
      refl,
    )
  where
    tuned_to :
        (g : ToneGen)
        → IsTuned g
        → g.n_freqs ≡ 1
        → (g' : ToneGen) × (ToneGen.switch_frequency g (pos 0) ≡ some g')
          × IsTuned g'
          × (g'.freq_idx ≡ pos 0)
    tuned_to g tuned n_is =
        let (g', switched, tuned', idx, n, st, calls) =
          switch-IsTuned g (pos 0) tuned (inr (0, refl, omega arith)) in
        (g', switched, tuned', idx)

-- `dbpsk_send_sequence` ends on any valid stream, within a round for each unread bit and one more; it
-- returns the number of unread bits, has read them all, and keeps the stream's contents. The symbols
-- sent are the unread bits in order, and the one carrier is current while each of them lasts.
pub dbpsk_send_sequence-Drained :
    (half_period : ℕ) (duration : Timespec) (s : Bitstream)
    → IsValid s
    → (ret : ℕ) × (s' : Bitstream) × (l : Line) × (dbpsk_send_sequence half_period duration s
        ≡ some (ret, s', l))
      × Drained s 0 ret s'
      × (l.sent ≡ unread s)
      × (l.tones ≡ map (λ b. pos 0) (unread s))
unfolding dbpsk_send_sequence
dbpsk_send_sequence-Drained half_period duration s v =
    let (l, started, keying, sent_none, tones_none) = dbpsk_start_total half_period duration in
    let (ret, s', l', runs, d, keyed) =
      dbpsk_loop_lem (suc (left_of s)) s l 0 v keying (omega arith)
        (omega (arith, v.small, v.fits, v.counted)) in
    let all =
      symbols_in-one (suc (left_of s)) (unread s)
        (omega (arith, length-bits s.data_ s.pos_read (left_of s))) in
    (
      ret,
      s',
      l',
      rw (started, runs) refl,
      d,
      keyed.bits_sent ∙ ap₂ ◌++◌ sent_none all,
      keyed.one_tone ∙ ap₂ ◌++◌ tones_none (ap (map (λ b. pos 0)) all),
    )
