-- ===== src/Ftimer/Catching.antt =====
-- Outside Linux the worker of a timer (ftimer.c) makes up for every tick it misses, whatever its flags.
use mathlib.Core.List.{map}
use psplay.Base.{
  ℕ, zero, suc, ◌+◌, ◌*◌, ◌^◌, ◌<◌, ◌≡◌, refl, sym, ap, ap₂, ◌∙◌, arith, max, Bool, true, false,
  none, some, List, [], ◌∷◌, ◌++◌, append_assoc, append-nil, length, All,
}
use psplay.Base.Int.{pos, ltb_ℤ}
use psplay.Utils.{Timespec, timespec_diff, timespec_step, timespec_cmp}
use psplay.Utils.Time.{in_ns, IsNormal, timespec_diff_lem, timespec_step_lem, timespec_cmp_lem}
use psplay.Ftimer.{tick}
use psplay.Ftimer.Threads.{compensates}
use psplay.Ftimer.Portable.{Callback, Portable, catch_up, or_catch_up, called_back, pass, passes}

-- When the callbacks of passes with these readings are due, in nanoseconds: so many intervals after the
-- start, or at once where the clock is behind that already.
abbrev pub due : ℕ → ℕ → List Timespec → List ℕ
due at d [] = []
due at d (now ∷ readings) = max (in_ns now) (at + d) ∷ due (at + d) d readings

-- When callbacks were made.
abbrev pub made_at : List Callback → List ℕ
made_at calls = map (λ c. in_ns c.now + in_ns c.slept) calls

made_at-append : (xs ys : List Callback) → made_at (xs ++ ys) ≡ made_at xs ++ made_at ys
made_at-append [] ys = refl
made_at-append (c ∷ xs) ys = ap (λ l. (in_ns c.now + in_ns c.slept) ∷ l) (made_at-append xs ys)

-- These, if there is a callback.
abbrev pub if_called : Bool → List ℕ → List ℕ
if_called true times = times
if_called false times = []

made_at-called_back :
    (b : Bool) (c : Callback) (calls : List Callback) (at : ℕ)
    → in_ns c.now + in_ns c.slept ≡ at
    → made_at (called_back b c calls) ≡ made_at calls ++ if_called b (at ∷ [])
made_at-called_back true c calls at e =
    made_at-append calls (c ∷ []) ∙ ap (λ (t : ℕ). made_at calls ++ t ∷ []) e
made_at-called_back false c calls at e = sym (append-nil (made_at calls))

if_called-append :
    (b : Bool) (xs ys zs : List ℕ)
    → (xs ++ if_called b ys) ++ if_called b zs ≡ xs ++ if_called b (ys ++ zs)
if_called-append true xs ys zs = append_assoc xs ys zs
if_called-append false xs ys zs = append-nil (xs ++ [])

abbrev zero_time : Timespec
zero_time = record { tv_sec = 0; tv_nsec = 0 }

after_zero :
    (now : Timespec)
    → IsNormal now
    → 0 < in_ns now
    → ltb_ℤ (pos 0) (timespec_cmp now zero_time) ≡ true
after_zero now ok h = rw (timespec_cmp_lem now zero_time ok (omega arith)) (ground arith)

catch_up_lem :
    (fuel : ℕ) (interval now last diff : Timespec)
    → IsNormal now
    → 0 < in_ns now
    → catch_up (suc fuel) interval now (last, diff) ≡ some (last, diff)
unfolding catch_up
catch_up_lem fuel interval now last diff ok h = rw (after_zero now ok h) refl

or_catch_up_lem :
    (b : Bool) (fuel : ℕ) (interval now last diff : Timespec)
    → IsNormal now
    → 0 < in_ns now
    → or_catch_up b (suc fuel) interval now (last, diff) ≡ some (last, diff)
or_catch_up_lem true fuel interval now last diff ok h = refl
or_catch_up_lem false fuel interval now last diff ok h =
    catch_up_lem fuel interval now last diff ok h

at_zero : ltb_ℤ (pos 0) (timespec_cmp zero_time zero_time) ≡ false
at_zero = rw (timespec_cmp_lem zero_time zero_time (omega arith) (omega arith)) (ground arith)

catch_up-endless :
    (fuel : ℕ) (interval last diff : Timespec)
    → catch_up fuel interval zero_time (last, diff) ≡ none
unfolding catch_up
catch_up-endless zero interval last diff = refl
catch_up-endless (suc fuel) interval last diff =
    let next = timespec_step last interval in
    rw (at_zero, catch_up-endless fuel interval next (timespec_diff zero_time next)) refl

-- Outside Linux, without FTIMER_COMPENSATE_MISSES, no fuel is enough for a pass at which the clock
-- reads zero.
pub pass-endless :
    (fuel : ℕ) (p : Portable) → compensates p.timer ≡ false → pass fuel zero_time p ≡ none
unfolding pass
pass-endless fuel p off = rw off (
    rw
      (catch_up-endless fuel p.timer.interval (timespec_step p.last_tick p.timer.interval)
        (timespec_diff zero_time (timespec_step p.last_tick p.timer.interval)))
      refl)

-- The one after the pass at which the clock reads `now`.
abbrev passed : Timespec → Portable → Portable
passed now p =
    let last = timespec_step p.last_tick p.timer.interval in
    record p {
      timer = tick p.timer;
      last_tick = last;
      calls = called_back p.timer.cb (record { now = now; slept = timespec_diff now last }) p.calls;
    }

pass_lem :
    (fuel : ℕ) (now : Timespec) (p : Portable)
    → IsNormal now
    → 0 < in_ns now
    → (pass (suc fuel) now p ≡ some (passed now p))
      × (made_at (passed now p).calls
          ≡ made_at p.calls
            ++ if_called p.timer.cb
                (max (in_ns now) (in_ns p.last_tick + in_ns p.timer.interval) ∷ []))
      × (in_ns (passed now p).last_tick ≡ in_ns p.last_tick + in_ns p.timer.interval)
unfolding pass
pass_lem fuel now p ok h =
    let last = timespec_step p.last_tick p.timer.interval in
    let (normal, sum) = timespec_step_lem p.last_tick p.timer.interval in
    let (normal', left) = timespec_diff_lem now last ok normal in
    let at : in_ns now + in_ns (timespec_diff now last)
        ≡ max (in_ns now) (in_ns p.last_tick + in_ns p.timer.interval) =
      omega (arith, left, sum) in
    (
      rw
          (or_catch_up_lem (compensates p.timer) fuel p.timer.interval now last
            (timespec_diff now last) ok h)
          refl,
      made_at-called_back p.timer.cb (record { now = now; slept = timespec_diff now last }) p.calls
          (max (in_ns now) (in_ns p.last_tick + in_ns p.timer.interval)) at,
      sum,
    )

-- Outside Linux, whatever the flags and the readings of the clock, if they are normal times behind zero
-- and the ticks that are outstanding stay below 2 ^ 31: every pass calls back, if there is a callback,
-- so many intervals after the start or, where the clock is behind that already, at once; with none
-- nothing is called; `last_tick` moves by an interval a pass, so that no missed tick is left out; and
-- as many ticks more are outstanding. One round is enough for the inner loop.
pub passes_lem :
    (readings : List Timespec) (fuel : ℕ) (p : Portable)
    → All (λ now. IsNormal now × (0 < in_ns now)) readings
    → p.timer.outstanding_ticks + length readings < 2 ^ 31
    → (p' : Portable) × (passes (suc fuel) readings p ≡ some p')
      × (made_at p'.calls
          ≡ made_at p.calls
            ++ if_called p.timer.cb (due (in_ns p.last_tick) (in_ns p.timer.interval) readings))
      × (in_ns p'.last_tick ≡ in_ns p.last_tick + length readings * in_ns p.timer.interval)
      × (p'.timer.outstanding_ticks ≡ p.timer.outstanding_ticks + length readings)
unfolding passes tick
passes_lem [] fuel p ok room = (p, refl, none_made p.timer.cb, omega arith, omega arith)
  where
    none_made : (b : Bool) → made_at p.calls ≡ made_at p.calls ++ if_called b []
    none_made true = sym (append-nil (made_at p.calls))
    none_made false = sym (append-nil (made_at p.calls))
passes_lem (now ∷ readings) fuel p ((ok, h), more) room =
    let d = in_ns p.timer.interval in
    let at = in_ns p.last_tick + d in
    let (runs, made, moved) = pass_lem fuel now p ok h in
    let (p', rest, made', moved', counted) =
      passes_lem readings fuel (passed now p) more (omega arith) in
    (
      p',
      rw runs rest,
      made'
          ∙ ap₂ (λ xs (t : ℕ). xs ++ if_called p.timer.cb (due t d readings)) made moved
          ∙ if_called-append p.timer.cb (made_at p.calls) (max (in_ns now) at ∷ [])
              (due at d readings),
      moved' ∙ omega (arith, moved),
      counted ∙ omega arith,
    )
