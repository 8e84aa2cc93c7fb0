-- ===== src/CommandLine/Setup.antt =====
-- What `main` of psplay.c accepts as frequencies, and what it then starts.
use psplay.Base.{
  ℕ, zero, suc, ◌^◌, ◌≤◌, ◌<◌, ◌≡◌, inl, inr, refl, ap, ◌∙◌, sym, arith, Bool-cases, true, false,
  not, ◌||◌, ltb, if◌then◌else◌, Option, none, some, ◌↔◌, length,
}
use psplay.Utils.{Timespec, log2_int}
use psplay.Sender.{fsk_start}
use psplay.Sender.Fsk.{fsk_start_overflow}
use psplay.CommandLine.{Settings, sends, is_pot, choose_m_exp}
use psplay.CommandLine.PowerOfTwo.{is_pot_iff, log2_int-power}
use native.Mathlib.Decide.{dec_lt}
use native.Mathlib.Nat.{pow-le-pow_right}

abbrev fsk_choice : ℕ → Option ℕ
fsk_choice n = if not (is_pot n) || ltb n 2 then none else log2_int n

small_exponent : (k : ℕ) → 2 ^ k < 2 ^ 31 → k < 32
small_exponent k h = elim (dec_lt k 32) [
  | yes l ↦ l
  | no ge ↦
      absurd (omega (arith, pow-le-pow_right {n = 2} (omega arith) {i = 31} {j = k} (omega arith)))
]

some_bits : (k : ℕ) → ltb (2 ^ k) 2 ≡ false → 1 ≤ k
some_bits zero h = ground arith
some_bits (suc k) h = omega arith

fsk_choice-power : (k : ℕ) → 2 ^ k < 2 ^ 31 → 1 ≤ k → fsk_choice (2 ^ k) ≡ some k
fsk_choice-power k small one =
    let (to, from) = is_pot_iff (2 ^ k) in
    let pot : is_pot (2 ^ k) ≡ true = from (k, refl) in
    let many : ltb (2 ^ k) 2 ≡ false =
      ground (arith, pow-le-pow_right {n = 2} (omega arith) {i = 1} {j = k} one) in
    rw (pot, many) (log2_int-power k (small_exponent k small))

fsk_choice-some : (n m : ℕ) → n < 2 ^ 31 → fsk_choice n ≡ some m → (1 ≤ m) × (n ≡ 2 ^ m)
fsk_choice-some n m small h = elim (Bool-cases (is_pot n)) [
  | inl pot ↦
      let (to, from) = is_pot_iff n in
      let (k, e) = to pot in
      let many : ltb n 2 ≡ false = ground arith in
      let one : 1 ≤ k = some_bits k (ap (λ (t : ℕ). ltb t 2) (sym e) ∙ many) in
      let found : some m ≡ some k =
        sym h ∙ ap fsk_choice e ∙ fsk_choice-power k (omega arith) one in
      let same : m ≡ k = cc in (omega arith, e ∙ ap (λ (t : ℕ). 2 ^ t) (sym same))
  | inr other ↦ ground arith
]

module _ {Double : Type 0} (s : Settings Double) where
  -- With FSK, `main` goes on exactly if the number of frequencies is a power of two from 2 on, and a
  -- symbol then has as many bits as make that number.
  pub choose_m_exp-fsk :
      sends s.mode ≡ true
      → s.use_dbpsk ≡ false
      → length s.freqs < 2 ^ 31
      → (m_exp : ℕ) → (choose_m_exp s ≡ some m_exp) ↔ ((1 ≤ m_exp) × (length s.freqs ≡ 2 ^ m_exp))
  choose_m_exp-fsk h fsk small m_exp = (
    λ e. fsk_choice-some (length s.freqs) m_exp small (sym chosen ∙ e),
    λ b. let (one, e) = b in chosen ∙ ap fsk_choice e ∙ fsk_choice-power m_exp (omega arith) one,
  )
    where
      chosen : choose_m_exp s ≡ fsk_choice (length s.freqs)
      chosen = unfold choose_m_exp in rw (h, fsk) refl

  -- With 128 frequencies, which is as many as `-f` takes, and FSK, `main` goes on, and the start of the
  -- transmission writes behind the tone generator's array of timers.
  pub choose_m_exp-overflows :
      sends s.mode ≡ true
      → s.use_dbpsk ≡ false
      → length s.freqs ≡ 128
      → (half_period : ℕ → ℕ) (duration : Timespec)
      → (m_exp : ℕ) × (choose_m_exp s ≡ some m_exp) × (fsk_start half_period m_exp duration ≡ none)
  choose_m_exp-overflows h fsk all half_period duration =
      let (to, from) = choose_m_exp-fsk h fsk (omega arith) 7 in
      (7, from (omega arith, all), fsk_start_overflow half_period 7 duration (omega arith))
