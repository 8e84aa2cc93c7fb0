-- ===== src/CommandLine/Sweeps.antt =====
-- What psplay.c sends in the mode of alternating symbols.
use psplay.Base.{
  ℕ, zero, suc, ◌+◌, ◌^◌, ◌≤◌, ◌<◌, ◌≡◌, refl, sym, ap, ◌∙◌, arith, Option, none, some, ◌>>=◌, List,
  [], ◌∷◌, ◌++◌, append_assoc, append-nil,
}
use psplay.Base.Int.{ℤ, pos}
use mathlib.Core.List.{map}
use psplay.Utils.{Timespec}
use psplay.Sender.{Line, dbpsk_send_symbol}
use psplay.Sender.Fsk.{Sounds, Said, Said-nil, send_symbol-Said, fsk_start_total, stop_total}
use psplay.Sender.Dbpsk.{Keyed, IsKeying, send-IsKeying, send-Keyed, dbpsk_start_total}
use psplay.CommandLine.Alternating.{
  goes_on, sweep, both, or_end, sweeps, alternate_fsk, alternate_dbpsk,
}
use native.Mathlib.Nat.{pow-le-pow_right}

-- The symbols `i .. i + n - 1`, and a list so many times over.
abbrev pub symbols_from : ℕ → ℕ → List ℕ
symbols_from i zero = []
symbols_from i (suc n) = i ∷ symbols_from (i + 1) n

abbrev pub times_over : ℕ → List ℕ → List ℕ
times_over zero xs = []
times_over (suc n) xs = xs ++ times_over n xs

goes_on-zero : goes_on (pos 0) ≡ none
unfolding goes_on
goes_on-zero = refl

goes_on-suc : (n : ℕ) → goes_on (pos (suc n)) ≡ some (pos n)
unfolding goes_on
goes_on-suc n = ground arith

map-append : (f : ℕ → ℤ) (xs ys : List ℕ) → map f (xs ++ ys) ≡ map f xs ++ map f ys
map-append f [] ys = refl
map-append f (x ∷ xs) ys = ap (λ t. f x ∷ t) (map-append f xs ys)

Said-append :
    (xs ys : List ℕ) {l l' l'' : Line} → Said l xs l' → Said l' ys l'' → Said l (xs ++ ys) l''
Said-append xs ys {l} a b = record {
  symbols_sent = b.symbols_sent ∙ ap (λ t. t ++ ys) a.symbols_sent ∙ append_assoc l.sent xs ys;
  tones_played =
      b.tones_played
      ∙ ap (λ t. t ++ map pos ys) a.tones_played
      ∙ append_assoc l.tones (map pos xs) (map pos ys)
      ∙ ap (λ t. l.tones ++ t) (sym (map-append pos xs ys));
}

-- What a round has to keep, and what it adds, which goes together over rounds.
module _ (Keeps : Line → Type 0) (Adds : Line → List ℕ → Line → Type 0)
    (none_added : (l : Line) → Adds l [] l)
    (one_behind : (xs ys : List ℕ) (l l' l'' : Line)
      → Adds l xs l'
      → Adds l' ys l''
      → Adds l (xs ++ ys) l'')
    (xs : List ℕ) (round : Line → Option Line)
    (says : (l : Line)
      → Keeps l
      → (l' : Line) × (round l ≡ some l') × Keeps l' × Adds l xs l') where
  sweeps_lem :
      (count fuel : ℕ) (l : Line)
      → count < fuel
      → Keeps l
      → (l' : Line) × (sweeps round fuel (pos count) l ≡ some l')
        × Keeps l'
        × Adds l (times_over count xs) l'
  unfolding sweeps
  sweeps_lem count zero l enough v = absurd (omega arith)
  sweeps_lem zero (suc fuel) l enough v = (
    l,
    ap (λ o. or_end o l (λ c. round l >>= λ l'. sweeps round fuel c l')) goes_on-zero,
    v,
    none_added l,
  )
  sweeps_lem (suc count) (suc fuel) l enough v =
      let (l1, sends, v1, said) = says l v in
      let (l2, rest, v2, said2) = sweeps_lem count fuel l1 (omega arith) v1 in
      (
        l2,
        ap (λ o. or_end o l (λ c. round l >>= λ l'. sweeps round fuel c l')) (goes_on-suc count)
            ∙ ap (λ o. o >>= λ l'. sweeps round fuel (pos count) l') sends
            ∙ rest,
        v2,
        one_behind xs (times_over count xs) l l1 l2 said said2,
      )

sweep-Said :
    (n left i : ℕ) (l : Line)
    → n ≤ 64
    → i + left ≤ n
    → Sounds n l
    → (l' : Line) × (sweep left i l ≡ some l') × Sounds n l' × Said l (symbols_from i left) l'
unfolding sweep
sweep-Said n zero i l few fits v = (l, refl, v, Said-nil l)
sweep-Said n (suc left) i l few fits v =
    let (l1, sends, v1, said) = send_symbol-Said n i l v (omega arith) (omega arith) in
    let (l2, rest, v2, said2) = sweep-Said n left (i + 1) l1 few (omega arith) v1 in
    (l2, rw sends rest, v2, Said-append (i ∷ []) (symbols_from (i + 1) left) said said2)

-- With FSK, 1 to 6 bits a symbol, as many frequencies as there are symbols, and a loop count that is
-- not below 0, each symbol is sent in order, from the lowest to the highest, so many times over, and the
-- current tone is that of the symbol.
pub alternate_fsk-Said :
    (fuel : ℕ) (half_period : ℕ → ℕ) (m_exp : ℕ) (duration : Timespec) (count : ℕ)
    → m_exp ≤ 6
    → count < fuel
    → (l : Line) × (alternate_fsk fuel half_period m_exp duration (2 ^ m_exp) (pos count) ≡ some l)
      × (l.sent ≡ times_over count (symbols_from 0 (2 ^ m_exp)))
      × (l.tones ≡ map pos (times_over count (symbols_from 0 (2 ^ m_exp))))
unfolding alternate_fsk
alternate_fsk-Said fuel half_period m_exp duration count high enough =
    let few = pow-le-pow_right {n = 2} (omega arith) high in
    let (l, started, sounds, sent_none, tones_none) =
      fsk_start_total half_period m_exp duration (omega arith) in
    let (l', runs, t, said) =
      sweeps_lem (Sounds (2 ^ m_exp)) Said Said-nil (λ xs ys l l' l'' a b. Said-append xs ys a b)
        (symbols_from 0 (2 ^ m_exp)) (sweep (2 ^ m_exp) 0)
        (λ k v. sweep-Said (2 ^ m_exp) (2 ^ m_exp) 0 k (omega arith) (omega arith) v) count fuel l
        enough sounds in
    let (l'', stopped, sent_kept, tones_kept) = stop_total l' t.tuned in
    (
      l'',
      rw (started, runs, stopped) refl,
      sent_kept
          ∙ said.symbols_sent
          ∙ ap (λ x. x ++ times_over count (symbols_from 0 (2 ^ m_exp))) sent_none,
      tones_kept
          ∙ said.tones_played
          ∙ ap (λ x. x ++ map pos (times_over count (symbols_from 0 (2 ^ m_exp)))) tones_none,
    )

Keyed-nil : (l : Line) → Keyed l [] l
Keyed-nil l = record { bits_sent = sym (append-nil l.sent); one_tone = sym (append-nil l.tones) }

Keyed-append :
    (xs ys : List ℕ) (l l' l'' : Line) → Keyed l xs l' → Keyed l' ys l'' → Keyed l (xs ++ ys) l''
Keyed-append xs ys l l' l'' a b = record {
  bits_sent = b.bits_sent ∙ ap (λ t. t ++ ys) a.bits_sent ∙ append_assoc l.sent xs ys;
  one_tone =
      b.one_tone
      ∙ ap (λ t. t ++ map (λ b. pos 0) ys) a.one_tone
      ∙ append_assoc l.tones (map (λ b. pos 0) xs) (map (λ b. pos 0) ys)
      ∙ ap (λ t. l.tones ++ t) (sym (map-append (λ b. pos 0) xs ys));
}

both-Keyed :
    (l : Line)
    → IsKeying l
    → (l' : Line) × (both l ≡ some l') × IsKeying l' × Keyed l (0 ∷ 1 ∷ []) l'
both-Keyed l v =
    let w = send-IsKeying l 0 v in
    (
      _,
      refl,
      send-IsKeying (dbpsk_send_symbol l 0) 1 w,
      Keyed-append (0 ∷ []) (1 ∷ []) l (dbpsk_send_symbol l 0)
          (dbpsk_send_symbol (dbpsk_send_symbol l 0) 1) (send-Keyed l 0 v)
          (send-Keyed (dbpsk_send_symbol l 0) 1 w),
    )

-- With DBPSK and a loop count that is not below 0, the symbols 0 and 1 are sent in turn, so many times
-- over.
pub alternate_dbpsk-Keyed :
    (fuel half_period : ℕ) (duration : Timespec) (count : ℕ)
    → count < fuel
    → (l : Line) × (alternate_dbpsk fuel half_period duration (pos count) ≡ some l)
      × (l.sent ≡ times_over count (0 ∷ 1 ∷ []))
unfolding alternate_dbpsk
alternate_dbpsk-Keyed fuel half_period duration count enough =
    let (l, started, keying, sent_none, tones_none) = dbpsk_start_total half_period duration in
    let (l', runs, t, said) =
      sweeps_lem IsKeying Keyed Keyed-nil Keyed-append (0 ∷ 1 ∷ []) both both-Keyed count fuel l
        enough keying in
    let (l'', stopped, sent_kept, tones_kept) = stop_total l' t.tuned in
    (
      l'',
      rw (started, runs, stopped) refl,
      sent_kept ∙ said.bits_sent ∙ ap (λ x. x ++ times_over count (0 ∷ 1 ∷ [])) sent_none,
    )
