-- ===== src/X8b10b/Control.antt =====
-- Control characters in the line code (x8b10b.c): which requests are refused, and where two of the
-- twelve control characters of the 8b/10b code are sent as one word.
use psplay.Base.{
  ℕ, ◌%◌, ◌<◌, ◌≡◌, ◌↔◌, refl, arith, Bool, true, false, ◌&&◌, ◌||◌, not, ◌==◌, if◌then◌else◌, List,
  [], ◌∷◌, get_or, all_below, all_below_sound, ==_iff, Bool-cases, ◌⊎◌, inl, inr,
}
use psplay.Base.Int.{ℤ, eqb_ℤ, eqb_ℤ_iff}
use psplay.X8b10b.{Encoding, enc, select, next_rd, alternate}
use psplay.X8b10b.Code.{disparity}

-- The low five bits for which b5b6_1 and b5b6_2 have a control entry: K.23, K.27 to K.30.
abbrev pub has_control : ℕ → Bool
has_control b = let x = b % 32 in x == 23 || (x == 27 || (x == 28 || (x == 29 || x == 30)))

answers : ℤ → ℕ → Encoding → Bool
answers rd b e = if has_control b then e.ret == 1 else (e.ret == 0 && eqb_ℤ e.rd rd)

answers_yes :
    (rd : ℤ) (b : ℕ) (e : Encoding) → has_control b ≡ true → answers rd b e ≡ true → e.ret ≡ 1
unfolding answers
answers_yes rd b e c h = ground arith

answers_no :
    (rd : ℤ) (b : ℕ) (e : Encoding)
    → has_control b ≡ false
    → answers rd b e ≡ true
    → (e.ret ≡ 0) × (e.rd ≡ rd)
unfolding answers
answers_no rd b e c h = ground (arith, eqb_ℤ_iff e.rd rd)

all_fields :
    (e : Encoding) (p : ℕ) (rd : ℤ)
    → e.ret ≡ 0
    → e.p10b ≡ p
    → e.rd ≡ rd
    → e ≡ record { ret = 0; p10b = p; rd = rd }
all_fields e p rd a b c = λ i. record { ret = a i; p10b = b i; rd = c i }

abbrev same : Bool → Bool → Bool
same true b = b
same false b = not b

-- K.28.0 to K.28.7, K.23.7, K.27.7, K.29.7 and K.30.7
abbrev pub controls : List ℕ
controls = 0x1c ∷ 0x3c ∷ 0x5c ∷ 0x7c ∷ 0x9c ∷ 0xbc ∷ 0xdc ∷ 0xfc ∷ 0xf7 ∷ 0xfb ∷ 0xfd ∷ 0xfe ∷ []

abbrev pub control_word : Bool → ℕ → ℕ
control_word m i = (enc (get_or controls i 0) 0 true (disparity m)).p10b

-- K.28.2 and K.28.5 at a negative disparity
abbrev pub is_mixed_up : Bool → ℕ → ℕ → Bool
is_mixed_up m i j = m && (i == 2 && j == 5 || i == 5 && j == 2)

collisions :
    (m : Bool)
    → all_below 12 (λ i.
      all_below 12 (λ j. same (control_word m i == control_word m j) (i == j || is_mixed_up m i j)))
      ≡ true
unfolding all_below enc select next_rd alternate
collisions true = refl
collisions false = refl

same_iff : (a b : Bool) → same a b ≡ true → (a ≡ true) ↔ (b ≡ true)
same_iff true true h = ground arith
same_iff true false h = ground arith
same_iff false true h = ground arith
same_iff false false h = ground arith

-- Of the twelve control characters two are sent as the same word from the same disparity only if
-- they are the same character, or K.28.2 and K.28.5 at a negative disparity; and those two are.
pub control_word-eq_iff :
    (m : Bool) (i j : ℕ)
    → i < 12
    → j < 12
    → (control_word m i ≡ control_word m j) ↔ ((i == j || is_mixed_up m i j) ≡ true)
control_word-eq_iff m i j hi hj =
    let h : same (control_word m i == control_word m j) (i == j || is_mixed_up m i j) ≡ true =
      all_below_sound 12
        (λ j. same (control_word m i == control_word m j) (i == j || is_mixed_up m i j)) j
        (all_below_sound 12
          (λ i.
            all_below 12
              (λ j. same (control_word m i == control_word m j) (i == j || is_mixed_up m i j)))
          i (collisions m) hi)
        hj in
    let e = same_iff _ _ h in
    let w = ==_iff (control_word m i) (control_word m j) in (λ p. e.0 (w.1 p), λ p. w.0 (e.1 p))

answers_all :
    (m : Bool) (p : ℕ)
    → all_below 256 (λ b. answers (disparity m) b (enc b p true (disparity m))) ≡ true
unfolding all_below answers enc select next_rd alternate
answers_all true p = refl
answers_all false p = refl

-- A refused call leaves `*p10b` alone.
refused_old :
    (u p : ℕ) (ctrl : Bool) (rd : ℤ) → (enc u p ctrl rd).ret ≡ 0 → (enc u p ctrl rd).p10b ≡ p
unfolding enc
refused_old u p ctrl rd h = ground arith

-- A request for a control character succeeds exactly when the low five bits have a control entry;
-- any other returns 0 and leaves `*p10b` and `*rd` alone.
pub enc-control :
    (m : Bool) (p b : ℕ)
    → b < 256
    → let e = enc b p true (disparity m) in
      ((has_control b ≡ true) × (e.ret ≡ 1))
      ⊎ ((has_control b ≡ false) × (e ≡ record { ret = 0; p10b = p; rd = disparity m }))
enc-control m p b hb =
    let e = enc b p true (disparity m) in
    let h : answers (disparity m) b e ≡ true =
      all_below_sound 256 (λ b. answers (disparity m) b (enc b p true (disparity m))) b
        (answers_all m p) hb in
    elim (Bool-cases (has_control b)) [
      | inl yes_control ↦ inl (yes_control, answers_yes (disparity m) b e yes_control h)
      | inr none_there ↦
          let (ret, rd) = answers_no (disparity m) b e none_there h in
          inr (
            none_there,
            all_fields e p (disparity m) ret (refused_old b p true (disparity m) ret) rd,
          )
    ]

-- K.28.1 from a negative disparity: the comma that starts a frame.
abbrev pub start_delimiter : ℕ
start_delimiter = 0b0011111001

pub enc-start :
    (t : ℕ)
    → enc 0x3c t true (disparity true)
      ≡ record { ret = 1; p10b = start_delimiter; rd = disparity false }
unfolding enc select next_rd alternate
enc-start t = refl
