-- ===== src/X8b10b/Comma.antt =====
-- Where a receiver of the line code (x8b10b.c) can find the word boundaries: at a comma, which is five
-- equal bits behind two or more of the other kind. Data bytes never make one.
use psplay.Base.{
  ℕ, ◌+◌, ◌≤◌, ◌<◌, ◌≡◌, refl, ap, ◌∙◌, arith, Bool, true, false, not, ◌&&◌, ◌||◌, ◌==◌,
  if◌then◌else◌, leb, List, [], ◌∷◌, ◌++◌, all_below, all_below_sound, All, subst,
}
use psplay.X8b10b.{enc, is_minus, select, next_rd, alternate}
use psplay.X8b10b.Code.{disparity, enc_lem}
use psplay.X8b10b.Stream.{IsByte, words}
use psplay.X8b10b.Runs.{msb_bits, wire, longest_before, is_minus-disparity}

-- The end of what was sent: `length` bits that are `value`, and whether two or more of the other kind
-- stand before them.
pub record Tail : Type 0 where
  pub value : ℕ
  pub length : ℕ
  pub led : Bool

abbrev pub push : Tail → ℕ → Tail
push t b =
    if b == t.value
    then record t { length = t.length + 1 }
    else record { value = b; length = 1; led = leb 2 t.length }

abbrev completes : Tail → ℕ → Bool
completes t b = b == t.value && (t.led && t.length == 4)

-- The commas in what follows.
unfoldable pub commas : Tail → List ℕ → ℕ
commas t [] = 0
commas t (b ∷ bs) = (if completes t b then 1 else 0) + commas (push t b) bs

tail_of : Tail → List ℕ → Tail
tail_of t [] = t
tail_of t (b ∷ bs) = tail_of (push t b) bs

commas-append :
    (t : Tail) (xs ys : List ℕ) → commas t (xs ++ ys) ≡ commas t xs + commas (tail_of t xs) ys
unfolding commas tail_of
commas-append t [] ys = omega arith
commas-append t (b ∷ xs) ys = omega (arith, commas-append (push t b) xs ys)

-- What may stand in front of a code word, for each disparity.
may_lead : Bool → ℕ → ℕ → Bool → Bool
unfolding longest_before
may_lead m v k p = leb k (longest_before m v) && not (k == 3 && p)

flag_of : ℕ → Bool
flag_of i = i == 1

-- In front of a code word that makes no comma with it and leaves such a tail.
stays : Bool → ℕ → ℕ → ℕ → Bool → Bool
unfolding commas tail_of msb_bits may_lead
stays m b v k p =
    let xs = msb_bits 10 (enc b 0 false (disparity m)).p10b in
    let t : Tail = record { value = v; length = k; led = p } in
    let t' = tail_of t xs in
    not (may_lead m v k p)
    || (commas t xs == 0
        && (leb t'.value 1
            && may_lead (is_minus (enc b 0 false (disparity m)).rd) t'.value t'.length t'.led))

stays_all :
    (m : Bool)
    → all_below 256
        (λ b. all_below 2 (λ v. all_below 4 (λ k. stays m b v k true && stays m b v k false)))
      ≡ true
unfolding all_below stays longest_before commas tail_of msb_bits may_lead enc select next_rd
    alternate
stays_all true = refl
stays_all false = refl

short_tail : (m : Bool) (v k : ℕ) (p : Bool) → may_lead m v k p ≡ true → k < 4
unfolding may_lead longest_before
short_tail true v k p h = ground arith
short_tail false v k p h = ground arith

-- The tails that stand in front of a code word.
abbrev MayLead : Bool → Tail → Type 0
MayLead m t = (t.value ≤ 1) × (may_lead m t.value t.length t.led ≡ true)

either : (b : Bool) (f : Bool → Bool) → (f true && f false) ≡ true → f b ≡ true
either true f h = ground arith
either false f h = ground arith

four_tests :
    (a c : Bool) (n v : ℕ)
    → a ≡ true
    → (not a || (n == 0 && (leb v 1 && c))) ≡ true
    → (n ≡ 0) × ((v ≤ 1) × (c ≡ true))
four_tests a c n v h k = ground arith

-- One code word.
word_stays :
    (m m' : Bool) (b : ℕ) (t : Tail)
    → b < 256
    → MayLead m t
    → (enc b 0 false (disparity m)).rd ≡ disparity m'
    → (commas t (msb_bits 10 (enc b 0 false (disparity m)).p10b) ≡ 0)
      × MayLead m' (tail_of t (msb_bits 10 (enc b 0 false (disparity m)).p10b))
word_stays m m' b t hb (hv, lead) e =
    let checked : stays m b t.value t.length t.led ≡ true =
      either t.led (stays m b t.value t.length) (
        all_below_sound 4 (λ k. stays m b t.value k true && stays m b t.value k false) t.length
          (all_below_sound 2 (λ v. all_below 4 (λ k. stays m b v k true && stays m b v k false))
            t.value
            (all_below_sound 256
              (λ b. all_below 2 (λ v. all_below 4 (λ k. stays m b v k true && stays m b v k false)))
              b (stays_all m) hb)
            (omega arith))
          (short_tail m t.value t.length t.led lead)) in
    let n : is_minus (enc b 0 false (disparity m)).rd ≡ m' =
      ap is_minus e ∙ is_minus-disparity m' in
    let t' = tail_of t (msb_bits 10 (enc b 0 false (disparity m)).p10b) in
    subst
      (λ (s : Bool). (commas t (msb_bits 10 (enc b 0 false (disparity m)).p10b) ≡ 0) × MayLead s t')
      n (four_tests _ _ _ _ lead (unfold stays in checked))

words_stay :
    (m : Bool) (t : Tail) (bs : List ℕ)
    → All IsByte bs
    → MayLead m t
    → commas t (wire (words (disparity m) bs)) ≡ 0
words_stay m t [] h lead = unfold commas in refl
words_stay m t (b ∷ bs) h lead =
    let (m', rd) = (enc_lem m 0 b h.0).3 in
    let (no_comma, lead') = word_stays m m' b t h.0 lead rd in
    let xs = msb_bits 10 (enc b 0 false (disparity m)).p10b in
    let rest : commas (tail_of t xs) (wire (words (enc b 0 false (disparity m)).rd bs)) ≡ 0 =
      rw rd (words_stay m' (tail_of t xs) bs h.1 lead') in
    omega
      (arith, commas-append t xs (wire (words (enc b 0 false (disparity m)).rd bs)), no_comma, rest)

-- Before anything was sent, and the start delimiter K.28.1 behind a negative disparity.
abbrev pub silence : Tail
silence = record { value = 0; length = 0; led = false }

abbrev pub delimiter : List ℕ
delimiter = msb_bits 10 (enc 0x3c 0 true (disparity true)).p10b

delimiter-commas : commas silence delimiter ≡ 1
unfolding commas msb_bits enc select next_rd alternate
delimiter-commas = refl

delimiter-leads : MayLead false (tail_of silence delimiter)
unfolding tail_of may_lead longest_before msb_bits enc select next_rd alternate
delimiter-leads = (omega arith, refl)

-- Whatever the data bytes behind the start delimiter, at the positive disparity that it leaves, the
-- delimiter and their code words hold one comma and no other, so that the delimiter marks the word
-- boundaries.
pub commas-delimiter :
    (bs : List ℕ)
    → All IsByte bs
    → commas silence (delimiter ++ wire (words (disparity false) bs)) ≡ 1
commas-delimiter bs h = omega (
  arith,
  commas-append silence delimiter (wire (words (disparity false) bs)),
  delimiter-commas,
  words_stay false (tail_of silence delimiter) bs h delimiter-leads,
)
