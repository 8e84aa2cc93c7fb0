-- ===== src/Quirks/Text.antt =====
-- quirks.h: the strings that `file_read` and `strncmp` go by.
use psplay.Base.{
  ℕ, zero, suc, ◌<◌, ◌≤◌, ◌≡◌, ◌≢◌, refl, ap, ◌∙◌, arith, Bool, true, false, not, ◌&&◌, ◌==◌,
  if◌then◌else◌, Bool-cases, inl, inr, none, some, List, [], ◌∷◌, ◌++◌, length, set, length-set,
  store_lem, All, >>=-eq-some,
}
use psplay.Base.Int.{pos, negsuc}
use psplay.Quirks.{
  newline, first_line, fill, strcspn_newline, strncmp_differs, text, keep_line, read_opened,
}

-- The bytes before the first newline or NUL.
abbrev pub upto : List ℕ → List ℕ
upto [] = []
upto (c ∷ bytes) =
    let rest = upto bytes in if c == 0 then [] else if c == newline then [] else c ∷ rest

abbrev pub same : List ℕ → List ℕ → Bool
same [] [] = true
same [] (y ∷ b) = false
same (x ∷ a) [] = false
same (x ∷ a) (y ∷ b) = x == y && same a b

length-upto_le : (line : List ℕ) → length (upto line) ≤ length line
length-upto_le [] = omega arith
length-upto_le (c ∷ line) = ground (arith, length-upto_le line)

length-first_line : (n : ℕ) (bytes : List ℕ) → length (first_line n bytes) ≤ n
unfolding first_line
length-first_line zero bytes = omega arith
length-first_line (suc n) [] = omega arith
length-first_line (suc n) (c ∷ bytes) = ground (arith, length-first_line n bytes)

fill_lem :
    (line buf : List ℕ)
    → length line < length buf
    → (rest : List ℕ) × (fill (line ++ 0 ∷ []) buf ≡ some (line ++ 0 ∷ rest))
      × (length (line ++ 0 ∷ rest) ≡ length buf)
unfolding fill
fill_lem line [] h = absurd (omega arith)
fill_lem [] (b ∷ buf) h = (buf, refl, refl)
fill_lem (c ∷ line) (b ∷ buf) h =
    let (rest, e, k) = fill_lem line buf (omega arith) in (rest, rw e refl, ap suc k)

strcspn_newline_lem :
    (line rest : List ℕ) → strcspn_newline (line ++ 0 ∷ rest) ≡ some (length (upto line))
unfolding strcspn_newline
strcspn_newline_lem [] rest = refl
strcspn_newline_lem (c ∷ line) rest = ground (arith, strcspn_newline_lem line rest)

text-set :
    (line rest : List ℕ) → text (set (line ++ 0 ∷ rest) (length (upto line)) 0) ≡ some (upto line)
unfolding text
text-set [] rest = refl
text-set (c ∷ line) rest = elim (Bool-cases (c == 0)) [
  | inl nul ↦ ground arith
  | inr more ↦ elim (Bool-cases (c == newline)) [
    | inl ends ↦ ground arith
    | inr on ↦ rw (more, on) (rw (more, text-set line rest) refl)
  ]
]

keep_line_lem :
    (line buf : List ℕ)
    → line ≢ []
    → length line < length buf
    → (buf' : List ℕ) × (keep_line line buf ≡ some buf')
      × (length buf' ≡ length buf)
      × (text buf' ≡ some (upto line))
unfolding keep_line
keep_line_lem [] buf some_byte h = absurd (some_byte refl)
keep_line_lem (c ∷ line) buf some_byte h =
    let (rest, filled, k) = fill_lem (c ∷ line) buf h in
    let end = length (upto (c ∷ line)) in
    let whole = (c ∷ line) ++ 0 ∷ rest in
    let inside : end < length whole = omega (arith, k, length-upto_le (c ∷ line)) in
    (
      set whole end 0,
      rw (filled, strcspn_newline_lem (c ∷ line) rest, store_lem whole end 0 inside) refl,
      length-set whole end 0 ∙ k,
      text-set (c ∷ line) rest,
    )

first_line-ne : (n : ℕ) (c : ℕ) (bytes : List ℕ) → first_line (suc n) (c ∷ bytes) ≢ []
unfolding first_line
first_line-ne n c bytes = ground arith

pub read_opened-none :
    (buf : List ℕ) (maxlen : ℕ) → read_opened none buf maxlen ≡ some (negsuc 0, buf)
unfolding read_opened
read_opened-none buf maxlen = refl

-- A file with a byte or more, read into a buffer of 256 bytes.
pub read_opened_lem :
    (bytes buf : List ℕ)
    → bytes ≢ []
    → length buf ≡ 256
    → (buf' : List ℕ) × (read_opened (some bytes) buf 256 ≡ some (pos 1, buf'))
      × (length buf' ≡ 256)
      × (text buf' ≡ some (upto (first_line 255 bytes)))
unfolding read_opened
read_opened_lem [] buf some_byte k = absurd (some_byte refl)
read_opened_lem (c ∷ bytes) buf some_byte k =
    let line = first_line 255 (c ∷ bytes) in
    let (buf', kept, k', t) =
      keep_line_lem line buf (first_line-ne 254 c bytes)
        (omega (arith, length-first_line 255 (c ∷ bytes))) in
    (buf', rw kept refl, k' ∙ k, t)

-- `strncmp` against a literal of fewer than `n` characters.
pub strncmp_differs_lem :
    (n : ℕ) (buf t w : List ℕ)
    → text buf ≡ some t
    → All (λ c. c ≢ 0) w
    → length w < n
    → strncmp_differs n buf (w ++ 0 ∷ []) ≡ some (not (same t w))
unfolding strncmp_differs text
strncmp_differs_lem zero buf t w e ok h = absurd (omega arith)
strncmp_differs_lem (suc n) [] t w e ok h = cc
strncmp_differs_lem (suc n) (b ∷ buf) t [] e ok h = elim (Bool-cases (b == 0)) [
  | inl nul ↦ ground arith
  | inr more ↦
      let (t', runs, done) = >>=-eq-some (text buf) (λ u. some (b ∷ u)) (rw more at e) in
      ground arith
]
strncmp_differs_lem (suc n) (b ∷ buf) t (y ∷ w) e (y_ok, ok) h = elim (Bool-cases (b == 0)) [
  | inl nul ↦ ground arith
  | inr more ↦
      let (t', runs, done) = >>=-eq-some (text buf) (λ u. some (b ∷ u)) (rw more at e) in
      ground (arith, strncmp_differs_lem n buf t' w runs ok (omega arith))
]
