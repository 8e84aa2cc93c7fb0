-- ===== src/Bitstream/Text.antt =====
-- `bitstream_write_str` and `bitstream_dump` (bitstream.c): the bits as characters.
use psplay.Base.{
  ℕ, zero, suc, ◌+◌, ◌-◌, ◌*◌, ◌/◌, ◌%◌, ◌^◌, ◌≤◌, ◌<◌, ◌≡◌, arith, ap, ◌∙◌, List, [], ◌∷◌, ◌++◌,
  length, some, refl, subst, sym, neg_errno, e2big, add_size, get_or, if◌then◌else◌, ◌==◌,
  get_elem?-eq-get_or, take, bit_and,
}
use psplay.Base.Mask.{one-bit_and}
use psplay.Bitstream.{Bitstream, write, write_chars, write_str, dump_bits, dump, empty_mark}
use psplay.Bitstream.Bits.{bit, bit_at, bits, bit-shift}
use psplay.Bitstream.Stream.{
  IsValid, contents, Written, Written-nil, Written-append, write-Written, write_too_big,
}
use mathlib.Core.List.{map}
use native.Mathlib.Decide.{dec_lt}
use native.Mathlib.Nat.{add-zero}

-- Any character but '0' stands for a one.
abbrev pub char_bit : ℕ → ℕ
char_bit ch = if ch == b'0' then 0 else 1

-- One character.
write_char :
    (s : Bitstream) (ch : ℕ)
    → IsValid s
    → s.len < s.cap
    → (s' : Bitstream) × (write s (char_bit ch ∷ []) 1 ≡ some (1, s'))
      × Written s (char_bit ch ∷ []) s'
write_char s ch v room =
    let (s', runs, w) = write-Written s (char_bit ch ∷ []) 1 v (omega arith) (omega arith) in
    let e : char_bit ch % 2 ≡ char_bit ch = ground arith in
    (s', runs, subst (λ b. Written s (b ∷ []) s') e w)

write_chars_step :
    (s t : Bitstream) (ch : ℕ) (str : List ℕ) (total : ℕ)
    → write s (char_bit ch ∷ []) 1 ≡ some (1, t)
    → total + 1 < 2 ^ 63
    → write_chars s (ch ∷ str) total ≡ write_chars t str (total + 1)
unfolding write_chars
write_chars_step s t ch str total e small =
    let i : add_size total 1 ≡ total + 1 = omega arith in rw (e, i)

write_chars-Written :
    (str : List ℕ) (s : Bitstream) (total : ℕ)
    → IsValid s
    → s.len + length str ≤ s.cap
    → total + length str < 2 ^ 63
    → (s' : Bitstream) × (write_chars s str total ≡ some (total + length str, s'))
      × Written s (map char_bit str) s'
write_chars-Written [] s total v room small =
    (s, unfold write_chars in ap (λ (n : ℕ). some (n, s)) (sym (add-zero total)), Written-nil s v)
write_chars-Written (ch ∷ str) s total v room small =
    let (t, first, w) = write_char s ch v (omega arith) in
    let (u, rest, w') =
      write_chars-Written str t (total + 1) w.valid (omega (arith, w.longer, w.cap_kept))
        (omega arith) in
    (
      u,
      write_chars_step s t ch str total first (omega arith)
          ∙ rest
          ∙ ap (λ (n : ℕ). some (n, u)) (regroup total (length str)),
      Written-append (char_bit ch ∷ []) (map char_bit str) w w',
    )
  where
    regroup : (a b : ℕ) → a + 1 + b ≡ a + suc b
    regroup a b = omega arith

-- On a valid stream with room for it, `bitstream_write_str` appends one bit for each character, zero
-- for '0' and one for any other, and returns their number.
pub write_str-Written :
    (s : Bitstream) (str : List ℕ)
    → IsValid s
    → s.len + length str ≤ s.cap
    → (s' : Bitstream) × (write_str s str ≡ some (length str, s')) × Written s (map char_bit str) s'
unfolding write_str
write_str-Written s str v room =
    let (s', runs, w) = write_chars-Written str s 0 v room (omega (arith, v.small)) in
    (s', runs ∙ ap (λ (n : ℕ). some (n, s')) (zero_add (length str)), w)
  where
    zero_add : (n : ℕ) → 0 + n ≡ n
    zero_add n = omega arith

write_chars_stop :
    (s : Bitstream) (ch : ℕ) (str : List ℕ) (total : ℕ)
    → write s (char_bit ch ∷ []) 1 ≡ some (neg_errno e2big, s)
    → write_chars s (ch ∷ str) total ≡ some (neg_errno e2big, s)
unfolding write_chars
write_chars_stop s ch str total e = rw e

write_chars_over :
    (str : List ℕ) (s : Bitstream) (total : ℕ)
    → IsValid s
    → s.cap < s.len + length str
    → total + length str < 2 ^ 63
    → (s' : Bitstream) × (write_chars s str total ≡ some (neg_errno e2big, s'))
      × Written s (map char_bit (take (s.cap - s.len) str)) s'
write_chars_over [] s total v over small = absurd (omega (arith, v.fits, v.counted))
write_chars_over (ch ∷ str) s total v over small = elim (dec_lt s.len s.cap) [
  | yes lt ↦
      let (t, first, w) = write_char s ch v lt in
      let (u, rest, w') =
        write_chars_over str t (total + 1) w.valid (omega (arith, w.longer, w.cap_kept))
          (omega arith) in
      let e : s.cap - s.len ≡ suc (t.cap - t.len) = omega (arith, w.longer, w.cap_kept) in
      (
        u,
        write_chars_step s t ch str total first (omega arith) ∙ rest,
        rw e (Written-append (char_bit ch ∷ []) (map char_bit (take (t.cap - t.len) str)) w w'),
      )
  | no full ↦
      let e : s.cap - s.len ≡ 0 = omega arith in
      (
        s,
        write_chars_stop s ch str total
            (write_too_big s (char_bit ch ∷ []) 1 v (omega arith) (omega arith) (omega arith)),
        rw e (Written-nil s v),
      )
]

-- On a valid stream without room for it, `bitstream_write_str` returns -E2BIG, and has appended as
-- much of the text as there was room for.
pub write_str_too_big :
    (s : Bitstream) (str : List ℕ)
    → IsValid s
    → s.cap < s.len + length str
    → length str < 2 ^ 63
    → (s' : Bitstream) × (write_str s str ≡ some (neg_errno e2big, s'))
      × Written s (map char_bit (take (s.cap - s.len) str)) s'
unfolding write_str
write_str_too_big s str v over small = write_chars_over str s 0 v over (omega arith)

-- The characters of a dump: a digit for each bit, and a space behind each eighth.
abbrev pub digits_from : ℕ → List ℕ → List ℕ
digits_from i [] = []
digits_from i (b ∷ bs) =
    let rest = digits_from (i + 1) bs in (b + b'0') ∷ (if i % 8 == 7 then b' ' ∷ rest else rest)

dump_bits_lem :
    (bytes : List ℕ) (left i : ℕ)
    → i + left ≤ 8 * length bytes
    → dump_bits bytes left i ≡ some (digits_from i (bits bytes i left))
unfolding dump_bits
dump_bits_lem bytes zero i room = refl
dump_bits_lem bytes (suc left) i room =
    let e : bit_and 1 (get_or bytes (i / 8) 0 / 2 ^ (i % 8)) ≡ bit_at bytes i =
      one-bit_and (get_or bytes (i / 8) 0 / 2 ^ (i % 8))
      ∙ bit-shift (i % 8) (get_or bytes (i / 8) 0) 0
      ∙ ap (bit (get_or bytes (i / 8) 0)) (add-zero (i % 8)) in
    simp (
      get_elem?-eq-get_or bytes (i / 8) 0 (omega arith),
      dump_bits_lem bytes left (i + 1) (omega arith),
      e,
    )

-- `bitstream_dump` prints the bits of a valid stream, lowest first, in groups of eight, and a newline;
-- of an empty stream it says so.
pub dump_lem :
    (s : Bitstream)
    → IsValid s
    → dump s
      ≡ some ((if s.len == 0 then empty_mark else []) ++ (digits_from 0 (contents s) ++ 10 ∷ []))
unfolding dump
dump_lem s v = rw (dump_bits_lem s.data_ s.len 0 (omega (arith, v.storage, v.fits, v.counted)))
