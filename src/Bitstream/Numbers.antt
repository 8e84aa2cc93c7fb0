-- ===== src/Bitstream/Numbers.antt =====
-- `bitstream_init` and `bitstream_write_n` (bitstream.c).
use psplay.Base.{
  ℕ, zero, suc, ◌+◌, ◌-◌, ◌*◌, ◌/◌, ◌%◌, ◌^◌, ◌≤◌, ◌<◌, ◌≡◌, arith, ap, ap₂, ◌∙◌, List, [], ◌∷◌,
  length, Option, some, none, refl, min_size, Option-cases, ◌⊎◌, inl, inr, neg_errno, min, add_size,
}
use psplay.Bitstream.{Bitstream, init, write, bytes_of, write_n, remaining_cap}
use psplay.Bitstream.Bits.{bit, bit_at, bits, bit-mod, bit-shift}
use psplay.Bitstream.Stream.{IsValid, contents, Written, write-Written}
use native.Mathlib.Decide.{dec_lt}

-- The lowest `n` bits of a number, lowest first.
abbrev pub bits_of : ℕ → ℕ → List ℕ
bits_of zero x = []
bits_of (suc n) x = x % 2 ∷ bits_of n (x / 2)

pub length-bits_of : (n x : ℕ) → length (bits_of n x) ≡ n
length-bits_of zero x = refl
length-bits_of (suc n) x = ap suc (length-bits_of n (x / 2))

-- A buffer whose bits are those of a number reads as its lowest bits.
bits-eq-bits_of :
    (n x start : ℕ) (xs : List ℕ)
    → ((k : ℕ) → k < n → bit_at xs (start + k) ≡ bit x k)
    → bits xs start n ≡ bits_of n x
bits-eq-bits_of zero x start xs h = refl
bits-eq-bits_of (suc n) x start xs h =
    ap₂ ◌∷◌ first (bits-eq-bits_of n (x / 2) (start + 1) xs later)
  where
    first : bit_at xs start ≡ x % 2
    first = let e : start + 0 ≡ start = omega arith in rw e at (h 0 (omega arith))

    later : (k : ℕ) → k < n → bit_at xs (start + 1 + k) ≡ bit (x / 2) k
    later k lt =
        let e : start + suc k ≡ start + 1 + k = omega arith in rw e at (h (suc k) (omega arith))

pub length-bytes_of : (k x : ℕ) → length (bytes_of k x) ≡ k
unfolding bytes_of
length-bytes_of zero x = refl
length-bytes_of (suc k) x = ap suc (length-bytes_of k (x / 2 ^ 8))

bit_at-bytes_of : (k x i : ℕ) → i < 8 * k → bit_at (bytes_of k x) i ≡ bit x i
unfolding bytes_of
bit_at-bytes_of zero x i h = absurd (omega arith)
bit_at-bytes_of (suc k) x i h = elim (dec_lt i 8) [
  | yes low ↦
      let e : i / 8 ≡ 0 = omega arith in
      let m : i % 8 ≡ i = omega arith in rw (e, m) (bit-mod 8 x i low)
  | no high ↦
      let e : i / 8 ≡ suc ((i - 8) / 8) = omega arith in
      let m : i % 8 ≡ (i - 8) % 8 = omega arith in
      let j : 8 + (i - 8) ≡ i = omega arith in
      rw (e, m)
        (bit_at-bytes_of k (x / 2 ^ 8) (i - 8) (omega arith) ∙ bit-shift 8 x (i - 8) ∙ ap (bit x) j)
]

-- A number in memory, read bit by bit.
pub bits-bytes_of : (k n x : ℕ) → n ≤ 8 * k → bits (bytes_of k x) 0 n ≡ bits_of n x
bits-bytes_of k n x h =
    bits-eq-bits_of n x 0 (bytes_of k x)
      λ i lt. let e : 0 + i ≡ i = omega arith in rw e (bit_at-bytes_of k x i (omega arith))

write_n_at : (s : Bitstream) (x len : ℕ) → write_n s x len ≡ write s (bytes_of 8 x) (min 64 len)
unfolding write_n
write_n_at s x len = let m : min_size 64 len ≡ min 64 len = ground arith in rw m

-- On a valid stream with room, `bitstream_write_n` appends the lowest `len` bits of the number, at most 64
-- of them, and returns how many.
pub write_n-Written :
    (s : Bitstream) (x len : ℕ)
    → IsValid s
    → s.len + min 64 len ≤ s.cap
    → (s' : Bitstream) × (write_n s x len ≡ some (min 64 len, s'))
      × Written s (bits_of (min 64 len) x) s'
write_n-Written s x len v fits =
    rw (write_n_at s x len, ← bits-bytes_of 8 (min 64 len) x (omega arith))
      (write-Written s (bytes_of 8 x) (min 64 len) v (omega (arith, length-bytes_of 8 x)) fits)

-- What the C library promises of `calloc(n, 1)`.
pub record Calloc (calloc : ℕ → Option (List ℕ)) : Type 0 where
  pub sized : (n : ℕ) (bytes : List ℕ) → calloc n ≡ some bytes → length bytes ≡ n

-- The stream that a successful allocation gives.
abbrev pub fresh : ℕ → List ℕ → Bitstream
fresh cap bytes = record { data_ = bytes; cap = cap; len = 0; pos_read = 0; pos_write = 0 }

fresh-IsValid :
    (cap : ℕ) (bytes : List ℕ)
    → cap < 2 ^ 63
    → length bytes ≡ (cap + 7) / 8
    → IsValid (fresh cap bytes)
fresh-IsValid cap bytes small sized = omega arith

-- What `init` returns for the result of the allocation.
abbrev made : ℕ → ℕ → Option (List ℕ) → ℕ × Option Bitstream
made errno cap none = (neg_errno errno, none)
made errno cap (some bytes) = (0, some (fresh cap bytes))

init_at :
    (calloc : ℕ → Option (List ℕ)) (errno cap : ℕ)
    → cap < 2 ^ 63
    → init calloc errno cap ≡ made errno cap (calloc ((cap + 7) / 8))
unfolding init
init_at calloc errno cap small =
    let e : add_size cap 7 ≡ cap + 7 = omega arith in
    rw (init, e) (made_lem (calloc ((cap + 7) / 8)))
  where
    made_lem :
        (r : Option (List ℕ))
        → elim r [ none ↦ (neg_errno errno, none) | some bytes ↦ (0, some (fresh cap bytes)) ]
          ≡ made errno cap r
    made_lem none = refl
    made_lem (some bytes) = refl

pub init-fresh :
    (calloc : ℕ → Option (List ℕ)) (errno cap : ℕ) (bytes : List ℕ)
    → Calloc calloc
    → cap < 2 ^ 63
    → calloc ((cap + 7) / 8) ≡ some bytes
    → (init calloc errno cap ≡ (0, some (fresh cap bytes))) × IsValid (fresh cap bytes)
init-fresh calloc errno cap bytes laws small e = (
  init_at calloc errno cap small ∙ ap (made errno cap) e,
  fresh-IsValid cap bytes small (laws.sized _ bytes e),
)

-- `bitstream_init` gives an empty, valid stream of the capacity asked for where the allocation
-- succeeds, and -errno and no stream where it fails.
pub init_lem :
    (calloc : ℕ → Option (List ℕ)) (errno cap : ℕ)
    → Calloc calloc
    → cap < 2 ^ 63
    → ((calloc ((cap + 7) / 8) ≡ none) × (init calloc errno cap ≡ (neg_errno errno, none)))
      ⊎ ((s : Bitstream) × (init calloc errno cap ≡ (0, some s))
          × IsValid s
          × (contents s ≡ [])
          × (remaining_cap s ≡ cap))
init_lem calloc errno cap laws small = elim (Option-cases (calloc ((cap + 7) / 8))) [
  | inl e ↦ inl (e, init_at calloc errno cap small ∙ ap (made errno cap) e)
  | inr (bytes, e) ↦ inr (
    fresh cap bytes,
    init_at calloc errno cap small ∙ ap (made errno cap) e,
    fresh-IsValid cap bytes small (laws.sized _ bytes e),
    refl,
    unfold remaining_cap in omega arith,
  )
]
