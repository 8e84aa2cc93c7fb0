-- ===== src/Framer/Tests.antt =====
-- The theorems about framer.c for a message of two bytes, with a coder that appends zeros.
use psplay.Base.{
  ℕ, zero, suc, ◌+◌, ◌*◌, ◌^◌, ◌<◌, ◌≤◌, ◌≡◌, refl, arith, some, List, [], ◌∷◌, ◌++◌, length, All,
  replicate, length-append, length-replicate,
}
use psplay.Bitstream.{Bitstream}
use psplay.Bitstream.Stream.{IsValid, Written}
use psplay.Framer.Outcome.{next}
use psplay.Framer.Build.{Platform, Framer, frame}
use psplay.Framer.Header.{ReedSolomon}
use psplay.Framer.Frame.{Ready, frame_bits}
use psplay.Framer.Result.{frame-Written}
use psplay.X8b10b.Stream.{IsByte}

abbrev pub zero_coder : Platform
zero_coder = record {
  Coder = ℕ;
  create = λ n. some n;
  encode = λ n msg. (length msg + n, msg ++ replicate n 0);
  Ratio = ℕ;
  ceil_times = λ r n. r * n;
}

append-IsByte : (msg : List ℕ) (n : ℕ) → All IsByte msg → All IsByte (msg ++ replicate n 0)
append-IsByte [] zero h = tt
append-IsByte [] (suc n) h = (omega arith, append-IsByte [] n h)
append-IsByte (b ∷ msg) n h = (h.0, append-IsByte msg n h.1)

pub zero_coder-ReedSolomon : ReedSolomon zero_coder
zero_coder-ReedSolomon = record {
  encoded = λ n coder msg e few ok. of_made n coder msg (made n coder e) few ok;
}
  where
    made : (n coder : ℕ) → some n ≡ some coder → coder ≡ n
    made n coder e = cc

    of_made :
        (n coder : ℕ) (msg : List ℕ)
        → coder ≡ n
        → length msg + n ≤ 255
        → All IsByte msg
        → (length msg + coder < 2 ^ 63)
          × (length (msg ++ replicate coder 0) ≡ length msg + n)
          × All IsByte (msg ++ replicate coder 0)
    of_made n coder msg e few ok = (
      omega arith,
      omega (arith, length-append msg (replicate coder 0), length-replicate {A = ℕ} coder 0),
      append-IsByte msg coder ok,
    )

-- Two preamble pairs of one-bit symbols, a header, and as many parity bytes as message bytes.
abbrev framer : Framer zero_coder
framer = record {
  rs_header = some 2;
  payload_parity_len_ratio = 1;
  flags = 0;
  preamble_length = 2;
  m_exp = 1;
}

abbrev message : List ℕ
message = 0x41 ∷ 0x42 ∷ []

framer-Ready : Ready zero_coder framer message 2 2 2 2
framer-Ready = record {
  header_there = refl;
  header_made = refl;
  payload_made = refl;
  parity = refl;
  enough = omega arith;
  bytes = (omega arith, (omega arith, tt));
  few = omega arith;
  symbol = omega arith;
}

-- An empty stream of `n` bytes.
abbrev empty : ℕ → Bitstream
empty n = record { data_ = replicate n 0; cap = n * 8; len = 0; pos_read = 0; pos_write = 0 }

empty-IsValid : (n : ℕ) → n < 2 ^ 60 → IsValid (empty n)
empty-IsValid n h = omega (arith, length-replicate {A = ℕ} n 0)

frame-Written_example :
    (s' : Bitstream) × (frame zero_coder framer 7 message 2 (empty 12) ≡ next (74, s'))
    × Written (empty 12) (frame_bits zero_coder framer 2 2 message 2) s'
frame-Written_example =
    frame-Written zero_coder zero_coder-ReedSolomon framer 7 message 2 2 framer-Ready (empty 12)
      (empty-IsValid 12 (omega arith)) (omega arith) (omega arith)
