-- ===== src/Bitstream/Tests.antt =====
-- Runs of bitstream.c on small inputs, and its theorems at them.
use psplay.Base.{
  ℕ, ◌+◌, ◌-◌, ◌*◌, ◌/◌, ◌<◌, ◌≤◌, ◌≡◌, refl, arith, Option, none, some, List, [], ◌∷◌, ◌++◌,
  length, neg_errno, e2big, ◌⊎◌, min, ◌==◌, if◌then◌else◌, replicate, length-replicate, take,
}
use psplay.Bitstream.{
  Bitstream, produce, consume, drain, copy_loop, bitwise_copy, finish_write, write, read, seek,
  dump_bits, dump,
}
use psplay.Bitstream.Bits.{bits, bit_at}
use psplay.Bitstream.Stored.{Stored}
use psplay.Bitstream.Copy.{bitwise_copy_lem}
use psplay.Bitstream.Stream.{IsValid, Written, write-Written}
use psplay.Bitstream.Reading.{Fetched, read-Fetched, read-write}
use psplay.Bitstream.Numbers.{Calloc}

-- Three bits written, one of them read, and room for thirteen more.
abbrev three_bits : Bitstream
three_bits = record { data_ = 5 ∷ 0 ∷ []; cap = 16; len = 3; pos_read = 1; pos_write = 3 }

three_bits-IsValid : IsValid three_bits
three_bits-IsValid = omega arith

-- A write that crosses a byte, the text that comes out, and a write that does not fit.
write_run :
    write three_bits (0xff ∷ []) 7
    ≡ some (7, record { data_ = 0xfd ∷ 3 ∷ []; cap = 16; len = 10; pos_read = 1; pos_write = 10 })
unfolding write bitwise_copy copy_loop produce drain consume finish_write psplay.Base.store
write_run = refl

dump_run : dump three_bits ≡ some (b'1' ∷ b'0' ∷ b'1' ∷ 10 ∷ [])
unfolding dump dump_bits
dump_run = refl

write_refused : write three_bits (0xff ∷ 0xff ∷ []) 14 ≡ some (neg_errno e2big, three_bits)
unfolding write bitwise_copy finish_write
write_refused = refl

bitwise_copy_lem_example :
    (after : List ℕ) × (bitwise_copy (0xa5 ∷ 0x0f ∷ []) 3 16 (1 ∷ 0 ∷ []) 2 16 11
      ≡ some (11, after))
    × Stored (λ k. bit_at (0xa5 ∷ 0x0f ∷ []) (3 + k)) 2 11 (1 ∷ 0 ∷ []) after
bitwise_copy_lem_example =
    bitwise_copy_lem (0xa5 ∷ 0x0f ∷ []) 3 16 (1 ∷ 0 ∷ []) 2 16 11 (omega arith) (omega arith)

write-Written_example :
    (s' : Bitstream) × (write three_bits (0x2d ∷ []) 6 ≡ some (6, s'))
    × Written three_bits (bits (0x2d ∷ []) 0 6) s'
write-Written_example =
    write-Written three_bits (0x2d ∷ []) 6 three_bits-IsValid (omega arith) (omega arith)

read-Fetched_example :
    (s' : Bitstream) × (buf' : List ℕ) × (read three_bits (0 ∷ []) 6 ≡ some (2, s', buf'))
    × Fetched three_bits 2 (0 ∷ []) s' buf'
read-Fetched_example =
    read-Fetched three_bits (0 ∷ []) 6 three_bits-IsValid (omega arith) (omega arith)

read-write_example :
    (s' : Bitstream) × (t : Bitstream) × (buf' : List ℕ) × (write three_bits (0xa5 ∷ []) 6
      ≡ some (6, s'))
    × (read (seek s' 3).1 (0 ∷ []) 6 ≡ some (6, t, buf'))
    × (bits buf' 0 6 ≡ bits (0xa5 ∷ []) 0 6)
read-write_example =
    read-write three_bits (0xa5 ∷ []) (0 ∷ []) 6 three_bits-IsValid (omega arith) (omega arith)
      (omega arith)

-- An allocator that gives zeros.
abbrev pub zeros : ℕ → Option (List ℕ)
zeros n = some (replicate n 0)

pub zeros-Calloc : Calloc zeros
zeros-Calloc = record { sized = λ n bytes e. sized_of n bytes e }
  where
    same : (a b : List ℕ) → some a ≡ some b → a ≡ b
    same a b e = cc

    sized_of : (n : ℕ) (bytes : List ℕ) → some (replicate n 0) ≡ some bytes → length bytes ≡ n
    sized_of n bytes e = rw (← same (replicate n 0) bytes e) (length-replicate n 0)
