-- ===== src/X8b10b/Tables.antt =====
-- x8b10b_tables.h: the code tables, the first pair for a negative running disparity and the second
-- for a positive one. Bit 6 of an entry says that the disparity changes; 0xff, that there is none.
use psplay.Base.{ℕ, List, [], ◌∷◌}

abbrev pub b5b6_1 : List ℕ
b5b6_1 =
    0xe7 ∷ 0xdd ∷ 0xed ∷ 0x31 ∷ 0xf5 ∷ 0x29 ∷ 0x19 ∷ 0xb8 ∷ 0xf9 ∷ 0x25 ∷ 0x15 ∷ 0x34 ∷ 0x0d ∷ 0x2c
    ∷ 0x1c ∷ 0xd7 ∷ 0xdb ∷ 0x23 ∷ 0x13 ∷ 0x32 ∷ 0x0b ∷ 0x2a ∷ 0x1a ∷ 0xfa ∷ 0xf3 ∷ 0x26 ∷ 0x16
    ∷ 0xf6 ∷ 0x0e ∷ 0xee ∷ 0xde ∷ 0xeb ∷ 0xff ∷ 0xff ∷ 0xff ∷ 0xff ∷ 0xff ∷ 0xff ∷ 0xff ∷ 0xff
    ∷ 0xff ∷ 0xff ∷ 0xff ∷ 0xff ∷ 0xff ∷ 0xff ∷ 0xff ∷ 0xff ∷ 0xff ∷ 0xff ∷ 0xff ∷ 0xff ∷ 0xff
    ∷ 0xff ∷ 0xff ∷ 0xfa ∷ 0xff ∷ 0xff ∷ 0xff ∷ 0xf6 ∷ 0xcf ∷ 0xee ∷ 0xde ∷ 0xff ∷ []

abbrev pub b3b4_1 : List ℕ
b3b4_1 =
    0xcb ∷ 0x09 ∷ 0x05 ∷ 0x8c ∷ 0xcd ∷ 0x0a ∷ 0x06 ∷ 0xce ∷ 0xc7 ∷ 0xff ∷ 0xff ∷ 0xff ∷ 0xff ∷ 0xff
    ∷ 0xff ∷ 0xff ∷ 0xcb ∷ 0x86 ∷ 0x8a ∷ 0x8c ∷ 0xcd ∷ 0x85 ∷ 0x89 ∷ 0xc7 ∷ 0xff ∷ 0xff ∷ 0xff
    ∷ 0xff ∷ 0xff ∷ 0xff ∷ 0xff ∷ 0xff ∷ []

abbrev pub b5b6_2 : List ℕ
b5b6_2 =
    0xd8 ∷ 0xe2 ∷ 0xd2 ∷ 0x31 ∷ 0xca ∷ 0x29 ∷ 0x19 ∷ 0x87 ∷ 0xc6 ∷ 0x25 ∷ 0x15 ∷ 0x34 ∷ 0x0d ∷ 0x2c
    ∷ 0x1c ∷ 0xe8 ∷ 0xe4 ∷ 0x23 ∷ 0x13 ∷ 0x32 ∷ 0x0b ∷ 0x2a ∷ 0x1a ∷ 0xc5 ∷ 0xcc ∷ 0x26 ∷ 0x16
    ∷ 0xc9 ∷ 0x0e ∷ 0xd1 ∷ 0xe1 ∷ 0xd4 ∷ 0xff ∷ 0xff ∷ 0xff ∷ 0xff ∷ 0xff ∷ 0xff ∷ 0xff ∷ 0xff
    ∷ 0xff ∷ 0xff ∷ 0xff ∷ 0xff ∷ 0xff ∷ 0xff ∷ 0xff ∷ 0xff ∷ 0xff ∷ 0xff ∷ 0xff ∷ 0xff ∷ 0xff
    ∷ 0xff ∷ 0xff ∷ 0xc5 ∷ 0xff ∷ 0xff ∷ 0xff ∷ 0xc9 ∷ 0xf0 ∷ 0xd1 ∷ 0xe1 ∷ 0xff ∷ []

abbrev pub b3b4_2 : List ℕ
b3b4_2 =
    0xc4 ∷ 0x09 ∷ 0x85 ∷ 0x83 ∷ 0xc2 ∷ 0x0a ∷ 0x06 ∷ 0xc1 ∷ 0xc8 ∷ 0xff ∷ 0xff ∷ 0xff ∷ 0xff ∷ 0xff
    ∷ 0xff ∷ 0xff ∷ 0xc4 ∷ 0x89 ∷ 0x8a ∷ 0x83 ∷ 0xc2 ∷ 0x8a ∷ 0x86 ∷ 0xc8 ∷ 0xff ∷ 0xff ∷ 0xff
    ∷ 0xff ∷ 0xff ∷ 0xff ∷ 0xff ∷ 0xff ∷ []
