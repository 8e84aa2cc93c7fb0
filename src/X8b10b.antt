-- ===== src/X8b10b.antt =====
-- x8b10b.c: the 8b/10b line code. `int *rd` is the running disparity, -1 or +1, as an integer. The
-- trace that the function prints is left out.
pub mod Tables
pub mod Code
pub mod Stream
pub mod Runs
pub mod Comma
pub mod Control
pub mod Tests
use psplay.Base.{ℕ, ◌+◌, ◌-◌, ◌*◌, ◌/◌, ◌%◌, ◌^◌, bit_and, bit_or, bit_ones, ◌<<<◌, ◌>>>◌}
use psplay.Base.{Bool, true, false, not, ◌&&◌, ◌||◌, ◌==◌, if◌then◌else◌, get_or, List}
use psplay.Base.Int.{ℤ, pos, negsuc, ◌+ℤ◌, ◌-ℤ◌, ltb_ℤ}
use Tables.{b5b6_1, b3b4_1, b5b6_2, b3b4_2}

-- `(*rd) < 0`
abbrev pub is_minus : ℤ → Bool
is_minus rd = ltb_ℤ rd (pos 0)

-- `!!ctrl`
abbrev pub flag : Bool → ℕ
flag ctrl = if ctrl then 1 else 0

-- The entry for the running disparity. Both indices are below the table's length.
pub select : List ℕ → List ℕ → ℤ → ℕ → ℕ
select table_1 table_2 rd i = if is_minus rd then get_or table_1 i 0xff else get_or table_2 i 0xff

-- The disparity after an entry: its bit RD_BIT moves it by two.
pub next_rd : ℕ → ℤ → ℤ
next_rd entry rd =
    if bit_and entry (1 <<< 6) == 0 then rd else if is_minus rd then rd +ℤ pos 2 else (rd -ℤ pos 2)

-- D.x.A7 in place of D.x.P7, where the latter would give five equal bits in a row.
pub alternate : Bool → ℤ → ℕ → ℕ → ℕ
alternate ctrl rd x y =
    if y == 7 && not ctrl
    then (if is_minus rd
        then (if x == 17 || (x == 18 || x == 20) then 8 else y)
        else (if x == 11 || (x == 13 || x == 14) then 8 else y))
    else y

-- The return value, `*p10b` and `*rd` after a call.
pub record Encoding : Type 0 where
  pub ret : ℕ
  pub p10b : ℕ
  pub rd : ℤ

pub enc : ℕ → ℕ → Bool → ℤ → Encoding
enc u8b p10b ctrl rd =
    let x = bit_or (bit_and u8b (bit_ones 5)) (flag ctrl <<< 5) in
    let y = bit_or (bit_and (u8b >>> 5) (bit_ones 3)) (flag ctrl <<< 4) in
    let abcdei = select b5b6_1 b5b6_2 rd x in
    if abcdei == 0xff
    then record { ret = 0; p10b = p10b; rd = rd }
    else (let rd' = next_rd abcdei rd in
        let fghj = select b3b4_1 b3b4_2 rd' (alternate ctrl rd' x y) in
        if fghj == 0xff then record { ret = 0; p10b = p10b; rd = rd' } else record {
          ret = 1;
          p10b = bit_or (bit_and abcdei (bit_ones 6) <<< 4) (bit_and fghj (bit_ones 4)) % 2 ^ 16;
          rd = next_rd fghj rd';
        })
