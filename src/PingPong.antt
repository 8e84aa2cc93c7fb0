-- ===== src/PingPong.antt =====
-- ping_pong_buf.h and ping_pong_buf.c: two buffers between one writer and one reader.
pub mod System
pub mod Queue
pub mod Writer
pub mod Reader
pub mod Order
pub mod Sleeping
pub mod Awake
pub mod Tests
use psplay.Base.{ℕ, Bool, true, false, Option, none, some}

-- PPBUF_STATE_FREE and PPBUF_STATE_ACTIVE
pub data State : Type 0 where
  free active : State

-- The two values of `buf_readi` and `buf_writei`; `other i` is `1 - i`.
pub data Side : Type 0 where
  side_0 side_1 : Side

abbrev pub other : Side → Side
other side_0 = side_1
other side_1 = side_0

abbrev pub is_active : State → Bool
is_active free = false
is_active active = true

-- An array of two.
pub record Pair {ℓ} (A : Type ℓ) : Type ℓ where
  pub at_0 : A
  pub at_1 : A

abbrev pub pair_at {ℓ} : {A : Type ℓ} → Pair A → Side → A
pair_at p side_0 = p.at_0
pair_at p side_1 = p.at_1

abbrev pub pair_set {ℓ} : {A : Type ℓ} → Pair A → Side → A → Pair A
pair_set p side_0 a = record p { at_0 = a }
pair_set p side_1 a = record p { at_1 = a }

module _ (A : Type 0) where
  -- `ppbuf_t`, with a buffer's contents as one value.
  pub record PpBuf : Type 0 where
    pub buf : Pair A
    pub buf_state : Pair State
    pub buf_readi : Side
    pub buf_writei : Side

module _ {A : Type 0} where
  -- `ppbuf_init` after two allocations that succeed and leave any contents.
  unfoldable pub init : Pair A → PpBuf A
  init buf = record {
    buf = buf;
    buf_state = record { at_0 = free; at_1 = free };
    buf_readi = side_0;
    buf_writei = side_0;
  }

  -- `ppbuf_init` with what its two allocations give; `none` is the return value -1.
  pub allocate : Option A → Option A → Option (PpBuf A)
  allocate none second = none
  allocate (some first) none = none
  allocate (some first) (some second) = some (init (record { at_0 = first; at_1 = second }))

  unfoldable pub get_state : PpBuf A → Side → State
  get_state b i = pair_at b.buf_state i

  -- The signal that goes with it wakes the other thread in Sleeping.
  unfoldable pub set_state : PpBuf A → Side → State → PpBuf A
  set_state b i target = record b { buf_state = pair_set b.buf_state i target }

  unfoldable pub read_available : PpBuf A → Bool
  read_available b = is_active (get_state b b.buf_readi)

  unfoldable pub write_available : PpBuf A → Bool
  write_available b = elim (get_state b b.buf_writei) [ free ↦ true | active ↦ false ]

  -- The side whose buffer the caller is given; `none` where it has to sleep, which Sleeping has.
  unfoldable pub write_begin : PpBuf A → Option Side
  write_begin b = elim (get_state b b.buf_writei) [ free ↦ some b.buf_writei | active ↦ none ]

  unfoldable pub read_begin : PpBuf A → Option Side
  read_begin b = elim (get_state b b.buf_readi) [ active ↦ some b.buf_readi | free ↦ none ]

  -- The two halves of `ppbuf_buf_write_done` and of `ppbuf_buf_read_done`: between them the other
  -- thread may run.
  unfoldable pub write_done_set : PpBuf A → PpBuf A
  write_done_set b = set_state b b.buf_writei active

  unfoldable pub write_done_turn : PpBuf A → PpBuf A
  write_done_turn b = record b { buf_writei = other b.buf_writei }

  unfoldable pub read_done_set : PpBuf A → PpBuf A
  read_done_set b = set_state b b.buf_readi free

  unfoldable pub read_done_turn : PpBuf A → PpBuf A
  read_done_turn b = record b { buf_readi = other b.buf_readi }
