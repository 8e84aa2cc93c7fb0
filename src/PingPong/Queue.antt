-- ===== src/PingPong/Queue.antt =====
-- Every state that the threads of a ping-pong buffer (ping_pong_buf.c) reach, drawn as a queue of at
-- most two values.
use psplay.Base.{Option, none, some, ◌⊎◌, List, [], ◌∷◌, ◌++◌, ◌≡◌, drop}
use psplay.PingPong.{State, free, active, Side, side_0, side_1, other, Pair, PpBuf}
use psplay.PingPong.System.{Stage, outside, holding, served, turning, System}

-- How many values are queued.
pub data Count : Type 0 where
  none_queued one_queued two_queued : Count

-- The first entry of a pair stands at the side given.
abbrev pub place {ℓ} : {A : Type ℓ} → Side → A → A → Pair A
place side_0 x y = record { at_0 = x; at_1 = y }
place side_1 x y = record { at_0 = y; at_1 = x }

abbrev pub states : Side → Count → Pair State
states i none_queued = place i free free
states i one_queued = place i active free
states i two_queued = place i active active

-- Where the next value goes.
abbrev pub tail : Side → Count → Side
tail i none_queued = i
tail i one_queued = other i
tail i two_queued = i

-- A thread between the halves of `done` still has the index of the buffer that it is done with.
abbrev pub behind : Stage → Side → Side
behind outside i = i
behind holding i = i
behind served i = i
behind turning i = other i

abbrev pub MayWrite : Count → Stage → Type 0
MayWrite two_queued holding = ⊥
MayWrite two_queued served = ⊥
MayWrite two_queued outside = Unit
MayWrite two_queued turning = Unit
MayWrite one_queued w = Unit
MayWrite none_queued w = Unit

abbrev pub MayRead : Count → Stage → Type 0
MayRead none_queued holding = ⊥
MayRead none_queued served = ⊥
MayRead none_queued outside = Unit
MayRead none_queued turning = Unit
MayRead one_queued r = Unit
MayRead two_queued r = Unit

module _ {A : Type 0} where
  abbrev pub queued : Count → A → A → List A
  queued none_queued x y = []
  queued one_queued x y = x ∷ []
  queued two_queued x y = x ∷ y ∷ []

  -- The values that the reader has not looked at.
  abbrev pub pending : Count → A → A → Stage → List A
  pending n x y outside = queued n x y
  pending n x y holding = queued n x y
  pending n x y served = drop 1 (queued n x y)
  pending n x y turning = queued n x y

  -- The buffer whose queue starts at side `i`.
  abbrev pub laid_out : Side → Count → A → A → Stage → Stage → PpBuf A
  laid_out i n x y w r = record {
    buf = place i x y;
    buf_state = states i n;
    buf_readi = behind r i;
    buf_writei = behind w (tail i n);
  }

  abbrev pub drawn : Side → Count → A → A → Stage → Stage → List A → List A → System A
  drawn i n x y w r sent received = record {
    pp = laid_out i n x y w r;
    writer = w;
    reader = r;
    sent = sent;
    received = received;
  }

  -- The invariant.
  pub data IsDrawn : System A → Type 0 where
    as_drawn :
        (i : Side) (n : Count) (x y : A) (w r : Stage) (sent received : List A)
        → MayWrite n w
        → MayRead n r
        → sent ≡ received ++ pending n x y r
        → IsDrawn (drawn i n x y w r sent received)

  -- A step that is taken leads to a state as drawn.
  abbrev pub Leads : Option (System A) → Type 0
  Leads o = (o ≡ none) ⊎ ((s : System A) × (o ≡ some s) × IsDrawn s)
