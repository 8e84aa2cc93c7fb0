-- ===== src/BitbangPlayer/Handed.antt =====
-- What holds of every block that a writer (`main` in psplay.c) has for a player (bitbang_player.c) holds of
-- those it has handed over.
use psplay.Base.{
  ℕ, zero, suc, ◌≡◌, sym, ap₂, inl, inr, some, Option-cases, List, [], ◌∷◌, ◌++◌, All, get_elem?,
  subst,
}
use psplay.PingPong.{pair_at, write_begin}
use psplay.PingPong.System.{Stage, outside, holding, served, turning, step_writer}
use psplay.BitbangPlayer.{Doubles, Player, tick_cb_func}
use psplay.BitbangPlayer.Playing.{Playing}
use psplay.BitbangPlayer.Boundary.{with_player}
use psplay.BitbangPlayer.Feeding.{at_writer}
use psplay.BitbangPlayer.Fed.{stepped, pair_at-set, tick-keeps}

All-append {ℓ} :
    {A : Type ℓ} (P : A → Type 0) (xs ys : List A) → All P xs → All P ys → All P (xs ++ ys)
All-append P [] ys h k = k
All-append P (x ∷ xs) ys (p, h) k = (p, All-append P xs ys h k)

pub All-front {ℓ} : {A : Type ℓ} (P : A → Type 0) (xs ys : List A) → All P (xs ++ ys) → All P xs
All-front P [] ys h = tt
All-front P (x ∷ xs) ys (p, h) = (p, All-front P xs ys h)

pub All-middle {ℓ} :
    {A : Type ℓ} (P : A → Type 0) (xs : List A) (y : A) (ys : List A) → All P (xs ++ y ∷ ys) → P y
All-middle P [] y ys (p, h) = p
All-middle P (x ∷ xs) y ys (p, h) = All-middle P xs y ys h

injected {ℓ} : {A : Type ℓ} (a b : A) → some a ≡ some b → a ≡ b
injected a b e = cc

pub All-at {ℓ} :
    {A : Type ℓ} (P : A → Type 0) (xs : List A) (i : ℕ) (x : A)
    → All P xs
    → get_elem? xs i ≡ some x
    → P x
All-at P [] i x h e = cc
All-at P (y ∷ xs) zero x (p, h) e = subst P (injected y x e) p
All-at P (y ∷ xs) (suc i) x (p, h) e = All-at P xs i x h e

module _ {Double : Type 0} (Q : List Double → Type 0) where
  -- Of the blocks handed over, and of the one about to be.
  abbrev pub Handed : Stage → Playing Double → Type 0
  Handed outside s = All Q s.sent
  Handed holding s = All Q s.sent
  Handed served s = All Q s.sent × Q (at_writer s)
  Handed turning s = All Q s.sent

  pub Handed-sent : (w : Stage) (s : Playing Double) → Handed w s → All Q s.sent
  Handed-sent outside s v = v
  Handed-sent holding s v = v
  Handed-sent served s v = v.0
  Handed-sent turning s v = v

  begun-Handed :
      (a : List Double) (s : Playing Double)
      → s.writer ≡ outside
      → All Q s.sent
      → Handed (stepped a outside s).writer (stepped a outside s)
  unfolding step_writer
  begun-Handed a s e v = elim (Option-cases (write_begin s.player.ppbuf)) [
    | inl asleep ↦ rw asleep (subst (λ w. Handed w s) (sym e) v)
    | inr (i, at) ↦ rw at v
  ]

  pub stepped-Handed :
      (a : List Double) (w : Stage) (s : Playing Double)
      → s.writer ≡ w
      → Q a
      → Handed w s
      → Handed (stepped a w s).writer (stepped a w s)
  unfolding step_writer
  stepped-Handed a outside s e q v = begun-Handed a s e v
  stepped-Handed a holding s e q v =
      (v, subst Q (sym (pair_at-set s.player.ppbuf.buf s.player.ppbuf.buf_writei a)) q)
  stepped-Handed a served s e q (v, last) = All-append Q s.sent (at_writer s ∷ []) v (last, tt)
  stepped-Handed a turning s e q v = v

  pub ticked-Handed :
      (D : Doubles Double) (w : Stage) (s : Playing Double) (p : Player Double)
      → tick_cb_func D s.player ≡ some p
      → Handed w s
      → Handed w (with_player s p)
  ticked-Handed D outside s p e v = v
  ticked-Handed D holding s p e v = v
  ticked-Handed D turning s p e v = v
  ticked-Handed D served s p e (v, last) =
      let (same_buf, same_writei) = tick-keeps D s.player p e in
      (v, subst (λ b. Q b) (sym (ap₂ (λ b i. pair_at b i) same_buf same_writei)) last)
