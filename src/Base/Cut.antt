-- ===== src/Base/Cut.antt =====
-- Lists cut in two: how long the parts are, and where nothing is cut off.
use Prim.Native.Nat.{ℕ, zero, suc, ◌-◌, ◌≤◌}
use mathlib.Core.Path.{◌≡◌, refl, ap, subst, ◌∙◌}
use mathlib.Core.List.{List, [], ◌∷◌, ◌++◌}
use native.Mathlib.Omega.{arith}
use psplay.Base.Lists.{length, take, drop, take-append}

module _ {ℓ} {A : Type ℓ} where
  pub length-drop : (i : ℕ) (xs : List A) → length (drop i xs) ≡ length xs - i
  length-drop zero xs = omega arith
  length-drop (suc i) [] = omega arith
  length-drop (suc i) (x ∷ xs) = length-drop i xs ∙ omega arith

  pub length-take : (i : ℕ) (xs : List A) → i ≤ length xs → length (take i xs) ≡ i
  length-take zero xs h = refl
  length-take (suc i) [] h = absurd (omega arith)
  length-take (suc i) (x ∷ xs) h = ap suc (length-take i xs (omega arith))

  pub take-all : (i : ℕ) (xs : List A) → length xs ≤ i → take i xs ≡ xs
  take-all zero [] h = refl
  take-all zero (x ∷ xs) h = absurd (omega arith)
  take-all (suc i) [] h = refl
  take-all (suc i) (x ∷ xs) h = ap (λ l. x ∷ l) (take-all i xs (omega arith))

  pub nil_of_length : (xs : List A) → length xs ≡ 0 → xs ≡ []
  nil_of_length [] h = refl
  nil_of_length (x ∷ xs) h = absurd (omega arith)

  pub drop-all : (i : ℕ) (xs : List A) → length xs ≤ i → drop i xs ≡ []
  drop-all i xs h = nil_of_length (drop i xs) (length-drop i xs ∙ omega arith)

  pub take-front : (i : ℕ) (xs ys : List A) → length xs ≡ i → take i (xs ++ ys) ≡ xs
  take-front i xs ys e = subst (λ (j : ℕ). take j (xs ++ ys) ≡ xs) e (take-append xs ys)
