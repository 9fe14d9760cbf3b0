-- ===== src/Prelude/Ascending.antt =====
-- Lists in strictly ascending order of a key, and the first element with a key.
use Prim.Native.Nat.{ℕ, ◌≤◌, ◌<◌}
use mathlib.Core.Path.{◌≡◌, refl}
use mathlib.Core.List.{List, [], ◌∷◌}
use mathlib.Core.Option.{Option, none, some}
use native.Mathlib.Omega.{arith}
use blue_bird.Prelude.Tests.{if◌then◌else◌, ◌==◌}

module _ {ℓ} {A : Type ℓ} (key : A → ℕ) where
  -- Ascending, and above `n`.
  abbrev pub IsAbove : ℕ → List A → Type 0
  IsAbove n [] = Unit
  IsAbove n (x ∷ xs) = (n < key x) × IsAbove (key x) xs

  abbrev pub IsAscending : List A → Type 0
  IsAscending [] = Unit
  IsAscending (x ∷ xs) = IsAbove (key x) xs

  abbrev pub find : ℕ → List A → Option A
  find v [] = none
  find v (x ∷ xs) = if key x == v then some x else find v xs

  pub find-IsAbove : (v n : ℕ) (xs : List A) → IsAbove n xs → v ≤ n → find v xs ≡ none
  find-IsAbove v n [] h le = refl
  find-IsAbove v n (x ∷ xs) (lt, h) le = ground (arith, find-IsAbove v (key x) xs h)

  pub IsAbove-le : (m n : ℕ) (xs : List A) → m ≤ n → IsAbove n xs → IsAbove m xs
  IsAbove-le m n [] le h = tt
  IsAbove-le m n (x ∷ xs) le (lt, h) = (omega arith, h)

  pub IsAscending-tail : (x : A) (xs : List A) → IsAbove (key x) xs → IsAscending xs
  IsAscending-tail x [] h = tt
  IsAscending-tail x (y ∷ xs) (_, h) = h
