-- ===== src/Prelude/Removal.antt =====
-- Removing an entry of an array by moving the last one into its place, and what this does to sums
-- over the entries.
use Prim.Native.Nat.{ℕ, zero, suc, ◌+◌, ◌-◌, ◌<◌}
use native.Mathlib.Decide.{ℕ_discrete}
use mathlib.Core.Path.{◌≡◌, refl, ◌∙◌}
use mathlib.Core.Logic.{◌≢◌}
use mathlib.Core.Bool.{Bool}
use mathlib.Core.List.{List, [], ◌∷◌, ◌++◌}
use mathlib.Core.Option.{none, some}
use native.Mathlib.Omega.{arith}
use blue_bird.Prelude.Lists.{
  length, get_elem?, set, take, length-set, length-take, get_elem?-set_self, get_elem?-set_ne,
}
use blue_bird.Prelude.Counting.{count, bit, get_elem?_total, get_elem?_bound, get_elem?-take}

module _ {ℓ} {A : Type ℓ} where
  -- `a[i] = a[count - 1]; count--`; an empty array stays as it is.
  abbrev pub swap_remove : List A → ℕ → List A
  swap_remove xs i = elim (get_elem? xs (length xs - 1)) [
    | none ↦ xs
    | some last ↦ take (length xs - 1) (set xs i last)
  ]

  abbrev pub total : (A → ℕ) → List A → ℕ
  total f [] = 0
  total f (x ∷ xs) = f x + total f xs

module _ {ℓ} {A : Type ℓ} where
  pub count-total : (p : A → Bool) (xs : List A) → count p xs ≡ total (λ x. bit (p x)) xs
  count-total p [] = refl
  count-total p (x ∷ xs) = omega (arith, count-total p xs)

  pub total-append : (f : A → ℕ) (xs ys : List A) → total f (xs ++ ys) ≡ total f xs + total f ys
  total-append f [] ys = omega arith
  total-append f (x ∷ xs) ys = omega (arith, total-append f xs ys)

  -- A write trades the old entry for the new one.
  pub total-set :
      (f : A → ℕ) (xs : List A) (i : ℕ) (v x : A)
      → get_elem? xs i ≡ some x
      → total f (set xs i v) + f x ≡ total f xs + f v
  total-set f [] i v x h = absurd (cc)
  total-set f (y ∷ xs) zero v x h = ground arith
  total-set f (y ∷ xs) (suc i) v x h = omega (arith, total-set f xs i v x h)

  total-take_last :
      (f : A → ℕ) (n : ℕ) (xs : List A) (x : A)
      → length xs ≡ suc n
      → get_elem? xs n ≡ some x
      → total f (take n xs) + f x ≡ total f xs
  total-take_last f zero (y ∷ []) x e h = ground arith
  total-take_last f zero (y ∷ z ∷ xs) x e h = absurd (omega arith)
  total-take_last f (suc n) (y ∷ xs) x e h = omega (arith, total-take_last f n xs x (omega arith) h)
  total-take_last f n [] x e h = absurd (omega arith)

-- What a removal does.
pub record Removed {ℓ} {A : Type ℓ} (xs : List A) (x : A) (ys : List A) : Type ℓ where
  pub size : length xs ≡ suc (length ys)
  pub sums : (f : A → ℕ) → total f ys + f x ≡ total f xs

other : (c i : ℕ) → c < i → i ≢ c
other c i h e = absurd (omega (arith, h, e))

module _ {ℓ} {A : Type ℓ} where
  set-last :
      (xs : List A) (i n : ℕ) (last : A)
      → i < length xs
      → get_elem? xs n ≡ some last
      → get_elem? (set xs i last) n ≡ some last
  set-last xs i n last h e = elim (ℕ_discrete i n) [
    | yes same ↦ rw (← same) (get_elem?-set_self xs i last h)
    | no other ↦ get_elem?-set_ne xs last other ∙ e
  ]

  pub swap_remove-Removed :
      (xs : List A) (i : ℕ) (x : A) → get_elem? xs i ≡ some x → Removed xs x (swap_remove xs i)
  swap_remove-Removed xs i x e =
      let n = length xs - 1 in
      let within = get_elem?_bound xs i x e in
      let (last, f) = get_elem?_total xs n (omega (arith, within)) in
      let ys = set xs i last in
      let sized = length-set xs i last in
      rw (f, swap_remove)
        (record {
          size = omega (arith, within, sized, length-take n ys);
          sums = λ g. omega (
            arith,
            total-set g xs i last x e,
            total-take_last g n ys last (omega (arith, within, sized))
                (set-last xs i n last within f),
          );
        })

  -- The entries in front of the removed one stay where they are.
  pub get_elem?-swap_remove :
      (xs : List A) (i c : ℕ)
      → i < length xs
      → c < i
      → get_elem? (swap_remove xs i) c ≡ get_elem? xs c
  get_elem?-swap_remove xs i c h k =
      let n = length xs - 1 in
      let (last, f) = get_elem?_total xs n (omega (arith, h)) in
      rw (f, swap_remove)
        (get_elem?-take n (set xs i last) c (omega arith) ∙ get_elem?-set_ne xs last (other c i k))

  -- Entries that add nothing.
  pub total_zero :
      (f : A → ℕ) (xs : List A)
      → ((c : ℕ) (x : A) → get_elem? xs c ≡ some x → f x ≡ 0)
      → total f xs ≡ 0
  total_zero f [] h = refl
  total_zero f (x ∷ xs) h = omega (arith, h 0 x refl, total_zero f xs (λ c y e. h (suc c) y e))
