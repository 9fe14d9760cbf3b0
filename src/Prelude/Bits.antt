-- ===== src/Prelude/Bits.antt =====
-- Laws of `bit_xor` and `bit_or`, from the recursion on binary digits.
use Prim.Native.Nat.{
  ℕ, zero, suc, ◌+◌, ◌*◌, ◌/◌, ◌%◌, ◌≤◌, bit_xor, digits, differ, bit_xor-bitwise, bit_or,
  bit_or-bitwise, max,
}
use mathlib.Core.Path.{◌≡◌, refl, sym, ◌∙◌}
use mathlib.Core.Logic.{◌↔◌}
use native.Mathlib.Omega.{arith}

abbrev xor_digits : ℕ → ℕ → ℕ → ℕ
xor_digits n a b = digits (λ b. b) differ n a b

xor_digits-fuel : (n m a b : ℕ) → a ≤ n → a ≤ m → xor_digits n a b ≡ xor_digits m a b
xor_digits-fuel zero zero zero b p q = refl
xor_digits-fuel (suc n) zero zero b p q = refl
xor_digits-fuel zero (suc m) zero b p q = refl
xor_digits-fuel (suc n) (suc m) zero b p q = refl
xor_digits-fuel (suc n) (suc m) (suc a) b p q =
    omega (arith, xor_digits-fuel n m (suc a / 2) (b / 2) (omega arith) (omega arith))
xor_digits-fuel zero m (suc a) b p q = absurd (omega arith)
xor_digits-fuel (suc n) zero (suc a) b p q = absurd (omega arith)

zero-bit_xor : (b : ℕ) → bit_xor 0 b ≡ b
zero-bit_xor b = bit_xor-bitwise 0 b

bit_xor_step : (a b : ℕ) → bit_xor a b ≡ bit_xor (a / 2) (b / 2) * 2 + differ (a % 2) (b % 2)
bit_xor_step zero b = omega (arith, zero-bit_xor b, zero-bit_xor (b / 2))
bit_xor_step (suc a) b =
    let halves = bit_xor-bitwise (suc a / 2) (b / 2) in
    omega (
      arith,
      halves,
      bit_xor-bitwise (suc a) b,
      xor_digits-fuel a (suc a / 2) (suc a / 2) (b / 2) (omega arith) (omega arith),
    )

-- On single digits.
differ_cases : (x y : ℕ) → x ≤ 1 → y ≤ 1 → (differ x y ≤ 1) × (differ (differ x y) y ≡ x)
differ_cases zero zero p q = (omega arith, refl)
differ_cases zero (suc zero) p q = (omega arith, refl)
differ_cases (suc zero) zero p q = (omega arith, refl)
differ_cases (suc zero) (suc zero) p q = (omega arith, refl)
differ_cases (suc (suc x)) y p q = absurd (omega arith)
differ_cases x (suc (suc y)) p q = absurd (omega arith)

bit_xor_self_below : (n a : ℕ) → a ≤ n → bit_xor a a ≡ 0
bit_xor_self_below n zero h = zero-bit_xor 0
bit_xor_self_below zero (suc a) h = absurd (omega arith)
bit_xor_self_below (suc n) (suc a) h = omega (
  arith,
  bit_xor_step (suc a) (suc a),
  bit_xor_self_below n (suc a / 2) (omega arith),
  self (suc a % 2) (omega arith),
)
  where
    self : (x : ℕ) → x ≤ 1 → differ x x ≡ 0
    self zero p = refl
    self (suc zero) p = refl
    self (suc (suc x)) p = absurd (omega arith)

bit_xor_twice_below : (n a b : ℕ) → a ≤ n → bit_xor (bit_xor a b) b ≡ a
bit_xor_twice_below n zero b h = rw (zero-bit_xor b) (bit_xor_self_below b b (omega arith))
bit_xor_twice_below zero (suc a) b h = absurd (omega arith)
bit_xor_twice_below (suc n) (suc a) b h =
    let d = differ (suc a % 2) (b % 2) in
    let (small, twice) = differ_cases (suc a % 2) (b % 2) (omega arith) (omega arith) in
    let step = bit_xor_step (suc a) b in
    let x = bit_xor (suc a) b in
    let half : x / 2 ≡ bit_xor (suc a / 2) (b / 2) = omega (arith, step, small) in
    let digit : x % 2 ≡ d = omega (arith, step, small) in
    omega (
      arith,
      rw (half, digit) at (bit_xor_step x b),
      bit_xor_twice_below n (suc a / 2) (b / 2) (omega arith),
      twice,
    )

-- Masking twice with the same byte changes nothing.
pub bit_xor_twice : (a b : ℕ) → bit_xor (bit_xor a b) b ≡ a
bit_xor_twice a b = bit_xor_twice_below a a b (omega arith)

-- Bytes differ exactly if their exclusive or is not zero.
pub bit_xor_zero : (a b : ℕ) → (bit_xor a b ≡ 0) ↔ (a ≡ b)
bit_xor_zero a b = (
  λ h. sym (bit_xor_twice a b) ∙ rw (h) (zero-bit_xor b),
  λ e. rw (e) (bit_xor_self_below b b (omega arith)),
)

or_digits_zero : (n a b : ℕ) → a ≤ n → digits (λ b. b) max n a b ≡ 0 → (a ≡ 0) × (b ≡ 0)
or_digits_zero zero zero b h e = (refl, e)
or_digits_zero (suc n) zero b h e = (refl, e)
or_digits_zero (suc n) (suc a) b h e =
    let rest = or_digits_zero n (suc a / 2) (b / 2) (omega arith) (omega (arith, e)) in
    absurd (omega (arith, e, rest))
or_digits_zero zero (suc a) b h e = absurd (omega arith)

pub bit_or_zero : (a b : ℕ) → (bit_or a b ≡ 0) ↔ ((a ≡ 0) × (b ≡ 0))
bit_or_zero a b = (
  λ h. or_digits_zero a a b (omega arith) (sym (bit_or-bitwise a b) ∙ h),
  λ e. rw (e.0, e.1) (bit_or-bitwise 0 0),
)

pub zero-bit_or : (b : ℕ) → bit_or 0 b ≡ b
zero-bit_or b = bit_or-bitwise 0 b
