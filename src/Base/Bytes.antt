-- ===== src/Base/Bytes.antt =====
-- Bitwise "or" and "exclusive or" at zero, at every width.
use Prim.Native.Nat.{
  ℕ, zero, suc, ◌+◌, ◌*◌, ◌/◌, ◌%◌, ◌≤◌, max, bit_or, bit_xor, digits, differ, bit_or-bitwise,
  bit_xor-bitwise,
}
use mathlib.Core.Path.{◌≡◌, refl, sym, ap}
use native.Mathlib.Omega.{arith}

-- One digit after another, by any operation on digits: the fuel beyond the number is not used.
module _ (op : ℕ → ℕ → ℕ) where
  digits_fuel : (n m a b : ℕ) → a ≤ n → a ≤ m → digits (λ b. b) op n a b ≡ digits (λ b. b) op m a b
  digits_fuel zero zero a b h k = refl
  digits_fuel zero (suc m) zero b h k = refl
  digits_fuel zero (suc m) (suc a) b h k = absurd (omega arith)
  digits_fuel (suc n) zero zero b h k = refl
  digits_fuel (suc n) zero (suc a) b h k = absurd (omega arith)
  digits_fuel (suc n) (suc m) zero b h k = refl
  digits_fuel (suc n) (suc m) (suc a) b h k =
      omega (arith, digits_fuel n m (suc a / 2) (b / 2) (omega arith) (omega arith))

pub zero-bit_or : (b : ℕ) → bit_or 0 b ≡ b
zero-bit_or b = bit_or-bitwise 0 b

zero-bit_xor : (b : ℕ) → bit_xor 0 b ≡ b
zero-bit_xor b = bit_xor-bitwise 0 b

bit_or_step : (a b : ℕ) → bit_or a b ≡ bit_or (a / 2) (b / 2) * 2 + max (a % 2) (b % 2)
bit_or_step zero b = omega (arith, zero-bit_or b, zero-bit_or (b / 2))
bit_or_step (suc a) b = omega (
  arith,
  bit_or-bitwise (suc a) b,
  bit_or-bitwise (suc a / 2) (b / 2),
  digits_fuel max a (suc a / 2) (suc a / 2) (b / 2) (omega arith) (omega arith),
)

bit_xor_step : (a b : ℕ) → bit_xor a b ≡ bit_xor (a / 2) (b / 2) * 2 + differ (a % 2) (b % 2)
bit_xor_step zero b = omega (arith, zero-bit_xor b, zero-bit_xor (b / 2))
bit_xor_step (suc a) b = omega (
  arith,
  bit_xor-bitwise (suc a) b,
  bit_xor-bitwise (suc a / 2) (b / 2),
  digits_fuel differ a (suc a / 2) (suc a / 2) (b / 2) (omega arith) (omega arith),
)

bit_or-eq-zero_fuel : (n a b : ℕ) → a ≤ n → bit_or a b ≡ 0 → (a ≡ 0) × (b ≡ 0)
bit_or-eq-zero_fuel n zero b h e = omega (arith, zero-bit_or b)
bit_or-eq-zero_fuel zero (suc a) b h e = absurd (omega arith)
bit_or-eq-zero_fuel (suc n) (suc a) b h e = omega (
  arith,
  bit_or_step (suc a) b,
  bit_or-eq-zero_fuel n (suc a / 2) (b / 2) (omega arith) (omega (arith, bit_or_step (suc a) b)),
)

-- Two numbers whose bitwise "or" is zero are both zero.
pub bit_or-eq-zero : (a b : ℕ) → bit_or a b ≡ 0 → (a ≡ 0) × (b ≡ 0)
bit_or-eq-zero a b = bit_or-eq-zero_fuel a a b (omega arith)

differ-eq-zero : (x y : ℕ) → differ x y ≡ 0 → x ≡ y
differ-eq-zero zero y h = sym h
differ-eq-zero (suc x) zero h = h
differ-eq-zero (suc x) (suc y) h = ap suc (differ-eq-zero x y h)

differ_self : (x : ℕ) → differ x x ≡ 0
differ_self zero = refl
differ_self (suc x) = differ_self x

bit_xor-eq-zero_fuel : (n a b : ℕ) → a ≤ n → bit_xor a b ≡ 0 → a ≡ b
bit_xor-eq-zero_fuel n zero b h e = omega (arith, zero-bit_xor b)
bit_xor-eq-zero_fuel zero (suc a) b h e = absurd (omega arith)
bit_xor-eq-zero_fuel (suc n) (suc a) b h e =
    let step = bit_xor_step (suc a) b in
    omega (
      arith,
      bit_xor-eq-zero_fuel n (suc a / 2) (b / 2) (omega arith) (omega (arith, step)),
      differ-eq-zero (suc a % 2) (b % 2) (omega (arith, step)),
    )

-- Two numbers whose exclusive "or" is zero are equal.
pub bit_xor-eq-zero : (a b : ℕ) → bit_xor a b ≡ 0 → a ≡ b
bit_xor-eq-zero a b = bit_xor-eq-zero_fuel a a b (omega arith)

bit_xor-self_fuel : (n a : ℕ) → a ≤ n → bit_xor a a ≡ 0
bit_xor-self_fuel n zero h = zero-bit_xor 0
bit_xor-self_fuel zero (suc a) h = absurd (omega arith)
bit_xor-self_fuel (suc n) (suc a) h = omega (
  arith,
  bit_xor_step (suc a) (suc a),
  bit_xor-self_fuel n (suc a / 2) (omega arith),
  differ_self (suc a % 2),
)

pub bit_xor_self : (a : ℕ) → bit_xor a a ≡ 0
bit_xor_self a = bit_xor-self_fuel a a (omega arith)
