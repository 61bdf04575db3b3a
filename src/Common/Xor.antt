-- ===== src/Common/Xor.antt =====
-- `bit_xor` at variables, from its lowest digit.
use Prim.Native.Nat.{
  ℕ, zero, suc, ◌+◌, ◌*◌, ◌/◌, ◌%◌, ◌≤◌, bit_xor, digits, differ, bit_xor-bitwise,
}
use mathlib.Core.Path.{◌≡◌, refl}
use native.Mathlib.Omega.{arith}

abbrev xor_digits : ℕ → ℕ → ℕ → ℕ
xor_digits n a b = digits (λ b. b) differ n a b

xor_digits_fuel : (n m a b : ℕ) → a ≤ n → a ≤ m → xor_digits n a b ≡ xor_digits m a b
xor_digits_fuel zero zero a b p q = refl
xor_digits_fuel zero (suc m) zero b p q = refl
xor_digits_fuel zero (suc m) (suc a) b p q = absurd (omega arith)
xor_digits_fuel (suc n) zero zero b p q = refl
xor_digits_fuel (suc n) zero (suc a) b p q = absurd (omega arith)
xor_digits_fuel (suc n) (suc m) zero b p q = refl
xor_digits_fuel (suc n) (suc m) (suc a) b p q =
    omega (arith, xor_digits_fuel n m (suc a / 2) (b / 2) (omega arith) (omega arith))

pub zero-bit_xor : (b : ℕ) → bit_xor 0 b ≡ b
zero-bit_xor b = bit_xor-bitwise 0 b

-- The digits of a sum of a double and a digit.
pub bit_xor_step : (a b : ℕ) → bit_xor a b ≡ bit_xor (a / 2) (b / 2) * 2 + differ (a % 2) (b % 2)
bit_xor_step zero b = omega (arith, zero-bit_xor b, zero-bit_xor (b / 2))
bit_xor_step (suc a) b = omega (
  arith,
  bit_xor-bitwise (suc a) b,
  bit_xor-bitwise (suc a / 2) (b / 2),
  xor_digits_fuel a (suc a / 2) (suc a / 2) (b / 2) (omega arith) (omega arith),
)

differ-zero : (d : ℕ) → differ d 0 ≡ d
differ-zero zero = refl
differ-zero (suc d) = refl

bit_xor-zero_fuel : (n a : ℕ) → a ≤ n → bit_xor a 0 ≡ a
bit_xor-zero_fuel n zero h = refl
bit_xor-zero_fuel zero (suc a) h = absurd (omega arith)
bit_xor-zero_fuel (suc n) (suc a) h = omega (
  arith,
  bit_xor_step (suc a) 0,
  bit_xor-zero_fuel n (suc a / 2) (omega arith),
  differ-zero (suc a % 2),
)

pub bit_xor-zero : (a : ℕ) → bit_xor a 0 ≡ a
bit_xor-zero a = bit_xor-zero_fuel a a (omega arith)

-- The step at numbers whose lowest digits are known.
bit_xor_digits :
    (x y a b d e : ℕ)
    → x / 2 ≡ a
    → y / 2 ≡ b
    → x % 2 ≡ d
    → y % 2 ≡ e
    → bit_xor x y ≡ bit_xor a b * 2 + differ d e
bit_xor_digits x y a b d e ha hb hd he = rw (bit_xor_step x y, ha, hb, hd, he) refl

pub bit_xor-even_even : (a b : ℕ) → bit_xor (2 * a) (2 * b) ≡ 2 * bit_xor a b
bit_xor-even_even a b = omega (
  arith,
  bit_xor_digits (2 * a) (2 * b) a b 0 0 (omega arith) (omega arith) (omega arith) (omega arith),
)

pub bit_xor-odd_even : (a b : ℕ) → bit_xor (2 * a + 1) (2 * b) ≡ 2 * bit_xor a b + 1
bit_xor-odd_even a b = omega (
  arith,
  bit_xor_digits (2 * a + 1) (2 * b) a b 1 0 (omega arith) (omega arith) (omega arith)
      (omega arith),
)

pub bit_xor-even_odd : (a b : ℕ) → bit_xor (2 * a) (2 * b + 1) ≡ 2 * bit_xor a b + 1
bit_xor-even_odd a b = omega (
  arith,
  bit_xor_digits (2 * a) (2 * b + 1) a b 0 1 (omega arith) (omega arith) (omega arith)
      (omega arith),
)

pub bit_xor-odd_odd : (a b : ℕ) → bit_xor (2 * a + 1) (2 * b + 1) ≡ 2 * bit_xor a b
bit_xor-odd_odd a b = omega (
  arith,
  bit_xor_digits (2 * a + 1) (2 * b + 1) a b 1 1 (omega arith) (omega arith) (omega arith)
      (omega arith),
)
