-- ===== src/Common/Pow.antt =====
-- Powers of two at a variable exponent, which `omega` takes for unknowns.
use Prim.Native.Nat.{ℕ, zero, suc, ◌+◌, ◌*◌, ◌/◌, ◌^◌, ◌≤◌, ◌<◌}
use mathlib.Core.Path.{◌≡◌, sym, ◌∙◌, ap}
use native.Mathlib.Nat.{pow-succ', div-div-eq-div-mul}
use native.Mathlib.Numerals.{towards_suc}
use native.Mathlib.Omega.{arith}

pub two_pow_suc : (k : ℕ) → 2 ^ suc k ≡ 2 * 2 ^ k
two_pow_suc k = pow-succ' 2 k

pub two_pow_pos : (k : ℕ) → 0 < 2 ^ k
two_pow_pos zero = omega arith
two_pow_pos (suc k) = omega (arith, two_pow_suc k, two_pow_pos k)

pub two_pow_mono : (j k : ℕ) → j ≤ k → 2 ^ j ≤ 2 ^ k
two_pow_mono zero k h = two_pow_pos k
two_pow_mono (suc j) zero h = absurd (omega arith)
two_pow_mono (suc j) (suc k) h =
    omega (arith, two_pow_suc j, two_pow_suc k, two_pow_mono j k (omega arith))

pub two_pow_lt : (k : ℕ) → k < 2 ^ k
two_pow_lt zero = omega arith
two_pow_lt (suc k) = omega (arith, two_pow_suc k, two_pow_lt k)

pub lt_of_two_pow_lt : (j k : ℕ) → 2 ^ j < 2 ^ k → j < k
lt_of_two_pow_lt j zero h = absurd (omega (arith, two_pow_pos j))
lt_of_two_pow_lt zero (suc k) h = omega arith
lt_of_two_pow_lt (suc j) (suc k) h =
    let ih = lt_of_two_pow_lt j k (omega (arith, two_pow_suc j, two_pow_suc k)) in omega arith

pub shr_suc : (x k : ℕ) → x / 2 ^ suc k ≡ x / 2 / 2 ^ k
shr_suc x k = ap (λ (t : ℕ). x / t) (two_pow_suc k) ∙ sym (div-div-eq-div-mul x 2 (2 ^ k))

pub two_pow_succ : (k : ℕ) → 2 ^ (k + 1) ≡ 2 * 2 ^ k
two_pow_succ k = simp towards_suc (two_pow_suc k)
