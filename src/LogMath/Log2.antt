-- ===== src/LogMath/Log2.antt =====
-- `log2` and `root` on u64 values.
use ru_kt.Common.{
  ℕ, zero, suc, ◌+◌, ◌*◌, ◌/◌, ◌^◌, ◌≤◌, ◌<◌, ◌≡◌, refl, arith, Bool-cases, ap, sym, ◌∙◌, inl, inr,
  ◌==◌, ==_iff,
}
use ru_kt.Common.Pow.{two_pow_suc, two_pow_pos, lt_of_two_pow_lt}
use ru_kt.LogMath.{shl, bit_length, leading_zeros, log2, root}
use ru_kt.LogMath.Node.{shl_one}

bit_length_zero : (f : ℕ) → bit_length f 0 ≡ 0
unfolding bit_length
bit_length_zero zero = refl
bit_length_zero (suc f) = refl

bit_length_bounds :
    (f n : ℕ)
    → n < 2 ^ f
    → 0 < n
    → (2 ^ bit_length f n ≤ 2 * n) × (n < 2 ^ bit_length f n) × (0 < bit_length f n)
unfolding bit_length
bit_length_bounds zero n h p = absurd (omega arith)
bit_length_bounds (suc f) n h p = elim (Bool-cases (n / 2 == 0)) [
  | inl e ↦
      let z : n / 2 ≡ 0 = (==_iff (n / 2) 0).0 e in
      let one : n ≡ 1 = omega arith in
      rw (one, bit_length_zero f) (omega arith, omega arith, omega arith)
  | inr e ↦
      let ih = bit_length_bounds f (n / 2) (omega (arith, two_pow_suc f)) (ground arith) in
      ground (arith, ih, two_pow_suc (bit_length f (n / 2)))
]

log2_round : (n : ℕ) → n < 2 ^ 64 → 0 < n → suc (log2 n) ≡ bit_length 64 n
unfolding log2 leading_zeros
log2_round n h p =
    let (lo, hi, pos) = bit_length_bounds 64 n h p in
    let top = lt_of_two_pow_lt (bit_length 64 n) 65 (omega arith) in ground arith

-- The highest digit of a positive u64.
pub log2_bounds :
    (n : ℕ) → n < 2 ^ 64 → 0 < n → (2 ^ log2 n ≤ n) × (n < 2 * 2 ^ log2 n) × (log2 n < 64)
log2_bounds n h p =
    let (lo, hi, pos) = bit_length_bounds 64 n h p in
    let top = lt_of_two_pow_lt (bit_length 64 n) 65 (omega arith) in
    let e = log2_round n h p in
    let double : 2 ^ bit_length 64 n ≡ 2 * 2 ^ log2 n =
      ap (λ (t : ℕ). 2 ^ t) (sym e) ∙ two_pow_suc (log2 n) in
    (omega arith, omega arith, omega arith)

-- Only one power of two is the highest in n.
pub log2_unique : (n k : ℕ) → n < 2 ^ 64 → 2 ^ k ≤ n → n < 2 * 2 ^ k → log2 n ≡ k
log2_unique n k h lo hi =
    let (lo', hi', _) = log2_bounds n h (omega (arith, two_pow_pos k)) in
    let a = lt_of_two_pow_lt k (suc (log2 n)) (omega (arith, two_pow_suc (log2 n))) in
    let b = lt_of_two_pow_lt (log2 n) (suc k) (omega (arith, two_pow_suc k)) in omega arith

pub root_lem : (n : ℕ) → n < 2 ^ 64 → 0 < n → root n + 1 ≡ 2 ^ log2 n
unfolding root
root_lem n h p =
    let (_, _, low) = log2_bounds n h p in
    ground (arith, shl_one (log2 n) low, two_pow_pos (log2 n))

pub shl-log2 : (n : ℕ) → n < 2 ^ 64 → 0 < n → shl 1 (log2 n) ≡ 2 ^ log2 n
shl-log2 n h p = shl_one (log2 n) (log2_bounds n h p).2
