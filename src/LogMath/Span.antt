-- ===== src/LogMath/Span.antt =====
-- The entries below a node of the implicit search tree: the root among n entries from a place on, and
-- the distances that powers of two keep.
use ru_kt.Common.{ℕ, suc, ◌+◌, ◌*◌, ◌^◌, ◌≤◌, ◌<◌, ◌≡◌, arith, ap, ◌∙◌}
use ru_kt.Common.Pow.{two_pow_suc, two_pow_mono, lt_of_two_pow_lt}
use ru_kt.LogMath.{shl, log2}
use ru_kt.LogMath.Log2.{log2_bounds, shl-log2}
use ru_kt.LogMath.Roots.{two_pow_split}
use native.Mathlib.Decide.{dec_lt}

times_lt : (c u v : ℕ) → c * u < c * v → u < v
times_lt c u v h = grind arith

times_le : (c u v : ℕ) → u ≤ v → c * u ≤ c * v
times_le c u v h = grind arith

-- A multiple of 2 ^ k strictly between neighbouring multiples of 2 ^ l keeps a distance of 2 ^ k.
pub gap :
    (k l p s : ℕ)
    → 2 ^ l * s < 2 ^ k * p
    → 2 ^ k * p < 2 ^ l * (s + 1)
    → (2 ^ l * s + 2 ^ k ≤ 2 ^ k * p) × (2 ^ k * p + 2 ^ k ≤ 2 ^ l * (s + 1))
gap k l p s lo hi = elim (dec_lt k l) [
  | yes lt ↦
      let (c, e) = two_pow_split k l (omega arith) in
      let e1 : 2 ^ l * s ≡ 2 ^ k * (c * s) = ap (λ (t : ℕ). t * s) e ∙ omega arith in
      let e2 : 2 ^ l * (s + 1) ≡ 2 ^ k * (c * (s + 1)) =
        ap (λ (t : ℕ). t * (s + 1)) e ∙ omega arith in
      let a = times_lt (2 ^ k) (c * s) p (omega arith) in
      let b = times_lt (2 ^ k) p (c * (s + 1)) (omega arith) in
      (
        omega (arith, times_le (2 ^ k) (c * s + 1) p (omega arith)),
        omega (arith, times_le (2 ^ k) (p + 1) (c * (s + 1)) (omega arith)),
      )
  | no ge ↦
      let (c, e) = two_pow_split l k (omega arith) in
      let e1 : 2 ^ k * p ≡ 2 ^ l * (c * p) = ap (λ (t : ℕ). t * p) e ∙ omega arith in
      let a = times_lt (2 ^ l) s (c * p) (omega arith) in
      let b = times_lt (2 ^ l) (c * p) (s + 1) (omega arith) in absurd (omega arith)
]

-- One round on the n entries from o on: the root, which has 2 ^ l - 1 entries to its left.
pub record Round (n b o : ℕ) : Type 0 where
  pub l : ℕ
  pub j : ℕ
  pub size : shl 1 (log2 n) ≡ 2 ^ l
  pub offset : o ≡ 2 ^ l * (2 * j)
  pub falls : l < b
  pub fits : 2 ^ l ≤ n
  pub rest : n < 2 * 2 ^ l

pub round : (n b o q : ℕ) → n < 2 ^ b → b ≤ 62 → o ≡ 2 ^ b * q → 0 < n → Round n b o
round n b o q hb h e p = record {
  l = log2 n;
  j = c * q;
  size = shl-log2 n small p;
  offset =
      e
      ∙ ap (λ (t : ℕ). t * q) (split.1 ∙ ap (λ (t : ℕ). t * c) (two_pow_suc (log2 n)))
      ∙ omega arith;
  falls = lt;
  fits = bounds.0;
  rest = bounds.1;
}
  where
    small : n < 2 ^ 64
    small = omega (arith, two_pow_mono b 62 h)

    bounds : (2 ^ log2 n ≤ n) × (n < 2 * 2 ^ log2 n) × (log2 n < 64)
    bounds = log2_bounds n small p

    lt : log2 n < b
    lt = lt_of_two_pow_lt (log2 n) b (omega (arith, bounds.0))

    split : (c : ℕ) × (2 ^ b ≡ 2 ^ suc (log2 n) * c)
    split = two_pow_split (suc (log2 n)) b (omega (arith, lt))

    c : ℕ
    c = split.0
