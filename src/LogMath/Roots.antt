-- ===== src/LogMath/Roots.antt =====
-- The full subtrees of a log of n leaves.
use ru_kt.Common.{
  ℕ, zero, suc, ◌+◌, ◌-◌, ◌*◌, ◌^◌, ◌≤◌, ◌<◌, ◌≡◌, arith, ap, sym, ◌∙◌, List, [], ◌∷◌, false, ◌==◌,
}
use ru_kt.Common.Pow.{two_pow_suc, two_pow_pos, two_pow_mono, lt_of_two_pow_lt}
use ru_kt.LogMath.{shl, level, log2, root, leftmost_leaf_index, get_roots_loop, get_roots}
use ru_kt.LogMath.Node.{node, node_closed, level-node, leftmost_leaf_index-node}
use ru_kt.LogMath.Log2.{log2_bounds, log2_unique, root_lem, shl-log2}
use native.Mathlib.Nat.{zero-add}

-- The nodes of the list cover the leaves from a up to b, from left to right and with no gap, each
-- lower than the one before it and lower than `top`.
abbrev pub Tiles : ℕ → ℕ → ℕ → List ℕ → Type 0
Tiles top a b [] = a ≡ b
Tiles top a b (r ∷ rs) =
    (level r < top) × (leftmost_leaf_index r ≡ a) × Tiles (level r) (a + 2 ^ level r) b rs

pub two_pow_split : (j k : ℕ) → j ≤ k → (c : ℕ) × (2 ^ k ≡ 2 ^ j * c)
two_pow_split zero k h = (2 ^ k, omega arith)
two_pow_split (suc j) zero h = absurd (omega arith)
two_pow_split (suc j) (suc k) h =
    let (c, e) = two_pow_split j k (omega arith) in
    (
      c,
      two_pow_suc k
          ∙ ap (λ (t : ℕ). 2 * t) e
          ∙ omega (arith, ap (λ (t : ℕ). t * c) (two_pow_suc j)),
    )

-- A power of two times q, as the place of the q-th subtree of that size.
root-node : (l q r : ℕ) → r + 1 ≡ 2 ^ l → r + 2 ^ l * q * 2 ≡ node l q
root-node l q r h = omega (arith, node_closed l q)

root-two_pow : (l : ℕ) → l < 64 → root (2 ^ l) + 1 ≡ 2 ^ l
root-two_pow l h =
    let big = two_pow_mono l 63 (omega arith) in
    root_lem (2 ^ l) (omega arith) (two_pow_pos l)
    ∙ ap (λ (t : ℕ). 2 ^ t)
        (log2_unique (2 ^ l) l (omega arith) (omega arith) (omega (arith, two_pow_pos l)))

-- One round: the highest full subtree, of 2 ^ l leaves from offset o on.
pub record Round (n b o : ℕ) : Type 0 where
  pub l : ℕ
  pub q : ℕ
  pub size : shl 1 (log2 n) ≡ 2 ^ l
  pub offset : o ≡ 2 ^ l * q
  pub falls : l < b
  pub fits : 2 ^ l ≤ n
  pub rest : n < 2 * 2 ^ l

pub round : (n b o q : ℕ) → n < 2 ^ b → b ≤ 64 → o ≡ 2 ^ b * q → 0 < n → Round n b o
round n b o q hb h e p = record {
  l = log2 n;
  q = c * q;
  size = shl-log2 n small p;
  offset = e ∙ ap (λ (t : ℕ). t * q) (split.1) ∙ omega arith;
  falls = lt;
  fits = bounds.0;
  rest = bounds.1;
}
  where
    small : n < 2 ^ 64
    small = omega (arith, two_pow_mono b 64 h)

    bounds : (2 ^ log2 n ≤ n) × (n < 2 * 2 ^ log2 n) × (log2 n < 64)
    bounds = log2_bounds n small p

    lt : log2 n < b
    lt = lt_of_two_pow_lt (log2 n) b (omega (arith, bounds.0))

    split : (c : ℕ) × (2 ^ b ≡ 2 ^ log2 n * c)
    split = two_pow_split (log2 n) b (omega (arith, lt))

    c : ℕ
    c = split.0

peak : (n b o : ℕ) → b ≤ 64 → (r : Round n b o) → root (shl 1 (log2 n)) + o * 2 ≡ node r.l r.q
peak n b o h r =
    let top = r.falls in
    let e : root (2 ^ r.l) + 1 ≡ 2 ^ r.l = root-two_pow r.l (omega arith) in
    rw (r.size, r.offset) (root-node r.l r.q (root (2 ^ r.l)) e)

Tiles-step :
    (n b o : ℕ) (rs : List ℕ)
    → b ≤ 64
    → (r : Round n b o) → Tiles r.l (o + 2 ^ r.l) (o + 2 ^ r.l + (n - 2 ^ r.l)) rs
    → Tiles b o (o + n) ((root (shl 1 (log2 n)) + o * 2) ∷ rs)
Tiles-step n b o rs h r rec =
    let low = r.falls in
    let end : o + 2 ^ r.l + (n - 2 ^ r.l) ≡ o + n = omega (arith, r.fits) in
    let left = leftmost_leaf_index-node r.l r.q (omega arith) in
    rw (peak n b o h r, level-node r.l r.q (omega arith))
      (r.falls, left ∙ sym r.offset, rw end at rec)

not_zero : (n : ℕ) → (suc n == 0) ≡ false
not_zero n = ground arith

get_roots_loop-Tiles :
    (f n b o q : ℕ)
    → n < 2 ^ f
    → n < 2 ^ b
    → b ≤ 64
    → o ≡ 2 ^ b * q
    → Tiles b o (o + n) (get_roots_loop f n o)
unfolding get_roots_loop
get_roots_loop-Tiles zero n b o q hf hb h eo = omega arith
get_roots_loop-Tiles (suc f) zero b o q hf hb h eo = omega arith
get_roots_loop-Tiles (suc f) (suc n) b o q hf hb h eo =
    let r = round (suc n) b o q hb h eo (omega arith) in
    rw (not_zero n) (
      Tiles-step (suc n) b o _ h r (
        rw r.size (
          get_roots_loop-Tiles f (suc n - 2 ^ r.l) r.l (o + 2 ^ r.l) (r.q + 1) (fuel r)
            (omega (arith, r.rest)) (omega (arith, r.falls)) (omega (arith, r.offset)))))
  where
    fuel : (r : Round (suc n) b o) → suc n - 2 ^ r.l < 2 ^ f
    fuel r =
        let less = lt_of_two_pow_lt r.l (suc f) (omega (arith, r.fits)) in
        omega (arith, r.rest, two_pow_mono r.l f (omega arith))

-- The roots of a log of n leaves tile its leaves with full subtrees, each lower than the one before.
pub get_roots-Tiles : (n : ℕ) → n < 2 ^ 64 → Tiles 64 0 n (get_roots n)
unfolding get_roots
get_roots-Tiles n h =
    rw zero-add at (get_roots_loop-Tiles 65 n 64 0 0 (omega arith) h (omega arith) (omega arith))
