-- ===== src/LogMath/Node.antt =====
-- The ids of the Merkle tree by level and position: `node k m` is the m-th node of level k, and a
-- leaf is a node of level 0. In binary it is m, a zero, and k ones.
use ru_kt.Common.{
  ℕ, zero, suc, ◌+◌, ◌-◌, ◌*◌, ◌/◌, ◌%◌, ◌^◌, ◌≤◌, ◌<◌, ◌≡◌, arith, bit_xor, ap, ◌∙◌, ◌≢◌, ◌⊎◌,
  Bool-cases, ==_iff, ◌==◌, false, inl, inr,
}
use ru_kt.Common.Pow.{two_pow_suc, two_pow_mono, shr_suc}
use ru_kt.Common.Xor.{bit_xor-odd_even, bit_xor-odd_odd, bit_xor-even_odd, bit_xor-zero}
use native.Mathlib.Numerals.{towards_suc}
use ru_kt.LogMath.{
  shl, shr, ones, trailing_ones, is_leaf, level, left_child, std_right, parent, descend_left,
  leftmost_leaf_index,
}

unfoldable pub node : ℕ → ℕ → ℕ
node zero m = 2 * m
node (suc k) m = 2 * node k m + 1

ones-node : (f k m : ℕ) → k < f → ones f (node k m) ≡ k
unfolding ones node
ones-node zero k m h = absurd (omega arith)
ones-node (suc f) zero m h = ground arith
ones-node (suc f) (suc k) m h =
    let half : (2 * node k m + 1) / 2 ≡ node k m = omega arith in
    rw half (ground (arith, ones-node f k m (omega arith)))

pub level-node : (k m : ℕ) → k < 64 → level (node k m) ≡ k
unfolding level is_leaf trailing_ones node
level-node zero m h = ground arith
level-node (suc k) m h = ground (arith, ones-node 64 (suc k) m h)

-- A node in closed form.
pub node_closed : (k m : ℕ) → node k m + 1 ≡ 2 ^ k * (2 * m + 1)
unfolding node
node_closed zero m = omega arith
node_closed (suc k) m =
    omega (arith, node_closed k m, two_pow_suc k, ap (λ (t : ℕ). t * (2 * m + 1)) (two_pow_suc k))

-- A node less its lowest `k + 1` digits.
shr_loop : (k m : ℕ) → node k m / 2 ^ suc k ≡ m
unfolding node
shr_loop zero m = omega arith
shr_loop (suc k) m =
    let half : (2 * node k m + 1) / 2 ≡ node k m = omega arith in
    shr_suc (2 * node k m + 1) (suc k) ∙ ap (λ (t : ℕ). t / 2 ^ suc k) half ∙ shr_loop k m

pub shr-node : (k m : ℕ) → shr (node k m) (k + 1) ≡ m
unfolding shr
shr-node k m = simp towards_suc (shr_loop k m)

xor_one : (k m : ℕ) → bit_xor (node (suc k) m) (2 ^ k) ≡ node k (2 * m)
unfolding node
xor_one zero m = omega (arith, bit_xor-odd_odd (2 * m) 0, bit_xor-zero (2 * m))
xor_one (suc k) m =
    rw (two_pow_suc k) (omega (arith, bit_xor-odd_even (node (suc k) m) (2 ^ k), xor_one k m))

xor_three : (k m : ℕ) → bit_xor (node (suc k) m) (3 * 2 ^ k) ≡ node k (2 * m + 1)
unfolding node
xor_three zero m = omega (arith, bit_xor-odd_odd (2 * m) 1, bit_xor-even_odd m 0, bit_xor-zero m)
xor_three (suc k) m =
    let e : 3 * 2 ^ suc k ≡ 2 * (3 * 2 ^ k) = omega (arith, two_pow_suc k) in
    rw e (omega (arith, bit_xor-odd_even (node (suc k) m) (3 * 2 ^ k), xor_three k m))

-- The shifts by the level of a node below 2 ^ 64 lose nothing.
pub shl_one : (k : ℕ) → k < 64 → shl 1 k ≡ 2 ^ k
unfolding shl
shl_one k h = ground (arith, two_pow_mono k 63 (omega arith))

shl_three : (k : ℕ) → k < 63 → shl 3 k ≡ 3 * 2 ^ k
unfolding shl
shl_three k h = ground (arith, two_pow_mono k 62 (omega arith))

pub left_child-node : (k m : ℕ) → suc k < 64 → left_child (node (suc k) m) ≡ node k (2 * m)
unfolding left_child
left_child-node k m h = ground (arith, level-node (suc k) m h, shl_one k, xor_one k m)

pub std_right-node : (k m : ℕ) → suc k < 63 → std_right (node (suc k) m) ≡ node k (2 * m + 1)
unfolding std_right
std_right-node k m h =
    let e : level (node (suc k) m) - 1 ≡ k = omega (arith, level-node (suc k) m (omega arith)) in
    rw (e, shl_three k (omega arith)) (xor_three k m)

node-even : (k j : ℕ) → node k (2 * j) + 2 ^ k ≡ node (suc k) j
unfolding node
node-even zero j = omega arith
node-even (suc k) j = omega (arith, node-even k j, two_pow_suc k)

node-odd : (k j : ℕ) → node k (2 * j + 1) ≡ node (suc k) j + 2 ^ k
unfolding node
node-odd zero j = omega arith
node-odd (suc k) j = omega (arith, node-odd k j, two_pow_suc k)

-- Every id is a node of its level.
not_one : (d : ℕ) → (d == 1) ≡ false → d ≢ 1
not_one d h = ground arith

pub node_of_ones : (f x : ℕ) → ones f x < f → x ≡ node (ones f x) (x / 2 ^ suc (ones f x))
unfolding ones node
node_of_ones zero x h = absurd (omega arith)
node_of_ones (suc f) x h = elim (Bool-cases (x % 2 == 1)) [
  | inl odd ↦
      let q : x % 2 ≡ 1 = (==_iff (x % 2) 1).0 odd in
      let k : ℕ = ones f (x / 2) in
      rw odd (omega (arith, node_of_ones f (x / 2) (ground arith), ap (node k) (shr_suc x (suc k))))
  | inr even ↦ rw even (omega (arith, shr_suc x 0, not_one (x % 2) even))
]

node_parity : (k m : ℕ) → ((m % 2 ≡ 0) × (m ≡ 2 * (m / 2))) ⊎ ((m % 2 ≡ 1) × (m ≡ 2 * (m / 2) + 1))
node_parity k m = omega arith

pub parent-node : (k m : ℕ) → k < 62 → parent (node k m) ≡ node (suc k) (m / 2)
unfolding parent
parent-node k m h =
    rw (level-node k m (omega arith), shr-node k m, shl_one k (omega arith))
      (ground (arith, node-even k (m / 2), node-odd k (m / 2), node_parity k m))

-- `x ^= 1 << (level(x) - 1)` on an inner node.
pub go_left :
    (k m : ℕ)
    → suc k < 64
    → bit_xor (node (suc k) m) (shl 1 (level (node (suc k) m) - 1)) ≡ node k (2 * m)
go_left k m h =
    let e : level (node (suc k) m) - 1 ≡ k = omega (arith, level-node (suc k) m h) in
    rw (e, shl_one k (omega arith)) (xor_one k m)

pub is_leaf-node-suc : (k m : ℕ) → is_leaf (node (suc k) m) ≡ false
unfolding is_leaf node
is_leaf-node-suc k m = ground arith

pub descend_left-node : (f k m : ℕ) → k ≤ f → k < 64 → descend_left f (node k m) ≡ 2 * (2 ^ k * m)
unfolding descend_left
descend_left-node zero zero m h b = unfold node in omega arith
descend_left-node (suc f) zero m h b = unfold node is_leaf in ground arith
descend_left-node zero (suc k) m h b = absurd (omega arith)
descend_left-node (suc f) (suc k) m h b =
    rw (is_leaf-node-suc k m, go_left k m b)
      (omega (
        arith,
        descend_left-node f k (2 * m) (omega arith) (omega arith),
        ap (λ (t : ℕ). t * m) (two_pow_suc k),
      ))

pub leftmost_leaf_index-node : (k m : ℕ) → k < 64 → leftmost_leaf_index (node k m) ≡ 2 ^ k * m
unfolding leftmost_leaf_index
leftmost_leaf_index-node k m h = omega (arith, descend_left-node 64 k m (omega arith) h)
