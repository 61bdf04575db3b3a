-- ===== src/LogMath/Family.antt =====
-- Parents, children and siblings in the complete tree, over any id.
use ru_kt.Common.{ℕ, zero, suc, ◌+◌, ◌*◌, ◌/◌, ◌^◌, ◌≤◌, ◌<◌, ◌≡◌, arith, ap, false, true}
use ru_kt.Common.Pow.{two_pow_suc, lt_of_two_pow_lt}
use ru_kt.LogMath.{ones, is_leaf, left_child, std_right, parent, sibling}
use ru_kt.LogMath.Node.{
  node, level-node, node_of_ones, shr-node, left_child-node, std_right-node, parent-node, go_left,
}

-- An id below 2 ^ f - 1 has less than f ones at its end.
ones_bound : (f x : ℕ) → 2 ^ ones f x ≤ x + 1
unfolding ones
ones_bound zero x = omega arith
ones_bound (suc f) x = ground (arith, ones_bound f (x / 2), two_pow_suc (ones f (x / 2)))

pub record IsNode (x k m : ℕ) : Type 0 where
  pub same : x ≡ node k m
  pub low : k < 62

-- Every id below 2 ^ 62 - 1 is a node of a level below 62.
pub is_node : (x : ℕ) → x + 1 < 2 ^ 62 → (k : ℕ) × (m : ℕ) × IsNode x k m
is_node x h =
    (k, x / 2 ^ suc k, record { same = node_of_ones 64 x (omega (arith, low)); low = low })
  where
    k : ℕ
    k = ones 64 x

    low : ones 64 x < 62
    low = lt_of_two_pow_lt (ones 64 x) 62 (omega (arith, ones_bound 64 x))

sibling_left : (k m : ℕ) → suc k < 62 → sibling (node k (2 * m)) ≡ node k (2 * m + 1)
unfolding sibling
sibling_left k m h =
    let half : 2 * m / 2 ≡ m = omega arith in
    rw
      (
        level-node k (2 * m) (omega arith),
        shr-node k (2 * m),
        parent-node k (2 * m) (omega arith),
        half,
      )
      (ground (arith, std_right-node k m (omega arith)))

sibling_right : (k m : ℕ) → suc k < 62 → sibling (node k (2 * m + 1)) ≡ node k (2 * m)
unfolding sibling
sibling_right k m h =
    let half : (2 * m + 1) / 2 ≡ m = omega arith in
    rw
      (
        level-node k (2 * m + 1) (omega arith),
        shr-node k (2 * m + 1),
        parent-node k (2 * m + 1) (omega arith),
        half,
        go_left k m (omega arith),
      )
      (ground arith)

family_node :
    (k m : ℕ)
    → suc k < 62
    → let x = node (suc k) m in
      (parent (left_child x) ≡ x)
      × (parent (std_right x) ≡ x)
      × (sibling (left_child x) ≡ std_right x)
      × (sibling (std_right x) ≡ left_child x)
family_node k m h =
    rw (left_child-node k m (omega arith), std_right-node k m (omega arith))
      (
        rw (parent-node k (2 * m) (omega arith)) (ap (node (suc k)) (omega arith)),
        rw (parent-node k (2 * m + 1) (omega arith)) (ap (node (suc k)) (omega arith)),
        sibling_left k m h,
        sibling_right k m h,
      )

not_leaf_zero : (m : ℕ) → is_leaf (node zero m) ≡ true
unfolding is_leaf node
not_leaf_zero m = ground arith

family_at :
    (x k m : ℕ)
    → IsNode x k m
    → is_leaf x ≡ false
    → (parent (left_child x) ≡ x)
      × (parent (std_right x) ≡ x)
      × (sibling (left_child x) ≡ std_right x)
      × (sibling (std_right x) ≡ left_child x)
family_at x zero m n h = cc (not_leaf_zero m, ap is_leaf n.same)
family_at x (suc k) m n h = rw n.same (family_node k m n.low)

-- Below 2 ^ 62 - 1, the parent of either child of an inner node is that node, and its children are
-- each other's sibling.
pub family :
    (x : ℕ)
    → x + 1 < 2 ^ 62
    → is_leaf x ≡ false
    → (parent (left_child x) ≡ x)
      × (parent (std_right x) ≡ x)
      × (sibling (left_child x) ≡ std_right x)
      × (sibling (std_right x) ≡ left_child x)
family x b h = let (k, m, n) = is_node x b in family_at x k m n h
