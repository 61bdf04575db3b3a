-- ===== src/LogMath.antt =====
-- src/tree/log_math.rs: node ids of the implicit trees over the log. A node id is a u64.
-- The log's Merkle tree numbers leaf i as 2 * i; the implicit binary search tree (IBST) numbers
-- its nodes by the log entries themselves.
pub mod Node
pub mod Family
pub mod Log2
pub mod Roots
pub mod Span
pub mod Ibst
pub mod Consistency
mod Runs
use ru_kt.Common.{
  ℕ, zero, suc, ◌+◌, ◌-◌, ◌*◌, ◌/◌, ◌%◌, ◌^◌, Bool, true, false, not, ◌&&◌, List, [], ◌∷◌, ◌++◌,
  Option, none, some, bit_xor, ltb, leb, ◌==◌, if◌then◌else◌, contains,
}
use mathlib.Core.List.{reverse}

-- `x << k` on u64 and `x >> k`, for k < 64.
unfoldable pub shl : ℕ → ℕ → ℕ
shl x k = x * 2 ^ k % 2 ^ 64

unfoldable pub shr : ℕ → ℕ → ℕ
shr x k = x / 2 ^ k

-- The count of ones at the low end, of at most `f` digits.
unfoldable pub ones : ℕ → ℕ → ℕ
ones zero x = 0
ones (suc f) x = let rest = ones f (x / 2) in if x % 2 == 1 then suc rest else 0

-- The number of binary digits up to the highest one, of at most `f` digits.
unfoldable pub bit_length : ℕ → ℕ → ℕ
bit_length zero x = 0
bit_length (suc f) x = let rest = bit_length f (x / 2) in if x == 0 then 0 else suc rest

unfoldable pub trailing_ones : ℕ → ℕ
trailing_ones x = ones 64 x

unfoldable pub leading_zeros : ℕ → ℕ
leading_zeros x = 64 - bit_length 64 x

unfoldable pub is_leaf : ℕ → Bool
is_leaf node_id = node_id % 2 == 0

unfoldable pub level : ℕ → ℕ
level node_id = if is_leaf node_id then 0 else trailing_ones node_id

unfoldable pub log2 : ℕ → ℕ
log2 n = if n == 0 then 0 else 63 - leading_zeros n

unfoldable pub root : ℕ → ℕ
root n = if n == 0 then 0 else shl 1 (log2 n) - 1

unfoldable pub merkle_root : ℕ → ℕ
merkle_root n = if leb n 1 then 0 else shl 1 (64 - leading_zeros (n - 1)) - 1

unfoldable pub left_child : ℕ → ℕ
left_child x = if level x == 0 then x else bit_xor x (shl 1 (level x - 1))

-- `x ^ (3 << (level(x) - 1))`: the right child in the complete tree.
unfoldable pub std_right : ℕ → ℕ
std_right x = bit_xor x (shl 3 (level x - 1))

-- `while !is_leaf(x) { x ^= 1 << (level(x) - 1) }`, a level lower in each round.
unfoldable pub descend_left : ℕ → ℕ → ℕ
descend_left zero x = x
descend_left (suc f) x =
    let rest = descend_left f (bit_xor x (shl 1 (level x - 1))) in if is_leaf x then x else rest

unfoldable pub leftmost_leaf_index : ℕ → ℕ
leftmost_leaf_index x = descend_left 64 x / 2

-- The `while` of `right_child`; `none` stands for an absent right subtree.
unfoldable pub right_child_loop : ℕ → ℕ → ℕ → Option ℕ
right_child_loop zero r n = none
right_child_loop (suc f) r n =
    let rest = right_child_loop f (left_child r) n in
    if leb n (leftmost_leaf_index r) then (if is_leaf r then none else rest) else some r

-- `none` for the panic on a leaf.
unfoldable pub right_child : ℕ → ℕ → Option ℕ
right_child x n =
    if level x == 0
    then none
    else elim (right_child_loop 65 (std_right x) n) [ none ↦ some (left_child x) | some r ↦ some r ]

unfoldable pub ibst_right_loop : ℕ → ℕ → ℕ → Option ℕ
ibst_right_loop zero x n = none
ibst_right_loop (suc f) x n =
    let rest = ibst_right_loop f (left_child x) n in
    if leb n x then (if level x == 0 then none else rest) else some x

unfoldable pub ibst_right_child : ℕ → ℕ → Option ℕ
ibst_right_child x n = if level x == 0 then none else ibst_right_loop 65 (std_right x) n

-- The round of `get_roots` adds a subtree of `1 << log2 n` leaves at `offset`.
unfoldable pub get_roots_loop : ℕ → ℕ → ℕ → List ℕ
get_roots_loop zero n offset = []
get_roots_loop (suc f) n offset =
    let k = shl 1 (log2 n) in
    let rest = get_roots_loop f (n - k) (offset + k) in
    if n == 0 then [] else (root k + offset * 2) ∷ rest

unfoldable pub get_roots : ℕ → List ℕ
get_roots n = get_roots_loop 65 n 0

unfoldable pub parent : ℕ → ℕ
parent node_id =
    let l = level node_id in
    if leb 62 l
    then 0
    else if shr node_id (l + 1) % 2 == 1
    then node_id - shl 1 l
    else node_id + shl 1 l

unfoldable pub sibling : ℕ → ℕ
sibling node_id =
    let l = level node_id in
    let p = parent node_id in
    if leb 62 l
    then 0
    else if shr node_id (l + 1) % 2 == 1
    then bit_xor p (shl 1 (level p - 1))
    else std_right p

-- The `for _ in 0..100` of `copath`.
unfoldable pub copath_loop : ℕ → List ℕ → ℕ → ℕ → List ℕ
copath_loop zero roots tree_size node_id = []
copath_loop (suc f) roots tree_size node_id =
    let p = parent node_id in
    let l = level node_id in
    let is_right = if ltb l 62 then shr node_id (l + 1) % 2 else 0 in
    let rest = copath_loop f roots tree_size p in
    if contains roots node_id
    then []
    else if is_right == 1
    then sibling node_id ∷ rest
    else if ltb (leftmost_leaf_index (std_right p)) tree_size
    then std_right p ∷ rest
    else rest

unfoldable pub copath : ℕ → ℕ → List ℕ
copath node_id tree_size =
    let roots = get_roots tree_size in
    if contains roots node_id then [] else copath_loop 100 roots tree_size node_id

unfoldable pub get_frontier_loop : ℕ → ℕ → ℕ → List ℕ
get_frontier_loop zero curr tree_size = []
get_frontier_loop (suc f) curr tree_size =
    if curr == tree_size - 1 then [] else elim (ibst_right_child curr tree_size) [
      | none ↦ []
      | some r ↦ r ∷ get_frontier_loop f r tree_size
    ]

unfoldable pub get_frontier : ℕ → List ℕ
get_frontier tree_size =
    if tree_size == 0 then [] else root tree_size ∷ get_frontier_loop 100 (root tree_size) tree_size

unfoldable pub direct_path_loop : ℕ → List ℕ → ℕ → List ℕ
direct_path_loop zero roots node_id = []
direct_path_loop (suc f) roots node_id =
    let p = parent node_id in
    let rest = direct_path_loop f roots p in p ∷ (if contains roots p then [] else rest)

unfoldable pub direct_path : ℕ → ℕ → List ℕ
direct_path node_id tree_size =
    let roots = get_roots tree_size in
    if contains roots node_id then [] else direct_path_loop 100 roots node_id

unfoldable pub rightmost_leaf_loop : ℕ → ℕ → ℕ
rightmost_leaf_loop zero x = x
rightmost_leaf_loop (suc f) x =
    let rest = rightmost_leaf_loop f (std_right x) in if is_leaf x then x else rest

unfoldable pub rightmost_leaf : ℕ → ℕ
rightmost_leaf node_id = rightmost_leaf_loop 64 node_id

-- The path from the root down to `target`, in the subtree of `curr_size` entries from `offset` on.
unfoldable pub ibst_path_loop : ℕ → ℕ → ℕ → ℕ → List ℕ
ibst_path_loop zero target curr_size offset = []
ibst_path_loop (suc f) target curr_size offset =
    let left_size = shl 1 (log2 curr_size) - 1 in
    let root_idx = offset + left_size in
    let left = ibst_path_loop f target left_size offset in
    let right = ibst_path_loop f target (curr_size - left_size - 1) (root_idx + 1) in
    if curr_size == 0
    then []
    else if target == root_idx
    then []
    else root_idx ∷ (if ltb target root_idx then left else right)

unfoldable pub ibst_direct_path : ℕ → ℕ → List ℕ
ibst_direct_path target n = reverse (ibst_path_loop 65 target n 0)

unfoldable pub below : ℕ → List ℕ → List ℕ
below start [] = []
below start (a ∷ l) = let rest = below start l in if ltb a start then a ∷ rest else rest

unfoldable pub owner_init_list : ℕ → ℕ → List ℕ
owner_init_list start n = start ∷ below start (ibst_direct_path start n)
