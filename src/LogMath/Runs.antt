-- ===== src/LogMath/Runs.antt =====
-- Concrete trees, and the theorems at concrete inputs.
use ru_kt.Common.{some, ℕ, ◌<◌, ◌≡◌, ◌≢◌, ◌↔◌, refl, arith, [], ◌∷◌, In}
use ru_kt.LogMath.{
  shr, right_child, right_child_loop, leftmost_leaf_index, descend_left, direct_path,
  direct_path_loop, shl, ones, bit_length, trailing_ones, leading_zeros, is_leaf, level, log2, root,
  left_child, std_right, ibst_right_loop, ibst_right_child, get_roots_loop, get_roots, parent,
  sibling, get_frontier_loop, get_frontier, ibst_path_loop, ibst_direct_path, below,
  owner_init_list,
}
use ru_kt.LogMath.Consistency.{
  sub_proof, consistency_proof, insert_sorted, sorted_above, full_monitoring_path, chunk_id_loop,
  chunk_id, chunk_layout,
}
use ru_kt.LogMath.Family.{family}
use ru_kt.LogMath.Roots.{Tiles, get_roots-Tiles}
use ru_kt.LogMath.Ibst.{Covers, In-ibst_direct_path}

-- Eleven leaves make subtrees of eight, two and one.
get_roots_of_11 : get_roots 11 ≡ 7 ∷ 17 ∷ 20 ∷ []
unfolding get_roots get_roots_loop root log2 leading_zeros bit_length shl
get_roots_of_11 = refl

ibst_direct_path_of_4 : ibst_direct_path 4 11 ≡ 5 ∷ 3 ∷ 7 ∷ []
unfolding ibst_direct_path ibst_path_loop log2 leading_zeros bit_length shl
ibst_direct_path_of_4 = refl

owner_init_list_of_4 : owner_init_list 4 11 ≡ 4 ∷ 3 ∷ []
unfolding owner_init_list below ibst_direct_path ibst_path_loop log2 leading_zeros bit_length shl
owner_init_list_of_4 = refl

get_frontier_of_11 : get_frontier 11 ≡ 7 ∷ 9 ∷ 10 ∷ []
unfolding get_frontier get_frontier_loop ibst_right_child ibst_right_loop std_right left_child level
    is_leaf trailing_ones ones root log2 leading_zeros bit_length shl
get_frontier_of_11 = refl

family_example :
    (parent (left_child 11) ≡ 11)
    × (parent (std_right 11) ≡ 11)
    × (sibling (left_child 11) ≡ std_right 11)
    × (sibling (std_right 11) ≡ left_child 11)
family_example = family 11 (omega arith) (unfold is_leaf in refl)

get_roots-Tiles_example : Tiles 64 0 11 (get_roots 11)
get_roots-Tiles_example = get_roots-Tiles 11 (omega arith)

abbrev five : ℕ
five = 5

In-ibst_direct_path_example :
    In five (ibst_direct_path 4 11) ↔ ((five < 11) × (five ≢ 4) × Covers five 4)
In-ibst_direct_path_example = In-ibst_direct_path 4 11 5 (omega arith) (omega arith)

-- The last node stands over the leaves 2 and 3, of which the older tree has one; none stands over the
-- leaves from 4 on.
consistency_proof_of_3_in_7 : consistency_proof 3 7 ≡ some (1 ∷ 4 ∷ 6 ∷ 5 ∷ [])
unfolding consistency_proof sub_proof right_child right_child_loop std_right left_child level
    is_leaf leftmost_leaf_index descend_left trailing_ones ones root log2 leading_zeros bit_length
    shl
consistency_proof_of_3_in_7 = refl

consistency_proof_of_3_in_8 : consistency_proof 3 8 ≡ some (1 ∷ 4 ∷ 6 ∷ 11 ∷ [])
unfolding consistency_proof sub_proof right_child right_child_loop std_right left_child level
    is_leaf leftmost_leaf_index descend_left trailing_ones ones root log2 leading_zeros bit_length
    shl
consistency_proof_of_3_in_8 = refl

chunk_of_20 : chunk_id 20 ≡ 23
unfolding chunk_id chunk_id_loop level is_leaf trailing_ones ones shl shr
chunk_of_20 = refl

chunk_layout_of_23 :
    chunk_layout 23 ≡ 16 ∷ 17 ∷ 18 ∷ 19 ∷ 20 ∷ 21 ∷ 22 ∷ 23 ∷ 24 ∷ 25 ∷ 26 ∷ 27 ∷ 28 ∷ 29 ∷ 30 ∷ []
unfolding chunk_layout level is_leaf trailing_ones ones shl
chunk_layout_of_23 = refl

full_monitoring_path_of_2 : full_monitoring_path 2 8 ≡ 3 ∷ 7 ∷ []
unfolding full_monitoring_path sorted_above insert_sorted direct_path direct_path_loop parent level
    is_leaf trailing_ones ones shl shr get_roots get_roots_loop root log2 leading_zeros bit_length
full_monitoring_path_of_2 = refl
