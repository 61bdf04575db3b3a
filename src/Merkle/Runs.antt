-- ===== src/Merkle/Runs.antt =====
-- Small logs.
use ru_kt.Common.{◌≡◌, refl, List, [], ◌∷◌, some, length}
use ru_kt.Tls.{Bytes}
use ru_kt.Crypto.{log_parent_value}
use ru_kt.LogMath.{
  shl, shr, ones, bit_length, trailing_ones, leading_zeros, is_leaf, level, merkle_root, left_child,
  std_right, right_child, right_child_loop, descend_left, leftmost_leaf_index, parent,
}
use ru_kt.Merkle.{
  new, merge, append_leaf, append_all, fold_peaks, calculate_root, recursive_hash,
  calculate_root_capturing, is_ancestor, climbs_to, record_value,
}
use ru_kt.Merkle.Peaks.{IsPeaks, append_all-IsPeaks}

abbrev keep_input : Bytes → Bytes
keep_input x = x

abbrev leaves_of_3 : List Bytes
leaves_of_3 = (11 ∷ []) ∷ (12 ∷ []) ∷ (13 ∷ []) ∷ []

-- The last leaf of three counts as an inner node, in the accumulator and from the proof.
calculate_root_of_3 :
    calculate_root keep_input (append_all keep_input new leaves_of_3)
    ≡ some (1 ∷ 0 ∷ 11 ∷ 0 ∷ 12 ∷ 1 ∷ 13 ∷ [])
unfolding calculate_root append_all append_leaf merge fold_peaks new log_parent_value
calculate_root_of_3 = refl

calculate_root_capturing_of_3 :
    calculate_root_capturing keep_input
      (2 ∷ [])
      ((13 ∷ []) ∷ [])
      3
      ((0 ∷ 11 ∷ 0 ∷ 12 ∷ []) ∷ [])
      []
      []
    ≡ some (1 ∷ 0 ∷ 11 ∷ 0 ∷ 12 ∷ 1 ∷ 13 ∷ [], [])
unfolding calculate_root_capturing recursive_hash is_ancestor climbs_to record_value
    log_parent_value merkle_root left_child right_child right_child_loop std_right descend_left
    leftmost_leaf_index parent level is_leaf trailing_ones ones leading_zeros bit_length shl shr
calculate_root_capturing_of_3 = refl

append_all-IsPeaks_example :
    ((append_all keep_input new leaves_of_3).tree_size ≡ length leaves_of_3)
    × IsPeaks keep_input 0 (append_all keep_input new leaves_of_3).peaks leaves_of_3
append_all-IsPeaks_example = append_all-IsPeaks keep_input leaves_of_3
