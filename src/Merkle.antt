-- ===== src/Merkle.antt =====
-- `LogVerifier` and `LogAccumulator` of src/client/verifier.rs: the root of the log's tree from leaves,
-- proof elements and retained subtrees, and the full-subtree values of a growing log. An error is
-- `none`. A map by node id is an association list.
pub mod Peaks
mod Runs
use ru_kt.Common.{
  ℕ, zero, suc, ◌+◌, ◌*◌, ◌-◌, ◌^◌, Bool, true, false, not, List, [], ◌∷◌, ◌++◌, map, Option, none,
  some, ltb, ◌==◌, if◌then◌else◌, length, contains, ◌>>=◌,
}
use ru_kt.Tls.{Bytes}
use ru_kt.Crypto.{log_parent_value}
use ru_kt.LogMath.{is_leaf, level, merkle_root, left_child, right_child, parent, get_roots}
use ru_kt.Prefix.{zero_value}

abbrev pub Values : Type 0
Values = List (ℕ × Bytes)

abbrev pub lookup : Values → ℕ → Option Bytes
lookup [] id = none
lookup ((k, v) ∷ l) id = if k == id then some v else lookup l id

abbrev pub zip {ℓ} : {A B : Type ℓ} → List A → List B → List (A × B)
zip [] ys = []
zip (x ∷ xs) [] = []
zip (x ∷ xs) (y ∷ ys) = (x, y) ∷ zip xs ys

-- The `while` of `is_ancestor`, which climbs from a leaf at most 63 levels, wraps to node 0 there, and
-- meets the root on the way up from it.
unfoldable pub climbs_to : ℕ → ℕ → ℕ → ℕ → Bool
climbs_to zero tree_size node_id curr = false
climbs_to (suc f) tree_size node_id curr =
    let rest = climbs_to f tree_size node_id (parent curr) in
    if curr == node_id then true else if curr == merkle_root tree_size then false else rest

unfoldable pub is_ancestor : ℕ → ℕ → Values → Bool
is_ancestor tree_size node_id [] = false
is_ancestor tree_size node_id ((leaf, v) ∷ leaves) =
    if climbs_to 130 tree_size node_id leaf then true else is_ancestor tree_size node_id leaves

-- The proof elements that are left, and the values captured so far.
abbrev pub Progress : Type 0
Progress = List Bytes × Values

unfoldable pub record_value : List ℕ → ℕ → Bytes → Progress → Bytes × Progress
record_value wanted id val (proof, captured) =
    (val, (proof, if contains wanted id then (id, val) ∷ captured else captured))

-- The peaks of an accumulator stand from right to left: the last one pushed is the head.
pub record LogAccumulator : Type 0 where
  pub tree_size : ℕ
  pub peaks : List (ℕ × Bytes)

unfoldable pub new : LogAccumulator
new = record { tree_size = 0; peaks = [] }

abbrev reversed : List (ℕ × Bytes) → List (ℕ × Bytes) → List (ℕ × Bytes)
reversed out [] = out
reversed out (p ∷ l) = reversed (p ∷ out) l

unfoldable pub from_peaks : ℕ → List Bytes → Option LogAccumulator
from_peaks tree_size values =
    let roots = get_roots tree_size in
    if not (length roots == length values)
    then none
    else some (record { tree_size = tree_size; peaks = reversed [] (zip (map level roots) values) })

-- `hash` is SHA-256.
module _ (hash : Bytes → Bytes) where
  -- The value of a node. The levels fall from a node to its children, of which there are at most 64.
  unfoldable pub recursive_hash :
      ℕ → ℕ → Values → Values → List ℕ → ℕ → Progress → Option (Bytes × Progress)
  recursive_hash zero tree_size leaves retained wanted node_id s = none
  recursive_hash (suc f) tree_size leaves retained wanted node_id (proof, captured) =
      elim (lookup leaves node_id) [
        | some v ↦ some (record_value wanted node_id v (proof, captured))
        | none ↦
            if not (is_ancestor tree_size node_id leaves)
            then elim (lookup retained node_id) [
              | some v ↦ some (record_value wanted node_id v (proof, captured))
              | none ↦ elim proof [
                | [] ↦ none
                | v ∷ rest ↦ some (record_value wanted node_id v (rest, captured))
              ]
            ]
            else if is_leaf node_id
            then none
            else (do
              let l = left_child node_id
              r ← right_child node_id tree_size
              (l_hash, s) ← recursive_hash f tree_size leaves retained wanted l (proof, captured)
              if l == r then some (record_value wanted node_id l_hash s) else (do
                (r_hash, s) ← recursive_hash f tree_size leaves retained wanted r s
                some (
                    record_value wanted node_id
                      (log_parent_value hash l_hash (is_leaf l) r_hash (is_leaf r)) s)))
      ]

  -- The root, and the values of the wanted nodes. The positions are distinct.
  unfoldable pub calculate_root_capturing :
      List ℕ → List Bytes → ℕ → List Bytes → Values → List ℕ → Option (Bytes × Values)
  calculate_root_capturing node_indices node_hashes tree_size proof_elements retained wanted =
      if not (length node_indices == length node_hashes)
      then none
      else if tree_size == 0
      then some (zero_value, [])
      else (do
        let leaves = zip (map (λ (i : ℕ). i * 2) node_indices) node_hashes
        (root, (rest, captured)) ←
            recursive_hash 65 tree_size leaves retained wanted (merkle_root tree_size)
              (proof_elements, [])
        elim rest [ [] ↦ some (root, captured) | v ∷ l ↦ none ])

  -- The `while`: the peak just pushed is merged with the one before as long as they are as high.
  unfoldable pub merge : ℕ → Bytes → List (ℕ × Bytes) → List (ℕ × Bytes)
  merge rh r [] = (rh, r) ∷ []
  merge rh r ((lh, l) ∷ peaks) =
      let merged = merge (suc lh) (log_parent_value hash l (lh == 0) r (rh == 0)) peaks in
      if not (lh == rh) then (rh, r) ∷ (lh, l) ∷ peaks else merged

  unfoldable pub append_leaf : LogAccumulator → Bytes → LogAccumulator
  append_leaf acc leaf = record { tree_size = suc acc.tree_size; peaks = merge 0 leaf acc.peaks }

  unfoldable pub fold_peaks : Bytes → List (ℕ × Bytes) → Bytes
  fold_peaks acc [] = acc
  fold_peaks acc ((h, v) ∷ peaks) = fold_peaks (log_parent_value hash v (h == 0) acc false) peaks

  -- `none` for the panic on a tree with no peaks, which `new` and `append_leaf` do not make.
  unfoldable pub calculate_root : LogAccumulator → Option Bytes
  calculate_root acc =
      if acc.tree_size == 0
      then some zero_value
      else elim acc.peaks [ [] ↦ none | (h, v) ∷ peaks ↦ some (fold_peaks v peaks) ]

  unfoldable pub accumulator_from_peaks : ℕ → List Bytes → Option Bytes
  accumulator_from_peaks tree_size peaks = do acc ← from_peaks tree_size peaks; calculate_root acc

  -- The accumulator after some leaves.
  unfoldable pub append_all : LogAccumulator → List Bytes → LogAccumulator
  append_all acc [] = acc
  append_all acc (leaf ∷ leaves) = append_all (append_leaf acc leaf) leaves
