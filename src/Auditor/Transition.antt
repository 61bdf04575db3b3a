-- ===== src/Auditor/Transition.antt =====
-- `PartialPrefixTree` and `PrefixTransitioner` of src/client/verifier.rs: from one prefix root to the next
-- by the leaves of an update. A node is a level with a path whose bits from the level on are zero; a map
-- by node is an association list, of which the first entry counts.
use ru_kt.Common.{
  ℕ, zero, suc, ◌+◌, ◌-◌, ◌*◌, ◌/◌, ◌%◌, ◌^◌, Bool, true, false, not, ◌&&◌, ◌||◌, List, [], ◌∷◌,
  ◌++◌, Option, none, some, ltb, ◌==◌, if◌then◌else◌, length, take, drop, same_bytes, ◌>>=◌, ◌>>◌,
  require,
}
use ru_kt.Tls.{Bytes}
use ru_kt.Prefix.{
  PrefixLeaf, PrefixProof, PrefixSearchResult, zero_value, get_bit, leaf_hash, parent_hash,
}

abbrev pub Nodes : Type 0
Nodes = List ((ℕ × Bytes) × Bytes)

abbrev pub mask_bytes : Bytes → ℕ → Bytes
mask_bytes [] level = []
mask_bytes (b ∷ key) level =
    (if ltb level 8 then b / 2 ^ (8 - level) * 2 ^ (8 - level) else b) ∷ mask_bytes key (level - 8)

-- The first `level` bits of a key: whole bytes, a part of one, and zeros. A key has 32 bytes.
abbrev pub masked : Bytes → ℕ → Bytes
masked key level = mask_bytes (take 32 key) level

-- `|=` with the bit 1 << k.
abbrev pub or_bit : ℕ → ℕ → ℕ
or_bit k b = if b / 2 ^ k % 2 == 1 then b else b + 2 ^ k

abbrev pub set_bit : Bytes → ℕ → ℕ → Bytes
set_bit [] i k = []
set_bit (b ∷ path) zero k = or_bit k b ∷ path
set_bit (b ∷ path) (suc i) k = b ∷ set_bit path i k

abbrev pub with_bit : Bytes → ℕ → ℕ → Bytes
with_bit path level bit = if bit == 1 then set_bit path (level / 8) (7 - level % 8) else path

abbrev pub same_node : ℕ × Bytes → ℕ → Bytes → Bool
same_node n level path = n.0 == level && same_bytes n.1 path

unfoldable pub get : Nodes → ℕ → Bytes → Option Bytes
get [] level path = none
get ((n, v) ∷ nodes) level path =
    let rest = get nodes level path in if same_node n level path then some v else rest

abbrev pub put_node : Nodes → ℕ → Bytes → Bytes → Nodes
put_node nodes level path value = ((level, path), value) ∷ nodes

-- `self.nodes.get(..)` is another value.
abbrev pub disagrees : Option Bytes → Bytes → Bool
disagrees none value = false
disagrees (some prev) value = not (same_bytes prev value)

unfoldable pub insert : Nodes → ℕ → Bytes → Bytes → Option Nodes
insert nodes level path value =
    if disagrees (get nodes level path) value then none else some (put_node nodes level path value)

unfoldable pub remove_leaf : Nodes → Bytes → Nodes
remove_leaf [] key = []
remove_leaf ((n, v) ∷ nodes) key =
    let rest = remove_leaf nodes key in
    if same_node n 256 (masked key 256) then rest else (n, v) ∷ rest

abbrev pub set_leaf : Nodes → Bytes → Bytes → Nodes
set_leaf nodes key value = put_node nodes 256 (masked key 256) value

unfoldable pub has_descendant : Nodes → ℕ → Bytes → Bool
has_descendant [] level path = false
has_descendant ((n, v) ∷ nodes) level path =
    (ltb level n.0 && same_bytes (masked n.1 level) path) || has_descendant nodes level path

abbrev pub keys_of : List PrefixLeaf → List Bytes
keys_of [] = []
keys_of (leaf ∷ leaves) = leaf.vrf_output ∷ keys_of leaves

abbrev pub has_key : List Bytes → Bytes → Bool
has_key [] key = false
has_key (k ∷ keys) key = same_bytes k key || has_key keys key

-- Another key of the batch lies below the node.
abbrev pub covers : List Bytes → Bytes → ℕ → Bytes → Bool
covers [] key level path = false
covers (other ∷ keys) key level path =
    (not (same_bytes other key) && same_bytes (masked other level) path)
    || covers keys key level path

abbrev pub all_zero : Bytes → Bool
all_zero [] = true
all_zero (b ∷ bytes) = b == 0 && all_zero bytes

abbrev pub zero_path : Bytes
zero_path = zero_value

-- What the loop over the items has gathered: the tree, the covering elements, and the elements left.
pub record Gathered : Type 0 where
  pub tree : Nodes
  pub covering : List ((ℕ × Bytes) × Bytes)
  pub elements : List Bytes

module _ (hash : Bytes → Bytes) where
  -- With `n` levels to the leaves.
  unfoldable pub resolve : Nodes → ℕ → ℕ → Bytes → Bytes
  resolve nodes zero level path = elim (get nodes level path) [ some v ↦ v | none ↦ zero_value ]
  resolve nodes (suc n) level path = elim (get nodes level path) [
    | some v ↦ v
    | none ↦ elim (has_descendant nodes level path) [
      | true ↦
          parent_hash hash (resolve nodes n (suc level) (with_bit path level 0))
            (resolve nodes n (suc level) (with_bit path level 1))
      | false ↦ zero_value
    ]
  ]

  unfoldable pub tree_root : Nodes → Bytes
  tree_root nodes = resolve nodes 256 0 zero_path

  -- The sibling values along a key's path, from level `k` on.
  unfoldable pub add_elements :
      List Bytes
      → Bytes
      → ℕ
      → List Bytes
      → Nodes
      → List ((ℕ × Bytes) × Bytes)
      → Option (Nodes × List ((ℕ × Bytes) × Bytes))
  add_elements batch_keys key k [] tree covering = some (tree, covering)
  add_elements batch_keys key k (element ∷ elements) tree covering =
      let path = with_bit (masked key k) k (1 - get_bit key k) in
      if covers batch_keys key (suc k) path
      then add_elements batch_keys key (suc k) elements tree
          (covering ++ (((suc k, path), element) ∷ []))
      else (do
        tree' ← insert tree (suc k) path element
        add_elements batch_keys key (suc k) elements tree' covering)

  -- The terminal of an item in the old tree. A shorter key of another leaf would panic.
  unfoldable pub terminal_of :
      List Bytes → Bool → PrefixLeaf → PrefixSearchResult → Nodes → Option Nodes
  terminal_of removed_keys is_removed item result tree =
      if result.result_type == 1
      then (if is_removed
          then some (set_leaf tree item.vrf_output (leaf_hash hash item.vrf_output item.commitment))
          else if has_key removed_keys item.vrf_output
          then some tree
          else none)
      else if result.result_type == 2
      then (do
        leaf ← result.leaf
        require (not (same_bytes leaf.vrf_output item.vrf_output))
        require (not (ltb (length leaf.vrf_output) 32))
        some (set_leaf tree leaf.vrf_output (leaf_hash hash leaf.vrf_output leaf.commitment)))
      else if result.result_type == 3
      then some tree
      else none

  unfoldable pub gather_item :
      List Bytes → List Bytes → Bool → PrefixLeaf → PrefixSearchResult → Gathered → Option Gathered
  gather_item batch_keys removed_keys is_removed item result g = do
    require (length item.vrf_output == 32)
    require (not (ltb 256 result.depth))
    require (not (ltb (length g.elements) result.depth))
    tree ← terminal_of removed_keys is_removed item result g.tree
    (tree', covering) ←
        add_elements batch_keys item.vrf_output 0 (take result.depth g.elements) tree g.covering
    some (record { tree = tree'; covering = covering; elements = drop result.depth g.elements })

  -- The items with their results; those after the first `added` are removed. A missing result would
  -- panic.
  unfoldable pub gather :
      List Bytes
      → List Bytes
      → ℕ
      → List PrefixLeaf
      → List PrefixSearchResult
      → Gathered
      → Option Gathered
  gather batch_keys removed_keys added [] results g = some g
  gather batch_keys removed_keys added (item ∷ items) [] g = none
  gather batch_keys removed_keys zero (item ∷ items) (result ∷ results) g = do
    g' ← gather_item batch_keys removed_keys true item result g
    gather batch_keys removed_keys zero items results g'
  gather batch_keys removed_keys (suc added) (item ∷ items) (result ∷ results) g = do
    g' ← gather_item batch_keys removed_keys false item result g
    gather batch_keys removed_keys added items results g'

  abbrev pub covering_agrees : Nodes → List ((ℕ × Bytes) × Bytes) → Bool
  covering_agrees tree [] = true
  covering_agrees tree ((n, expected) ∷ covering) =
      same_bytes (resolve tree (256 - n.0) n.0 n.1) expected && covering_agrees tree covering

  -- The root before the update, or an empty one.
  abbrev pub is_old_root : Bytes → Bytes → Bool
  is_old_root old_root computed =
      same_bytes computed old_root || (all_zero old_root && same_bytes computed zero_value)

  abbrev pub remove_all : Nodes → List PrefixLeaf → Nodes
  remove_all tree [] = tree
  remove_all tree (item ∷ removed) = remove_all (remove_leaf tree item.vrf_output) removed

  abbrev pub add_all : Nodes → List PrefixLeaf → Nodes
  add_all tree [] = tree
  add_all tree (item ∷ added) =
      add_all (set_leaf tree item.vrf_output (leaf_hash hash item.vrf_output item.commitment)) added

  unfoldable pub verify_and_transition :
      Bytes → List PrefixLeaf → List PrefixLeaf → PrefixProof → Option Bytes
  verify_and_transition old_root added removed proof = do
    require (length proof.results == length added + length removed)
    g ←
        gather (keys_of (added ++ removed)) (keys_of removed) (length added) (added ++ removed)
          proof.results (record { tree = []; covering = []; elements = proof.elements })
    require (length g.elements == 0)
    require (covering_agrees g.tree g.covering)
    require (is_old_root old_root (tree_root g.tree))
    some (tree_root (add_all (remove_all g.tree removed) added))
