-- ===== src/Prefix.antt =====
-- src/tree/prefix: the prefix tree. An entry of its store is a leaf with the copath that leads to it
-- at the time of its insertion; nodes of the copath point to older entries. The client's side is
-- `compute_root_from_result` of src/client/verifier.rs. The hash is not part of the repository: it is
-- a parameter.
pub mod Operations
pub mod Verify
pub mod Fold
pub mod Index
pub mod Step
pub mod Round
pub mod Descent
pub mod Proofs
pub mod Replay
pub mod Insert
pub mod Batch
mod Runs
use ru_kt.Common.{
  ℕ, zero, suc, ◌+◌, ◌-◌, ◌*◌, ◌/◌, ◌%◌, ◌^◌, Bool, true, false, not, ◌&&◌, List, [], ◌∷◌, ◌++◌,
  map, Option, none, some, ltb, leb, ◌==◌, if◌then◌else◌, length, take, drop, get_elem?, same_bytes,
  ◌>>=◌, ◌>>◌,
}
use ru_kt.Tls.{Bytes}

-- `8 * INDEX_LENGTH`
abbrev pub levels : ℕ
levels = 256

abbrev pub zero_value : Bytes
zero_value =
    0 ∷ 0 ∷ 0 ∷ 0 ∷ 0 ∷ 0 ∷ 0 ∷ 0 ∷ 0 ∷ 0 ∷ 0 ∷ 0 ∷ 0 ∷ 0 ∷ 0 ∷ 0 ∷ 0 ∷ 0 ∷ 0 ∷ 0 ∷ 0 ∷ 0 ∷ 0 ∷ 0
    ∷ 0 ∷ 0 ∷ 0 ∷ 0 ∷ 0 ∷ 0 ∷ 0 ∷ 0 ∷ []

-- A read past the end, which panics, is never done: an index has 32 bytes.
abbrev pub bit_in : Option ℕ → ℕ → ℕ
bit_in none k = 0
bit_in (some b) k = b / 2 ^ (7 - k) % 2

unfoldable pub get_bit : Bytes → ℕ → ℕ
get_bit bytes n = bit_in (get_elem? bytes (n / 8)) (n % 8)

pub record ParentNode : Type 0 where
  pub hash : Bytes
  pub ptr : Option ℕ
  pub first_update_position : Option ℕ

pub record LeafNode : Type 0 where
  pub ctr : ℕ
  pub commitment : Bytes

pub record LogEntry : Type 0 where
  pub index : Bytes
  pub copath : List ParentNode
  pub first_update_position : ℕ
  pub leaf : Option LeafNode

abbrev pub is_none : Option LeafNode → Bool
is_none none = true
is_none (some l) = false

pub data StepResult : Type 0 where
  continue : ℕ → List ParentNode → StepResult
  found : LogEntry → StepResult
  failed : List ParentNode → StepResult
  panic : StepResult

unfoldable pub combine_copaths : List ParentNode → List ParentNode → List ParentNode
combine_copaths primary secondary =
    if leb (length secondary) (length primary)
    then primary
    else primary ++ drop (length primary) secondary

-- The sibling at a level of a copath, and the stand-in beyond its end.
abbrev pub or_zero : Option Bytes → Bytes
or_zero none = zero_value
or_zero (some h) = h

unfoldable pub sibling_at : List Bytes → ℕ → Bytes
sibling_at l i = or_zero (get_elem? l i)

abbrev pub hashes : List ParentNode → List Bytes
hashes l = map (λ (n : ParentNode). n.hash) l

-- How a walk down the entries ends. `missing` is the error of `get_entry`.
pub data Walk : Type 0 where
  found : ℕ → LogEntry → Walk
  failed : List ParentNode → LogEntry → Walk
  missing : Walk
  panic : Walk

pub record SearchResult : Type 0 where
  pub log_position : ℕ
  pub commitment : Bytes
  pub inclusion_proof : List Bytes
  pub counter : ℕ
  pub depth : ℕ

pub record ProofResult : Type 0 where
  pub inclusion_proof : List Bytes
  pub commitment : Option Bytes
  pub result_type : ℕ
  pub leaf_vrf_output : Option Bytes
  pub leaf_commitment : Option Bytes
  pub depth : ℕ

pub record PrefixLeaf : Type 0 where
  pub vrf_output : Bytes
  pub commitment : Bytes

pub record PrefixSearchResult : Type 0 where
  pub result_type : ℕ
  pub leaf : Option PrefixLeaf
  pub depth : ℕ

pub record PrefixProof : Type 0 where
  pub results : List PrefixSearchResult
  pub elements : List Bytes

abbrev pub stand_in_node : LogEntry → ParentNode
stand_in_node e = record {
  hash = zero_value;
  ptr = none;
  first_update_position = some e.first_update_position;
}

-- `hash` is SHA-256.
module _ (hash : Bytes → Bytes) where
  unfoldable pub leaf_hash : Bytes → Bytes → Bytes
  leaf_hash vrf_output commitment = hash (2 ∷ (vrf_output ++ commitment))

  unfoldable pub parent_hash : Bytes → Bytes → Bytes
  parent_hash left right = hash (3 ∷ (left ++ right))

  -- The parent at a level of a node on the path of an index, and its sibling.
  unfoldable pub beside : Bytes → ℕ → Bytes → Bytes → Bytes
  beside index level sibling acc =
      if get_bit index level == 1 then parent_hash sibling acc else parent_hash acc sibling

  -- The loop of `rollup`, from below `curr` up to `level`.
  unfoldable pub rollup_loop : Bytes → List Bytes → ℕ → ℕ → Bytes → Bytes
  rollup_loop index siblings zero level acc = acc
  rollup_loop index siblings (suc curr) level acc =
      if leb level curr
      then rollup_loop index siblings curr level (beside index curr (sibling_at siblings curr) acc)
      else acc

  -- The cache `parents` only keeps values that this computes.
  unfoldable pub rollup : LogEntry → ℕ → Bytes
  rollup e level = elim e.leaf [
    | none ↦ rollup_loop e.index (hashes e.copath) (length e.copath) level zero_value
    | some l ↦ rollup_loop e.index (hashes e.copath) levels level (leaf_hash e.index l.commitment)
  ]

  abbrev pub beside_node : LogEntry → ℕ → Option ℕ → Option ℕ → ParentNode
  beside_node e depth ptr first = record {
    hash = rollup e (suc depth);
    ptr = ptr;
    first_update_position = first;
  }

  -- The `loop` of `step`. Each round adds a node; past level 256 `get_bit` panics.
  unfoldable pub step_loop : ℕ → Bytes → ℕ → List ParentNode → LogEntry → StepResult
  step_loop zero target current_ptr copath e = panic
  step_loop (suc f) target current_ptr copath e =
      let depth = length copath in
      let same = get_bit e.index depth == get_bit target depth in
      elim (get_elem? e.copath depth) [
        | some parent ↦
            if same
            then step_loop f target current_ptr (copath ++ (parent ∷ [])) e
            else (let node = beside_node e depth (some current_ptr) parent.first_update_position in
                elim parent.ptr [
                  | some next_ptr ↦ continue next_ptr (copath ++ (node ∷ []))
                  | none ↦ failed (copath ++ (node ∷ []))
                ])
        | none ↦
            if is_none e.leaf
            then failed copath
            else if same
            then step_loop f target current_ptr (copath ++ (stand_in_node e ∷ [])) e
            else failed (
                copath
                ++ (beside_node e depth (some current_ptr) (some e.first_update_position) ∷ []))
      ]

  abbrev pub with_copath : LogEntry → List ParentNode → LogEntry
  with_copath e copath = record {
    index = e.index;
    copath = copath;
    first_update_position = e.first_update_position;
    leaf = e.leaf;
  }

  unfoldable pub step : Bytes → ℕ → List ParentNode → LogEntry → StepResult
  step target current_ptr copath e =
      if not (is_none e.leaf) && same_bytes e.index target
      then found (with_copath e (combine_copaths copath e.copath))
      else step_loop (levels + 1 - length copath) target current_ptr copath e

  -- The loop that `search`, `search_for_proof` and `insert_internal` share; `get` is `get_entry`.
  -- Each round adds a node to the copath, of at most 256.
  unfoldable pub walk : ℕ → (ℕ → Option LogEntry) → Bytes → ℕ → List ParentNode → Walk
  walk zero get target curr copath = panic
  walk (suc f) get target curr copath = elim (get curr) [
    | none ↦ missing
    | some e ↦ elim (step target curr copath e) [
      | continue next_ptr cp ↦ walk f get target next_ptr cp
      | found final_entry ↦ found curr final_entry
      | failed cp ↦ failed cp e
      | panic ↦ panic
    ]
  ]
