-- ===== src/Prefix/Verify.antt =====
-- `compute_root_from_result` of src/client/verifier.rs: the root of the prefix tree that one result of
-- a proof stands for.
use ru_kt.Common.{
  ℕ, zero, suc, ◌+◌, ◌^◌, List, Option, none, some, ltb, ◌==◌, if◌then◌else◌, length, take, drop,
  get_elem?, same_bytes, ◌>>=◌,
}
use ru_kt.Tls.{Bytes}
use ru_kt.Prefix.{
  PrefixProof, PrefixSearchResult, zero_value, levels, leaf_hash, sibling_at, beside,
}

module _ (hash : Bytes → Bytes) where
  -- `for level in (0..start_level).rev()`; beyond the elements, of which there are `depth`, the
  -- sibling is the zero value.
  unfoldable pub climb : Bytes → List Bytes → ℕ → Bytes → Bytes
  climb vrf_output elements zero curr = curr
  climb vrf_output elements (suc level) curr =
      climb vrf_output elements level
        (beside hash vrf_output level (sibling_at elements level) curr)

  -- The value and the level where the path starts.
  unfoldable pub terminal : PrefixSearchResult → Bytes → Option Bytes → Option (Bytes × ℕ)
  terminal result vrf_output commitment =
      if result.result_type == 1
      then (do comm ← commitment; some (leaf_hash hash vrf_output comm, levels))
      else if result.result_type == 2
      then (do
        leaf ← result.leaf
        if same_bytes leaf.vrf_output vrf_output then none else some (zero_value, result.depth))
      else if result.result_type == 3
      then some (zero_value, result.depth)
      else none

  unfoldable pub compute_root_from_result :
      PrefixProof → ℕ → Bytes → Option Bytes → ℕ → Option (Bytes × ℕ)
  compute_root_from_result proof result_idx vrf_output commitment elements_offset = do
    result ← get_elem? proof.results result_idx
    if ltb levels result.depth then none else (do
      (curr, start_level) ← terminal result vrf_output commitment
      if ltb (elements_offset + result.depth) (2 ^ 64)
          then (if ltb (length proof.elements) (elements_offset + result.depth)
              then none
              else some (
                climb vrf_output (take result.depth (drop elements_offset proof.elements))
                    start_level curr,
                result.depth,
              ))
          else none)
