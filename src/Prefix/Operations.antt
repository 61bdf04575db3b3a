-- ===== src/Prefix/Operations.antt =====
-- src/tree/prefix/read.rs and write.rs, and `generate_ladder_proof` of src/tree/read.rs: searches and insertions in the prefix tree. `get` is
-- `get_entry`, which reads the store through its caches.
use ru_kt.Common.{
  ℕ, suc, ◌+◌, ◌%◌, ◌^◌, List, [], ◌∷◌, ◌++◌, Option, none, some, ◌==◌, if◌then◌else◌, length,
  ◌>>=◌,
}
use ru_kt.Tls.{Bytes}
use ru_kt.Prefix.{
  PrefixSearchResult, PrefixProof, LogEntry, LeafNode, ParentNode, Walk, SearchResult, ProofResult,
  hashes, levels, rollup, walk,
}

abbrev pub no_leaf : LeafNode
no_leaf = record { ctr = 0; commitment = [] }

-- `leaf.as_ref().unwrap()`: a found entry has its leaf.
abbrev pub leaf_of : LogEntry → LeafNode
leaf_of e = elim e.leaf [ none ↦ no_leaf | some l ↦ l ]

-- `unwrap_or(0)`
abbrev pub unwrap_or : Option ℕ → ℕ
unwrap_or none = 0
unwrap_or (some p) = p

abbrev pub result_at : ℕ → LogEntry → SearchResult
result_at curr e = record {
  log_position = curr;
  commitment = (leaf_of e).commitment;
  inclusion_proof = hashes e.copath;
  counter = (leaf_of e).ctr;
  depth = length e.copath;
}

-- `none` is an error, `some none` an absent key.
unfoldable pub search_result : Walk → Option (Option SearchResult)
search_result (Walk.found curr e) = some (some (result_at curr e))
search_result (Walk.failed copath e) = some none
search_result Walk.missing = none
search_result Walk.panic = none

unfoldable pub proof_result : Walk → Option ProofResult
proof_result (Walk.found curr e) = some (record {
  inclusion_proof = hashes e.copath;
  commitment = some (leaf_of e).commitment;
  result_type = 1;
  leaf_vrf_output = none;
  leaf_commitment = none;
  depth = length e.copath;
})
proof_result (Walk.failed copath e) = elim e.leaf [
  | some l ↦ some (record {
    inclusion_proof = hashes copath;
    commitment = none;
    result_type = 2;
    leaf_vrf_output = some e.index;
    leaf_commitment = some l.commitment;
    depth = length copath;
  })
  | none ↦ some (record {
    inclusion_proof = hashes copath;
    commitment = none;
    result_type = 3;
    leaf_vrf_output = none;
    leaf_commitment = none;
    depth = length copath;
  })
]
proof_result Walk.missing = none
proof_result Walk.panic = none

abbrev pub new_entry : ℕ → Bytes → Bytes → List ParentNode → ℕ → LogEntry
new_entry new_pos index commitment copath ctr = record {
  index = index;
  copath = copath;
  first_update_position = new_pos;
  leaf = some (record { ctr = ctr; commitment = commitment });
}

abbrev or_default : Option Bytes → Bytes
or_default none = []
or_default (some b) = b

-- The result that goes on the wire.
unfoldable pub result_of : ProofResult → PrefixSearchResult
result_of r = record {
  result_type = r.result_type;
  leaf =
      if r.result_type == 2
      then some (record {
        vrf_output = or_default r.leaf_vrf_output;
        commitment = or_default r.leaf_commitment;
      })
      else none;
  depth = r.depth;
}

module _ (hash : Bytes → Bytes) where
  unfoldable pub search : (ℕ → Option LogEntry) → ℕ → Bytes → Option (Option SearchResult)
  search get ptr index = search_result (walk hash (levels + 1) get index ptr [])

  unfoldable pub search_for_proof : (ℕ → Option LogEntry) → ℕ → Bytes → Option ProofResult
  search_for_proof get ptr index = proof_result (walk hash (levels + 1) get index ptr [])

  -- `prove` gives the index of a version of the label, by the VRF.
  unfoldable pub generate_ladder_proof :
      (ℕ → Option LogEntry)
      → (ℕ → Option Bytes)
      → ℕ
      → List ℕ
      → Option (PrefixProof × List (ℕ × Option Bytes))
  generate_ladder_proof get prove prefix_ptr [] = some (record { results = []; elements = [] }, [])
  generate_ladder_proof get prove prefix_ptr (v ∷ versions) = do
    idx ← prove v
    res ← search_for_proof get prefix_ptr idx
    (proof, ladder_tuples) ← generate_ladder_proof get prove prefix_ptr versions
    some (
      record {
        results = result_of res ∷ proof.results;
        elements = res.inclusion_proof ++ proof.elements;
      },
      (v, res.commitment) ∷ ladder_tuples,
    )

  -- The counter of versions is a u32.
  unfoldable pub inserted : ℕ → Bytes → Bytes → Walk → Option LogEntry
  inserted new_pos index commitment (Walk.found curr e) =
      some (new_entry new_pos index commitment e.copath (((leaf_of e).ctr + 1) % 2 ^ 32))
  inserted new_pos index commitment (Walk.failed copath e) =
      some (new_entry new_pos index commitment copath 0)
  inserted new_pos index commitment Walk.missing = none
  inserted new_pos index commitment Walk.panic = none

  -- The new root, the result for the caller, and the entry that the store gets at `new_pos`.
  unfoldable pub insert_internal :
      (ℕ → Option LogEntry)
      → ℕ
      → Option ℕ
      → Bytes
      → Bytes
      → Option (Bytes × SearchResult × LogEntry)
  insert_internal get new_pos current_ptr index commitment = do
    e ← (elim current_ptr [
      | none ↦ some (new_entry new_pos index commitment [] 0)
      | some ptr ↦ inserted new_pos index commitment (walk hash (levels + 1) get index ptr [])
    ])
    some (rollup hash e 0, result_at new_pos e, e)

  -- The overlay of a batch: the entries written so far stand before the store.
  abbrev pub put : (ℕ → Option LogEntry) → ℕ → LogEntry → ℕ → Option LogEntry
  put get pos e p = if p == pos then some e else get p

  -- The root and the result of each insertion, the entries as `get` then finds them, and the last
  -- position.
  unfoldable pub batch_insert_loop :
      (ℕ → Option LogEntry)
      → ℕ
      → Option ℕ
      → List (Bytes × Bytes)
      → Option (List Bytes × List SearchResult × (ℕ → Option LogEntry) × Option ℕ)
  batch_insert_loop get alloc_version current_ptr [] = some ([], [], get, current_ptr)
  batch_insert_loop get alloc_version current_ptr ((index, commitment) ∷ entries) = do
    (root, res, e) ← insert_internal get alloc_version current_ptr index commitment
    (roots, results, get', ptr) ←
        batch_insert_loop (put get alloc_version e) (suc alloc_version) (some alloc_version) entries
    some (root ∷ roots, res ∷ results, get', ptr)

  unfoldable pub batch_insert :
      (ℕ → Option LogEntry)
      → ℕ
      → Option ℕ
      → List (Bytes × Bytes)
      → Option (List Bytes × List SearchResult × (ℕ → Option LogEntry) × ℕ)
  batch_insert get start_version current_root_ptr entries = do
    (roots, results, get', ptr) ← batch_insert_loop get start_version current_root_ptr entries
    some (roots, results, get', unwrap_or ptr)
