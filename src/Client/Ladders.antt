-- ===== src/Client/Ladders.antt =====
-- `verify_ladder_proof` and `verify_single_lookup` of src/client/core.rs: the lookups of one log entry's
-- prefix tree. The maps of the session are association lists. `vrf_verify` is `ecvrf_verify` with the
-- configuration's suite and key.
use ru_kt.Common.{
  ℕ, suc, ◌+◌, Bool, true, false, not, ◌&&◌, ◌||◌, List, [], ◌∷◌, map, Option, none, some, ltb, leb,
  ◌==◌, if◌then◌else◌, length, get_elem?, same_bytes, ◌>>=◌, ◌>>◌, require,
}
use ru_kt.Tls.{Bytes}
use ru_kt.Crypto.{construct_vrf_input}
use ru_kt.Ladder.{base_binary_ladder, decode_search_ladder}
use ru_kt.Prefix.{PrefixProof, PrefixSearchResult}
use ru_kt.Prefix.Verify.{compute_root_from_result}

pub record BinaryLadderStep : Type 0 where
  pub proof : Bytes
  pub commitment : Option Bytes

-- `std::cmp::Ordering`, of an entry's greatest version and the target.
pub data Relation : Type 0 where
  less : Relation
  equal : Relation
  greater : Relation

-- The slots of versions in the ladder on the wire, the outputs of the VRF, and the commitments seen.
pub record Session : Type 0 where
  pub wire_index : List (ℕ × ℕ)
  pub vrf_cache : List (ℕ × Bytes)
  pub material : List (ℕ × Option Bytes)

unfoldable pub find : {A : Type 0} → List (ℕ × A) → ℕ → Option A
find [] v = none
find ((w, a) ∷ l) v = let rest = find l v in if w == v then some a else rest

-- `*wire_index.entry(version).or_insert(next_slot)`
abbrev pub slot : Option ℕ → List (ℕ × ℕ) → ℕ → ℕ × List (ℕ × ℕ)
slot (some wi) wire_index v = (wi, wire_index)
slot none wire_index v = (length wire_index, (v, length wire_index) ∷ wire_index)

unfoldable pub relate : Bool → Bool → ℕ → ℕ × Bool → Relation → Option Relation
relate greatest is_rightmost target (v, true) relation =
    if ltb target v then (if greatest then none else some Relation.greater) else some relation
relate greatest is_rightmost target (v, false) relation =
    if leb v target
    then (if greatest && is_rightmost then none else some Relation.less)
    else some relation

-- A commitment that the server sends for the target must be the target's.
abbrev pub opens_to : Option Bytes → Bytes → Bool
opens_to none target_commitment = true
opens_to (some server) target_commitment = same_bytes server target_commitment

abbrev pub is_some : Option Bytes → Bool
is_some none = false
is_some (some c) = true

-- The commitment of a lookup: `none` is an error, `some none` that of an absent version.
unfoldable pub commitment_of :
    Bool → ℕ → Bytes → BinaryLadderStep → ℕ × Bool → Option (Option Bytes)
commitment_of greatest target target_commitment step (v, true) =
    if v == target
    then (require (opens_to step.commitment target_commitment) >> some (some target_commitment))
    else (step.commitment >>= (λ c. some (some c)))
commitment_of greatest target target_commitment step (v, false) =
    if greatest && (is_some step.commitment && ltb target v) then none else some none

abbrev pub with_material :
    List (ℕ × Option Bytes) → ℕ × Bool → Option Bytes → List (ℕ × Option Bytes)
with_material material (v, true) commitment = (v, commitment) ∷ material
with_material material (v, false) commitment = material

abbrev pub agrees : Option Bytes → Bytes → Bool
agrees none root = true
agrees (some prev) root = same_bytes prev root

abbrev pub same_versions : List (ℕ × Bool) → List ℕ → Bool
same_versions [] [] = true
same_versions [] (v ∷ versions) = false
same_versions (lk ∷ decoded) [] = false
same_versions (lk ∷ decoded) (v ∷ versions) = lk.0 == v && same_versions decoded versions

-- What the loop over the lookups carries.
pub record Progress : Type 0 where
  pub relation : Relation
  pub elements_offset : ℕ
  pub computed_root : Option Bytes
  pub session : Session

module _ (hash : Bytes → Bytes) (vrf_verify : Bytes → Bytes → Option Bytes) (label : Bytes)
    (binary_ladder : List BinaryLadderStep) (target_commitment : Bytes) where
  -- The output for a version, from the cache or from the proof on the wire, which enters it.
  unfoldable pub vrf_output :
      Option Bytes → List (ℕ × Bytes) → ℕ → Bytes → Option (Bytes × List (ℕ × Bytes))
  vrf_output (some out) vrf_cache v proof = some (out, vrf_cache)
  vrf_output none vrf_cache v proof = do
    input ← construct_vrf_input label v
    out ← vrf_verify input proof
    some (out, (v, out) ∷ vrf_cache)

  unfoldable pub check_lookup :
      PrefixProof → ℕ → Bool → Bool → ℕ → ℕ × Bool → Progress → Option Progress
  check_lookup prefix_proof target greatest is_rightmost j lk p = do
    relation ← relate greatest is_rightmost target lk p.relation
    let (wi, wire_index) = slot (find p.session.wire_index lk.0) p.session.wire_index lk.0
    step ← get_elem? binary_ladder wi
    (out, vrf_cache) ←
        vrf_output (find p.session.vrf_cache lk.0) p.session.vrf_cache lk.0 step.proof
    commitment ← commitment_of greatest target target_commitment step lk
    (root, consumed) ← compute_root_from_result hash prefix_proof j out commitment p.elements_offset
    require (agrees p.computed_root root)
    some (record {
      relation = relation;
      elements_offset = p.elements_offset + consumed;
      computed_root = some root;
      session = record {
        wire_index = wire_index;
        vrf_cache = vrf_cache;
        material = with_material p.session.material lk commitment;
      };
    })

  unfoldable pub check_lookups :
      PrefixProof → ℕ → Bool → Bool → ℕ → List (ℕ × Bool) → Progress → Option Progress
  check_lookups prefix_proof target greatest is_rightmost j [] p = some p
  check_lookups prefix_proof target greatest is_rightmost j (lk ∷ decoded) p = do
    p' ← check_lookup prefix_proof target greatest is_rightmost j lk p
    check_lookups prefix_proof target greatest is_rightmost (suc j) decoded p'

  unfoldable pub verify_ladder_proof :
      PrefixProof → ℕ → Bool → Bool → Session → Option (Bytes × Relation × Session)
  verify_ladder_proof prefix_proof target greatest is_rightmost session = do
    decoded ←
        decode_search_ladder (map (λ (r : PrefixSearchResult). r.result_type) prefix_proof.results)
          target
    p ← check_lookups prefix_proof target greatest is_rightmost 0 decoded (record {
      relation = Relation.equal;
      elements_offset = 0;
      computed_root = none;
      session = session;
    })
    require (p.elements_offset == length prefix_proof.elements)
    require (not (greatest && is_rightmost) || same_versions decoded (base_binary_ladder target))
    root ← p.computed_root
    some (root, p.relation, p.session)

  -- The root, whether the version is included, and the session.
  unfoldable pub verify_single_lookup : PrefixProof → ℕ → Session → Option (Bytes × Bool × Session)
  verify_single_lookup prefix_proof version session = do
    require (length prefix_proof.results == 1)
    result ← get_elem? prefix_proof.results 0
    let inclusion = result.result_type == 1
    let (wi, wire_index) = slot (find session.wire_index version) session.wire_index version
    step ← get_elem? binary_ladder wi
    (out, vrf_cache) ←
        vrf_output (find session.vrf_cache version) session.vrf_cache version step.proof
    (root, consumed) ←
        compute_root_from_result hash prefix_proof 0 out
          (if inclusion then some target_commitment else none) 0
    require (consumed == length prefix_proof.elements)
    some (
      root,
      inclusion,
      record { wire_index = wire_index; vrf_cache = vrf_cache; material = session.material },
    )
