-- ===== src/Client/LadderRuns.antt =====
-- The lookups for the target 0 in a tree with version 0 of a label only, and the theorems at them. The
-- hash and the VRF stand for any; here the hash keeps the first byte, and a proof is its output.
use ru_kt.Common.{
  ℕ, ◌≡◌, refl, arith, true, false, List, [], ◌∷◌, Option, none, some, take, same_bytes,
}
use ru_kt.Tls.{Bytes, new_opaque_u8}
use ru_kt.Crypto.{construct_vrf_input}
use ru_kt.Ladder.{
  base_binary_ladder, decode_search_ladder, decode_midpoints, powers, with_midpoints, midpoints,
  decode_powers, finish, also, power_value, last_two,
}
use ru_kt.Prefix.{PrefixProof, zero_value, get_bit, beside, parent_hash, leaf_hash, sibling_at}
use ru_kt.Prefix.Verify.{climb, terminal, compute_root_from_result}
use ru_kt.Client.Ladders.{
  BinaryLadderStep, Relation, Session, find, relate, commitment_of, vrf_output, check_lookup,
  check_lookups, verify_ladder_proof,
}
use ru_kt.Client.Lookups.{
  Accepted, IsCache, verify_ladder_proof-Accepted, verify_ladder_proof-greatest,
}

abbrev first_byte : Bytes → Bytes
first_byte x = take 1 x

abbrev proof_as_output : Bytes → Bytes → Option Bytes
proof_as_output input proof = some proof

abbrev label : Bytes
label = 97 ∷ []

-- The index whose first bit is one.
abbrev high : Bytes
high =
    128 ∷ 0 ∷ 0 ∷ 0 ∷ 0 ∷ 0 ∷ 0 ∷ 0 ∷ 0 ∷ 0 ∷ 0 ∷ 0 ∷ 0 ∷ 0 ∷ 0 ∷ 0 ∷ 0 ∷ 0 ∷ 0 ∷ 0 ∷ 0 ∷ 0 ∷ 0 ∷ 0
    ∷ 0 ∷ 0 ∷ 0 ∷ 0 ∷ 0 ∷ 0 ∷ 0 ∷ 0 ∷ []

abbrev steps : List BinaryLadderStep
steps =
    record { proof = zero_value; commitment = none }
    ∷ record { proof = high; commitment = none }
    ∷ []

abbrev fresh : Session
fresh = record { wire_index = []; vrf_cache = []; material = [] }

abbrev after : Session
after = record {
  wire_index = (1, 1) ∷ (0, 0) ∷ [];
  vrf_cache = (1, high) ∷ (0, zero_value) ∷ [];
  material = (0, some (7 ∷ [])) ∷ [];
}

-- Version 0 is included, and version 1 parts from its entry at the root.
abbrev proof : PrefixProof
proof = record {
  results =
      record { result_type = 1; leaf = none; depth = 0 }
      ∷ record { result_type = 3; leaf = none; depth = 1 }
      ∷ [];
  elements = (3 ∷ []) ∷ [];
}

fresh-IsCache : IsCache first_byte proof_as_output label steps (7 ∷ []) fresh.vrf_cache
unfolding IsCache
fresh-IsCache = _

accepted_at_0 :
    verify_ladder_proof first_byte proof_as_output label steps (7 ∷ []) proof 0 true true fresh
    ≡ some (3 ∷ [], Relation.equal, after)
unfolding verify_ladder_proof check_lookups check_lookup relate find vrf_output commitment_of
    construct_vrf_input new_opaque_u8 compute_root_from_result terminal climb get_bit same_bytes
    beside parent_hash leaf_hash sibling_at decode_search_ladder decode_powers decode_midpoints
    finish also power_value base_binary_ladder powers with_midpoints midpoints last_two
accepted_at_0 = refl

verify_ladder_proof-Accepted_example :
    Accepted first_byte proof_as_output label steps (7 ∷ []) proof 0 (3 ∷ []) Relation.equal after
verify_ladder_proof-Accepted_example =
    verify_ladder_proof-Accepted first_byte proof_as_output label steps (7 ∷ []) proof 0 fresh after
      (3 ∷ []) Relation.equal fresh-IsCache accepted_at_0

decoded_at_0 : decode_search_ladder (1 ∷ 3 ∷ []) 0 ≡ some ((0, true) ∷ (1, false) ∷ [])
unfolding decode_search_ladder decode_powers decode_midpoints finish also power_value
decoded_at_0 = refl

verify_ladder_proof-greatest_example : ◌≡◌ {A = ℕ} 0 0
verify_ladder_proof-greatest_example =
    verify_ladder_proof-greatest first_byte proof_as_output label steps (7 ∷ []) proof 0 0 fresh
      after (3 ∷ []) Relation.equal ((0, true) ∷ (1, false) ∷ []) (omega arith) (omega arith)
      fresh-IsCache decoded_at_0 (refl, (refl, _)) accepted_at_0
