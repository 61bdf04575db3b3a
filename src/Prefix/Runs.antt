-- ===== src/Prefix/Runs.antt =====
-- A tree of one entry, and the theorems at concrete inputs. The hash stands for any; here it keeps the
-- first byte that tells a leaf from a parent.
use ru_kt.Common.{ℕ, ◌≡◌, ◌≢◌, refl, arith, [], ◌∷◌, Option, none, some, take, same_bytes}
use ru_kt.Tls.{Bytes}
use ru_kt.Prefix.{
  rollup, LogEntry, ProofResult, PrefixProof, zero_value, walk, step, step_loop, get_bit,
}
use ru_kt.Prefix.Operations.{new_entry, put, search_for_proof, proof_result, result_of}
use ru_kt.Prefix.Verify.{compute_root_from_result}
use ru_kt.Prefix.Index.{IsIndex}
use ru_kt.Prefix.Step.{IsStore}
use ru_kt.Prefix.Replay.{search_for_proof-ne-none, compute_root_from_result-search_for_proof}
use ru_kt.Prefix.Insert.{IsStore-put}
use ru_kt.Prefix.Batch.{Batch}

abbrev first_byte : Bytes → Bytes
first_byte x = take 1 x

abbrev nothing : ℕ → Option LogEntry
nothing p = none

-- The index whose first bit is one.
abbrev high : Bytes
high =
    128 ∷ 0 ∷ 0 ∷ 0 ∷ 0 ∷ 0 ∷ 0 ∷ 0 ∷ 0 ∷ 0 ∷ 0 ∷ 0 ∷ 0 ∷ 0 ∷ 0 ∷ 0 ∷ 0 ∷ 0 ∷ 0 ∷ 0 ∷ 0 ∷ 0 ∷ 0 ∷ 0
    ∷ 0 ∷ 0 ∷ 0 ∷ 0 ∷ 0 ∷ 0 ∷ 0 ∷ 0 ∷ []

low-IsIndex : IsIndex zero_value
low-IsIndex = record { wide = refl; bytes = ground arith }

high-IsIndex : IsIndex high
high-IsIndex = record { wide = refl; bytes = ground arith }

abbrev only : LogEntry
only = new_entry 0 zero_value (7 ∷ []) [] 0

abbrev store : ℕ → Option LogEntry
store = put first_byte nothing 0 only

nothing-IsStore : IsStore first_byte nothing
nothing-IsStore p e h = absurd (cc h)

store-IsStore : IsStore first_byte store
store-IsStore = IsStore-put first_byte nothing 0 only refl nothing-IsStore (record {
  index = low-IsIndex;
  leaf = λ n. cc n;
  copath = record { short = omega arith; links = λ d n h. absurd (cc h) };
})

-- The absent index parts from the only entry at the root.
abbrev absent : ProofResult
absent = record {
  inclusion_proof = rollup first_byte only 1 ∷ [];
  commitment = none;
  result_type = 2;
  leaf_vrf_output = some zero_value;
  leaf_commitment = some (7 ∷ []);
  depth = 1;
}

search_for_proof-absent : search_for_proof first_byte store 0 high ≡ some absent
unfolding search_for_proof proof_result walk step step_loop get_bit same_bytes
search_for_proof-absent = refl

search_for_proof-ne-none_example : search_for_proof first_byte store 0 high ≢ none
search_for_proof-ne-none_example =
    search_for_proof-ne-none first_byte store 0 only high store-IsStore refl high-IsIndex

abbrev wire : PrefixProof
wire = record {
  results = result_of absent ∷ [];
  elements = zero_value ∷ rollup first_byte only 1 ∷ [];
}

compute_root_from_result-search_for_proof_example :
    compute_root_from_result first_byte wire 0 high absent.commitment 1
    ≡ some (rollup first_byte only 0, absent.depth)
compute_root_from_result-search_for_proof_example =
    compute_root_from_result-search_for_proof first_byte store 0 only high absent wire 0
      (zero_value ∷ []) [] store-IsStore refl high-IsIndex search_for_proof-absent refl refl
      (omega arith)
