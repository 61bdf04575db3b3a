-- ===== src/Gossip/Runs.antt =====
-- A fork and false evidence of one, at concrete encodings, and the theorems at concrete inputs.
use ru_kt.Common.{
  ℕ, zero, suc, ◌≡◌, ◌↔◌, ◌<◌, refl, arith, Bool, true, List, [], ◌∷◌, ◌++◌, Option, none, some,
  length, inl, inr, take, drop, take-append, drop-append, same_bytes, ◌>>=◌,
}
use ru_kt.Tls.{Bytes, new_opaque_u16}
use ru_kt.Crypto.{
  PublicConfig, mode_part, serialize_configuration_public, construct_tree_head_tbs_public,
}
use ru_kt.Crypto.Signed.{IsConfig}
use ru_kt.Prefix.{zero_value}
use ru_kt.Client.{
  TreeHead, TrustedState, KtClient, FullTreeHead, verify_tree_head_signature, wanted_nodes,
  next_auditor_head, commit_updated, verify_head_and_commit,
}
use ru_kt.Gossip.{
  Encodings, GossipHead, ForkEvidence, GossipOutcome, decode_gossip, verify_gossip_head,
  verify_fork_evidence, export_head, forked, compared, check_gossiped_head, compare_roots,
}
use ru_kt.Gossip.Evidence.{
  ReadBack, Forked, verify_fork_evidence-Forked, Retained, verify_fork_evidence-check_gossiped_head,
}
use ru_kt.LogMath.{
  get_roots, get_roots_loop, root, log2, leading_zeros, bit_length, shl, merkle_root,
}
use ru_kt.Merkle.{calculate_root_capturing, recursive_hash, record_value}
use ru_kt.Gossip.Retention.{IsRetaining, verify_head_and_commit-IsRetaining}
use ru_kt.Gossip.Overlap.{Overlaps, compare_roots_iff}

-- The signatures, each after its length.
abbrev flat : List Bytes → Bytes
flat [] = []
flat (s ∷ sigs) = length s ∷ (s ++ flat sigs)

abbrev unflat : ℕ → Bytes → Option (List Bytes)
unflat zero bytes = some []
unflat (suc n) [] = none
unflat (suc n) (l ∷ bytes) = do rest ← unflat n (drop l bytes); some (take l bytes ∷ rest)

unflat-flat : (sigs : List Bytes) → unflat (length sigs) (flat sigs) ≡ some sigs
unflat-flat [] = refl
unflat-flat (s ∷ sigs) =
    rw (drop-append s (flat sigs), take-append s (flat sigs), unflat-flat sigs) refl

abbrev read_head : Bytes → Option TreeHead
read_head (size ∷ time ∷ n ∷ bytes) = do
  sigs ← unflat n bytes
  some (record { tree_size = size; timestamp = time; signatures = sigs })
read_head [] = none
read_head (a ∷ []) = none
read_head (a ∷ b ∷ []) = none

-- A first digit tells the case of the letters, and both cases are read.
abbrev read_hex : Bytes → Option Bytes
read_hex [] = none
read_hex (letters ∷ bytes) = some bytes

abbrev enc : Encodings
enc = record {
  hex_encode = λ b. 0 ∷ b;
  hex_decode = read_hex;
  encode_head = λ th. th.tree_size ∷ th.timestamp ∷ length th.signatures ∷ flat th.signatures;
  decode_head = read_head;
}

enc-ReadBack : ReadBack enc
enc-ReadBack = record { hex = λ b. refl; heads = λ th. rw (unflat-flat th.signatures) refl }

abbrev keep_input : Bytes → Bytes
keep_input x = x

abbrev by_key : Bytes → Bytes → Bytes → Bool
by_key key text signature = same_bytes key signature

abbrev config : PublicConfig
config = record {
  cipher_suite = 2;
  mode = 1;
  server_sig_pk = 11 ∷ [];
  vrf_public_key = 12 ∷ [];
  leaf_public_key = none;
  auditor_public_key = none;
  auditor_start_pos = 0;
  max_auditor_lag = 6;
  max_ahead = 7;
  max_behind = 8;
  reasonable_monitoring_window = 9;
  maximum_lifetime = none;
}

abbrev head : TreeHead
head = record { tree_size = 1; timestamp = 100; signatures = (11 ∷ []) ∷ [] }

abbrev head_hex : Bytes
head_hex = 0 ∷ 1 ∷ 100 ∷ 1 ∷ 1 ∷ 11 ∷ []

abbrev other_root : Bytes
other_root = 1 ∷ drop 1 zero_value

-- One root in two spellings, and one head: no fork, and yet the evidence is accepted.
abbrev two_spellings : ForkEvidence
two_spellings = record {
  tree_size = 1;
  root_a = 0 ∷ zero_value;
  head_a = head_hex;
  root_b = 1 ∷ zero_value;
  head_b = head_hex;
}

two_spellings_accepted : verify_fork_evidence enc by_key config two_spellings ≡ some _
unfolding verify_fork_evidence verify_gossip_head decode_gossip construct_tree_head_tbs_public
    serialize_configuration_public mode_part new_opaque_u16 same_bytes
two_spellings_accepted = refl

abbrev evidence : ForkEvidence
evidence = record {
  tree_size = 1;
  root_a = 0 ∷ zero_value;
  head_a = head_hex;
  root_b = 0 ∷ other_root;
  head_b = head_hex;
}

evidence_accepted : verify_fork_evidence enc by_key config evidence ≡ some _
unfolding verify_fork_evidence verify_gossip_head decode_gossip construct_tree_head_tbs_public
    serialize_configuration_public mode_part new_opaque_u16 same_bytes
evidence_accepted = refl

config-IsConfig : IsConfig config
config-IsConfig = record {
  cipher_suite = omega arith;
  mode = omega arith;
  start = omega arith;
  lag = omega arith;
  ahead = omega arith;
  behind = omega arith;
  window = omega arith;
  lifetime = _;
}

verify_fork_evidence-Forked_example : Forked enc keep_input by_key config evidence
verify_fork_evidence-Forked_example =
    verify_fork_evidence-Forked enc keep_input by_key config evidence enc-ReadBack config-IsConfig
      (omega arith) (zero_value, refl) (other_root, refl) evidence_accepted

abbrev state : TrustedState
state = record { tree_size = 1; root_hash = zero_value; timestamp = 100 }

abbrev client : KtClient
client = record {
  state = some state;
  retained_subtrees = (0, zero_value) ∷ [];
  auditor_head = none;
  retained_head = some head;
}

abbrev gossip : GossipHead
gossip = record { tree_size = 1; root_hash = 0 ∷ other_root; tree_head = head_hex }

client-Retained : Retained enc keep_input by_key config client state head
unfolding verify_tree_head_signature construct_tree_head_tbs_public serialize_configuration_public
    mode_part new_opaque_u16 same_bytes
client-Retained = record { has_state = refl; has_head = refl; valid = refl }

reports_fork :
    check_gossiped_head enc by_key config client gossip ≡ some (GossipOutcome.fork evidence)
unfolding check_gossiped_head compared forked export_head verify_gossip_head decode_gossip
    construct_tree_head_tbs_public serialize_configuration_public mode_part new_opaque_u16
    same_bytes
reports_fork = refl

verify_fork_evidence-check_gossiped_head_example :
    verify_fork_evidence enc by_key config evidence ≡ some _
verify_fork_evidence-check_gossiped_head_example =
    verify_fork_evidence-check_gossiped_head enc keep_input by_key config client gossip evidence
      state head enc-ReadBack client-Retained reports_fork

abbrev newer : List Bytes
newer = (2 ∷ []) ∷ (3 ∷ []) ∷ (4 ∷ []) ∷ []

abbrev older : List Bytes
older = (1 ∷ []) ∷ (2 ∷ []) ∷ (3 ∷ []) ∷ []

compare_roots_iff_example :
    (compare_roots older newer ≡ true)
    ↔ ((length older ≡ length newer) × ((x : ℕ) × (x < length older) × Overlaps older newer x))
compare_roots_iff_example = compare_roots_iff older newer

abbrev full : FullTreeHead
full = record { head_type = 2; tree_head = some head; auditor_tree_head = none }

abbrev fresh : KtClient
fresh = record { state = none; retained_subtrees = []; auditor_head = none; retained_head = none }

accepted_at_1 :
    verify_head_and_commit keep_input by_key config fresh full 1
      (some 100)
      true
      (0 ∷ [])
      (zero_value ∷ [])
      []
      []
    ≡ some (client, (0, zero_value) ∷ [])
unfolding verify_head_and_commit commit_updated next_auditor_head verify_tree_head_signature
    construct_tree_head_tbs_public serialize_configuration_public mode_part new_opaque_u16
    same_bytes calculate_root_capturing recursive_hash record_value wanted_nodes get_roots
    get_roots_loop root log2 leading_zeros bit_length shl merkle_root
accepted_at_1 = refl

fresh-IsRetaining : IsRetaining enc keep_input by_key config fresh
unfolding IsRetaining
fresh-IsRetaining = inl refl

verify_head_and_commit-IsRetaining_example : IsRetaining enc keep_input by_key config client
verify_head_and_commit-IsRetaining_example =
    verify_head_and_commit-IsRetaining enc keep_input by_key config fresh client full 1 (some 100)
      true (0 ∷ []) (zero_value ∷ []) [] [] ((0, zero_value) ∷ []) (inr fresh-IsRetaining)
      accepted_at_1
