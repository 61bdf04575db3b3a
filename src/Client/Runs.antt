-- ===== src/Client/Runs.antt =====
-- A first head of a log with one entry, and the theorems at concrete inputs. The signature scheme stands
-- for any; here a signature is the key itself.
use ru_kt.Common.{ℕ, ◌≡◌, refl, Bool, true, List, [], ◌∷◌, map, none, some, All, same_bytes, ◌⊎◌}
use ru_kt.Tls.{Bytes, new_opaque_u16}
use ru_kt.Crypto.{
  PublicConfig, mode_part, serialize_configuration_public, construct_tree_head_tbs_public,
  construct_auditor_tree_head_tbs_public,
}
use ru_kt.LogMath.{
  get_roots, get_roots_loop, root, log2, leading_zeros, bit_length, shl, merkle_root,
}
use ru_kt.Merkle.{calculate_root_capturing, recursive_hash, record_value}
use ru_kt.Prefix.{zero_value}
use ru_kt.Client.{
  TreeHead, AuditorTreeHead, FullTreeHead, KtClient, tree_size_for_fth, verify_tree_head_signature,
  auditor_in_bounds, auditor_root, verify_auditor_tree_head, wanted_nodes, next_auditor_head,
  commit_updated, verify_head_and_commit,
}
use ru_kt.Client.Heads.{Confirmed, Advanced, verify_head_and_commit-Advanced}
use ru_kt.Client.Auditor.{Audited, verify_auditor_tree_head-Audited}
use ru_kt.Client.Reader.{
  ProofReader, CombinedTreeProof, new, assigned, next_timestamp, timestamp, read_timestamps,
  entries, finish,
}
use ru_kt.Client.Timestamps.{IsOrdered}
use ru_kt.Client.Reading.{read_timestamps-IsOrdered, dated, unproved, IsProved, finish_lem}

abbrev keep_input : Bytes → Bytes
keep_input x = x

abbrev by_key : Bytes → Bytes → Bytes → Bool
by_key key text signature = same_bytes key signature

abbrev config : PublicConfig
config = record {
  cipher_suite = 2;
  mode = 3;
  server_sig_pk = 11 ∷ [];
  vrf_public_key = 12 ∷ [];
  leaf_public_key = none;
  auditor_public_key = some (13 ∷ []);
  auditor_start_pos = 0;
  max_auditor_lag = 6;
  max_ahead = 7;
  max_behind = 8;
  reasonable_monitoring_window = 9;
  maximum_lifetime = none;
}

abbrev client : KtClient
client = record { state = none; retained_subtrees = []; auditor_head = none; retained_head = none }

abbrev head : TreeHead
head = record { tree_size = 1; timestamp = 100; signatures = (11 ∷ []) ∷ [] }

abbrev audit : AuditorTreeHead
audit = record { tree_size = 1; timestamp = 95; signature = 13 ∷ [] }

abbrev full : FullTreeHead
full = record { head_type = 2; tree_head = some head; auditor_tree_head = some audit }

-- The state once the head is accepted.
abbrev client_at_1 : KtClient
client_at_1 = record {
  state = some (record { tree_size = 1; root_hash = zero_value; timestamp = 100 });
  retained_subtrees = (0, zero_value) ∷ [];
  auditor_head = some (1, 95);
  retained_head = some head;
}

size_of_full : tree_size_for_fth config 100 client full ≡ some (1, some 100, true)
unfolding tree_size_for_fth
size_of_full = refl

audited_at_95 :
    verify_auditor_tree_head keep_input by_key config client full head 1 zero_value []
    ≡ some (1, 95)
unfolding verify_auditor_tree_head auditor_in_bounds auditor_root
    construct_auditor_tree_head_tbs_public serialize_configuration_public mode_part new_opaque_u16
    same_bytes
audited_at_95 = refl

verify_auditor_tree_head-Audited_example :
    Audited keep_input by_key config client full head 1 zero_value [] 1 95
verify_auditor_tree_head-Audited_example =
    verify_auditor_tree_head-Audited keep_input by_key config client full head 1 zero_value [] 1 95
      audited_at_95

accepted_at_1 :
    verify_head_and_commit keep_input by_key config client full 1
      (some 100)
      true
      (0 ∷ [])
      (zero_value ∷ [])
      []
      []
    ≡ some (client_at_1, (0, zero_value) ∷ [])
unfolding verify_head_and_commit commit_updated next_auditor_head verify_tree_head_signature
    verify_auditor_tree_head auditor_in_bounds auditor_root construct_auditor_tree_head_tbs_public
    construct_tree_head_tbs_public serialize_configuration_public mode_part new_opaque_u16
    same_bytes calculate_root_capturing recursive_hash record_value wanted_nodes get_roots
    get_roots_loop root log2 leading_zeros bit_length shl merkle_root
accepted_at_1 = refl

verify_head_and_commit-Advanced_example :
    (r : Bytes) × (calculate_root_capturing keep_input
        (0 ∷ [])
        (zero_value ∷ [])
        1
        []
        []
        (wanted_nodes keep_input by_key config full 1 [])
      ≡ some (r, (0, zero_value) ∷ []))
    × (Confirmed keep_input by_key config 100 client client_at_1 r
        ⊎ Advanced keep_input by_key config 100 client client_at_1 full r)
verify_head_and_commit-Advanced_example =
    verify_head_and_commit-Advanced keep_input by_key config 100 client client_at_1 full 1
      (some 100) true (0 ∷ []) (zero_value ∷ []) [] [] ((0, zero_value) ∷ []) size_of_full
      accepted_at_1

-- The root entry is read before the entry to its left.
abbrev proof : CombinedTreeProof
proof = record {
  timestamps = 20 ∷ 10 ∷ [];
  prefix_proofs = [];
  prefix_roots = zero_value ∷ zero_value ∷ [];
}

abbrev read : ProofReader
read = record { timestamps = []; prefix_proofs = []; assigned_ts = (1, 10) ∷ (3, 20) ∷ [] }

read_3_then_1 : read_timestamps (new proof) (3 ∷ 1 ∷ []) ≡ some read
unfolding read_timestamps timestamp next_timestamp new
read_3_then_1 = refl

read_timestamps-IsOrdered_example :
    IsOrdered read.assigned_ts
    × All (λ p. (t : ℕ) × (assigned read.assigned_ts p ≡ some t)) (3 ∷ 1 ∷ [])
read_timestamps-IsOrdered_example = read_timestamps-IsOrdered proof (3 ∷ 1 ∷ []) read read_3_then_1

finished : finish read proof [] ≡ some ((1, 10, zero_value) ∷ (3, 20, zero_value) ∷ [])
unfolding finish entries
finished = refl

abbrev no_proofs : List ℕ
no_proofs = []

abbrev finished_list : List (ℕ × ℕ × Bytes)
finished_list = (1, 10, zero_value) ∷ (3, 20, zero_value) ∷ []

finish_lem_example :
    (read.timestamps ≡ no_proofs)
    × (read.prefix_proofs ≡ [])
    × (map dated finished_list ≡ read.assigned_ts)
    × (unproved [] finished_list ≡ proof.prefix_roots)
    × All (IsProved []) finished_list
finish_lem_example = finish_lem read proof [] finished_list finished
