-- ===== src/Auditor/Runs.antt =====
-- A concrete audit, and the theorems at concrete inputs. A digest is the length of its text, a signature
-- its text, and the signatures that the server checks are keys.
use ru_kt.Common.{
  ℕ, ◌+◌, ◌≤◌, ◌<◌, ◌≡◌, refl, arith, Bool, true, List, [], ◌∷◌, Option, none, some, ltb, length,
  get_elem?, same_bytes, drop,
}
use ru_kt.Tls.{Bytes, new_opaque_u16}
use ru_kt.Crypto.{
  PublicConfig, PrivateConfig, private_mode_part, serialize_configuration,
  construct_auditor_tree_head_tbs,
}
use ru_kt.Prefix.{zero_value, leaf_hash, parent_hash}
use ru_kt.Client.{AuditorTreeHead}
use ru_kt.Auditor.Transition.{get, has_descendant, resolve, tree_root}
use ru_kt.Auditor.{AuditorUpdate, KtAuditor, process_and_sign}
use ru_kt.Auditor.Service.{
  LogProofs, Auditors, head_of, read_updates, audit, find_auditor, consistency_for,
  set_auditor_head,
}
use ru_kt.Auditor.Served.{Accepted, set_auditor_head-Accepted, audit_lem}

abbrev digest : Bytes → Bytes
digest x = length x ∷ drop 1 zero_value

abbrev sign : Bytes → Bytes
sign text = text

abbrev by_key : Bytes → Bytes → Bytes → Bool
by_key key text signature = same_bytes key signature

abbrev config : PublicConfig
config = record {
  cipher_suite = 2;
  mode = 3;
  server_sig_pk = 11 ∷ [];
  vrf_public_key = 12 ∷ [];
  leaf_public_key = none;
  auditor_public_key = some (13 ∷ []);
  auditor_start_pos = 0;
  max_auditor_lag = 6;
  max_ahead = 7;
  max_behind = 8;
  reasonable_monitoring_window = 9;
  maximum_lifetime = none;
}

abbrev auditor : KtAuditor
auditor = record {
  log_accumulator = record { tree_size = 0; peaks = [] };
  prefix_root = zero_value;
  last_timestamp = 0;
}

abbrev key : Bytes
key = 128 ∷ drop 1 zero_value

-- The first version of the log.
abbrev first_update : AuditorUpdate
first_update = record {
  timestamp = 100;
  added = record { vrf_output = key; commitment = [] } ∷ [];
  removed = [];
  proof =
      some (record {
        results = record { result_type = 3; leaf = none; depth = 0 } ∷ [];
        elements = [];
      });
}

abbrev root_at_1 : Bytes
root_at_1 = 65 ∷ drop 1 zero_value

new_root : tree_root digest (((256, key), leaf_hash digest key []) ∷ []) ≡ root_at_1
unfolding tree_root resolve get has_descendant parent_hash leaf_hash same_bytes
new_root = refl

-- An update without leaves.
abbrev empty_update : AuditorUpdate
empty_update = record {
  timestamp = 100;
  added = [];
  removed = [];
  proof = some (record { results = []; elements = [] });
}

abbrev result : KtAuditor × Option AuditorTreeHead
result = process_and_sign digest config sign by_key auditor (first_update ∷ [])

abbrev head_or : Option AuditorTreeHead → AuditorTreeHead
head_or none = record { tree_size = 0; timestamp = 0; signature = [] }
head_or (some ath) = ath

abbrev secret : PrivateConfig
secret = record {
  cipher_suite = 2;
  mode = 3;
  verifying_key = 11 ∷ [];
  vrf_public_key = 12 ∷ [];
  auditor_public_key = some (13 ∷ []);
  auditor_start_pos = 0;
  max_auditor_lag = 6;
  max_ahead = 7;
  max_behind = 8;
  reasonable_monitoring_window = 9;
  maximum_lifetime = none;
  leaf_public_key = none;
}

abbrev log : LogProofs
log = record {
  get_root = λ n. some zero_value;
  get_consistency_proof = λ m n. some (zero_value ∷ []);
}

abbrev stored : Auditors
stored =
    (
      13 ∷ [],
      record { tree_size = 2; timestamp = 50; signature = []; root_value = []; consistency = [] },
    )
    ∷ []

abbrev head : AuditorTreeHead
head = record { tree_size = 4; timestamp = 90; signature = 13 ∷ [] }

abbrev stored_after : Auditors
stored_after =
    (
      13 ∷ [],
      record {
        tree_size = 4;
        timestamp = 90;
        signature = 13 ∷ [];
        root_value = zero_value;
        consistency = zero_value ∷ [];
      },
    )
    ∷ stored

abbrev same_text : Bytes → Bytes
same_text x = x

takes :
    set_auditor_head by_key same_text secret log 5 ((14 ∷ []) ∷ (13 ∷ []) ∷ []) stored head
    ≡ some stored_after
unfolding set_auditor_head find_auditor consistency_for head_of construct_auditor_tree_head_tbs
    serialize_configuration private_mode_part new_opaque_u16 same_bytes
takes = refl

set_auditor_head-Accepted_example :
    Accepted by_key same_text secret log 5 ((14 ∷ []) ∷ (13 ∷ []) ∷ []) stored stored_after head
set_auditor_head-Accepted_example =
    set_auditor_head-Accepted by_key same_text secret log 5 ((14 ∷ []) ∷ (13 ∷ []) ∷ []) stored
      stored_after head takes

abbrev blob : ℕ → Option AuditorUpdate
blob i = some (record empty_update { timestamp = i })

abbrev page : List AuditorUpdate
page = record empty_update { timestamp = 3 } ∷ record empty_update { timestamp = 4 } ∷ []

pages : audit blob 9 3 2 ≡ some (page, true)
unfolding audit read_updates
pages = refl

audit_lem_example :
    ((k : ℕ) → k < length page → get_elem? page k ≡ blob (3 + k))
    × (length page ≤ 2)
    × (3 + length page ≤ 9)
    × (true ≡ ltb (3 + length page) 9)
    × (length page < 2 → 3 + length page ≡ 9)
audit_lem_example = audit_lem blob 9 3 2 page true (omega arith) (omega arith) pages
