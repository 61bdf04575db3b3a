-- ===== src/Reads/Runs.antt =====
-- A concrete tree, and the theorems at it.
use ru_kt.Common.{
  ℕ, ◌+◌, ◌*◌, ◌≡◌, ◌↔◌, refl, arith, Bool, List, [], ◌∷◌, Option, none, some, ◌==◌, if◌then◌else◌,
}
use ru_kt.Tls.{Bytes}
use ru_kt.Server.{greatest}
use ru_kt.Crypto.{PublicConfig}
use ru_kt.Client.{TreeHead, TrustedState, KtClient, check_timestamp_bounds, tree_size_for_fth}
use ru_kt.Reads.{
  Tree, find_log_entry_for_prefix_pos, find_loop, get_full_tree_head, expired, prune_loop,
  prune_from, prune_within, prune_expired_versions,
}
use ru_kt.Reads.Search.{First, find_log_entry_for_prefix_pos-First}
use ru_kt.Reads.Pruning.{Pruned, prune_expired_versions-Pruned}
use ru_kt.Reads.Requests.{
  MonitorMapEntry, validate_monitor_entries, Traversals, monitored_tree_size, validate_loop,
  OwnerMonitorRequest, owner_monitor,
}
use ru_kt.Reads.Monitoring.{
  Ascending, validate_monitor_entries_iff, Answered, owner_monitor-Answered,
}
use ru_kt.Reads.Heads.{last_of, Behind, tree_size_for_fth-get_full_tree_head}

-- Three prefix tree positions for each log entry.
abbrev ptr : ℕ → ℕ
ptr i = 3 * i + 2

abbrev prefix_ptr : ℕ → Option ℕ
prefix_ptr i = some (ptr i)

find_log_entry_for_prefix_pos-First_example :
    (e : ℕ) × (find_log_entry_for_prefix_pos prefix_ptr 7 5 ≡ some e) × First ptr 7 4 e
find_log_entry_for_prefix_pos-First_example =
    find_log_entry_for_prefix_pos-First prefix_ptr ptr 5 (λ i h. refl) (λ i j h k. omega arith) 7
      (omega arith) (omega arith)

found_at_2 : find_log_entry_for_prefix_pos prefix_ptr 7 5 ≡ some 2
unfolding find_log_entry_for_prefix_pos find_loop
found_at_2 = refl

abbrev head : TreeHead
head = record { tree_size = 5; timestamp = 1000; signatures = [] }

abbrev alice : Bytes
alice = 97 ∷ []

-- Log entry i is of time 200 * i, and Alice's versions are in the entries 0, 1 and 4.
abbrev tree : Tree
tree = record {
  latest = some head;
  auditors = [];
  prefix_ptr = prefix_ptr;
  timestamp = λ i. some (200 * i);
  history = λ label. (0, 1) ∷ (1, 4) ∷ (2, 14) ∷ [];
  values = λ pos. some (pos ∷ []);
  openings = λ pos. some (pos ∷ []);
  maximum_lifetime = some 700;
}

greatest_of_alice : greatest (tree.history alice) ≡ some 2
unfolding greatest
greatest_of_alice = refl

-- Version 0 is 800 old, and goes.
abbrev pruned : Tree
pruned = record tree {
  values = λ k. if 1 == k then none else some (k ∷ []);
  openings = λ k. if 1 == k then none else some (k ∷ []);
}

prunes : prune_expired_versions tree alice ≡ some (pruned, 1)
unfolding prune_expired_versions prune_within prune_from prune_loop expired
    find_log_entry_for_prefix_pos find_loop greatest
prunes = refl

prune_expired_versions-Pruned_example : Pruned tree 5 800 700 2 (tree.history alice) pruned
prune_expired_versions-Pruned_example =
    prune_expired_versions-Pruned tree pruned alice 1 700 800 2 refl refl refl greatest_of_alice
      prunes

abbrev entries : List MonitorMapEntry
entries = record { position = 1; version = 0 } ∷ record { position = 3; version = 2 } ∷ []

validate_monitor_entries_iff_example :
    (validate_monitor_entries entries 5 ≡ some _) ↔ Ascending none entries 5
validate_monitor_entries_iff_example = validate_monitor_entries_iff entries 5

abbrev config : PublicConfig
config = record {
  cipher_suite = 2;
  mode = 1;
  server_sig_pk = 11 ∷ [];
  vrf_public_key = 12 ∷ [];
  leaf_public_key = none;
  auditor_public_key = none;
  auditor_start_pos = 0;
  max_auditor_lag = 6;
  max_ahead = 700;
  max_behind = 800;
  reasonable_monitoring_window = 9;
  maximum_lifetime = none;
}

abbrev at_3 : TrustedState
at_3 = record { tree_size = 3; root_hash = []; timestamp = 600 }

abbrev client : KtClient
client = record {
  state = some at_3;
  retained_subtrees = [];
  auditor_head = none;
  retained_head = none;
}

client-Behind : Behind config 1000 (some at_3) 5
unfolding Behind check_timestamp_bounds
client-Behind = (omega arith, refl)

tree_size_for_fth-get_full_tree_head_example :
    (ts : Option ℕ) × (updated : Bool) × (tree_size_for_fth config 1000 client
        (get_full_tree_head tree (last_of (some at_3)))
      ≡ some (5, ts, updated))
tree_size_for_fth-get_full_tree_head_example =
    tree_size_for_fth-get_full_tree_head config 1000 tree head (some at_3) client refl refl
      (omega arith) client-Behind

abbrev traversals : Traversals ℕ ℕ
traversals = record {
  traverse_contact_monitoring = λ size label entries last. some size;
  traverse_owner_init = λ size label start last. some (size, start, []);
  traverse_distinguished = λ size stop last. some size;
  traverse_owner_monitor = λ size label entries start last. some (size, start);
}

abbrev request : OwnerMonitorRequest
request = record {
  last = some 5;
  label = alice;
  entries = entries;
  start = 2;
  greatest_version = some 2;
}

answered : owner_monitor traversals tree request ≡ some (get_full_tree_head tree (some 5), 5, 2)
unfolding owner_monitor monitored_tree_size validate_monitor_entries validate_loop greatest
answered = refl

owner_monitor-Answered_example :
    Answered traversals tree request (get_full_tree_head tree (some 5)) 5 2
owner_monitor-Answered_example =
    owner_monitor-Answered traversals tree request (get_full_tree_head tree (some 5)) 5 2 answered
