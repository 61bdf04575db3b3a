-- ===== src/Client.antt =====
-- src/client/core.rs: the client's trusted state, and the checks by which a tree head replaces it. An
-- error is `none`. The signature scheme is not part of the repository: `verify` tells whether bytes are
-- a key and a signature by it of a text. `now` is the clock in milliseconds.
pub mod Reader
pub mod Timestamps
pub mod Reading
pub mod Heads
pub mod Auditor
pub mod Ladders
pub mod LookupParts
pub mod Lookups
mod LadderRuns
mod Runs
use ru_kt.Common.{
  require, ℕ, suc, ◌+◌, ◌-◌, Bool, true, false, not, ◌&&◌, ◌||◌, List, [], ◌∷◌, ◌++◌, map, Option,
  none, some, ltb, leb, ◌==◌, if◌then◌else◌, contains, same_bytes, ◌>>=◌, ◌>>◌, min,
}
use mathlib.Core.Option
use ru_kt.Tls.{Bytes}
use ru_kt.Crypto.{
  PublicConfig, construct_tree_head_tbs_public, construct_auditor_tree_head_tbs_public,
}
use ru_kt.LogMath.{get_roots}
use ru_kt.Merkle.{Values, lookup, calculate_root_capturing, accumulator_from_peaks}

pub record TrustedState : Type 0 where
  pub tree_size : ℕ
  pub root_hash : Bytes
  pub timestamp : ℕ

pub record TreeHead : Type 0 where
  pub tree_size : ℕ
  pub timestamp : ℕ
  pub signatures : List Bytes

pub record AuditorTreeHead : Type 0 where
  pub tree_size : ℕ
  pub timestamp : ℕ
  pub signature : Bytes

pub record FullTreeHead : Type 0 where
  pub head_type : ℕ
  pub tree_head : Option TreeHead
  pub auditor_tree_head : Option AuditorTreeHead

-- The part of `KtClient` that heads replace. The retained head is kept as a message.
pub record KtClient : Type 0 where
  pub state : Option TrustedState
  pub retained_subtrees : Values
  pub auditor_head : Option (ℕ × ℕ)
  pub retained_head : Option TreeHead

abbrev u64_max : ℕ
u64_max = 18_446_744_073_709_551_615

-- The timestamp is neither too far ahead of the clock nor too far behind it.
unfoldable pub check_timestamp_bounds : PublicConfig → ℕ → ℕ → Bool
check_timestamp_bounds config now ts =
    not (ltb (min (now + config.max_ahead) u64_max) ts)
    && not (ltb (min (ts + config.max_behind) u64_max) now)

-- `prev.tree_size`, none without a state.
abbrev pub advances : Option TrustedState → ℕ → Bool
advances none size = true
advances (some prev) size = ltb prev.tree_size size

-- The size, the timestamp and whether the head is an updated one.
unfoldable pub tree_size_for_fth :
    PublicConfig → ℕ → KtClient → FullTreeHead → Option (ℕ × Option ℕ × Bool)
tree_size_for_fth config now client fth =
    if fth.head_type == 1
    then (do
      prev ← client.state
      require (check_timestamp_bounds config now prev.timestamp)
      some (prev.tree_size, some prev.timestamp, false))
    else if fth.head_type == 2
    then (do
      th ← fth.tree_head
      require (advances client.state th.tree_size)
      some (th.tree_size, some th.timestamp, true))
    else none

-- The values of some nodes, if all were captured.
abbrev pub values_of : Values → List ℕ → Option (List Bytes)
values_of captured [] = some []
values_of captured (n ∷ nodes) = do
  v ← lookup captured n
  vs ← values_of captured nodes
  some (v ∷ vs)

abbrev pub any_valid : (Bytes → Bool) → List Bytes → Bool
any_valid valid [] = false
any_valid valid (s ∷ sigs) = valid s || any_valid valid sigs

-- The previous auditor's position is not before the auditor's start.
abbrev pub auditor_continues : Option (ℕ × ℕ) → ℕ → Bool
auditor_continues none start = true
auditor_continues (some (size, ts)) start = leb start size

abbrev pub or_zero : Option ℕ → ℕ
or_zero none = 0
or_zero (some t) = t

-- The captured values of some nodes.
abbrev pub retain : Values → List ℕ → Values
retain captured [] = []
retain captured (n ∷ nodes) = elim (lookup captured n) [
  | none ↦ retain captured nodes
  | some v ↦ (n, v) ∷ retain captured nodes
]

module _ (hash : Bytes → Bytes) (verify : Bytes → Bytes → Bytes → Bool)
    (config : PublicConfig) where
  unfoldable pub verify_tree_head_signature : TreeHead → ℕ → Bytes → Bool
  verify_tree_head_signature th tree_size root_hash =
      (th.tree_size == tree_size)
      && (elim (construct_tree_head_tbs_public config tree_size root_hash) [
        | none ↦ false
        | some tbs ↦ any_valid (verify config.server_sig_pk tbs) th.signatures
      ])

  -- The checks of steps 1 to 3.
  unfoldable pub auditor_in_bounds : KtClient → TreeHead → AuditorTreeHead → Bool
  auditor_in_bounds client th ath =
      auditor_continues client.auditor_head config.auditor_start_pos
      && (leb ath.timestamp th.timestamp
          && (leb (th.timestamp - ath.timestamp) config.max_auditor_lag
              && leb ath.tree_size th.tree_size))

  -- The root at the auditor's tree size.
  unfoldable pub auditor_root : AuditorTreeHead → ℕ → Bytes → Values → Option Bytes
  auditor_root ath tree_size candidate_root captured =
      if ath.tree_size == tree_size then some candidate_root else (do
        peaks ← values_of captured (get_roots ath.tree_size)
        accumulator_from_peaks hash ath.tree_size peaks)

  -- The new auditor head.
  unfoldable pub verify_auditor_tree_head :
      KtClient → FullTreeHead → TreeHead → ℕ → Bytes → Values → Option (ℕ × ℕ)
  verify_auditor_tree_head client fth th tree_size candidate_root captured = do
    ath ← fth.auditor_tree_head
    require (auditor_in_bounds client th ath)
    root ← auditor_root ath tree_size candidate_root captured
    tbs ← construct_auditor_tree_head_tbs_public config ath.tree_size ath.timestamp root
    apk ← config.auditor_public_key
    require (verify apk tbs ath.signature)
    some (ath.tree_size, ath.timestamp)

  abbrev auditing : Bool
  auditing = config.mode == 3

  abbrev auditor_peaks : Option AuditorTreeHead → ℕ → List ℕ
  auditor_peaks none tree_size = []
  auditor_peaks (some ath) tree_size =
      if ltb 0 ath.tree_size && ltb ath.tree_size tree_size then get_roots ath.tree_size else []

  unfoldable pub wanted_nodes : FullTreeHead → ℕ → List ℕ → List ℕ
  wanted_nodes fth tree_size extra_wanted =
      get_roots tree_size
      ++ (extra_wanted ++ (if auditing then auditor_peaks fth.auditor_tree_head tree_size else []))

  -- The auditor head that the client keeps, which is checked in the mode with auditors.
  unfoldable pub next_auditor_head :
      KtClient → FullTreeHead → TreeHead → ℕ → Bytes → Values → Option (Option (ℕ × ℕ))
  next_auditor_head client fth th tree_size candidate_root captured =
      if auditing
      then Option.map some
          (verify_auditor_tree_head client fth th tree_size candidate_root captured)
      else some client.auditor_head

  -- The client after an updated head.
  unfoldable pub commit_updated :
      KtClient → FullTreeHead → ℕ → Option ℕ → Bytes → Values → Option KtClient
  commit_updated client fth tree_size timestamp_opt candidate_root captured = do
    th ← fth.tree_head
    require (verify_tree_head_signature th tree_size candidate_root)
    auditor_head ← next_auditor_head client fth th tree_size candidate_root captured
    some (record {
      state = some (record {
        tree_size = tree_size;
        root_hash = candidate_root;
        timestamp = or_zero timestamp_opt;
      });
      retained_subtrees = retain captured (get_roots tree_size);
      auditor_head = auditor_head;
      retained_head = some th;
    })

  -- The client after the same head: the proofs rebuild the retained root.
  unfoldable pub confirm_same : KtClient → Bytes → Option KtClient
  confirm_same client candidate_root = do
    prev ← client.state
    require (same_bytes candidate_root prev.root_hash)
    some client

  abbrev pub commit :
      KtClient → FullTreeHead → ℕ → Option ℕ → Bool → Bytes → Values → Option KtClient
  commit client fth tree_size timestamp_opt true candidate_root captured =
      commit_updated client fth tree_size timestamp_opt candidate_root captured
  commit client fth tree_size timestamp_opt false candidate_root captured =
      confirm_same client candidate_root

  unfoldable pub verify_head_and_commit :
      KtClient
      → FullTreeHead
      → ℕ
      → Option ℕ
      → Bool
      → List ℕ
      → List Bytes
      → List Bytes
      → List ℕ
      → Option (KtClient × Values)
  verify_head_and_commit client fth tree_size timestamp_opt fth_is_updated positions leaf_hashes
        inclusion_elements extra_wanted =
      do
        (candidate_root, captured) ←
            calculate_root_capturing hash positions leaf_hashes tree_size inclusion_elements
              client.retained_subtrees (wanted_nodes fth tree_size extra_wanted)
        client' ← commit client fth tree_size timestamp_opt fth_is_updated candidate_root captured
        some (client', captured)
