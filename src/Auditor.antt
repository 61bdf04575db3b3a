-- ===== src/Auditor.antt =====
-- src/client/auditor.rs: an auditor of the log, and src/tree/audit.rs: the server's side of it. The calls
-- to the server are their responses. An error is `none`. Where `process_and_sign` fails, the updates
-- before the failing one stay applied, so that a loop gives the state with whether it ended well.
pub mod Transition
pub mod Chain
pub mod Service
pub mod Served
mod Runs
use ru_kt.Common.{
  ℕ, zero, suc, ◌+◌, Bool, true, false, not, ◌&&◌, ◌||◌, List, [], ◌∷◌, ◌++◌, Option, none, some,
  ltb, leb, ◌==◌, if◌then◌else◌, length, drop, same_bytes, ◌>>=◌, ◌>>◌, require,
}
use ru_kt.Tls.{Bytes}
use ru_kt.Crypto.{
  PublicConfig, construct_tree_head_tbs_public, construct_auditor_tree_head_tbs_public,
  log_leaf_value,
}
use ru_kt.Prefix.{PrefixLeaf, PrefixProof, PrefixSearchResult, zero_value}
use ru_kt.Merkle.{LogAccumulator, from_peaks, append_leaf, calculate_root}
use ru_kt.Client.{TreeHead, AuditorTreeHead}
use ru_kt.Auditor.Transition.{keys_of, has_key, verify_and_transition}

pub record AuditorUpdate : Type 0 where
  pub timestamp : ℕ
  pub added : List PrefixLeaf
  pub removed : List PrefixLeaf
  pub proof : Option PrefixProof

pub record KtAuditor : Type 0 where
  pub log_accumulator : LogAccumulator
  pub prefix_root : Bytes
  pub last_timestamp : ℕ

pub record AuditBootstrapResponse : Type 0 where
  pub tree_head : Option TreeHead
  pub log_peaks : List Bytes
  pub prefix_root : Bytes
  pub timestamp : ℕ

-- The order of byte strings.
unfoldable pub bytes_lt : Bytes → Bytes → Bool
bytes_lt [] [] = false
bytes_lt [] (y ∷ ys) = true
bytes_lt (x ∷ xs) [] = false
bytes_lt (x ∷ xs) (y ∷ ys) = ltb x y || (x == y && bytes_lt xs ys)

unfoldable pub sorted : List PrefixLeaf → Bool
sorted [] = true
sorted (a ∷ []) = true
sorted (a ∷ b ∷ leaves) = bytes_lt a.vrf_output b.vrf_output && sorted (b ∷ leaves)

-- Steps 3 and 4: the results of added leaves, then of removed ones.
unfoldable pub added_ok : List Bytes → List PrefixLeaf → List PrefixSearchResult → Bool
added_ok removed_keys [] results = true
added_ok removed_keys (leaf ∷ added) [] = false
added_ok removed_keys (leaf ∷ added) (result ∷ results) =
    (has_key removed_keys leaf.vrf_output || not (result.result_type == 1))
    && added_ok removed_keys added results

unfoldable pub removed_ok : List PrefixLeaf → List PrefixSearchResult → Bool
removed_ok [] results = true
removed_ok (leaf ∷ removed) [] = false
removed_ok (leaf ∷ removed) (result ∷ results) =
    result.result_type == 1 && removed_ok removed results

module _ (hash : Bytes → Bytes) where
  unfoldable pub process_update : KtAuditor → AuditorUpdate → Option KtAuditor
  process_update auditor update = do
    require (leb auditor.last_timestamp update.timestamp)
    require (sorted update.added)
    require (sorted update.removed)
    proof ← update.proof
    require (length proof.results == length update.added + length update.removed)
    require (added_ok (keys_of update.removed) update.added proof.results)
    require (removed_ok update.removed (drop (length update.added) proof.results))
    new_prefix_root ←
        verify_and_transition hash auditor.prefix_root update.added update.removed proof
    some (record {
      log_accumulator =
          append_leaf hash auditor.log_accumulator
            (log_leaf_value hash update.timestamp new_prefix_root);
      prefix_root = new_prefix_root;
      last_timestamp = update.timestamp;
    })

  -- `for update in resp.updates`, which an error leaves.
  unfoldable pub process_updates : KtAuditor → List AuditorUpdate → KtAuditor × Bool
  process_updates auditor [] = (auditor, true)
  process_updates auditor (update ∷ updates) = elim (process_update auditor update) [
    | none ↦ (auditor, false)
    | some auditor' ↦ process_updates auditor' updates
  ]

  module _ (config : PublicConfig) (sign : Bytes → Bytes)
      (verify : Bytes → Bytes → Bytes → Bool) where
    -- The head that the auditor signs for its state.
    unfoldable pub sign_head : KtAuditor → Option AuditorTreeHead
    sign_head auditor = do
      root ← calculate_root hash auditor.log_accumulator
      tbs ←
          construct_auditor_tree_head_tbs_public config auditor.log_accumulator.tree_size
            auditor.last_timestamp root
      some (record {
        tree_size = auditor.log_accumulator.tree_size;
        timestamp = auditor.last_timestamp;
        signature = sign tbs;
      })

    -- The state after, and the head that is sent to the server, if any.
    unfoldable pub process_and_sign :
        KtAuditor → List AuditorUpdate → KtAuditor × Option AuditorTreeHead
    process_and_sign auditor [] = (auditor, none)
    process_and_sign auditor (update ∷ updates) =
        let (auditor', ok) = process_updates auditor (update ∷ updates) in
        (auditor', if ok then sign_head auditor' else none)

    abbrev first : List Bytes → Option Bytes
    first [] = none
    first (s ∷ sigs) = some s

    unfoldable pub bootstrap : AuditBootstrapResponse → Option (KtAuditor × ℕ)
    bootstrap resp = do
      th ← resp.tree_head
      acc ← from_peaks th.tree_size resp.log_peaks
      root ← calculate_root hash acc
      tbs ← construct_tree_head_tbs_public config th.tree_size root
      sig ← first th.signatures
      require (verify config.server_sig_pk tbs sig)
      some (
        record {
          log_accumulator = acc;
          prefix_root = resp.prefix_root;
          last_timestamp = resp.timestamp;
        },
        th.tree_size,
      )
