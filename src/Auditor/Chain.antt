-- ===== src/Auditor/Chain.antt =====
-- What an auditor has verified when it signs.
use ru_kt.Common.{◌≤◌, ◌≡◌, Bool, true, List, [], ◌∷◌, ◌++◌, some, length, drop}
use ru_kt.Tls.{Bytes}
use ru_kt.Crypto.{PublicConfig, construct_auditor_tree_head_tbs_public, log_leaf_value}
use ru_kt.Prefix.{PrefixProof}
use ru_kt.Merkle.{append_leaf, calculate_root}
use ru_kt.Merkle.Peaks.{IsPeaks}
use ru_kt.Client.{AuditorTreeHead}
use ru_kt.Auditor.Transition.{keys_of, verify_and_transition}
use ru_kt.Auditor.{AuditorUpdate, KtAuditor, sorted, added_ok, removed_ok}

module _ (hash : Bytes → Bytes) where
  -- The auditor after an update that led to a new prefix root.
  abbrev pub next : KtAuditor → AuditorUpdate → Bytes → KtAuditor
  next auditor update root = record {
    log_accumulator =
        append_leaf hash auditor.log_accumulator (log_leaf_value hash update.timestamp root);
    prefix_root = root;
    last_timestamp = update.timestamp;
  }

  -- An update that fits the auditor's state and proves a new prefix root.
  pub record Fits (auditor : KtAuditor) (update : AuditorUpdate) (root : Bytes) : Type 0 where
    pub later : auditor.last_timestamp ≤ update.timestamp
    pub added_sorted : sorted update.added ≡ true
    pub removed_sorted : sorted update.removed ≡ true
    pub proof : PrefixProof
    pub has_proof : update.proof ≡ some proof
    pub added_absent : added_ok (keys_of update.removed) update.added proof.results ≡ true
    pub removed_present :
        removed_ok update.removed (drop (length update.added) proof.results) ≡ true
    pub leads :
        verify_and_transition hash auditor.prefix_root update.added update.removed proof ≡ some root

  -- Updates that fit one after the other, with the log leaves that they add.
  pub data Chain : KtAuditor → List AuditorUpdate → List Bytes → KtAuditor → Type 0 where
    done : (a : KtAuditor) → Chain a [] [] a
    step :
        (a c : KtAuditor) (u : AuditorUpdate) (us : List AuditorUpdate) (root : Bytes)
        (leaves : List Bytes)
        → Fits a u root
        → Chain (next a u root) us leaves c
        → Chain a (u ∷ us) (log_leaf_value hash u.timestamp root ∷ leaves) c

  -- What a loop over updates leaves: a part of them, that fits.
  pub Processed : KtAuditor → List AuditorUpdate → KtAuditor × Bool → Type 0
  Processed a us r =
      (fitting : List AuditorUpdate) × (rest : List AuditorUpdate) × (leaves : List Bytes) × (us
        ≡ fitting ++ rest)
      × Chain a fitting leaves r.0
      × (r.1 ≡ true → rest ≡ [])

  module _ (config : PublicConfig) (sign : Bytes → Bytes)
      (verify : Bytes → Bytes → Bytes → Bool) where
    -- What a signed head stands for.
    pub record Audited (before : List Bytes) (a : KtAuditor) (us : List AuditorUpdate)
        (c : KtAuditor) (ath : AuditorTreeHead) : Type 0 where
      pub leaves : List Bytes
      pub chain : Chain a us leaves c
      pub later : a.last_timestamp ≤ ath.timestamp
      pub the_size : ath.tree_size ≡ length (before ++ leaves)
      pub peaks : IsPeaks hash 0 c.log_accumulator.peaks (before ++ leaves)
      pub root : Bytes
      pub has_root : calculate_root hash c.log_accumulator ≡ some root
      pub text : Bytes
      pub has_text :
          construct_auditor_tree_head_tbs_public config ath.tree_size ath.timestamp root ≡ some text
      pub signed : ath.signature ≡ sign text
