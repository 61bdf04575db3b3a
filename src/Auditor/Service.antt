-- ===== src/Auditor/Service.antt =====
-- src/tree/audit.rs: the updates that the server gives to auditors, and the heads that it takes from
-- them. The log's roots and consistency proofs come from src/tree/log.rs, which is an interface here.
use ru_kt.Common.{
  ℕ, zero, suc, ◌+◌, ◌-◌, ◌%◌, ◌^◌, Bool, true, false, ◌&&◌, List, [], ◌∷◌, Option, none, some, ltb,
  leb, ◌==◌, if◌then◌else◌, same_bytes, ◌>>=◌, ◌>>◌, require,
}
use ru_kt.Tls.{Bytes}
use ru_kt.Crypto.{PrivateConfig, construct_auditor_tree_head_tbs}
use ru_kt.Client.{AuditorTreeHead}
use ru_kt.Auditor.{AuditorUpdate}

-- `AuditorTreeHead` of src/db.rs. A timestamp is an i64, of which the number has the 64 bits, as in
-- `as u64`.
pub record StoredHead : Type 0 where
  pub tree_size : ℕ
  pub timestamp : ℕ
  pub signature : Bytes
  pub root_value : Bytes
  pub consistency : List Bytes

pub record LogProofs : Type 0 where
  pub get_root : ℕ → Option Bytes
  pub get_consistency_proof : ℕ → ℕ → Option (List Bytes)

-- The auditors' heads by name: the first entry of a name counts.
abbrev pub Auditors : Type 0
Auditors = List (Bytes × StoredHead)

unfoldable pub head_of : Auditors → Bytes → Option StoredHead
head_of [] name = none
head_of ((n, head) ∷ auditors) name =
    let rest = head_of auditors name in if same_bytes n name then some head else rest

-- The stored updates from `i` on.
unfoldable pub read_updates : (ℕ → Option AuditorUpdate) → ℕ → ℕ → Option (List AuditorUpdate)
read_updates blob zero i = some []
read_updates blob (suc n) i = do
  update ← blob i
  updates ← read_updates blob n (suc i)
  some (update ∷ updates)

-- `start + limit` in 64 bits, and not past the end.
abbrev pub end_of : ℕ → ℕ → ℕ → ℕ
end_of start limit current_size =
    let end = (start + limit) % 2 ^ 64 in if ltb current_size end then current_size else end

-- The updates, and whether there are more.
unfoldable pub audit : (ℕ → Option AuditorUpdate) → ℕ → ℕ → ℕ → Option (List AuditorUpdate × Bool)
audit blob current_size start limit =
    if ltb current_size start then none else if start == current_size then some ([], false) else (do
      updates ← read_updates blob (end_of start limit current_size - start) start
      some (updates, ltb (end_of start limit current_size) current_size))

-- An i64 of which the number has the bits, with 2^63 added: it keeps the order.
abbrev pub as_i64 : ℕ → ℕ
as_i64 bits = (bits + 2 ^ 63) % 2 ^ 64

-- The stored head of the auditor is not ahead of the new one; times are compared as i64.
abbrev pub not_rewound : Option StoredHead → AuditorTreeHead → Bool
not_rewound none head = true
not_rewound (some existing) head =
    leb existing.tree_size head.tree_size && leb (as_i64 existing.timestamp) (as_i64 head.timestamp)

module _ (verify : Bytes → Bytes → Bytes → Bool) (hex_encode : Bytes → Bytes)
    (config : PrivateConfig) (log : LogProofs) where
  -- The first key that verifies the signature, in the order of the map.
  unfoldable pub find_auditor : List Bytes → AuditorTreeHead → Bytes → Option (Option Bytes)
  find_auditor [] head root_hash = some none
  find_auditor (pk ∷ keys) head root_hash =
      construct_auditor_tree_head_tbs config pk head.tree_size head.timestamp root_hash >>= (λ tbs.
        if verify pk tbs head.signature then some (some pk) else find_auditor keys head root_hash)

  -- An auditor that is behind the log gets a consistency proof.
  unfoldable pub consistency_for : ℕ → ℕ → Option (List Bytes)
  consistency_for tree_size current_size =
      if ltb tree_size current_size
      then log.get_consistency_proof tree_size current_size
      else some []

  unfoldable pub set_auditor_head : ℕ → List Bytes → Auditors → AuditorTreeHead → Option Auditors
  set_auditor_head current_size auditor_keys auditors head = do
    require (leb head.tree_size current_size)
    root_hash ← log.get_root head.tree_size
    found ← find_auditor auditor_keys head root_hash
    pk ← found
    require (not_rewound (head_of auditors (hex_encode pk)) head)
    consistency ← consistency_for head.tree_size current_size
    some (
        (
          hex_encode pk,
          record {
            tree_size = head.tree_size;
            timestamp = head.timestamp;
            signature = head.signature;
            root_value = root_hash;
            consistency = consistency;
          },
        )
        ∷ auditors)
