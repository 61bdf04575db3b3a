-- ===== src/Crypto.antt =====
-- src/crypto/hash.rs, mod.rs and signing.rs: what is hashed, committed to and signed. The hash
-- functions and signature schemes are not part of the repository: they are parameters.
pub mod Prefix
pub mod Commitment
pub mod Signed
pub mod Heads
mod Runs
use ru_kt.Common.{
  ℕ, suc, ◌+◌, ◌^◌, ◌||◌, Bool, true, false, List, [], ◌∷◌, ◌++◌, Option, none, some, ltb, leb,
  ◌==◌, if◌then◌else◌, length, ◌>>=◌, same_bytes,
}
use mathlib.Core.Option
use ru_kt.Tls.{
  Bytes, encode_u8, encode_u16, encode_u32, encode_u64, new_opaque_u8, new_opaque_u16,
  new_opaque_u32, encode_opaque_u8, encode_opaque_u16, encode_opaque_u32, encode_fixed_opaque,
  encode_optional,
}

-- `UpdateSuffix`: nothing, or the operator's signature.
unfoldable pub suffix_bytes : Option Bytes → Option Bytes
suffix_bytes none = some []
suffix_bytes (some sig) = do s ← new_opaque_u16 sig; some (encode_opaque_u16 s)

-- The input of the HMAC in `commit`.
unfoldable pub commitment_value : Bytes → ℕ → Bytes → Option Bytes → Bytes → Option Bytes
commitment_value label version update_value suffix_signature opening = do
  l ← new_opaque_u8 label
  v ← new_opaque_u32 update_value
  s ← suffix_bytes suffix_signature
  if length opening == 16
      then some (
          encode_fixed_opaque opening
          ++ (encode_opaque_u8 l ++ (encode_u32 version ++ (encode_opaque_u32 v ++ s))))
      else none

-- `hmac` is HMAC-SHA256 under the constant key.
unfoldable pub commit : (Bytes → Bytes) → Bytes → ℕ → Bytes → Option Bytes → Bytes → Option Bytes
commit hmac label version update_value suffix_signature opening =
    Option.map hmac (commitment_value label version update_value suffix_signature opening)

-- `CommitmentVerifier::verify` of src/client/verifier.rs.
unfoldable pub verify_commitment : (Bytes → Bytes) → Bytes → ℕ → Bytes → Bytes → Bytes → Bool
verify_commitment hmac label version value opening commitment =
    elim (commit hmac label version value none opening) [
      | none ↦ false
      | some calculated ↦ same_bytes calculated commitment
    ]

unfoldable pub construct_vrf_input : Bytes → ℕ → Option Bytes
construct_vrf_input label version =
    if leb 256 (length label)
    then none
    else do l ← new_opaque_u8 label; some (encode_opaque_u8 l ++ encode_u32 version)

-- `hash` is SHA-256.
unfoldable pub log_leaf_value : (Bytes → Bytes) → ℕ → Bytes → Bytes
log_leaf_value hash timestamp prefix_root = hash (encode_u64 timestamp ++ prefix_root)

unfoldable pub log_parent_value : (Bytes → Bytes) → Bytes → Bool → Bytes → Bool → Bytes
log_parent_value hash left left_is_leaf right right_is_leaf = hash (
    (if left_is_leaf then 0 ∷ [] else 1 ∷ [])
    ++ (left ++ ((if right_is_leaf then 0 ∷ [] else 1 ∷ []) ++ right)))

pub record PublicConfig : Type 0 where
  pub cipher_suite : ℕ
  pub mode : ℕ
  pub server_sig_pk : Bytes
  pub vrf_public_key : Bytes
  pub leaf_public_key : Option Bytes
  pub auditor_public_key : Option Bytes
  pub auditor_start_pos : ℕ
  pub max_auditor_lag : ℕ
  pub max_ahead : ℕ
  pub max_behind : ℕ
  pub reasonable_monitoring_window : ℕ
  pub maximum_lifetime : Option ℕ

-- The fields of the server's `PrivateConfig` that are signed; the signing key stands as the bytes
-- of its verifying key.
pub record PrivateConfig : Type 0 where
  pub cipher_suite : ℕ
  pub mode : ℕ
  pub verifying_key : Bytes
  pub vrf_public_key : Bytes
  pub auditor_public_key : Option Bytes
  pub auditor_start_pos : ℕ
  pub max_auditor_lag : ℕ
  pub max_ahead : ℕ
  pub max_behind : ℕ
  pub reasonable_monitoring_window : ℕ
  pub maximum_lifetime : Option ℕ
  pub leaf_public_key : Option Bytes

-- The part that depends on the mode, of a published configuration.
unfoldable pub mode_part : ℕ → ℕ → ℕ → Option Bytes → Option Bytes → Option Bytes
mode_part mode start lag auditor leaf =
    if mode == 3
    then (do
      apk ← auditor
      key ← new_opaque_u16 apk
      some (encode_u64 start ++ (encode_u64 lag ++ encode_opaque_u16 key)))
    else elim leaf [
      | some lpk ↦ do key ← new_opaque_u16 lpk; some (encode_opaque_u16 key)
      | none ↦ do key ← new_opaque_u16 []; some (encode_opaque_u16 key)
    ]

abbrev pub or_else : Option Bytes → Option Bytes → Option Bytes
or_else none b = b
or_else (some a) b = some a

-- The same part of the server's own configuration, which the source writes out a second time.
unfoldable pub private_mode_part : PrivateConfig → Option Bytes → Option Bytes
private_mode_part config auditor_pk =
    if config.mode == 3
    then (do
      apk ← or_else auditor_pk config.auditor_public_key
      key ← new_opaque_u16 apk
      some (
          encode_u64 config.auditor_start_pos
          ++ (encode_u64 config.max_auditor_lag ++ encode_opaque_u16 key)))
    else elim config.leaf_public_key [
      | some lpk ↦ do key ← new_opaque_u16 lpk; some (encode_opaque_u16 key)
      | none ↦ do key ← new_opaque_u16 []; some (encode_opaque_u16 key)
    ]

unfoldable pub serialize_configuration : PrivateConfig → Option Bytes → Option Bytes
serialize_configuration config auditor_pk = do
  sig ← new_opaque_u16 config.verifying_key
  vrf ← new_opaque_u16 config.vrf_public_key
  part ← private_mode_part config auditor_pk
  some (
      encode_u16 config.cipher_suite
      ++ (encode_u8 config.mode
          ++ (encode_opaque_u16 sig
              ++ (encode_opaque_u16 vrf
                  ++ (part
                      ++ (encode_u64 config.max_ahead
                          ++ (encode_u64 config.max_behind
                              ++ (encode_u64 config.reasonable_monitoring_window
                                  ++ encode_optional encode_u64 config.maximum_lifetime))))))))

unfoldable pub serialize_configuration_public : PublicConfig → Option Bytes
serialize_configuration_public config = do
  sig ← new_opaque_u16 config.server_sig_pk
  vrf ← new_opaque_u16 config.vrf_public_key
  part ←
      mode_part config.mode config.auditor_start_pos config.max_auditor_lag
        config.auditor_public_key config.leaf_public_key
  some (
      encode_u16 config.cipher_suite
      ++ (encode_u8 config.mode
          ++ (encode_opaque_u16 sig
              ++ (encode_opaque_u16 vrf
                  ++ (part
                      ++ (encode_u64 config.max_ahead
                          ++ (encode_u64 config.max_behind
                              ++ (encode_u64 config.reasonable_monitoring_window
                                  ++ encode_optional encode_u64 config.maximum_lifetime))))))))

abbrev with_root : Bytes → Bytes → Option Bytes
with_root buf root_hash =
    if length root_hash == 32 then some (buf ++ encode_fixed_opaque root_hash) else none

unfoldable pub construct_tree_head_tbs : PrivateConfig → Option Bytes → ℕ → Bytes → Option Bytes
construct_tree_head_tbs config auditor_pk tree_size root_hash = do
  buf ← serialize_configuration config auditor_pk
  with_root (buf ++ encode_u64 tree_size) root_hash

unfoldable pub construct_tree_head_tbs_public : PublicConfig → ℕ → Bytes → Option Bytes
construct_tree_head_tbs_public config tree_size root_hash = do
  buf ← serialize_configuration_public config
  with_root (buf ++ encode_u64 tree_size) root_hash

unfoldable pub construct_auditor_tree_head_tbs :
    PrivateConfig → Bytes → ℕ → ℕ → Bytes → Option Bytes
construct_auditor_tree_head_tbs config auditor_pk tree_size timestamp root_hash = do
  buf ← serialize_configuration config (some auditor_pk)
  with_root ((buf ++ encode_u64 timestamp) ++ encode_u64 tree_size) root_hash

unfoldable pub construct_auditor_tree_head_tbs_public : PublicConfig → ℕ → ℕ → Bytes → Option Bytes
construct_auditor_tree_head_tbs_public config tree_size timestamp root_hash = do
  buf ← serialize_configuration_public config
  with_root ((buf ++ encode_u64 timestamp) ++ encode_u64 tree_size) root_hash

unfoldable pub construct_update_tbs : PrivateConfig → Bytes → ℕ → Bytes → Option Bytes
construct_update_tbs config label version value = do
  buf ← serialize_configuration config none
  if leb (2 ^ 8) (length label) || leb (2 ^ 32) (length value) then none else (do
    l ← new_opaque_u8 label
    v ← new_opaque_u32 value
    some (buf ++ (encode_opaque_u8 l ++ (encode_u32 version ++ encode_opaque_u32 v))))
