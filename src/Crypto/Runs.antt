-- ===== src/Crypto/Runs.antt =====
-- Concrete configurations and commitments, and the theorems at concrete inputs. The hash stands for
-- any; here it keeps its input.
use ru_kt.Common.{
  ℕ, ◌≡◌, ◌≢◌, ◌⊎◌, ◌↔◌, same_bytes_iff, refl, arith, [], ◌∷◌, ◌++◌, some, none, true,
}
use ru_kt.Tls.{
  Bytes, to_be_bytes, encode_u8, encode_u16, encode_u32, encode_u64, new_opaque_u8, new_opaque_u16,
  new_opaque_u32, encode_opaque_u8, encode_opaque_u16, encode_opaque_u32, encode_fixed_opaque,
  encode_optional,
}
use ru_kt.Crypto.{
  PublicConfig, PrivateConfig, commitment_value, suffix_bytes, commit, verify_commitment, mode_part,
  private_mode_part, serialize_configuration, serialize_configuration_public,
  construct_tree_head_tbs, construct_tree_head_tbs_public, construct_auditor_tree_head_tbs_public,
}
use ru_kt.Crypto.Commitment.{Collision, commitment_binding}
use ru_kt.Crypto.Signed.{IsConfig, SameSigned}
use ru_kt.Crypto.Heads.{
  tree_head_tbs_injective, tree_head_tbs-ne-auditor, published, construct_tree_head_tbs-published,
}

abbrev sixteen : Bytes
sixteen = 1 ∷ 2 ∷ 3 ∷ 4 ∷ 5 ∷ 6 ∷ 7 ∷ 8 ∷ 1 ∷ 2 ∷ 3 ∷ 4 ∷ 5 ∷ 6 ∷ 7 ∷ 8 ∷ []

abbrev label : Bytes
label = 97 ∷ []

abbrev keep_input : Bytes → Bytes
keep_input x = x

abbrev three : ℕ
three = 3

abbrev four : ℕ
four = 4

abbrev value : Bytes
value = 9 ∷ []

abbrev text : Bytes
text = sixteen ++ (1 ∷ 97 ∷ 0 ∷ 0 ∷ 0 ∷ 3 ∷ 0 ∷ 0 ∷ 0 ∷ 1 ∷ 9 ∷ [])

committed_text : commit keep_input label 3 value none sixteen ≡ some text
unfolding commit commitment_value suffix_bytes new_opaque_u8 new_opaque_u32 encode_fixed_opaque
    encode_opaque_u8 encode_opaque_u32 encode_u32 to_be_bytes
committed_text = refl

text_verifies : verify_commitment keep_input label 3 value sixteen text ≡ true
unfolding verify_commitment
text_verifies = rw (committed_text, verify_commitment) ((same_bytes_iff text text).1 refl)

commitment_binding_example :
    ((label ≡ label) × (three ≡ three) × (value ≡ value) × (sixteen ≡ sixteen))
    ⊎ Collision keep_input
commitment_binding_example =
    commitment_binding keep_input label label 3 3 value value sixteen sixteen text (omega arith)
      (omega arith) text_verifies text_verifies

abbrev config : PublicConfig
config = record {
  cipher_suite = 2;
  mode = 3;
  server_sig_pk = 11 ∷ [];
  vrf_public_key = 12 ∷ [];
  leaf_public_key = none;
  auditor_public_key = some (13 ∷ []);
  auditor_start_pos = 5;
  max_auditor_lag = 6;
  max_ahead = 7;
  max_behind = 8;
  reasonable_monitoring_window = 9;
  maximum_lifetime = some 10;
}

abbrev secret : PrivateConfig
secret = record {
  cipher_suite = 2;
  mode = 3;
  verifying_key = 11 ∷ [];
  vrf_public_key = 12 ∷ [];
  auditor_public_key = some (13 ∷ []);
  auditor_start_pos = 5;
  max_auditor_lag = 6;
  max_ahead = 7;
  max_behind = 8;
  reasonable_monitoring_window = 9;
  maximum_lifetime = some 10;
  leaf_public_key = none;
}

config-IsConfig : IsConfig config
config-IsConfig = record {
  cipher_suite = omega arith;
  mode = omega arith;
  start = omega arith;
  lag = omega arith;
  ahead = omega arith;
  behind = omega arith;
  window = omega arith;
  lifetime = omega arith;
}

abbrev root : Bytes
root = sixteen ++ sixteen

abbrev head_text : Bytes
head_text =
    0
    ∷ 2
    ∷ 3
    ∷ 0
    ∷ 1
    ∷ 11
    ∷ 0
    ∷ 1
    ∷ 12
    ∷ (to_be_bytes 8 5
        ++ (to_be_bytes 8 6
            ++ (0
                ∷ 1
                ∷ 13
                ∷ (to_be_bytes 8 7
                    ++ (to_be_bytes 8 8
                        ++ (to_be_bytes 8 9
                            ++ (1 ∷ (to_be_bytes 8 10 ++ (to_be_bytes 8 4 ++ root)))))))))

signed_text : construct_tree_head_tbs_public config 4 root ≡ some head_text
unfolding construct_tree_head_tbs_public serialize_configuration_public mode_part new_opaque_u16
    encode_opaque_u16 encode_u8 encode_u16 encode_u64 to_be_bytes encode_optional
    encode_fixed_opaque
signed_text = refl

tree_head_tbs_injective_example : SameSigned config config × (four ≡ four) × (root ≡ root)
tree_head_tbs_injective_example =
    tree_head_tbs_injective config config 4 4 root root head_text config-IsConfig config-IsConfig
      (omega arith) (omega arith) signed_text signed_text

tree_head_tbs-ne-auditor_example :
    construct_auditor_tree_head_tbs_public config 4 1_000 root ≢ some head_text
tree_head_tbs-ne-auditor_example =
    tree_head_tbs-ne-auditor config config 4 4 1_000 root root head_text config-IsConfig
      config-IsConfig signed_text

secret_text : construct_tree_head_tbs secret (some (13 ∷ [])) 4 root ≡ some head_text
unfolding construct_tree_head_tbs serialize_configuration private_mode_part new_opaque_u16
    encode_opaque_u16 encode_u8 encode_u16 encode_u64 to_be_bytes encode_fixed_opaque
    encode_optional
secret_text = refl

construct_tree_head_tbs-published_example :
    (construct_tree_head_tbs_public (published secret) 4 root ≡ some head_text)
    ↔ ((three ≢ 3) ⊎ (some (13 ∷ []) ≡ secret.auditor_public_key))
construct_tree_head_tbs-published_example =
    construct_tree_head_tbs-published secret (some (13 ∷ [])) 4 root head_text config-IsConfig
      (omega arith) secret_text
