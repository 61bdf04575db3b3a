-- ===== src/Gossip/Retention.antt =====
-- A client keeps the signed head of its state.
use ru_kt.Common.{
  ℕ, ◌≡◌, refl, ap, subst, ◌⊎◌, inl, inr, Bool, true, false, List, Option, none, some, bind_then,
  require_then, some_injective,
}
use ru_kt.Tls.{Bytes}
use ru_kt.Crypto.{PublicConfig}
use ru_kt.Merkle.{Values, calculate_root_capturing}
use ru_kt.Client.{
  TrustedState, TreeHead, FullTreeHead, KtClient, verify_tree_head_signature, next_auditor_head,
  commit_updated, confirm_same, commit, verify_head_and_commit, wanted_nodes,
}
use ru_kt.Gossip.{Encodings}
use ru_kt.Gossip.Evidence.{Retained}

module _ (enc : Encodings) (hash : Bytes → Bytes) (verify : Bytes → Bytes → Bytes → Bool)
    (config : PublicConfig) where
  -- A fresh client, or one with a signed head for its state.
  unfoldable pub IsRetaining : KtClient → Type 0
  IsRetaining client =
      (client.state ≡ none)
      ⊎ ((state : TrustedState) × (head : TreeHead) × Retained enc hash verify config client state
            head)

  commit_updated-IsRetaining :
      (client client' : KtClient) (fth : FullTreeHead) (size : ℕ) (ts : Option ℕ) (root : Bytes)
      (captured : Values)
      → commit_updated hash verify config client fth size ts root captured ≡ some client'
      → IsRetaining client'
  unfolding commit_updated IsRetaining
  commit_updated-IsRetaining client client' fth size ts root captured h =
      bind_then fth.tree_head _ _ h (λ th e rest.
        require_then (verify_tree_head_signature hash verify config th size root) _ _ rest
          (λ valid rest1.
            bind_then (next_auditor_head hash verify config client fth th size root captured) _ _
              rest1
              (λ ah f end.
                subst IsRetaining (some_injective _ _ end)
                  (inr (_, th, record { has_state = refl; has_head = refl; valid = valid })))))

  commit-IsRetaining :
      (client client' : KtClient) (fth : FullTreeHead) (size : ℕ) (ts : Option ℕ) (updated : Bool)
      (root : Bytes) (captured : Values)
      → (updated ≡ true) ⊎ IsRetaining client
      → commit hash verify config client fth size ts updated root captured ≡ some client'
      → IsRetaining client'
  unfolding confirm_same
  commit-IsRetaining client client' fth size ts true root captured r h =
      commit_updated-IsRetaining client client' fth size ts root captured h
  commit-IsRetaining client client' fth size ts false root captured (inl e) h = absurd (cc e)
  commit-IsRetaining client client' fth size ts false root captured (inr r) h =
      bind_then client.state _ _ h (λ prev e rest.
        require_then _ _ _ rest (λ q end. subst IsRetaining (some_injective _ _ end) r))

  -- An accepted head leaves a client that has no state, or keeps a head with the size of its state and a
  -- valid signature on its root: an updated head whatever the client before was, and a head of the same
  -- size if the client before was such a one.
  pub verify_head_and_commit-IsRetaining :
      (client client' : KtClient) (fth : FullTreeHead) (size : ℕ) (ts : Option ℕ) (updated : Bool)
      (positions : List ℕ) (leaf_hashes elements : List Bytes) (extra : List ℕ) (captured : Values)
      → (updated ≡ true) ⊎ IsRetaining client
      → verify_head_and_commit hash verify config client fth size ts updated positions leaf_hashes
          elements extra
        ≡ some (client', captured)
      → IsRetaining client'
  unfolding verify_head_and_commit
  verify_head_and_commit-IsRetaining client client' fth size ts updated positions leaf_hashes
        elements extra captured r h =
      bind_then
        (calculate_root_capturing hash positions leaf_hashes size elements client.retained_subtrees
          (wanted_nodes hash verify config fth size extra))
        _ _ h
        (λ (root, cap) e rest.
          bind_then (commit hash verify config client fth size ts updated root cap) _ _ rest
            (λ c f end.
              subst IsRetaining (ap (λ (p : KtClient × Values). p.0) (some_injective _ _ end))
                (commit-IsRetaining client c fth size ts updated root cap r f)))
