-- ===== src/Client/Heads.antt =====
-- What a verified head does to the trusted state.
use ru_kt.Common.{
  &&_true, bind_then, require_then, ℕ, ◌<◌, ◌≡◌, sym, ap, ◌∙◌, arith, Bool, true, false, List,
  Option, none, some, ◌==◌, Option-cases, Bool-cases, ◌⊎◌, inl, inr, same_bytes_iff,
}
use ru_kt.Tls.{Bytes}
use ru_kt.Crypto.{PublicConfig, construct_tree_head_tbs_public}
use ru_kt.Merkle.{Values, calculate_root_capturing}
use ru_kt.Client.{
  TrustedState, TreeHead, FullTreeHead, KtClient, check_timestamp_bounds, advances,
  tree_size_for_fth, any_valid, verify_tree_head_signature, wanted_nodes, next_auditor_head,
  commit_updated, confirm_same, commit, verify_head_and_commit, or_zero,
}

module _ (hash : Bytes → Bytes) (verify : Bytes → Bytes → Bytes → Bool) (config : PublicConfig)
    (now : ℕ) where
  -- The rebuilt root of the retained head: nothing changes.
  pub record Confirmed (client client' : KtClient) (root : Bytes) : Type 0 where
    pub prev : TrustedState
    pub had : client.state ≡ some prev
    pub same_root : root ≡ prev.root_hash
    pub fresh : check_timestamp_bounds config now prev.timestamp ≡ true
    pub unchanged : client' ≡ client

  -- A later tree, with a root that the log signed for it.
  pub record Advanced (client client' : KtClient) (fth : FullTreeHead) (root : Bytes) : Type 0 where
    pub head : TreeHead
    pub has_head : fth.tree_head ≡ some head
    pub later : (prev : TrustedState) → client.state ≡ some prev → prev.tree_size < head.tree_size
    pub text : Bytes
    pub has_text : construct_tree_head_tbs_public config head.tree_size root ≡ some text
    pub signed : any_valid (verify config.server_sig_pk text) head.signatures ≡ true
    pub trusted :
        client'.state
        ≡ some (record { tree_size = head.tree_size; root_hash = root; timestamp = head.timestamp })

  -- What `tree_size_for_fth` found.
  record SameSize (client : KtClient) (size : ℕ) (ts : Option ℕ) (updated : Bool) : Type 0 where
    prev : TrustedState
    had : client.state ≡ some prev
    fresh : check_timestamp_bounds config now prev.timestamp ≡ true
    result : updated ≡ false

  record NewSize (client : KtClient) (fth : FullTreeHead) (size : ℕ) (ts : Option ℕ)
      (updated : Bool) : Type 0 where
    head : TreeHead
    has_head : fth.tree_head ≡ some head
    later : advances client.state head.tree_size ≡ true
    the_size : size ≡ head.tree_size
    the_ts : ts ≡ some head.timestamp
    result : updated ≡ true

  sized :
      (client : KtClient) (fth : FullTreeHead) (size : ℕ) (ts : Option ℕ) (updated : Bool)
      → tree_size_for_fth config now client fth ≡ some (size, ts, updated)
      → SameSize client size ts updated ⊎ NewSize client fth size ts updated
  unfolding tree_size_for_fth
  sized client fth size ts updated h =
      go (Bool-cases (fth.head_type == 1)) (Bool-cases (fth.head_type == 2))
    where
      go :
          ((fth.head_type == 1) ≡ true) ⊎ ((fth.head_type == 1) ≡ false)
          → ((fth.head_type == 2) ≡ true) ⊎ ((fth.head_type == 2) ≡ false)
          → SameSize client size ts updated ⊎ NewSize client fth size ts updated
      go (inl b) c = bind_then client.state _ _ (rw (b, tree_size_for_fth) at h) (λ prev had rest.
          require_then _ _ _ rest
            (λ fresh e. inl (record { prev = prev; had = had; fresh = fresh; result = cc e })))
      go (inr b) (inl c) =
          bind_then fth.tree_head _ _ (rw (b, c, tree_size_for_fth) at h) (λ th had rest.
            require_then _ _ _ rest (λ later e. inr (record {
              head = th;
              has_head = had;
              later = later;
              the_size = cc e;
              the_ts = cc e;
              result = cc e;
            })))
      go (inr b) (inr c) = absurd (cc (rw (b, c, tree_size_for_fth) at h))

  advances_lt :
      (state : Option TrustedState) (size : ℕ) (prev : TrustedState)
      → advances state size ≡ true
      → state ≡ some prev
      → prev.tree_size < size
  advances_lt none size prev h e = absurd (cc e)
  advances_lt (some p) size prev h e =
      let same : p.tree_size ≡ prev.tree_size = ap size_of e in ground arith
    where
      size_of : Option TrustedState → ℕ
      size_of none = 0
      size_of (some x) = x.tree_size

  -- The text that the log signed.
  record Signed (th : TreeHead) (size : ℕ) (root : Bytes) : Type 0 where
    text : Bytes
    has_text : construct_tree_head_tbs_public config size root ≡ some text
    valid : any_valid (verify config.server_sig_pk text) th.signatures ≡ true

  signature_checked :
      (th : TreeHead) (size : ℕ) (root : Bytes)
      → verify_tree_head_signature hash verify config th size root ≡ true
      → Signed th size root
  unfolding verify_tree_head_signature
  signature_checked th size root h =
      go (Option-cases (construct_tree_head_tbs_public config size root)) (&&_true _ _ h).1
    where
      go :
          (construct_tree_head_tbs_public config size root ≡ none)
            ⊎ ((t : Bytes) × (construct_tree_head_tbs_public config size root ≡ some t))
          → (elim (construct_tree_head_tbs_public config size root) [
            | none ↦ false
            | some tbs ↦ any_valid (verify config.server_sig_pk tbs) th.signatures
          ])
            ≡ true
          → Signed th size root
      go (inl n) v = absurd (cc (rw n at v))
      go (inr (t, n)) v = record { text = t; has_text = n; valid = rw n at v }

  committed :
      (client client' : KtClient) (fth : FullTreeHead) (size : ℕ) (ts : Option ℕ) (root : Bytes)
      (captured : Values)
      → NewSize client fth size ts true
      → commit_updated hash verify config client fth size ts root captured ≡ some client'
      → Advanced client client' fth root
  unfolding commit_updated
  committed client client' fth size ts root captured n h =
      bind_then fth.tree_head _ _ h (λ th had rest. require_then _ _ _ rest (λ good rest'.
        bind_then (next_auditor_head hash verify config client fth th size root captured) _ _ rest'
          (λ auditor_head e e'.
            let same : th ≡ n.head = some_inj th n.head (sym had ∙ n.has_head) in
            build th had same (signature_checked th size root good) (ap state_of e'))))
    where
      some_inj : (a b : TreeHead) → some a ≡ some b → a ≡ b
      some_inj a b e = ap (λ (o : Option TreeHead). elim o [ none ↦ a | some x ↦ x ]) e

      state_of : Option KtClient → Option TrustedState
      state_of none = none
      state_of (some c) = c.state

      build :
          (th : TreeHead)
          → fth.tree_head ≡ some th
          → th ≡ n.head
          → Signed th size root
          → some (record { tree_size = size; root_hash = root; timestamp = or_zero ts })
            ≡ client'.state
          → Advanced client client' fth root
      build th had same s e =
          let at : size ≡ th.tree_size =
            n.the_size ∙ ap (λ (x : TreeHead). x.tree_size) (sym same) in
          let when : or_zero ts ≡ th.timestamp =
            ap or_zero n.the_ts ∙ ap (λ (x : TreeHead). x.timestamp) (sym same) in
          record {
            head = th;
            has_head = had;
            later = λ prev q.
                advances_lt client.state th.tree_size prev
                  (ap (λ (x : TreeHead). advances client.state x.tree_size) same ∙ n.later) q;
            text = s.text;
            has_text =
                ap (λ (k : ℕ). construct_tree_head_tbs_public config k root) (sym at) ∙ s.has_text;
            signed = s.valid;
            trusted =
                sym e
                ∙ ap
                    (λ (k : ℕ).
                      some (record { tree_size = k; root_hash = root; timestamp = or_zero ts }))
                    at
                ∙ ap
                    (λ (k : ℕ).
                      some (record { tree_size = th.tree_size; root_hash = root; timestamp = k }))
                    when;
          }

  confirmed :
      (client client' : KtClient) (size : ℕ) (ts : Option ℕ) (root : Bytes) (updated : Bool)
      → SameSize client size ts updated
      → confirm_same hash verify config client root ≡ some client'
      → Confirmed client client' root
  unfolding confirm_same
  confirmed client client' size ts root updated s h = bind_then client.state _ _ h (λ prev had rest.
      require_then _ _ _ rest (λ good e. record {
        prev = prev;
        had = had;
        same_root = (same_bytes_iff root prev.root_hash).0 good;
        fresh = ap (check_timestamp_bounds config now) (ap ts_of (sym had ∙ s.had)) ∙ s.fresh;
        unchanged = ap (λ (o : Option KtClient). elim o [ none ↦ client | some c ↦ c ]) (sym e);
      }))
    where
      ts_of : Option TrustedState → ℕ
      ts_of none = 0
      ts_of (some p) = p.timestamp

  -- A head that the client accepts either leaves it as it is, with a root equal to the retained one and
  -- a retained timestamp within the bounds of the clock; or its tree is later than the retained one, the
  -- log signed the rebuilt root for it, and these are what the client then trusts. In both cases the
  -- root is the one that the proof rebuilds.
  pub verify_head_and_commit-Advanced :
      (client client' : KtClient) (fth : FullTreeHead) (size : ℕ) (ts : Option ℕ) (updated : Bool)
      (positions : List ℕ) (leaf_hashes elements : List Bytes) (extra : List ℕ) (captured : Values)
      → tree_size_for_fth config now client fth ≡ some (size, ts, updated)
      → verify_head_and_commit hash verify config client fth size ts updated positions leaf_hashes
          elements extra
        ≡ some (client', captured)
      → (root : Bytes) × (calculate_root_capturing hash positions leaf_hashes size elements
            client.retained_subtrees
            (wanted_nodes hash verify config fth size extra)
          ≡ some (root, captured))
        × (Confirmed client client' root ⊎ Advanced client client' fth root)
  unfolding verify_head_and_commit
  verify_head_and_commit-Advanced client client' fth size ts updated positions leaf_hashes elements
        extra captured hs h =
      bind_then
        (calculate_root_capturing hash positions leaf_hashes size elements client.retained_subtrees
          (wanted_nodes hash verify config fth size extra))
        _ _ h
        (λ calculated e rest.
          bind_then (commit hash verify config client fth size ts updated calculated.0 calculated.1)
            _ _ rest
            (λ client'' e' e''.
              let same_client : client'' ≡ client' = ap (first client') e'' in
              let same_captured : calculated.1 ≡ captured = ap (second captured) e'' in
              (
                calculated.0,
                e ∙ ap (λ (c : Values). some (calculated.0, c)) same_captured,
                accepted (sized client fth size ts updated hs) calculated.0 calculated.1
                    (e' ∙ ap some same_client),
              )))
    where
      first : KtClient → Option (KtClient × Values) → KtClient
      first d none = d
      first d (some p) = p.0

      second : Values → Option (KtClient × Values) → Values
      second d none = d
      second d (some p) = p.1

      accepted :
          SameSize client size ts updated ⊎ NewSize client fth size ts updated
          → (root : Bytes) (values : Values)
          → commit hash verify config client fth size ts updated root values ≡ some client'
          → Confirmed client client' root ⊎ Advanced client client' fth root
      accepted (inl s) root values c =
          inl (confirmed client client' size ts root updated s (rw s.result at c))
      accepted (inr n) root values c =
          inr
            (committed client client' fth size ts root values (rw n.result at n) (rw n.result at c))
