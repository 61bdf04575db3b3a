-- ===== src/Gossip/Evidence.antt =====
-- What accepted evidence of a fork proves, and that a client's evidence is accepted.
use ru_kt.Common.{
  ℕ, ◌≡◌, ◌≢◌, refl, sym, ap, ◌∙◌, subst, inl, inr, Bool, true, false, not, Bool-cases, &&_true,
  Option, none, some, ◌==◌, ==_iff, same_bytes, same_bytes_iff, bind_then, require_then,
  some_injective, ◌>>=◌, require,
}
use ru_kt.Tls.{Bytes}
use ru_kt.Crypto.{PublicConfig, construct_tree_head_tbs_public}
use ru_kt.Crypto.Prefix.{IsU64}
use ru_kt.Crypto.Signed.{IsConfig}
use ru_kt.Crypto.Heads.{tree_head_tbs_injective}
use ru_kt.Client.{TreeHead, TrustedState, KtClient, any_valid, verify_tree_head_signature}
use ru_kt.Gossip.{
  Encodings, GossipHead, ForkEvidence, GossipOutcome, gossip_of, forked, decode_gossip,
  verify_gossip_head, verify_fork_evidence, export_head, compared, check_gossiped_head,
}

-- Encoded values are read back.
pub record ReadBack (enc : Encodings) : Type 0 where
  pub hex : (b : Bytes) → enc.hex_decode (enc.hex_encode b) ≡ some b
  pub heads : (th : TreeHead) → enc.decode_head (enc.encode_head th) ≡ some th

module _ (enc : Encodings) (hash : Bytes → Bytes) (verify : Bytes → Bytes → Bytes → Bool)
    (config : PublicConfig) where
  -- A root that the log signed for a size.
  pub record SignedRoot (size : ℕ) (hex head_hex : Bytes) : Type 0 where
    pub head : TreeHead
    pub has_head : decode_gossip enc head_hex ≡ some head
    pub the_size : head.tree_size ≡ size
    pub root : Bytes
    pub has_root : enc.hex_decode hex ≡ some root
    pub text : Bytes
    pub has_text : construct_tree_head_tbs_public config size root ≡ some text
    pub signed : any_valid (verify config.server_sig_pk text) head.signatures ≡ true

  verify_gossip_head-SignedRoot :
      (gossip : GossipHead)
      → verify_gossip_head enc verify config gossip ≡ some _
      → SignedRoot gossip.tree_size gossip.root_hash gossip.tree_head
  unfolding verify_gossip_head
  verify_gossip_head-SignedRoot gossip h =
      bind_then (decode_gossip enc gossip.tree_head) _ _ h (λ head e rest.
        require_then (head.tree_size == gossip.tree_size) _ _ rest (λ size rest1.
          bind_then (enc.hex_decode gossip.root_hash) _ _ rest1 (λ root f rest2.
            bind_then (construct_tree_head_tbs_public config gossip.tree_size root) _ _ rest2
              (λ text g last. record {
                head = head;
                has_head = e;
                the_size = (==_iff head.tree_size gossip.tree_size).0 size;
                root = root;
                has_root = f;
                text = text;
                has_text = g;
                signed = required _ last;
              }))))
    where
      required : (c : Bool) → require c ≡ some _ → c ≡ true
      required true e = refl
      required false e = absurd (cc e)

  -- What evidence proves: two different roots that the log signed for one size, on different texts.
  pub record Forked (evidence : ForkEvidence) : Type 0 where
    pub a : SignedRoot evidence.tree_size evidence.root_a evidence.head_a
    pub b : SignedRoot evidence.tree_size evidence.root_b evidence.head_b
    pub roots : a.root ≢ b.root
    pub texts : a.text ≢ b.text

  -- Text as the encoder writes it, in its choice of letter case.
  abbrev pub IsCanonical : Bytes → Type 0
  IsCanonical hex = (root : Bytes) × (enc.hex_encode root ≡ hex)

  canonical_root :
      (hex root : Bytes)
      → ReadBack enc
      → IsCanonical hex
      → enc.hex_decode hex ≡ some root
      → enc.hex_encode root ≡ hex
  canonical_root hex root rb (r, e) h =
      let same : r ≡ root = some_injective _ _ (sym (rb.hex r) ∙ ap enc.hex_decode e ∙ h) in
      ap enc.hex_encode (sym same) ∙ e

  -- With encodings that are read back, and numbers that fit their fields: accepted evidence, with
  -- both roots written as the encoder writes them, has two heads of one tree size, each with a valid
  -- signature of the log on a text for its own root. The two roots differ, and so do the texts: the
  -- log has signed two different roots for one size.
  pub verify_fork_evidence-Forked :
      (evidence : ForkEvidence)
      → ReadBack enc
      → IsConfig config
      → IsU64 evidence.tree_size
      → IsCanonical evidence.root_a
      → IsCanonical evidence.root_b
      → verify_fork_evidence enc verify config evidence ≡ some _
      → Forked evidence
  unfolding verify_fork_evidence
  verify_fork_evidence-Forked evidence rb ic iu ca cb h =
      require_then (not (same_bytes evidence.root_a evidence.root_b)) _ _ h (λ d rest.
        bind_then (verify_gossip_head enc verify config _) _ _ rest (λ u ha hb.
          let a = verify_gossip_head-SignedRoot _ ha in
          let b = verify_gossip_head-SignedRoot _ hb in
          let differ : a.root ≢ b.root = λ e.
            let same : evidence.root_a ≡ evidence.root_b =
              sym (canonical_root evidence.root_a a.root rb ca a.has_root)
              ∙ ap enc.hex_encode e
              ∙ canonical_root evidence.root_b b.root rb cb b.has_root in
            cc ((same_bytes_iff evidence.root_a evidence.root_b).1 same, d) in
          record {
            a = a;
            b = b;
            roots = differ;
            texts = λ e.
                let (same, size, root) =
                  tree_head_tbs_injective config config evidence.tree_size evidence.tree_size a.root
                    b.root a.text ic ic iu iu a.has_text (b.has_text ∙ ap some (sym e)) in
                differ root;
          }))

  -- The client keeps the signed head of its state.
  pub record Retained (client : KtClient) (state : TrustedState) (head : TreeHead) : Type 0 where
    pub has_state : client.state ≡ some state
    pub has_head : client.retained_head ≡ some head
    pub valid :
        verify_tree_head_signature hash verify config head state.tree_size state.root_hash ≡ true

  gossip_of-verified :
      (state : TrustedState) (head : TreeHead)
      → ReadBack enc
      → verify_tree_head_signature hash verify config head state.tree_size state.root_hash ≡ true
      → verify_gossip_head enc verify config (gossip_of enc state.tree_size state.root_hash head)
        ≡ some _
  unfolding verify_gossip_head decode_gossip verify_tree_head_signature
  gossip_of-verified state head rb v =
      let (size, valid) =
        &&_true (head.tree_size == state.tree_size)
          (elim (construct_tree_head_tbs_public config state.tree_size state.root_hash) [
            | none ↦ false
            | some tbs ↦ any_valid (verify config.server_sig_pk tbs) head.signatures
          ])
          v in
      rw
        (
          rb.hex (enc.encode_head head),
          rb.heads head,
          size,
          rb.hex state.root_hash,
          signed_text (construct_tree_head_tbs_public config state.tree_size state.root_hash)
              (λ t. any_valid (verify config.server_sig_pk t) head.signatures) valid,
        )
        refl
    where
      signed_text :
          (o : Option Bytes) (f : Bytes → Bool)
          → (elim o [ none ↦ false | some t ↦ f t ]) ≡ true
          → (o >>= λ t. require (f t)) ≡ some _
      signed_text none f h = absurd (cc h)
      signed_text (some t) f h = rw h refl

  -- The case of a fork.
  record Differs (client : KtClient) (gossip : GossipHead) (state : TrustedState)
      (evidence : ForkEvidence) : Type 0 where
    size : gossip.tree_size ≡ state.tree_size
    root : Bytes
    has_root : enc.hex_decode gossip.root_hash ≡ some root
    other : same_bytes root state.root_hash ≡ false
    reported : forked enc verify config client gossip state ≡ some (GossipOutcome.fork evidence)

  compared-Differs :
      (client : KtClient) (gossip : GossipHead) (state : TrustedState) (evidence : ForkEvidence)
      → compared enc verify config client gossip state ≡ some (GossipOutcome.fork evidence)
      → Differs client gossip state evidence
  unfolding compared
  compared-Differs client gossip state evidence h =
      elim (Bool-cases (gossip.tree_size == state.tree_size)) [
        | inr f ↦ absurd (cc (rw f at h))
        | inl e ↦ bind_then (enc.hex_decode gossip.root_hash) _ _ (rw e at h) (λ root f rest.
            elim (Bool-cases (same_bytes root state.root_hash)) [
              | inl g ↦ absurd (cc (rw g at rest))
              | inr g ↦ record {
                size = (==_iff gossip.tree_size state.tree_size).0 e;
                root = root;
                has_root = f;
                other = g;
                reported = rw g at rest;
              }
            ])
      ]

  -- The evidence of a client.
  abbrev evidence_of : GossipHead → TrustedState → TreeHead → ForkEvidence
  evidence_of gossip state head = record {
    tree_size = state.tree_size;
    root_a = enc.hex_encode state.root_hash;
    head_a = enc.hex_encode (enc.encode_head head);
    root_b = gossip.root_hash;
    head_b = gossip.tree_head;
  }

  reported_as :
      (client : KtClient) (gossip : GossipHead) (state : TrustedState) (evidence : ForkEvidence)
      (head : TreeHead)
      → client.state ≡ some state
      → client.retained_head ≡ some head
      → forked enc verify config client gossip state ≡ some (GossipOutcome.fork evidence)
      → evidence_of gossip state head ≡ evidence
  unfolding forked export_head
  reported_as client gossip state evidence head hs hh h =
      ap (λ o. elim o [ GossipOutcome.fork e ↦ e | _ ↦ evidence ])
        (some_injective _ _ (rw (hs, hh) at h))

  other_strings :
      (gossip : GossipHead) (state : TrustedState) (root : Bytes)
      → ReadBack enc
      → enc.hex_decode gossip.root_hash ≡ some root
      → same_bytes root state.root_hash ≡ false
      → not (same_bytes (enc.hex_encode state.root_hash) gossip.root_hash) ≡ true
  other_strings gossip state root rb e n =
      elim (Bool-cases (same_bytes (enc.hex_encode state.root_hash) gossip.root_hash)) [
        | inr f ↦ rw f refl
        | inl f ↦
            let same = (same_bytes_iff (enc.hex_encode state.root_hash) gossip.root_hash).0 f in
            let equal =
              some_injective _ _
                (sym e ∙ (ap enc.hex_decode (sym same) ∙ rb.hex state.root_hash)) in
            absurd (cc (n, (same_bytes_iff root state.root_hash).1 equal))
      ]

  -- Whatever evidence of a fork a client finds in a gossiped head, every third party accepts: the client
  -- that keeps the signed head of its state reports a fork only where both roots are signed for its
  -- size, once the encodings read back what they write.
  pub verify_fork_evidence-check_gossiped_head :
      (client : KtClient) (gossip : GossipHead) (evidence : ForkEvidence) (state : TrustedState)
      (head : TreeHead)
      → ReadBack enc
      → Retained client state head
      → check_gossiped_head enc verify config client gossip ≡ some (GossipOutcome.fork evidence)
      → verify_fork_evidence enc verify config evidence ≡ some _
  unfolding check_gossiped_head verify_fork_evidence
  verify_fork_evidence-check_gossiped_head client gossip evidence state head rb r h =
      bind_then (verify_gossip_head enc verify config gossip) _ _ h (λ u ok rest.
        bind_then client.state _ _ rest (λ st e rest1.
          let d = compared-Differs client gossip state evidence (
            subst
              (λ s. compared enc verify config client gossip s ≡ some (GossipOutcome.fork evidence))
              (some_injective _ _ (sym e ∙ r.has_state)) rest1) in
          subst (λ v. verify_fork_evidence enc verify config v ≡ some _)
            (reported_as client gossip state evidence head r.has_state r.has_head d.reported)
            (rw
              (
                other_strings gossip state d.root rb d.has_root d.other,
                gossip_of-verified state head rb r.valid,
              )
              (subst
                (λ n.
                  verify_gossip_head enc verify config (record gossip { tree_size = n }) ≡ some _)
                d.size ok))))
