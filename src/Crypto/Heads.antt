-- ===== src/Crypto/Heads.antt =====
-- The texts that are signed for a tree head fix the configuration's signed fields, the tree size
-- and the root; no text of the log is one of an auditor; the server signs what the client checks.
use ru_kt.Common.{
  ℕ, ◌≡◌, ◌≢◌, refl, arith, ◌++◌, ap, ◌∙◌, sym, length, Option, none, some, true, false,
  Option-cases, Bool-cases, inl, inr, ◌==◌, ◌⊎◌, ◌↔◌, subst, ==_iff, length-append,
}
use mathlib.Core.List.{append_assoc}
use ru_kt.Tls.{
  Bytes, encode_u8, encode_u16, encode_u64, encode_opaque_u16, encode_fixed_opaque, encode_optional,
}
use ru_kt.Tls.BigEndian.{length-to_be_bytes}
use ru_kt.Crypto.{
  PublicConfig, PrivateConfig, serialize_configuration, serialize_configuration_public,
  construct_tree_head_tbs, construct_tree_head_tbs_public, construct_auditor_tree_head_tbs_public,
  mode_part, private_mode_part, or_else,
}
use ru_kt.Crypto.Prefix.{IsU64, split_u8, split_u16, split_u64, split_opaque_u16, split_optional}
use ru_kt.Crypto.Signed.{IsConfig, SameSigned, serialized, split_mode}

flat :
    (c : PublicConfig) (part rest : Bytes)
    → (encode_u16 c.cipher_suite
          ++ (encode_u8 c.mode
              ++ (encode_opaque_u16 c.server_sig_pk
                  ++ (encode_opaque_u16 c.vrf_public_key
                      ++ (part
                          ++ (encode_u64 c.max_ahead
                              ++ (encode_u64 c.max_behind
                                  ++ (encode_u64 c.reasonable_monitoring_window
                                      ++ encode_optional encode_u64 c.maximum_lifetime))))))))
        ++ rest
      ≡ encode_u16 c.cipher_suite
        ++ (encode_u8 c.mode
            ++ (encode_opaque_u16 c.server_sig_pk
                ++ (encode_opaque_u16 c.vrf_public_key
                    ++ (part
                        ++ (encode_u64 c.max_ahead
                            ++ (encode_u64 c.max_behind
                                ++ (encode_u64 c.reasonable_monitoring_window
                                    ++ (encode_optional encode_u64 c.maximum_lifetime
                                        ++ rest))))))))
flat c part rest = simp append_assoc

-- Serialized configurations are prefix codes up to the fields that are not signed.
serialize_prefix :
    (c d : PublicConfig) (x y r s : Bytes)
    → IsConfig c
    → IsConfig d
    → serialize_configuration_public c ≡ some x
    → serialize_configuration_public d ≡ some y
    → x ++ r ≡ y ++ s
    → SameSigned c d × (r ≡ s)
serialize_prefix c d x y r s ic id hx hy e =
    let a = serialized c x hx in
    let b = serialized d y hy in
    let (e1, r1) = split_u16 c.cipher_suite d.cipher_suite _ _ ic.cipher_suite id.cipher_suite (
      sym (flat c a.part r)
      ∙ ap (λ (t : Bytes). t ++ r) (sym a.parts)
      ∙ e
      ∙ ap (λ (t : Bytes). t ++ s) b.parts
      ∙ flat d b.part s) in
    let (e2, r2) = split_u8 c.mode d.mode _ _ r1 in
    let (e3, r3) = split_opaque_u16 c.server_sig_pk d.server_sig_pk _ _ a.sig b.sig r2 in
    let (e4, r4) = split_opaque_u16 c.vrf_public_key d.vrf_public_key _ _ a.vrf b.vrf r3 in
    let (e5, r5) = split_mode c d a.part b.part _ _ ic id e2 a.has_part b.has_part r4 in
    let (e6, r6) = split_u64 c.max_ahead d.max_ahead _ _ ic.ahead id.ahead r5 in
    let (e7, r7) = split_u64 c.max_behind d.max_behind _ _ ic.behind id.behind r6 in
    let (e8, r8) =
      split_u64 c.reasonable_monitoring_window d.reasonable_monitoring_window _ _ ic.window
        id.window r7 in
    let (e9, r9) =
      split_optional c.maximum_lifetime d.maximum_lifetime r s ic.lifetime id.lifetime r8 in
    (
      record {
        cipher_suite = e1;
        mode = e2;
        server_sig_pk = e3;
        vrf_public_key = e4;
        by_mode = e5;
        max_ahead = e6;
        max_behind = e7;
        window = e8;
        maximum_lifetime = e9;
      },
      r9,
    )

-- A text to be signed for a log's tree head.
record Head (c : PublicConfig) (size : ℕ) (root text : Bytes) : Type 0 where
  config : Bytes
  has_config : serialize_configuration_public c ≡ some config
  wide : length root ≡ 32
  parts : text ≡ config ++ (encode_u64 size ++ root)

head :
    (c : PublicConfig) (size : ℕ) (root text : Bytes)
    → construct_tree_head_tbs_public c size root ≡ some text
    → Head c size root text
unfolding construct_tree_head_tbs_public encode_fixed_opaque
head c size root text h =
    go (Option-cases (serialize_configuration_public c)) (Bool-cases (length root == 32))
  where
    go :
        (serialize_configuration_public c ≡ none)
          ⊎ ((x : Bytes) × (serialize_configuration_public c ≡ some x))
        → ((length root == 32) ≡ true) ⊎ ((length root == 32) ≡ false)
        → Head c size root text
    go (inl e) _ = absurd (cc (rw (e, construct_tree_head_tbs_public) at h))
    go (inr (x, e)) (inl w) = record {
      config = x;
      has_config = e;
      wide = (==_iff _ _).0 w;
      parts =
          cc
            (rw (e, w, construct_tree_head_tbs_public) at h, append_assoc x (encode_u64 size) root);
    }
    go (inr (x, e)) (inr w) = absurd (cc (rw (e, w, construct_tree_head_tbs_public) at h))

-- One signed text of a tree head stands for one tree size and one root, and for configurations that
-- agree on every signed field.
pub tree_head_tbs_injective :
    (c d : PublicConfig) (size size' : ℕ) (root root' text : Bytes)
    → IsConfig c
    → IsConfig d
    → IsU64 size
    → IsU64 size'
    → construct_tree_head_tbs_public c size root ≡ some text
    → construct_tree_head_tbs_public d size' root' ≡ some text
    → SameSigned c d × (size ≡ size') × (root ≡ root')
tree_head_tbs_injective c d size size' root root' text ic id hs hs' h h' =
    let a = head c size root text h in
    let b = head d size' root' text h' in
    let (same, r1) =
      serialize_prefix c d a.config b.config _ _ ic id a.has_config b.has_config
        (sym a.parts ∙ b.parts) in
    let (es, er) = split_u64 size size' root root' hs hs' r1 in (same, es, er)

auditor_head :
    (c : PublicConfig) (size time : ℕ) (root text : Bytes)
    → construct_auditor_tree_head_tbs_public c size time root ≡ some text
    → (config : Bytes) × (serialize_configuration_public c ≡ some config)
      × (length root ≡ 32)
      × (text ≡ config ++ (encode_u64 time ++ (encode_u64 size ++ root)))
unfolding construct_auditor_tree_head_tbs_public encode_fixed_opaque
auditor_head c size time root text h =
    go (Option-cases (serialize_configuration_public c)) (Bool-cases (length root == 32))
  where
    regroup :
        (x : Bytes)
        → ((x ++ encode_u64 time) ++ encode_u64 size) ++ root
          ≡ x ++ (encode_u64 time ++ (encode_u64 size ++ root))
    regroup x = simp append_assoc

    go :
        (serialize_configuration_public c ≡ none)
          ⊎ ((x : Bytes) × (serialize_configuration_public c ≡ some x))
        → ((length root == 32) ≡ true) ⊎ ((length root == 32) ≡ false)
        → (config : Bytes) × (serialize_configuration_public c ≡ some config)
          × (length root ≡ 32)
          × (text ≡ config ++ (encode_u64 time ++ (encode_u64 size ++ root)))
    go (inl e) _ = absurd (cc (rw (e, construct_auditor_tree_head_tbs_public) at h))
    go (inr (x, e)) (inl w) = (
      x,
      e,
      (==_iff _ _).0 w,
      cc (rw (e, w, construct_auditor_tree_head_tbs_public) at h, regroup x),
    )
    go (inr (x, e)) (inr w) = absurd (cc (rw (e, w, construct_auditor_tree_head_tbs_public) at h))

length-encode_u64 : (v : ℕ) → length (encode_u64 v) ≡ 8
unfolding encode_u64
length-encode_u64 v = length-to_be_bytes 8 v

-- No text is signed both for a tree head of the log and for one of an auditor, whatever their
-- configurations, sizes, times and roots.
pub tree_head_tbs-ne-auditor :
    (c d : PublicConfig) (size size' time : ℕ) (root root' text : Bytes)
    → IsConfig c
    → IsConfig d
    → construct_tree_head_tbs_public c size root ≡ some text
    → construct_auditor_tree_head_tbs_public d size' time root' ≢ some text
tree_head_tbs-ne-auditor c d size size' time root root' text ic id h h' =
    let a = head c size root text h in
    let (config, has, wide, parts) = auditor_head d size' time root' text h' in
    let (same, rest) =
      serialize_prefix c d a.config config _ _ ic id a.has_config has (sym a.parts ∙ parts) in
    let w = a.wide in
    let l = ap length rest in
    omega (
      arith,
      length-append (encode_u64 size) root,
      length-append (encode_u64 time) (encode_u64 size' ++ root'),
      length-append (encode_u64 size') root',
      length-encode_u64 size,
      length-encode_u64 time,
      length-encode_u64 size',
    )

-- The configuration that a server publishes.
abbrev pub published : PrivateConfig → PublicConfig
published c = record {
  cipher_suite = c.cipher_suite;
  mode = c.mode;
  server_sig_pk = c.verifying_key;
  vrf_public_key = c.vrf_public_key;
  leaf_public_key = c.leaf_public_key;
  auditor_public_key = c.auditor_public_key;
  auditor_start_pos = c.auditor_start_pos;
  max_auditor_lag = c.max_auditor_lag;
  max_ahead = c.max_ahead;
  max_behind = c.max_behind;
  reasonable_monitoring_window = c.reasonable_monitoring_window;
  maximum_lifetime = c.maximum_lifetime;
}

-- The configuration that a client would have to have for what the server signs with an auditor's key.
abbrev signed_as : PrivateConfig → Option Bytes → PublicConfig
signed_as c auditor_pk = record {
  cipher_suite = c.cipher_suite;
  mode = c.mode;
  server_sig_pk = c.verifying_key;
  vrf_public_key = c.vrf_public_key;
  leaf_public_key = c.leaf_public_key;
  auditor_public_key = or_else auditor_pk c.auditor_public_key;
  auditor_start_pos = c.auditor_start_pos;
  max_auditor_lag = c.max_auditor_lag;
  max_ahead = c.max_ahead;
  max_behind = c.max_behind;
  reasonable_monitoring_window = c.reasonable_monitoring_window;
  maximum_lifetime = c.maximum_lifetime;
}

private_mode_part-mode_part :
    (c : PrivateConfig) (auditor_pk : Option Bytes)
    → private_mode_part c auditor_pk
      ≡ mode_part c.mode c.auditor_start_pos c.max_auditor_lag
          (or_else auditor_pk c.auditor_public_key)
          c.leaf_public_key
unfolding private_mode_part mode_part
private_mode_part-mode_part c auditor_pk = refl

construct_tree_head_tbs-signed_as :
    (c : PrivateConfig) (auditor_pk : Option Bytes) (size : ℕ) (root : Bytes)
    → construct_tree_head_tbs c auditor_pk size root
      ≡ construct_tree_head_tbs_public (signed_as c auditor_pk) size root
unfolding construct_tree_head_tbs construct_tree_head_tbs_public serialize_configuration
    serialize_configuration_public
construct_tree_head_tbs-signed_as c auditor_pk size root =
    rw (private_mode_part-mode_part c auditor_pk) refl

signed_as-IsConfig :
    (c : PrivateConfig) (auditor_pk : Option Bytes)
    → IsConfig (published c)
    → IsConfig (signed_as c auditor_pk)
signed_as-IsConfig c auditor_pk i = record {
  cipher_suite = i.cipher_suite;
  mode = i.mode;
  start = i.start;
  lag = i.lag;
  ahead = i.ahead;
  behind = i.behind;
  window = i.window;
  lifetime = i.lifetime;
}

-- With numbers that fit their fields: the text that the server signs with an auditor's key, if any, is
-- the one that a client with the published configuration checks, exactly if the mode signs no auditor's
-- key or the key that is taken, the configured one where none is given, is the published one.
pub construct_tree_head_tbs-published :
    (c : PrivateConfig) (auditor_pk : Option Bytes) (size : ℕ) (root text : Bytes)
    → IsConfig (published c)
    → IsU64 size
    → construct_tree_head_tbs c auditor_pk size root ≡ some text
    → (construct_tree_head_tbs_public (published c) size root ≡ some text)
      ↔ ((c.mode ≢ 3) ⊎ (or_else auditor_pk c.auditor_public_key ≡ c.auditor_public_key))
construct_tree_head_tbs-published c auditor_pk size root text i iu h = (
  λ k. elim (Bool-cases (c.mode == 3)) [
    | inr n ↦ inl (λ e. let yes_three = (==_iff c.mode 3).1 e in cc (yes_three, n))
    | inl t ↦
        let (same, _, _) =
          tree_head_tbs_injective (signed_as c auditor_pk) (published c) size size root root text
            (signed_as-IsConfig c auditor_pk i) i iu iu as_public k in
        inr (rw t at same.by_mode).2
  ],
  λ v. elim v [
    | inl n ↦ sym (no_key n) ∙ as_public
    | inr e ↦
        subst
          (λ k.
            construct_tree_head_tbs_public (record (published c) { auditor_public_key = k }) size
              root
            ≡ some text)
          e as_public
  ],
)
  where
    as_public : construct_tree_head_tbs_public (signed_as c auditor_pk) size root ≡ some text
    as_public = sym (construct_tree_head_tbs-signed_as c auditor_pk size root) ∙ h

    no_key :
        c.mode ≢ 3
        → construct_tree_head_tbs_public (signed_as c auditor_pk) size root
          ≡ construct_tree_head_tbs_public (published c) size root
    no_key n = elim (Bool-cases (c.mode == 3)) [
      | inl t ↦ absurd (n ((==_iff c.mode 3).0 t))
      | inr f ↦
          unfold construct_tree_head_tbs_public serialize_configuration_public mode_part in
          rw f refl
    ]
