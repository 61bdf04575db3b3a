-- ===== src/Crypto/Signed.antt =====
-- What the serialized configuration is made of, and its part that depends on the mode.
use ru_kt.Common.{
  ℕ, ◌≡◌, ◌≢◌, refl, [], ◌++◌, ap, ◌∙◌, sym, Option, none, some, if◌then◌else◌, true, false,
  Option-cases, Bool-cases, inl, inr, ◌==◌, ◌⊎◌,
}
use mathlib.Core.List.{append_assoc}
use ru_kt.Tls.{
  Bytes, encode_u8, encode_u16, encode_u64, new_opaque_u16, encode_opaque_u16, encode_optional,
}
use ru_kt.Crypto.{PublicConfig, mode_part, serialize_configuration_public}
use ru_kt.Crypto.Prefix.{IsU8, IsU16, IsU64, InRange, Fits-u16, split_u64, split_opaque_u16}

-- The integers of the configuration are machine words.
pub record IsConfig (c : PublicConfig) : Type 0 where
  pub cipher_suite : IsU16 c.cipher_suite
  pub mode : IsU8 c.mode
  pub start : IsU64 c.auditor_start_pos
  pub lag : IsU64 c.max_auditor_lag
  pub ahead : IsU64 c.max_ahead
  pub behind : IsU64 c.max_behind
  pub window : IsU64 c.reasonable_monitoring_window
  pub lifetime : InRange c.maximum_lifetime

abbrev pub leaf_bytes : Option Bytes → Bytes
leaf_bytes none = []
leaf_bytes (some k) = k

-- The fields that the mode leaves to be signed.
abbrev pub SameMode : PublicConfig → PublicConfig → Type 0
SameMode c d =
    if c.mode == 3
    then (c.auditor_start_pos ≡ d.auditor_start_pos)
      × (c.max_auditor_lag ≡ d.max_auditor_lag)
      × (c.auditor_public_key ≡ d.auditor_public_key)
    else leaf_bytes c.leaf_public_key ≡ leaf_bytes d.leaf_public_key

pub record SameSigned (c d : PublicConfig) : Type 0 where
  pub cipher_suite : c.cipher_suite ≡ d.cipher_suite
  pub mode : c.mode ≡ d.mode
  pub server_sig_pk : c.server_sig_pk ≡ d.server_sig_pk
  pub vrf_public_key : c.vrf_public_key ≡ d.vrf_public_key
  pub by_mode : SameMode c d
  pub max_ahead : c.max_ahead ≡ d.max_ahead
  pub max_behind : c.max_behind ≡ d.max_behind
  pub window : c.reasonable_monitoring_window ≡ d.reasonable_monitoring_window
  pub maximum_lifetime : c.maximum_lifetime ≡ d.maximum_lifetime

abbrev pub part_of : PublicConfig → Option Bytes
part_of c =
    mode_part c.mode c.auditor_start_pos c.max_auditor_lag c.auditor_public_key c.leaf_public_key

pub record Serialized (c : PublicConfig) (text : Bytes) : Type 0 where
  pub sig : new_opaque_u16 c.server_sig_pk ≢ none
  pub vrf : new_opaque_u16 c.vrf_public_key ≢ none
  pub part : Bytes
  pub has_part : part_of c ≡ some part
  pub parts :
      text
      ≡ encode_u16 c.cipher_suite
        ++ (encode_u8 c.mode
            ++ (encode_opaque_u16 c.server_sig_pk
                ++ (encode_opaque_u16 c.vrf_public_key
                    ++ (part
                        ++ (encode_u64 c.max_ahead
                            ++ (encode_u64 c.max_behind
                                ++ (encode_u64 c.reasonable_monitoring_window
                                    ++ encode_optional encode_u64 c.maximum_lifetime)))))))

pub serialized :
    (c : PublicConfig) (text : Bytes)
    → serialize_configuration_public c ≡ some text
    → Serialized c text
unfolding serialize_configuration_public
serialized c text h =
    go (Option-cases (new_opaque_u16 c.server_sig_pk))
      (Option-cases (new_opaque_u16 c.vrf_public_key)) (Option-cases (part_of c))
  where
    go :
        (new_opaque_u16 c.server_sig_pk ≡ none)
          ⊎ ((x : Bytes) × (new_opaque_u16 c.server_sig_pk ≡ some x))
        → (new_opaque_u16 c.vrf_public_key ≡ none)
          ⊎ ((y : Bytes) × (new_opaque_u16 c.vrf_public_key ≡ some y))
        → (part_of c ≡ none) ⊎ ((p : Bytes) × (part_of c ≡ some p))
        → Serialized c text
    go (inl e) _ _ = absurd (cc (rw (e, serialize_configuration_public) at h))
    go (inr (x, e)) (inl e') _ = absurd (cc (rw (e, e', serialize_configuration_public) at h))
    go (inr (x, e)) (inr (y, e')) (inl e'') =
        absurd (cc (rw (e, e', e'', serialize_configuration_public) at h))
    go (inr (x, e)) (inr (y, e')) (inr (p, e'')) = record {
      sig = λ n. cc (e, n);
      vrf = λ n. cc (e', n);
      part = p;
      has_part = e'';
      parts = cc (
        rw (e, e', e'', serialize_configuration_public) at h,
        (Fits-u16 c.server_sig_pk x e).same,
        (Fits-u16 c.vrf_public_key y e').same,
      );
    }

-- The part of the auditing mode.
pub record Audited (start lag : ℕ) (auditor : Option Bytes) (part : Bytes) : Type 0 where
  key : Bytes
  has_key : auditor ≡ some key
  short : new_opaque_u16 key ≢ none
  pub parts : part ≡ encode_u64 start ++ (encode_u64 lag ++ encode_opaque_u16 key)

audited :
    (mode start lag : ℕ) (auditor leaf : Option Bytes) (part : Bytes)
    → (mode == 3) ≡ true
    → mode_part mode start lag auditor leaf ≡ some part
    → Audited start lag auditor part
unfolding mode_part
audited mode start lag none leaf part e h = absurd (cc (rw (e, mode_part) at h))
audited mode start lag (some k) leaf part e h = go (Option-cases (new_opaque_u16 k))
  where
    go :
        (new_opaque_u16 k ≡ none) ⊎ ((x : Bytes) × (new_opaque_u16 k ≡ some x))
        → Audited start lag (some k) part
    go (inl n) = absurd (cc (rw (e, n, mode_part) at h))
    go (inr (x, n)) = record {
      key = k;
      has_key = refl;
      short = λ m. cc (n, m);
      parts = cc (rw (e, n, mode_part) at h, (Fits-u16 k x n).same);
    }

-- The part of the other modes.
pub record Plain (leaf : Option Bytes) (part : Bytes) : Type 0 where
  short : new_opaque_u16 (leaf_bytes leaf) ≢ none
  pub parts : part ≡ encode_opaque_u16 (leaf_bytes leaf)

plain :
    (mode start lag : ℕ) (auditor leaf : Option Bytes) (part : Bytes)
    → (mode == 3) ≡ false
    → mode_part mode start lag auditor leaf ≡ some part
    → Plain leaf part
unfolding mode_part
plain mode start lag auditor none part e h = go (Option-cases (new_opaque_u16 []))
  where
    go : (new_opaque_u16 [] ≡ none) ⊎ ((x : Bytes) × (new_opaque_u16 [] ≡ some x)) → Plain none part
    go (inl n) = absurd (cc (rw (e, n, mode_part) at h))
    go (inr (x, n)) = record {
      short = λ m. cc (n, m);
      parts = cc (rw (e, n, mode_part) at h, (Fits-u16 [] x n).same);
    }
plain mode start lag auditor (some k) part e h = go (Option-cases (new_opaque_u16 k))
  where
    go :
        (new_opaque_u16 k ≡ none) ⊎ ((x : Bytes) × (new_opaque_u16 k ≡ some x))
        → Plain (some k) part
    go (inl n) = absurd (cc (rw (e, n, mode_part) at h))
    go (inr (x, n)) = record {
      short = λ m. cc (n, m);
      parts = cc (rw (e, n, mode_part) at h, (Fits-u16 k x n).same);
    }

pub split_mode :
    (c d : PublicConfig) (p q r s : Bytes)
    → IsConfig c
    → IsConfig d
    → c.mode ≡ d.mode
    → part_of c ≡ some p
    → part_of d ≡ some q
    → p ++ r ≡ q ++ s
    → SameMode c d × (r ≡ s)
split_mode c d p q r s ic id m hp hq e = go (Bool-cases (c.mode == 3))
  where
    regroup :
        (start lag : ℕ) (key rest : Bytes)
        → (encode_u64 start ++ (encode_u64 lag ++ encode_opaque_u16 key)) ++ rest
          ≡ encode_u64 start ++ (encode_u64 lag ++ (encode_opaque_u16 key ++ rest))
    regroup start lag key rest = simp append_assoc

    go : ((c.mode == 3) ≡ true) ⊎ ((c.mode == 3) ≡ false) → SameMode c d × (r ≡ s)
    go (inl t) =
        let a =
          audited c.mode c.auditor_start_pos c.max_auditor_lag c.auditor_public_key
            c.leaf_public_key p t hp in
        let b =
          audited d.mode d.auditor_start_pos d.max_auditor_lag d.auditor_public_key
            d.leaf_public_key q (ap (λ (x : ℕ). x == 3) (sym m) ∙ t) hq in
        let flat = regroup c.auditor_start_pos c.max_auditor_lag a.key r in
        let flat' = regroup d.auditor_start_pos d.max_auditor_lag b.key s in
        let (e1, r1) = split_u64 c.auditor_start_pos d.auditor_start_pos _ _ ic.start id.start (
          sym flat
          ∙ ap (λ (x : Bytes). x ++ r) (sym a.parts)
          ∙ e
          ∙ ap (λ (x : Bytes). x ++ s) b.parts
          ∙ flat') in
        let (e2, r2) = split_u64 c.max_auditor_lag d.max_auditor_lag _ _ ic.lag id.lag r1 in
        let (e3, r3) = split_opaque_u16 a.key b.key r s a.short b.short r2 in
        rw t ((e1, e2, a.has_key ∙ ap some e3 ∙ sym b.has_key), r3)
    go (inr t) =
        let a =
          plain c.mode c.auditor_start_pos c.max_auditor_lag c.auditor_public_key c.leaf_public_key
            p t hp in
        let b =
          plain d.mode d.auditor_start_pos d.max_auditor_lag d.auditor_public_key d.leaf_public_key
            q (ap (λ (x : ℕ). x == 3) (sym m) ∙ t) hq in
        let (e1, r1) =
          split_opaque_u16 (leaf_bytes c.leaf_public_key) (leaf_bytes d.leaf_public_key) r s a.short
            b.short
            (ap (λ (x : Bytes). x ++ r) (sym a.parts) ∙ e ∙ ap (λ (x : Bytes). x ++ s) b.parts) in
        rw t (e1, r1)
