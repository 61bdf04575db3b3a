-- ===== src/Crypto/Commitment.antt =====
-- What a commitment binds.
use ru_kt.Common.{
  ℕ, ◌≡◌, ◌≢◌, arith, [], ◌++◌, ap, ◌∙◌, sym, length, none, some, true, false, same_bytes,
  same_bytes_iff, Option-cases, Bool-cases, inl, inr, ◌⊎◌,
}
use ru_kt.Tls.{
  Bytes, encode_u32, new_opaque_u8, new_opaque_u32, encode_opaque_u8, encode_opaque_u32,
  encode_fixed_opaque,
}
use ru_kt.Crypto.{commitment_value, suffix_bytes, commit, verify_commitment}
use ru_kt.Crypto.Prefix.{
  IsU32, Fits-u8, Fits-u32, split_u32, split_opaque_u8, split_opaque_u32, split_fixed,
}

-- The parts of a committed text.
record Committed (label : Bytes) (version : ℕ) (value opening text : Bytes) : Type 0 where
  short_label : new_opaque_u8 label ≢ none
  short_value : new_opaque_u32 value ≢ none
  sixteen : length opening ≡ 16
  parts :
      text
      ≡ opening
        ++ (encode_opaque_u8 label ++ (encode_u32 version ++ (encode_opaque_u32 value ++ [])))

committed :
    (label : Bytes) (version : ℕ) (value opening text : Bytes)
    → commitment_value label version value none opening ≡ some text
    → Committed label version value opening text
committed label version value opening text h =
    go (Option-cases (new_opaque_u8 label)) (Option-cases (new_opaque_u32 value))
  where
    go :
        (new_opaque_u8 label ≡ none) ⊎ ((l : Bytes) × (new_opaque_u8 label ≡ some l))
        → (new_opaque_u32 value ≡ none) ⊎ ((v : Bytes) × (new_opaque_u32 value ≡ some v))
        → Committed label version value opening text
    go (inl e) w = unfold commitment_value in absurd (cc (rw e at h))
    go (inr (l, e)) (inl e') = unfold commitment_value in absurd (cc (rw (e, e') at h))
    go (inr (l, e)) (inr (v, e')) =
        let fl = Fits-u8 label l e in
        let fv = Fits-u32 value v e' in
        unfold commitment_value suffix_bytes encode_fixed_opaque in
        record {
          short_label = λ n. fl.short (ap new_opaque_u8 (sym fl.same) ∙ n);
          short_value = λ n. fv.short (ap new_opaque_u32 (sym fv.same) ∙ n);
          sixteen = ground arith;
          parts = ground (arith, fl.same, fv.same);
        }

-- Two equal committed texts were made from the same opening, label, version and value.
pub commitment_value_injective :
    (label label' : Bytes) (version version' : ℕ) (value value' opening opening' text : Bytes)
    → IsU32 version
    → IsU32 version'
    → commitment_value label version value none opening ≡ some text
    → commitment_value label' version' value' none opening' ≡ some text
    → (label ≡ label') × (version ≡ version') × (value ≡ value') × (opening ≡ opening')
commitment_value_injective label label' version version' value value' opening opening' text hv hv' h
      h' =
    let c = committed label version value opening text h in
    let c' = committed label' version' value' opening' text h' in
    let (o, e1) =
      split_fixed opening opening' _ _ (c.sixteen ∙ sym c'.sixteen) (sym c.parts ∙ c'.parts) in
    let (l, e2) = split_opaque_u8 label label' _ _ c.short_label c'.short_label e1 in
    let (n, e3) = split_u32 version version' _ _ hv hv' e2 in
    let (v, _) = split_opaque_u32 value value' [] [] c.short_value c'.short_value e3 in (l, n, v, o)

-- What the verifier accepts was committed, and to accept two readings of one commitment takes two
-- texts with the same HMAC.
verified :
    (hmac : Bytes → Bytes) (label : Bytes) (version : ℕ) (value opening commitment : Bytes)
    → verify_commitment hmac label version value opening commitment ≡ true
    → (text : Bytes) × (commitment_value label version value none opening ≡ some text)
      × (hmac text ≡ commitment)
unfolding verify_commitment commit
verified hmac label version value opening commitment h =
    go (Option-cases (commitment_value label version value none opening))
  where
    go :
        (commitment_value label version value none opening ≡ none)
          ⊎ ((text : Bytes) × (commitment_value label version value none opening ≡ some text))
        → (text : Bytes) × (commitment_value label version value none opening ≡ some text)
          × (hmac text ≡ commitment)
    go (inl e) = absurd (cc (rw (e, verify_commitment, commit) at h))
    go (inr (text, e)) = (
      text,
      e,
      (same_bytes_iff (hmac text) commitment).0 (rw (e, verify_commitment, commit) at h),
    )

-- Two texts with one hash.
abbrev pub Collision : (Bytes → Bytes) → Type 0
Collision hash = (x : Bytes) × (y : Bytes) × (x ≢ y) × (hash x ≡ hash y)

-- A commitment that verifies for two readings is of one label, version, value and opening, or it
-- shows a collision of the HMAC.
pub commitment_binding :
    (hmac : Bytes → Bytes) (label label' : Bytes) (version version' : ℕ)
    (value value' opening opening' commitment : Bytes)
    → IsU32 version
    → IsU32 version'
    → verify_commitment hmac label version value opening commitment ≡ true
    → verify_commitment hmac label' version' value' opening' commitment ≡ true
    → ((label ≡ label') × (version ≡ version') × (value ≡ value') × (opening ≡ opening'))
      ⊎ Collision hmac
commitment_binding hmac label label' version version' value value' opening opening' commitment hv
      hv' h h' =
    go (Bool-cases (same_bytes text text'))
  where
    open (verified hmac label version value opening commitment h) use {0 as text, 1 as e, 2 as m}
    open (verified hmac label' version' value' opening' commitment h') use {
      0 as text', 1 as e', 2 as m',
    }

    go :
        (same_bytes text text' ≡ true) ⊎ (same_bytes text text' ≡ false)
        → ((label ≡ label') × (version ≡ version') × (value ≡ value') × (opening ≡ opening'))
          ⊎ Collision hmac
    go (inl same) =
        let t = (same_bytes_iff text text').0 same in
        inl (
          commitment_value_injective label label' version version' value value' opening opening'
            text hv hv' e (e' ∙ ap some (sym t)))
    go (inr differ) = inr (
      text,
      text',
      (λ t. let yes_same = (same_bytes_iff text text').1 t in cc (yes_same, differ)),
      m ∙ sym m',
    )
