-- ===== src/Vrf/P256Proof.antt =====
-- A proof of the P-256 suite is accepted, with the output that it was made with.
use ru_kt.Common.{
  ℕ, zero, suc, ◌+◌, Option, none, false, Bool-cases, inl, inr, ◌≡◌, refl, sym, ap, ◌∙◌, arith,
  true, [], ◌∷◌, ◌++◌, some, ◌==◌, length, length-append, length-take, take, drop, take_more,
  drop_more, All-take, same_bytes_refl, bind_then, require_then, some_injective, subst,
}
use mathlib.Core.List.{append_assoc, append-nil}
use ru_kt.Tls.{Bytes}
use ru_kt.Vrf.Group.{Nist, NistLaws, zeros16, opens}
use ru_kt.Vrf.P256.{
  candidate, first_some, encode_loop, expand_vrf_secret_p256, encode_to_curve_p256, challenge_p256,
  proof_to_hash_p256, nonce, prove_at, ecvrf_prove_p256, verify_at, ecvrf_verify_p256,
}

module _ {Point Scalar : Type 0} (curve : Nist Point Scalar) (laws : NistLaws curve) where
  -- A challenge and its half: `half` are the bytes that go into a proof.
  record Halved (p1 p2 p3 p4 p5 : Bytes) : Type 0 where
    value : Scalar
    gives : challenge_p256 curve p1 p2 p3 p4 p5 ≡ some value
    half : Bytes
    is_half : take 16 (drop 16 (curve.to_bytes value)) ≡ half
    size : length half ≡ 16
    read : curve.from_repr (zeros16 ++ half) ≡ some value

  challenge_p256-Halved : (p1 p2 p3 p4 p5 : Bytes) → Halved p1 p2 p3 p4 p5
  unfolding challenge_p256
  challenge_p256-Halved p1 p2 p3 p4 p5 =
      let digest = curve.sha256 (1 ∷ 2 ∷ (p1 ++ (p2 ++ (p3 ++ (p4 ++ (p5 ++ (0 ∷ []))))))) in
      let size = length-take 16 digest (omega (arith, laws.length-sha256 _)) in
      let (c, e, f) =
        laws.small (take 16 digest) size (All-take _ 16 digest (laws.bytes-sha256 _)) in
      record {
        value = c;
        gives = e;
        half = take 16 digest;
        is_half = rw f (all_of (take 16 digest) size);
        size = size;
        read = e;
      }
    where
      all_of : (d : Bytes) → length d ≡ 16 → take 16 (drop 16 (zeros16 ++ d)) ≡ d
      all_of d l = ap (take 16) (sym (append-nil d)) ∙ take_more 16 d [] l

  -- The verifier finds the points of the prover again, and so the challenge.
  verify_at_opened :
      (x k c : Scalar) (h : Point) (y half : Bytes)
      → challenge_p256 curve y
          (curve.to_encoded_point h)
          (curve.to_encoded_point (curve.group.mul x h))
          (curve.to_encoded_point (curve.group.mul k curve.group.base))
          (curve.to_encoded_point (curve.group.mul k h))
        ≡ some c
      → take 16 (drop 16 (curve.to_bytes c)) ≡ half
      → verify_at curve y
          (curve.to_encoded_point (curve.group.mul x h))
          half
          c
          (curve.group.add k (curve.group.times c x))
          (curve.group.mul x h)
          (curve.group.mul x curve.group.base)
          h
        ≡ some (proof_to_hash_p256 curve (curve.group.mul x h))
  unfolding verify_at
  verify_at_opened x k c h y half e halved =
      rw
        (
          opens curve.group laws.laws k c x curve.group.base _,
          opens curve.group laws.laws k c x h _,
          e,
        )
        (rw (halved, same_bytes_refl half) refl)

  -- The three parts of a proof are found again.
  parsed :
      (y alpha g c s : Bytes) (gamma pk h : Point) (cs ss : Scalar)
      → length g ≡ 33
      → length c ≡ 16
      → length s ≡ 32
      → curve.from_encoded_point g ≡ some gamma
      → curve.from_repr (zeros16 ++ c) ≡ some cs
      → curve.from_repr s ≡ some ss
      → curve.from_encoded_point y ≡ some pk
      → encode_to_curve_p256 curve y alpha ≡ some h
      → ecvrf_verify_p256 curve y alpha (g ++ (c ++ s)) ≡ verify_at curve y g c cs ss gamma pk h
  unfolding ecvrf_verify_p256
  parsed y alpha g c s gamma pk h cs ss lg lc ls dg dc ds dy dh =
      rw
        (
          whole,
          take_more 33 g (c ++ s) lg,
          drop_more 33 g (c ++ s) lg,
          take_more 16 c s lc,
          gone,
          dg,
          dc,
          ds,
          dy,
          dh,
        )
        refl
    where
      whole : (length (g ++ (c ++ s)) == 81) ≡ true
      whole = ground (arith, length-append g (c ++ s), length-append c s)

      gone : drop 49 (g ++ (c ++ s)) ≡ s
      gone =
          ap (drop 49) (sym (append_assoc g c s))
          ∙ drop_more 49 (g ++ c) s (omega (arith, length-append g c))

  abbrev public : Scalar → Bytes
  public x = curve.to_encoded_point (curve.group.mul x curve.group.base)

  -- The point for an input is not the identity.
  candidate-ne-identity :
      (result : Bytes) (h : Point) → candidate curve result ≡ some h → curve.is_identity h ≡ false
  candidate-ne-identity result h e =
      bind_then (curve.from_encoded_point (2 ∷ result)) _ _ e (λ p d rest.
        elim (Bool-cases (curve.is_identity p)) [
          | inl t ↦ absurd (cc (rw t at rest))
          | inr t ↦ subst (λ q. curve.is_identity q ≡ false) (some_injective _ _ (rw t at rest)) t
        ])

  encode_loop-ne-identity :
      (n ctr : ℕ) (y alpha : Bytes) (h : Point)
      → encode_loop curve n ctr y alpha ≡ some h
      → curve.is_identity h ≡ false
  unfolding encode_loop
  encode_loop-ne-identity zero ctr y alpha h e = absurd (cc e)
  encode_loop-ne-identity (suc n) ctr y alpha h e =
      go (candidate curve (curve.sha256 (1 ∷ 1 ∷ (y ++ (alpha ++ (ctr ∷ 0 ∷ [])))))) refl e
        (λ r. encode_loop-ne-identity n (ctr + 1) y alpha h r)
    where
      go :
          (o : Option Point)
          → candidate curve (curve.sha256 (1 ∷ 1 ∷ (y ++ (alpha ++ (ctr ∷ 0 ∷ []))))) ≡ o
          → first_some curve o (encode_loop curve n (ctr + 1) y alpha) ≡ some h
          → (encode_loop curve n (ctr + 1) y alpha ≡ some h → curve.is_identity h ≡ false)
          → curve.is_identity h ≡ false
      go none q r rec = rec r
      go (some p) q r rec =
          subst (λ q. curve.is_identity q ≡ false) (some_injective _ _ r)
            (candidate-ne-identity _ p q)

  encoded :
      (y alpha : Bytes) (h : Point)
      → encode_to_curve_p256 curve y alpha ≡ some h
      → curve.is_identity h ≡ false
  unfolding encode_to_curve_p256
  encoded y alpha h e = encode_loop-ne-identity 256 0 y alpha h e

  accepted :
      (x k : Scalar) (alpha : Bytes) (h : Point) (made : Bytes × Bytes)
      → encode_to_curve_p256 curve (public x) alpha ≡ some h
      → prove_at curve x (public x) h k ≡ some made
      → curve.is_identity (curve.group.mul x curve.group.base) ≡ false
      → ecvrf_verify_p256 curve (public x) alpha made.1 ≡ some made.0
  unfolding prove_at
  accepted x k alpha h made e p nonzero =
      let c =
        challenge_p256-Halved (public x) (curve.to_encoded_point h)
          (curve.to_encoded_point (curve.group.mul x h))
          (curve.to_encoded_point (curve.group.mul k curve.group.base))
          (curve.to_encoded_point (curve.group.mul k h)) in
      subst (λ (t : Bytes × Bytes). ecvrf_verify_p256 curve (public x) alpha t.1 ≡ some t.0)
        (some_injective _ _ (rw (c.gives, c.is_half) at p))
        (parsed (public x) alpha _ c.half _ _ _ h c.value _
            (laws.length-to_encoded_point _
              (laws.mul-ne-identity x h nonzero (encoded (public x) alpha h e)))
            c.size (laws.length-to_bytes _) (laws.from-to_encoded_point _) c.read (laws.read_back _)
            (laws.from-to_encoded_point _) e
          ∙ verify_at_opened x k c.value h (public x) c.half c.gives c.is_half)

  public_of :
      (secret y_bytes : Bytes) (x : Scalar)
      → expand_vrf_secret_p256 curve secret ≡ some (x, y_bytes)
      → public x ≡ y_bytes
  unfolding expand_vrf_secret_p256
  public_of secret y_bytes x key = require_then (length secret == 32) _ _ key (λ l rest.
      bind_then (curve.from_repr secret) _ _ rest (λ w e end.
        let same = some_injective _ _ end in
        ap (λ (t : Scalar × Bytes). public t.0) (sym same) ∙ ap (λ (t : Scalar × Bytes). t.1) same))

  -- With a key that was read from a secret, whatever proof the prover makes for an input, the verifier
  -- accepts under the key's public point, if it is not the identity, and finds the prover's output.
  pub ecvrf_verify_p256-prove :
      (secret alpha y_bytes output proof : Bytes) (x : Scalar)
      → expand_vrf_secret_p256 curve secret ≡ some (x, y_bytes)
      → curve.is_identity (curve.group.mul x curve.group.base) ≡ false
      → ecvrf_prove_p256 curve x y_bytes alpha ≡ some (output, proof)
      → ecvrf_verify_p256 curve y_bytes alpha proof ≡ some output
  unfolding ecvrf_prove_p256
  ecvrf_verify_p256-prove secret alpha y_bytes output proof x key nonzero h =
      subst Verified (public_of secret y_bytes x key) at_public h
    where
      Verified : Bytes → Type 0
      Verified y =
          ecvrf_prove_p256 curve x y alpha ≡ some (output, proof)
          → ecvrf_verify_p256 curve y alpha proof ≡ some output

      at_public : Verified (public x)
      at_public made =
          bind_then (encode_to_curve_p256 curve (public x) alpha) _ _ made (λ h_point e rest.
            bind_then (nonce curve x (curve.to_encoded_point h_point)) _ _ rest
              (λ k f end. accepted x k alpha h_point (output, proof) e end nonzero))
