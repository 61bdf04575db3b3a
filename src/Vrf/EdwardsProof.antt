-- ===== src/Vrf/EdwardsProof.antt =====
-- A proof of the Ed25519 suite is accepted, with the output that it was made with.
use ru_kt.Common.{
  ℕ, zero, suc, ◌+◌, Option, none, [], ◌∷◌, Bool-cases, inl, inr, ◌≡◌, refl, sym, ap, ◌∙◌, arith,
  true, ◌++◌, some, ◌==◌, length, length-append, length-take, take, drop, take_more, drop_more,
  All-take, same_bytes_refl, bind_then, require_then, some_injective, subst,
}
use mathlib.Core.List.{append_assoc}
use ru_kt.Tls.{Bytes}
use ru_kt.Vrf.Group.{Edwards, EdwardsLaws, zeros16, AreBytes, opens}
use ru_kt.Vrf.Edwards25519.{
  expand_vrf_secret_ed25519, encode_to_curve_ed25519, challenge_ed25519, proof_to_hash_ed25519,
  prove_at, candidate, first_some, encode_loop, ecvrf_prove_ed25519, verify_at,
  ecvrf_verify_ed25519,
}

module _ {Point Scalar : Type 0} (curve : Edwards Point Scalar) (laws : EdwardsLaws curve) where
  -- Half of a challenge is enough to read it back.
  challenge_halved :
      (p1 p2 p3 p4 p5 : Bytes)
      → curve.from_bytes_mod_order
          (take 16 (curve.to_bytes (challenge_ed25519 curve p1 p2 p3 p4 p5)) ++ zeros16)
        ≡ challenge_ed25519 curve p1 p2 p3 p4 p5
  unfolding challenge_ed25519
  challenge_halved p1 p2 p3 p4 p5 = go (curve.sha512 _) (laws.length-sha512 _) (laws.bytes-sha512 _)
    where
      go :
          (digest : Bytes)
          → length digest ≡ 64
          → AreBytes digest
          → curve.from_bytes_mod_order (
              take 16 (curve.to_bytes (curve.from_bytes_mod_order (take 16 digest ++ zeros16)))
              ++ zeros16)
            ≡ curve.from_bytes_mod_order (take 16 digest ++ zeros16)
      go digest l a =
          let size = length-take 16 digest (omega arith) in
          rw (laws.small (take 16 digest) size (All-take _ 16 digest a))
            (rw (take_more 16 (take 16 digest) zeros16 size) refl)

  -- The verifier finds the points of the prover again, and so the challenge.
  verify_at_opened :
      (x k c : Scalar) (h : Point) (y : Bytes)
      → laws.InSubgroup h
      → challenge_ed25519 curve y
          (curve.compress h)
          (curve.compress (curve.group.mul x h))
          (curve.compress (curve.group.mul k curve.group.base))
          (curve.compress (curve.group.mul k h))
        ≡ c
      → curve.from_bytes_mod_order (take 16 (curve.to_bytes c) ++ zeros16) ≡ c
      → verify_at curve y
          (curve.compress (curve.group.mul x h))
          (take 16 (curve.to_bytes c))
          (curve.to_bytes (curve.group.add k (curve.group.times c x)))
          (curve.group.mul x h)
          (curve.group.mul x curve.group.base)
          h
        ≡ some (proof_to_hash_ed25519 curve (curve.group.mul x h))
  unfolding verify_at
  verify_at_opened x k c h y sub e halved =
      rw
        (
          halved,
          laws.read_back (curve.group.add k (curve.group.times c x)),
          opens curve.group laws.laws k c x curve.group.base laws.laws.base-InSubgroup,
          opens curve.group laws.laws k c x h sub,
          e,
          same_bytes_refl (take 16 (curve.to_bytes c)),
        )
        refl

  -- The three parts of a proof are found again.
  parsed :
      (y alpha g c s : Bytes) (gamma pk h : Point)
      → length g ≡ 32
      → length c ≡ 16
      → length s ≡ 32
      → curve.decompress g ≡ some gamma
      → curve.decompress y ≡ some pk
      → encode_to_curve_ed25519 curve y alpha ≡ some h
      → ecvrf_verify_ed25519 curve y alpha (g ++ (c ++ s)) ≡ verify_at curve y g c s gamma pk h
  unfolding ecvrf_verify_ed25519
  parsed y alpha g c s gamma pk h lg lc ls dg dy dh =
      rw
        (
          whole,
          take_more 32 g (c ++ s) lg,
          drop_more 32 g (c ++ s) lg,
          take_more 16 c s lc,
          gone,
          dg,
          dy,
          dh,
        )
        refl
    where
      whole : (length (g ++ (c ++ s)) == 80) ≡ true
      whole = ground (arith, length-append g (c ++ s), length-append c s)

      gone : drop 48 (g ++ (c ++ s)) ≡ s
      gone =
          ap (drop 48) (sym (append_assoc g c s))
          ∙ drop_more 48 (g ++ c) s (omega (arith, length-append g c))

  -- The point for an input is a multiple of the cofactor.
  candidate-InSubgroup :
      (result : Bytes) (h : Point) → candidate curve result ≡ some h → laws.InSubgroup h
  candidate-InSubgroup result h e = bind_then (curve.decompress (take 32 result)) _ _ e (λ p d rest.
      elim (Bool-cases (curve.is_identity (curve.mul_by_cofactor p))) [
        | inl t ↦ absurd (cc (rw t at rest))
        | inr t ↦
            subst laws.InSubgroup (some_injective _ _ (rw t at rest))
              (laws.mul_by_cofactor-InSubgroup p)
      ])

  encode_loop-InSubgroup :
      (n ctr : ℕ) (y alpha : Bytes) (h : Point)
      → encode_loop curve n ctr y alpha ≡ some h
      → laws.InSubgroup h
  unfolding encode_loop
  encode_loop-InSubgroup zero ctr y alpha h e = absurd (cc e)
  encode_loop-InSubgroup (suc n) ctr y alpha h e =
      go (candidate curve (curve.sha512 (3 ∷ 1 ∷ (y ++ (alpha ++ (ctr ∷ 0 ∷ [])))))) refl e
        (λ r. encode_loop-InSubgroup n (ctr + 1) y alpha h r)
    where
      go :
          (o : Option Point)
          → candidate curve (curve.sha512 (3 ∷ 1 ∷ (y ++ (alpha ++ (ctr ∷ 0 ∷ []))))) ≡ o
          → first_some curve o (encode_loop curve n (ctr + 1) y alpha) ≡ some h
          → (encode_loop curve n (ctr + 1) y alpha ≡ some h → laws.InSubgroup h)
          → laws.InSubgroup h
      go none q r rec = rec r
      go (some p) q r rec =
          subst laws.InSubgroup (some_injective _ _ r) (candidate-InSubgroup _ p q)

  encoded :
      (y alpha : Bytes) (h : Point)
      → encode_to_curve_ed25519 curve y alpha ≡ some h
      → laws.InSubgroup h
  unfolding encode_to_curve_ed25519
  encoded y alpha h e = encode_loop-InSubgroup 256 0 y alpha h e

  accepted :
      (x : Scalar) (nonce_key alpha : Bytes) (h : Point)
      → encode_to_curve_ed25519 curve (curve.compress (curve.group.mul x curve.group.base)) alpha
        ≡ some h
      → ecvrf_verify_ed25519 curve
          (curve.compress (curve.group.mul x curve.group.base))
          alpha
          (prove_at curve x (curve.compress (curve.group.mul x curve.group.base)) nonce_key h).1
        ≡ some
            (prove_at curve x (curve.compress (curve.group.mul x curve.group.base)) nonce_key h).0
  unfolding prove_at
  accepted x nonce_key alpha h e =
      parsed _ alpha _ _ _ _ _ h (laws.length-compress _)
        (length-take 16 _ (omega (arith, laws.length-to_bytes _))) (laws.length-to_bytes _)
        (laws.decompress-compress _) (laws.decompress-compress _) e
      ∙ verify_at_opened x _ _ h _ (encoded _ alpha h e) refl (challenge_halved _ _ _ _ _)

  public_of :
      (seed y_bytes nonce_key : Bytes) (x : Scalar)
      → expand_vrf_secret_ed25519 curve seed ≡ some (x, y_bytes, nonce_key)
      → curve.compress (curve.group.mul x curve.group.base) ≡ y_bytes
  unfolding expand_vrf_secret_ed25519
  public_of seed y_bytes nonce_key x key = require_then (length seed == 32) _ _ key (λ l end.
      let same = some_injective _ _ end in
      ap (λ (t : Scalar × Bytes × Bytes). curve.compress (curve.group.mul t.0 curve.group.base))
        (sym same)
      ∙ ap (λ (t : Scalar × Bytes × Bytes). t.1) same)

  -- With a key that was expanded from a seed, whatever proof the prover makes for an input, the verifier
  -- accepts under the key's public point, and finds the prover's output.
  pub ecvrf_verify_ed25519-prove :
      (seed alpha nonce_key y_bytes output proof : Bytes) (x : Scalar)
      → expand_vrf_secret_ed25519 curve seed ≡ some (x, y_bytes, nonce_key)
      → ecvrf_prove_ed25519 curve x y_bytes nonce_key alpha ≡ some (output, proof)
      → ecvrf_verify_ed25519 curve y_bytes alpha proof ≡ some output
  unfolding ecvrf_prove_ed25519
  ecvrf_verify_ed25519-prove seed alpha nonce_key y_bytes output proof x key h =
      subst Verified (public_of seed y_bytes nonce_key x key) at_public h
    where
      Verified : Bytes → Type 0
      Verified key =
          ecvrf_prove_ed25519 curve x key nonce_key alpha ≡ some (output, proof)
          → ecvrf_verify_ed25519 curve key alpha proof ≡ some output

      y : Bytes
      y = curve.compress (curve.group.mul x curve.group.base)

      at_public : Verified y
      at_public made = bind_then (encode_to_curve_ed25519 curve y alpha) _ _ made (λ h_point e end.
          let same = some_injective _ _ end in
          subst (λ (t : Bytes × Bytes). ecvrf_verify_ed25519 curve y alpha t.1 ≡ some t.0) same
            (accepted x nonce_key alpha h_point e))
