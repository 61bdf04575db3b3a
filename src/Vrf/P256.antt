-- ===== src/Vrf/P256.antt =====
-- src/crypto/vrf.rs, the P-256 suite. A panic is `none`.
use ru_kt.Common.{
  ℕ, zero, suc, ◌+◌, [], ◌∷◌, ◌++◌, Option, none, some, ◌==◌, if◌then◌else◌, length, take, drop,
  same_bytes, ◌>>=◌, ◌>>◌, require,
}
use ru_kt.Tls.{Bytes}
use ru_kt.Vrf.Group.{Nist, zeros16}

abbrev pub p256_order : Bytes
p256_order =
    255 ∷ 255 ∷ 255 ∷ 255 ∷ 0 ∷ 0 ∷ 0 ∷ 0 ∷ 255 ∷ 255 ∷ 255 ∷ 255 ∷ 255 ∷ 255 ∷ 255 ∷ 255 ∷ 188
    ∷ 230 ∷ 250 ∷ 173 ∷ 167 ∷ 23 ∷ 158 ∷ 132 ∷ 243 ∷ 185 ∷ 202 ∷ 194 ∷ 252 ∷ 99 ∷ 37 ∷ 81 ∷ []

module _ {Point Scalar : Type 0} (curve : Nist Point Scalar) where
  unfoldable pub expand_vrf_secret_p256 : Bytes → Option (Scalar × Bytes)
  expand_vrf_secret_p256 secret = do
    require (length secret == 32)
    x ← curve.from_repr secret
    some (x, curve.to_encoded_point (curve.group.mul x curve.group.base))

  -- The point of a digest, if it is one and not the identity.
  abbrev pub candidate : Bytes → Option Point
  candidate result = do
    p ← curve.from_encoded_point (2 ∷ result)
    if curve.is_identity p then none else some p

  abbrev pub first_some : Option Point → Option Point → Option Point
  first_some none o = o
  first_some (some p) o = some p

  -- The counter is a byte: it overflows, which panics, after 256 rounds.
  unfoldable pub encode_loop : ℕ → ℕ → Bytes → Bytes → Option Point
  encode_loop zero ctr pub_key alpha = none
  encode_loop (suc n) ctr pub_key alpha =
      first_some (candidate (curve.sha256 (1 ∷ 1 ∷ (pub_key ++ (alpha ++ (ctr ∷ 0 ∷ []))))))
        (encode_loop n (ctr + 1) pub_key alpha)

  unfoldable pub encode_to_curve_p256 : Bytes → Bytes → Option Point
  encode_to_curve_p256 pub_key alpha = encode_loop 256 0 pub_key alpha

  unfoldable pub challenge_p256 : Bytes → Bytes → Bytes → Bytes → Bytes → Option Scalar
  challenge_p256 p1 p2 p3 p4 p5 =
      curve.from_repr (
        zeros16
        ++ take 16 (curve.sha256 (1 ∷ 2 ∷ (p1 ++ (p2 ++ (p3 ++ (p4 ++ (p5 ++ (0 ∷ [])))))))))

  unfoldable pub proof_to_hash_p256 : Point → Bytes
  proof_to_hash_p256 gamma = curve.sha256 (1 ∷ 3 ∷ (curve.to_encoded_point gamma ++ (0 ∷ [])))

  -- The nonce of RFC 6979, with the point's bytes as the message.
  unfoldable pub nonce : Scalar → Bytes → Option Scalar
  nonce x h_bytes =
      curve.from_repr (curve.generate_k (curve.to_bytes x) p256_order (curve.sha256 h_bytes))

  unfoldable pub prove_at : Scalar → Bytes → Point → Scalar → Option (Bytes × Bytes)
  prove_at x y_bytes h_point k = do
    let gamma = curve.group.mul x h_point
    c_scalar ←
        challenge_p256 y_bytes (curve.to_encoded_point h_point) (curve.to_encoded_point gamma)
          (curve.to_encoded_point (curve.group.mul k curve.group.base))
          (curve.to_encoded_point (curve.group.mul k h_point))
    let s_scalar = curve.group.add k (curve.group.times c_scalar x)
    some (
      proof_to_hash_p256 gamma,
      curve.to_encoded_point gamma
          ++ (take 16 (drop 16 (curve.to_bytes c_scalar)) ++ curve.to_bytes s_scalar),
    )

  unfoldable pub ecvrf_prove_p256 : Scalar → Bytes → Bytes → Option (Bytes × Bytes)
  ecvrf_prove_p256 x y_bytes alpha = do
    h_point ← encode_to_curve_p256 y_bytes alpha
    k ← nonce x (curve.to_encoded_point h_point)
    prove_at x y_bytes h_point k

  -- After the scalars and points are read: the challenge is computed again.
  unfoldable pub verify_at :
      Bytes → Bytes → Bytes → Scalar → Scalar → Point → Point → Point → Option Bytes
  verify_at pub_key gamma_bytes c_bytes c s gamma pk_point h_point = do
    let u_point = curve.group.sub (curve.group.mul s curve.group.base) (curve.group.mul c pk_point)
    let v_point = curve.group.sub (curve.group.mul s h_point) (curve.group.mul c gamma)
    c_prime ←
        challenge_p256 pub_key (curve.to_encoded_point h_point) gamma_bytes
          (curve.to_encoded_point u_point) (curve.to_encoded_point v_point)
    require (same_bytes c_bytes (take 16 (drop 16 (curve.to_bytes c_prime))))
    some (proof_to_hash_p256 gamma)

  unfoldable pub ecvrf_verify_p256 : Bytes → Bytes → Bytes → Option Bytes
  ecvrf_verify_p256 pub_key alpha proof = do
    require (length proof == 81)
    gamma ← curve.from_encoded_point (take 33 proof)
    c ← curve.from_repr (zeros16 ++ take 16 (drop 33 proof))
    s ← curve.from_repr (drop 49 proof)
    pk_point ← curve.from_encoded_point pub_key
    h_point ← encode_to_curve_p256 pub_key alpha
    verify_at pub_key (take 33 proof) (take 16 (drop 33 proof)) c s gamma pk_point h_point
