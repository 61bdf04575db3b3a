-- ===== src/Vrf/Edwards25519.antt =====
-- src/crypto/vrf.rs, the Ed25519 suite. A panic is `none`.
use ru_kt.Common.{
  ℕ, zero, suc, ◌+◌, ◌*◌, ◌/◌, ◌%◌, [], ◌∷◌, ◌++◌, Option, none, some, ◌==◌, if◌then◌else◌, length,
  take, drop, same_bytes, ◌>>=◌, ◌>>◌, require,
}
use ru_kt.Tls.{Bytes}
use ru_kt.Vrf.Group.{Edwards, zeros16}

abbrev pub modify : ℕ → (ℕ → ℕ) → Bytes → Bytes
modify i f [] = []
modify zero f (b ∷ bytes) = f b ∷ bytes
modify (suc i) f (b ∷ bytes) = b ∷ modify i f bytes

-- `& 248`, and `& 127` with `| 64`.
abbrev pub clear_low : ℕ → ℕ
clear_low b = b / 8 * 8

abbrev pub set_high : ℕ → ℕ
set_high b = if b % 128 / 64 == 1 then b % 128 else b % 128 + 64

unfoldable pub clamp : Bytes → Bytes
clamp scalar_bytes = modify 31 set_high (modify 0 clear_low scalar_bytes)

module _ {Point Scalar : Type 0} (curve : Edwards Point Scalar) where
  unfoldable pub expand_vrf_secret_ed25519 : Bytes → Option (Scalar × Bytes × Bytes)
  expand_vrf_secret_ed25519 seed = do
    require (length seed == 32)
    let hashed_sk = curve.sha512 seed
    let x = curve.from_bytes_mod_order_wide (clamp (take 32 hashed_sk) ++ (zeros16 ++ zeros16))
    some (x, curve.compress (curve.group.mul x curve.group.base), drop 32 hashed_sk)

  -- The point of a digest, if it is one and not the identity.
  abbrev pub candidate : Bytes → Option Point
  candidate result = do
    p ← curve.decompress (take 32 result)
    let h_point = curve.mul_by_cofactor p
    if curve.is_identity h_point then none else some h_point

  abbrev pub first_some : Option Point → Option Point → Option Point
  first_some none o = o
  first_some (some p) o = some p

  -- The counter is a byte: it overflows, which panics, after 256 rounds.
  unfoldable pub encode_loop : ℕ → ℕ → Bytes → Bytes → Option Point
  encode_loop zero ctr pub_key alpha = none
  encode_loop (suc n) ctr pub_key alpha =
      first_some (candidate (curve.sha512 (3 ∷ 1 ∷ (pub_key ++ (alpha ++ (ctr ∷ 0 ∷ []))))))
        (encode_loop n (ctr + 1) pub_key alpha)

  unfoldable pub encode_to_curve_ed25519 : Bytes → Bytes → Option Point
  encode_to_curve_ed25519 pub_key alpha = encode_loop 256 0 pub_key alpha

  unfoldable pub challenge_ed25519 : Bytes → Bytes → Bytes → Bytes → Bytes → Scalar
  challenge_ed25519 p1 p2 p3 p4 p5 =
      curve.from_bytes_mod_order (
        take 16 (curve.sha512 (3 ∷ 2 ∷ (p1 ++ (p2 ++ (p3 ++ (p4 ++ (p5 ++ (0 ∷ []))))))))
        ++ zeros16)

  unfoldable pub proof_to_hash_ed25519 : Point → Bytes
  proof_to_hash_ed25519 gamma =
      take 32 (curve.sha512 (3 ∷ 3 ∷ (curve.compress (curve.mul_by_cofactor gamma) ++ (0 ∷ []))))

  -- After the point is found.
  unfoldable pub prove_at : Scalar → Bytes → Bytes → Point → Bytes × Bytes
  prove_at x y_bytes nonce_key h_point =
      let h_bytes = curve.compress h_point in
      let gamma = curve.group.mul x h_point in
      let nonce_scalar = curve.from_bytes_mod_order_wide (curve.sha512 (nonce_key ++ h_bytes)) in
      let u_bytes = curve.compress (curve.group.mul nonce_scalar curve.group.base) in
      let v_bytes = curve.compress (curve.group.mul nonce_scalar h_point) in
      let c_scalar = challenge_ed25519 y_bytes h_bytes (curve.compress gamma) u_bytes v_bytes in
      let s_scalar = curve.group.add nonce_scalar (curve.group.times c_scalar x) in
      (
        proof_to_hash_ed25519 gamma,
        curve.compress gamma ++ (take 16 (curve.to_bytes c_scalar) ++ curve.to_bytes s_scalar),
      )

  unfoldable pub ecvrf_prove_ed25519 : Scalar → Bytes → Bytes → Bytes → Option (Bytes × Bytes)
  ecvrf_prove_ed25519 x y_bytes nonce_key alpha = do
    h_point ← encode_to_curve_ed25519 y_bytes alpha
    some (prove_at x y_bytes nonce_key h_point)

  -- After the points are read: the challenge is computed again.
  unfoldable pub verify_at : Bytes → Bytes → Bytes → Bytes → Point → Point → Point → Option Bytes
  verify_at pub_key gamma_bytes c_bytes s_bytes gamma pk_point h_point = do
    let c = curve.from_bytes_mod_order (c_bytes ++ zeros16)
    let s = curve.from_bytes_mod_order s_bytes
    let u_point = curve.group.sub (curve.group.mul s curve.group.base) (curve.group.mul c pk_point)
    let v_point = curve.group.sub (curve.group.mul s h_point) (curve.group.mul c gamma)
    let c_prime =
        challenge_ed25519 pub_key (curve.compress h_point) gamma_bytes (curve.compress u_point)
          (curve.compress v_point)
    require (same_bytes c_bytes (take 16 (curve.to_bytes c_prime)))
    some (proof_to_hash_ed25519 gamma)

  unfoldable pub ecvrf_verify_ed25519 : Bytes → Bytes → Bytes → Option Bytes
  ecvrf_verify_ed25519 pub_key alpha proof = do
    require (length proof == 80)
    gamma ← curve.decompress (take 32 proof)
    pk_point ← curve.decompress pub_key
    h_point ← encode_to_curve_ed25519 pub_key alpha
    verify_at pub_key (take 32 proof) (take 16 (drop 32 proof)) (drop 48 proof) gamma pk_point
        h_point
