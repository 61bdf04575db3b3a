-- ===== src/Vrf/Suites.antt =====
-- src/crypto/vrf.rs: the choice of the suite, and `vrf_prove` of src/crypto/mod.rs.
use ru_kt.Common.{
  ℕ, ◌≡◌, false, subst, inl, inr, Option, none, some, ◌==◌, if◌then◌else◌, ◌>>=◌, Bool-cases,
  some_injective, bind_then,
}
use mathlib.Core.Option
use ru_kt.Tls.{Bytes}
use ru_kt.Crypto.{construct_vrf_input}
use ru_kt.Vrf.Group.{Edwards, EdwardsLaws, Nist, NistLaws}
use ru_kt.Vrf.Edwards25519.{expand_vrf_secret_ed25519, ecvrf_prove_ed25519, ecvrf_verify_ed25519}
use ru_kt.Vrf.P256.{expand_vrf_secret_p256, ecvrf_prove_p256, ecvrf_verify_p256}
use ru_kt.Vrf.EdwardsProof.{ecvrf_verify_ed25519-prove}
use ru_kt.Vrf.P256Proof.{ecvrf_verify_p256-prove}

pub data VrfContext (EdwardsScalar NistScalar : Type 0) : Type 0 where
  ed25519 : (x : EdwardsScalar) (y_bytes nonce_key : Bytes) → VrfContext EdwardsScalar NistScalar
  p256 : (x : NistScalar) (y_bytes : Bytes) → VrfContext EdwardsScalar NistScalar

module _ {EdwardsPoint EdwardsScalar NistPoint NistScalar : Type 0}
    (edwards : Edwards EdwardsPoint EdwardsScalar) (nist : Nist NistPoint NistScalar) where
  unfoldable pub expand_vrf_secret : ℕ → Bytes → Option (VrfContext EdwardsScalar NistScalar)
  expand_vrf_secret suite_id secret =
      if suite_id == 2
      then (expand_vrf_secret_ed25519 edwards secret
          >>= (λ (x, y_bytes, nonce_key). some (VrfContext.ed25519 x y_bytes nonce_key)))
      else if suite_id == 1
      then (expand_vrf_secret_p256 nist secret
          >>= (λ (x, y_bytes). some (VrfContext.p256 x y_bytes)))
      else none

  abbrev pub y_bytes_of : VrfContext EdwardsScalar NistScalar → Bytes
  y_bytes_of (VrfContext.ed25519 x y_bytes nonce_key) = y_bytes
  y_bytes_of (VrfContext.p256 x y_bytes) = y_bytes

  unfoldable pub get_public_key : ℕ → Bytes → Option Bytes
  get_public_key suite_id secret = Option.map y_bytes_of (expand_vrf_secret suite_id secret)

  unfoldable pub ecvrf_prove : VrfContext EdwardsScalar NistScalar → Bytes → Option (Bytes × Bytes)
  ecvrf_prove (VrfContext.ed25519 x y_bytes nonce_key) alpha =
      ecvrf_prove_ed25519 edwards x y_bytes nonce_key alpha
  ecvrf_prove (VrfContext.p256 x y_bytes) alpha = ecvrf_prove_p256 nist x y_bytes alpha

  unfoldable pub ecvrf_verify : ℕ → Bytes → Bytes → Bytes → Option Bytes
  ecvrf_verify suite_id pub_key alpha proof =
      if suite_id == 2
      then ecvrf_verify_ed25519 edwards pub_key alpha proof
      else if suite_id == 1
      then ecvrf_verify_p256 nist pub_key alpha proof
      else none

  unfoldable pub vrf_prove :
      VrfContext EdwardsScalar NistScalar → Bytes → ℕ → Option (Bytes × Bytes)
  vrf_prove ctx label version = do input ← construct_vrf_input label version; ecvrf_prove ctx input

  -- A secret of P-256 is not a multiple of the order.
  abbrev pub IsNonzero : VrfContext EdwardsScalar NistScalar → Type 0
  IsNonzero (VrfContext.ed25519 x y_bytes nonce_key) = Unit
  IsNonzero (VrfContext.p256 x y_bytes) =
      nist.is_identity (nist.group.mul x nist.group.base) ≡ false

  module _ (edwards_laws : EdwardsLaws edwards) (nist_laws : NistLaws nist) where
    round_trip :
        (suite : ℕ) (secret alpha output proof : Bytes) (ctx : VrfContext EdwardsScalar NistScalar)
        → expand_vrf_secret suite secret ≡ some ctx
        → IsNonzero ctx
        → ecvrf_prove ctx alpha ≡ some (output, proof)
        → ecvrf_verify suite (y_bytes_of ctx) alpha proof ≡ some output
    unfolding expand_vrf_secret ecvrf_prove ecvrf_verify
    round_trip suite secret alpha output proof ctx key nonzero made =
        elim (Bool-cases (suite == 2)) [
          | inl e ↦
              bind_then (expand_vrf_secret_ed25519 edwards secret) _ _ (rw e at key)
                (λ (x, y, nonce_key) k end. rw e (
                  subst
                    (λ c.
                      ecvrf_prove c alpha ≡ some (output, proof)
                      → ecvrf_verify_ed25519 edwards (y_bytes_of c) alpha proof ≡ some output)
                    (some_injective _ _ end)
                    (ecvrf_verify_ed25519-prove edwards edwards_laws secret alpha nonce_key y output
                      proof x k)
                    made))
          | inr e ↦ elim (Bool-cases (suite == 1)) [
            | inl f ↦
                bind_then (expand_vrf_secret_p256 nist secret) _ _ (rw (e, f) at key)
                  (λ (x, y) k end.
                    rw (e, f)
                      (subst
                        (λ c.
                          IsNonzero c
                          → ecvrf_prove c alpha ≡ some (output, proof)
                          → ecvrf_verify_p256 nist (y_bytes_of c) alpha proof ≡ some output)
                        (some_injective _ _ end)
                        (ecvrf_verify_p256-prove nist nist_laws secret alpha y output proof x k)
                        nonzero made))
            | inr f ↦ absurd (cc (rw (e, f) at key))
          ]
        ]

    -- With the laws of the curve libraries, in both suites: a proof that the prover makes for a
    -- label's version, with the key of a secret, is accepted by the verifier under the public key
    -- of that secret, with the prover's output. In the P-256 suite the public key must not be the
    -- identity.
    pub ecvrf_verify-vrf_prove :
        (suite : ℕ) (secret pk label input output proof : Bytes) (version : ℕ)
        (ctx : VrfContext EdwardsScalar NistScalar)
        → expand_vrf_secret suite secret ≡ some ctx
        → IsNonzero ctx
        → get_public_key suite secret ≡ some pk
        → construct_vrf_input label version ≡ some input
        → vrf_prove ctx label version ≡ some (output, proof)
        → ecvrf_verify suite pk input proof ≡ some output
    unfolding get_public_key vrf_prove
    ecvrf_verify-vrf_prove suite secret pk label input output proof version ctx key nonzero public i
          made =
        subst (λ y. ecvrf_verify suite y input proof ≡ some output)
          (some_injective _ _ (rw key at public))
          (round_trip suite secret input output proof ctx key nonzero (rw i at made))
