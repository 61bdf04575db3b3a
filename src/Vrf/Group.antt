-- ===== src/Vrf/Group.antt =====
-- The groups of src/crypto/vrf.rs. The curve and hash libraries are not part of the repository: their
-- operations are fields of these records, and what the code relies on are the laws below them.
use ru_kt.Common.{◌<◌, ◌≡◌, refl, Bool, false, Option, some, length, ◌++◌, All, [], ◌∷◌}
use ru_kt.Tls.{Bytes}

pub record Group (Point Scalar : Type 0) : Type 0 where
  pub base : Point
  pub mul : Scalar → Point → Point
  pub add_points : Point → Point → Point
  pub sub : Point → Point → Point
  pub add : Scalar → Scalar → Scalar
  pub times : Scalar → Scalar → Scalar

-- Scalars, which are modulo the order of the base point, act on the points of its subgroup, and a point
-- that was added can be subtracted again.
pub record GroupLaws {Point Scalar : Type 0} (g : Group Point Scalar) (InSubgroup : Point → Type 0)
    : Type 0 where
  pub base-InSubgroup : InSubgroup g.base
  pub mul-add :
      (a b : Scalar) (p : Point)
      → InSubgroup p
      → g.mul (g.add a b) p ≡ g.add_points (g.mul a p) (g.mul b p)
  pub mul-times :
      (a b : Scalar) (p : Point) → InSubgroup p → g.mul (g.times a b) p ≡ g.mul a (g.mul b p)
  pub sub-add_points : (p q : Point) → g.sub (g.add_points p q) q ≡ p

-- curve25519_dalek and SHA-512.
pub record Edwards (Point Scalar : Type 0) : Type 0 where
  pub group : Group Point Scalar
  pub compress : Point → Bytes
  pub decompress : Bytes → Option Point
  pub to_bytes : Scalar → Bytes
  pub from_bytes_mod_order : Bytes → Scalar
  pub from_bytes_mod_order_wide : Bytes → Scalar
  pub mul_by_cofactor : Point → Point
  pub is_identity : Point → Bool
  pub sha512 : Bytes → Bytes

-- p256, rfc6979 and SHA-256.
pub record Nist (Point Scalar : Type 0) : Type 0 where
  pub group : Group Point Scalar
  pub to_encoded_point : Point → Bytes
  pub from_encoded_point : Bytes → Option Point
  pub to_bytes : Scalar → Bytes
  pub from_repr : Bytes → Option Scalar
  pub is_identity : Point → Bool
  pub generate_k : Bytes → Bytes → Bytes → Bytes
  pub sha256 : Bytes → Bytes

abbrev pub zeros16 : Bytes
zeros16 = 0 ∷ 0 ∷ 0 ∷ 0 ∷ 0 ∷ 0 ∷ 0 ∷ 0 ∷ 0 ∷ 0 ∷ 0 ∷ 0 ∷ 0 ∷ 0 ∷ 0 ∷ 0 ∷ []

abbrev pub AreBytes : Bytes → Type 0
AreBytes bytes = All (λ b. b < 256) bytes

-- A multiple of the cofactor is in the base point's subgroup. Encodings have their lengths and are read
-- back, also those of small scalars; a digest has 64 bytes.
pub record EdwardsLaws {Point Scalar : Type 0} (e : Edwards Point Scalar) : Type 1 where
  pub InSubgroup : Point → Type 0
  pub laws : GroupLaws e.group InSubgroup
  pub mul_by_cofactor-InSubgroup : (p : Point) → InSubgroup (e.mul_by_cofactor p)
  pub decompress-compress : (p : Point) → e.decompress (e.compress p) ≡ some p
  pub length-compress : (p : Point) → length (e.compress p) ≡ 32
  pub read_back : (s : Scalar) → e.from_bytes_mod_order (e.to_bytes s) ≡ s
  pub length-to_bytes : (s : Scalar) → length (e.to_bytes s) ≡ 32
  pub small :
      (b : Bytes)
      → length b ≡ 16
      → AreBytes b
      → e.to_bytes (e.from_bytes_mod_order (b ++ zeros16)) ≡ b ++ zeros16
  pub length-sha512 : (x : Bytes) → length (e.sha512 x) ≡ 64
  pub bytes-sha512 : (x : Bytes) → AreBytes (e.sha512 x)

-- The same for P-256, whose order is prime, and whose scalars are written highest byte first. The
-- identity has an encoding of its own, shorter than that of any other point; a digest has 32 bytes.
pub record NistLaws {Point Scalar : Type 0} (n : Nist Point Scalar) : Type 0 where
  pub laws : GroupLaws n.group (λ p. Unit)
  pub mul-ne-identity :
      (s : Scalar) (p : Point)
      → n.is_identity (n.group.mul s n.group.base) ≡ false
      → n.is_identity p ≡ false
      → n.is_identity (n.group.mul s p) ≡ false
  pub from-to_encoded_point : (p : Point) → n.from_encoded_point (n.to_encoded_point p) ≡ some p
  pub length-to_encoded_point :
      (p : Point) → n.is_identity p ≡ false → length (n.to_encoded_point p) ≡ 33
  pub read_back : (s : Scalar) → n.from_repr (n.to_bytes s) ≡ some s
  pub length-to_bytes : (s : Scalar) → length (n.to_bytes s) ≡ 32
  pub small :
      (b : Bytes)
      → length b ≡ 16
      → AreBytes b
      → (s : Scalar) × (n.from_repr (zeros16 ++ b) ≡ some s) × (n.to_bytes s ≡ zeros16 ++ b)
  pub length-sha256 : (x : Bytes) → length (n.sha256 x) ≡ 32
  pub bytes-sha256 : (x : Bytes) → AreBytes (n.sha256 x)

module _ {Point Scalar : Type 0} (g : Group Point Scalar) {InSubgroup : Point → Type 0}
    (laws : GroupLaws g InSubgroup) where
  -- The response opens the commitment to the nonce: (k + c x) P - c (x P) is k P.
  pub opens :
      (k c x : Scalar) (p : Point)
      → InSubgroup p
      → g.sub (g.mul (g.add k (g.times c x)) p) (g.mul c (g.mul x p)) ≡ g.mul k p
  opens k c x p h =
      rw (laws.mul-add k (g.times c x) p h, laws.mul-times c x p h, laws.sub-add_points) refl
