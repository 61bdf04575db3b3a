-- ===== src/Tls/BigEndian.antt =====
-- Integers and their bytes, highest first.
use ru_kt.Common.{
  ℕ, zero, suc, ◌+◌, ◌*◌, ◌/◌, ◌%◌, ◌^◌, ◌<◌, ◌≡◌, refl, arith, [], ◌∷◌, ◌++◌, length,
  length-append, All,
}
use native.Mathlib.Nat.{pow-succ'}
use ru_kt.Tls.{Bytes, to_be_bytes, from_be_bytes}

pub length-to_be_bytes : (w v : ℕ) → length (to_be_bytes w v) ≡ w
unfolding to_be_bytes
length-to_be_bytes zero v = refl
length-to_be_bytes (suc w) v =
    omega (
      arith,
      length-append (to_be_bytes w (v / 256)) (v % 256 ∷ []),
      length-to_be_bytes w (v / 256),
    )

from_be_bytes-append :
    (acc : ℕ) (xs : Bytes) (d : ℕ)
    → from_be_bytes acc (xs ++ (d ∷ [])) ≡ from_be_bytes acc xs * 256 + d
unfolding from_be_bytes
from_be_bytes-append acc [] d = refl
from_be_bytes-append acc (x ∷ xs) d = from_be_bytes-append (acc * 256 + x) xs d

-- An integer that fits w bytes is read back from them.
pub from-to_be_bytes : (w v : ℕ) → v < 256 ^ w → from_be_bytes 0 (to_be_bytes w v) ≡ v
unfolding to_be_bytes
from-to_be_bytes zero v h = unfold from_be_bytes in omega arith
from-to_be_bytes (suc w) v h = omega (
  arith,
  from_be_bytes-append 0 (to_be_bytes w (v / 256)) (v % 256),
  from-to_be_bytes w (v / 256) (omega (arith, pow-succ' 256 w)),
)

-- The bytes of an integer are bytes.
All-append : (P : ℕ → Type 0) (xs : Bytes) (d : ℕ) → All P xs → P d → All P (xs ++ (d ∷ []))
All-append P [] d a p = (p, tt)
All-append P (x ∷ xs) d a p = (a.0, All-append P xs d a.1 p)

pub to_be_bytes-All : (w v : ℕ) → All (λ b. b < 256) (to_be_bytes w v)
unfolding to_be_bytes
to_be_bytes-All zero v = tt
to_be_bytes-All (suc w) v = All-append _ _ _ (to_be_bytes-All w (v / 256)) (omega arith)
