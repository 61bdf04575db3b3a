-- ===== src/Vrf/Runs.antt =====
-- Groups of numbers, in which all the laws hold, and the theorem at a concrete key. Points and scalars
-- are numbers, written as digits lowest first of which the last may be large; a digest counts its text.
use ru_kt.Common.{
  ℕ, zero, suc, ◌+◌, ◌-◌, ◌*◌, ◌/◌, ◌%◌, ◌≡◌, refl, ap, arith, [], ◌∷◌, ◌++◌, Option, none, some,
  ◌==◌, false, length, length-append,
}
use native.Mathlib.Nat.{add-mul, mul_assoc}
use ru_kt.Tls.{Bytes, encode_opaque_u8, new_opaque_u8, encode_u32, to_be_bytes}
use ru_kt.Crypto.{construct_vrf_input}
use ru_kt.Vrf.Group.{Group, GroupLaws, Edwards, EdwardsLaws, Nist, NistLaws, zeros16, AreBytes}
use ru_kt.Vrf.Edwards25519.{
  expand_vrf_secret_ed25519, clamp, ecvrf_prove_ed25519, prove_at, encode_to_curve_ed25519,
  encode_loop, challenge_ed25519, proof_to_hash_ed25519,
}
use ru_kt.Vrf.Suites.{
  VrfContext, expand_vrf_secret, get_public_key, ecvrf_prove, ecvrf_verify, vrf_prove, y_bytes_of,
  IsNonzero, ecvrf_verify-vrf_prove,
}

abbrev digits : ℕ → ℕ → Bytes
digits zero s = s ∷ []
digits (suc n) s = s % 256 ∷ digits n (s / 256)

abbrev value : Bytes → ℕ
value [] = 0
value (d ∷ ds) = d + 256 * value ds

value-digits : (n s : ℕ) → value (digits n s) ≡ s
value-digits zero s = omega arith
value-digits (suc n) s = omega (arith, value-digits n (s / 256))

length-digits : (n s : ℕ) → length (digits n s) ≡ suc n
length-digits zero s = refl
length-digits (suc n) s = ap suc (length-digits n (s / 256))

digits-value : (n : ℕ) (bs : Bytes) → length bs ≡ suc n → AreBytes bs → digits n (value bs) ≡ bs
digits-value n [] l a = absurd (omega arith)
digits-value zero (d ∷ []) l a = ap (λ (v : ℕ). v ∷ []) (omega arith)
digits-value zero (d ∷ e ∷ ds) l a = absurd (omega arith)
digits-value (suc n) (d ∷ ds) l (b, a) =
    let low : (d + 256 * value ds) % 256 ≡ d = omega arith in
    let high : (d + 256 * value ds) / 256 ≡ value ds = omega arith in
    rw (low, high, digits-value n ds (omega arith) a) refl

AreBytes-append : (xs ys : Bytes) → AreBytes xs → AreBytes ys → AreBytes (xs ++ ys)
AreBytes-append [] ys a b = b
AreBytes-append (x ∷ xs) ys (p, a) b = (p, AreBytes-append xs ys a b)

abbrev zeros : ℕ → Bytes
zeros zero = []
zeros (suc n) = 0 ∷ zeros n

length-zeros : (n : ℕ) → length (zeros n) ≡ n
length-zeros zero = refl
length-zeros (suc n) = ap suc (length-zeros n)

AreBytes-zeros : (n : ℕ) → AreBytes (zeros n)
AreBytes-zeros zero = _
AreBytes-zeros (suc n) = (omega arith, AreBytes-zeros n)

abbrev numbers : Group ℕ ℕ
numbers = record {
  base = 3;
  mul = λ s p. s * p;
  add_points = λ p q. p + q;
  sub = λ p q. p - q;
  add = λ a b. a + b;
  times = λ a b. a * b;
}

numbers-GroupLaws : GroupLaws numbers (λ p. Unit)
numbers-GroupLaws = record {
  base-InSubgroup = _;
  mul-add = λ a b p h. add-mul a b p;
  mul-times = λ a b p h. mul_assoc a b p;
  sub-add_points = λ p q. omega arith;
}

abbrev count : ℕ → Bytes → Bytes
count n x = length x % 256 ∷ zeros n

abbrev edwards : Edwards ℕ ℕ
edwards = record {
  group = numbers;
  compress = digits 31;
  decompress = λ b. some (value b);
  to_bytes = digits 31;
  from_bytes_mod_order = value;
  from_bytes_mod_order_wide = value;
  mul_by_cofactor = λ p. 8 * p;
  is_identity = λ p. p == 0;
  sha512 = count 63;
}

zeros16-AreBytes : AreBytes zeros16
zeros16-AreBytes = AreBytes-zeros 16

edwards-EdwardsLaws : EdwardsLaws edwards
edwards-EdwardsLaws = record {
  InSubgroup = λ p. Unit;
  mul_by_cofactor-InSubgroup = λ p. _;
  laws = numbers-GroupLaws;
  decompress-compress = λ p. ap some (value-digits 31 p);
  length-compress = λ p. length-digits 31 p;
  read_back = λ s. value-digits 31 s;
  length-to_bytes = λ s. length-digits 31 s;
  small = λ b l a.
      digits-value 31 (b ++ zeros16) (omega (arith, length-append b zeros16))
        (AreBytes-append b zeros16 a zeros16-AreBytes);
  length-sha512 = λ x. ap suc (length-zeros 63);
  bytes-sha512 = λ x. (omega arith, AreBytes-zeros 63);
}

abbrev nist : Nist ℕ ℕ
nist = record {
  group = numbers;
  to_encoded_point = digits 32;
  from_encoded_point = λ b. some (value b);
  to_bytes = digits 31;
  from_repr = λ b. some (value b);
  is_identity = λ p. p == 0;
  generate_k = λ x order h. x;
  sha256 = count 31;
}

multiple_ne_zero : (s p : ℕ) → (s * 3 == 0) ≡ false → (p == 0) ≡ false → (s * p == 0) ≡ false
multiple_ne_zero zero p h k = absurd (cc h)
multiple_ne_zero (suc s) zero h k = absurd (cc k)
multiple_ne_zero (suc s) (suc p) h k = ground arith

nist-NistLaws : NistLaws nist
nist-NistLaws = record {
  laws = numbers-GroupLaws;
  from-to_encoded_point = λ p. ap some (value-digits 32 p);
  mul-ne-identity = multiple_ne_zero;
  length-to_encoded_point = λ p h. length-digits 32 p;
  read_back = λ s. ap some (value-digits 31 s);
  length-to_bytes = λ s. length-digits 31 s;
  small = λ b l a. (
    value (zeros16 ++ b),
    refl,
    digits-value 31 (zeros16 ++ b) (omega (arith, length-append zeros16 b))
        (AreBytes-append zeros16 b zeros16-AreBytes a),
  );
  length-sha256 = λ x. ap suc (length-zeros 31);
  bytes-sha256 = λ x. (omega arith, AreBytes-zeros 31);
}

abbrev secret : Bytes
secret = zeros 32

abbrev context_of : Option (VrfContext ℕ ℕ) → VrfContext ℕ ℕ
context_of none = VrfContext.p256 0 []
context_of (some ctx) = ctx

abbrev pair_of : Option (Bytes × Bytes) → Bytes × Bytes
pair_of none = ([], [])
pair_of (some p) = p

abbrev ctx : VrfContext ℕ ℕ
ctx = context_of (expand_vrf_secret edwards nist 2 secret)

abbrev made : Bytes × Bytes
made = pair_of (vrf_prove edwards nist ctx (97 ∷ []) 1)

abbrev input : Bytes
input = 1 ∷ 97 ∷ 0 ∷ 0 ∷ 0 ∷ 1 ∷ []

expanded : expand_vrf_secret edwards nist 2 secret ≡ some ctx
unfolding expand_vrf_secret expand_vrf_secret_ed25519 clamp
expanded = refl

ctx-IsNonzero : IsNonzero edwards nist ctx
unfolding expand_vrf_secret expand_vrf_secret_ed25519 clamp
ctx-IsNonzero = _

published : get_public_key edwards nist 2 secret ≡ some (y_bytes_of edwards nist ctx)
unfolding get_public_key expand_vrf_secret expand_vrf_secret_ed25519 clamp
published = refl

has_input : construct_vrf_input (97 ∷ []) 1 ≡ some input
unfolding construct_vrf_input encode_opaque_u8 new_opaque_u8 encode_u32 to_be_bytes
has_input = refl

proved : vrf_prove edwards nist ctx (97 ∷ []) 1 ≡ some made
unfolding vrf_prove ecvrf_prove ecvrf_prove_ed25519 prove_at encode_to_curve_ed25519 encode_loop
    challenge_ed25519 proof_to_hash_ed25519 expand_vrf_secret expand_vrf_secret_ed25519 clamp
    construct_vrf_input encode_opaque_u8 new_opaque_u8 encode_u32 to_be_bytes
proved = refl

ecvrf_verify-vrf_prove_example :
    ecvrf_verify edwards nist 2 (y_bytes_of edwards nist ctx) input made.1 ≡ some made.0
ecvrf_verify-vrf_prove_example =
    ecvrf_verify-vrf_prove edwards nist edwards-EdwardsLaws nist-NistLaws 2 secret
      (y_bytes_of edwards nist ctx) (97 ∷ []) input made.0 made.1 1 ctx expanded ctx-IsNonzero
      published has_input proved
