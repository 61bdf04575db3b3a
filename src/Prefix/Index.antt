-- ===== src/Prefix/Index.antt =====
-- An index has 32 bytes, and its 256 bits are all there is to it.
use ru_kt.Common.{
  ℕ, zero, suc, ◌+◌, ◌-◌, ◌*◌, ◌/◌, ◌%◌, ◌^◌, ◌<◌, ◌≡◌, refl, sym, ◌∙◌, arith, [], ◌∷◌, Option,
  none, some, length, get_elem?, All,
}
use ru_kt.Tls.{Bytes}
use ru_kt.Prefix.{get_bit, bit_in}
use ru_kt.Prefix.Fold.{Agree}

pub record IsIndex (x : Bytes) : Type 0 where
  pub wide : length x ≡ 32
  pub bytes : All (λ b. b < 256) x

-- The byte at a place, 0 past the end.
abbrev byte : Bytes → ℕ → ℕ
byte x i = elim (get_elem? x i) [ none ↦ 0 | some b ↦ b ]

byte_bound : (x : Bytes) (i : ℕ) → All (λ b. b < 256) x → byte x i < 256
byte_bound [] i a = omega arith
byte_bound (b ∷ x) zero a = a.0
byte_bound (b ∷ x) (suc i) a = byte_bound x i a.1

get_bit-byte : (x : Bytes) (i k : ℕ) → k < 8 → get_bit x (8 * i + k) ≡ byte x i / 2 ^ (7 - k) % 2
unfolding get_bit
get_bit-byte x i k h =
    let e : (8 * i + k) / 8 ≡ i = omega arith in
    let m : (8 * i + k) % 8 ≡ k = omega arith in rw (e, m) (go (get_elem? x i))
  where
    go : (o : Option ℕ) → bit_in o k ≡ elim o [ none ↦ 0 | some b ↦ b ] / 2 ^ (7 - k) % 2
    go none = zero_div (2 ^ (7 - k))
      where
        zero_div : (n : ℕ) → 0 ≡ 0 / n % 2
        zero_div n = grind arith
    go (some b) = refl

same_byte :
    (b c : ℕ)
    → b < 256
    → c < 256
    → ((k : ℕ) → k < 8 → b / 2 ^ (7 - k) % 2 ≡ c / 2 ^ (7 - k) % 2)
    → b ≡ c
same_byte b c hb hc h = omega (
  arith,
  h 0 (omega arith),
  h 1 (omega arith),
  h 2 (omega arith),
  h 3 (omega arith),
  h 4 (omega arith),
  h 5 (omega arith),
  h 6 (omega arith),
  h 7 (omega arith),
)

same_bytes_at :
    (x y : Bytes) → length x ≡ length y → ((i : ℕ) → i < length x → byte x i ≡ byte y i) → x ≡ y
same_bytes_at [] [] e h = refl
same_bytes_at [] (c ∷ y) e h = absurd (omega arith)
same_bytes_at (b ∷ x) [] e h = absurd (omega arith)
same_bytes_at (b ∷ x) (c ∷ y) e h =
    let first : b ≡ c = h 0 (omega arith) in
    let rest = same_bytes_at x y (omega arith) (λ i l. h (suc i) (omega arith)) in cc (first, rest)

-- Indices that have the same 256 bits are the same.
pub Agree-all : (x y : Bytes) → IsIndex x → IsIndex y → Agree 256 x y → x ≡ y
Agree-all x y ix iy a =
    let w = ix.wide in
    same_bytes_at x y (ix.wide ∙ sym iy.wide) (λ i l.
      same_byte (byte x i) (byte y i) (byte_bound x i ix.bytes) (byte_bound y i iy.bytes)
        (λ k h. sym (get_bit-byte x i k h) ∙ a (8 * i + k) (omega arith) ∙ get_bit-byte y i k h))
