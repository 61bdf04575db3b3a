-- ===== src/Crypto/Prefix.antt =====
-- Encodings with a decoder are prefix codes: what begins with two of them begins with the same one.
use ru_kt.Common.{
  ℕ, ◌^◌, ◌<◌, ◌≡◌, ◌≢◌, refl, arith, [], ◌∷◌, ◌++◌, ap, ◌∙◌, sym, length, Option, none, some,
}
use ru_kt.Tls.{
  Bytes, Decoder, encode_u8, encode_u16, encode_u32, encode_u64, new_opaque_u8, new_opaque_u16,
  new_opaque_u32, encode_opaque_u8, encode_opaque_u16, encode_opaque_u32, encode_optional,
  to_be_bytes, decode_uint, decode_opaque_u8, decode_opaque_u16, decode_opaque_u32, decode_option,
}
use ru_kt.Tls.RoundTrip.{
  ReadsBack, decode_uint-to_be_bytes, decode-encode_opaque_u8, decode-encode_opaque_u16,
  decode-encode_opaque_u32, decode-encode_optional,
}

pub split :
    {A : Type 0} (decode : Decoder A) (encode : A → Bytes) (a b : A) (r s : Bytes)
    → ReadsBack decode encode a
    → ReadsBack decode encode b
    → encode a ++ r ≡ encode b ++ s
    → (a ≡ b) × (r ≡ s)
split decode encode a b r s ra rb e =
    let whole : some (a, r) ≡ some (b, s) = sym (ra r) ∙ ap decode e ∙ rb s in (cc whole, cc whole)

abbrev pub IsU8 : ℕ → Type 0
IsU8 v = v < 256

abbrev pub IsU16 : ℕ → Type 0
IsU16 v = v < 2 ^ 16

abbrev pub IsU32 : ℕ → Type 0
IsU32 v = v < 2 ^ 32

abbrev pub IsU64 : ℕ → Type 0
IsU64 v = v < 2 ^ 64

module _ (a b : ℕ) (r s : Bytes) where
  pub split_u8 : encode_u8 a ++ r ≡ encode_u8 b ++ s → (a ≡ b) × (r ≡ s)
  unfolding encode_u8
  split_u8 e = (cc e, cc e)

  pub split_u16 : IsU16 a → IsU16 b → encode_u16 a ++ r ≡ encode_u16 b ++ s → (a ≡ b) × (r ≡ s)
  unfolding encode_u16
  split_u16 ha hb =
      split (decode_uint 2) (to_be_bytes 2) a b r s (decode_uint-to_be_bytes 2 a ha)
        (decode_uint-to_be_bytes 2 b hb)

  pub split_u32 : IsU32 a → IsU32 b → encode_u32 a ++ r ≡ encode_u32 b ++ s → (a ≡ b) × (r ≡ s)
  unfolding encode_u32
  split_u32 ha hb =
      split (decode_uint 4) (to_be_bytes 4) a b r s (decode_uint-to_be_bytes 4 a ha)
        (decode_uint-to_be_bytes 4 b hb)

  pub split_u64 : IsU64 a → IsU64 b → encode_u64 a ++ r ≡ encode_u64 b ++ s → (a ≡ b) × (r ≡ s)
  unfolding encode_u64
  split_u64 ha hb =
      split (decode_uint 8) (to_be_bytes 8) a b r s (decode_uint-to_be_bytes 8 a ha)
        (decode_uint-to_be_bytes 8 b hb)

-- What an `Opaque` holds is the given bytes.
pub record Fits (new : Bytes → Option Bytes) (given kept : Bytes) : Type 0 where
  pub same : given ≡ kept
  pub short : new kept ≢ none

pub Fits-u8 : (x y : Bytes) → new_opaque_u8 x ≡ some y → Fits new_opaque_u8 x y
unfolding new_opaque_u8
Fits-u8 x y h = let e : x ≡ y = ground arith in record { same = e; short = ground arith }

pub Fits-u16 : (x y : Bytes) → new_opaque_u16 x ≡ some y → Fits new_opaque_u16 x y
unfolding new_opaque_u16
Fits-u16 x y h = let e : x ≡ y = ground arith in record { same = e; short = ground arith }

pub Fits-u32 : (x y : Bytes) → new_opaque_u32 x ≡ some y → Fits new_opaque_u32 x y
unfolding new_opaque_u32
Fits-u32 x y h = let e : x ≡ y = ground arith in record { same = e; short = ground arith }

module _ (a b r s : Bytes) where
  pub split_opaque_u8 :
      new_opaque_u8 a ≢ none
      → new_opaque_u8 b ≢ none
      → encode_opaque_u8 a ++ r ≡ encode_opaque_u8 b ++ s
      → (a ≡ b) × (r ≡ s)
  split_opaque_u8 ha hb =
      split decode_opaque_u8 encode_opaque_u8 a b r s (decode-encode_opaque_u8 a ha)
        (decode-encode_opaque_u8 b hb)

  pub split_opaque_u16 :
      new_opaque_u16 a ≢ none
      → new_opaque_u16 b ≢ none
      → encode_opaque_u16 a ++ r ≡ encode_opaque_u16 b ++ s
      → (a ≡ b) × (r ≡ s)
  split_opaque_u16 ha hb =
      split decode_opaque_u16 encode_opaque_u16 a b r s (decode-encode_opaque_u16 a ha)
        (decode-encode_opaque_u16 b hb)

  pub split_opaque_u32 :
      new_opaque_u32 a ≢ none
      → new_opaque_u32 b ≢ none
      → encode_opaque_u32 a ++ r ≡ encode_opaque_u32 b ++ s
      → (a ≡ b) × (r ≡ s)
  split_opaque_u32 ha hb =
      split decode_opaque_u32 encode_opaque_u32 a b r s (decode-encode_opaque_u32 a ha)
        (decode-encode_opaque_u32 b hb)

abbrev pub InRange : Option ℕ → Type 0
InRange none = Unit
InRange (some v) = IsU64 v

optional_u64 :
    (o : Option ℕ)
    → InRange o
    → ReadsBack (decode_option (decode_uint 8)) (encode_optional encode_u64) o
unfolding encode_u64
optional_u64 none h = decode-encode_optional _ _ none (λ v e. cc)
optional_u64 (some v) h =
    decode-encode_optional (decode_uint 8) (to_be_bytes 8) (some v)
      (λ w e. decode_uint-to_be_bytes 8 w (ground arith))

pub split_optional :
    (a b : Option ℕ) (r s : Bytes)
    → InRange a
    → InRange b
    → encode_optional encode_u64 a ++ r ≡ encode_optional encode_u64 b ++ s
    → (a ≡ b) × (r ≡ s)
split_optional a b r s ha hb =
    split (decode_option (decode_uint 8)) (encode_optional encode_u64) a b r s (optional_u64 a ha)
      (optional_u64 b hb)

-- Two texts of one length before the rests.
pub split_fixed : (a b r s : Bytes) → length a ≡ length b → a ++ r ≡ b ++ s → (a ≡ b) × (r ≡ s)
split_fixed [] [] r s h e = (refl, e)
split_fixed [] (y ∷ b) r s h e = absurd (omega arith)
split_fixed (x ∷ a) [] r s h e = absurd (omega arith)
split_fixed (x ∷ a) (y ∷ b) r s h e =
    let (p, q) = split_fixed a b r s (omega arith) (cc e) in (cc (p, e), q)
