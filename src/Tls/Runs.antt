-- ===== src/Tls/Runs.antt =====
-- Concrete encodings, and the theorems at concrete inputs.
use ru_kt.Common.{
  some_injective, subst, ℕ, ◌≡◌, ◌≢◌, refl, arith, ap, [], ◌∷◌, ◌++◌, Option, some, none,
}
use ru_kt.Tls.{
  Bytes, to_be_bytes, from_be_bytes, encode_u16, new_opaque_u16, encode_opaque_u16, encode_optional,
  decode_uint, take_bytes, present, decode_option, decode_opaque_u8, decode_opaque_u16,
}
use ru_kt.Tls.RoundTrip.{
  ReadsBack, decode_octet, decode_uint-to_be_bytes, decode-encode_opaque_u16,
  decode-encode_optional, encode_optional-decode_option,
}

abbrev abc : Bytes
abc = 97 ∷ 98 ∷ 99 ∷ []

encode_opaque_u16-abc : encode_opaque_u16 abc ≡ 0 ∷ 3 ∷ 97 ∷ 98 ∷ 99 ∷ []
unfolding encode_opaque_u16 encode_u16 to_be_bytes
encode_opaque_u16-abc = refl

decode_opaque_u8_short : decode_opaque_u8 (4 ∷ 97 ∷ 98 ∷ 99 ∷ []) ≡ none
unfolding decode_opaque_u8 decode_uint take_bytes from_be_bytes
decode_opaque_u8_short = refl

abc_u16 : new_opaque_u16 abc ≢ none
unfolding new_opaque_u16
abc_u16 h = cc h

decode_uint-to_be_bytes_example :
    decode_uint 4 (to_be_bytes 4 70_000 ++ (9 ∷ [])) ≡ some (70_000, 9 ∷ [])
decode_uint-to_be_bytes_example = decode_uint-to_be_bytes 4 70_000 (omega arith) (9 ∷ [])

decode-encode_opaque_u16_example :
    decode_opaque_u16 (encode_opaque_u16 abc ++ (9 ∷ [])) ≡ some (abc, 9 ∷ [])
decode-encode_opaque_u16_example = decode-encode_opaque_u16 abc abc_u16 (9 ∷ [])

read_u32 : (v : ℕ) → some 70_000 ≡ some v → ReadsBack (decode_uint 4) (to_be_bytes 4) v
read_u32 v h = decode_uint-to_be_bytes 4 v (omega (arith, the_value))
  where
    value_of : Option ℕ → ℕ
    value_of none = 0
    value_of (some x) = x

    the_value : 70_000 ≡ v
    the_value = ap value_of h

decode-encode_optional_example :
    decode_option (decode_uint 4) (encode_optional (to_be_bytes 4) (some 70_000) ++ (9 ∷ []))
    ≡ some (some 70_000, 9 ∷ [])
decode-encode_optional_example =
    decode-encode_optional (decode_uint 4) (to_be_bytes 4) (some 70_000) read_u32 (9 ∷ [])

abbrev one_octet : ℕ → Bytes
one_octet v = v ∷ []

one_octet_lem : (b r : Bytes) (v : ℕ) → decode_uint 1 b ≡ some (v, r) → b ≡ one_octet v ++ r
one_octet_lem [] r v h = unfold decode_uint take_bytes in absurd (cc h)
one_octet_lem (x ∷ b) r v h =
    let same = some_injective _ _ (rw (decode_octet x b) at h) in
    subst (λ (p : ℕ × Bytes). x ∷ b ≡ one_octet p.0 ++ p.1) same refl

present_read : decode_option (decode_uint 1) (1 ∷ abc) ≡ some (some 97, 98 ∷ 99 ∷ [])
unfolding decode_option decode_uint take_bytes from_be_bytes present
present_read = refl

encode_optional-decode_option_example :
    1 ∷ abc ≡ encode_optional one_octet (some 97) ++ (98 ∷ 99 ∷ [])
encode_optional-decode_option_example =
    encode_optional-decode_option (decode_uint 1) one_octet (1 ∷ abc) (98 ∷ 99 ∷ []) (some 97)
      one_octet_lem present_read
