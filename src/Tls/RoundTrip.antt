-- ===== src/Tls/RoundTrip.antt =====
-- Every decoder reads back what its encoder wrote, and leaves what follows.
use ru_kt.Common.{
  Bool-cases, inl, inr, subst, some_injective, ==_iff, ◌==◌, ◌∙◌, take-append, drop-append, ℕ, ◌%◌,
  ◌^◌, ◌≤◌, ◌<◌, ◌≡◌, ◌≢◌, refl, arith, [], ◌∷◌, ◌++◌, ap, length, length-append, Option, none,
  some, ltb, false, ◌>>=◌,
}
use ru_kt.Tls.{
  Bytes, Decoder, to_be_bytes, from_be_bytes, encode_u8, encode_u16, encode_u32, new_opaque_u8,
  new_opaque_u16, new_opaque_u32, encode_opaque_u8, encode_opaque_u16, encode_opaque_u32,
  encode_optional, take_bytes, decode_uint, present, decode_option, decode_opaque_u8,
  decode_opaque_u16, decode_opaque_u32,
}
use mathlib.Core.List.{append_assoc}
use ru_kt.Tls.BigEndian.{length-to_be_bytes, from-to_be_bytes}

-- `n` bytes are taken off what begins with n bytes.
pub take_bytes-append :
    (n : ℕ) (xs ys : Bytes) → length xs ≡ n → take_bytes n (xs ++ ys) ≡ some (xs, ys)
unfolding take_bytes
take_bytes-append n xs ys e = rw (← e, enough, take-append xs ys, drop-append xs ys) refl
  where
    enough : ltb (length (xs ++ ys)) (length xs) ≡ false
    enough = ground (arith, length-append xs ys)

-- A decoder reads back what an encoder writes, whatever follows.
abbrev pub ReadsBack : {A : Type 0} → Decoder A → (A → Bytes) → A → Type 0
ReadsBack decode encode v = (rest : Bytes) → decode (encode v ++ rest) ≡ some (v, rest)

pub decode_uint-to_be_bytes : (w v : ℕ) → v < 256 ^ w → ReadsBack (decode_uint w) (to_be_bytes w) v
unfolding decode_uint
decode_uint-to_be_bytes w v h rest =
    rw (take_bytes-append w (to_be_bytes w v) rest (length-to_be_bytes w v), from-to_be_bytes w v h)
      refl

u8_bytes : (v : ℕ) → v < 256 → encode_u8 v ≡ to_be_bytes 1 v
unfolding encode_u8 to_be_bytes
u8_bytes v h = ap (λ (t : ℕ). t ∷ []) (omega arith)

opaque_at :
    (w : ℕ) (bytes rest : Bytes)
    → length bytes < 256 ^ w
    → (decode_uint w ((to_be_bytes w (length bytes) ++ bytes) ++ rest) >>= λ p. take_bytes p.0 p.1)
      ≡ some (bytes, rest)
opaque_at w bytes rest h =
    rw
      (
        append_assoc (to_be_bytes w (length bytes)) bytes rest,
        decode_uint-to_be_bytes w (length bytes) h (bytes ++ rest),
      )
      (take_bytes-append (length bytes) bytes rest refl)

-- A byte string that its constructor accepts, with a length of one byte before it, is read back, whatever
-- follows.
pub decode-encode_opaque_u8 :
    (bytes : Bytes) → new_opaque_u8 bytes ≢ none → ReadsBack decode_opaque_u8 encode_opaque_u8 bytes
unfolding decode_opaque_u8 encode_opaque_u8 new_opaque_u8 encode_u8
decode-encode_opaque_u8 bytes ok rest =
    let short : length bytes ≤ 255 = ground arith in
    let e : length bytes % 2 ^ 8 ≡ length bytes = omega arith in
    rw (e, ap (λ (b : Bytes). (b ++ bytes) ++ rest) (u8_bytes (length bytes) (omega arith)))
      (opaque_at 1 bytes rest (omega arith))

-- A byte string that its constructor accepts, with a length of two bytes before it, is read back, whatever
-- follows.
pub decode-encode_opaque_u16 :
    (bytes : Bytes)
    → new_opaque_u16 bytes ≢ none
    → ReadsBack decode_opaque_u16 encode_opaque_u16 bytes
unfolding decode_opaque_u16 encode_opaque_u16 new_opaque_u16 encode_u16
decode-encode_opaque_u16 bytes ok rest =
    let short : length bytes ≤ 65_535 = ground arith in
    let e : length bytes % 2 ^ 16 ≡ length bytes = omega arith in
    rw e (opaque_at 2 bytes rest (omega arith))

-- A byte string that its constructor accepts, with a length of four bytes before it, is read back, whatever
-- follows.
pub decode-encode_opaque_u32 :
    (bytes : Bytes)
    → new_opaque_u32 bytes ≢ none
    → ReadsBack decode_opaque_u32 encode_opaque_u32 bytes
unfolding decode_opaque_u32 encode_opaque_u32 new_opaque_u32 encode_u32
decode-encode_opaque_u32 bytes ok rest =
    let short : length bytes ≤ 4_294_967_295 = ground arith in
    let e : length bytes % 2 ^ 32 ≡ length bytes = omega arith in
    rw e (opaque_at 4 bytes rest (omega arith))

pub decode_octet : (octet : ℕ) (rest : Bytes) → decode_uint 1 (octet ∷ rest) ≡ some (octet, rest)
unfolding decode_uint take_bytes from_be_bytes
decode_octet octet rest = ground arith

-- An optional value is read back if the value is.
pub decode-encode_optional :
    {A : Type 0} (decode : Decoder A) (encode : A → Bytes) (o : Option A)
    → ((v : A) → o ≡ some v → ReadsBack decode encode v)
    → ReadsBack (decode_option decode) (encode_optional encode) o
unfolding decode_option encode_optional
decode-encode_optional decode encode none h rest = rw (decode_octet 0 rest) refl
decode-encode_optional decode encode (some v) h rest =
    rw (decode_octet 1 (encode v ++ rest), h v refl rest) (unfold present in refl)

-- Optional values have one encoding: what is read was the encoding of the value with the rest after it,
-- if this holds for the values themselves. So no presence octet but 0 and 1 is read.
pub encode_optional-decode_option :
    {A : Type 0} (decode : Decoder A) (encode : A → Bytes) (bytes rest : Bytes) (o : Option A)
    → ((b r : Bytes) (v : A) → decode b ≡ some (v, r) → b ≡ encode v ++ r)
    → decode_option decode bytes ≡ some (o, rest)
    → bytes ≡ encode_optional encode o ++ rest
unfolding decode_option encode_optional present
encode_optional-decode_option decode encode [] rest o h e =
    unfold decode_uint take_bytes in absurd (cc e)
encode_optional-decode_option {A = A} decode encode (octet ∷ bytes) rest o h e =
    let e' = rw (decode_octet octet bytes) at e in
    elim (Bool-cases (octet == 0)) [
      | inl z ↦
          let same = some_injective _ _ (rw z at e') in
          subst (λ (p : Option A × Bytes). octet ∷ bytes ≡ encode_optional encode p.0 ++ p.1) same
            (ap (λ n. n ∷ bytes) ((==_iff octet 0).0 z))
      | inr nz ↦ elim (Bool-cases (octet == 1)) [
        | inr nw ↦ absurd (cc (rw (nz, nw) at e'))
        | inl w ↦ read (decode bytes) refl ((==_iff octet 1).0 w) (rw (nz, w) at e')
      ]
    ]
  where
    read :
        (p : Option (A × Bytes))
        → decode bytes ≡ p
        → octet ≡ 1
        → present p ≡ some (o, rest)
        → octet ∷ bytes ≡ encode_optional encode o ++ rest
    read none q one k = absurd (cc k)
    read (some (v, r)) q one k =
        subst (λ (p : Option A × Bytes). octet ∷ bytes ≡ encode_optional encode p.0 ++ p.1)
          (some_injective _ _ k) (ap (λ n. n ∷ bytes) one ∙ ap (◌∷◌ 1) (h bytes r v q))
