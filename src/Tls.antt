-- ===== src/Tls.antt =====
-- src/crypto/tls.rs: the TLS presentation language. A byte is a number below 256. An encoder is
-- given as the bytes that it appends to the buffer; a decoder takes the bytes that are left and
-- returns its value with those after it, and `none` is an error.
pub mod BigEndian
pub mod RoundTrip
mod Runs
use ru_kt.Common.{
  ℕ, zero, suc, ◌+◌, ◌*◌, ◌/◌, ◌%◌, ◌^◌, List, [], ◌∷◌, ◌++◌, Option, none, some, ltb, ◌==◌,
  if◌then◌else◌, length, take, drop, ◌>>=◌,
}

abbrev pub Bytes : Type 0
Bytes = List ℕ

abbrev pub Decoder : Type 0 → Type 0
Decoder A = Bytes → Option (A × Bytes)

-- `to_be_bytes` of an integer of w bytes.
unfoldable pub to_be_bytes : ℕ → ℕ → Bytes
to_be_bytes zero v = []
to_be_bytes (suc w) v = to_be_bytes w (v / 256) ++ (v % 256 ∷ [])

unfoldable pub from_be_bytes : ℕ → Bytes → ℕ
from_be_bytes acc [] = acc
from_be_bytes acc (b ∷ bs) = from_be_bytes (acc * 256 + b) bs

unfoldable pub encode_u8 : ℕ → Bytes
encode_u8 v = v ∷ []

unfoldable pub encode_u16 : ℕ → Bytes
encode_u16 v = to_be_bytes 2 v

unfoldable pub encode_u32 : ℕ → Bytes
encode_u32 v = to_be_bytes 4 v

unfoldable pub encode_u64 : ℕ → Bytes
encode_u64 v = to_be_bytes 8 v

-- `Opaqueu8::new` and its kin: the bytes, if they are not too many.
unfoldable pub new_opaque_u8 : Bytes → Option Bytes
new_opaque_u8 bytes = if ltb 255 (length bytes) then none else some bytes

unfoldable pub new_opaque_u16 : Bytes → Option Bytes
new_opaque_u16 bytes = if ltb 65_535 (length bytes) then none else some bytes

unfoldable pub new_opaque_u32 : Bytes → Option Bytes
new_opaque_u32 bytes = if ltb 4_294_967_295 (length bytes) then none else some bytes

unfoldable pub encode_opaque_u8 : Bytes → Bytes
encode_opaque_u8 bytes = (length bytes % 2 ^ 8) ∷ bytes

unfoldable pub encode_opaque_u16 : Bytes → Bytes
encode_opaque_u16 bytes = encode_u16 (length bytes % 2 ^ 16) ++ bytes

unfoldable pub encode_opaque_u32 : Bytes → Bytes
encode_opaque_u32 bytes = encode_u32 (length bytes % 2 ^ 32) ++ bytes

unfoldable pub encode_fixed_opaque : Bytes → Bytes
encode_fixed_opaque bytes = bytes

unfoldable pub encode_optional : {A : Type 0} → (A → Bytes) → Option A → Bytes
encode_optional encode none = 0 ∷ []
encode_optional encode (some v) = 1 ∷ encode v

-- `take`: n bytes and the rest.
unfoldable pub take_bytes : ℕ → Decoder Bytes
take_bytes n buf = if ltb (length buf) n then none else some (take n buf, drop n buf)

-- `impl_tls_decode_uint` for an integer of w bytes.
unfoldable pub decode_uint : ℕ → Decoder ℕ
decode_uint w buf = do (bytes, rest) ← take_bytes w buf; some (from_be_bytes 0 bytes, rest)

unfoldable pub present : {A : Type 0} → Option (A × Bytes) → Option (Option A × Bytes)
present none = none
present (some (v, rest)) = some (some v, rest)

unfoldable pub decode_option : {A : Type 0} → Decoder A → Decoder (Option A)
decode_option decode buf = do
  (octet, rest) ← decode_uint 1 buf
  if octet == 0 then some (none, rest) else if octet == 1 then present (decode rest) else none

unfoldable pub decode_opaque_u8 : Decoder Bytes
decode_opaque_u8 buf = do (len, rest) ← decode_uint 1 buf; take_bytes len rest

unfoldable pub decode_opaque_u16 : Decoder Bytes
decode_opaque_u16 buf = do (len, rest) ← decode_uint 2 buf; take_bytes len rest

unfoldable pub decode_opaque_u32 : Decoder Bytes
decode_opaque_u32 buf = do (len, rest) ← decode_uint 4 buf; take_bytes len rest

unfoldable pub decode_fixed_opaque : ℕ → Decoder Bytes
decode_fixed_opaque n buf = take_bytes n buf
