-- ===== src/Store.antt =====
-- src/db.rs: the version histories of the labels, as the bytes of the `history` column family. RocksDB
-- is not part of the repository: a column family is a map from keys to values, and a write batch
-- writes its pairs. A key or value is a byte string.
pub mod Histories
mod Runs
use ru_kt.Common.{
  ℕ, zero, suc, List, [], ◌∷◌, ◌++◌, Option, none, some, Bool, true, false, length, take, drop, leb,
  same_bytes, if◌then◌else◌,
}
use ru_kt.Tls.{Bytes, to_be_bytes, from_be_bytes}

-- A version of a label and its prefix tree position.
abbrev pub Entries : Type 0
Entries = List (ℕ × ℕ)

abbrev pub Column : Type 0
Column = Bytes → Option Bytes

abbrev pub put_cf : Column → Bytes → Bytes → Column
put_cf cf key val k = if same_bytes key k then some val else cf k

unfoldable pub encode_history : Entries → Bytes
encode_history [] = []
encode_history ((v, p) ∷ history) = to_be_bytes 4 v ++ (to_be_bytes 8 p ++ encode_history history)

-- `while cursor + 12 <= bytes.len()`, where `bytes` starts at the cursor. The loop takes at most as many
-- rounds as there are bytes.
unfoldable pub decode_loop : ℕ → Bytes → Entries
decode_loop zero bytes = []
decode_loop (suc n) bytes =
    let out = decode_loop n (drop 12 bytes) in
    if leb 12 (length bytes)
    then (from_be_bytes 0 (take 4 bytes), from_be_bytes 0 (take 8 (drop 4 bytes))) ∷ out
    else []

abbrev pub decode_history : Option Bytes → Entries
decode_history none = []
decode_history (some bytes) = decode_loop (length bytes) bytes

unfoldable pub get_label_history : Column → Bytes → Entries
get_label_history cf label = decode_history (cf label)

unfoldable pub append_label_history : Column → Bytes → ℕ → ℕ → Column
append_label_history cf label version pos =
    put_cf cf label (encode_history (get_label_history cf label ++ ((version, pos) ∷ [])))

-- The histories that a batch has read and extended.
abbrev pub Cache : Type 0
Cache = List (Bytes × Entries)

-- The entry goes to the cached history of the label, or to the stored one, which enters the cache.
unfoldable pub cache_push : Column → Cache → Bytes → ℕ × ℕ → Cache
cache_push cf [] label e = (label, get_label_history cf label ++ (e ∷ [])) ∷ []
cache_push cf ((l, history) ∷ cache) label e =
    let rest = cache_push cf cache label e in
    if same_bytes l label then (l, history ++ (e ∷ [])) ∷ cache else (l, history) ∷ rest

abbrev pub cache_entries : Column → Cache → List (Bytes × ℕ × ℕ) → Cache
cache_entries cf cache [] = cache
cache_entries cf cache ((label, ver, pos) ∷ entries) =
    cache_entries cf (cache_push cf cache label (ver, pos)) entries

-- The labels of a cache are distinct, so that the order of the writes does not matter.
abbrev pub write_cache : Column → Cache → Column
write_cache cf [] = cf
write_cache cf ((label, history) ∷ cache) =
    put_cf (write_cache cf cache) label (encode_history history)

unfoldable pub put_history_batch : Column → List (Bytes × ℕ × ℕ) → Column
put_history_batch cf entries = write_cache cf (cache_entries cf [] entries)
