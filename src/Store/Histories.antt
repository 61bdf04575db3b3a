-- ===== src/Store/Histories.antt =====
-- What the store gives back of the histories that it was given.
use ru_kt.Common.{
  ℕ, zero, suc, ◌<◌, ◌^◌, ◌≤◌, ◌+◌, ◌≡◌, refl, sym, ap, ◌∙◌, arith, ◌⊎◌, inl, inr, List, [], ◌∷◌,
  ◌++◌, some, Bool, true, false, Bool-cases, length, drop, take_more, drop_more, length-append, leb,
  same_bytes, same_bytes_iff, if◌then◌else◌, All,
}
use mathlib.Core.List.{append_assoc, append-nil}
use ru_kt.Tls.{Bytes, to_be_bytes, from_be_bytes}
use ru_kt.Tls.BigEndian.{length-to_be_bytes, from-to_be_bytes}
use ru_kt.Store.{
  Entries, Column, Cache, encode_history, decode_loop, decode_history, get_label_history,
  append_label_history, cache_push, cache_entries, write_cache, put_history_batch,
}

-- A version of 32 bits and a position of 64.
abbrev pub Wide : ℕ × ℕ → Type 0
Wide e = (e.0 < 256 ^ 4) × (e.1 < 256 ^ 8)

-- One round of the loop on a written entry.
decode-entry :
    (n : ℕ) (a b rest : Bytes) (v p : ℕ)
    → length a ≡ 4
    → length b ≡ 8
    → from_be_bytes 0 a ≡ v
    → from_be_bytes 0 b ≡ p
    → decode_loop (suc n) (a ++ (b ++ rest)) ≡ (v, p) ∷ decode_loop n rest
unfolding decode_loop
decode-entry n a b rest v p la lb ra rb =
    rw
      (
        whole,
        take_more 4 a (b ++ rest) la,
        drop_more 4 a (b ++ rest) la,
        take_more 8 b rest lb,
        gone,
        ra,
        rb,
        decode_loop,
      )
      refl
  where
    whole : leb 12 (length (a ++ (b ++ rest))) ≡ true
    whole = ground (arith, length-append a (b ++ rest), length-append b rest)

    gone : drop 12 (a ++ (b ++ rest)) ≡ rest
    gone =
        ap (drop 12) (sym (append_assoc a b rest))
        ∙ drop_more 12 (a ++ b) rest (omega (arith, length-append a b))

length-entry :
    (v p : ℕ) (rest : Bytes)
    → length (to_be_bytes 4 v ++ (to_be_bytes 8 p ++ rest)) ≡ 12 + length rest
length-entry v p rest = omega (
  arith,
  length-append (to_be_bytes 4 v) (to_be_bytes 8 p ++ rest),
  length-append (to_be_bytes 8 p) rest,
  length-to_be_bytes 4 v,
  length-to_be_bytes 8 p,
)

decode-encode :
    (n : ℕ) (history : Entries)
    → All Wide history
    → length (encode_history history) ≤ n
    → decode_loop n (encode_history history) ≡ history
unfolding encode_history
decode-encode zero [] w h = unfold decode_loop in refl
decode-encode (suc n) [] w h = unfold decode_loop in refl
decode-encode zero ((v, p) ∷ history) w h =
    absurd (omega (arith, length-entry v p (encode_history history)))
decode-encode (suc n) ((v, p) ∷ history) ((wv, wp), w) h =
    decode-entry n (to_be_bytes 4 v) (to_be_bytes 8 p) (encode_history history) v p
      (length-to_be_bytes 4 v) (length-to_be_bytes 8 p) (from-to_be_bytes 4 v wv)
      (from-to_be_bytes 8 p wp)
    ∙ ap (◌∷◌ (v, p))
        (decode-encode n history w (omega (arith, length-entry v p (encode_history history))))

-- A written history is read back.
pub decode-encode_history :
    (history : Entries)
    → All Wide history
    → decode_history (some (encode_history history)) ≡ history
decode-encode_history history w =
    decode-encode (length (encode_history history)) history w (omega arith)

-- Two labels are the same or not.
labels : (a b : Bytes) → ((same_bytes a b ≡ true) × (a ≡ b)) ⊎ (same_bytes a b ≡ false)
labels a b = elim (Bool-cases (same_bytes a b)) [
  | inl h ↦ inl (h, (same_bytes_iff a b).0 h)
  | inr h ↦ inr h
]

one_if : Bool → ℕ × ℕ → Entries
one_if true e = e ∷ []
one_if false e = []

All-append : (xs ys : Entries) → All Wide xs → All Wide ys → All Wide (xs ++ ys)
All-append [] ys a b = b
All-append (x ∷ xs) ys (w, a) b = (w, All-append xs ys a b)

-- Every history of the store, of a cache, and every entry of a batch is of machine words.
unfoldable pub IsWide : Column → Type 0
IsWide cf = (label : Bytes) → All Wide (get_label_history cf label)

unfoldable pub AllWide : List (Bytes × ℕ × ℕ) → Type 0
AllWide entries = All (λ (e : Bytes × ℕ × ℕ). Wide (e.1, e.2)) entries

-- The entries of a batch that are about a label, in their order.
abbrev pub entries_for : Bytes → List (Bytes × ℕ × ℕ) → Entries
entries_for label [] = []
entries_for label ((l, ver, pos) ∷ entries) =
    if same_bytes l label then (ver, pos) ∷ entries_for label entries else entries_for label entries

module _ (cf : Column) where
  -- A label's history, from the cache before the store.
  cached : Cache → Bytes → Entries
  cached [] label = get_label_history cf label
  cached ((l, history) ∷ cache) label = if same_bytes l label then history else cached cache label

  cached-nil :
      (l label : Bytes) (e : ℕ × ℕ)
      → cached ((l, get_label_history cf l ++ (e ∷ [])) ∷ []) label
        ≡ get_label_history cf label ++ one_if (same_bytes l label) e
  unfolding cached one_if
  cached-nil l label e = elim (labels l label) [
    | inl (h, p) ↦ rw (h, p) refl
    | inr h ↦ rw (h, append-nil (get_label_history cf label)) refl
  ]

  cached-cache_push :
      (cache : Cache) (l label : Bytes) (e : ℕ × ℕ)
      → cached (cache_push cf cache l e) label ≡ cached cache label ++ one_if (same_bytes l label) e
  unfolding cached cache_push one_if
  cached-cache_push [] l label e = cached-nil l label e
  cached-cache_push ((k, history) ∷ cache) l label e = elim (labels k l) [
    | inl (h, p) ↦ elim (labels l label) [
      | inl (g, q) ↦ rw (h, p, g) refl
      | inr g ↦ rw (h, p, g, append-nil (cached cache label)) refl
    ]
    | inr h ↦ elim (labels k label) [
      | inl (g, q) ↦ rw (h, g, other h q, append-nil history) refl
      | inr g ↦ rw (h, g, cached-cache_push cache l label e) refl
    ]
  ]
    where
      other : same_bytes k l ≡ false → k ≡ label → same_bytes l label ≡ false
      other h q = elim (labels l label) [
        | inl (g, p) ↦ absurd (cc (h, (same_bytes_iff k l).1 (q ∙ sym p)))
        | inr g ↦ g
      ]

  cached-cache_entries :
      (cache : Cache) (entries : List (Bytes × ℕ × ℕ)) (label : Bytes)
      → cached (cache_entries cf cache entries) label
        ≡ cached cache label ++ entries_for label entries
  unfolding one_if
  cached-cache_entries cache [] label = sym (append-nil (cached cache label))
  cached-cache_entries cache ((l, ver, pos) ∷ entries) label =
      let pushed = cached-cache_push cache l label (ver, pos) in
      let more = cached-cache_entries (cache_push cf cache l (ver, pos)) entries label in
      elim (Bool-cases (same_bytes l label)) [
        | inl h ↦
            rw
              (
                more,
                pushed,
                h,
                append_assoc (cached cache label) ((ver, pos) ∷ []) (entries_for label entries),
              )
              refl
        | inr h ↦ rw (more, pushed, h, append-nil (cached cache label)) refl
      ]

  WideCache : Cache → Type 0
  WideCache cache = All (λ (c : Bytes × Entries). All Wide c.1) cache

  cache_push-WideCache :
      IsWide cf
      → (cache : Cache) (l : Bytes) (e : ℕ × ℕ) → WideCache cache
      → Wide e
      → WideCache (cache_push cf cache l e)
  unfolding cache_push WideCache IsWide
  cache_push-WideCache w [] l e c we =
      (All-append (get_label_history cf l) (e ∷ []) (w l) (we, _), _)
  cache_push-WideCache w ((k, history) ∷ cache) l e (ch, c) we =
      elim (Bool-cases (same_bytes k l)) [
        | inl h ↦ rw h (All-append history (e ∷ []) ch (we, _), c)
        | inr h ↦ rw h (ch, cache_push-WideCache w cache l e c we)
      ]

  cache_entries-WideCache :
      IsWide cf
      → (cache : Cache) (entries : List (Bytes × ℕ × ℕ)) → WideCache cache
      → AllWide entries
      → WideCache (cache_entries cf cache entries)
  unfolding AllWide
  cache_entries-WideCache w cache [] c a = c
  cache_entries-WideCache w cache ((l, ver, pos) ∷ entries) c (we, a) =
      cache_entries-WideCache w (cache_push cf cache l (ver, pos)) entries
        (cache_push-WideCache w cache l (ver, pos) c we) a

  written :
      (cache : Cache) (label : Bytes)
      → WideCache cache
      → get_label_history (write_cache cf cache) label ≡ cached cache label
  unfolding get_label_history cached WideCache
  written [] label c = refl
  written ((k, history) ∷ cache) label (w, c) = elim (Bool-cases (same_bytes k label)) [
    | inl h ↦ rw (h, decode-encode_history history w) refl
    | inr h ↦ rw (h, written cache label c) refl
  ]

  -- After a batch of entries that fit their words, the history of each label is what the store had,
  -- followed by the entries of the batch for that label, in their order.
  pub get_label_history-put_history_batch :
      (entries : List (Bytes × ℕ × ℕ)) (label : Bytes)
      → IsWide cf
      → AllWide entries
      → get_label_history (put_history_batch cf entries) label
        ≡ get_label_history cf label ++ entries_for label entries
  unfolding put_history_batch cached WideCache
  get_label_history-put_history_batch entries label w a =
      written (cache_entries cf [] entries) label (cache_entries-WideCache w [] entries _ a)
      ∙ cached-cache_entries [] entries label

  -- A batch of such entries keeps every history in its words.
  pub put_history_batch-IsWide :
      (entries : List (Bytes × ℕ × ℕ))
      → IsWide cf
      → AllWide entries
      → IsWide (put_history_batch cf entries)
  unfolding IsWide AllWide
  put_history_batch-IsWide entries w a label =
      rw (get_label_history-put_history_batch entries label w a)
        (All-append _ _ (w label) (wide_for entries a))
    where
      wide_for : (es : List (Bytes × ℕ × ℕ)) → AllWide es → All Wide (entries_for label es)
      wide_for [] a = _
      wide_for ((l, v, p) ∷ es) (we, a) = elim (Bool-cases (same_bytes l label)) [
        | inl h ↦ rw h (we, wide_for es a)
        | inr h ↦ rw h (wide_for es a)
      ]

-- Appending one entry to a history is a batch of that entry.
pub append_label_history-batch :
    (cf : Column) (label : Bytes) (version pos : ℕ)
    → append_label_history cf label version pos ≡ put_history_batch cf ((label, version, pos) ∷ [])
unfolding append_label_history put_history_batch cache_push
append_label_history-batch cf label version pos = refl
