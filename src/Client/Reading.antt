-- ===== src/Client/Reading.antt =====
-- What reading a proof to its end assures: of `timestamp` and `finish` of `ProofReader`.
use ru_kt.Common.{
  bind_then, require_then, some_injective, subst, ℕ, ◌≡◌, refl, sym, ap, ◌∙◌, true, List, [], ◌∷◌,
  Option, none, some, All, Option-cases, ◌⊎◌, inl, inr, map,
}
use ru_kt.Tls.{Bytes}
use ru_kt.Merkle.{Values, lookup}
use ru_kt.Client.Reader.{
  Timestamps, ProofReader, CombinedTreeProof, new, assigned, timestamp, read_timestamps, is_empty,
  entries, finish,
}
use ru_kt.Client.Timestamps.{IsOrdered, Timed, next-Timed}

timestamp_lem :
    (reader : ProofReader) (pos ts : ℕ) (next : ProofReader)
    → IsOrdered reader.assigned_ts
    → timestamp reader pos ≡ some (ts, next)
    → Timed reader pos ts next
unfolding timestamp
timestamp_lem reader pos ts next o h = go (Option-cases (assigned reader.assigned_ts pos))
  where
    time_of : Option (ℕ × ProofReader) → ℕ
    time_of none = ts
    time_of (some p) = p.0

    map_of : Option (ℕ × ProofReader) → Timestamps
    map_of none = []
    map_of (some p) = (p.1).assigned_ts

    go :
        (assigned reader.assigned_ts pos ≡ none)
          ⊎ ((t : ℕ) × (assigned reader.assigned_ts pos ≡ some t))
        → Timed reader pos ts next
    go (inl n) = next-Timed reader reader.timestamps pos ts next o n (rw (n, timestamp) at h)
    go (inr (t, n)) =
        let e = rw (n, timestamp) at h in
        let same : t ≡ ts = ap time_of e in
        let kept : reader.assigned_ts ≡ next.assigned_ts = ap map_of e in
        record {
          ordered = rw kept at o;
          known = ap (λ (l : Timestamps). assigned l pos) (sym kept) ∙ n ∙ ap some same;
          kept = λ q u w. ap (λ (l : Timestamps). assigned l q) (sym kept) ∙ w;
        }

read_from :
    (reader : ProofReader) (positions : List ℕ) (end : ProofReader)
    → IsOrdered reader.assigned_ts
    → read_timestamps reader positions ≡ some end
    → IsOrdered end.assigned_ts
      × All (λ p. (t : ℕ) × (assigned end.assigned_ts p ≡ some t)) positions
      × ((q u : ℕ) → assigned reader.assigned_ts q ≡ some u → assigned end.assigned_ts q ≡ some u)
unfolding read_timestamps
read_from reader [] end o h =
    let same : reader.assigned_ts ≡ end.assigned_ts = ap map_of h in
    (rw same at o, _, λ q u w. ap (λ (l : Timestamps). assigned l q) (sym same) ∙ w)
  where
    map_of : Option ProofReader → Timestamps
    map_of none = []
    map_of (some r) = r.assigned_ts
read_from reader (p ∷ positions) end o h = bind_then (timestamp reader p) _ _ h (λ step e rest.
    let timed = timestamp_lem reader p step.0 step.1 o e in
    let (ordered, known, kept) = read_from step.1 positions end timed.ordered rest in
    (ordered, ((step.0, kept p step.0 timed.known), known), λ q u w. kept q u (timed.kept q u w)))

-- Once the timestamps of some entries are read from a proof, each of the entries has one, and from left
-- to right in the log they do not fall, in whatever order they were asked for.
pub read_timestamps-IsOrdered :
    (proof : CombinedTreeProof) (positions : List ℕ) (end : ProofReader)
    → read_timestamps (new proof) positions ≡ some end
    → IsOrdered end.assigned_ts
      × All (λ p. (t : ℕ) × (assigned end.assigned_ts p ≡ some t)) positions
unfolding new
read_timestamps-IsOrdered proof positions end h =
    let (o, known, kept) = read_from (new proof) positions end _ h in (o, known)

abbrev pub dated : ℕ × ℕ × Bytes → ℕ × ℕ
dated e = (e.0, e.1)

-- The roots of the entries for which no proof was verified.
abbrev pub unproved : Values → List (ℕ × ℕ × Bytes) → List Bytes
unproved roots [] = []
unproved roots ((p, t, root) ∷ out) = elim (lookup roots p) [
  | none ↦ root ∷ unproved roots out
  | some v ↦ unproved roots out
]

-- The root of an entry is the one that was verified, if any was.
abbrev pub IsProved : Values → ℕ × ℕ × Bytes → Type 0
IsProved roots (p, t, root) = elim (lookup roots p) [ none ↦ Unit | some v ↦ root ≡ v ]

-- What a list of entries is made of.
abbrev Made : Values → Timestamps → List Bytes → List (ℕ × ℕ × Bytes) → Type 0
Made roots l prefix_roots out =
    (map dated out ≡ l) × (unproved roots out ≡ prefix_roots) × All (IsProved roots) out

entries-Made :
    (roots : Values) (l : Timestamps) (prefix_roots : List Bytes) (out : List (ℕ × ℕ × Bytes))
    → entries roots l prefix_roots ≡ some out
    → Made roots l prefix_roots out
unfolding entries
entries-Made roots [] [] out h =
    subst (λ x. Made roots [] [] x) (some_injective _ _ h) (refl, refl, _)
entries-Made roots [] (r ∷ rest) out h = absurd (cc h)
entries-Made roots ((p, t) ∷ l) prefix_roots out h =
    go (Option-cases (lookup roots p)) prefix_roots h (entries-Made roots l)
  where
    go :
        (lookup roots p ≡ none) ⊎ ((v : Bytes) × (lookup roots p ≡ some v))
        → (queue : List Bytes) → entries roots ((p, t) ∷ l) queue ≡ some out
        → ((q : List Bytes) (x : List (ℕ × ℕ × Bytes))
            → entries roots l q ≡ some x
            → Made roots l q x)
        → Made roots ((p, t) ∷ l) queue out
    go (inl n) [] e ih = absurd (cc (rw (n, entries) at e))
    go (inl n) (r ∷ queue) e ih =
        bind_then (entries roots l queue) _ _ (rw (n, entries) at e) (λ x f end.
          let (dates, others, proved) = ih queue x f in
          subst (λ y. Made roots ((p, t) ∷ l) (r ∷ queue) y) (some_injective _ _ end)
            (
              ap (◌∷◌ (p, t)) dates,
              rw (n, unproved) (ap (◌∷◌ r) others),
              (rw (n, IsProved) _, proved),
            ))
    go (inr (v, n)) queue e ih =
        bind_then (entries roots l queue) _ _ (rw (n, entries) at e) (λ x f end.
          let (dates, others, proved) = ih queue x f in
          subst (λ y. Made roots ((p, t) ∷ l) queue y) (some_injective _ _ end)
            (ap (◌∷◌ (p, t)) dates, rw (n, unproved) others, (rw (n, IsProved) refl, proved)))

-- When `finish` accepts, every timestamp and prefix proof of the proof was read. Its output lists exactly
-- the entries with an assigned timestamp, in order. An entry with a verified root has that root, and
-- the roots of the others are all the prefix roots of the proof, each used once and in order.
pub finish_lem :
    (reader : ProofReader) (proof : CombinedTreeProof) (roots : Values) (out : List (ℕ × ℕ × Bytes))
    → finish reader proof roots ≡ some out
    → (reader.timestamps ≡ [])
      × (reader.prefix_proofs ≡ [])
      × (map dated out ≡ reader.assigned_ts)
      × (unproved roots out ≡ proof.prefix_roots)
      × All (IsProved roots) out
unfolding finish
finish_lem reader proof roots out h = require_then _ _ _ h (λ e rest.
    require_then _ _ _ rest (λ e' rest'.
      let (dates, others, proved) =
        entries-Made roots reader.assigned_ts proof.prefix_roots out rest' in
      (empty reader.timestamps e, empty reader.prefix_proofs e', dates, others, proved)))
  where
    empty : {A : Type 0} (l : List A) → is_empty l ≡ true → l ≡ []
    empty [] q = refl
    empty (x ∷ l) q = absurd (cc q)
