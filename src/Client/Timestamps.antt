-- ===== src/Client/Timestamps.antt =====
-- The timestamps that a reader has assigned never fall from left to right.
use ru_kt.Common.{
  require_then, order, ℕ, ◌≤◌, ◌<◌, ◌≡◌, ◌≢◌, refl, sym, ap, ◌∙◌, arith, true, false, List, [], ◌∷◌,
  Option, none, some, ltb, not, ◌==◌, All, Option-cases, Bool-cases, ◌⊎◌, inl, inr,
}
use ru_kt.Client.Reader.{
  Timestamps, ProofReader, assigned, left_of, right_of, insert, not_older, not_newer,
  next_timestamp,
}

-- Positions rise, and timestamps do not fall.
abbrev pub IsOrdered : Timestamps → Type 0
IsOrdered [] = Unit
IsOrdered ((p, t) ∷ l) = All (λ (e : ℕ × ℕ). (p < e.0) × (t ≤ e.1)) l × IsOrdered l

-- The new timestamp fits an entry.
abbrev Fits : ℕ → ℕ → ℕ × ℕ → Type 0
Fits pos ts e = ((e.0 < pos) → e.1 ≤ ts) × ((pos < e.0) → ts ≤ e.1) × (e.0 ≢ pos)

abbrev value_of : Option ℕ → ℕ
value_of none = 0
value_of (some x) = x

All-map : {P Q : ℕ × ℕ → Type 0} (l : Timestamps) → ((e : ℕ × ℕ) → P e → Q e) → All P l → All Q l
All-map [] f a = _
All-map (e ∷ l) f (a, b) = (f e a, All-map l f b)

left_of_bound :
    (p t pos u : ℕ) (l : Timestamps)
    → All (λ (e : ℕ × ℕ). (p < e.0) × (t ≤ e.1)) l
    → left_of l pos ≡ some u
    → t ≤ u
left_of_bound p t pos u [] a h = absurd (cc h)
left_of_bound p t pos u ((q, v) ∷ l) (a, b) h =
    go (Bool-cases (ltb q pos)) (Option-cases (left_of l pos)) (left_of_bound p t pos u l b)
  where
    go :
        (ltb q pos ≡ true) ⊎ (ltb q pos ≡ false)
        → (left_of l pos ≡ none) ⊎ ((w : ℕ) × (left_of l pos ≡ some w))
        → (left_of l pos ≡ some u → t ≤ u)
        → t ≤ u
    go (inl c) (inl n) ih =
        let e : v ≡ u = ap value_of (rw (c, n) at h) in let w = a.1 in omega arith
    go (inl c) (inr (w, n)) ih = ih (n ∙ rw (c, n) at h)
    go (inr c) o ih = ih (rw c at h)

fits :
    (l : Timestamps) (pos ts : ℕ)
    → IsOrdered l
    → assigned l pos ≡ none
    → not_older (left_of l pos) ts ≡ true
    → not_newer (right_of l pos) ts ≡ true
    → All (Fits pos ts) l
fits [] pos ts o n left right = _
fits ((p, t) ∷ l) pos ts (a, o) n left right =
    go (order p pos) (Option-cases (left_of l pos)) (fits l pos ts o)
  where
    go :
        (p < pos) ⊎ ((p ≡ pos) ⊎ (pos < p))
        → (left_of l pos ≡ none) ⊎ ((w : ℕ) × (left_of l pos ≡ some w))
        → (assigned l pos ≡ none
            → not_older (left_of l pos) ts ≡ true
            → not_newer (right_of l pos) ts ≡ true
            → All (Fits pos ts) l)
        → All (Fits pos ts) ((p, t) ∷ l)
    go (inl lt) (inl none_left) ih =
        let b : ltb p pos ≡ true = ground arith in
        let c : ltb pos p ≡ false = ground arith in
        let d : (p == pos) ≡ false = ground arith in
        let rest = ih (rw d at n) (rw none_left refl) (rw c at right) in
        let top = rw (b, none_left) at left in
        ((λ _. ground arith, λ h. absurd (omega arith), λ h. omega arith), rest)
    go (inl lt) (inr (w, some_left)) ih =
        let b : ltb p pos ≡ true = ground arith in
        let c : ltb pos p ≡ false = ground arith in
        let d : (p == pos) ≡ false = ground arith in
        let top : not (ltb ts w) ≡ true = rw (b, some_left) at left in
        let rest = ih (rw d at n) (rw some_left top) (rw c at right) in
        let low = left_of_bound p t pos w l a some_left in
        ((λ _. ground arith, λ h. absurd (omega arith), λ h. omega arith), rest)
    go (inr (inl e)) y ih = let b : (p == pos) ≡ true = ground arith in absurd (cc (rw b at n))
    go (inr (inr gt)) y ih =
        let c : ltb pos p ≡ true = ground arith in
        let top : not (ltb t ts) ≡ true = rw c at right in
        (
          (λ h. absurd (omega arith), λ _. ground arith, λ h. omega arith),
          All-map l (λ e (lt, le). (λ h. absurd (omega arith), λ _. ground arith, λ h. omega arith))
              a,
        )

assigned-insert : (l : Timestamps) (pos ts : ℕ) → assigned (insert l pos ts) pos ≡ some ts
assigned-insert [] pos ts = let b : (pos == pos) ≡ true = ground arith in rw b refl
assigned-insert ((p, t) ∷ l) pos ts = go (order p pos) (assigned-insert l pos ts)
  where
    self : (pos == pos) ≡ true
    self = ground arith

    go :
        (p < pos) ⊎ ((p ≡ pos) ⊎ (pos < p))
        → assigned (insert l pos ts) pos ≡ some ts
        → assigned (insert ((p, t) ∷ l) pos ts) pos ≡ some ts
    go (inl lt) ih =
        let c : ltb pos p ≡ false = ground arith in
        let d : (pos == p) ≡ false = ground arith in
        let e : (p == pos) ≡ false = ground arith in rw (c, d, e) ih
    go (inr (inl e)) ih =
        let c : ltb pos p ≡ false = ground arith in
        let d : (pos == p) ≡ true = ground arith in rw (c, d, self) refl
    go (inr (inr gt)) ih = let c : ltb pos p ≡ true = ground arith in rw (c, self) refl

All-insert :
    (P : ℕ × ℕ → Type 0) (l : Timestamps) (pos ts : ℕ)
    → P (pos, ts)
    → All P l
    → All P (insert l pos ts)
All-insert P [] pos ts h a = (h, a)
All-insert P ((p, t) ∷ l) pos ts h (a, b) =
    go (Bool-cases (ltb pos p)) (Bool-cases (pos == p)) (All-insert P l pos ts h b)
  where
    go :
        (ltb pos p ≡ true) ⊎ (ltb pos p ≡ false)
        → ((pos == p) ≡ true) ⊎ ((pos == p) ≡ false)
        → All P (insert l pos ts)
        → All P (insert ((p, t) ∷ l) pos ts)
    go (inl c) d ih = rw c (h, (a, b))
    go (inr c) (inl d) ih = rw (c, d) (h, b)
    go (inr c) (inr d) ih = rw (c, d) (a, ih)

insert-IsOrdered :
    (l : Timestamps) (pos ts : ℕ) → IsOrdered l → All (Fits pos ts) l → IsOrdered (insert l pos ts)
insert-IsOrdered [] pos ts o f = (_, _)
insert-IsOrdered ((p, t) ∷ l) pos ts (a, o) ((low, high, ne), f) =
    go (order p pos) (insert-IsOrdered l pos ts o f)
  where
    go :
        (p < pos) ⊎ ((p ≡ pos) ⊎ (pos < p))
        → IsOrdered (insert l pos ts)
        → IsOrdered (insert ((p, t) ∷ l) pos ts)
    go (inl lt) ih =
        let c : ltb pos p ≡ false = ground arith in
        let d : (pos == p) ≡ false = ground arith in
        rw (c, d) (All-insert _ l pos ts (lt, low lt) a, ih)
    go (inr (inl e)) ih = absurd (ne e)
    go (inr (inr gt)) ih =
        let c : ltb pos p ≡ true = ground arith in
        let top = high gt in
        rw c (((gt, top), All-map l (λ e (x, y). (omega arith, omega arith)) a), (a, o))

assigned-insert_other :
    (l : Timestamps) (pos ts q : ℕ) → q ≢ pos → assigned (insert l pos ts) q ≡ assigned l q
assigned-insert_other [] pos ts q ne = let b : (pos == q) ≡ false = ground arith in rw b refl
assigned-insert_other ((p, t) ∷ l) pos ts q ne =
    go (Bool-cases (ltb pos p)) (Bool-cases (pos == p)) (assigned-insert_other l pos ts q ne)
  where
    b : (pos == q) ≡ false
    b = ground arith

    go :
        (ltb pos p ≡ true) ⊎ (ltb pos p ≡ false)
        → ((pos == p) ≡ true) ⊎ ((pos == p) ≡ false)
        → assigned (insert l pos ts) q ≡ assigned l q
        → assigned (insert ((p, t) ∷ l) pos ts) q ≡ assigned ((p, t) ∷ l) q
    go (inl c) d ih = rw (c, b) refl
    go (inr c) (inl d) ih = let e : (p == q) ≡ false = ground arith in rw (c, d, b, e) refl
    go (inr c) (inr d) ih = rw (c, d, ih) refl

-- One timestamp more.
pub record Timed (reader : ProofReader) (pos ts : ℕ) (next : ProofReader) : Type 0 where
  pub ordered : IsOrdered next.assigned_ts
  pub known : assigned next.assigned_ts pos ≡ some ts
  pub kept :
      (q u : ℕ) → assigned reader.assigned_ts q ≡ some u → assigned next.assigned_ts q ≡ some u

pub next-Timed :
    (reader : ProofReader) (queue : List ℕ) (pos ts : ℕ) (next : ProofReader)
    → IsOrdered reader.assigned_ts
    → assigned reader.assigned_ts pos ≡ none
    → next_timestamp reader queue pos ≡ some (ts, next)
    → Timed reader pos ts next
unfolding next_timestamp
next-Timed reader [] pos ts next o n h = absurd (cc h)
next-Timed reader (t ∷ queue) pos ts next o n h = require_then _ _ _ h (λ left rest.
    require_then _ _ _ rest (λ right e.
      build (ap (time_of ts) e) (ap (map_of reader.assigned_ts) e) (
        insert-IsOrdered reader.assigned_ts pos t o
          (fits reader.assigned_ts pos t o n left right))))
  where
    time_of : ℕ → Option (ℕ × ProofReader) → ℕ
    time_of d none = d
    time_of d (some p) = p.0

    map_of : Timestamps → Option (ℕ × ProofReader) → Timestamps
    map_of d none = d
    map_of d (some p) = (p.1).assigned_ts

    build :
        t ≡ ts
        → insert reader.assigned_ts pos t ≡ next.assigned_ts
        → IsOrdered (insert reader.assigned_ts pos t)
        → Timed reader pos ts next
    build e e' ord = record {
      ordered = rw e' at ord;
      known = rw (← e', ← e) (assigned-insert reader.assigned_ts pos t);
      kept = λ q u w.
          ap (λ (l : Timestamps). assigned l q) (sym e')
          ∙ assigned-insert_other reader.assigned_ts pos t q
              (λ same. cc (ap (assigned reader.assigned_ts) same, n, w))
          ∙ w;
    }
