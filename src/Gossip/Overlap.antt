-- ===== src/Gossip/Overlap.antt =====
-- When two clients' lists of roots are taken to be of one log.
use ru_kt.Common.{
  ℕ, zero, suc, ◌+◌, ◌-◌, ◌≤◌, ◌<◌, ◌≡◌, ◌↔◌, refl, arith, ◌⊎◌, inl, inr, true, Bool-cases, List,
  [], ◌∷◌, ◌==◌, ==_iff, length, take, drop, same_bytes_iff, subst,
}
use ru_kt.Tls.{Bytes}
use ru_kt.Gossip.{same_roots, overlap_at, overlap_loop, compare_roots}

same_roots_iff : (a b : List Bytes) → (same_roots a b ≡ true) ↔ (a ≡ b)
unfolding same_roots
same_roots_iff [] [] = (λ h. refl, λ h. refl)
same_roots_iff [] (r ∷ rs) = ground arith
same_roots_iff (r ∷ rs) [] = ground arith
same_roots_iff (r ∷ rs) (s ∷ ss) = ground (arith, same_bytes_iff r s, same_roots_iff rs ss)

-- One list's older roots are the other's newer ones, at a shift.
pub Overlaps : List Bytes → List Bytes → ℕ → Type 0
Overlaps a b x = (take (length a - x) a ≡ drop x b) ⊎ (take (length a - x) b ≡ drop x a)

overlap_at_iff : (a b : List Bytes) (x : ℕ) → (overlap_at a b x ≡ true) ↔ Overlaps a b x
unfolding Overlaps
overlap_at_iff a b x = ground (
  arith,
  same_roots_iff (take (length a - x) a) (drop x b),
  same_roots_iff (take (length a - x) b) (drop x a),
)

Between : List Bytes → List Bytes → ℕ → ℕ → Type 0
Between a b k x = (y : ℕ) × (x ≤ y) × (y < x + k) × Overlaps a b y

overlap_loop_sound : (a b : List Bytes) (k x : ℕ) → overlap_loop a b k x ≡ true → Between a b k x
unfolding overlap_loop Between
overlap_loop_sound a b zero x h = absurd (cc h)
overlap_loop_sound a b (suc k) x h = elim (Bool-cases (overlap_at a b x)) [
  | inl e ↦ (x, omega arith, omega arith, (overlap_at_iff a b x).0 e)
  | inr e ↦
      let (y, l, u, o) = overlap_loop_sound a b k (suc x) (rw e at h) in
      (y, omega arith, omega arith, o)
]

overlap_loop_complete :
    (a b : List Bytes) (k x y : ℕ)
    → x ≤ y
    → y < x + k
    → Overlaps a b y
    → overlap_loop a b k x ≡ true
unfolding overlap_loop
overlap_loop_complete a b zero x y l u o = absurd (omega arith)
overlap_loop_complete a b (suc k) x y l u o = elim (Bool-cases (x == y)) [
  | inl e ↦
      let same : y ≡ x = ground arith in
      rw ((overlap_at_iff a b x).1 (subst (Overlaps a b) same o)) refl
  | inr e ↦ elim (Bool-cases (overlap_at a b x)) [
    | inl f ↦ rw f refl
    | inr f ↦
        let further : suc x ≤ y = ground arith in
        rw f (overlap_loop_complete a b k (suc x) y further (omega arith) o)
  ]
]

-- Two lists of roots, oldest first, are accepted exactly if they are equally long and at some shift
-- below their length, so that at least one root is shared, the newer roots of the one are the older
-- roots of the other.
pub compare_roots_iff :
    (a b : List Bytes)
    → (compare_roots a b ≡ true)
      ↔ ((length a ≡ length b) × ((x : ℕ) × (x < length a) × Overlaps a b x))
unfolding compare_roots Between
compare_roots_iff a b = (
  λ h. elim (Bool-cases (length a == length b)) [
    | inl e ↦
        let (x, l, u, o) = overlap_loop_sound a b (length a) 0 (rw e at h) in
        ((==_iff (length a) (length b)).0 e, (x, omega arith, o))
    | inr e ↦ absurd (cc (rw e at h))
  ],
  λ (e, (x, u, o)).
      let yes = (==_iff (length a) (length b)).1 e in
      rw yes (overlap_loop_complete a b (length a) 0 x (omega arith) (omega arith) o),
)
