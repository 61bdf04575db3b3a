-- ===== src/LogMath/Ibst.antt =====
-- The path from an entry to the root of the implicit binary search tree.
use ru_kt.Common.{
  In-reverse, order, ℕ, zero, suc, ◌+◌, ◌-◌, ◌*◌, ◌^◌, ◌≤◌, ◌<◌, ◌≡◌, arith, ap, sym, ◌∙◌, List, [],
  ◌∷◌, inl, inr, In, ◌⊎◌, ◌↔◌, ◌≢◌,
}
use ru_kt.Common.Pow.{two_pow_pos, two_pow_mono, lt_of_two_pow_lt}
use ru_kt.LogMath.{shl, level, log2, ibst_path_loop, ibst_direct_path}
use ru_kt.LogMath.Node.{node, node_closed, level-node}
use ru_kt.LogMath.Family.{is_node, IsNode}
use ru_kt.LogMath.Span.{gap, Round, round}

-- `t` lies in the subtree below the entry `a` of the search tree.
abbrev pub Covers : ℕ → ℕ → Type 0
Covers a t = (a + 1 ≤ t + 2 ^ level a) × (t + 1 ≤ a + 2 ^ level a)

place : (a k m : ℕ) → IsNode a k m → (a + 1 ≡ 2 ^ k * (2 * m + 1)) × (2 ^ level a ≡ 2 ^ k)
place a k m i =
    let low = i.low in
    (
      omega (arith, i.same, node_closed k m),
      ap (λ (x : ℕ). 2 ^ level x) i.same ∙ ap (λ (x : ℕ). 2 ^ x) (level-node k m (omega arith)),
    )

-- `a` is an entry of the range, other than the target, whose subtree holds the target.
abbrev Above : ℕ → ℕ → ℕ → ℕ → Type 0
Above t n o a = (o ≤ a) × (a < o + n) × (a ≢ t) × Covers a t

abbrev Describes : ℕ → ℕ → ℕ → List ℕ → Type 0
Describes t n o path = (a : ℕ) → In a path ↔ Above t n o a

-- The place of the root, and how far it and the other entries reach.
module _ {n b o : ℕ} (h : b ≤ 62) (r : Round n b o) where
  open r use {l, j}

  abbrev top : ℕ
  top = o + (shl 1 (log2 n) - 1)

  top_suc : top + 1 ≡ 2 ^ l * (2 * j + 1)
  top_suc = omega (arith, r.size, r.offset, two_pow_pos l)

  level-top : level top ≡ l
  level-top =
      let e : top ≡ node l j = omega (arith, top_suc, node_closed l j) in
      let low = r.falls in rw e (level-node l j (omega arith))

  top-Covers : (t : ℕ) → o ≤ t → t < o + n → Covers top t
  top-Covers t lo hi =
      rw level-top (omega (arith, top_suc, r.offset, r.rest), omega (arith, top_suc, r.fits))

  -- No entry on one side of the root covers an entry on the other side.
  left_misses : (a t k m : ℕ) → IsNode a k m → o ≤ a → a < top → top ≤ t → ¬ (Covers a t)
  left_misses a t k m i lo hi beyond c =
      let at = place a k m i in
      let near = c.1 in
      let (_, far) =
        gap k l (2 * m + 1) (2 * j) (omega (arith, r.offset)) (omega (arith, top_suc)) in
      omega (arith, top_suc)

  right_misses : (a t k m : ℕ) → IsNode a k m → a < o + n → top < a → t ≤ top → ¬ (Covers a t)
  right_misses a t k m i lo hi beyond c =
      let at = place a k m i in
      let near = c.0 in
      let (far, _) =
        gap k l (2 * m + 1) (2 * j + 1) (omega (arith, top_suc))
          (omega (arith, r.offset, r.rest)) in
      omega (arith, top_suc)

  -- What the path holds, from what the rest of it holds on the side of the target.
  module _ (t : ℕ) (big : o + n < 2 ^ 62) (lo : o ≤ t) (hi : t < o + n) where
    top-Above : t ≢ top → Above t n o top
    top-Above ne =
        (omega arith, omega (arith, r.fits, r.size), (λ e. ne (sym e)), top-Covers t lo hi)

    describe_left :
        (path : List ℕ)
        → t < top
        → Describes t (shl 1 (log2 n) - 1) o path
        → Describes t n o (top ∷ path)
    describe_left path lt d a = (λ m. sound m, λ v. complete v (order a top))
      where
        sound : In a (top ∷ path) → Above t n o a
        sound (inl e) = rw e (top-Above (omega arith))
        sound (inr m) =
            let (la, ha, ne, c) = (d a).0 m in (la, omega (arith, r.fits, r.size), ne, c)

        complete : Above t n o a → (a < top) ⊎ ((a ≡ top) ⊎ (top < a)) → In a (top ∷ path)
        complete (la, ha, ne, c) (inl l) = inr ((d a).1 (la, l, ne, c))
        complete v (inr (inl e)) = inl e
        complete (la, ha, ne, c) (inr (inr g)) =
            let (k, m, i) = is_node a (omega arith) in
            absurd (right_misses a t k m i ha g (omega arith) c)

    describe_right :
        (path : List ℕ)
        → top < t
        → Describes t (n - (shl 1 (log2 n) - 1) - 1) (top + 1) path
        → Describes t n o (top ∷ path)
    describe_right path gt d a = (λ m. sound m, λ v. complete v (order a top))
      where
        sound : In a (top ∷ path) → Above t n o a
        sound (inl e) = rw e (top-Above (omega arith))
        sound (inr m) =
            let (la, ha, ne, c) = (d a).0 m in (omega arith, omega (arith, r.fits, r.size), ne, c)

        complete : Above t n o a → (a < top) ⊎ ((a ≡ top) ⊎ (top < a)) → In a (top ∷ path)
        complete (la, ha, ne, c) (inl l) =
            let (k, m, i) = is_node a (omega arith) in
            absurd (left_misses a t k m i la l (omega arith) c)
        complete v (inr (inl e)) = inl e
        complete (la, ha, ne, c) (inr (inr g)) =
            inr ((d a).1 (omega arith, omega (arith, r.fits, r.size), ne, c))

    -- At the target the path ends, and no other entry of the range covers it.
    describe_here : t ≡ top → Describes t n o []
    describe_here e a = (λ m. absurd m, λ v. none_covers v (order a top))
      where
        none_covers : Above t n o a → (a < top) ⊎ ((a ≡ top) ⊎ (top < a)) → ⊥
        none_covers (la, ha, ne, c) (inl l) =
            let (k, m, i) = is_node a (omega arith) in left_misses a t k m i la l (omega arith) c
        none_covers (la, ha, ne, c) (inr (inl same)) = ne (same ∙ sym e)
        none_covers (la, ha, ne, c) (inr (inr g)) =
            let (k, m, i) = is_node a (omega arith) in right_misses a t k m i ha g (omega arith) c

-- The three ways of a round.
module _ (f n t o : ℕ) where
  abbrev mid : ℕ
  mid = o + (shl 1 (log2 (suc n)) - 1)

  path_here : t ≡ mid → ibst_path_loop (suc f) t (suc n) o ≡ []
  unfolding ibst_path_loop
  path_here e = ground arith

  path_left :
      t < mid
      → ibst_path_loop (suc f) t (suc n) o ≡ mid ∷ ibst_path_loop f t (shl 1 (log2 (suc n)) - 1) o
  unfolding ibst_path_loop
  path_left e = ground arith

  path_right :
      mid < t
      → ibst_path_loop (suc f) t (suc n) o
        ≡ mid ∷ ibst_path_loop f t (suc n - (shl 1 (log2 (suc n)) - 1) - 1) (mid + 1)
  unfolding ibst_path_loop
  path_right e = ground arith

-- `f` rounds are enough for fewer than 2 ^ f entries.
abbrev Suffices : ℕ → Type 0
Suffices f =
    (n b o q t : ℕ)
    → n < 2 ^ f
    → n < 2 ^ b
    → b ≤ 62
    → o ≡ 2 ^ b * q
    → o + n < 2 ^ 62
    → o ≤ t
    → t < o + n
    → Describes t n o (ibst_path_loop f t n o)

describe : (f : ℕ) → Suffices f
describe zero n b o q t hf hb h eo big lo hi = absurd (omega arith)
describe (suc f) zero b o q t hf hb h eo big lo hi = absurd (omega arith)
describe (suc f) (suc n) b o q t hf hb h eo big lo hi = go (describe f) (order t x)
  where
    r : Round (suc n) b o
    r = round (suc n) b o q hb h eo (omega arith)

    left_size : ℕ
    left_size = shl 1 (log2 (suc n)) - 1

    x : ℕ
    x = o + left_size

    fuel : 2 ^ r.l ≤ 2 ^ f
    fuel =
        let less = lt_of_two_pow_lt r.l (suc f) (omega (arith, r.fits)) in
        two_pow_mono r.l f (omega arith)

    go :
        Suffices f
        → (t < x) ⊎ ((t ≡ x) ⊎ (x < t))
        → Describes t (suc n) o (ibst_path_loop (suc f) t (suc n) o)
    go rec (inl left) = rw (path_left f n t o left) (
        describe_left h r t big lo hi _ left (
          rec left_size r.l o (2 * r.j) t (omega (arith, r.size, fuel, two_pow_pos r.l))
            (omega (arith, r.size, two_pow_pos r.l)) (omega (arith, r.falls)) r.offset
            (omega (arith, r.size, r.fits)) lo left))
    go rec (inr (inl here)) = rw (path_here f n t o here) (describe_here h r t big lo hi here)
    go rec (inr (inr right)) = rw (path_right f n t o right) (
        describe_right h r t big lo hi _ right (
          rec (suc n - left_size - 1) r.l (x + 1) (2 * r.j + 1) t
            (omega (arith, r.size, fuel, two_pow_pos r.l, r.rest))
            (omega (arith, r.size, two_pow_pos r.l, r.rest)) (omega (arith, r.falls)) (top_suc h r)
            (omega (arith, r.size, r.fits)) (omega arith) (omega (arith, r.size, r.fits))))

-- In a log of n entries the path of entry t holds exactly those other entries of the log whose
-- subtree, by their level, holds t.
pub In-ibst_direct_path :
    (t n a : ℕ)
    → n < 2 ^ 62
    → t < n
    → In a (ibst_direct_path t n) ↔ ((a < n) × (a ≢ t) × Covers a t)
unfolding ibst_direct_path
In-ibst_direct_path t n a h lt =
    let d =
      describe 65 n 62 0 0 t (omega arith) h (omega arith) (omega arith) (omega arith) (omega arith)
        (omega arith) a in
    let back = In-reverse a (ibst_path_loop 65 t n 0) in
    (
      λ m. let v = d.0 (back.0 m) in (omega (arith, v.1), v.2, v.3),
      λ v. back.1 (d.1 (omega arith, omega (arith, v.0), v.1, v.2)),
    )
