-- ===== src/Prefix/Fold.antt =====
-- The values on the path of an index: `rollup` split at a level, what it depends on, and the client's
-- `climb` as one of them.
use ru_kt.Common.{
  ℕ, zero, suc, ◌/◌, ◌%◌, ◌≤◌, ◌<◌, ◌≡◌, ◌≢◌, refl, arith, List, [], ◌∷◌, ◌++◌, Option, none, some,
  length, length-append, get_elem?, drop,
}
use ru_kt.Tls.{Bytes}
use ru_kt.Prefix.{bit_in, get_bit, sibling_at, beside, rollup_loop}
use ru_kt.Prefix.Verify.{climb}
use native.Mathlib.Decide.{dec_lt}

-- The indices have the same bits above a level.
abbrev pub Agree : ℕ → Bytes → Bytes → Type 0
Agree d x y = (i : ℕ) → i < d → get_bit x i ≡ get_bit y i

pub get_bit_bound : (x : Bytes) (i : ℕ) → get_bit x i < 2
unfolding get_bit
get_bit_bound x i = go (get_elem? x (i / 8))
  where
    go : (o : Option ℕ) → bit_in o (i % 8) < 2
    go none = omega arith
    go (some b) = omega arith

module _ (hash : Bytes → Bytes) where
  pub beside_same :
      (x y : Bytes) (i : ℕ) (s a : Bytes)
      → get_bit x i ≡ get_bit y i
      → beside hash x i s a ≡ beside hash y i s a
  unfolding beside
  beside_same x y i s a e = rw e refl

  -- Where the bits differ, the siblings change sides.
  pub beside_swap :
      (x y : Bytes) (i : ℕ) (s a : Bytes)
      → get_bit x i ≢ get_bit y i
      → beside hash x i s a ≡ beside hash y i a s
  unfolding beside
  beside_swap x y i s a e = let bx = get_bit_bound x i in let by = get_bit_bound y i in ground arith

  pub rollup_loop_stop :
      (x : Bytes) (l : List Bytes) (c level : ℕ) (a : Bytes)
      → c ≤ level
      → rollup_loop hash x l c level a ≡ a
  unfolding rollup_loop
  rollup_loop_stop x l zero level a h = refl
  rollup_loop_stop x l (suc c) level a h = ground arith

  pub rollup_loop_round :
      (x : Bytes) (l : List Bytes) (c level : ℕ) (a : Bytes)
      → level ≤ c
      → rollup_loop hash x l (suc c) level a
        ≡ rollup_loop hash x l c level (beside hash x c (sibling_at l c) a)
  unfolding rollup_loop
  rollup_loop_round x l c level a h = ground arith

  -- A rollup to a level goes on to a level above it.
  pub rollup_loop_split :
      (x : Bytes) (l : List Bytes) (c m level : ℕ) (a : Bytes)
      → level ≤ m
      → m ≤ c
      → rollup_loop hash x l c level a ≡ rollup_loop hash x l m level (rollup_loop hash x l c m a)
  rollup_loop_split x l zero zero level a h h' =
      rw (rollup_loop_stop x l zero zero a (omega arith)) refl
  rollup_loop_split x l zero (suc m) level a h h' = absurd (omega arith)
  rollup_loop_split x l (suc c) m level a h h' = elim (dec_lt c m) [
    | yes at ↦
        let e : m ≡ suc c = omega arith in
        rw (rollup_loop_stop x l (suc c) m a (omega arith), e) refl
    | no below ↦
        rw
          (rollup_loop_round x l c level a (omega arith), rollup_loop_round x l c m a (omega arith))
          (rollup_loop_split x l c m level (beside hash x c (sibling_at l c) a) h (omega arith))
  ]

  -- A rollup depends on the bits and siblings of the levels that it passes.
  pub rollup_loop_same :
      (x y : Bytes) (l k : List Bytes) (c level : ℕ) (a : Bytes)
      → ((i : ℕ) → level ≤ i → i < c → get_bit x i ≡ get_bit y i)
      → ((i : ℕ) → level ≤ i → i < c → sibling_at l i ≡ sibling_at k i)
      → rollup_loop hash x l c level a ≡ rollup_loop hash y k c level a
  unfolding rollup_loop
  rollup_loop_same x y l k zero level a hb hs = refl
  rollup_loop_same x y l k (suc c) level a hb hs = elim (dec_lt c level) [
    | yes lt ↦
        rw
          (
            rollup_loop_stop x l (suc c) level a (omega arith),
            rollup_loop_stop y k (suc c) level a (omega arith),
          )
          refl
    | no ge ↦
        rw
          (
            rollup_loop_round x l c level a (omega arith),
            rollup_loop_round y k c level a (omega arith),
            hs c (omega arith) (omega arith),
            beside_same x y c (sibling_at k c) a (hb c (omega arith) (omega arith)),
          )
          (rollup_loop_same x y l k c level (beside hash y c (sibling_at k c) a)
            (λ i h h'. hb i h (omega arith)) (λ i h h'. hs i h (omega arith)))
  ]

  pub climb-rollup_loop :
      (x : Bytes) (l : List Bytes) (c : ℕ) (a : Bytes)
      → climb hash x l c a ≡ rollup_loop hash x l c 0 a
  unfolding climb
  climb-rollup_loop x l zero a = rw (rollup_loop_stop x l zero 0 a (omega arith)) refl
  climb-rollup_loop x l (suc c) a =
      rw (rollup_loop_round x l c 0 a (omega arith))
        (climb-rollup_loop x l c (beside hash x c (sibling_at l c) a))

module _ {ℓ} {A : Type ℓ} where
  pub get_elem?-append_low :
      (xs ys : List A) (i : ℕ) → i < length xs → get_elem? (xs ++ ys) i ≡ get_elem? xs i
  get_elem?-append_low [] ys i h = absurd (omega arith)
  get_elem?-append_low (x ∷ xs) ys zero h = refl
  get_elem?-append_low (x ∷ xs) ys (suc i) h = get_elem?-append_low xs ys i (omega arith)

  pub get_elem?-append_at : (xs : List A) (y : A) → get_elem? (xs ++ (y ∷ [])) (length xs) ≡ some y
  get_elem?-append_at [] y = refl
  get_elem?-append_at (x ∷ xs) y = get_elem?-append_at xs y

  pub get_elem?-past : (xs : List A) (i : ℕ) → length xs ≤ i → get_elem? xs i ≡ none
  get_elem?-past [] i h = refl
  get_elem?-past (x ∷ xs) zero h = absurd (omega arith)
  get_elem?-past (x ∷ xs) (suc i) h = get_elem?-past xs i (omega arith)

  pub get_elem?-none : (xs : List A) (i : ℕ) → get_elem? xs i ≡ none → length xs ≤ i
  get_elem?-none [] i h = omega arith
  get_elem?-none (x ∷ xs) zero h = cc h
  get_elem?-none (x ∷ xs) (suc i) h = let r = get_elem?-none xs i h in omega arith

  pub get_elem?-some : (xs : List A) (i : ℕ) (v : A) → get_elem? xs i ≡ some v → i < length xs
  get_elem?-some [] i v h = cc h
  get_elem?-some (x ∷ xs) zero v h = omega arith
  get_elem?-some (x ∷ xs) (suc i) v h = let r = get_elem?-some xs i v h in omega arith

  -- Past its first part, a list reads as what follows in another that is as long there.
  pub get_elem?-append_drop :
      (xs ys : List A) (i : ℕ)
      → length xs ≤ i
      → get_elem? (xs ++ drop (length xs) ys) i ≡ get_elem? ys i
  get_elem?-append_drop [] ys i h = refl
  get_elem?-append_drop (x ∷ xs) [] zero h = absurd (omega arith)
  get_elem?-append_drop (x ∷ xs) [] (suc i) h =
      get_elem?-past (xs ++ []) i (omega (arith, length-append xs []))
  get_elem?-append_drop (x ∷ xs) (y ∷ ys) zero h = absurd (omega arith)
  get_elem?-append_drop (x ∷ xs) (y ∷ ys) (suc i) h = get_elem?-append_drop xs ys i (omega arith)
