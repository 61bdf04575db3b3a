-- ===== src/Ladder/Plan.antt =====
-- The ladder as one recursion, and that it holds the versions that settle which is the greatest.
use ru_kt.Common.{
  ℕ, zero, suc, ◌+◌, ◌-◌, ◌*◌, ◌/◌, ◌^◌, ◌≤◌, ◌<◌, ◌≡◌, refl, arith, ◌≢◌, ap, ◌∙◌, Bool, true,
  false, List, [], ◌∷◌, ◌++◌, Option, none, some, ltb, ltb→lt, ◌==◌, if◌then◌else◌, inl, inr,
  Bool-cases, All,
}
use ru_kt.Common.Pow.{two_pow_pos, two_pow_mono}
use ru_kt.Common.Pow.{two_pow_succ}
use native.Mathlib.Decide.{dec_lt}
use ru_kt.Ladder.{
  u32_max, power_value, is_last, powers, midpoints, last_two, with_midpoints, base_binary_ladder,
}

abbrev pub search_below : Option ℕ → ℕ → ℕ → List ℕ
search_below none value n = []
search_below (some l) value n = midpoints 33 l value n

-- The powers and, after one above n, the midpoints.
unfoldable pub ladder : ℕ → ℕ → Option ℕ → ℕ → List ℕ
ladder zero len last n = []
ladder (suc f) len last n =
    let value = power_value len in
    let rest = ladder f (len + 1) (some value) n in
    if is_last last value
    then []
    else value
      ∷ (if ltb n value then search_below last value n else if value == u32_max then [] else rest)

with_midpoints-cons :
    (l v : ℕ) (p : List ℕ) (n : ℕ)
    → v ≤ n
    → with_midpoints (l ∷ v ∷ p) n ≡ l ∷ with_midpoints (v ∷ p) n
unfolding with_midpoints last_two
with_midpoints-cons l v [] n h = ground arith
with_midpoints-cons l v (x ∷ p) n h = go (last_two (v ∷ x ∷ p)) refl
  where
    go :
        (o : Option (ℕ × ℕ))
        → last_two (v ∷ x ∷ p) ≡ o
        → with_midpoints (l ∷ v ∷ x ∷ p) n ≡ l ∷ with_midpoints (v ∷ x ∷ p) n
    go none e = rw (e, with_midpoints) refl
    go (some (a, b)) e = rw (e, with_midpoints) (split (ltb n b))
      where
        split :
            (t : Bool)
            → (if t then (l ∷ v ∷ x ∷ p) ++ midpoints 33 a b n else l ∷ v ∷ x ∷ p)
              ≡ l ∷ (if t then (v ∷ x ∷ p) ++ midpoints 33 a b n else v ∷ x ∷ p)
        split true = refl
        split false = refl

with_midpoints-singleton : (v n : ℕ) → with_midpoints (v ∷ []) n ≡ v ∷ []
unfolding with_midpoints last_two
with_midpoints-singleton v n = refl

with_midpoints-above :
    (l v n : ℕ) → n < v → with_midpoints (l ∷ v ∷ []) n ≡ l ∷ v ∷ midpoints 33 l v n
unfolding with_midpoints last_two
with_midpoints-above l v n h = ground arith

-- One round of the first loop, for any rest `p` that comes out as `r`.
with_midpoints_round :
    (l v n : ℕ) (p r : List ℕ)
    → (v ≤ n → with_midpoints (v ∷ p) n ≡ v ∷ r)
    → with_midpoints
        (l ∷ (if l == v then [] else v ∷ (if ltb n v then [] else if v == u32_max then [] else p)))
        n
      ≡ l
        ∷ (if l == v
            then []
            else v ∷ (if ltb n v then midpoints 33 l v n else if v == u32_max then [] else r))
with_midpoints_round l v n p r h = elim (Bool-cases (l == v)) [
  | inl e ↦ rw e (with_midpoints-singleton l n)
  | inr e ↦ elim (Bool-cases (ltb n v)) [
    | inl above ↦ rw (e, above) (with_midpoints-above l v n (ltb→lt n v above))
    | inr below ↦
        let le : v ≤ n = ground arith in
        elim (Bool-cases (v == u32_max)) [
          | inl top ↦
              rw (e, below, top)
                (with_midpoints-cons l v [] n le ∙ ap (◌∷◌ l) (with_midpoints-singleton v n))
          | inr go ↦ rw (e, below, go) (with_midpoints-cons l v p n le ∙ ap (◌∷◌ l) (h le))
        ]
  ]
]

with_midpoints-powers :
    (f len l n : ℕ) → with_midpoints (l ∷ powers f len (some l) n) n ≡ l ∷ ladder f len (some l) n
unfolding powers ladder
with_midpoints-powers zero len l n = with_midpoints-singleton l n
with_midpoints-powers (suc f) len l n =
    with_midpoints_round l (power_value len) n _ _
      (λ h. with_midpoints-powers f (len + 1) (power_value len) n)

powers_start : (f n : ℕ) → powers (suc f) 0 none n ≡ 0 ∷ powers f 1 (some 0) n
unfolding powers power_value
powers_start f n = ground arith

ladder_start : (f n : ℕ) → ladder (suc f) 0 none n ≡ 0 ∷ ladder f 1 (some 0) n
unfolding ladder power_value
ladder_start f n = ground arith

-- The plan of the source, in one recursion.
pub base_binary_ladder-ladder : (n : ℕ) → base_binary_ladder n ≡ 0 ∷ ladder 33 1 (some 0) n
unfolding base_binary_ladder
base_binary_ladder-ladder n = rw (powers_start 33 n) (with_midpoints-powers 33 1 0 n)

-- The three ways of a round of the binary search.
module _ (f lower upper n : ℕ) where
  abbrev middle : ℕ
  middle = lower + (upper - lower) / 2

  pub midpoints_stop : upper ≤ lower + 1 → midpoints (suc f) lower upper n ≡ []
  unfolding midpoints
  midpoints_stop h = ground arith

  pub midpoints_up :
      lower + 1 < upper
      → middle ≤ n
      → midpoints (suc f) lower upper n ≡ middle ∷ midpoints f middle upper n
  unfolding midpoints
  midpoints_up h le = ground arith

  pub midpoints_down :
      lower + 1 < upper
      → n < middle
      → midpoints (suc f) lower upper n ≡ middle ∷ midpoints f lower middle n
  unfolding midpoints
  midpoints_down h lt = ground arith

pub data Way (lower upper n : ℕ) : Type 0 where
  stop : upper ≤ lower + 1 → Way lower upper n
  up : lower + 1 < upper → lower + (upper - lower) / 2 ≤ n → Way lower upper n
  down : lower + 1 < upper → n < lower + (upper - lower) / 2 → Way lower upper n

pub way : (lower upper n : ℕ) → Way lower upper n
way lower upper n = elim (dec_lt (lower + 1) upper) [
  | no h ↦ stop (omega arith)
  | yes h ↦ elim (dec_lt n (lower + (upper - lower) / 2)) [
    | yes below ↦ down h below
    | no above ↦ up h (omega arith)
  ]
]

-- Every midpoint lies strictly between the bounds.
pub All-imp : {P Q : ℕ → Type 0} → ((v : ℕ) → P v → Q v) → (l : List ℕ) → All P l → All Q l
All-imp g [] a = tt
All-imp g (v ∷ l) a = (g v a.0, All-imp g l a.1)

pub midpoints_between :
    (f lower upper n : ℕ) → All (λ v. (lower < v) × (v < upper)) (midpoints f lower upper n)
midpoints_between zero lower upper n = unfold midpoints in tt
midpoints_between (suc f) lower upper n = elim (way lower upper n) [
  | stop near ↦ rw (midpoints_stop f lower upper n near) tt
  | up far le ↦ rw (midpoints_up f lower upper n far le) (
    (omega arith, omega arith),
    All-imp (λ v b. (omega arith, omega arith)) _ (midpoints_between f _ upper n),
  )
  | down far lt ↦ rw (midpoints_down f lower upper n far lt) (
    (omega arith, omega arith),
    All-imp (λ v b. (omega arith, omega arith)) _ (midpoints_between f lower _ n),
  )
]

pub power_value_lem : (len : ℕ) → len ≤ 32 → power_value len + 1 ≡ 2 ^ len
unfolding power_value
power_value_lem len h = ground (arith, two_pow_mono len 32 h, two_pow_pos len)

-- The three ways of a round of the first loop.
module _ (f len l n : ℕ) where
  pub ladder_above :
      l ≢ power_value len
      → n < power_value len
      → ladder (suc f) len (some l) n ≡ power_value len ∷ midpoints 33 l (power_value len) n
  unfolding ladder
  ladder_above ne h = ground arith

  pub ladder_top :
      l ≢ power_value len
      → power_value len ≤ n
      → power_value len ≡ u32_max
      → ladder (suc f) len (some l) n ≡ power_value len ∷ []
  unfolding ladder
  ladder_top ne h e = ground arith

  pub ladder_more :
      l ≢ power_value len
      → power_value len ≤ n
      → power_value len ≢ u32_max
      → ladder (suc f) len (some l) n
        ≡ power_value len ∷ ladder f (len + 1) (some (power_value len)) n
  unfolding ladder
  ladder_more ne h e = ground arith

-- Where the first loop stands: `l` is the power before, and n is not below it.
pub record Stand (f len l n : ℕ) : Type 0 where
  pub enough : 32 ≤ f + len
  pub power : l + 1 ≡ 2 ^ len
  pub low : len < 32
  pub top : n ≤ u32_max
  pub reached : l ≤ n

-- What the value of the next round is, and where the loop stands after it.
pub record Next (len l : ℕ) : Type 0 where
  pub double : power_value (len + 1) + 1 ≡ 2 * (l + 1)
  pub power : power_value (len + 1) + 1 ≡ 2 ^ (len + 1)
  pub fresh : l ≢ power_value (len + 1)
  pub width : power_value (len + 1) - l ≤ 2 ^ 31

pub next : (f len l n : ℕ) → Stand f len l n → Next len l
next f len l n s =
    let low = s.low in
    let power = s.power in
    let v = power_value_lem (len + 1) (omega arith) in
    let grow = two_pow_succ len in
    let wide = two_pow_mono len 31 (omega arith) in
    record { double = omega arith; power = v; fresh = omega arith; width = omega arith }

-- Past the last round only the greatest u32 is left.
pub at_top : (f len l n : ℕ) → Stand f len l n → power_value (len + 1) ≢ u32_max → len + 1 < 32
at_top f len l n s ne = elim (dec_lt (len + 1) 32) [
  | yes h ↦ h
  | no h ↦
      let low = s.low in
      let e : len ≡ 31 = omega arith in
      absurd (ne (ap (λ (k : ℕ). power_value (k + 1)) e ∙ unfold power_value in refl))
]
