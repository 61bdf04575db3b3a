-- ===== src/Ladder/Reach.antt =====
-- The ladder of n holds n and, below the greatest u32, n + 1: no other version answers its lookups
-- in the same way.
use ru_kt.Common.{
  ℕ, zero, suc, ◌+◌, ◌-◌, ◌/◌, ◌^◌, ◌≤◌, ◌<◌, ◌≡◌, arith, sym, subst, List, [], ◌∷◌, some, leb, In,
  inl, inr, All,
}
use ru_kt.Common.Pow.{two_pow_suc}
use native.Mathlib.Decide.{dec_lt, ℕ_discrete}
use ru_kt.Ladder.{u32_max, power_value, midpoints, base_binary_ladder}
use ru_kt.Ladder.Plan.{
  ladder, base_binary_ladder-ladder, midpoints_up, midpoints_down, stop, up, down, way,
  ladder_above, ladder_top, ladder_more, Stand, Next, next, at_top,
}

In-past : (a x y : ℕ) (l : List ℕ) → In a (x ∷ l) → In a (x ∷ y ∷ l)
In-past a x y l (inl e) = inl e
In-past a x y l (inr m) = inr (inr m)

-- The midpoints between lower ≤ n < upper reach n and n + 1, unless the bounds are those.
In-midpoints :
    (f lower upper n : ℕ)
    → upper - lower ≤ 2 ^ f
    → lower ≤ n
    → n < upper
    → In n (lower ∷ midpoints f lower upper n) × In (n + 1) (upper ∷ midpoints f lower upper n)
In-midpoints zero lower upper n h lo hi = (inl (omega arith), inl (omega arith))
In-midpoints (suc f) lower upper n h lo hi = elim (way lower upper n) [
  | stop near ↦ (inl (omega arith), inl (omega arith))
  | up far le ↦
      let m : ℕ = lower + (upper - lower) / 2 in
      let (a, b) = In-midpoints f m upper n (omega (arith, two_pow_suc f)) le hi in
      rw (midpoints_up f lower upper n far le) (inr a, In-past (n + 1) upper m _ b)
  | down far lt ↦
      let m : ℕ = lower + (upper - lower) / 2 in
      let (a, b) = In-midpoints f lower m n (omega (arith, two_pow_suc f)) lo lt in
      rw (midpoints_down f lower upper n far lt) (In-past n lower m _ a, inr b)
]

abbrev Reached : ℕ → ℕ → ℕ → ℕ → Type 0
Reached f len l n =
    In n (l ∷ ladder f len (some l) n) × (n < u32_max → In (n + 1) (ladder f len (some l) n))

In_ladder_round :
    (f len l n : ℕ)
    → Stand f len l n
    → (power_value (len + 1) ≤ n → len + 1 < 32 → Reached f (len + 1 + 1) (power_value (len + 1)) n)
    → Reached (suc f) (len + 1) l n
In_ladder_round f len l n s rec = elim (dec_lt n v) [
  | yes above ↦
      let (a, b) = In-midpoints 33 l v n (omega (arith, x.width)) s.reached above in
      rw (ladder_above f (len + 1) l n x.fresh above) (In-past n l v _ a, λ _. b)
  | no below ↦ elim (ℕ_discrete v u32_max) [
    | yes top ↦
        let most = s.top in
        rw (ladder_top f (len + 1) l n x.fresh (omega arith) top)
          (inr (inl (omega arith)), λ less. absurd (omega arith))
    | no ne ↦
        let (a, b) = rec (omega arith) (at_top f len l n s ne) in
        rw (ladder_more f (len + 1) l n x.fresh (omega arith) ne) (inr a, λ less. inr (b less))
  ]
]
  where
    x : Next len l
    x = next f len l n s

    v : ℕ
    v = power_value (len + 1)

In_ladder : (f len l n : ℕ) → Stand f len l n → Reached (suc f) (len + 1) l n
In_ladder zero len l n s =
    let enough = s.enough in In_ladder_round zero len l n s (λ le more. absurd (omega arith))
In_ladder (suc f) len l n s = In_ladder_round (suc f) len l n s (λ le more.
    In_ladder f (len + 1) (power_value (len + 1)) n (record {
      enough = omega (arith, s.enough);
      power = (next (suc f) len l n s).power;
      low = more;
      top = s.top;
      reached = le;
    }))

-- The first loop begins with the lookup of version 0.
pub start : (n : ℕ) → n ≤ u32_max → Stand 32 0 0 n
start n h = record {
  enough = omega arith;
  power = omega arith;
  low = omega arith;
  top = h;
  reached = omega arith;
}

In-base_binary_ladder :
    (n : ℕ)
    → n ≤ u32_max
    → In n (base_binary_ladder n) × (n < u32_max → In (n + 1) (base_binary_ladder n))
In-base_binary_ladder n h =
    let (a, b) = In_ladder 32 0 0 n (start n h) in
    rw (base_binary_ladder-ladder n) (a, λ less. inr (b less))

All-In : (P : ℕ → Type 0) (v : ℕ) (l : List ℕ) → All P l → In v l → P v
All-In P v (x ∷ l) a (inl e) = subst P (sym e) a.0
All-In P v (x ∷ l) a (inr m) = All-In P v l a.1 m
All-In P v [] a m = absurd m

-- If m answers every lookup of the ladder of n as n does, then m is n.
pub greatest_unique :
    (n m : ℕ)
    → n ≤ u32_max
    → m ≤ u32_max
    → All (λ v. leb v m ≡ leb v n) (base_binary_ladder n)
    → m ≡ n
greatest_unique n m hn hm a = elim (dec_lt n u32_max) [
  | yes less ↦
      let (at, past) = In-base_binary_ladder n hn in
      let p = All-In _ n _ a at in let q = All-In _ (n + 1) _ a (past less) in ground arith
  | no most ↦
      let (at, past) = In-base_binary_ladder n hn in let p = All-In _ n _ a at in ground arith
]
