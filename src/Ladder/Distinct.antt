-- ===== src/Ladder/Distinct.antt =====
-- No version is looked up twice, and every version is a u32.
use ru_kt.Common.{ℕ, zero, suc, ◌+◌, ◌≤◌, ◌<◌, ◌≢◌, arith, List, [], ◌∷◌, some, All}
use native.Mathlib.Decide.{dec_lt, ℕ_discrete}
use ru_kt.Ladder.{u32_max, power_value, midpoints, base_binary_ladder}
use ru_kt.Ladder.Plan.{
  ladder, base_binary_ladder-ladder, midpoints_stop, midpoints_up, midpoints_down, stop, up, down,
  way, ladder_above, ladder_top, ladder_more, Stand, Next, next, at_top, midpoints_between, All-imp,
}
use ru_kt.Ladder.Reach.{start}

abbrev pub Distinct : List ℕ → Type 0
Distinct [] = Unit
Distinct (v ∷ l) = All (λ w. v ≢ w) l × Distinct l

midpoints-Distinct : (f lower upper n : ℕ) → Distinct (midpoints f lower upper n)
midpoints-Distinct zero lower upper n = unfold midpoints in tt
midpoints-Distinct (suc f) lower upper n = elim (way lower upper n) [
  | stop near ↦ rw (midpoints_stop f lower upper n near) tt
  | up far le ↦ rw (midpoints_up f lower upper n far le) (
    All-imp (λ v b. omega arith) _ (midpoints_between f _ upper n),
    midpoints-Distinct f _ upper n,
  )
  | down far lt ↦ rw (midpoints_down f lower upper n far lt) (
    All-imp (λ v b. omega arith) _ (midpoints_between f lower _ n),
    midpoints-Distinct f lower _ n,
  )
]

-- Values of the list are distinct u32 above l.
abbrev Fresh : ℕ → List ℕ → Type 0
Fresh l out = Distinct out × All (λ v. (l < v) × (v ≤ u32_max)) out

power_value-le : (len : ℕ) → power_value len ≤ u32_max
unfolding power_value
power_value-le len = ground arith

ladder_round-Fresh :
    (f len l n : ℕ)
    → Stand f len l n
    → (power_value (len + 1) ≤ n
        → len + 1 < 32
        → Fresh (power_value (len + 1)) (ladder f (len + 1 + 1) (some (power_value (len + 1))) n))
    → Fresh l (ladder (suc f) (len + 1) (some l) n)
ladder_round-Fresh f len l n s rec = elim (dec_lt n v) [
  | yes above ↦ rw (ladder_above f (len + 1) l n x.fresh above) (
    (All-imp (λ w b. omega arith) _ between, midpoints-Distinct 33 l v n),
    (
      (omega (arith, x.double), power_value-le (len + 1)),
      All-imp (λ w b. (b.0, omega (arith, power_value-le (len + 1)))) _ between,
    ),
  )
  | no below ↦ elim (ℕ_discrete v u32_max) [
    | yes top ↦
        rw (ladder_top f (len + 1) l n x.fresh (omega arith) top)
          ((tt, tt), ((omega (arith, x.double), power_value-le (len + 1)), tt))
    | no ne ↦
        let (d, a) = rec (omega arith) (at_top f len l n s ne) in
        rw (ladder_more f (len + 1) l n x.fresh (omega arith) ne) (
          (All-imp (λ w b. omega arith) _ a, d),
          (
            (omega (arith, x.double), power_value-le (len + 1)),
            All-imp (λ w b. (omega (arith, x.double), b.1)) _ a,
          ),
        )
  ]
]
  where
    x : Next len l
    x = next f len l n s

    v : ℕ
    v = power_value (len + 1)

    between : All (λ w. (l < w) × (w < v)) (midpoints 33 l v n)
    between = midpoints_between 33 l v n

ladder-Fresh : (f len l n : ℕ) → Stand f len l n → Fresh l (ladder (suc f) (len + 1) (some l) n)
ladder-Fresh zero len l n s =
    let enough = s.enough in ladder_round-Fresh zero len l n s (λ le more. absurd (omega arith))
ladder-Fresh (suc f) len l n s = ladder_round-Fresh (suc f) len l n s (λ le more.
    ladder-Fresh f (len + 1) (power_value (len + 1)) n (record {
      enough = omega (arith, s.enough);
      power = (next (suc f) len l n s).power;
      low = more;
      top = s.top;
      reached = le;
    }))

-- The ladder of a u32 lists distinct u32 values.
pub base_binary_ladder-Distinct :
    (n : ℕ)
    → n ≤ u32_max
    → Distinct (base_binary_ladder n) × All (λ v. v ≤ u32_max) (base_binary_ladder n)
base_binary_ladder-Distinct n h =
    let (d, a) = ladder-Fresh 32 0 0 n (start n h) in
    rw (base_binary_ladder-ladder n)
      ((All-imp (λ w b. omega arith) _ a, d), (omega arith, All-imp (λ w b. b.1) _ a))
