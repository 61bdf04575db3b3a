-- ===== src/Ladder/Runs.antt =====
-- Concrete ladders, and the theorems at concrete inputs.
use ru_kt.Common.{ℕ, ◌≤◌, ◌≡◌, refl, arith, List, [], ◌∷◌, All, map, some, leb, ◌==◌, if◌then◌else◌}
use ru_kt.Ladder.{
  u32_max, power_value, powers, midpoints, last_two, with_midpoints, base_binary_ladder, settles,
  take_settled, keep, search_binary_ladder, monitoring_binary_ladder, decode_search_ladder,
}
use ru_kt.Ladder.Reach.{greatest_unique}
use ru_kt.Ladder.Distinct.{Distinct, base_binary_ladder-Distinct}
use ru_kt.Ladder.Decode.{decode-search_binary_ladder}

base_binary_ladder_of_5 : base_binary_ladder 5 ≡ 0 ∷ 1 ∷ 3 ∷ 7 ∷ 5 ∷ 6 ∷ []
unfolding base_binary_ladder with_midpoints powers midpoints last_two power_value
base_binary_ladder_of_5 = refl

-- The search for version 2 stops at the first version above it.
search_binary_ladder_of_2 : search_binary_ladder 2 5 [] [] ≡ 0 ∷ 1 ∷ 3 ∷ []
unfolding search_binary_ladder keep take_settled settles base_binary_ladder with_midpoints powers
    midpoints last_two power_value
search_binary_ladder_of_2 = refl

monitoring_binary_ladder_of_5 : monitoring_binary_ladder 5 (1 ∷ []) ≡ 0 ∷ 3 ∷ 5 ∷ []
unfolding monitoring_binary_ladder keep base_binary_ladder with_midpoints powers midpoints last_two
    power_value
monitoring_binary_ladder_of_5 = refl

All-refl : (m : ℕ) (l : List ℕ) → All (λ v. leb v m ≡ leb v m) l
All-refl m [] = _
All-refl m (v ∷ l) = (refl, All-refl m l)

abbrev five : ℕ
five = 5

greatest_unique_example : five ≡ five
greatest_unique_example =
    greatest_unique 5 5 (omega arith) (omega arith) (All-refl 5 (base_binary_ladder 5))

base_binary_ladder-Distinct_example :
    Distinct (base_binary_ladder 5) × All (λ v. v ≤ u32_max) (base_binary_ladder 5)
base_binary_ladder-Distinct_example = base_binary_ladder-Distinct 5 (omega arith)

-- A log whose greatest version is 5.
abbrev type_at_5 : ℕ → ℕ
type_at_5 v = if leb v 5 then 1 else 3

type_at_5_lem : (v : ℕ) → (type_at_5 v == 1) ≡ leb v 5
type_at_5_lem v = ground arith

decode-search_binary_ladder_example :
    decode_search_ladder (map type_at_5 (search_binary_ladder 2 5 [] [])) 2
    ≡ some (map (λ v. (v, leb v 5)) (search_binary_ladder 2 5 [] []))
decode-search_binary_ladder_example =
    decode-search_binary_ladder 2 5 type_at_5 type_at_5_lem (omega arith)
