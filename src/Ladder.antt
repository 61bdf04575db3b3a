-- ===== src/Ladder.antt =====
-- src/tree/binary_ladder.rs: the versions that are looked up to show which version of a label is
-- the greatest, and `decode_search_ladder` of src/client/core.rs, which replays them. Versions are
-- u32.
pub mod Plan
pub mod Reach
pub mod Distinct
pub mod Decode
mod Runs
use ru_kt.Common.{
  ℕ, zero, suc, ◌+◌, ◌-◌, ◌*◌, ◌/◌, ◌^◌, Bool, true, false, not, ◌&&◌, ◌||◌, List, [], ◌∷◌, ◌++◌,
  Option, none, some, ltb, leb, ◌==◌, if◌then◌else◌, contains,
}

abbrev pub u32_max : ℕ
u32_max = 4_294_967_295

-- `2^len - 1`, held at the greatest u32.
unfoldable pub power_value : ℕ → ℕ
power_value len = if ltb u32_max (2 ^ len - 1) then u32_max else 2 ^ len - 1

abbrev pub is_last : Option ℕ → ℕ → Bool
is_last none v = false
is_last (some l) v = l == v

-- The first loop: powers of two less one, up to one above n. `last` is the value pushed last.
unfoldable pub powers : ℕ → ℕ → Option ℕ → ℕ → List ℕ
powers zero len last n = []
powers (suc f) len last n =
    let value = power_value len in
    let rest = powers f (len + 1) (some value) n in
    if is_last last value
    then []
    else value ∷ (if ltb n value then [] else if value == u32_max then [] else rest)

-- The second loop: the midpoints of a binary search between the bounds.
unfoldable pub midpoints : ℕ → ℕ → ℕ → ℕ → List ℕ
midpoints zero lower upper n = []
midpoints (suc f) lower upper n =
    let value = lower + (upper - lower) / 2 in
    let rest =
      midpoints f (if leb value n then value else lower) (if leb value n then upper else value) n in
    if ltb lower upper && ltb 1 (upper - lower) then value ∷ rest else []

-- `out[out.len() - 2]` and `out[out.len() - 1]`, if there are two.
unfoldable pub last_two : List ℕ → Option (ℕ × ℕ)
last_two [] = none
last_two (x ∷ []) = none
last_two (x ∷ y ∷ []) = some (x, y)
last_two (x ∷ y ∷ z ∷ l) = last_two (y ∷ z ∷ l)

unfoldable pub with_midpoints : List ℕ → ℕ → List ℕ
with_midpoints out n = elim (last_two out) [
  | none ↦ out
  | some (lower, upper) ↦ if ltb n upper then out ++ midpoints 33 lower upper n else out
]

unfoldable pub base_binary_ladder : ℕ → List ℕ
base_binary_ladder n = with_midpoints (powers 34 0 none n) n

-- The lookup at which the search for `t` is settled.
unfoldable pub settles : ℕ → ℕ → ℕ → Bool
settles t n v = (leb v n && ltb t v) || (ltb n v && leb v t)

-- `take(end)` for the position after the first such lookup.
unfoldable pub take_settled : ℕ → ℕ → List ℕ → List ℕ
take_settled t n [] = []
take_settled t n (v ∷ l) = v ∷ (if settles t n v then [] else take_settled t n l)

unfoldable pub keep : (ℕ → Bool) → List ℕ → List ℕ
keep p [] = []
keep p (v ∷ l) = if p v then v ∷ keep p l else keep p l

unfoldable pub search_binary_ladder : ℕ → ℕ → List ℕ → List ℕ → List ℕ
search_binary_ladder t n left_inclusion right_non_inclusion =
    keep (λ v. not (contains left_inclusion v) && not (contains right_non_inclusion v))
      (take_settled t n (base_binary_ladder n))

unfoldable pub monitoring_binary_ladder : ℕ → List ℕ → List ℕ
monitoring_binary_ladder t left_inclusion =
    keep (λ v. leb v t && not (contains left_inclusion v)) (base_binary_ladder t)

-- The closure `finish`: all results must have been read.
unfoldable pub finish : List ℕ → List (ℕ × Bool) → Option (List (ℕ × Bool))
finish [] out = some out
finish (r ∷ rest) out = none

unfoldable pub also : ℕ × Bool → Option (List (ℕ × Bool)) → Option (List (ℕ × Bool))
also d none = none
also d (some out) = some (d ∷ out)

-- The last loop of `decode_search_ladder`; the results are the types that have not been read.
unfoldable pub decode_midpoints : ℕ → ℕ → ℕ → List ℕ → ℕ → Option (List (ℕ × Bool))
decode_midpoints zero lower upper results target = none
decode_midpoints (suc f) lower upper [] target = if ltb (lower + 1) upper then none else some []
decode_midpoints (suc f) lower upper (r ∷ results) target =
    let v = lower + (upper - lower) / 2 in
    let inc = r == 1 in
    let rest =
      decode_midpoints f (if inc then v else lower) (if inc then upper else v) results target in
    if ltb (lower + 1) upper
    then (if (if inc then ltb target v else leb v target)
        then finish results ((v, inc) ∷ [])
        else also (v, inc) rest)
    else none

-- The first loop. `none` is an error; with `last` none and v > target, which does not occur, the
-- source is unreachable.
unfoldable pub decode_powers : ℕ → ℕ → Option ℕ → List ℕ → ℕ → Option (List (ℕ × Bool))
decode_powers zero k last results target = none
decode_powers (suc f) k last [] target = none
decode_powers (suc f) k last (r ∷ results) target =
    let v = power_value k in
    let rest = decode_powers f (k + 1) (some v) results target in
    if r == 1
    then (if ltb target v || v == u32_max
        then finish results ((v, true) ∷ [])
        else also (v, true) rest)
    else if leb v target
    then finish results ((v, false) ∷ [])
    else elim last [
      | none ↦ none
      | some l ↦ also (v, false) (decode_midpoints 34 l v results target)
    ]

unfoldable pub decode_search_ladder : List ℕ → ℕ → Option (List (ℕ × Bool))
decode_search_ladder results target = decode_powers 34 0 none results target
