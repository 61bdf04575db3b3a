-- ===== src/Ladder/Decode.antt =====
-- The client's replay of a search ladder recovers the versions that the log looked up, from the
-- results alone.
use ru_kt.Common.{
  ℕ, zero, suc, ◌+◌, ◌-◌, ◌/◌, ◌^◌, ◌≤◌, ◌<◌, ◌≡◌, ◌≢◌, refl, arith, ap, List, [], ◌∷◌, Bool, map,
  not, ◌&&◌, contains, Bool-cases, inl, inr, some, none, Option, ltb, leb, ◌==◌, if◌then◌else◌,
}
use native.Mathlib.Decide.{dec_lt, ℕ_discrete}
use ru_kt.Common.Pow.{two_pow_suc}
use ru_kt.Ladder.{
  u32_max, power_value, midpoints, base_binary_ladder, settles, take_settled, keep,
  search_binary_ladder, finish, also, decode_midpoints, decode_powers, decode_search_ladder,
}
use ru_kt.Ladder.Plan.{
  ladder, base_binary_ladder-ladder, midpoints_stop, midpoints_up, midpoints_down, stop, up, down,
  way, ladder_above, ladder_top, ladder_more, Stand, Next, next, at_top,
}
use ru_kt.Ladder.Reach.{start}

keep_all : (l : List ℕ) → keep (λ v. not (contains [] v) && not (contains [] v)) l ≡ l
unfolding keep
keep_all [] = refl
keep_all (v ∷ l) = ap (◌∷◌ v) (keep_all l)

-- `ty` gives a lookup the result type 1 exactly for the versions up to n.
module _ (t n : ℕ) (ty : ℕ → ℕ) (answers : (v : ℕ) → (ty v == 1) ≡ leb v n) where
  abbrev lookup : ℕ → ℕ × Bool
  lookup v = (v, leb v n)

  abbrev cut : ℕ → List ℕ → List ℕ
  cut v rest = if settles t n v then [] else rest

  abbrev middle : ℕ → ℕ → ℕ
  middle lower upper = lower + (upper - lower) / 2

  midpoints_round_up :
      (f lower upper : ℕ) (rest : List ℕ)
      → lower + 1 < upper
      → middle lower upper ≤ n
      → decode_midpoints f (middle lower upper) upper (map ty rest) t ≡ some (map lookup rest)
      → let v = middle lower upper in
        decode_midpoints (suc f) lower upper (ty v ∷ map ty (cut v rest)) t
        ≡ some (lookup v ∷ map lookup (cut v rest))
  unfolding decode_midpoints settles finish also
  midpoints_round_up f lower upper rest far le ih =
      let v : ℕ = middle lower upper in
      elim (Bool-cases (ltb t v)) [
        | inl past ↦ ground (arith, answers v)
        | inr near ↦ ground (arith, answers v)
      ]

  midpoints_round_down :
      (f lower upper : ℕ) (rest : List ℕ)
      → lower + 1 < upper
      → n < middle lower upper
      → decode_midpoints f lower (middle lower upper) (map ty rest) t ≡ some (map lookup rest)
      → let v = middle lower upper in
        decode_midpoints (suc f) lower upper (ty v ∷ map ty (cut v rest)) t
        ≡ some (lookup v ∷ map lookup (cut v rest))
  unfolding decode_midpoints settles finish also
  midpoints_round_down f lower upper rest far lt ih =
      let v : ℕ = middle lower upper in ground (arith, answers v)

  decode_midpoints-stop :
      (f lower upper : ℕ) → upper ≤ lower + 1 → decode_midpoints (suc f) lower upper [] t ≡ some []
  unfolding decode_midpoints
  decode_midpoints-stop f lower upper near = ground arith

  decode_midpoints_lem :
      (f lower upper : ℕ)
      → upper - lower ≤ 2 ^ f
      → decode_midpoints
          (suc f)
          lower
          upper
          (map ty (take_settled t n (midpoints f lower upper n)))
          t
        ≡ some (map lookup (take_settled t n (midpoints f lower upper n)))
  unfolding take_settled
  decode_midpoints_lem zero lower upper h =
      unfold midpoints in decode_midpoints-stop 0 lower upper (omega arith)
  decode_midpoints_lem (suc f) lower upper h = elim (way lower upper n) [
    | stop near ↦
        rw (midpoints_stop f lower upper n near) (decode_midpoints-stop (suc f) lower upper near)
    | up far le ↦ rw (midpoints_up f lower upper n far le) (
        midpoints_round_up (suc f) lower upper _ far le
          (decode_midpoints_lem f _ upper (omega (arith, two_pow_suc f))))
    | down far lt ↦ rw (midpoints_down f lower upper n far lt) (
        midpoints_round_down (suc f) lower upper _ far lt
          (decode_midpoints_lem f lower _ (omega (arith, two_pow_suc f))))
  ]

  -- The round of the first loop at the value v, for each way on.
  powers_round_above :
      (f k l : ℕ) (rest : List ℕ)
      → n < power_value k
      → decode_midpoints 34 l (power_value k) (map ty rest) t ≡ some (map lookup rest)
      → let v = power_value k in
        decode_powers (suc f) k (some l) (ty v ∷ map ty (cut v rest)) t
        ≡ some (lookup v ∷ map lookup (cut v rest))
  unfolding decode_powers settles finish also
  powers_round_above f k l rest above ih = ground (arith, answers (power_value k))

  powers_round_top :
      (f k l : ℕ)
      → power_value k ≤ n
      → power_value k ≡ u32_max
      → let v = power_value k in
        decode_powers (suc f) k (some l) (ty v ∷ map ty (cut v [])) t
        ≡ some (lookup v ∷ map lookup (cut v []))
  unfolding decode_powers settles finish
  powers_round_top f k l le top = ground (arith, answers (power_value k))

  powers_round_more :
      (f k : ℕ) (last : Option ℕ) (rest : List ℕ)
      → power_value k ≤ n
      → power_value k ≢ u32_max
      → decode_powers f (k + 1) (some (power_value k)) (map ty rest) t ≡ some (map lookup rest)
      → let v = power_value k in
        decode_powers (suc f) k last (ty v ∷ map ty (cut v rest)) t
        ≡ some (lookup v ∷ map lookup (cut v rest))
  unfolding decode_powers settles finish also
  powers_round_more f k last rest le ne ih = ground (arith, answers (power_value k))

  abbrev Replays : ℕ → ℕ → ℕ → Type 0
  Replays f k l =
      let out = take_settled t n (ladder f k (some l) n) in
      decode_powers f k (some l) (map ty out) t ≡ some (map lookup out)

  decode_powers_round :
      (f len l : ℕ)
      → Stand f len l n
      → (power_value (len + 1) ≤ n → len + 1 < 32 → Replays f (len + 1 + 1) (power_value (len + 1)))
      → Replays (suc f) (len + 1) l
  decode_powers_round f len l s rec = elim (dec_lt n v) [
    | yes above ↦ rw (ladder_above f (len + 1) l n x.fresh above) (
        unfold take_settled in
        powers_round_above f (len + 1) l _ above
          (decode_midpoints_lem 33 l v (omega (arith, x.width))))
    | no below ↦ elim (ℕ_discrete v u32_max) [
      | yes top ↦
          rw (ladder_top f (len + 1) l n x.fresh (omega arith) top)
            (unfold take_settled in powers_round_top f (len + 1) l (omega arith) top)
      | no ne ↦ rw (ladder_more f (len + 1) l n x.fresh (omega arith) ne) (
          unfold take_settled in
          powers_round_more f (len + 1) (some l) _ (omega arith) ne
            (rec (omega arith) (at_top f len l n s ne)))
    ]
  ]
    where
      x : Next len l
      x = next f len l n s

      v : ℕ
      v = power_value (len + 1)

  decode_powers_lem : (f len l : ℕ) → Stand f len l n → Replays (suc f) (len + 1) l
  decode_powers_lem zero len l s =
      let enough = s.enough in decode_powers_round zero len l s (λ le more. absurd (omega arith))
  decode_powers_lem (suc f) len l s = decode_powers_round (suc f) len l s (λ le more.
      decode_powers_lem f (len + 1) (power_value (len + 1)) (record {
        enough = omega (arith, s.enough);
        power = (next (suc f) len l n s).power;
        low = more;
        top = s.top;
        reached = le;
      }))

  -- From results that answer the log's lookups for target t and greatest version n, the client
  -- recovers those versions in order, each with its answer, and reads every result.
  pub decode-search_binary_ladder :
      n ≤ u32_max
      → let out = search_binary_ladder t n [] [] in
        decode_search_ladder (map ty out) t ≡ some (map lookup out)
  unfolding decode_search_ladder search_binary_ladder
  decode-search_binary_ladder h =
      rw (keep_all (take_settled t n (base_binary_ladder n)), base_binary_ladder-ladder n)
        (unfold take_settled power_value in
          powers_round_more 33 0 none (take_settled t n (ladder 33 1 (some 0) n)) (omega arith)
            (λ e. cc e) (decode_powers_lem 32 0 0 (start n h)))
