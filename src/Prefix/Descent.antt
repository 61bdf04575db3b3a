-- ===== src/Prefix/Descent.antt =====
-- The rounds of `step` in one entry end, at another entry or at the place of the searched index.
use ru_kt.Common.{
  ℕ, zero, suc, ◌+◌, ◌<◌, ◌≡◌, ◌≢◌, refl, ◌∙◌, subst, arith, List, [], ◌∷◌, ◌++◌, Option, none,
  some, ◌==◌, length, length-append, get_elem?, true, false, Bool-cases, ◌⊎◌, inl, inr,
  Option-cases, ==_iff,
}
use ru_kt.Tls.{Bytes}
use ru_kt.Prefix.{
  get_bit, zero_value, sibling_at, LogEntry, LeafNode, levels, ParentNode, hashes, is_none,
  StepResult, step_loop, stand_in_node,
}
use ru_kt.Prefix.Fold.{Agree, get_elem?-none, get_elem?-some}
use ru_kt.Prefix.Index.{IsIndex, Agree-all}
use ru_kt.Prefix.Step.{start_of, sibling_at-some, sibling_at-past, IsLink, IsEntry, IsStore}
use native.Mathlib.Decide.{dec_lt}
use ru_kt.Prefix.Round.{
  Stands, Outcome, IsCopath-append, IsLink-same, stay, part_value, part-IsLink, step_stay,
  step_stand_in, step_fail, differ, start_low, part,
}

module _ (hash : Bytes → Bytes) (get : ℕ → Option LogEntry) (store : IsStore hash get)
    (target : Bytes) (wide : IsIndex target) (root : Bytes) where
  pub is_none_lem : (e : LogEntry) → IsEntry hash get e → is_none e.leaf ≡ false
  is_none_lem e ent = go (Option-cases e.leaf)
    where
      go : (e.leaf ≡ none) ⊎ ((l : LeafNode) × (e.leaf ≡ some l)) → is_none e.leaf ≡ false
      go (inl n) = absurd (ent.leaf n)
      go (inr (l, n)) = rw n refl

  stand_in-IsLink : (d : ℕ) (e : LogEntry) → IsLink hash get target d (stand_in_node e)
  stand_in-IsLink d e = record { empty = λ h. refl; full = λ p h. absurd (cc h) }

  -- Past the end of its copath an entry is alone in its subtree.
  past :
      (f : ℕ) (p : ℕ) (cp : List ParentNode) (e : LogEntry)
      → Stands hash get store target wide root cp p e
      → get_elem? e.copath (length cp) ≡ none
      → e.index ≢ target
      → ((cp' : List ParentNode)
          → Stands hash get store target wide root cp' p e
          → length cp' ≡ suc (length cp)
          → Outcome hash get store target wide root cp' (step_loop hash f target p cp' e))
      → ((cp' : List ParentNode) (r : StepResult)
          → length cp' ≡ suc (length cp)
          → Outcome hash get store target wide root cp' r
          → Outcome hash get store target wide root cp r)
      → Outcome hash get store target wide root cp (step_loop hash (suc f) target p cp e)
  past f p cp e s h ne rec weaken = go (Bool-cases (get_bit e.index d == get_bit target d))
    where
      d : ℕ
      d = length cp

      ent : IsEntry hash get e
      ent = store p e s.gets

      at : sibling_at (hashes e.copath) d ≡ zero_value
      at = sibling_at-past e.copath d (get_elem?-none e.copath d h)

      low : d < levels
      low = elim (dec_lt d levels) [
        | yes lt ↦ lt
        | no ge ↦
            let all : d ≡ 256 = let w = s.copath.short in omega arith in
            absurd (
              ne (
                Agree-all e.index target ent.index wide
                  (subst (λ (c : ℕ). Agree c e.index target) all s.agree)))
      ]

      below : d < start_of e
      below = start_low hash get store target wide root e d ent low

      go :
          ((get_bit e.index d == get_bit target d) ≡ true)
            ⊎ ((get_bit e.index d == get_bit target d) ≡ false)
          → Outcome hash get store target wide root cp (step_loop hash (suc f) target p cp e)
      go (inl b) =
          let next : Stands hash get store target wide root (cp ++ (stand_in_node e ∷ [])) p e =
            stay hash get store target wide root cp p e (stand_in_node e) s low below
              ((==_iff _ _).0 b) at (stand_in-IsLink d e) in
          let len : length (cp ++ (stand_in_node e ∷ [])) ≡ suc d =
            length-append cp _ ∙ omega arith in
          rw (step_stand_in hash get store target wide root f p cp e h (is_none_lem e ent) b)
            (weaken _ _ len (rec _ next len))
      go (inr b) =
          rw (step_fail hash get store target wide root f p cp e h (is_none_lem e ent) b) (record {
            copath = IsCopath-append hash get store target wide root cp _ s.copath low (
                part-IsLink hash get store target wide root cp p e (some e.first_update_position) s
                  (differ hash get store target wide root _ _ b));
            value =
                part_value hash get store target wide root cp p e (some p)
                  (some e.first_update_position) zero_value s below
                  (differ hash get store target wide root _ _ b) at;
          })

  Outcome_weaken :
      (cp cp' : List ParentNode) (r : StepResult)
      → length cp' ≡ suc (length cp)
      → Outcome hash get store target wide root cp' r
      → Outcome hash get store target wide root cp r
  Outcome_weaken cp cp' (StepResult.continue p c) len (lt, w) = (omega arith, w)
  Outcome_weaken cp cp' (StepResult.found e) len w = w
  Outcome_weaken cp cp' (StepResult.failed c) len w = w
  Outcome_weaken cp cp' StepResult.panic len w = w

  -- The rounds in one entry lead to another entry, further down, or to the place of the target.
  pub step_loop_lem :
      (f : ℕ) (p : ℕ) (cp : List ParentNode) (e : LogEntry)
      → Stands hash get store target wide root cp p e
      → e.index ≢ target
      → levels < f + length cp
      → Outcome hash get store target wide root cp (step_loop hash f target p cp e)
  step_loop_lem zero p cp e s ne h = let w = s.copath.short in absurd (omega arith)
  step_loop_lem (suc f) p cp e s ne h =
      go (λ cp' s' len. step_loop_lem f p cp' e s' ne (omega arith))
        (Option-cases (get_elem? e.copath d))
    where
      d : ℕ
      d = length cp

      ent : IsEntry hash get e
      ent = store p e s.gets

      go :
          ((cp' : List ParentNode)
            → Stands hash get store target wide root cp' p e
            → length cp' ≡ suc d
            → Outcome hash get store target wide root cp' (step_loop hash f target p cp' e))
          → (get_elem? e.copath d ≡ none) ⊎ ((n : ParentNode) × (get_elem? e.copath d ≡ some n))
          → Outcome hash get store target wide root cp (step_loop hash (suc f) target p cp e)
      go rec (inl z) = past f p cp e s z ne rec (λ cp' r. Outcome_weaken cp cp' r)
      go rec (inr (n, z)) = elim (Bool-cases (get_bit e.index d == get_bit target d)) [
        | inl b ↦
            let low : d < levels =
              let q = get_elem?-some e.copath d n z in let w = ent.copath.short in omega arith in
            let same : get_bit e.index d ≡ get_bit target d = (==_iff _ _).0 b in
            let next : Stands hash get store target wide root (cp ++ (n ∷ [])) p e =
              stay hash get store target wide root cp p e n s low
                (start_low hash get store target wide root e d ent low) same
                (sibling_at-some e.copath d n z)
                (IsLink-same hash get store target wide root e d n (ent.copath.links d n z) s.agree
                  same) in
            let len : length (cp ++ (n ∷ [])) ≡ suc d = length-append cp _ ∙ omega arith in
            rw (step_stay hash get store target wide root f p cp e n z b)
              (Outcome_weaken cp _ _ len (rec _ next len))
        | inr b ↦ part hash get store target wide root f p cp e n s z b
      ]
