-- ===== src/Prefix/Round.antt =====
-- What a search keeps while `step` goes through an entry, and the round where the paths part.
use ru_kt.Common.{
  ℕ, suc, ◌<◌, ◌≡◌, ◌≢◌, refl, sym, ap, ◌∙◌, subst, arith, List, [], ◌∷◌, ◌++◌, Option, none, some,
  ◌==◌, length, length-append, get_elem?, true, false, ◌⊎◌, inl, inr, Option-cases,
}
use ru_kt.Tls.{Bytes}
use ru_kt.Prefix.{
  get_bit, zero_value, sibling_at, beside, rollup, LogEntry, LeafNode, levels, ParentNode, hashes,
  is_none, StepResult, step_loop, beside_node, stand_in_node,
}
use ru_kt.Prefix.Fold.{
  Agree, beside_same, beside_swap, get_bit_bound, get_elem?-append_low, get_elem?-append_at,
  get_elem?-some,
}
use ru_kt.Prefix.Index.{IsIndex}
use ru_kt.Prefix.Step.{
  start_of, above, above-append, rollup_down, sibling_at-some, Points, IsLink, IsCopath, IsEntry,
  IsStore,
}
use native.Mathlib.Decide.{dec_lt}

module _ (hash : Bytes → Bytes) (get : ℕ → Option LogEntry) (store : IsStore hash get)
    (target : Bytes) (wide : IsIndex target) (root : Bytes) where
  -- A search stands at entry e, found at p, with the copath so far.
  pub record Stands (cp : List ParentNode) (p : ℕ) (e : LogEntry) : Type 0 where
    pub gets : get p ≡ some e
    pub copath : IsCopath hash get target cp
    pub agree : Agree (length cp) e.index target
    pub value : above hash target cp (rollup hash e (length cp)) ≡ root

  -- A search ended where the tree has nothing.
  pub record Ended (cp : List ParentNode) : Type 0 where
    pub copath : IsCopath hash get target cp
    pub value : above hash target cp zero_value ≡ root

  abbrev pub Outcome : List ParentNode → StepResult → Type 0
  Outcome cp (StepResult.continue p cp') =
      (length cp < length cp') × ((e : LogEntry) × Stands cp' p e)
  Outcome cp (StepResult.found e) = ⊥
  Outcome cp (StepResult.failed cp') = Ended cp'
  Outcome cp StepResult.panic = ⊥

  Agree-suc :
      (d : ℕ) (x : Bytes)
      → Agree d x target
      → get_bit x d ≡ get_bit target d
      → Agree (suc d) x target
  Agree-suc d x a e i h = elim (dec_lt i d) [
    | yes lt ↦ a i lt
    | no ge ↦ subst (λ (j : ℕ). get_bit x j ≡ get_bit target j) (let q : d ≡ i = omega arith in q) e
  ]

  pub IsCopath-append :
      (cp : List ParentNode) (n : ParentNode)
      → IsCopath hash get target cp
      → length cp < levels
      → IsLink hash get target (length cp) n
      → IsCopath hash get target (cp ++ (n ∷ []))
  IsCopath-append cp n c h l = record {
    short = omega (arith, length-append cp (n ∷ []));
    links = λ d m e. elim (dec_lt d (length cp)) [
      | yes lt ↦ c.links d m (sym (get_elem?-append_low cp (n ∷ []) d lt) ∙ e)
      | no ge ↦
          let b = get_elem?-some (cp ++ (n ∷ [])) d m e in
          let at : d ≡ length cp = omega (arith, length-append cp (n ∷ [])) in
          let same : some n ≡ some m =
            sym (get_elem?-append_at cp n) ∙ ap (get_elem? (cp ++ (n ∷ []))) (sym at) ∙ e in
          rw at (
            subst
              (λ (o : Option ParentNode). elim o [
                | none ↦ ⊥
                | some x ↦ IsLink hash get target (length cp) x
              ])
              same l)
    ];
  }

  -- A node of an entry's copath links the searched path as well, as long as they are one.
  pub IsLink-same :
      (e : LogEntry) (d : ℕ) (n : ParentNode)
      → IsLink hash get e.index d n
      → Agree d e.index target
      → get_bit e.index d ≡ get_bit target d
      → IsLink hash get target d n
  IsLink-same e d n l a s = record {
    empty = l.empty;
    full = λ p q.
        let t = l.full p q in
        record {
          entry = t.entry;
          gets = t.gets;
          agree = λ i h. t.agree i h ∙ a i h;
          parts = λ h. t.parts (h ∙ sym s);
          value = t.value;
        };
  }

  pub stay :
      (cp : List ParentNode) (p : ℕ) (e : LogEntry) (n : ParentNode)
      → Stands cp p e
      → length cp < levels
      → length cp < start_of e
      → get_bit e.index (length cp) ≡ get_bit target (length cp)
      → sibling_at (hashes e.copath) (length cp) ≡ n.hash
      → IsLink hash get target (length cp) n
      → Stands (cp ++ (n ∷ [])) p e
  stay cp p e n s h b same at link =
      let d = length cp in
      let len : length (cp ++ (n ∷ [])) ≡ suc d = length-append cp (n ∷ []) ∙ omega arith in
      record {
        gets = s.gets;
        copath = IsCopath-append cp n s.copath h link;
        agree =
            subst (λ (c : ℕ). Agree c e.index target) (sym len) (Agree-suc d e.index s.agree same);
        value =
            ap (λ (c : ℕ). above hash target (cp ++ (n ∷ [])) (rollup hash e c)) len
            ∙ above-append hash target cp n (rollup hash e (suc d))
            ∙ ap (above hash target cp) (
                sym (beside_same hash e.index target d n.hash (rollup hash e (suc d)) same)
                ∙ ap (λ (v : Bytes). beside hash e.index d v (rollup hash e (suc d))) (sym at)
                ∙ sym (rollup_down hash e d b))
            ∙ s.value;
      }

  -- Where the paths part, the entry's own node is the sibling, and its sibling leads on.
  pub part_value :
      (cp : List ParentNode) (p : ℕ) (e : LogEntry) (ptr first : Option ℕ) (v : Bytes)
      → Stands cp p e
      → length cp < start_of e
      → get_bit e.index (length cp) ≢ get_bit target (length cp)
      → sibling_at (hashes e.copath) (length cp) ≡ v
      → above hash target (cp ++ (beside_node hash e (length cp) ptr first ∷ [])) v ≡ root
  part_value cp p e ptr first v s b ne at =
      let d = length cp in
      above-append hash target cp (beside_node hash e d ptr first) v
      ∙ ap (above hash target cp) (
          sym (beside_swap hash e.index target d v (rollup hash e (suc d)) ne)
          ∙ ap (λ (w : Bytes). beside hash e.index d w (rollup hash e (suc d))) (sym at)
          ∙ sym (rollup_down hash e d b))
      ∙ s.value

  pub part-IsLink :
      (cp : List ParentNode) (p : ℕ) (e : LogEntry) (first : Option ℕ)
      → Stands cp p e
      → get_bit e.index (length cp) ≢ get_bit target (length cp)
      → IsLink hash get target (length cp) (beside_node hash e (length cp) (some p) first)
  part-IsLink cp p e first s ne = record {
    empty = λ h. absurd (cc h);
    full = λ q h. record {
      entry = e;
      gets = let same : p ≡ q = the_ptr q h in ap get (sym same) ∙ s.gets;
      agree = s.agree;
      parts = ne;
      value = refl;
    };
  }
    where
      ptr_of : Option ℕ → ℕ
      ptr_of none = 0
      ptr_of (some x) = x

      the_ptr : (q : ℕ) → some p ≡ some q → p ≡ q
      the_ptr q h = ap ptr_of h

  pub step_stay :
      (f : ℕ) (p : ℕ) (cp : List ParentNode) (e : LogEntry) (n : ParentNode)
      → get_elem? e.copath (length cp) ≡ some n
      → (get_bit e.index (length cp) == get_bit target (length cp)) ≡ true
      → step_loop hash (suc f) target p cp e ≡ step_loop hash f target p (cp ++ (n ∷ [])) e
  unfolding step_loop
  step_stay f p cp e n h b = rw (h, b, step_loop) refl

  step_part :
      (f : ℕ) (p : ℕ) (cp : List ParentNode) (e : LogEntry) (n : ParentNode)
      → get_elem? e.copath (length cp) ≡ some n
      → (get_bit e.index (length cp) == get_bit target (length cp)) ≡ false
      → step_loop hash (suc f) target p cp e ≡ (
          let cp' = cp ++ (beside_node hash e (length cp) (some p) n.first_update_position ∷ []) in
          elim n.ptr [
            | some next_ptr ↦ StepResult.continue next_ptr cp'
            | none ↦ StepResult.failed cp'
          ])
  unfolding step_loop
  step_part f p cp e n h b = rw (h, b, step_loop) refl

  pub step_stand_in :
      (f : ℕ) (p : ℕ) (cp : List ParentNode) (e : LogEntry)
      → get_elem? e.copath (length cp) ≡ none
      → is_none e.leaf ≡ false
      → (get_bit e.index (length cp) == get_bit target (length cp)) ≡ true
      → step_loop hash (suc f) target p cp e
        ≡ step_loop hash f target p (cp ++ (stand_in_node e ∷ [])) e
  unfolding step_loop
  step_stand_in f p cp e h k b = rw (h, k, b, step_loop) refl

  pub step_fail :
      (f : ℕ) (p : ℕ) (cp : List ParentNode) (e : LogEntry)
      → get_elem? e.copath (length cp) ≡ none
      → is_none e.leaf ≡ false
      → (get_bit e.index (length cp) == get_bit target (length cp)) ≡ false
      → step_loop hash (suc f) target p cp e
        ≡ StepResult.failed
            (cp ++ (beside_node hash e (length cp) (some p) (some e.first_update_position) ∷ []))
  unfolding step_loop
  step_fail f p cp e h k b = rw (h, k, b, step_loop) refl

  third : {a b c : ℕ} → a < 2 → b < 2 → c < 2 → a ≢ b → b ≢ c → a ≡ c
  third h h' h'' n m = ground arith

  pub differ : (a b : ℕ) → (a == b) ≡ false → a ≢ b
  differ a b h = ground arith

  pub start_low : (e : LogEntry) (d : ℕ) → IsEntry hash get e → d < levels → d < start_of e
  start_low e d ent h = go (Option-cases e.leaf)
    where
      go : (e.leaf ≡ none) ⊎ ((l : LeafNode) × (e.leaf ≡ some l)) → d < start_of e
      go (inl n) = absurd (ent.leaf n)
      go (inr (l, n)) = rw n h

  pub part :
      (f : ℕ) (p : ℕ) (cp : List ParentNode) (e : LogEntry) (n : ParentNode)
      → Stands cp p e
      → get_elem? e.copath (length cp) ≡ some n
      → (get_bit e.index (length cp) == get_bit target (length cp)) ≡ false
      → Outcome cp (step_loop hash (suc f) target p cp e)
  part f p cp e n s h b = rw (step_part f p cp e n h b) (go (Option-cases n.ptr))
    where
      ent : IsEntry hash get e
      ent = store p e s.gets

      ne : get_bit e.index (length cp) ≢ get_bit target (length cp)
      ne = differ _ _ b

      cp' : List ParentNode
      cp' = cp ++ (beside_node hash e (length cp) (some p) n.first_update_position ∷ [])

      low : length cp < levels
      low =
          let q = get_elem?-some e.copath (length cp) n h in let w = ent.copath.short in omega arith

      b_start : length cp < start_of e
      b_start = start_low e (length cp) ent low

      copath' : IsCopath hash get target cp'
      copath' =
          IsCopath-append cp (beside_node hash e (length cp) (some p) n.first_update_position)
            s.copath low (part-IsLink cp p e n.first_update_position s ne)

      link : IsLink hash get e.index (length cp) n
      link = ent.copath.links (length cp) n h

      go :
          (n.ptr ≡ none) ⊎ ((q : ℕ) × (n.ptr ≡ some q))
          → Outcome cp (elim n.ptr [
            | some next_ptr ↦ StepResult.continue next_ptr cp'
            | none ↦ StepResult.failed cp'
          ])
      go (inl z) = rw z (record {
        copath = copath';
        value =
            part_value cp p e (some p) n.first_update_position zero_value s b_start ne
              (sibling_at-some e.copath (length cp) n h ∙ link.empty z);
      })
      go (inr (q, z)) = rw z (
        omega (
          arith,
          length-append cp (beside_node hash e (length cp) (some p) n.first_update_position ∷ []),
        ),
        (
          t.entry,
          record {
            gets = t.gets;
            copath = copath';
            agree =
                subst (λ (c : ℕ). Agree c t.entry.index target) (sym len)
                  (Agree-suc (length cp) t.entry.index (λ i l. t.agree i l ∙ s.agree i l)
                    (third (get_bit_bound t.entry.index (length cp))
                      (get_bit_bound e.index (length cp)) (get_bit_bound target (length cp)) t.parts
                      ne));
            value =
                ap (λ (c : ℕ). above hash target cp' (rollup hash t.entry c)) len
                ∙ ap (above hash target cp') t.value
                ∙ part_value cp p e (some p) n.first_update_position n.hash s b_start ne
                    (sibling_at-some e.copath (length cp) n h);
          },
        ),
      )
        where
          len : length cp' ≡ suc (length cp)
          len = length-append cp _ ∙ omega arith

          t : Points hash get e.index (length cp) n q
          t = link.full q z
