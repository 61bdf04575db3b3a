-- ===== src/Prefix/Proofs.antt =====
-- A search of the server's store ends, and what it returns verifies.
use ru_kt.Common.{
  ℕ, zero, suc, ◌+◌, ◌-◌, ◌≤◌, ◌<◌, ◌≡◌, ◌≢◌, refl, sym, ap, ◌∙◌, subst, arith, List, [], ◌∷◌,
  Option, none, some, leb, length, length-append, get_elem?, drop, true, false, Bool-cases, ◌⊎◌,
  inl, inr, Option-cases, same_bytes, same_bytes_iff,
}
use ru_kt.Tls.{Bytes}
use ru_kt.Prefix.{
  get_bit, sibling_at, or_zero, leaf_hash, rollup_loop, rollup, LogEntry, LeafNode, levels, hashes,
  ParentNode, combine_copaths, StepResult, step, Walk, walk,
}
use native.Mathlib.Decide.{dec_lt}
use ru_kt.Prefix.Fold.{
  rollup_loop_split, rollup_loop_same, get_elem?-append_low, get_elem?-append_drop, get_elem?-past,
}
use ru_kt.Prefix.Index.{IsIndex}
use ru_kt.Prefix.Step.{IsLink, IsCopath, IsEntry, IsStore}
use ru_kt.Prefix.Round.{Stands, Ended, Outcome}
use ru_kt.Prefix.Descent.{is_none_lem, step_loop_lem}

drop-hashes : (n : ℕ) (l : List ParentNode) → hashes (drop n l) ≡ drop n (hashes l)
drop-hashes zero l = refl
drop-hashes (suc n) [] = refl
drop-hashes (suc n) (x ∷ l) = drop-hashes n l

-- Combined copaths read as the first one up to its end, and as the second from there on.
combine_copaths_low :
    (a b : List ParentNode) (i : ℕ)
    → i < length a
    → get_elem? (combine_copaths a b) i ≡ get_elem? a i
unfolding combine_copaths
combine_copaths_low a b i h = elim (Bool-cases (leb (length b) (length a))) [
  | inl t ↦ rw (t, combine_copaths) refl
  | inr t ↦ rw (t, combine_copaths) (get_elem?-append_low a (drop (length a) b) i h)
]

combine_copaths_high :
    (a b : List ParentNode) (i : ℕ)
    → length a ≤ i
    → get_elem? (combine_copaths a b) i ≡ get_elem? b i
unfolding combine_copaths
combine_copaths_high a b i h = elim (Bool-cases (leb (length b) (length a))) [
  | inl t ↦
      let le : length b ≤ length a = ground arith in
      rw (t, combine_copaths) (get_elem?-past a i h ∙ sym (get_elem?-past b i (omega arith)))
  | inr t ↦ rw (t, combine_copaths) (get_elem?-append_drop a b i h)
]

length-combine_copaths :
    (a b : List ParentNode)
    → length a ≤ levels
    → length b ≤ levels
    → length (combine_copaths a b) ≤ levels
unfolding combine_copaths
length-combine_copaths a b ha hb = elim (Bool-cases (leb (length b) (length a))) [
  | inl t ↦ rw (t, combine_copaths) ha
  | inr t ↦
      let gt : length a < length b = ground arith in
      rw (t, combine_copaths)
        (omega (arith, length-append a (drop (length a) b), length-drop (length a) b))
]
  where
    length-drop : (n : ℕ) (l : List ParentNode) → length (drop n l) ≡ length l - n
    length-drop zero l = omega arith
    length-drop (suc n) [] = omega arith
    length-drop (suc n) (x ∷ l) = let r = length-drop n l in omega arith

get_elem?-hashes_same :
    (a b : List ParentNode) (i : ℕ)
    → get_elem? a i ≡ get_elem? b i
    → sibling_at (hashes a) i ≡ sibling_at (hashes b) i
unfolding sibling_at
get_elem?-hashes_same a b i h = ap or_zero (reads a i ∙ ap hash_of h ∙ sym (reads b i))
  where
    hash_of : Option ParentNode → Option Bytes
    hash_of none = none
    hash_of (some n) = some n.hash

    reads : (l : List ParentNode) (j : ℕ) → get_elem? (hashes l) j ≡ hash_of (get_elem? l j)
    reads [] j = refl
    reads (n ∷ l) zero = refl
    reads (n ∷ l) (suc j) = reads l j

rollup-leaf :
    (hash : Bytes → Bytes) (e : LogEntry) (l : LeafNode) (d : ℕ)
    → e.leaf ≡ some l
    → rollup hash e d
      ≡ rollup_loop hash e.index (hashes e.copath) levels d (leaf_hash hash e.index l.commitment)
unfolding rollup
rollup-leaf hash e l d h = rw (rollup, h) refl

module _ (hash : Bytes → Bytes) (get : ℕ → Option LogEntry) (store : IsStore hash get)
    (target : Bytes) (wide : IsIndex target) (root : Bytes) where
  -- The searched index has its leaf at the end of the copath.
  pub record Located (cp : List ParentNode) (commitment : Bytes) : Type 0 where
    pub copath : IsCopath hash get target cp
    pub value :
        rollup_loop hash target (hashes cp) levels 0 (leaf_hash hash target commitment) ≡ root

  pub record Found (e : LogEntry) : Type 0 where
    pub leaf : LeafNode
    pub has_leaf : e.leaf ≡ some leaf
    pub located : Located e.copath leaf.commitment

  located :
      (cp : List ParentNode) (p : ℕ) (e : LogEntry) (l : LeafNode)
      → Stands hash get store target wide root cp p e
      → e.leaf ≡ some l
      → e.index ≡ target
      → Located (combine_copaths cp e.copath) l.commitment
  located cp p e l s hl same = record {
    copath = record {
      short = length-combine_copaths cp e.copath s.copath.short ent.copath.short;
      links = λ d n h. elim (dec_lt d (length cp)) [
        | yes lt ↦ s.copath.links d n (sym (combine_copaths_low cp e.copath d lt) ∙ h)
        | no ge ↦
            subst (λ (x : Bytes). IsLink hash get x d n) same
              (ent.copath.links d n (sym (combine_copaths_high cp e.copath d (omega arith)) ∙ h))
      ];
    };
    value =
        rollup_loop_split hash target (hashes comb) levels (length cp) 0 _ (omega arith)
          s.copath.short
        ∙ ap (λ (v : Bytes). rollup_loop hash target (hashes comb) (length cp) 0 v) inner
        ∙ rollup_loop_same hash target target (hashes comb) (hashes cp) (length cp) 0 _
            (λ i h h'. refl)
            (λ i h h'. get_elem?-hashes_same comb cp i (combine_copaths_low cp e.copath i h'))
        ∙ s.value;
  }
    where
      comb : List ParentNode
      comb = combine_copaths cp e.copath

      ent : IsEntry hash get e
      ent = store p e s.gets

      inner :
          rollup_loop hash target
            (hashes comb)
            levels
            (length cp)
            (leaf_hash hash target l.commitment)
          ≡ rollup hash e (length cp)
      inner =
          rollup_loop_same hash target e.index (hashes comb) (hashes e.copath) levels (length cp) _
            (λ i h h'. ap (λ (x : Bytes). get_bit x i) (sym same))
            (λ i h h'. get_elem?-hashes_same comb e.copath i (combine_copaths_high cp e.copath i h))
          ∙ ap
              (λ (x : Bytes).
                rollup_loop hash e.index (hashes e.copath) levels (length cp)
                  (leaf_hash hash x l.commitment))
              (sym same)
          ∙ sym (rollup-leaf hash e l (length cp) hl)

  pub record FailedAt (cp : List ParentNode) (e : LogEntry) : Type 0 where
    pub ended : Ended hash get store target wide root cp
    pub entry : IsEntry hash get e
    pub other : e.index ≢ target

  abbrev pub StepDone : List ParentNode → ℕ → LogEntry → StepResult → Type 0
  StepDone cp p e (StepResult.continue q cp') =
      (length cp < length cp') × ((e' : LogEntry) × Stands hash get store target wide root cp' q e')
  StepDone cp p e (StepResult.found e') = Found e'
  StepDone cp p e (StepResult.failed cp') = FailedAt cp' e
  StepDone cp p e StepResult.panic = ⊥

  step_lem :
      (cp : List ParentNode) (p : ℕ) (e : LogEntry)
      → Stands hash get store target wide root cp p e
      → StepDone cp p e (step hash target p cp e)
  unfolding step
  step_lem cp p e s = go (Option-cases e.leaf) (Bool-cases (same_bytes e.index target))
    where
      ent : IsEntry hash get e
      ent = store p e s.gets

      done :
          e.index ≢ target
          → (r : StepResult) → Outcome hash get store target wide root cp r
          → StepDone cp p e r
      done ne (StepResult.continue q cp') o = o
      done ne (StepResult.found e') o = absurd o
      done ne (StepResult.failed cp') o = record { ended = o; entry = ent; other = ne }
      done ne StepResult.panic o = absurd o

      go :
          (e.leaf ≡ none) ⊎ ((l : LeafNode) × (e.leaf ≡ some l))
          → (same_bytes e.index target ≡ true) ⊎ (same_bytes e.index target ≡ false)
          → StepDone cp p e (step hash target p cp e)
      go (inl n) b = absurd (ent.leaf n)
      go (inr (l, n)) (inl b) =
          rw (is_none_lem hash get store target wide root e ent, b, step)
            (record {
              leaf = l;
              has_leaf = n;
              located = located cp p e l s n ((same_bytes_iff e.index target).0 b);
            })
      go (inr (l, n)) (inr b) =
          let ne : e.index ≢ target = λ h. cc ((same_bytes_iff e.index target).1 h, b) in
          let w = s.copath.short in
          rw (is_none_lem hash get store target wide root e ent, b, step)
            (done ne _ (
              step_loop_lem hash get store target wide root (levels + 1 - length cp) p cp e s ne
                (omega arith)))

  abbrev pub WalkDone : Walk → Type 0
  WalkDone (Walk.found curr e) = Found e
  WalkDone (Walk.failed cp e) = FailedAt cp e
  WalkDone Walk.missing = ⊥
  WalkDone Walk.panic = ⊥

  -- A walk through the store ends at the place of the searched index.
  pub walk_lem :
      (f p : ℕ) (cp : List ParentNode) (e : LogEntry)
      → Stands hash get store target wide root cp p e
      → levels < f + length cp
      → WalkDone (walk hash f get target p cp)
  unfolding walk
  walk_lem zero p cp e s h = let w = s.copath.short in absurd (omega arith)
  walk_lem (suc f) p cp e s h =
      rw (s.gets, walk)
        (go (step hash target p cp e) (step_lem cp p e s)
          (λ q cp' e' s' lt. walk_lem f q cp' e' s' (omega arith)))
    where
      go :
          (r : StepResult)
          → StepDone cp p e r
          → ((q : ℕ) (cp' : List ParentNode) (e' : LogEntry)
              → Stands hash get store target wide root cp' q e'
              → length cp < length cp'
              → WalkDone (walk hash f get target q cp'))
          → WalkDone (elim r [
            | StepResult.continue next_ptr cp' ↦ walk hash f get target next_ptr cp'
            | StepResult.found final_entry ↦ Walk.found p final_entry
            | StepResult.failed cp' ↦ Walk.failed cp' e
            | StepResult.panic ↦ Walk.panic
          ])
      go (StepResult.continue q cp') (lt, (e', s')) rec = rec q cp' e' s' lt
      go (StepResult.found e') d rec = d
      go (StepResult.failed cp') d rec = d
      go StepResult.panic d rec = d
