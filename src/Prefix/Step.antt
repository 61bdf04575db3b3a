-- ===== src/Prefix/Step.antt =====
-- The walk of `step` through one entry: the copath so far always leads from the entry's value, and in
-- the end from the searched place, to the root.
use ru_kt.Common.{
  ℕ, zero, suc, ◌≤◌, ◌<◌, ◌≡◌, ◌≢◌, refl, sym, ap, ◌∙◌, arith, List, [], ◌∷◌, ◌++◌, Option, none,
  some, length, length-append, get_elem?, ◌⊎◌, inl, inr, Option-cases,
}
use ru_kt.Tls.{Bytes}
use ru_kt.Prefix.{
  get_bit, zero_value, sibling_at, beside, leaf_hash, rollup_loop, rollup, LogEntry, LeafNode,
  levels, hashes, ParentNode,
}
use ru_kt.Prefix.Fold.{
  Agree, rollup_loop_stop, rollup_loop_round, rollup_loop_split, rollup_loop_same,
  get_elem?-append_low, get_elem?-append_at, get_elem?-past,
}
use ru_kt.Prefix.Index.{IsIndex}

pub length-hashes : (l : List ParentNode) → length (hashes l) ≡ length l
length-hashes [] = refl
length-hashes (n ∷ l) = ap suc (length-hashes l)

hashes-append : (l k : List ParentNode) → hashes (l ++ k) ≡ hashes l ++ hashes k
hashes-append [] k = refl
hashes-append (n ∷ l) k = ap (◌∷◌ n.hash) (hashes-append l k)

get_elem?-hashes :
    (l : List ParentNode) (i : ℕ) (n : ParentNode)
    → get_elem? l i ≡ some n
    → get_elem? (hashes l) i ≡ some n.hash
get_elem?-hashes [] i n h = absurd (cc h)
get_elem?-hashes (m ∷ l) zero n h = cc h
get_elem?-hashes (m ∷ l) (suc i) n h = get_elem?-hashes l i n h

pub sibling_at-some :
    (l : List ParentNode) (i : ℕ) (n : ParentNode)
    → get_elem? l i ≡ some n
    → sibling_at (hashes l) i ≡ n.hash
unfolding sibling_at
sibling_at-some l i n h = rw (get_elem?-hashes l i n h) refl

pub sibling_at-past :
    (l : List ParentNode) (i : ℕ) → length l ≤ i → sibling_at (hashes l) i ≡ zero_value
unfolding sibling_at
sibling_at-past l i h =
    let e = length-hashes l in rw (get_elem?-past (hashes l) i (omega (arith, h, e))) refl

sibling_at-append_low :
    (l k : List ParentNode) (i : ℕ)
    → i < length l
    → sibling_at (hashes (l ++ k)) i ≡ sibling_at (hashes l) i
unfolding sibling_at
sibling_at-append_low l k i h =
    let e = length-hashes l in
    rw (hashes-append l k, get_elem?-append_low (hashes l) (hashes k) i (omega (arith, h, e))) refl

-- Where the path of an entry starts, and its value there.
abbrev pub start_of : LogEntry → ℕ
start_of e = elim e.leaf [ none ↦ length e.copath | some l ↦ levels ]

module _ (hash : Bytes → Bytes) where
  abbrev pub base_of : LogEntry → Bytes
  base_of e = elim e.leaf [ none ↦ zero_value | some l ↦ leaf_hash hash e.index l.commitment ]

  pub rollup-loop :
      (e : LogEntry) (level : ℕ)
      → rollup hash e level
        ≡ rollup_loop hash e.index (hashes e.copath) (start_of e) level (base_of e)
  unfolding rollup
  rollup-loop e level = go (Option-cases e.leaf)
    where
      go :
          (e.leaf ≡ none) ⊎ ((l : LeafNode) × (e.leaf ≡ some l))
          → rollup hash e level
            ≡ rollup_loop hash e.index (hashes e.copath) (start_of e) level (base_of e)
      go (inl n) = rw (rollup, n) refl
      go (inr (l, n)) = rw (rollup, n) refl

  -- The value of an entry's node is that of its children.
  pub rollup_down :
      (e : LogEntry) (d : ℕ)
      → d < start_of e
      → rollup hash e d
        ≡ beside hash e.index d (sibling_at (hashes e.copath) d) (rollup hash e (suc d))
  rollup_down e d h =
      rollup-loop e d
      ∙ rollup_loop_split hash e.index (hashes e.copath) (start_of e) (suc d) d (base_of e)
          (omega arith) (omega arith)
      ∙ ap (λ (v : Bytes). rollup_loop hash e.index (hashes e.copath) (suc d) d v)
          (sym (rollup-loop e (suc d)))
      ∙ rollup_loop_round hash e.index (hashes e.copath) d d (rollup hash e (suc d)) (omega arith)
      ∙ rollup_loop_stop hash e.index (hashes e.copath) d d _ (omega arith)

  -- The root above a value at the end of a copath of `target`.
  abbrev pub above : Bytes → List ParentNode → Bytes → Bytes
  above target cp a = rollup_loop hash target (hashes cp) (length cp) 0 a

  pub above-append :
      (target : Bytes) (cp : List ParentNode) (n : ParentNode) (a : Bytes)
      → above target (cp ++ (n ∷ [])) a ≡ above target cp (beside hash target (length cp) n.hash a)
  above-append target cp n a =
      ap (λ (c : ℕ). rollup_loop hash target (hashes (cp ++ (n ∷ []))) c 0 a)
        (length-append cp (n ∷ []) ∙ omega arith)
      ∙ rollup_loop_round hash target (hashes (cp ++ (n ∷ []))) (length cp) 0 a (omega arith)
      ∙ ap
          (λ (s : Bytes).
            rollup_loop hash target (hashes (cp ++ (n ∷ []))) (length cp) 0
              (beside hash target (length cp) s a))
          (sibling_at-some (cp ++ (n ∷ [])) (length cp) n (get_elem?-append_at cp n))
      ∙ rollup_loop_same hash target target (hashes (cp ++ (n ∷ []))) (hashes cp) (length cp) 0 _
          (λ i h h'. refl) (λ i h h'. sibling_at-append_low cp (n ∷ []) i h')

  -- `get` finds the entry that a node points to, and that entry parts from the path at the node's
  -- level and has the node's value there; a node with no pointer is empty.
  pub record Points (get : ℕ → Option LogEntry) (target : Bytes) (d : ℕ) (n : ParentNode) (p : ℕ)
      : Type 0 where
    pub entry : LogEntry
    pub gets : get p ≡ some entry
    pub agree : Agree d entry.index target
    pub parts : get_bit entry.index d ≢ get_bit target d
    pub value : rollup hash entry (suc d) ≡ n.hash

  pub record IsLink (get : ℕ → Option LogEntry) (target : Bytes) (d : ℕ) (n : ParentNode)
      : Type 0 where
    pub empty : n.ptr ≡ none → n.hash ≡ zero_value
    pub full : (p : ℕ) → n.ptr ≡ some p → Points get target d n p

  pub record IsCopath (get : ℕ → Option LogEntry) (target : Bytes) (cp : List ParentNode)
      : Type 0 where
    pub short : length cp ≤ levels
    pub links : (d : ℕ) (n : ParentNode) → get_elem? cp d ≡ some n → IsLink get target d n

  pub record IsEntry (get : ℕ → Option LogEntry) (e : LogEntry) : Type 0 where
    pub index : IsIndex e.index
    pub leaf : e.leaf ≢ none
    pub copath : IsCopath get e.index e.copath

  -- Every entry of the store links to entries of the store.
  abbrev pub IsStore : (ℕ → Option LogEntry) → Type 0
  IsStore get = (p : ℕ) (e : LogEntry) → get p ≡ some e → IsEntry get e
