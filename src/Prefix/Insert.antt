-- ===== src/Prefix/Insert.antt =====
-- Insertions keep the store's entries linked, and return the roots of the entries that they write.
use ru_kt.Common.{
  ℕ, ◌+◌, ◌≡◌, ◌≢◌, refl, sym, ap, ◌∙◌, subst, arith, List, [], Option, none, some, ◌==◌,
  Bool-cases, inl, inr, ==_iff, ◌⊎◌, ◌%◌, ◌^◌,
}
use ru_kt.Tls.{Bytes}
use ru_kt.Prefix.{
  rollup, rollup_loop, leaf_hash, hashes, zero_value, LogEntry, LeafNode, levels, ParentNode, Walk,
  walk,
}
use ru_kt.Prefix.Operations.{leaf_of, result_at, new_entry, inserted, insert_internal, put}
use ru_kt.Prefix.Index.{IsIndex}
use ru_kt.Prefix.Step.{above, IsCopath, IsEntry, IsStore}
use ru_kt.Prefix.Round.{Stands}
use ru_kt.Prefix.Proofs.{WalkDone, walk_lem}
use ru_kt.Prefix.Replay.{start}

module _ (hash : Bytes → Bytes) where
  pub put_at :
      (get : ℕ → Option LogEntry) (pos : ℕ) (e : LogEntry) → put hash get pos e pos ≡ some e
  put_at get pos e = rw ((==_iff pos pos).1 refl) refl

  pub put_other :
      (get : ℕ → Option LogEntry) (pos : ℕ) (e : LogEntry) (p : ℕ)
      → p ≢ pos
      → put hash get pos e p ≡ get p
  put_other get pos e p h = elim (Bool-cases (p == pos)) [
    | inl t ↦ absurd (h ((==_iff p pos).0 t))
    | inr t ↦ rw t refl
  ]

  put_fresh :
      (get : ℕ → Option LogEntry) (pos : ℕ) (e : LogEntry) (p : ℕ) (x : LogEntry)
      → get pos ≡ none
      → get p ≡ some x
      → put hash get pos e p ≡ some x
  put_fresh get pos e p x fresh h = put_other get pos e p (λ same. cc (ap get same, fresh, h)) ∙ h

  IsCopath-put :
      (get : ℕ → Option LogEntry) (pos : ℕ) (e : LogEntry) (target : Bytes) (cp : List ParentNode)
      → get pos ≡ none
      → IsCopath hash get target cp
      → IsCopath hash (put hash get pos e) target cp
  IsCopath-put get pos e target cp fresh c = record {
    short = c.short;
    links = λ d n h.
        let l = c.links d n h in
        record {
          empty = l.empty;
          full = λ p q.
              let t = l.full p q in
              record {
                entry = t.entry;
                gets = put_fresh get pos e p t.entry fresh t.gets;
                agree = t.agree;
                parts = t.parts;
                value = t.value;
              };
        };
  }

  IsEntry-put :
      (get : ℕ → Option LogEntry) (pos : ℕ) (e x : LogEntry)
      → get pos ≡ none
      → IsEntry hash get x
      → IsEntry hash (put hash get pos e) x
  IsEntry-put get pos e x fresh i = record {
    index = i.index;
    leaf = i.leaf;
    copath = IsCopath-put get pos e x.index x.copath fresh i.copath;
  }

  pub IsStore-put :
      (get : ℕ → Option LogEntry) (pos : ℕ) (e : LogEntry)
      → get pos ≡ none
      → IsStore hash get
      → IsEntry hash get e
      → IsStore hash (put hash get pos e)
  IsStore-put get pos e fresh store ent p x h = elim (Bool-cases (p == pos)) [
    | inl t ↦
        let same : some e ≡ some x =
          sym (put_at get pos e) ∙ ap (put hash get pos e) (sym ((==_iff p pos).0 t)) ∙ h in
        subst
          (λ (o : Option LogEntry). elim o [
            | none ↦ ⊥
            | some y ↦ IsEntry hash (put hash get pos e) y
          ])
          same (IsEntry-put get pos e e fresh ent)
    | inr t ↦
        let old : get p ≡ some x =
          sym (put_other get pos e p (λ s. cc ((==_iff p pos).1 s, t))) ∙ h in
        IsEntry-put get pos e x fresh (store p x old)
  ]

  -- The root of the tree at a pointer.
  abbrev pub Rooted : (ℕ → Option LogEntry) → Option ℕ → Bytes → Type 0
  Rooted get none root = root ≡ zero_value
  Rooted get (some p) root = (e : LogEntry) × (get p ≡ some e) × (rollup hash e 0 ≡ root)

  -- With the same copath, an older root has no leaf of the index, or its leaf with the counter before.
  abbrev pub Replaces : Bytes → List ParentNode → ℕ → Bytes → Type 0
  Replaces index copath ctr root =
      ((ctr ≡ 0) × (above hash index copath zero_value ≡ root))
      ⊎ ((leaf : LeafNode) × (ctr ≡ (leaf.ctr + 1) % 2 ^ 32)
          × (rollup_loop hash index (hashes copath) levels 0 (leaf_hash hash index leaf.commitment)
              ≡ root))

  -- What one insertion gives.
  pub record Inserted (get : ℕ → Option LogEntry) (pos : ℕ) (ptr : Option ℕ) (root : Bytes)
      (index commitment : Bytes) : Type 0 where
    pub copath : List ParentNode
    pub ctr : ℕ
    pub gives : insert_internal hash get pos ptr index commitment ≡ (
        let e = new_entry pos index commitment copath ctr in
        some (rollup hash e 0, result_at pos e, e))
    pub entry : IsEntry hash get (new_entry pos index commitment copath ctr)
    pub replaces : Replaces index copath ctr root

  new_entry-IsEntry :
      (get : ℕ → Option LogEntry) (pos : ℕ) (index commitment : Bytes) (copath : List ParentNode)
      (ctr : ℕ)
      → IsIndex index
      → IsCopath hash get index copath
      → IsEntry hash get (new_entry pos index commitment copath ctr)
  new_entry-IsEntry get pos index commitment copath ctr wide c = record {
    index = wide;
    leaf = λ n. cc n;
    copath = c;
  }

  insert_walk :
      (get : ℕ → Option LogEntry) (store : IsStore hash get) (pos p : ℕ) (index commitment : Bytes)
      (wide : IsIndex index) (root : Bytes)
      → WalkDone hash get store index wide root (walk hash (levels + 1) get index p [])
      → Inserted get pos (some p) root index commitment
  unfolding insert_internal inserted
  insert_walk get store pos p index commitment wide root d =
      go (walk hash (levels + 1) get index p []) refl d
    where
      go :
          (w : Walk)
          → walk hash (levels + 1) get index p [] ≡ w
          → WalkDone hash get store index wide root w
          → Inserted get pos (some p) root index commitment
      go (Walk.found curr e) h f =
          let loc = f.located in
          record {
            copath = e.copath;
            ctr = ((leaf_of e).ctr + 1) % 2 ^ 32;
            gives = rw (h, insert_internal) refl;
            entry = new_entry-IsEntry get pos index commitment e.copath _ wide loc.copath;
            replaces = inr (f.leaf, rw f.has_leaf refl, loc.value);
          }
      go (Walk.failed cp e) h f =
          let end = f.ended in
          record {
            copath = cp;
            ctr = 0;
            gives = rw (h, insert_internal) refl;
            entry = new_entry-IsEntry get pos index commitment cp _ wide end.copath;
            replaces = inl (refl, end.value);
          }
      go Walk.missing h f = absurd f
      go Walk.panic h f = absurd f

  pub insert_lem :
      (get : ℕ → Option LogEntry) (pos : ℕ) (ptr : Option ℕ) (root index commitment : Bytes)
      → IsStore hash get
      → Rooted get ptr root
      → IsIndex index
      → Inserted get pos ptr root index commitment
  unfolding insert_internal
  insert_lem get pos none root index commitment store r wide = record {
    copath = [];
    ctr = 0;
    gives = refl;
    entry =
        new_entry-IsEntry get pos index commitment [] 0 wide
          (record { short = omega arith; links = λ d n h. absurd (cc h) });
    replaces = inl (refl, unfold rollup_loop in sym r);
  }
  insert_lem get pos (some p) root index commitment store (e, h, at) wide =
      insert_walk get store pos p index commitment wide root (
        walk_lem hash get store index wide root (levels + 1) p [] e
          (subst (λ r. Stands hash get store index wide r [] p e) at
            (start hash get store index wide p e h))
          (omega arith))
