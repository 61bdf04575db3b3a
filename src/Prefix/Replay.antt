-- ===== src/Prefix/Replay.antt =====
-- The client's root of each result that the server's search returns is the server's root.
use ru_kt.Common.{
  take-append, drop-append, ℕ, ◌+◌, ◌^◌, ◌≤◌, ◌<◌, ◌≡◌, ◌≢◌, refl, sym, ap, ◌∙◌, subst, arith, List,
  [], ◌++◌, Option, none, some, ltb, length, length-append, get_elem?, take, true, false,
  Bool-cases, ◌⊎◌, inl, inr, Option-cases, same_bytes, same_bytes_iff,
}
use ru_kt.Tls.{Bytes}
use ru_kt.Prefix.{
  zero_value, leaf_hash, rollup_loop, rollup, LogEntry, LeafNode, levels, hashes, ParentNode, Walk,
  ProofResult, PrefixProof,
}
use ru_kt.Prefix.Operations.{proof_result, result_of, search_for_proof}
use ru_kt.Prefix.Verify.{climb, terminal, compute_root_from_result}
use ru_kt.Prefix.Fold.{climb-rollup_loop}
use ru_kt.Prefix.Index.{IsIndex}
use ru_kt.Prefix.Step.{length-hashes, IsCopath, IsStore}
use ru_kt.Prefix.Round.{Stands, Ended}
use ru_kt.Prefix.Proofs.{WalkDone, walk_lem}

module _ (hash : Bytes → Bytes) where
  -- A walk from an entry starts with an empty copath.
  pub start :
      (get : ℕ → Option LogEntry) (store : IsStore hash get) (target : Bytes)
      (wide : IsIndex target) (p : ℕ) (e : LogEntry)
      → get p ≡ some e
      → Stands hash get store target wide (rollup hash e 0) [] p e
  start get store target wide p e h = record {
    gets = h;
    copath = record { short = omega arith; links = λ d n q. absurd (cc q) };
    agree = λ i l. absurd (omega arith);
    value = unfold rollup_loop in refl;
  }

  -- What makes a result verify: the value of its terminal node, folded with its elements.
  record Verifies (target root : Bytes) (r : ProofResult) : Type 0 where
    depth : r.depth ≡ length r.inclusion_proof
    short : r.depth ≤ levels
    curr : Bytes
    level : ℕ
    ends : terminal hash (result_of r) target r.commitment ≡ some (curr, level)
    value : climb hash target r.inclusion_proof level curr ≡ root

  compute_root-Verifies :
      (target root : Bytes) (r : ProofResult) (proof : PrefixProof) (i : ℕ)
      (before after : List Bytes)
      → Verifies target root r
      → get_elem? proof.results i ≡ some (result_of r)
      → proof.elements ≡ before ++ (r.inclusion_proof ++ after)
      → length before + r.depth < 2 ^ 64
      → compute_root_from_result hash proof i target r.commitment (length before)
        ≡ some (root, r.depth)
  unfolding compute_root_from_result terminal result_of
  compute_root-Verifies target root r proof i before after v at parts fits =
      let low : ltb levels r.depth ≡ false = let w = v.short in ground arith in
      let narrow : ltb (length before + r.depth) (2 ^ 64) ≡ true = ground arith in
      let len = length-append before (r.inclusion_proof ++ after) in
      let len' = length-append r.inclusion_proof after in
      let all : ltb (length (before ++ (r.inclusion_proof ++ after))) (length before + r.depth)
          ≡ false =
        let w = v.depth in ground arith in
      let cut : take r.depth (r.inclusion_proof ++ after) ≡ r.inclusion_proof =
        ap (λ (n : ℕ). take n (r.inclusion_proof ++ after)) v.depth
        ∙ take-append r.inclusion_proof after in
      rw
        (
          at,
          parts,
          depth_of,
          low,
          v.ends,
          narrow,
          all,
          drop-append before (r.inclusion_proof ++ after),
          cut,
          v.value,
          compute_root_from_result,
        )
        refl
    where
      depth_of : (result_of r).depth ≡ r.depth
      depth_of = unfold result_of in refl

  module _ (get : ℕ → Option LogEntry) (store : IsStore hash get) (target : Bytes)
      (wide : IsIndex target) (root : Bytes) where
    abbrev Done : Walk → Type 0
    Done w = WalkDone hash get store target wide root w

    proved-found :
        (curr : ℕ) (e : LogEntry)
        → Done (Walk.found curr e)
        → (r : ProofResult) × (proof_result (Walk.found curr e) ≡ some r) × Verifies target root r
    unfolding proof_result terminal result_of
    proved-found curr e d =
        let loc = d.located in
        let c = loc.copath in
        (
          _,
          refl,
          record {
            depth = sym (length-hashes e.copath);
            short = c.short;
            curr = leaf_hash hash target d.leaf.commitment;
            level = levels;
            ends = rw d.has_leaf refl;
            value =
                climb-rollup_loop hash target (hashes e.copath) levels
                  (leaf_hash hash target d.leaf.commitment)
                ∙ loc.value;
          },
        )

    proved-failed :
        (cp : List ParentNode) (e : LogEntry)
        → Done (Walk.failed cp e)
        → (r : ProofResult) × (proof_result (Walk.failed cp e) ≡ some r) × Verifies target root r
    unfolding proof_result terminal result_of
    proved-failed cp e d = go (Option-cases e.leaf)
      where
        end : Ended hash get store target wide root cp
        end = d.ended

        c : IsCopath hash get target cp
        c = end.copath

        other : same_bytes e.index target ≡ false
        other = elim (Bool-cases (same_bytes e.index target)) [
          | inl t ↦ absurd (d.other ((same_bytes_iff e.index target).0 t))
          | inr t ↦ t
        ]

        value : climb hash target (hashes cp) (length cp) zero_value ≡ root
        value = climb-rollup_loop hash target (hashes cp) (length cp) zero_value ∙ end.value

        go :
            (e.leaf ≡ none) ⊎ ((l : LeafNode) × (e.leaf ≡ some l))
            → (r : ProofResult) × (proof_result (Walk.failed cp e) ≡ some r)
              × Verifies target root r
        go (inl n) = absurd (d.entry.leaf n)
        go (inr (l, n)) = (
          record {
            inclusion_proof = hashes cp;
            commitment = none;
            result_type = 2;
            leaf_vrf_output = some e.index;
            leaf_commitment = some l.commitment;
            depth = length cp;
          },
          rw (n, proof_result) refl,
          record {
            depth = sym (length-hashes cp);
            short = c.short;
            curr = zero_value;
            level = length cp;
            ends = rw (other, terminal) refl;
            value = value;
          },
        )

    proved :
        (w : Walk) → Done w → (r : ProofResult) × (proof_result w ≡ some r) × Verifies target root r
    proved (Walk.found curr e) d = proved-found curr e d
    proved (Walk.failed cp e) d = proved-failed cp e d
    proved Walk.missing d = absurd d
    proved Walk.panic d = absurd d

  searched :
      (get : ℕ → Option LogEntry) (p : ℕ) (e : LogEntry) (target : Bytes)
      → IsStore hash get
      → get p ≡ some e
      → IsIndex target
      → (r : ProofResult) × (search_for_proof hash get p target ≡ some r)
        × Verifies target (rollup hash e 0) r
  unfolding search_for_proof
  searched get p e target store h wide = proved get store target wide (rollup hash e 0) _ (
      walk_lem hash get store target wide (rollup hash e 0) (levels + 1) p [] e
        (start get store target wide p e h) (omega arith))

  -- In a store whose entries link to each other as their copaths say, the search for any index ends
  -- with a proof.
  pub search_for_proof-ne-none :
      (get : ℕ → Option LogEntry) (p : ℕ) (e : LogEntry) (target : Bytes)
      → IsStore hash get
      → get p ≡ some e
      → IsIndex target
      → search_for_proof hash get p target ≢ none
  search_for_proof-ne-none get p e target store h wide n =
      let (r, q, v) = searched get p e target store h wide in cc (q, n)

  -- The client computes the root of the searched entry from the result that the search returns,
  -- whether or not the index is present and wherever its elements stand in a proof, and reads exactly
  -- its own elements.
  pub compute_root_from_result-search_for_proof :
      (get : ℕ → Option LogEntry) (p : ℕ) (e : LogEntry) (target : Bytes) (r : ProofResult)
      (proof : PrefixProof) (i : ℕ) (before after : List Bytes)
      → IsStore hash get
      → get p ≡ some e
      → IsIndex target
      → search_for_proof hash get p target ≡ some r
      → get_elem? proof.results i ≡ some (result_of r)
      → proof.elements ≡ before ++ (r.inclusion_proof ++ after)
      → length before + r.depth < 2 ^ 64
      → compute_root_from_result hash proof i target r.commitment (length before)
        ≡ some (rollup hash e 0, r.depth)
  compute_root_from_result-search_for_proof get p e target r proof i before after store h wide found
        at parts fits =
      let (r', q, v) = searched get p e target store h wide in
      let same : r' ≡ r = some_inj r' r (sym q ∙ found) in
      compute_root-Verifies target (rollup hash e 0) r proof i before after
        (subst (λ (x : ProofResult). Verifies target (rollup hash e 0) x) same v) at parts fits
    where
      some_inj : (a b : ProofResult) → some a ≡ some b → a ≡ b
      some_inj a b h = ap (λ (o : Option ProofResult). elim o [ none ↦ a | some x ↦ x ]) h
