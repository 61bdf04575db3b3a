-- ===== src/Client/Lookups.antt =====
-- What an accepted ladder of lookups shows.
use ru_kt.Common.{
  ℕ, suc, ◌≤◌, ◌+◌, ◌≡◌, ◌≢◌, refl, sym, ap, ◌∙◌, subst, Bool, true, false, List, [], ◌∷◌, map,
  Option, none, some, leb, ◌==◌, ==_iff, All, bind_then, require_then, some_injective, Bool-cases,
  inl, inr, same_bytes_iff, same_bytes_refl, length, get_elem?,
}
use ru_kt.Tls.{Bytes}
use ru_kt.Crypto.{construct_vrf_input}
use ru_kt.Ladder.{base_binary_ladder, decode_search_ladder, u32_max}
use ru_kt.Ladder.Reach.{greatest_unique}
use ru_kt.Prefix.{PrefixProof, PrefixSearchResult}
use ru_kt.Prefix.Verify.{compute_root_from_result}
use ru_kt.Client.LookupParts.{
  relate_lem, slot_found, slot_keeps, same_versions_lem, target_committed, absent_committed,
  other_committed,
}
use ru_kt.Client.Ladders.{
  BinaryLadderStep, Relation, Session, Progress, find, slot, relate, commitment_of, vrf_output,
  agrees, check_lookup, check_lookups, same_versions, verify_ladder_proof,
}

module _ (hash : Bytes → Bytes) (vrf_verify : Bytes → Bytes → Option Bytes) (label : Bytes)
    (binary_ladder : List BinaryLadderStep) (target_commitment : Bytes) where
  -- An output of the VRF for a version of the label, by a proof that was verified.
  pub IsOutput : ℕ → Bytes → Type 0
  IsOutput v out =
      (input : Bytes) × (proof : Bytes) × (construct_vrf_input label v ≡ some input)
      × (vrf_verify input proof ≡ some out)

  unfoldable pub IsCache : List (ℕ × Bytes) → Type 0
  IsCache cache = All (λ (e : ℕ × Bytes). IsOutput e.0 e.1) cache

  found :
      (cache : List (ℕ × Bytes)) (v : ℕ) (out : Bytes)
      → IsCache cache
      → find cache v ≡ some out
      → IsOutput v out
  unfolding find IsCache
  found [] v out c h = absurd (cc h)
  found ((w, o) ∷ cache) v out (i, c) h = elim (Bool-cases (w == v)) [
    | inl e ↦
        let same = (==_iff w v).0 e in
        subst (λ x. IsOutput x out) same (subst (IsOutput w) (some_injective _ _ (rw e at h)) i)
    | inr e ↦ found cache v out c (rw e at h)
  ]

  vrf_output-IsCache :
      (cache cache' : List (ℕ × Bytes)) (v : ℕ) (proof out : Bytes) (o : Option Bytes)
      → find cache v ≡ o
      → IsCache cache
      → vrf_output hash vrf_verify label binary_ladder target_commitment o cache v proof
        ≡ some (out, cache')
      → IsOutput v out × IsCache cache'
  unfolding vrf_output IsCache IsOutput
  vrf_output-IsCache cache cache' v proof out (some x) f c h =
      let same = some_injective _ _ h in
      (
        subst (IsOutput v) (ap (λ (r : Bytes × List (ℕ × Bytes)). r.0) same) (found cache v x c f),
        subst IsCache (ap (λ (r : Bytes × List (ℕ × Bytes)). r.1) same) c,
      )
  vrf_output-IsCache cache cache' v proof out none f c h =
      bind_then (construct_vrf_input label v) _ _ h (λ input e rest.
        bind_then (vrf_verify input proof) _ _ rest (λ x g end.
          let same = some_injective _ _ end in
          let shown : IsOutput v x = (input, proof, e, g) in
          (
            subst (IsOutput v) (ap (λ (r : Bytes × List (ℕ × Bytes)). r.0) same) shown,
            subst IsCache (ap (λ (r : Bytes × List (ℕ × Bytes)). r.1) same) (shown, c),
          )))

  -- The lookup that stands for a result of the proof leads to a root. The result's elements start at
  -- the offset. The commitment is that of an absent version, the target's own, or that of the step in the
  -- version's slot.
  pub record Shown (prefix_proof : PrefixProof) (target : ℕ) (root : Bytes)
      (wire_index : List (ℕ × ℕ)) (result_idx offset : ℕ) (lk : ℕ × Bool) : Type 0 where
    pub answer : lk.1 ≡ leb lk.0 target
    pub index : Bytes
    pub output : IsOutput lk.0 index
    pub commitment : Option Bytes
    pub consumed : ℕ
    pub leads :
        compute_root_from_result hash prefix_proof result_idx index commitment offset
        ≡ some (root, consumed)
    pub at_target : lk.0 ≡ target → commitment ≡ some target_commitment
    pub absent : lk.1 ≡ false → commitment ≡ none
    pub slot_idx : ℕ
    pub in_slot : find wire_index lk.0 ≡ some slot_idx
    pub step : BinaryLadderStep
    pub has_step : get_elem? binary_ladder slot_idx ≡ some step
    pub other :
        lk.1 ≡ true
        → lk.0 ≢ target
        → (c : Bytes) × (step.commitment ≡ some c) × (commitment ≡ some c)

  -- Each lookup stands for its own result, and the elements are used one lookup after the other, to
  -- the end.
  abbrev pub AllShown : PrefixProof → ℕ → Bytes → List (ℕ × ℕ) → ℕ → ℕ → List (ℕ × Bool) → Type 0
  AllShown prefix_proof target root wire_index j offset [] = offset ≡ length prefix_proof.elements
  AllShown prefix_proof target root wire_index j offset (lk ∷ decoded) =
      (s : Shown prefix_proof target root wire_index j offset lk) × AllShown prefix_proof target
        root wire_index (suc j) (offset + s.consumed) decoded

  -- A step of the loop, at the rightmost entry for a greatest version.
  record Checked (prefix_proof : PrefixProof) (target j : ℕ) (lk : ℕ × Bool) (p p' : Progress)
      : Type 0 where
    root : Bytes
    shown : Shown prefix_proof target root p'.session.wire_index j p.elements_offset lk
    offset : p'.elements_offset ≡ p.elements_offset + shown.consumed
    the_root : p'.computed_root ≡ some root
    agreed : agrees p.computed_root root ≡ true
    kept : p'.relation ≡ p.relation
    slots : (w i : ℕ) → find p.session.wire_index w ≡ some i → find p'.session.wire_index w ≡ some i
    cache : IsCache p'.session.vrf_cache

  check_lookup-Checked :
      (prefix_proof : PrefixProof) (target j : ℕ) (lk : ℕ × Bool) (p p' : Progress)
      → IsCache p.session.vrf_cache
      → check_lookup hash vrf_verify label binary_ladder target_commitment prefix_proof target true
          true j lk p
        ≡ some p'
      → Checked prefix_proof target j lk p p'
  unfolding check_lookup
  check_lookup-Checked prefix_proof target j lk p p' c h =
      bind_then (relate true true target lk p.relation) _ _ h (λ r e h1.
        bind_then
          (get_elem? binary_ladder
            (slot (find p.session.wire_index lk.0) p.session.wire_index lk.0).0)
          _ _ h1
          (λ step f h2.
            bind_then
              (vrf_output hash vrf_verify label binary_ladder target_commitment
                (find p.session.vrf_cache lk.0) p.session.vrf_cache lk.0 step.proof)
              _ _ h2
              (λ (out, cache) g h3.
                bind_then (commitment_of true target target_commitment step lk) _ _ h3
                  (λ commitment k h4.
                    bind_then
                      (compute_root_from_result hash prefix_proof j out commitment
                        p.elements_offset)
                      _ _ h4
                      (λ (root, consumed) l h5.
                        require_then (agrees p.computed_root root) _ _ h5 (λ ok end.
                          let (answer, same) = relate_lem target lk.0 lk.1 p.relation r e in
                          let (output, cached) =
                            vrf_output-IsCache p.session.vrf_cache cache lk.0 step.proof out
                              (find p.session.vrf_cache lk.0) refl c g in
                          subst (Checked prefix_proof target j lk p) (some_injective _ _ end)
                            (record {
                              root = root;
                              shown = record {
                                answer = answer;
                                index = out;
                                output = output;
                                commitment = commitment;
                                consumed = consumed;
                                leads = l;
                                at_target =
                                    target_committed target_commitment target step lk commitment
                                      answer k;
                                absent =
                                    absent_committed target_commitment target step lk commitment k;
                                slot_idx =
                                    (slot (find p.session.wire_index lk.0) p.session.wire_index
                                      lk.0).0;
                                in_slot = slot_found p.session.wire_index lk.0;
                                step = step;
                                has_step = f;
                                other =
                                    other_committed target_commitment target step lk commitment k;
                              };
                              offset = refl;
                              the_root = refl;
                              agreed = ok;
                              kept = same;
                              slots = slot_keeps p.session.wire_index lk.0;
                              cache = cached;
                            })))))))

  moved :
      (prefix_proof : PrefixProof) (target j offset offset' : ℕ) (root root' : Bytes)
      (wire wire' : List (ℕ × ℕ)) (lk : ℕ × Bool) (decoded : List (ℕ × Bool))
      → root ≡ root'
      → ((w i : ℕ) → find wire w ≡ some i → find wire' w ≡ some i)
      → (s : Shown prefix_proof target root wire j offset lk) → offset' ≡ offset + s.consumed
      → AllShown prefix_proof target root' wire' (suc j) offset' decoded
      → AllShown prefix_proof target root' wire' j offset (lk ∷ decoded)
  moved prefix_proof target j offset offset' root root' wire wire' lk decoded same slots s e rest =
      (
        record {
          answer = s.answer;
          index = s.index;
          output = s.output;
          commitment = s.commitment;
          consumed = s.consumed;
          leads = s.leads ∙ ap (λ r. some (r, s.consumed)) same;
          at_target = s.at_target;
          absent = s.absent;
          slot_idx = s.slot_idx;
          in_slot = slots lk.0 s.slot_idx s.in_slot;
          step = s.step;
          has_step = s.has_step;
          other = s.other;
        },
        subst (λ o. AllShown prefix_proof target root' wire' (suc j) o decoded) e rest,
      )

  -- The loop, with the root that it ends with.
  checked :
      (decoded : List (ℕ × Bool)) (prefix_proof : PrefixProof) (target j : ℕ) (p q : Progress)
      (root : Bytes)
      → IsCache p.session.vrf_cache
      → check_lookups hash vrf_verify label binary_ladder target_commitment prefix_proof target true
          true j decoded p
        ≡ some q
      → q.computed_root ≡ some root
      → q.elements_offset ≡ length prefix_proof.elements
      → (agrees p.computed_root root ≡ true)
        × (q.relation ≡ p.relation)
        × IsCache q.session.vrf_cache
        × ((w i : ℕ) → find p.session.wire_index w ≡ some i → find q.session.wire_index w ≡ some i)
        × AllShown prefix_proof target root q.session.wire_index j p.elements_offset decoded
  unfolding check_lookups
  checked [] prefix_proof target j p q root c h e used =
      let same = some_injective _ _ h in
      let ended : p.computed_root ≡ some root = ap (λ (x : Progress). x.computed_root) same ∙ e in
      (
        subst (λ o. agrees o root ≡ true) (sym ended) (same_bytes_refl root),
        sym (ap (λ (x : Progress). x.relation) same),
        subst (λ (x : Progress). IsCache x.session.vrf_cache) same c,
        λ w i g. ap (λ (x : Progress). find x.session.wire_index w) (sym same) ∙ g,
        ap (λ (x : Progress). x.elements_offset) same ∙ used,
      )
  checked (lk ∷ decoded) prefix_proof target j p q root c h e used =
      bind_then
        (check_lookup hash vrf_verify label binary_ladder target_commitment prefix_proof target true
          true j lk p)
        _ _ h
        (λ p' f rest.
          let s = check_lookup-Checked prefix_proof target j lk p p' c f in
          let (agreed, kept, cache, slots, shown) =
            checked decoded prefix_proof target (suc j) p' q root s.cache rest e used in
          let same : s.root ≡ root =
            (same_bytes_iff s.root root).0 (subst (λ o. agrees o root ≡ true) s.the_root agreed) in
          (
            subst (λ r. agrees p.computed_root r ≡ true) same s.agreed,
            kept ∙ s.kept,
            cache,
            λ w i g. slots w i (s.slots w i g),
            moved prefix_proof target j p.elements_offset p'.elements_offset s.root root
                p'.session.wire_index q.session.wire_index lk decoded same slots s.shown s.offset
                shown,
          ))

  -- What is shown by a ladder that is accepted at the rightmost entry for a greatest version.
  pub record Accepted (prefix_proof : PrefixProof) (target : ℕ) (root : Bytes) (relation : Relation)
      (session' : Session) : Type 0 where
    pub decoded : List (ℕ × Bool)
    pub decodes :
        decode_search_ladder
          (map (λ (r : PrefixSearchResult). r.result_type) prefix_proof.results)
          target
        ≡ some decoded
    pub complete : map (λ (lk : ℕ × Bool). lk.0) decoded ≡ base_binary_ladder target
    pub lookups : AllShown prefix_proof target root session'.wire_index 0 0 decoded
    pub related : relation ≡ Relation.equal
    pub cached : IsCache session'.vrf_cache

  -- A ladder that is accepted at the rightmost entry for a greatest version, with a cache of verified
  -- outputs, has a lookup of each version of the target's base ladder, in order. The lookup at each
  -- place answers whether its version is at most the target, is made with a verified output of the
  -- VRF, and leads from the proof's result at the same place, with the elements after those of the
  -- results before, to the returned root: that of the target with the target's commitment, that of
  -- another included version with the commitment of the ladder step in the version's slot, and that of
  -- an absent one with none. The elements are used to the end. The relation is equality, and the cache
  -- again has verified outputs only.
  pub verify_ladder_proof-Accepted :
      (prefix_proof : PrefixProof) (target : ℕ) (session session' : Session) (root : Bytes)
      (relation : Relation)
      → IsCache session.vrf_cache
      → verify_ladder_proof hash vrf_verify label binary_ladder target_commitment prefix_proof
          target true true session
        ≡ some (root, relation, session')
      → Accepted prefix_proof target root relation session'
  unfolding verify_ladder_proof
  verify_ladder_proof-Accepted prefix_proof target session session' root relation c h =
      bind_then
        (decode_search_ladder (map (λ (r : PrefixSearchResult). r.result_type) prefix_proof.results)
          target)
        _ _ h
        (λ decoded d h1.
          bind_then
            (check_lookups hash vrf_verify label binary_ladder target_commitment prefix_proof target
              true true 0 decoded _)
            _ _ h1
            (λ p e h2.
              require_then (p.elements_offset == length prefix_proof.elements) _ _ h2 (λ used h3.
                require_then (same_versions decoded (base_binary_ladder target)) _ _ h3 (λ all h4.
                  bind_then p.computed_root (λ x. some (x, p.relation, p.session)) _ h4
                    (λ r f end.
                      let same = some_injective _ _ end in
                      let (agreed, kept, cache, slots, shown) =
                        checked decoded prefix_proof target 0 _ p r c e f
                          ((==_iff p.elements_offset (length prefix_proof.elements)).0 used) in
                      subst
                        (λ (x : Bytes × Relation × Session).
                          Accepted prefix_proof target x.0 x.1 x.2)
                        same
                        (record {
                          decoded = decoded;
                          decodes = d;
                          complete = same_versions_lem decoded _ all;
                          lookups = shown;
                          related = kept;
                          cached = cache;
                        }))))))

  agreeing :
      (prefix_proof : PrefixProof) (target m : ℕ) (root : Bytes) (wire_index : List (ℕ × ℕ))
      (j offset : ℕ) (decoded : List (ℕ × Bool))
      → AllShown prefix_proof target root wire_index j offset decoded
      → All (λ (lk : ℕ × Bool). lk.1 ≡ leb lk.0 m) decoded
      → All (λ v. leb v m ≡ leb v target) (map (λ (lk : ℕ × Bool). lk.0) decoded)
  agreeing prefix_proof target m root wire_index j offset [] a b = _
  agreeing prefix_proof target m root wire_index j offset (lk ∷ decoded) (a, shown) (b, answers) = (
    sym b ∙ a.answer,
    agreeing prefix_proof target m root wire_index (suc j) (offset + a.consumed) decoded shown
        answers,
  )

  -- A ladder that is accepted at the rightmost entry for a greatest version, and whose answers are
  -- those of an entry where m is the greatest version of the label, has m as its target.
  pub verify_ladder_proof-greatest :
      (prefix_proof : PrefixProof) (target m : ℕ) (session session' : Session) (root : Bytes)
      (relation : Relation) (decoded : List (ℕ × Bool))
      → target ≤ u32_max
      → m ≤ u32_max
      → IsCache session.vrf_cache
      → decode_search_ladder
          (map (λ (r : PrefixSearchResult). r.result_type) prefix_proof.results)
          target
        ≡ some decoded
      → All (λ (lk : ℕ × Bool). lk.1 ≡ leb lk.0 m) decoded
      → verify_ladder_proof hash vrf_verify label binary_ladder target_commitment prefix_proof
          target true true session
        ≡ some (root, relation, session')
      → m ≡ target
  verify_ladder_proof-greatest prefix_proof target m session session' root relation decoded ht hm c
        d answers h =
      let a = verify_ladder_proof-Accepted prefix_proof target session session' root relation c h in
      let same = some_injective _ _ (sym d ∙ a.decodes) in
      let agreed =
        agreeing prefix_proof target m root session'.wire_index 0 0 a.decoded a.lookups
          (subst (All (λ (lk : ℕ × Bool). lk.1 ≡ leb lk.0 m)) same answers) in
      greatest_unique target m ht hm (subst (All (λ v. leb v m ≡ leb v target)) a.complete agreed)
