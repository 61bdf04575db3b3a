-- ===== src/Client/LookupParts.antt =====
-- The parts of one lookup: its answer, its slot in the ladder, its commitment, and the versions of all
-- lookups.
use ru_kt.Common.{
  ℕ, ◌&&◌, ◌≡◌, ◌≢◌, refl, sym, ap, arith, Bool, true, false, List, [], ◌∷◌, map, Option, none,
  some, leb, ltb, ◌==◌, ==_iff, bind_then, require_then, some_injective, Bool-cases, inl, inr,
  &&_true,
}
use ru_kt.Tls.{Bytes}
use ru_kt.Client.Ladders.{
  BinaryLadderStep, Relation, find, slot, relate, commitment_of, is_some, same_versions,
}

pub relate_lem :
    (target v : ℕ) (included : Bool) (r r' : Relation)
    → relate true true target (v, included) r ≡ some r'
    → (included ≡ leb v target) × (r' ≡ r)
unfolding relate
relate_lem target v true r r' h = elim (Bool-cases (ltb target v)) [
  | inl e ↦ absurd (cc (rw e at h))
  | inr e ↦
      let le : leb v target ≡ true = ground arith in (sym le, sym (some_injective _ _ (rw e at h)))
]
relate_lem target v false r r' h = elim (Bool-cases (leb v target)) [
  | inl e ↦ absurd (cc (rw e at h))
  | inr e ↦ (sym e, sym (some_injective _ _ (rw e at h)))
]

pub slot_found :
    (wire_index : List (ℕ × ℕ)) (v : ℕ)
    → find (slot (find wire_index v) wire_index v).1 v
      ≡ some (slot (find wire_index v) wire_index v).0
slot_found wire_index v = go (find wire_index v) refl
  where
    go :
        (o : Option ℕ)
        → find wire_index v ≡ o
        → find (slot o wire_index v).1 v ≡ some (slot o wire_index v).0
    go (some i) e = e
    go none e = unfold find in rw ((==_iff v v).1 refl) refl

pub slot_keeps :
    (wire_index : List (ℕ × ℕ)) (v w i : ℕ)
    → find wire_index w ≡ some i
    → find (slot (find wire_index v) wire_index v).1 w ≡ some i
slot_keeps wire_index v w i h = go (find wire_index v) refl
  where
    go : (o : Option ℕ) → find wire_index v ≡ o → find (slot o wire_index v).1 w ≡ some i
    go (some k) e = h
    go none e = elim (Bool-cases (v == w)) [
      | inl t ↦ absurd (cc (ap (find wire_index) ((==_iff v w).0 t), e, h))
      | inr t ↦ unfold find in rw t h
    ]

pub same_versions_lem :
    (decoded : List (ℕ × Bool)) (versions : List ℕ)
    → same_versions decoded versions ≡ true
    → map (λ (lk : ℕ × Bool). lk.0) decoded ≡ versions
same_versions_lem [] [] h = refl
same_versions_lem [] (v ∷ versions) h = absurd (cc h)
same_versions_lem (lk ∷ decoded) [] h = absurd (cc h)
same_versions_lem (lk ∷ decoded) (v ∷ versions) h =
    let (e, rest) = &&_true (lk.0 == v) _ h in
    let first : lk.0 ≡ v = (==_iff lk.0 v).0 e in
    let others = same_versions_lem decoded versions rest in cc (first, others)

pub target_committed :
    (target_commitment : Bytes) (target : ℕ) (step : BinaryLadderStep) (lk : ℕ × Bool)
    (c : Option Bytes)
    → lk.1 ≡ leb lk.0 target
    → commitment_of true target target_commitment step lk ≡ some c
    → lk.0 ≡ target
    → c ≡ some target_commitment
unfolding commitment_of
target_committed target_commitment target step (v, true) c a h e =
    let at : (v == target) ≡ true = (==_iff v target).1 e in
    require_then _ _ _ (rw at at h) (λ o end. sym (some_injective _ _ end))
target_committed target_commitment target step (v, false) c a h e =
    let at : leb v target ≡ true = ground arith in absurd (cc (a, at))

pub absent_committed :
    (target_commitment : Bytes) (target : ℕ) (step : BinaryLadderStep) (lk : ℕ × Bool)
    (c : Option Bytes)
    → commitment_of true target target_commitment step lk ≡ some c
    → lk.1 ≡ false
    → c ≡ none
unfolding commitment_of
absent_committed target_commitment target step (v, true) c h a = absurd (cc a)
absent_committed target_commitment target step (v, false) c h a =
    elim (Bool-cases (is_some step.commitment && ltb target v)) [
      | inl e ↦ absurd (cc (rw e at h))
      | inr e ↦ sym (some_injective _ _ (rw e at h))
    ]

pub other_committed :
    (target_commitment : Bytes) (target : ℕ) (step : BinaryLadderStep) (lk : ℕ × Bool)
    (c : Option Bytes)
    → commitment_of true target target_commitment step lk ≡ some c
    → lk.1 ≡ true
    → lk.0 ≢ target
    → (d : Bytes) × (step.commitment ≡ some d) × (c ≡ some d)
unfolding commitment_of
other_committed target_commitment target step (v, false) c h a ne = absurd (cc a)
other_committed target_commitment target step (v, true) c h a ne = elim (Bool-cases (v == target)) [
  | inl e ↦ absurd (ne ((==_iff v target).0 e))
  | inr e ↦
      bind_then step.commitment _ _ (rw e at h) (λ d f end. (d, f, sym (some_injective _ _ end)))
]
