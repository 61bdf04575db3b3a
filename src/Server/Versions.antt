-- ===== src/Server/Versions.antt =====
-- The versions that the batcher works out before the cryptography are those that `apply_batch` assigns.
use ru_kt.Common.{
  ℕ, suc, ◌<◌, ◌≤◌, ◌≡◌, refl, sym, ap, subst, some_injective, ◌∙◌, arith, inl, inr, Bool, true,
  false, Bool-cases, List, [], ◌∷◌, ◌++◌, map, Option, none, some, ==_iff, last?, same_bytes,
  same_bytes_refl, if◌then◌else◌, bind_then, length, ltb,
}
use ru_kt.Tls.{Bytes}
use ru_kt.Store.{Entries}
use ru_kt.Server.{
  UpdateRequest, PreUpdateData, UpdateJob, UpdateError, Verdict, Slot, Overlay, add32, overlay_get,
  greatest, or_else, or_zero, is_empty, current_greatest, same_version, behind, start_version,
  versions_from, judge, place, overlay_with, laid, versioning, crypto_jobs_of, crypto_jobs,
  pre_updates, next_ver, assign_versions,
}

add32_next : (s k : ℕ) → add32 (add32 s k) 1 ≡ add32 s (suc k)
add32_next s k = omega arith

add32_zero : (o : Option ℕ) → add32 (start_version o) 0 ≡ start_version o
unfolding start_version
add32_zero none = refl
add32_zero (some v) = omega arith

has_greatest : (e : ℕ × ℕ) (history : Entries) → (v : ℕ) × (greatest (e ∷ history) ≡ some v)
unfolding greatest
has_greatest e [] = (e.0, refl)
has_greatest e (f ∷ history) = has_greatest f history

found : (o : Option ℕ) (v : ℕ) → o ≡ some v → add32 (or_zero o) 1 ≡ start_version o
unfolding start_version
found none v h = absurd (cc h)
found (some w) v h = refl

-- The next version after the greatest one.
pub next_ver-start :
    (history : Entries) (o : Option ℕ)
    → next_ver history o ≡ start_version (or_else o (greatest history))
unfolding next_ver start_version greatest
next_ver-start [] none = refl
next_ver-start [] (some v) = refl
next_ver-start (e ∷ history) none =
    let (v, h) = has_greatest e history in found (greatest (e ∷ history)) v h
next_ver-start (e ∷ history) (some v) = refl

pub overlay_get-top :
    (o : Overlay) (label : Bytes) (v : ℕ) → overlay_get ((label, v) ∷ o) label ≡ some v
unfolding overlay_get
overlay_get-top o label v = rw (same_bytes_refl label) refl

-- The version of each job is the one that `apply_batch` would assign after those before.
pub Unraced : (Bytes → Entries) → Overlay → List (Bytes × Bytes × ℕ × ℕ) → Type 0
Unraced history o [] = Unit
Unraced history o ((label, value, last, v) ∷ jobs) =
    (next_ver (history label) (overlay_get o label) ≡ v) × Unraced history ((label, v) ∷ o) jobs

-- Two overlays that answer alike.
Alike : Overlay → Overlay → Type 0
Alike o o' = (l : Bytes) → overlay_get o l ≡ overlay_get o' l

laid_twice :
    (o : Overlay) (label l : Bytes) (a : ℕ) (w : Option ℕ) (b : ℕ)
    → w ≡ some b
    → overlay_get (laid ((label, a) ∷ o) label w) l ≡ overlay_get (laid o label w) l
unfolding overlay_get
laid_twice o label l a none b h = absurd (cc h)
laid_twice o label l a (some c) b h = elim (Bool-cases (same_bytes label l)) [
  | inl g ↦ rw g refl
  | inr g ↦ rw g refl
]

last-versions_from :
    (s k : ℕ) (v : Bytes) (values : List Bytes)
    → (b : ℕ) × (last? (versions_from s k (v ∷ values)) ≡ some b)
unfolding versions_from
last-versions_from s k v [] = (add32 s k, refl)
last-versions_from s k v (w ∷ values) = last-versions_from s (suc k) w values

-- What an accepted request satisfies.
pub record Accepted (current : Option ℕ) (req : UpdateRequest) (versions : List ℕ) : Type 0 where
  pub named : same_version req.greatest_version current ≡ true
  pub some_value : 0 < length req.values
  pub short : length req.label ≤ 255
  pub gives : versions ≡ versions_from (start_version current) 0 req.values

nonempty : (values : List Bytes) → is_empty values ≡ false → 0 < length values
nonempty [] h = absurd (cc h)
nonempty (v ∷ values) h = omega arith

pub judge-Accepted :
    (current : Option ℕ) (req : UpdateRequest) (versions : List ℕ)
    → judge current req ≡ Verdict.accepted versions
    → Accepted current req versions
unfolding judge
judge-Accepted current req versions h =
    pick (same_version req.greatest_version current) (behind req.greatest_version current)
      (is_empty req.values) (ltb 255 (length req.label)) refl refl refl h
  where
    of : Verdict → List ℕ
    of Verdict.catch_up = []
    of (Verdict.refused e) = []
    of (Verdict.accepted vs) = vs

    pick :
        (a b c d : Bool)
        → same_version req.greatest_version current ≡ a
        → is_empty req.values ≡ c
        → ltb 255 (length req.label) ≡ d
        → (if a
            then (if c
                then Verdict.refused UpdateError.empty_values
                else if d
                then Verdict.refused UpdateError.label_too_long
                else Verdict.accepted (versions_from (start_version current) 0 req.values))
            else if b
            then Verdict.catch_up
            else Verdict.refused UpdateError.version_conflict)
          ≡ Verdict.accepted versions
        → Accepted current req versions
    pick true b false false e f g h = record {
      named = e;
      some_value = nonempty req.values f;
      short = ground arith;
      gives = sym (ap of h);
    }
    pick true b true d e f g h = absurd (cc h)
    pick true b false true e f g h = absurd (cc h)
    pick false true c d e f g h = absurd (cc h)
    pick false false c d e f g h = absurd (cc h)

module _ (history : Bytes → Entries) where
  after_given :
      (o : Overlay) (label : Bytes) (v : ℕ)
      → next_ver (history label) (overlay_get ((label, v) ∷ o) label) ≡ add32 v 1
  unfolding start_version
  after_given o label v =
      ap (next_ver (history label)) (overlay_get-top o label v)
      ∙ next_ver-start (history label) (some v)

  -- The versions of one job follow each other.
  Unraced-crypto_jobs_of :
      (req : UpdateRequest) (rest : List (Bytes × Bytes × ℕ × ℕ)) (s k : ℕ) (values : List Bytes)
      (o : Overlay)
      → next_ver (history req.label) (overlay_get o req.label) ≡ add32 s k
      → ((o' : Overlay)
          → Alike o' (laid o req.label (last? (versions_from s k values)))
          → Unraced history o' rest)
      → Unraced history o (crypto_jobs_of req values (versions_from s k values) ++ rest)
  unfolding versions_from Unraced Alike
  Unraced-crypto_jobs_of req rest s k [] o h more = more o (λ l. refl)
  Unraced-crypto_jobs_of req rest s k (v ∷ []) o h more =
      (h, more ((req.label, add32 s k) ∷ o) (λ l. refl))
  Unraced-crypto_jobs_of req rest s k (v ∷ w ∷ values) o h more = (
    h,
    Unraced-crypto_jobs_of req rest s (suc k) (w ∷ values) ((req.label, add32 s k) ∷ o)
        (after_given o req.label (add32 s k) ∙ add32_next s k)
        (λ o' alike.
          let (b, e) = last-versions_from s (suc k) w values in
          more o' (λ l. alike l ∙ laid_twice o req.label l (add32 s k) _ b e)),
  )

  starts :
      (o o' : Overlay) (label : Bytes)
      → Alike o o'
      → next_ver (history label) (overlay_get o' label)
        ≡ add32 (start_version (current_greatest history o label)) 0
  unfolding Alike current_greatest
  starts o o' label alike =
      next_ver-start (history label) (overlay_get o' label)
      ∙ (ap (λ g. start_version (or_else g (greatest (history label)))) (sym (alike label))
          ∙ sym (add32_zero (or_else (overlay_get o label) (greatest (history label)))))

  Alike-laid :
      (o o' o'' : Overlay) (label : Bytes) (w : Option ℕ)
      → Alike o o'
      → Alike o'' (laid o' label w)
      → Alike (laid o label w) o''
  unfolding Alike overlay_get
  Alike-laid o o' o'' label none a b l = a l ∙ sym (b l)
  Alike-laid o o' o'' label (some v) a b l = elim (Bool-cases (same_bytes label l)) [
    | inl h ↦ rw (b l, h) refl
    | inr h ↦ rw (b l, h) (a l)
  ]

  versioning-Unraced :
      (jobs : List UpdateJob) (o o' : Overlay)
      → Alike o o'
      → Unraced history o' (crypto_jobs (versioning history o jobs).pre_jobs)
  unfolding versioning crypto_jobs Unraced
  versioning-Unraced [] o o' alike = _
  versioning-Unraced (job ∷ jobs) o o' alike =
      placed (judge (current_greatest history o job.req.label) job.req) (versioning-Unraced jobs)
        refl
    where
      label : Bytes
      label = job.req.label

      placed :
          (verdict : Verdict)
          → ((p p' : Overlay)
              → Alike p p'
              → Unraced history p' (crypto_jobs (versioning history p jobs).pre_jobs))
          → judge (current_greatest history o label) job.req ≡ verdict
          → Unraced history o' (
              crypto_jobs
                (place job verdict
                  (versioning history (overlay_with o label verdict) jobs)).pre_jobs)
      placed Verdict.catch_up go e = go o o' alike
      placed (Verdict.refused error) go e = go o o' alike
      placed (Verdict.accepted versions) go e =
          subst
            (λ vs. Unraced history o' (
              crypto_jobs
                (place job (Verdict.accepted vs)
                  (versioning history (overlay_with o label (Verdict.accepted vs)) jobs)).pre_jobs))
            (sym (judge-Accepted (current_greatest history o label) job.req versions e).gives)
            (Unraced-crypto_jobs_of job.req _ (start_version (current_greatest history o label)) 0
              job.req.values o' (starts o o' label alike)
              (λ o'' laid_alike. go _ o'' (Alike-laid o o' o'' label _ alike laid_alike)))

  assigned :
      (vrf_prove : Bytes → ℕ → Option (Bytes × Bytes))
      (commit_to : Bytes → ℕ → Bytes → Bytes → Option Bytes) (openings : ℕ → Bytes)
      (jobs : List (Bytes × Bytes × ℕ × ℕ)) (o : Overlay) (updates : List PreUpdateData)
      → Unraced history o jobs
      → pre_updates vrf_prove commit_to openings jobs ≡ some updates
      → assign_versions history o updates
        ≡ map (λ (u : PreUpdateData). Slot.valid u.version) updates
  unfolding Unraced pre_updates assign_versions
  assigned vrf_prove commit_to openings [] o updates u h =
      subst P (some_injective [] updates h) refl
    where
      P : List PreUpdateData → Type 0
      P us = assign_versions history o us ≡ map (λ (u : PreUpdateData). Slot.valid u.version) us
  assigned vrf_prove commit_to openings ((label, value, last, v) ∷ jobs) o updates (e, u) h =
      bind_then (vrf_prove label v) _ _ h (λ (index, vrf_proof) p rest.
        bind_then (commit_to label v value (openings 0)) _ _ rest (λ c q rest'.
          bind_then (pre_updates vrf_prove commit_to (λ i. openings (suc i)) jobs) _ _ rest'
            (λ us r end. subst P (some_injective _ _ end) (
              rw
                (
                  e,
                  (==_iff v v).1 refl,
                  assigned vrf_prove commit_to (λ i. openings (suc i)) jobs ((label, v) ∷ o) us u r,
                )
                refl))))
    where
      P : List PreUpdateData → Type 0
      P us = assign_versions history o us ≡ map (λ (u : PreUpdateData). Slot.valid u.version) us

  -- When the cryptography of a batch succeeds, `apply_batch` assigns to every update of the batch the
  -- version that the batcher had worked out for it: over the same histories, no update is raced.
  pub assign_versions-versioning :
      (jobs : List UpdateJob) (vrf_prove : Bytes → ℕ → Option (Bytes × Bytes))
      (commit_to : Bytes → ℕ → Bytes → Bytes → Option Bytes) (openings : ℕ → Bytes)
      (updates : List PreUpdateData)
      → pre_updates vrf_prove commit_to openings (crypto_jobs (versioning history [] jobs).pre_jobs)
        ≡ some updates
      → assign_versions history [] updates
        ≡ map (λ (u : PreUpdateData). Slot.valid u.version) updates
  unfolding Alike
  assign_versions-versioning jobs vrf_prove commit_to openings updates h =
      assigned vrf_prove commit_to openings _ [] updates (versioning-Unraced jobs [] [] (λ l. refl))
        h
