-- ===== src/Server/Sizes.antt =====
-- The sizes of the parts of a batch: every job goes one of three ways, and a job to process has a
-- version for each value.
use ru_kt.Common.{
  ℕ, suc, ◌+◌, ◌<◌, ◌≡◌, refl, sym, ap, ◌∙◌, subst, arith, true, List, [], ◌∷◌, ◌++◌, map, Option,
  none, some, ◌==◌, if◌then◌else◌, length, length-append, last?, bind_then, some_injective,
}
use ru_kt.Tls.{Bytes}
use ru_kt.Store.{Entries}
use ru_kt.Server.{
  UpdateRequest, PreUpdateData, UpdateJob, Verdict, Versioned, Overlay, versions_from,
  start_version, current_greatest, judge, place, overlay_with, versioning, crypto_jobs,
  crypto_jobs_of, pre_updates,
}
use ru_kt.Server.Versions.{judge-Accepted}
use ru_kt.Server.Batch.{all_ok}

-- How often a number stands in a list.
abbrev pub times : ℕ → List ℕ → ℕ
times c [] = 0
times c (x ∷ xs) = if x == c then suc (times c xs) else times c xs

pub times-append : (c : ℕ) (xs ys : List ℕ) → times c (xs ++ ys) ≡ times c xs + times c ys
times-append c [] ys = omega arith
times-append c (x ∷ xs) ys = ground (arith, times-append c xs ys)

abbrev pub channels_of : List UpdateJob → List ℕ
channels_of jobs = map (λ (j : UpdateJob). j.channel) jobs

abbrev pub firsts : {B : Type 0} → List (ℕ × B) → List ℕ
firsts xs = map (λ e. e.0) xs

pub firsts-append : {B : Type 0} (xs ys : List (ℕ × B)) → firsts (xs ++ ys) ≡ firsts xs ++ firsts ys
firsts-append [] ys = refl
firsts-append (x ∷ xs) ys = ap (◌∷◌ x.0) (firsts-append xs ys)

-- Every job goes one of three ways.
unfoldable pub split : ℕ → Versioned → ℕ
split c r =
    times c (firsts r.sent)
    + (times c (channels_of r.catchup_jobs) + times c (channels_of r.jobs_to_process))

split-place :
    (c : ℕ) (job : UpdateJob) (verdict : Verdict) (r : Versioned) (n : ℕ)
    → split c r ≡ n
    → split c (place job verdict r) ≡ (if job.channel == c then suc n else n)
unfolding split
split-place c job Verdict.catch_up r n h = ground arith
split-place c job (Verdict.refused error) r n h = ground arith
split-place c job (Verdict.accepted versions) r n h = ground arith

pub split-versioning :
    (c : ℕ) (history : Bytes → Entries) (o : Overlay) (jobs : List UpdateJob)
    → split c (versioning history o jobs) ≡ times c (channels_of jobs)
unfolding versioning split
split-versioning c history o [] = refl
split-versioning c history o (job ∷ jobs) =
    split-place c job (judge (current_greatest history o job.req.label) job.req) _ _ (
      split-versioning c history
        (overlay_with o job.req.label (judge (current_greatest history o job.req.label) job.req))
        jobs)

-- The jobs to process have a version for each value, and one at least.
unfoldable pub Sized : List UpdateJob → List (UpdateRequest × List ℕ) → Type 0
Sized [] [] = Unit
Sized [] (p ∷ pre_jobs) = ⊥
Sized (job ∷ jobs) [] = ⊥
Sized (job ∷ jobs) ((req, versions) ∷ pre_jobs) =
    (length versions ≡ length req.values) × (0 < length versions) × Sized jobs pre_jobs

unfoldable pub total : List (UpdateRequest × List ℕ) → ℕ
total [] = 0
total ((req, versions) ∷ pre_jobs) = length versions + total pre_jobs

length-versions_from :
    (s k : ℕ) (values : List Bytes) → length (versions_from s k values) ≡ length values
unfolding versions_from
length-versions_from s k [] = refl
length-versions_from s k (v ∷ values) = ap suc (length-versions_from s (suc k) values)

length-crypto_jobs_of :
    (req : UpdateRequest) (values : List Bytes) (versions : List ℕ)
    → length versions ≡ length values
    → length (crypto_jobs_of req values versions) ≡ length versions
length-crypto_jobs_of req [] [] h = refl
length-crypto_jobs_of req [] (n ∷ versions) h = absurd (omega arith)
length-crypto_jobs_of req (v ∷ values) [] h = refl
length-crypto_jobs_of req (v ∷ values) (n ∷ versions) h =
    ap suc (length-crypto_jobs_of req values versions (omega arith))

pub length-crypto_jobs :
    (jobs : List UpdateJob) (pre_jobs : List (UpdateRequest × List ℕ))
    → Sized jobs pre_jobs
    → length (crypto_jobs pre_jobs) ≡ total pre_jobs
unfolding Sized crypto_jobs total
length-crypto_jobs [] [] s = refl
length-crypto_jobs [] (p ∷ pre_jobs) s = absurd s
length-crypto_jobs (job ∷ jobs) [] s = absurd s
length-crypto_jobs (job ∷ jobs) ((req, versions) ∷ pre_jobs) (h, p, s) = omega (
  arith,
  length-append (crypto_jobs_of req req.values versions) (crypto_jobs pre_jobs),
  length-crypto_jobs_of req req.values versions h,
  length-crypto_jobs jobs pre_jobs s,
)

pub Sized-versioning :
    (history : Bytes → Entries) (o : Overlay) (jobs : List UpdateJob)
    → Sized (versioning history o jobs).jobs_to_process (versioning history o jobs).pre_jobs
unfolding versioning Sized
Sized-versioning history o [] = _
Sized-versioning history o (job ∷ jobs) =
    placed (judge current job.req) _ refl
      (Sized-versioning history (overlay_with o job.req.label (judge current job.req)) jobs)
  where
    current : Option ℕ
    current = current_greatest history o job.req.label

    placed :
        (verdict : Verdict) (r : Versioned)
        → judge current job.req ≡ verdict
        → Sized r.jobs_to_process r.pre_jobs
        → Sized (place job verdict r).jobs_to_process (place job verdict r).pre_jobs
    placed Verdict.catch_up r e s = s
    placed (Verdict.refused error) r e s = s
    placed (Verdict.accepted versions) r e s =
        let a = judge-Accepted current job.req versions e in
        let n = ap length a.gives ∙ length-versions_from (start_version current) 0 job.req.values in
        (n, subst (λ m. 0 < m) (sym n) a.some_value, s)

pub length-pre_updates :
    (vrf_prove : Bytes → ℕ → Option (Bytes × Bytes))
    (commit_to : Bytes → ℕ → Bytes → Bytes → Option Bytes) (openings : ℕ → Bytes)
    (jobs : List (Bytes × Bytes × ℕ × ℕ)) (updates : List PreUpdateData)
    → pre_updates vrf_prove commit_to openings jobs ≡ some updates
    → length updates ≡ length jobs
unfolding pre_updates
length-pre_updates vrf_prove commit_to openings [] updates h =
    sym (ap length (some_injective [] updates h))
length-pre_updates vrf_prove commit_to openings ((label, value, last, v) ∷ jobs) updates h =
    bind_then (vrf_prove label v) _ _ h (λ p e rest.
      bind_then (commit_to label v value (openings 0)) _ _ rest (λ c q rest'.
        bind_then (pre_updates vrf_prove commit_to (λ i. openings (suc i)) jobs) _ _ rest'
          (λ us r end.
            sym (ap length (some_injective _ _ end))
            ∙ ap suc (length-pre_updates vrf_prove commit_to (λ i. openings (suc i)) jobs us r))))

pub last_ok :
    {Post : Type 0} (group : List (Option Post))
    → all_ok group ≡ true
    → 0 < length group
    → (post : Post) × (last? group ≡ some (some post))
last_ok [] h p = absurd (omega arith)
last_ok (none ∷ group) h p = absurd (cc h)
last_ok (some post ∷ []) h p = (post, refl)
last_ok (some post ∷ x ∷ group) h p = last_ok (x ∷ group) h (omega arith)
