-- ===== src/Server/Answers.antt =====
-- Each job of a batch gets one answer.
use ru_kt.Common.{
  ℕ, ◌≤◌, ◌<◌, ◌≡◌, refl, sym, ap, ◌∙◌, arith, inl, inr, Bool, true, false, Bool-cases, List, [],
  ◌∷◌, ◌++◌, map, Option, none, some, leb, if◌then◌else◌, length, length-take, length-drop, take,
  drop, ◌>>=◌,
}
use mathlib.Core.List.{append-nil}
use ru_kt.Tls.{Bytes}
use ru_kt.Server.{
  UpdateRequest, PreUpdateData, UpdateJob, UpdateError, Versioned, is_empty, versioning,
  crypto_jobs, pre_updates,
}
use ru_kt.Server.Batch.{
  Answer, TreeOps, all_ok, answer_group, answer_groups, process_catchups, send_all, errors,
  process_versioned, process_batch,
}
use ru_kt.Server.Sizes.{
  times, channels_of, firsts, times-append, firsts-append, split, split-versioning, Sized, total,
  length-crypto_jobs, Sized-versioning, length-pre_updates, last_ok,
}

firsts-send :
    {R : Type 0} (f : UpdateJob → Answer R) (jobs : List UpdateJob)
    → firsts (map (λ (j : UpdateJob). (j.channel, f j)) jobs) ≡ channels_of jobs
firsts-send f [] = refl
firsts-send f (job ∷ jobs) = ap (◌∷◌ job.channel) (firsts-send f jobs)

module _ {Post Response : Type 0} (tree : TreeOps Post Response) where
  firsts-errors : (sent : List (ℕ × UpdateError)) → firsts (errors tree sent) ≡ firsts sent
  firsts-errors [] = refl
  firsts-errors (e ∷ sent) = ap (◌∷◌ e.0) (firsts-errors sent)

  group_answered :
      (pres : List PreUpdateData) (group : List (Option Post))
      → 0 < length group
      → (a : Answer Response) × (answer_group tree pres group ≡ some a)
  unfolding answer_group
  group_answered pres group p = elim (Bool-cases (all_ok group)) [
    | inl h ↦ let (post, e) = last_ok group h p in (tree.post_update pres post, rw (h, e) refl)
    | inr h ↦ (Answer.update_failed, rw h refl)
  ]

  -- The answers of a phase, for its jobs.
  Answered : Option (List (ℕ × Answer Response)) → List UpdateJob → Type 0
  Answered o jobs =
      (answers : List (ℕ × Answer Response)) × (o ≡ some answers)
      × (firsts answers ≡ channels_of jobs)

  answer_groups-Answered :
      (jobs : List UpdateJob) (pre_jobs : List (UpdateRequest × List ℕ)) (pres : List PreUpdateData)
      (results : List (Option Post))
      → Sized jobs pre_jobs
      → total pre_jobs ≤ length pres
      → total pre_jobs ≤ length results
      → Answered (answer_groups tree jobs pre_jobs pres results) jobs
  unfolding Sized total answer_groups Answered
  answer_groups-Answered [] [] pres results s p r = ([], refl, refl)
  answer_groups-Answered [] (q ∷ pre_jobs) pres results s p r = absurd s
  answer_groups-Answered (job ∷ jobs) [] pres results s p r = absurd s
  answer_groups-Answered (job ∷ jobs) ((req, versions) ∷ pre_jobs) pres results (h, pos, s) p r =
      let n = length versions in
      let dp = length-drop n pres (omega arith) in
      let dr = length-drop n results (omega arith) in
      let (a, e) =
        group_answered (take n pres) (take n results)
          (omega (arith, length-take n results (omega arith))) in
      let (answers, f, g) =
        answer_groups-Answered jobs pre_jobs (drop n pres) (drop n results) s (omega arith)
          (omega arith) in
      let lp : leb n (length pres) ≡ true = ground arith in
      let lr : leb n (length results) ≡ true = ground arith in
      ((job.channel, a) ∷ answers, rw (lp, lr, e, f) refl, ap (◌∷◌ job.channel) g)

  process_versioned-Answered :
      (r : Versioned) (o : Option (List PreUpdateData))
      → Sized r.jobs_to_process r.pre_jobs
      → ((pres : List PreUpdateData) → o ≡ some pres → length pres ≡ total r.pre_jobs)
      → Answered (process_versioned tree r o) r.jobs_to_process
  unfolding process_versioned Answered
  process_versioned-Answered r none s l = (_, refl, firsts-send _ r.jobs_to_process)
  process_versioned-Answered r (some pres) s l = applied (tree.apply_batch pres) refl
    where
      applied :
          (o : Option (List (Option Post)))
          → tree.apply_batch pres ≡ o
          → Answered
              (elim o [
                | none ↦ some (send_all tree Answer.commit_failed r.jobs_to_process)
                | some results ↦ answer_groups tree r.jobs_to_process r.pre_jobs pres results
              ])
              r.jobs_to_process
      applied none e = (_, refl, firsts-send _ r.jobs_to_process)
      applied (some results) e =
          answer_groups-Answered r.jobs_to_process r.pre_jobs pres results s
            (omega (arith, l pres refl))
            (omega (arith, l pres refl, tree.results_length pres results e))

  divided :
      (c : ℕ) (r : Versioned) (answers : List (ℕ × Answer Response))
      → firsts answers ≡ channels_of r.jobs_to_process
      → times c (firsts (errors tree r.sent ++ (process_catchups tree r.catchup_jobs ++ answers)))
        ≡ split c r
  unfolding split
  divided c r answers h = omega (
    arith,
    ap (times c)
        (firsts-append (errors tree r.sent) (process_catchups tree r.catchup_jobs ++ answers)),
    times-append c (firsts (errors tree r.sent))
        (firsts (process_catchups tree r.catchup_jobs ++ answers)),
    ap (times c) (firsts-errors r.sent),
    ap (times c) (firsts-append (process_catchups tree r.catchup_jobs) answers),
    times-append c (firsts (process_catchups tree r.catchup_jobs)) (firsts answers),
    ap (times c) (firsts-send (λ j. tree.catch_up_update j.req) r.catchup_jobs),
    ap (times c) h,
  )

  module _ (vrf_prove : Bytes → ℕ → Option (Bytes × Bytes))
      (commit_to : Bytes → ℕ → Bytes → Bytes → Option Bytes) (openings : ℕ → Bytes) where
    -- A batch of jobs is processed to its end without a panic, whatever cryptography or storage fail,
    -- and each channel gets as many answers as it has jobs in the batch: one for each job.
    pub process_batch_answers :
        (jobs : List UpdateJob)
        → (answers : List (ℕ × Answer Response)) × (process_batch tree vrf_prove commit_to openings
              jobs
            ≡ some answers)
          × ((c : ℕ) → times c (firsts answers) ≡ times c (channels_of jobs))
    unfolding process_batch Answered
    process_batch_answers jobs = ended (is_empty r.jobs_to_process) refl (
        process_versioned-Answered r pres (Sized-versioning tree.history [] jobs) (λ us e.
          length-pre_updates vrf_prove commit_to openings (crypto_jobs r.pre_jobs) us e
          ∙ length-crypto_jobs r.jobs_to_process r.pre_jobs
              (Sized-versioning tree.history [] jobs)))
      where
        r : Versioned
        r = versioning tree.history [] jobs

        pres : Option (List PreUpdateData)
        pres = pre_updates vrf_prove commit_to openings (crypto_jobs r.pre_jobs)

        none_left : (js : List UpdateJob) → is_empty js ≡ true → channels_of js ≡ []
        none_left [] h = refl
        none_left (j ∷ js) h = absurd (cc h)

        ended :
            (b : Bool)
            → is_empty r.jobs_to_process ≡ b
            → Answered (process_versioned tree r pres) r.jobs_to_process
            → (answers : List (ℕ × Answer Response)) × ((if b
                  then some (errors tree r.sent ++ process_catchups tree r.catchup_jobs)
                  else (process_versioned tree r pres >>= λ answers.
                      some
                        (errors tree r.sent ++ (process_catchups tree r.catchup_jobs ++ answers))))
                ≡ some answers)
              × ((c : ℕ) → times c (firsts answers) ≡ times c (channels_of jobs))
        ended true h a = (
          _,
          ap (λ xs. some (errors tree r.sent ++ xs))
              (sym (append-nil (process_catchups tree r.catchup_jobs))),
          λ c.
              divided c r [] (sym (none_left r.jobs_to_process h))
              ∙ split-versioning c tree.history [] jobs,
        )
        ended false h (answers, e, f) =
            (_, rw e refl, λ c. divided c r answers f ∙ split-versioning c tree.history [] jobs)
