-- ===== src/Server/Batch.antt =====
-- src/batcher.rs, `process_batch`: a batch of jobs from its versions to its answers, in the order in
-- which they are sent. The clock, the lock and the tasks that run side by side are not modelled: each
-- task sends one answer, which does not depend on the others.
use ru_kt.Common.{
  ℕ, ◌≡◌, Bool, true, false, List, [], ◌∷◌, ◌++◌, map, Option, none, some, leb, if◌then◌else◌,
  length, take, drop, last?, ◌>>=◌, ◌>>◌, require,
}
use ru_kt.Tls.{Bytes}
use ru_kt.Store.{Entries}
use ru_kt.Server.{
  UpdateRequest, PreUpdateData, UpdateJob, UpdateError, Versioned, is_empty, versioning,
  crypto_jobs, pre_updates,
}

pub data Answer (Response : Type 0) : Type 0 where
  response : Response → Answer Response
  error : UpdateError → Answer Response
  crypto_failed : Answer Response
  commit_failed : Answer Response
  update_failed : Answer Response

-- What the batcher uses of the tree: `catch_up_update`, `apply_batch` and `post_update`. A failed
-- `apply_batch` is `none`, and so is the result of a failed update.
pub record TreeOps (Post Response : Type 0) : Type 1 where
  pub history : Bytes → Entries
  pub catch_up_update : UpdateRequest → Answer Response
  pub apply_batch : List PreUpdateData → Option (List (Option Post))
  pub post_update : List PreUpdateData → Post → Answer Response
  -- Each update has a result.
  pub results_length :
      (updates : List PreUpdateData) (results : List (Option Post))
      → apply_batch updates ≡ some results
      → length results ≡ length updates

-- `group.iter().position(|r| r.is_err())`
abbrev pub all_ok : {Post : Type 0} → List (Option Post) → Bool
all_ok [] = true
all_ok (none ∷ group) = false
all_ok (some post ∷ group) = all_ok group

module _ {Post Response : Type 0} (tree : TreeOps Post Response) where
  -- `group.pop().unwrap()`: an empty group would panic.
  unfoldable pub answer_group : List PreUpdateData → List (Option Post) → Option (Answer Response)
  answer_group pres group =
      if all_ok group
      then (do last ← last? group; post ← last; some (tree.post_update pres post))
      else some Answer.update_failed

  -- The groups of the results, a slice for each job: a slice beyond the end would panic.
  unfoldable pub answer_groups :
      List UpdateJob
      → List (UpdateRequest × List ℕ)
      → List PreUpdateData
      → List (Option Post)
      → Option (List (ℕ × Answer Response))
  answer_groups (job ∷ jobs) ((req, versions) ∷ pre_jobs) pres results = do
    require (leb (length versions) (length pres))
    require (leb (length versions) (length results))
    answer ← answer_group (take (length versions) pres) (take (length versions) results)
    answers ←
        answer_groups jobs pre_jobs (drop (length versions) pres) (drop (length versions) results)
    some ((job.channel, answer) ∷ answers)
  answer_groups [] pre_jobs pres results = some []
  answer_groups (job ∷ jobs) [] pres results = some []

  abbrev pub process_catchups : List UpdateJob → List (ℕ × Answer Response)
  process_catchups jobs = map (λ (j : UpdateJob). (j.channel, tree.catch_up_update j.req)) jobs

  abbrev pub send_all : Answer Response → List UpdateJob → List (ℕ × Answer Response)
  send_all answer jobs = map (λ (j : UpdateJob). (j.channel, answer)) jobs

  abbrev pub errors : List (ℕ × UpdateError) → List (ℕ × Answer Response)
  errors sent = map (λ (e : ℕ × UpdateError). (e.0, Answer.error e.1)) sent

  -- The answers to the jobs that got versions: the second to fourth phases.
  unfoldable pub process_versioned :
      Versioned → Option (List PreUpdateData) → Option (List (ℕ × Answer Response))
  process_versioned r none = some (send_all Answer.crypto_failed r.jobs_to_process)
  process_versioned r (some pres) = elim (tree.apply_batch pres) [
    | none ↦ some (send_all Answer.commit_failed r.jobs_to_process)
    | some results ↦ answer_groups r.jobs_to_process r.pre_jobs pres results
  ]

  module _ (vrf_prove : Bytes → ℕ → Option (Bytes × Bytes))
      (commit_to : Bytes → ℕ → Bytes → Bytes → Option Bytes) (openings : ℕ → Bytes) where
    unfoldable pub process_batch : List UpdateJob → Option (List (ℕ × Answer Response))
    process_batch jobs =
        let r = versioning tree.history [] jobs in
        if is_empty r.jobs_to_process
        then some (errors r.sent ++ process_catchups r.catchup_jobs)
        else (do
          answers ←
              process_versioned r
                (pre_updates vrf_prove commit_to openings (crypto_jobs r.pre_jobs))
          some (errors r.sent ++ (process_catchups r.catchup_jobs ++ answers)))
