-- ===== src/Server.antt =====
-- src/batcher.rs and src/tree/write.rs: how update requests become versions of labels. Versions are
-- 32-bit words. A job is a request with the number of the channel that awaits its answer.
pub mod Versions
pub mod Consecutive
pub mod Batch
mod Sizes
pub mod Answers
mod Runs
use ru_kt.Common.{
  ℕ, zero, suc, ◌+◌, ◌%◌, ◌^◌, Bool, true, false, not, ◌&&◌, List, [], ◌∷◌, ◌++◌, Option, none,
  some, ltb, ◌==◌, if◌then◌else◌, length, last?, same_bytes, ◌>>=◌,
}
use mathlib.Core.Option
use ru_kt.Tls.{Bytes}
use ru_kt.Store.{Entries}

pub record UpdateRequest : Type 0 where
  pub last : Option ℕ
  pub label : Bytes
  pub greatest_version : Option ℕ
  pub values : List Bytes

pub record PreUpdateData : Type 0 where
  pub label : Bytes
  pub value : Bytes
  pub last : ℕ
  pub version : ℕ
  pub index : Bytes
  pub vrf_proof : Bytes
  pub commitment : Bytes
  pub opening : Bytes

pub record UpdateJob : Type 0 where
  pub channel : ℕ
  pub req : UpdateRequest

pub data UpdateError : Type 0 where
  version_conflict : UpdateError
  empty_values : UpdateError
  label_too_long : UpdateError

abbrev pub add32 : ℕ → ℕ → ℕ
add32 a b = (a + b) % 2 ^ 32

-- The versions that the batch has given out, the newest first.
abbrev pub Overlay : Type 0
Overlay = List (Bytes × ℕ)

unfoldable pub overlay_get : Overlay → Bytes → Option ℕ
overlay_get [] label = none
overlay_get ((l, v) ∷ overlay) label =
    let rest = overlay_get overlay label in if same_bytes l label then some v else rest

-- `history.last().map(|(v, _)| *v)`
unfoldable pub greatest : Entries → Option ℕ
greatest history = Option.map (λ (e : ℕ × ℕ). e.0) (last? history)

abbrev pub or_else : Option ℕ → Option ℕ → Option ℕ
or_else none o = o
or_else (some v) o = some v

unfoldable pub current_greatest : (Bytes → Entries) → Overlay → Bytes → Option ℕ
current_greatest history overlay label =
    or_else (overlay_get overlay label) (greatest (history label))

abbrev pub same_version : Option ℕ → Option ℕ → Bool
same_version none none = true
same_version none (some b) = false
same_version (some a) none = false
same_version (some a) (some b) = a == b

unfoldable pub behind : Option ℕ → Option ℕ → Bool
behind none (some actual) = true
behind (some claimed) (some actual) = ltb claimed actual
behind none none = false
behind (some claimed) none = false

unfoldable pub start_version : Option ℕ → ℕ
start_version none = 0
start_version (some v) = add32 v 1

-- `(0..n).map(|k| start_ver + k)`, from k on.
unfoldable pub versions_from : ℕ → ℕ → List Bytes → List ℕ
versions_from start k [] = []
versions_from start k (value ∷ values) = add32 start k ∷ versions_from start (suc k) values

pub data Verdict : Type 0 where
  catch_up : Verdict
  refused : (error : UpdateError) → Verdict
  accepted : (versions : List ℕ) → Verdict

abbrev pub is_empty : {A : Type 0} → List A → Bool
is_empty [] = true
is_empty (x ∷ xs) = false

-- The compare-and-swap on the greatest version, and the checks after it.
unfoldable pub judge : Option ℕ → UpdateRequest → Verdict
judge current req =
    if same_version req.greatest_version current
    then (if is_empty req.values
        then Verdict.refused UpdateError.empty_values
        else if ltb 255 (length req.label)
        then Verdict.refused UpdateError.label_too_long
        else Verdict.accepted (versions_from (start_version current) 0 req.values))
    else if behind req.greatest_version current
    then Verdict.catch_up
    else Verdict.refused UpdateError.version_conflict

-- The outcome of the first phase: the errors sent, the jobs to catch up, and the accepted jobs with
-- their versions.
pub record Versioned : Type 0 where
  pub sent : List (ℕ × UpdateError)
  pub catchup_jobs : List UpdateJob
  pub jobs_to_process : List UpdateJob
  pub pre_jobs : List (UpdateRequest × List ℕ)

abbrev pub place : UpdateJob → Verdict → Versioned → Versioned
place job Verdict.catch_up r = record r { catchup_jobs = job ∷ r.catchup_jobs }
place job (Verdict.refused error) r = record r { sent = (job.channel, error) ∷ r.sent }
place job (Verdict.accepted versions) r = record r {
  jobs_to_process = job ∷ r.jobs_to_process;
  pre_jobs = (job.req, versions) ∷ r.pre_jobs;
}

abbrev pub laid : Overlay → Bytes → Option ℕ → Overlay
laid overlay label none = overlay
laid overlay label (some v) = (label, v) ∷ overlay

-- `version_overlay.insert(label, *versions.last().unwrap())`; an accepted job has a version.
abbrev pub overlay_with : Overlay → Bytes → Verdict → Overlay
overlay_with overlay label Verdict.catch_up = overlay
overlay_with overlay label (Verdict.refused error) = overlay
overlay_with overlay label (Verdict.accepted versions) = laid overlay label (last? versions)

unfoldable pub versioning : (Bytes → Entries) → Overlay → List UpdateJob → Versioned
versioning history overlay [] = record {
  sent = [];
  catchup_jobs = [];
  jobs_to_process = [];
  pre_jobs = [];
}
versioning history overlay (job ∷ jobs) =
    let verdict = judge (current_greatest history overlay job.req.label) job.req in
    place job verdict (versioning history (overlay_with overlay job.req.label verdict) jobs)

-- `unwrap_or(0)`
abbrev pub or_zero : Option ℕ → ℕ
or_zero none = 0
or_zero (some l) = l

-- One job of the second phase for each value: the label, the value, the last size and the version.
abbrev pub crypto_jobs_of : UpdateRequest → List Bytes → List ℕ → List (Bytes × Bytes × ℕ × ℕ)
crypto_jobs_of req (value ∷ values) (version ∷ versions) =
    (req.label, value, or_zero req.last, version) ∷ crypto_jobs_of req values versions
crypto_jobs_of req [] versions = []
crypto_jobs_of req (value ∷ values) [] = []

unfoldable pub crypto_jobs : List (UpdateRequest × List ℕ) → List (Bytes × Bytes × ℕ × ℕ)
crypto_jobs [] = []
crypto_jobs ((req, versions) ∷ pre_jobs) =
    crypto_jobs_of req req.values versions ++ crypto_jobs pre_jobs

-- `vrf_prove` and `commit_to` are the configuration's VRF and the commitment; each update has a fresh
-- opening of `openings`.
unfoldable pub pre_updates :
    (Bytes → ℕ → Option (Bytes × Bytes))
    → (Bytes → ℕ → Bytes → Bytes → Option Bytes)
    → (ℕ → Bytes)
    → List (Bytes × Bytes × ℕ × ℕ)
    → Option (List PreUpdateData)
pre_updates vrf_prove commit_to openings [] = some []
pre_updates vrf_prove commit_to openings ((label, value, last, version) ∷ jobs) = do
  (index, vrf_proof) ← vrf_prove label version
  commitment ← commit_to label version value (openings 0)
  rest ← pre_updates vrf_prove commit_to (λ i. openings (suc i)) jobs
  some (
      record {
        label = label;
        value = value;
        last = last;
        version = version;
        index = index;
        vrf_proof = vrf_proof;
        commitment = commitment;
        opening = openings 0;
      }
      ∷ rest)

abbrev pub is_none : Option ℕ → Bool
is_none none = true
is_none (some v) = false

-- `apply_batch`'s version for a label: the first is 0, and each further one the next.
unfoldable pub next_ver : Entries → Option ℕ → ℕ
next_ver history overlaid =
    if is_empty history && is_none overlaid
    then 0
    else add32 (or_zero (or_else overlaid (greatest history))) 1

pub data Slot : Type 0 where
  raced : (precomputed assigned : ℕ) → Slot
  valid : (version : ℕ) → Slot

-- The slots of the results, in the order of the updates.
unfoldable pub assign_versions : (Bytes → Entries) → Overlay → List PreUpdateData → List Slot
assign_versions history overlay [] = []
assign_versions history overlay (update ∷ updates) =
    let next = next_ver (history update.label) (overlay_get overlay update.label) in
    let more = assign_versions history ((update.label, next) ∷ overlay) updates in
    let skip = assign_versions history overlay updates in
    if update.version == next then Slot.valid next ∷ more else Slot.raced update.version next ∷ skip

-- The entries of the histories: each valid update with its version and the position of its result.
unfoldable pub history_batch : List PreUpdateData → List Slot → List ℕ → List (Bytes × ℕ × ℕ)
history_batch (u ∷ us) (Slot.valid v ∷ slots) (p ∷ ps) = (u.label, v, p) ∷ history_batch us slots ps
history_batch (u ∷ us) (Slot.raced a b ∷ slots) ps = history_batch us slots ps
history_batch [] slots ps = []
history_batch (u ∷ us) [] ps = []
history_batch (u ∷ us) (Slot.valid v ∷ slots) [] = []
