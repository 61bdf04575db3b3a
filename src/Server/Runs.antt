-- ===== src/Server/Runs.antt =====
-- A concrete batch, and the theorems at concrete inputs.
use ru_kt.Common.{
  ℕ, suc, ◌≡◌, refl, List, [], ◌∷◌, map, Option, none, some, length, same_bytes, if◌then◌else◌,
  some_injective, sym, ap, ◌∙◌,
}
use ru_kt.Tls.{Bytes}
use ru_kt.Store.{Entries, Column, get_label_history}
use ru_kt.Server.{
  PreUpdateData, UpdateJob, Slot, versioning, crypto_jobs, pre_updates, assign_versions,
  history_batch, judge, current_greatest, overlay_get, greatest, behind, start_version,
  versions_from,
}
use ru_kt.Server.Versions.{assign_versions-versioning}
use ru_kt.Server.Batch.{Answer, TreeOps, process_batch}
use ru_kt.Server.Sizes.{times, channels_of, firsts}
use ru_kt.Server.Answers.{process_batch_answers}

abbrev alice : Bytes
alice = 97 ∷ []

abbrev bob : Bytes
bob = 98 ∷ []

-- Alice has versions 0 and 1.
abbrev stored : Bytes → Entries
stored label = if same_bytes label alice then (0, 3) ∷ (1, 4) ∷ [] else []

abbrev job : ℕ → Bytes → Option ℕ → List Bytes → UpdateJob
job channel label claimed values = record {
  channel = channel;
  req = record { last = none; label = label; greatest_version = claimed; values = values };
}

-- Two values for Alice, one more in a second request, a late request, a request ahead of the label, and
-- a first version for Bob.
abbrev jobs : List UpdateJob
jobs =
    job 1 alice (some 1) ((7 ∷ []) ∷ (8 ∷ []) ∷ [])
    ∷ job 2 alice (some 3) ((9 ∷ []) ∷ [])
    ∷ job 3 alice (some 1) ((9 ∷ []) ∷ [])
    ∷ job 4 alice (some 9) ((9 ∷ []) ∷ [])
    ∷ job 5 bob none ((1 ∷ []) ∷ [])
    ∷ []

abbrev vrf_prove : Bytes → ℕ → Option (Bytes × Bytes)
vrf_prove label version = some (version ∷ label, [])

abbrev commit_to : Bytes → ℕ → Bytes → Bytes → Option Bytes
commit_to label version value opening = some value

abbrev openings : ℕ → Bytes
openings n = n ∷ []

versions_of_jobs :
    map (λ (c : Bytes × Bytes × ℕ × ℕ). c.3) (crypto_jobs (versioning stored [] jobs).pre_jobs)
    ≡ 2 ∷ 3 ∷ 4 ∷ 0 ∷ []
unfolding crypto_jobs versioning judge current_greatest overlay_get greatest behind start_version
    versions_from same_bytes
versions_of_jobs = refl

abbrev update : Bytes → Bytes → ℕ → ℕ → PreUpdateData
update label value version n = record {
  label = label;
  value = value;
  last = 0;
  version = version;
  index = version ∷ label;
  vrf_proof = [];
  commitment = value;
  opening = n ∷ [];
}

abbrev updates : List PreUpdateData
updates =
    update alice (7 ∷ []) 2 0
    ∷ update alice (8 ∷ []) 3 1
    ∷ update alice (9 ∷ []) 4 2
    ∷ update bob (1 ∷ []) 0 3
    ∷ []

prepared :
    pre_updates vrf_prove commit_to openings (crypto_jobs (versioning stored [] jobs).pre_jobs)
    ≡ some updates
unfolding pre_updates crypto_jobs versioning judge current_greatest overlay_get greatest behind
    start_version versions_from same_bytes
prepared = refl

assign_versions-versioning_example :
    assign_versions stored [] updates ≡ map (λ (u : PreUpdateData). Slot.valid u.version) updates
assign_versions-versioning_example =
    assign_versions-versioning stored jobs vrf_prove commit_to openings updates prepared

length-map : {A B : Type 0} (f : A → B) (xs : List A) → length (map f xs) ≡ length xs
length-map f [] = refl
length-map f (x ∷ xs) = ap suc (length-map f xs)

-- A tree whose updates all succeed.
abbrev tree : TreeOps ℕ ℕ
tree = record {
  history = stored;
  catch_up_update = λ req. Answer.response 0;
  apply_batch = λ us. some (map (λ (u : PreUpdateData). some u.version) us);
  post_update = λ us post. Answer.response post;
  results_length = λ us results h.
      sym (ap length (some_injective _ _ h))
      ∙ length-map (λ (u : PreUpdateData). some u.version) us;
}

process_batch_answers_example :
    (answers : List (ℕ × Answer ℕ)) × (process_batch tree vrf_prove commit_to openings jobs
      ≡ some answers)
    × ((c : ℕ) → times c (firsts answers) ≡ times c (channels_of jobs))
process_batch_answers_example = process_batch_answers tree vrf_prove commit_to openings jobs

abbrev empty : Column
empty k = none

-- Two versions for Alice, a raced one, and one for Bob.
abbrev mixed : List PreUpdateData
mixed =
    update alice (7 ∷ []) 0 0
    ∷ update alice (8 ∷ []) 1 1
    ∷ update alice (9 ∷ []) 5 2
    ∷ update bob (1 ∷ []) 0 3
    ∷ []

abbrev mixed_entries : List (Bytes × ℕ × ℕ)
mixed_entries =
    history_batch mixed (assign_versions (get_label_history empty) [] mixed) (10 ∷ 11 ∷ 12 ∷ [])
