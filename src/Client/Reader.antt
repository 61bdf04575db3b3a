-- ===== src/Client/Reader.antt =====
-- `ProofReader` of src/client/core.rs: the queues of a combined proof, read in the order in which the
-- executed algorithm asks. The map `assigned_ts` is a list in the order of positions; the indices into
-- the queues are the parts of them that are left.
use ru_kt.Common.{
  require, ℕ, Bool, true, false, List, [], ◌∷◌, Option, none, some, ltb, ◌==◌, if◌then◌else◌, ◌>>=◌,
  ◌>>◌, not, same_bytes,
}
use ru_kt.Tls.{Bytes}
use ru_kt.Prefix.{PrefixProof}
use ru_kt.Merkle.{Values, lookup}

abbrev pub Timestamps : Type 0
Timestamps = List (ℕ × ℕ)

pub record ProofReader : Type 0 where
  pub timestamps : List ℕ
  pub prefix_proofs : List PrefixProof
  pub assigned_ts : Timestamps

pub record CombinedTreeProof : Type 0 where
  pub timestamps : List ℕ
  pub prefix_proofs : List PrefixProof
  pub prefix_roots : List Bytes

unfoldable pub new : CombinedTreeProof → ProofReader
new proof = record {
  timestamps = proof.timestamps;
  prefix_proofs = proof.prefix_proofs;
  assigned_ts = [];
}

abbrev pub assigned : Timestamps → ℕ → Option ℕ
assigned [] pos = none
assigned ((p, t) ∷ l) pos = if p == pos then some t else assigned l pos

abbrev pub or_else : Option ℕ → ℕ → ℕ
or_else none t = t
or_else (some u) t = u

-- `range(..pos).next_back()`
abbrev pub left_of : Timestamps → ℕ → Option ℕ
left_of [] pos = none
left_of ((p, t) ∷ l) pos = if ltb p pos then some (or_else (left_of l pos) t) else left_of l pos

-- `range(pos + 1..).next()`
abbrev pub right_of : Timestamps → ℕ → Option ℕ
right_of [] pos = none
right_of ((p, t) ∷ l) pos = if ltb pos p then some t else right_of l pos

abbrev pub insert : Timestamps → ℕ → ℕ → Timestamps
insert [] pos ts = (pos, ts) ∷ []
insert ((p, t) ∷ l) pos ts =
    if ltb pos p
    then (pos, ts) ∷ (p, t) ∷ l
    else if pos == p
    then (pos, ts) ∷ l
    else (p, t) ∷ insert l pos ts

-- No entry to the left is newer, and none to the right older.
abbrev pub not_older : Option ℕ → ℕ → Bool
not_older none ts = true
not_older (some left) ts = not (ltb ts left)

abbrev pub not_newer : Option ℕ → ℕ → Bool
not_newer none ts = true
not_newer (some right) ts = not (ltb right ts)

-- The timestamp of an entry that has none yet.
unfoldable pub next_timestamp : ProofReader → List ℕ → ℕ → Option (ℕ × ProofReader)
next_timestamp reader [] pos = none
next_timestamp reader (ts ∷ rest) pos = do
  require (not_older (left_of reader.assigned_ts pos) ts)
  require (not_newer (right_of reader.assigned_ts pos) ts)
  some (
    ts,
    record {
      timestamps = rest;
      prefix_proofs = reader.prefix_proofs;
      assigned_ts = insert reader.assigned_ts pos ts;
    },
  )

unfoldable pub timestamp : ProofReader → ℕ → Option (ℕ × ProofReader)
timestamp reader pos = elim (assigned reader.assigned_ts pos) [
  | some ts ↦ some (ts, reader)
  | none ↦ next_timestamp reader reader.timestamps pos
]

unfoldable pub prefix_proof : ProofReader → Option (PrefixProof × ProofReader)
prefix_proof reader = elim reader.prefix_proofs [
  | [] ↦ none
  | pp ∷ rest ↦ some (
    pp,
    record {
      timestamps = reader.timestamps;
      prefix_proofs = rest;
      assigned_ts = reader.assigned_ts;
    },
  )
]

-- The loop of `finish`, which pops a prefix root for each entry with no verified proof.
unfoldable pub entries : Values → Timestamps → List Bytes → Option (List (ℕ × ℕ × Bytes))
entries entry_roots [] [] = some []
entries entry_roots [] (r ∷ prefix_roots) = none
entries entry_roots ((pos, ts) ∷ l) prefix_roots = elim (lookup entry_roots pos) [
  | some root ↦ do out ← entries entry_roots l prefix_roots; some ((pos, ts, root) ∷ out)
  | none ↦ elim prefix_roots [
    | [] ↦ none
    | root ∷ rest ↦ do out ← entries entry_roots l rest; some ((pos, ts, root) ∷ out)
  ]
]

abbrev pub is_empty {ℓ} : {A : Type ℓ} → List A → Bool
is_empty [] = true
is_empty (x ∷ l) = false

unfoldable pub finish : ProofReader → CombinedTreeProof → Values → Option (List (ℕ × ℕ × Bytes))
finish reader proof entry_roots = do
  require (is_empty reader.timestamps)
  require (is_empty reader.prefix_proofs)
  entries entry_roots reader.assigned_ts proof.prefix_roots

-- The root of an entry, which further proofs must agree with.
unfoldable pub record_entry_root : Values → ℕ → Bytes → Option Values
record_entry_root map entry root = elim (lookup map entry) [
  | none ↦ some ((entry, root) ∷ map)
  | some prev ↦ if same_bytes prev root then some ((entry, root) ∷ map) else none
]

-- The timestamps of some entries, read one after the other.
unfoldable pub read_timestamps : ProofReader → List ℕ → Option ProofReader
read_timestamps reader [] = some reader
read_timestamps reader (pos ∷ positions) = do
  (ts, next) ← timestamp reader pos
  read_timestamps next positions
