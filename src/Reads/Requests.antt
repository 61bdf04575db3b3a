-- ===== src/Reads/Requests.antt =====
-- src/tree/monitor.rs, and `search` of src/tree/read.rs: the requests that the server answers from its
-- tree. The proofs come from the traversals of src/tree/traversal.rs, which are an interface here.
use ru_kt.Common.{
  ℕ, Bool, true, false, List, [], ◌∷◌, Option, none, some, ltb, leb, ◌>>=◌, ◌>>◌, require,
}
use ru_kt.Tls.{Bytes}
use ru_kt.Server.{greatest}
use ru_kt.Client.{FullTreeHead}
use ru_kt.Reads.{Tree, size_of, or_zero, get_full_tree_head}

pub record MonitorMapEntry : Type 0 where
  pub position : ℕ
  pub version : ℕ

pub record ContactMonitorRequest : Type 0 where
  pub last : Option ℕ
  pub label : Bytes
  pub entries : List MonitorMapEntry

pub record OwnerInitRequest : Type 0 where
  pub last : Option ℕ
  pub label : Bytes
  pub start : ℕ

pub record OwnerMonitorRequest : Type 0 where
  pub last : Option ℕ
  pub label : Bytes
  pub entries : List MonitorMapEntry
  pub start : ℕ
  pub greatest_version : Option ℕ

pub record DistinguishedRequest : Type 0 where
  pub last : Option ℕ
  pub stop : Option ℕ

-- The traversals: a proof, and with some of them a ladder and versions.
pub record Traversals (Proof Ladder : Type 0) : Type 0 where
  pub traverse_contact_monitoring : ℕ → Bytes → List MonitorMapEntry → ℕ → Option Proof
  pub traverse_owner_init : ℕ → Bytes → ℕ → ℕ → Option (Proof × Ladder × List ℕ)
  pub traverse_distinguished : ℕ → Option ℕ → ℕ → Option Proof
  pub traverse_owner_monitor : ℕ → Bytes → List MonitorMapEntry → ℕ → ℕ → Option (Proof × Ladder)

-- An empty tree cannot be monitored.
unfoldable pub monitored_tree_size : Tree → Option ℕ
monitored_tree_size tree = do require (ltb 0 (size_of tree.latest)); some (size_of tree.latest)

-- `prev` is the position of the entry before.
abbrev pub after : Option ℕ → ℕ → Bool
after none position = true
after (some p) position = ltb p position

unfoldable pub validate_loop : Option ℕ → List MonitorMapEntry → ℕ → Option (Unit {0})
validate_loop prev [] tree_size = some _
validate_loop prev (entry ∷ entries) tree_size = do
  require (ltb entry.position tree_size)
  require (after prev entry.position)
  validate_loop (some entry.position) entries tree_size

unfoldable pub validate_monitor_entries : List MonitorMapEntry → ℕ → Option (Unit {0})
validate_monitor_entries entries tree_size = validate_loop none entries tree_size

-- A claimed version that is not above the actual greatest one.
abbrev pub claimed_exists : Option ℕ → Option ℕ → Bool
claimed_exists none actual = true
claimed_exists (some claimed) none = false
claimed_exists (some claimed) (some actual) = leb claimed actual

-- `stop` is in the tree.
abbrev pub stop_within : Option ℕ → ℕ → Bool
stop_within none tree_size = true
stop_within (some stop) tree_size = ltb stop tree_size

module _ {Proof Ladder : Type 0} (traversals : Traversals Proof Ladder) (tree : Tree) where
  unfoldable pub contact_monitor : ContactMonitorRequest → Option (FullTreeHead × Proof)
  contact_monitor req = do
    tree_size ← monitored_tree_size tree
    _ ← validate_monitor_entries req.entries tree_size
    proof ←
        traversals.traverse_contact_monitoring tree_size req.label req.entries (or_zero req.last)
    some (get_full_tree_head tree req.last, proof)

  unfoldable pub owner_init : OwnerInitRequest → Option (FullTreeHead × List ℕ × Ladder × Proof)
  owner_init req = do
    tree_size ← monitored_tree_size tree
    require (ltb req.start tree_size)
    (proof, binary_ladder, greatest_versions) ←
        traversals.traverse_owner_init tree_size req.label req.start (or_zero req.last)
    some (get_full_tree_head tree req.last, greatest_versions, binary_ladder, proof)

  unfoldable pub distinguished : DistinguishedRequest → Option (FullTreeHead × Proof)
  distinguished req = do
    tree_size ← monitored_tree_size tree
    require (stop_within req.stop tree_size)
    proof ← traversals.traverse_distinguished tree_size req.stop (or_zero req.last)
    some (get_full_tree_head tree req.last, proof)

  unfoldable pub owner_monitor : OwnerMonitorRequest → Option (FullTreeHead × Proof × Ladder)
  owner_monitor req = do
    tree_size ← monitored_tree_size tree
    _ ← validate_monitor_entries req.entries tree_size
    require (ltb req.start tree_size)
    require (claimed_exists req.greatest_version (greatest (tree.history req.label)))
    (proof, binary_ladder) ←
        traversals.traverse_owner_monitor tree_size req.label req.entries req.start
          (or_zero req.last)
    some (get_full_tree_head tree req.last, proof, binary_ladder)
