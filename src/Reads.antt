-- ===== src/Reads.antt =====
-- src/tree/write.rs, read.rs, prune.rs and monitor.rs: what the server looks up in its log of prefix
-- tree positions, the heads it sends, the checks of monitoring requests, and the erasure of user data.
-- The store's maps are functions; an error is `none`.
pub mod Search
pub mod Requests
pub mod Heads
pub mod Pruning
pub mod Monitoring
mod Runs
use ru_kt.Common.{
  ℕ, zero, suc, ◌+◌, ◌-◌, ◌/◌, Bool, true, false, not, ◌&&◌, List, [], ◌∷◌, Option, none, some, ltb,
  leb, ◌==◌, if◌then◌else◌, last?, ◌>>=◌, ◌>>◌, require,
}
use ru_kt.Tls.{Bytes}
use ru_kt.Store.{Entries}
use ru_kt.Server.{greatest}
use ru_kt.Client.{TreeHead, AuditorTreeHead, FullTreeHead}

-- The part of `Tree` that is read here. `prefix_ptr` and `timestamp` are the log's maps, and
-- `auditors` the values of the auditors' map in its order.
pub record Tree : Type 0 where
  pub latest : Option TreeHead
  pub auditors : List AuditorTreeHead
  pub prefix_ptr : ℕ → Option ℕ
  pub timestamp : ℕ → Option ℕ
  pub history : Bytes → Entries
  pub values : ℕ → Option Bytes
  pub openings : ℕ → Option Bytes
  pub maximum_lifetime : Option ℕ

abbrev pub size_of : Option TreeHead → ℕ
size_of none = 0
size_of (some th) = th.tree_size

-- One round of the binary search: the bounds after the entry at `mid` is read.
abbrev pub narrowed : ℕ → ℕ → ℕ → ℕ → ℕ → ℕ × ℕ
narrowed pos lo mid hi ptr = if leb pos ptr then (lo, mid) else (mid + 1, hi)

-- `while lo < hi`. Each round halves the range, so that 64 rounds search 64-bit sizes.
unfoldable pub find_loop : (ℕ → Option ℕ) → ℕ → ℕ → ℕ → ℕ → Option ℕ
find_loop prefix_ptr zero pos lo hi = if ltb lo hi then none else some lo
find_loop prefix_ptr (suc n) pos lo hi =
    if ltb lo hi
    then (do
      ptr ← prefix_ptr (lo + (hi - lo) / 2)
      let (lo', hi') = narrowed pos lo (lo + (hi - lo) / 2) hi ptr
      find_loop prefix_ptr n pos lo' hi')
    else some lo

-- `tree_size - 1` overflows on an empty tree: a panic, or else a search that finds no entry.
unfoldable pub find_log_entry_for_prefix_pos : (ℕ → Option ℕ) → ℕ → ℕ → Option ℕ
find_log_entry_for_prefix_pos prefix_ptr pos tree_size = do
  require (ltb 0 tree_size)
  find_loop prefix_ptr 64 pos 0 (tree_size - 1)

-- `unwrap_or(0)`
abbrev pub or_zero : Option ℕ → ℕ
or_zero none = 0
or_zero (some n) = n

-- The larger of the versions seen, and a further one.
abbrev pub max_with : ℕ → Option ℕ → ℕ
max_with v none = v
max_with v (some w) = if ltb v w then w else v

unfoldable pub max_version : Entries → ℕ → Option ℕ
max_version [] log_prefix_ptr = none
max_version ((v, ptr) ∷ history) log_prefix_ptr =
    let rest = max_version history log_prefix_ptr in
    if leb ptr log_prefix_ptr then some (max_with v rest) else rest

unfoldable pub get_max_version_at : Tree → Entries → ℕ → Option ℕ
get_max_version_at tree label_history log_pos =
    max_version label_history (or_zero (tree.prefix_ptr log_pos))

-- `history.iter().find(|(v, _)| *v == version).map(|(_, p)| *p)`
unfoldable pub position_of : Entries → ℕ → Option ℕ
position_of [] version = none
position_of ((v, p) ∷ history) version =
    let rest = position_of history version in if v == version then some p else rest

-- `max_by_key`, which gives the last of several maxima.
abbrev pub freshest : Option AuditorTreeHead → List AuditorTreeHead → Option AuditorTreeHead
freshest best [] = best
freshest none (ath ∷ auditors) = freshest (some ath) auditors
freshest (some best) (ath ∷ auditors) =
    freshest (if ltb ath.tree_size best.tree_size then some best else some ath) auditors

-- `last` is what the request says to be the client's tree size.
unfoldable pub get_full_tree_head : Tree → Option ℕ → FullTreeHead
get_full_tree_head tree last =
    if (or_zero last == size_of tree.latest) && ltb 0 (size_of tree.latest)
    then record { head_type = 1; tree_head = none; auditor_tree_head = none }
    else record {
      head_type = 2;
      tree_head = tree.latest;
      auditor_tree_head = freshest none tree.auditors;
    }

abbrev pub delete : (ℕ → Option Bytes) → ℕ → ℕ → Option Bytes
delete store key k = if key == k then none else store k

abbrev pub delete_at : Tree → ℕ → Tree
delete_at tree pos = record tree {
  values = delete tree.values pos;
  openings = delete tree.openings pos;
}

unfoldable pub erase : Tree → Bytes → ℕ → Option Tree
erase tree label version = do
  pos ← position_of (tree.history label) version
  some (delete_at tree pos)

-- Whether the data of an entry of the history has expired: the log entry that inserted it passed the
-- lifetime.
unfoldable pub expired : Tree → ℕ → ℕ → ℕ → ℕ → Option Bool
expired tree tree_size rightmost_ts max_life pos = do
  entry ← find_log_entry_for_prefix_pos tree.prefix_ptr pos tree_size
  ts ← tree.timestamp entry
  some (leb max_life (rightmost_ts - ts))

-- The tree and the number of versions that were dropped.
unfoldable pub prune_loop : Tree → ℕ → ℕ → ℕ → ℕ → Entries → ℕ → Option (Tree × ℕ)
prune_loop tree tree_size rightmost_ts max_life greatest [] pruned = some (tree, pruned)
prune_loop tree tree_size rightmost_ts max_life greatest ((version, pos) ∷ history) pruned =
    if version == greatest
    then prune_loop tree tree_size rightmost_ts max_life greatest history pruned
    else (do
      old ← expired tree tree_size rightmost_ts max_life pos
      prune_loop (if old then delete_at tree pos else tree) tree_size rightmost_ts max_life greatest
          history (if old then pruned + 1 else pruned))

-- The greatest version of the history, if there is one, never expires.
unfoldable pub prune_from : Tree → ℕ → ℕ → Option ℕ → Entries → Option (Tree × ℕ)
prune_from tree max_life rightmost_ts none history = some (tree, 0)
prune_from tree max_life rightmost_ts (some greatest) history =
    prune_loop tree (size_of tree.latest) rightmost_ts max_life greatest history 0

unfoldable pub prune_within : Tree → Bytes → Option ℕ → Option (Tree × ℕ)
prune_within tree label none = some (tree, 0)
prune_within tree label (some max_life) = if size_of tree.latest == 0 then some (tree, 0) else (do
  rightmost_ts ← tree.timestamp (size_of tree.latest - 1)
  prune_from tree max_life rightmost_ts (greatest (tree.history label)) (tree.history label))

unfoldable pub prune_expired_versions : Tree → Bytes → Option (Tree × ℕ)
prune_expired_versions tree label = prune_within tree label tree.maximum_lifetime
