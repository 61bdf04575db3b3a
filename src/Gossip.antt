-- ===== src/Gossip.antt =====
-- src/client/gossip.rs, `compare_roots` of src/client/verifier.rs and the gossip of src/client/core.rs:
-- signed heads that clients exchange, and the evidence of a fork. The hexadecimal and protobuf
-- encodings are not part of the repository: they are the operations of `Encodings`. An error is `none`.
pub mod Evidence
pub mod Overlap
pub mod Retention
mod Runs
use ru_kt.Common.{
  ℕ, zero, suc, ◌-◌, Bool, true, false, not, ◌&&◌, ◌||◌, List, [], ◌∷◌, Option, none, some, ◌==◌,
  ltb, if◌then◌else◌, length, take, drop, same_bytes, min, ◌>>=◌, ◌>>◌, require,
}
use ru_kt.Tls.{Bytes}
use ru_kt.Crypto.{PublicConfig, construct_tree_head_tbs_public}
use ru_kt.Merkle.{accumulator_from_peaks}
use ru_kt.Client.{TreeHead, TrustedState, KtClient, any_valid}

pub record Encodings : Type 0 where
  pub hex_encode : Bytes → Bytes
  pub hex_decode : Bytes → Option Bytes
  pub encode_head : TreeHead → Bytes
  pub decode_head : Bytes → Option TreeHead

pub record GossipHead : Type 0 where
  pub tree_size : ℕ
  pub root_hash : Bytes
  pub tree_head : Bytes

pub record ForkEvidence : Type 0 where
  pub tree_size : ℕ
  pub root_a : Bytes
  pub head_a : Bytes
  pub root_b : Bytes
  pub head_b : Bytes

pub data GossipOutcome : Type 0 where
  consistent : GossipOutcome
  inconclusive : GossipOutcome
  fork : ForkEvidence → GossipOutcome

-- The lists agree from position x of the one on.
unfoldable pub same_roots : List Bytes → List Bytes → Bool
same_roots [] [] = true
same_roots [] (r ∷ rs) = false
same_roots (r ∷ rs) [] = false
same_roots (r ∷ rs) (s ∷ ss) = same_bytes r s && same_roots rs ss

abbrev pub overlap_at : List Bytes → List Bytes → ℕ → Bool
overlap_at roots_a roots_b x =
    same_roots (take (length roots_a - x) roots_a) (drop x roots_b)
    || same_roots (take (length roots_a - x) roots_b) (drop x roots_a)

-- `for x in 0..n`, with `k` rounds to go.
unfoldable pub overlap_loop : List Bytes → List Bytes → ℕ → ℕ → Bool
overlap_loop roots_a roots_b zero x = false
overlap_loop roots_a roots_b (suc k) x =
    overlap_at roots_a roots_b x || overlap_loop roots_a roots_b k (suc x)

unfoldable pub compare_roots : List Bytes → List Bytes → Bool
compare_roots roots_a roots_b =
    (length roots_a == length roots_b) && overlap_loop roots_a roots_b (length roots_a) 0

-- A retained distinguished head: its position, timestamp, prefix root and the peaks of its log.
pub record DistinguishedEntry : Type 0 where
  pub pos : ℕ
  pub timestamp : ℕ
  pub prefix_root : Bytes
  pub peaks : List Bytes

module _ (hash : Bytes → Bytes) where
  unfoldable pub distinguished_roots : List DistinguishedEntry → Option (List (ℕ × Bytes))
  distinguished_roots [] = some []
  distinguished_roots (e ∷ entries) = do
    acc ← accumulator_from_peaks hash (suc e.pos) e.peaks
    out ← distinguished_roots entries
    some ((e.pos, acc) ∷ out)

module _ (enc : Encodings) where
  -- A head as it is sent.
  abbrev pub gossip_of : ℕ → Bytes → TreeHead → GossipHead
  gossip_of tree_size root_hash head = record {
    tree_size = tree_size;
    root_hash = enc.hex_encode root_hash;
    tree_head = enc.hex_encode (enc.encode_head head);
  }

  unfoldable pub decode_gossip : Bytes → Option TreeHead
  decode_gossip tree_head = do bytes ← enc.hex_decode tree_head; enc.decode_head bytes

  unfoldable pub decode_roots : List (ℕ × Bytes) → Option (List Bytes)
  decode_roots [] = some []
  decode_roots ((pos, r) ∷ roots) = do
    root ← enc.hex_decode r
    rest ← decode_roots roots
    some (root ∷ rest)

  abbrev pub export_roots : List (ℕ × Bytes) → List (ℕ × Bytes)
  export_roots [] = []
  export_roots ((pos, root) ∷ roots) = (pos, enc.hex_encode root) ∷ export_roots roots

  abbrev seconds : List (ℕ × Bytes) → List Bytes
  seconds [] = []
  seconds ((pos, r) ∷ roots) = r ∷ seconds roots

  -- Both lists are cut to their common length, from the most recent end.
  unfoldable pub check_gossiped_roots : List (ℕ × Bytes) → List (ℕ × Bytes) → Bool
  check_gossiped_roots mine theirs =
      let n = min (length mine) (length theirs) in
      ltb 0 n && (elim (decode_roots (drop (length theirs - n) theirs)) [
        | none ↦ false
        | some b ↦ compare_roots (seconds (drop (length mine - n) mine)) b
      ])

  module _ (verify : Bytes → Bytes → Bytes → Bool) (config : PublicConfig) where
    unfoldable pub verify_gossip_head : GossipHead → Option (Unit {0})
    verify_gossip_head gossip = do
      head ← decode_gossip gossip.tree_head
      require (head.tree_size == gossip.tree_size)
      root ← enc.hex_decode gossip.root_hash
      tbs ← construct_tree_head_tbs_public config gossip.tree_size root
      require (any_valid (verify config.server_sig_pk tbs) head.signatures)

    unfoldable pub verify_fork_evidence : ForkEvidence → Option (Unit {0})
    verify_fork_evidence evidence = do
      require (not (same_bytes evidence.root_a evidence.root_b))
      verify_gossip_head (record {
        tree_size = evidence.tree_size;
        root_hash = evidence.root_a;
        tree_head = evidence.head_a;
      })
      verify_gossip_head (record {
        tree_size = evidence.tree_size;
        root_hash = evidence.root_b;
        tree_head = evidence.head_b;
      })

    unfoldable pub export_head : KtClient → Option GossipHead
    export_head client = do
      state ← client.state
      head ← client.retained_head
      some (gossip_of state.tree_size state.root_hash head)

    -- The roots differ: our head and the gossiped one are the evidence.
    unfoldable pub forked : KtClient → GossipHead → TrustedState → Option GossipOutcome
    forked client gossip state = do
      ours ← export_head client
      some (
          GossipOutcome.fork (record {
            tree_size = state.tree_size;
            root_a = ours.root_hash;
            head_a = ours.tree_head;
            root_b = gossip.root_hash;
            head_b = gossip.tree_head;
          }))

    -- After the gossiped head is verified.
    unfoldable pub compared : KtClient → GossipHead → TrustedState → Option GossipOutcome
    compared client gossip state =
        if gossip.tree_size == state.tree_size
        then (enc.hex_decode gossip.root_hash >>= (λ root.
            if same_bytes root state.root_hash
            then some GossipOutcome.consistent
            else forked client gossip state))
        else some GossipOutcome.inconclusive

    unfoldable pub check_gossiped_head : KtClient → GossipHead → Option GossipOutcome
    check_gossiped_head client gossip = do
      verify_gossip_head gossip
      state ← client.state
      compared client gossip state
