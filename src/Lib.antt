-- ===== src/Lib.antt =====
-- Verification of RuKT, a key transparency server and client.
--
-- The program. A server (src/tree, src/service.rs, src/batcher.rs) keeps an append-only log of
-- entries, each a timestamp with the root of a prefix tree of label-version pairs. A client
-- (src/client) trusts none of it: it replays searches from the proofs and keeps the last tree head
-- that it verified. Auditors follow every change of the prefix tree, and clients compare heads over
-- other channels. What they hash, commit to, derive and sign is in src/crypto; which nodes of the
-- trees they visit follows from the arithmetic of src/tree/log_math.rs and
-- src/tree/binary_ladder.rs.
--
-- The files, each with lemmas in a folder of its name and tests in its `Runs` (for the
-- lookups of Client, in Client.LadderRuns):
--   Common   names, tests and lemmas that the others share.
--   LogMath  src/tree/log_math.rs: node ids of the log's Merkle tree and of the implicit search tree,
--            with the source's function names. A u64 shift is written `% 2 ^ 64`. The nodes of consistency
--            proofs and of chunks are in LogMath.Consistency.
--   Ladder   src/tree/binary_ladder.rs and `decode_search_ladder` of src/client/core.rs: the versions
--            that show which one is the greatest, on the server's and on the client's side.
--   Tls      src/crypto/tls.rs: encoders as the bytes that they append, decoders on the bytes left.
--   Crypto   `commit`, the log's hashes and the signed texts of src/crypto/hash.rs, mod.rs and
--            signing.rs, and `CommitmentVerifier::verify` of src/client/verifier.rs.
--   Vrf      src/crypto/vrf.rs: the two suites over the operations of the curve libraries (Vrf.Group,
--            Vrf.Edwards25519, Vrf.P256), and the choice of the suite (Vrf.Suites).
--   Prefix   src/tree/prefix: `rollup` of entry.rs, `step` and the walks of read.rs, the insertions of
--            write.rs (Prefix.Operations), `generate_ladder_proof` of src/tree/read.rs, and the
--            client's `compute_root_from_result` of src/client/verifier.rs (Prefix.Verify). The store
--            with its caches and the overlay of a batch is the function `get`.
--   Merkle   `LogVerifier` and `LogAccumulator` of src/client/verifier.rs.
--   Client   of src/client/core.rs, the checks of a full tree head and the state that they replace
--            (`tree_size_for_fth`, `verify_head_and_commit` and what they call), in Client.Reader
--            the queues of a combined proof (`ProofReader`), and in Client.Ladders the lookups of one
--            entry (`verify_ladder_proof`, `verify_single_lookup`).
--   Store    the version histories of src/db.rs, as the bytes under a label in a column family.
--   Server   src/batcher.rs and the versions of `apply_batch` in src/tree/write.rs: from requests to
--            versions, their updates and history entries, and (Server.Batch) one answer for each job.
--   Reads    `find_log_entry_for_prefix_pos` of src/tree/write.rs, heads and versions of
--            src/tree/read.rs, src/tree/prune.rs, and the handlers of src/tree/monitor.rs
--            (Reads.Requests).
--   Gossip   src/client/gossip.rs, `compare_roots` of src/client/verifier.rs, and the gossip of
--            src/client/core.rs.
--   Auditor  src/client/auditor.rs, `PrefixTransitioner` of src/client/verifier.rs
--            (Auditor.Transition) and src/tree/audit.rs (Auditor.Service).
-- Prefix and Ladder meet in the ladder proof, Merkle uses LogMath for the nodes and Crypto for the
-- hashes, Client uses Merkle for the root and Crypto for the text whose signature it checks. Server
-- writes the histories of Store, Reads sends the heads that Client receives, Gossip compares the heads
-- that Client keeps, and Auditor grows the accumulator of Merkle.
--
-- Parameters. SHA-256, HMAC, the curves, the signature schemes, RocksDB, and the hexadecimal and protobuf
-- encodings are other packages' code: any functions, or the fields of a record with the laws that are
-- used beside it. The clock is the number `now`. Where a component calls one that is not modelled, the
-- calls are a record too: `TreeOps` (Server.Batch), `Traversals` (Reads.Requests), `LogProofs`
-- (Auditor.Service).
--
-- Errors are `none`. A panic that the code rules out is `none` or a constructor of its own.
--
-- Fuel. A loop that goes down a tree of u64 ids gets 64 or 65 rounds, a level for each; loops that the
-- source itself counts (`0..100`) keep their count. The ladder gets 34 rounds for the powers of two of
-- a u32 and 33 for its midpoints. A walk in the prefix tree gets 257 rounds, as each adds a node to a
-- copath of at most 256. That it is enough is part of the theorems on ladders, search paths, full
-- subtrees and prefix searches, which state the results themselves. The binary search over log entries
-- gets 64 rounds, which halve the range; the hash to a curve 256, one for each value of its counter.
-- `sub_proof` gets as many rounds as the newer tree has entries, as each round goes to a smaller tree.
--
-- Not modelled: the chunked log store of src/tree/log.rs, the traversals and credentials of the server,
-- the audit blob and new head of `apply_batch`, and the client's verifiers of single operations. As
-- input and output the service, the other columns of the database and the command line.
pub mod Common
pub mod LogMath
pub mod Ladder
pub mod Tls
pub mod Crypto
pub mod Prefix
pub mod Merkle
pub mod Client
pub mod Store
pub mod Server
pub mod Reads
pub mod Gossip
pub mod Vrf
pub mod Auditor
