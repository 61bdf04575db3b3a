-- ===== src/Vrf.antt =====
-- src/crypto/vrf.rs: the verifiable random function, in the two suites.
pub mod Group
pub mod Edwards25519
pub mod EdwardsProof
pub mod P256
pub mod P256Proof
pub mod Suites
mod Runs
