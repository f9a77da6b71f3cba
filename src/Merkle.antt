-- ===== src/Merkle.antt =====
-- Proofs of inclusion in a Merkle tree of one, two or three layers
-- (storage-proofs-core/src/merkle/proof.rs).
pub mod Paths
pub mod Validate
pub mod Binding
pub mod Places
pub mod Index
pub mod RoundTrip
pub mod Openings
mod Tests
