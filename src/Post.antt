-- ===== src/Post.antt =====
-- The proof of spacetime (storage-proofs-post/src/fallback): challenges of sectors and leaves, the
-- proofs of all partitions, and their verification.
pub mod Types
pub mod Leaves
pub mod Prove
pub mod Verify
pub mod Complete
pub mod Partitions
pub mod Completeness
pub mod Sound
pub mod Binding
pub mod Inclusions
mod ToyInclusions
mod Tests
