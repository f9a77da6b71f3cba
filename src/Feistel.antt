-- ===== src/Feistel.antt =====
-- storage-proofs-core/src/crypto/feistel.rs: a keyed pseudo-random permutation of
-- `[0, num_elements)` by a Feistel network that is walked until it lands in the range.
-- `blake2b data i` is byte `i` of the BLAKE2b hash of the package blake2b_simd.
pub mod Network
pub mod Rounds
pub mod Pigeonhole
pub mod Cycle
pub mod Permutation
mod Tests
