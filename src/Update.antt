-- ===== src/Update.antt =====
-- The challenges of an empty-sector update (storage-proofs-update/src): the constants of a sector
-- size, the iterator of challenges, and what it yields.
pub mod Constants
pub mod Challenges
pub mod Sizes
pub mod Divmod
pub mod Yield
pub mod Partition
pub mod Encoding
pub mod Chunks
pub mod RoundTrip
pub mod Recovered
mod ToyField
mod Tests
