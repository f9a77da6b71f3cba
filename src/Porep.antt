-- ===== src/Porep.antt =====
-- The challenges, the labels and the vanilla proofs of the proof of replication
-- (storage-proofs-porep/src/stacked/vanilla).
pub mod Challenges
pub mod Synthetic
pub mod Selected
pub mod Interactive
pub mod Labeling
pub mod Proofs
pub mod Layers
pub mod Cache
pub mod CacheReads
pub mod CacheOutcomes
pub mod CacheManifest
pub mod CacheParents
pub mod Labels
pub mod Streams
pub mod LabelsEqual
pub mod Opened
pub mod Sealed
pub mod Accepted
pub mod Completeness
pub mod Partitions
pub mod Replication
mod ToySector
mod ToyCache
mod Tests
