-- ===== src/Graph.antt =====
-- The graphs of the proof of replication: the depth-robust base graph
-- (storage-proofs-core/src/drgraph.rs) and the stacked graph on top of it
-- (storage-proofs-porep/src/stacked/vanilla/graph.rs).
pub mod Bucket
pub mod Parents
pub mod Stacked
pub mod Expanded
pub mod ToyGraph
mod Tests
