-- ===== src/Lib.antt =====
-- A model of the proof system's core logic (rust-fil-proofs), and proofs of what makes it
-- correct.
--
-- The parts, and the files that model them:
--
-- - Base: lists, results, machine words, powers of two and bit operations that all parts share.
-- - Fr32: fr32/src/convert.rs (Convert) and fr32/src/padding.rs, the map between raw byte offsets
--   and offsets in the padded layout in which every 254 data bits are followed by 2 padding bits
--   (PaddingMap, Offsets), with the rounding of `as f64` written out (Float).
-- - Pieces: filecoin-proofs/src/pieces.rs and the amounts of filecoin-proofs/src/types. Stack has
--   the reduction stack and compute_comm_d, Alignment the placement of pieces; Tree says what
--   comm_d should be, Levels reads the stack as a binary counter, Reduce, CommD and Total prove
--   the loops, Placement and Layout prove where pieces come to lie.
-- - Feistel: storage-proofs-core/src/crypto/feistel.rs. Network has precompute, encode, decode,
--   permute and invert_permute, Rounds inverts the network, Pigeonhole and Cycle show that cycle
--   walking ends and can be walked back, Permutation puts these together.
-- - Update: storage-proofs-update/src. Constants has constants.rs, Challenges the iterator of
--   challenges.rs, Sizes and Divmod the arithmetic of its counters, Yield the sequence it yields,
--   Partition the challenges of one partition. Encoding has the encoding of vanilla.rs, Chunks
--   its loops, RoundTrip and Recovered its inverses.
-- - Api: storage-proofs-core/src/api_version.rs, the versions of the network interface, their
--   order and features.
-- - Post: storage-proofs-post/src/fallback (vanilla.rs, utils.rs). Types has the data and the
--   interface of Merkle trees, Leaves the challenges, Prove and Verify the two sides; Complete
--   treats a sector, Partitions a chunk of sectors and the list of chunks, Completeness the
--   whole; Sound takes the acceptance of a sector apart, Binding compares two accepted proofs of
--   a sector, Inclusions puts the inclusion proofs of Merkle in the place of the interface.
-- - Merkle: storage-proofs-core/src/merkle/proof.rs. Paths has the inclusion proofs of trees of
--   one, two and three layers, their verification, index and path, Validate the validation for a
--   node and the expected length; Places and Index read the index as digits, Binding says what a
--   root binds a proof to, Openings the same of two validated proofs, RoundTrip treats
--   from_parts.
-- - Graph: storage-proofs-core/src/drgraph.rs and
--   storage-proofs-porep/src/stacked/vanilla/graph.rs. Bucket and Stacked have the two graphs,
--   Parents and Expanded show which parents a node has.
-- - Porep: storage-proofs-porep/src/stacked/vanilla. From challenges.rs, Challenges has the
--   interactive and the non-interactive ones, Synthetic the generator of synthetic challenges
--   with its stream; Selected and Interactive show what they return. Labeling has the labeling
--   and encoding proofs and the columns, Proofs the proof of params.rs and its verifier with that
--   of proof_scheme.rs, Layers prove_layers_generate of proof.rs. Sealed says what a sealed
--   sector is, Opened and Accepted treat the parents and the labels, Completeness the whole;
--   Partitions and Replication the partitions of a sector. Cache, CacheReads, CacheOutcomes,
--   CacheManifest and CacheParents have cache.rs; Labels, Streams and LabelsEqual the labels of
--   create_label/single.rs and the streams of parents of graph.rs.
--
-- Not modelled: circuits and gadgets, hashers and ciphers (parameters), caches of parameters,
-- files and command-line tools; the builders of Merkle trees, the conversion of proofs of the
-- merkletree package and the readers of fr32 have no model.
--
-- Conventions. A number is a natural number; where the source computes in u32, u64 or usize (64
-- bits) the remainder is written out. A fallible function returns Base's Result: ok, err with an
-- error of the component, panic for an assertion, an index out of range or an expect, and stuck
-- for a loop whose fuel ran out. The loops over doubling sizes have 64 rounds of fuel, as many as
-- a u64 can double; the theorems prove that these are enough. Commitments are lists of bytes. A
-- parallel loop is taken in order; what runs beside it in prove_layers_generate is a list of
-- outcomes and a detector. Hash functions and ciphers of other packages are arguments; sha2raw,
-- the repository's own SHA-256 on blocks, is taken to be the same function as that of the sha2
-- package, and the ChaCha20 key stream of the synthetic challenges has no end, where the cipher
-- panics behind 2^38 bytes.
pub mod Base
pub mod Fr32
pub mod Pieces
pub mod Feistel
pub mod Update
pub mod Api
pub mod Post
pub mod Merkle
pub mod Porep
pub mod Graph
