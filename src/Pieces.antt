-- ===== src/Pieces.antt =====
-- filecoin-proofs/src/pieces.rs, types/piece_info.rs, types/bytes_amount.rs, types/sector_size.rs
-- and the piece constants of constants.rs: how the data commitment of a sector (comm_d) is computed
-- from the commitments of its pieces.
--
-- A commitment is its list of 32 bytes. `hash` is the SHA-256 of the package sha2, cut to 254 bits.
-- The stack of the source pushes at the end of a vector; here the top comes first.
pub mod Sizes
pub mod Stack
pub mod Levels
pub mod Tree
pub mod Reduce
pub mod CommD
pub mod Total
pub mod Alignment
pub mod Placement
pub mod Layout
mod Tests
