-- ===== src/Update/Encoding.antt =====
-- The encoding of data into a sector key, and its inverses: `Rhos`, `encode_into`, `decode_from` and
-- `remove_encoded_data` of storage-proofs-update/src/vanilla.rs. A file is its list of nodes of 32 bytes, and
-- a parallel loop over chunks is taken in order. The field, the hashes and the roots of the trees over a
-- file are parameters.
use rust_fil_proofs.Base.{
  ℕ, zero, suc, ◌+◌, ◌-◌, ◌/◌, ◌%◌, min, not, List, [], ◌∷◌, ◌++◌, Option, none, some, Result, ok,
  err, panic, stuck, ◌>>=◌, ◌>>◌, ensure, assert, leb, ◌==◌, if◌then◌else◌, u32, u64, sub64, ◌>>>◌,
  length, drop, get_elem?,
}

abbrev pub Node : Type 0
Node = List ℕ

pub data UpdateError : Type 0 where
  bad_fr_bytes key_size_mismatch data_size_mismatch : UpdateError

-- The field and its encoding in 32 bytes; `invert` has no result for zero.
pub record Fr (F : Type 0) : Type 0 where
  pub from_repr : Node → Option F
  pub to_repr : F → Node
  pub add : F → F → F
  pub sub : F → F → F
  pub mul : F → F → F
  pub invert : F → Option F

unfoldable pub trailing_zeros : ℕ → ℕ → ℕ
trailing_zeros zero x = 0
trailing_zeros (suc fuel) x =
    let more = trailing_zeros fuel (x / 2) in if x % 2 == 0 then suc more else 0

abbrev pub or_panic : {A : Type 0} → Option A → Result UpdateError A
or_panic none = panic
or_panic (some a) = ok a

module _ {F : Type 0} (fr : Fr F) where
  abbrev pub or_bad : Option F → Result UpdateError F
  or_bad none = err bad_fr_bytes
  or_bad (some x) = ok x

  -- `bytes_into_fr` of fr32/src/convert.rs.
  unfoldable pub bytes_into_fr : Node → Result UpdateError F
  bytes_into_fr le_bytes = do
    ensure (length le_bytes == 32) bad_fr_bytes
    or_bad (fr.from_repr le_bytes)

  -- The map from the high bits of a node to its rho, and the shift that gives the high bits.
  pub record Rhos : Type 0 where
    pub rhos : List (ℕ × F)
    pub bits_shr : ℕ

  unfoldable pub lookup : List (ℕ × F) → ℕ → Option F
  lookup [] high = none
  lookup ((key, rho) ∷ rhos) high =
      let later = lookup rhos high in if key == high then some rho else later

  unfoldable pub get : Rhos → ℕ → Result UpdateError F
  get r offset = or_panic (lookup r.rhos (offset >>> (r.bits_shr % 64)))

  unfoldable pub calc_bits_shr : ℕ → ℕ → ℕ
  calc_bits_shr h nodes_count = sub64 (trailing_zeros 64 nodes_count) h

  -- The first of the high bits and how many there are.
  unfoldable pub calc_high_range : ℕ → ℕ → ℕ → ℕ × ℕ
  calc_high_range offset num bits_shr =
      let first_high = offset >>> (bits_shr % 64) in
      let last_high = sub64 (u64 (offset + num)) 1 >>> (bits_shr % 64) in
      (first_high, last_high + 1 - first_high)

  -- The pairs for `count` values from `high` on.
  unfoldable pub collect_rhos :
      (ℕ → Result UpdateError F) → ℕ → ℕ → Result UpdateError (List (ℕ × F))
  collect_rhos rho high zero = ok []
  collect_rhos rho high (suc count) = do
    r ← rho high
    rest ← collect_rhos rho (high + 1) count
    ok ((high, r) ∷ rest)

  unfoldable pub rhos_over : (ℕ → Result UpdateError F) → ℕ → ℕ → ℕ → ℕ → Result UpdateError Rhos
  rhos_over rho h nodes_count offset num = do
    let bits_shr = calc_bits_shr h nodes_count
    let (first, count) = calc_high_range offset num bits_shr
    rhos ← collect_rhos rho first count
    ok (record { rhos = rhos; bits_shr = bits_shr })

  module _ (rho : Node → ℕ → F) where
    unfoldable pub new_rhos : Node → ℕ → ℕ → Result UpdateError Rhos
    new_rhos phi h nodes_count =
        rhos_over (λ high. ok (rho phi (u32 high))) h nodes_count 0 nodes_count

    unfoldable pub new_inv_rhos : Node → ℕ → ℕ → Result UpdateError Rhos
    new_inv_rhos phi h nodes_count =
        rhos_over (λ high. or_panic (fr.invert (rho phi (u32 high)))) h nodes_count 0 nodes_count

  abbrev pub node_at : List Node → ℕ → Result UpdateError Node
  node_at file i = or_panic (get_elem? file i)

  -- The bodies of the three loops, for one node.
  unfoldable pub encode_node : Rhos → List Node → List Node → ℕ → Result UpdateError Node
  encode_node rhos sector_key_data staged_data node_index = do
    rho ← get rhos node_index
    key_bytes ← node_at sector_key_data node_index
    sector_key_fr ← bytes_into_fr key_bytes
    data_bytes ← node_at staged_data node_index
    staged_data_fr ← bytes_into_fr data_bytes
    ok (fr.to_repr (fr.add sector_key_fr (fr.mul staged_data_fr rho)))

  unfoldable pub decode_node : Rhos → List Node → List Node → ℕ → Result UpdateError Node
  decode_node rho_invs sector_key_data replica_data node_index = do
    rho_inv ← get rho_invs node_index
    key_bytes ← node_at sector_key_data node_index
    sector_key_fr ← bytes_into_fr key_bytes
    replica_bytes ← node_at replica_data node_index
    replica_data_fr ← bytes_into_fr replica_bytes
    ok (fr.to_repr (fr.mul (fr.sub replica_data_fr sector_key_fr) rho_inv))

  unfoldable pub remove_node : Rhos → List Node → List Node → ℕ → Result UpdateError Node
  remove_node rhos data_ replica_data node_index = do
    rho ← get rhos node_index
    data_bytes ← node_at data_ node_index
    data_fr ← bytes_into_fr data_bytes
    replica_bytes ← node_at replica_data node_index
    replica_data_fr ← bytes_into_fr replica_bytes
    ok (fr.to_repr (fr.sub replica_data_fr (fr.mul data_fr rho)))

-- The nodes of a chunk, from `i` on.
unfoldable pub chunk_nodes : (ℕ → Result UpdateError Node) → ℕ → ℕ → Result UpdateError (List Node)
chunk_nodes node i zero = ok []
chunk_nodes node i (suc count) = do n ← node i; rest ← chunk_nodes node (i + 1) count; ok (n ∷ rest)

-- The chunks of the output with their first nodes, as long as there are both. A chunk that is too
-- short panics.
unfoldable pub process_chunks :
    (ℕ → Result UpdateError Node) → ℕ → ℕ → ℕ → ℕ → List Node → Result UpdateError (List Node)
process_chunks node chunk_size fuel end start [] = ok []
process_chunks node chunk_size zero end start (o ∷ output) = stuck
process_chunks node chunk_size (suc fuel) end start (o ∷ output) =
    let rest =
      process_chunks node chunk_size fuel end (start + chunk_size) (drop chunk_size (o ∷ output)) in
    if leb end start then ok (o ∷ output) else (do
      assert (leb chunk_size (length (o ∷ output)))
      nodes ← chunk_nodes node start chunk_size
      more ← rest
      ok (nodes ++ more))

-- A step of zero panics.
unfoldable pub process :
    (ℕ → Result UpdateError Node) → ℕ → ℕ → List Node → Result UpdateError (List Node)
process node chunk_size end output = do
  assert (not (chunk_size == 0))
  process_chunks node chunk_size (length output) end 0 output

abbrev pub chunk_size_min : ℕ
chunk_size_min = 4096

-- What other packages and the builders of trees compute.
pub record UpdateExternals (F : Type 0) : Type 0 where
  pub rho : Node → ℕ → F
  pub phi : Node → Node → Node
  pub hash2 : Node → Node → Node
  pub tree_d_root : List Node → Node
  pub tree_r_root : List Node → Node

module _ {F : Type 0} (fr : Fr F) (ext : UpdateExternals F) (tree_count nodes_count h : ℕ) where
  abbrev pub chunk_size : ℕ
  chunk_size = min (nodes_count / tree_count) chunk_size_min

  -- The new replica, with `comm_r_new`, `comm_r_last_new` and `comm_d_new`.
  unfoldable pub encode_into :
      Node
      → Node
      → List Node
      → List Node
      → List Node
      → Result UpdateError (List Node × Node × Node × Node)
  encode_into comm_c comm_r_last_old new_replica sector_key_data staged_data = do
    ensure (length new_replica == length sector_key_data) key_size_mismatch
    ensure (leb (length sector_key_data) (length staged_data)) data_size_mismatch
    let comm_d_new = ext.tree_d_root staged_data
    let phi = ext.phi comm_d_new (ext.hash2 comm_c comm_r_last_old)
    rhos ← new_rhos fr ext.rho phi h nodes_count
    new_replica_data ←
        process (encode_node fr rhos sector_key_data staged_data) chunk_size (length staged_data)
          new_replica
    let comm_r_last_new = ext.tree_r_root new_replica_data
    ok (new_replica_data, ext.hash2 comm_c comm_r_last_new, comm_r_last_new, comm_d_new)

  unfoldable pub decode_from :
      Node → Node → Node → List Node → List Node → List Node → Result UpdateError (List Node)
  decode_from comm_c comm_d_new comm_sector_key out_data replica_data sector_key_data = do
    ensure (length replica_data == length sector_key_data) key_size_mismatch
    let phi = ext.phi comm_d_new (ext.hash2 comm_c comm_sector_key)
    rho_invs ← new_inv_rhos fr ext.rho phi h nodes_count
    process (decode_node fr rho_invs sector_key_data replica_data) chunk_size (length replica_data)
        out_data

  -- The sector key and the root of its tree.
  unfoldable pub remove_encoded_data :
      Node → Node → Node → List Node → List Node → List Node → Result UpdateError (List Node × Node)
  remove_encoded_data comm_c comm_d_new comm_sector_key sector_key replica_data data_ = do
    ensure (length replica_data == length sector_key) key_size_mismatch
    ensure (leb (length replica_data) (length data_)) data_size_mismatch
    let phi = ext.phi comm_d_new (ext.hash2 comm_c comm_sector_key)
    rhos ← new_rhos fr ext.rho phi h nodes_count
    sector_key_data ←
        process (remove_node fr rhos data_ replica_data) chunk_size (length replica_data) sector_key
    ok (sector_key_data, ext.tree_r_root sector_key_data)
