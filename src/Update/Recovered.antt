-- ===== src/Update/Recovered.antt =====
-- `encode_into`, `decode_from` and `remove_encoded_data` of storage-proofs-update/src/vanilla.rs on whole
-- sectors.
use rust_fil_proofs.Base.{
  ℕ, ◌*◌, ◌/◌, ◌%◌, ◌^◌, ◌≤◌, ◌<◌, ◌≡◌, ◌∙◌, refl, sym, ap, arith, true, List, some, Result, ok,
  ◌==◌, u32, length, get_elem?, map, length-map, le→leb,
}
use rust_fil_proofs.Update.Encoding.{
  Node, UpdateError, Fr, Rhos, or_panic, get, calc_bits_shr, new_rhos, new_inv_rhos, encode_node,
  decode_node, remove_node, process, UpdateExternals, chunk_size, encode_into, decode_from,
  remove_encoded_data,
}
use rust_fil_proofs.Update.Chunks.{IsField, process-target, rhos_over-get}
use rust_fil_proofs.Update.RoundTrip.{
  replica_of, replica_of-length, encode_node-replica, remove_node-keys, decode_node-datas,
}

module _ {F : Type 0} (fr : Fr F) (is_field : IsField fr) (ext : UpdateExternals F)
    (tree_count nodes_count h m : ℕ) (some_chunk : 1 ≤ chunk_size fr ext tree_count nodes_count h)
    (whole_chunks : nodes_count ≡ chunk_size fr ext tree_count nodes_count h * m)
    (word : nodes_count < 2 ^ 64) (some_nodes : 1 ≤ nodes_count) (ks ds : List F)
    (key_size : length ks ≡ nodes_count) (data_size : length ds ≡ nodes_count)
    (comm_c comm_r_last : Node) where
  abbrev keys : List Node
  keys = map fr.to_repr ks

  abbrev datas : List Node
  datas = map fr.to_repr ds

  abbrev the_phi : Node
  the_phi = ext.phi (ext.tree_d_root datas) (ext.hash2 comm_c comm_r_last)

  abbrev shr : ℕ
  shr = calc_bits_shr fr h nodes_count % 64

  -- The rho of a node.
  abbrev rho_of : ℕ → F
  rho_of i = ext.rho the_phi (u32 (i / 2 ^ shr))

  abbrev replica : List Node
  replica = map fr.to_repr (replica_of fr is_field rho_of 0 ks ds)

  keys_size : length keys ≡ nodes_count
  keys_size = length-map fr.to_repr ks ∙ key_size

  datas_size : length datas ≡ nodes_count
  datas_size = length-map fr.to_repr ds ∙ data_size

  both_size : length ks ≡ length ds
  both_size = key_size ∙ sym data_size

  replica_size : length replica ≡ nodes_count
  replica_size =
      length-map fr.to_repr (replica_of fr is_field rho_of 0 ks ds)
      ∙ replica_of-length fr is_field rho_of 0 ks ds both_size
      ∙ data_size

  rhos_of :
      (rhos : Rhos fr) × (new_rhos fr ext.rho the_phi h nodes_count ≡ ok rhos)
      × ((i : ℕ) → i < length ds → get fr rhos i ≡ ok (rho_of i))
  unfolding new_rhos
  rhos_of =
      let (rhos, e, found) =
        rhos_over-get fr (λ high. ok (ext.rho the_phi (u32 high)))
          (λ high. ext.rho the_phi (u32 high)) (λ high. refl) h nodes_count some_nodes word in
      (rhos, e, λ i low. found i (omega (arith, data_size)))

  process_whole :
      (node : ℕ → Result UpdateError Node) (target output : List Node) (end : ℕ)
      → ((i : ℕ) (x : Node) → get_elem? target i ≡ some x → node i ≡ ok x)
      → length target ≡ nodes_count
      → length output ≡ nodes_count
      → end ≡ nodes_count
      → process node (chunk_size fr ext tree_count nodes_count h) end output ≡ ok target
  process_whole node target output end computes size out_size ends =
      process-target node target computes m (chunk_size fr ext tree_count nodes_count h) end output
        some_chunk (out_size ∙ whole_chunks) (out_size ∙ sym size) (omega (arith, size, ends))

  encode_into-eq :
      (output : List Node)
      → length output ≡ nodes_count
      → encode_into fr ext tree_count nodes_count h comm_c comm_r_last output keys datas
        ≡ ok (
          replica,
          ext.hash2 comm_c (ext.tree_r_root replica),
          ext.tree_r_root replica,
          ext.tree_d_root datas,
        )
  unfolding encode_into
  encode_into-eq output size =
      let same : (length output == length keys) ≡ true =
        let k = keys_size in ground (arith, size, k) in
      let enough = le→leb (length keys) (length datas) (omega (arith, keys_size, datas_size)) in
      let (rhos, e, has_rho) = rhos_of in
      let run =
        process_whole (encode_node fr rhos keys datas) replica output (length datas)
          (λ i x found.
            encode_node-replica fr is_field ks ds both_size rho_of rhos i x has_rho found)
          replica_size size datas_size in
      rw (same, enough, e, run) refl

  remove_encoded_data-eq :
      (output : List Node)
      → length output ≡ nodes_count
      → remove_encoded_data fr ext tree_count nodes_count h comm_c
          (ext.tree_d_root datas)
          comm_r_last
          output
          replica
          datas
        ≡ ok (keys, ext.tree_r_root keys)
  unfolding remove_encoded_data
  remove_encoded_data-eq output size =
      let r = replica_size in
      let same : (length replica == length output) ≡ true = ground (arith, size, r) in
      let enough = le→leb (length replica) (length datas) (omega (arith, r, datas_size)) in
      let (rhos, e, has_rho) = rhos_of in
      let run =
        process_whole (remove_node fr rhos datas replica) keys output (length replica)
          (λ i x found. remove_node-keys fr is_field ks ds both_size rho_of rhos i x has_rho found)
          keys_size size r in
      rw (same, enough, e, run) refl

  module _ (invertible : (high : ℕ) → (s : F) × (fr.invert (ext.rho the_phi high) ≡ some s)) where
    decode_from-eq :
        (output : List Node)
        → length output ≡ nodes_count
        → decode_from fr ext tree_count nodes_count h comm_c
            (ext.tree_d_root datas)
            comm_r_last
            output
            replica
            keys
          ≡ ok datas
    unfolding decode_from new_inv_rhos
    decode_from-eq output size =
        let r = replica_size in
        let k = keys_size in
        let same : (length replica == length keys) ≡ true = ground (arith, k, r) in
        let inverse_at = λ (high : ℕ). (invertible (u32 high)).0 in
        let (rhos, e, found) =
          rhos_over-get fr (λ high. or_panic (fr.invert (ext.rho the_phi (u32 high)))) inverse_at
            (λ high. ap (λ o. or_panic o) (invertible (u32 high)).1) h nodes_count some_nodes
            word in
        let run =
          process_whole (decode_node fr rhos keys replica) datas output (length replica)
            (λ i x at.
              decode_node-datas fr is_field ks ds both_size rho_of rhos
                (λ j. inverse_at (j / 2 ^ shr)) i x (λ j low. found j (omega (arith, data_size)))
                (λ j. (invertible (u32 (j / 2 ^ shr))).1) at)
            datas_size size r in
        rw (same, e, run) refl

    -- For a sector of whole chunks, fewer than 2 ^ 64 nodes, a sector key and data that are field
    -- elements, rhos that are not zero, and output files of the size of the sector: encode_into returns a
    -- replica of that size, decode_from gives back the data from the replica and the sector key, and
    -- remove_encoded_data gives back the sector key from the replica and the data.
    pub encode_into-decode_from :
        (new_replica out_data sector_key : List Node)
        → length new_replica ≡ nodes_count
        → length out_data ≡ nodes_count
        → length sector_key ≡ nodes_count
        → (encoded : List Node) × (encode_into fr ext tree_count nodes_count h comm_c comm_r_last
              new_replica
              (map fr.to_repr ks)
              (map fr.to_repr ds)
            ≡ ok (
              encoded,
              ext.hash2 comm_c (ext.tree_r_root encoded),
              ext.tree_r_root encoded,
              ext.tree_d_root (map fr.to_repr ds),
            ))
          × (length encoded ≡ nodes_count)
          × (decode_from fr ext tree_count nodes_count h comm_c
                (ext.tree_d_root (map fr.to_repr ds))
                comm_r_last
                out_data
                encoded
                (map fr.to_repr ks)
              ≡ ok (map fr.to_repr ds))
          × (remove_encoded_data fr ext tree_count nodes_count h comm_c
                (ext.tree_d_root (map fr.to_repr ds))
                comm_r_last
                sector_key
                encoded
                (map fr.to_repr ds)
              ≡ ok (map fr.to_repr ks, ext.tree_r_root (map fr.to_repr ks)))
    encode_into-decode_from new_replica out_data sector_key a b c = (
      replica,
      encode_into-eq new_replica a,
      replica_size,
      decode_from-eq out_data b,
      remove_encoded_data-eq sector_key c,
    )
