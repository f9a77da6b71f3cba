-- ===== src/Porep/Sealed.antt =====
-- A sector that was sealed, for the prover of storage-proofs-porep/src/stacked/vanilla/proof.rs: its
-- labels and its trees, and the columns that the prover opens.
use rust_fil_proofs.Base.{
  ℕ, suc, ◌-◌, ◌≤◌, ◌<◌, ◌≡◌, ◌∙◌, ◌⊎◌, inl, inr, refl, sym, ap, subst, arith, Bool, true, false,
  List, [], ◌∷◌, ◌++◌, some, ok, ◌==◌, length, get_elem?, All, bytes_eq_refl, u32, >>=-eq-ok,
}
use rust_fil_proofs.Post.Complete.{ok_inj}
use rust_fil_proofs.Api.{ApiVersion}
use rust_fil_proofs.Graph.Parents.{IsLog2}
use rust_fil_proofs.Graph.Stacked.{StackedGraph}
use rust_fil_proofs.Graph.Expanded.{IsGraph}
use rust_fil_proofs.Porep.Labeling.{
  Domain, Externals, Field, encode, create_label_of, Column, column_hash, hash_single_column,
  MerkleProof, validate, validate_data, proves_challenge, ColumnProof, verify_column,
}
use rust_fil_proofs.Porep.Proofs.{ReplicaColumnProof, verify_columns}
use rust_fil_proofs.Porep.Layers.{
  ProofTree, TemporaryAuxCache, read_at, read_rows, column_of, columns_of, into_proof, into_proofs,
  parents_data_full_at, Flag, Detector, get_drg_parents_columns, get_exp_parents_columns,
  open_columns,
}
use rust_fil_proofs.Porep.Opened.{NodeParents, AllRows}

-- A flag is only set by a failed validation.
abbrev pub IsDetector : Detector → Type 0
IsDetector detected =
    (f : Flag) (challenge_index layer : ℕ) (jobs : List Bool)
    → All (λ b. b ≡ true) jobs
    → detected f challenge_index layer jobs ≡ false

module _ {P : Type 0} (merkle : MerkleProof P) where
  -- A proof that leads from a leaf to the root.
  pub record Opens (p : P) (i : ℕ) (root : Domain) : Type 0 where
    pub verified : merkle.verify_path p ≡ true
    pub index : merkle.path_index p ≡ i
    pub rooted : merkle.root p ≡ root

  pub Opens-validate : {p : P} {i : ℕ} {root : Domain} → Opens p i root → validate merkle p i ≡ true
  unfolding validate
  Opens-validate {p} {i} o =
      let e : (i == i) ≡ true = ground arith in rw (o.verified, o.index, e) refl

  pub Opens-proves_challenge :
      {p : P} {i : ℕ} {root : Domain} → Opens p i root → proves_challenge merkle p i ≡ true
  unfolding proves_challenge
  Opens-proves_challenge {p} {i} o = let e : (i == i) ≡ true = ground arith in rw (o.index, e) refl

read_rows-length :
    (labels : List (List Domain)) (i : ℕ) (rows : List Domain)
    → read_rows labels i ≡ ok rows
    → length rows ≡ length labels
unfolding read_rows
read_rows-length [] i rows e = let same : [] ≡ rows = ok_inj e in ap length (sym same)
read_rows-length (store ∷ labels) i rows e =
    let (x, first, more) = >>=-eq-ok (read_at store i) _ e in
    let (xs, rest, final) = >>=-eq-ok (read_rows labels i) _ more in
    let same : x ∷ xs ≡ rows = ok_inj final in
    ap length (sym same) ∙ ap suc (read_rows-length labels i xs rest)

hash_single_column-eq :
    (ext : Externals) (column : List Domain)
    → (length column ≡ 2) ⊎ (length column ≡ 11)
    → hash_single_column ext column ≡ ok (ext.poseidon column)
unfolding hash_single_column
hash_single_column-eq ext column (inl two) = rw two refl
hash_single_column-eq ext column (inr eleven) = rw eleven refl

verify_column-eq :
    (ext : Externals) {P : Type 0} (merkle : MerkleProof P) (proof : ColumnProof P) (i : ℕ)
    (root hash : Domain)
    → column_hash ext proof.column ≡ ok hash
    → Opens merkle proof.inclusion_proof i root
    → merkle.leaf proof.inclusion_proof ≡ hash
    → verify_column ext merkle proof i root ≡ ok true
unfolding verify_column validate_data
verify_column-eq ext merkle proof i root hash e opens leaf =
    let valid = Opens-validate merkle opens in
    rw (e, opens.rooted, bytes_eq_refl root, opens.verified, leaf, bytes_eq_refl hash, valid) refl

-- The columns of nodes, each accepted for its node.
pub data Columns (ext : Externals) {P : Type 0} (merkle : MerkleProof P) (root : Domain)
    : List ℕ → List (ColumnProof P) → Type 0 where
  none_left : Columns ext merkle root [] []
  one_more :
      (i : ℕ) (nodes : List ℕ) (proof : ColumnProof P) (proofs : List (ColumnProof P))
      → verify_column ext merkle proof i root ≡ ok true
      → Columns ext merkle root nodes proofs
      → Columns ext merkle root (i ∷ nodes) (proof ∷ proofs)

pub Columns-length :
    {ext : Externals} {P : Type 0} {merkle : MerkleProof P} {root : Domain} {nodes : List ℕ}
    {proofs : List (ColumnProof P)}
    → Columns ext merkle root nodes proofs
    → length proofs ≡ length nodes
Columns-length Columns.none_left = refl
Columns-length (Columns.one_more i nodes proof proofs e more) = ap suc (Columns-length more)

pub verify_columns-Columns :
    {ext : Externals} {P : Type 0} {merkle : MerkleProof P} {root : Domain} {nodes : List ℕ}
    {proofs : List (ColumnProof P)} (others : List ℕ)
    → Columns ext merkle root nodes proofs
    → verify_columns ext merkle proofs (nodes ++ others) root ≡ ok true
unfolding verify_columns
verify_columns-Columns others Columns.none_left = refl
verify_columns-Columns others (Columns.one_more i nodes proof proofs e more) =
    rw (e, verify_columns-Columns others more) refl

-- A sector that was sealed: the labels of all nodes are stored, each is what its labeling proof
-- computes from the labels of the parents; the three trees open every leaf to their roots, the leaf
-- of the columns' tree is the hash of the column, and the leaf of the replica's tree is the data
-- encoded with the last label.
pub record IsSealed (ext : Externals) {F TD PD T P : Type 0} (field : Field F)
    (trees_d : ProofTree TD PD) (merkle_d : MerkleProof PD) (trees : ProofTree T P)
    (merkle : MerkleProof P) (g : StackedGraph) (nodes num_layers : ℕ)
    (replica_id root_d root_c root_r : Domain) (t_aux : TemporaryAuxCache TD T) : Type 0 where
  pub tree_d : TD
  pub tree_c : T
  pub column_at : ℕ → List Domain
  pub layers : (num_layers ≡ 2) ⊎ (num_layers ≡ 11)
  pub stores : length t_aux.labels ≡ num_layers
  pub rows : AllRows t_aux.labels nodes column_at
  pub has_tree_d : t_aux.tree_d ≡ some tree_d
  pub has_tree_c : t_aux.tree_c ≡ some tree_c
  pub tree_d_root : trees_d.tree_root tree_d ≡ root_d
  pub tree_c_root : trees.tree_root tree_c ≡ root_c
  pub opens_d :
      (i : ℕ)
      → i < nodes
      → (p : PD) × (trees_d.gen_proof tree_d i ≡ some p) × Opens merkle_d p i root_d
  pub opens_c :
      (i : ℕ)
      → i < nodes
      → (p : P) × (trees.gen_proof tree_c i ≡ some p)
        × Opens merkle p i root_c
        × (merkle.leaf p ≡ ext.poseidon (column_at i))
  pub opens_r :
      (i : ℕ)
      → i < nodes
      → (p : P) × (trees.gen_proof t_aux.tree_r_last i ≡ some p) × Opens merkle p i root_r
  pub labeled :
      (layer node : ℕ) (data_ : List Domain)
      → 1 ≤ layer
      → layer ≤ num_layers
      → 1 ≤ node
      → node < nodes
      → parents_data_full_at ext g t_aux.labels layer node ≡ ok data_
      → (label : Domain) × (get_elem? (column_at node) (layer - 1) ≡ some label)
        × (create_label_of ext
              (record { parents = data_; layer_index = layer; node = node })
              replica_id
            ≡ ok label)
  pub encoded :
      (i : ℕ) (d : PD) (r : P) (label : Domain)
      → trees_d.gen_proof tree_d i ≡ some d
      → trees.gen_proof t_aux.tree_r_last i ≡ some r
      → get_elem? (column_at i) (num_layers - 1) ≡ some label
      → merkle.leaf r ≡ encode field label (field.into_domain (field.into_fr (merkle_d.leaf d)))

module _ (ext : Externals) (is_log2 : IsLog2 ext.log2_ceil) {F TD PD T P : Type 0} (field : Field F)
    (trees_d : ProofTree TD PD) (merkle_d : MerkleProof PD) (trees : ProofTree T P)
    (merkle : MerkleProof P) (g : StackedGraph) (nodes num_layers : ℕ) (version : ApiVersion)
    (is : IsGraph nodes version g) (replica_id root_d root_c root_r : Domain)
    (t_aux : TemporaryAuxCache TD T)
    (sealed : IsSealed ext field trees_d merkle_d trees merkle g nodes num_layers replica_id root_d
      root_c root_r t_aux) where
  column_size :
      (i : ℕ) → i < nodes → (length (sealed.column_at i) ≡ 2) ⊎ (length (sealed.column_at i) ≡ 11)
  column_size i h =
      subst (λ n. (n ≡ 2) ⊎ (n ≡ 11))
        (sym
          (read_rows-length t_aux.labels i (sealed.column_at i) (sealed.rows i h) ∙ sealed.stores))
        sealed.layers

  abbrev pub column_node : ℕ → Column
  column_node i = record { index = i; rows = sealed.column_at i }

  pub column_of-eq : (i : ℕ) → i < nodes → column_of t_aux.labels i ≡ ok (column_node i)
  unfolding column_of
  column_of-eq i h = rw (sealed.rows i h) refl

  pub into_proof-eq :
      (i : ℕ)
      → i < nodes
      → (p : P) × (into_proof trees sealed.tree_c (column_node i)
          ≡ ok (record { column = column_node i; inclusion_proof = p }))
        × (merkle.root p ≡ root_c)
        × (verify_column ext merkle
              (record { column = column_node i; inclusion_proof = p })
              i
              root_c
            ≡ ok true)
  unfolding into_proof column_hash
  into_proof-eq i h =
      let (p, e, opens, leaf) = sealed.opens_c i h in
      (
        p,
        rw e refl,
        opens.rooted,
        verify_column-eq ext merkle (record { column = column_node i; inclusion_proof = p }) i
            root_c (ext.poseidon (sealed.column_at i))
            (hash_single_column-eq ext (sealed.column_at i) (column_size i h)) opens leaf,
      )

  columns_of-Columns :
      (ps : List ℕ)
      → All (λ p. p < nodes) ps
      → (columns : List Column) × (proofs : List (ColumnProof P)) × (columns_of t_aux.labels ps
          ≡ ok columns)
        × (into_proofs trees sealed.tree_c columns ≡ ok proofs)
        × Columns ext merkle root_c ps proofs
  unfolding columns_of into_proofs
  columns_of-Columns [] low = ([], [], refl, refl, Columns.none_left)
  columns_of-Columns (i ∷ ps) (h, low) =
      let (p, opened, rooted, accepted) = into_proof-eq i h in
      let (columns, proofs, read, opens, is_columns) = columns_of-Columns ps low in
      let proof : ColumnProof P = record { column = column_node i; inclusion_proof = p } in
      (
        column_node i ∷ columns,
        proof ∷ proofs,
        rw (column_of-eq i h, read) refl,
        rw (opened, opens) refl,
        Columns.one_more i ps proof proofs accepted is_columns,
      )

  -- The columns of a challenge and of its parents.
  pub record OpenedColumns (challenge : ℕ) (ps : NodeParents ext g nodes challenge)
      (rcp : ReplicaColumnProof P) : Type 0 where
    pub challenge_column : rcp.c_x.column ≡ column_node challenge
    pub challenge_root : merkle.root rcp.c_x.inclusion_proof ≡ root_c
    pub challenge_accepted : verify_column ext merkle rcp.c_x challenge root_c ≡ ok true
    pub drg_columns : Columns ext merkle root_c ps.base rcp.drg_parents
    pub exp_columns : Columns ext merkle root_c ps.expanded rcp.exp_parents

  pub open_columns-OpenedColumns :
      (challenge : ℕ) (ps : NodeParents ext g nodes challenge)
      → challenge < nodes
      → (rcp : ReplicaColumnProof P) × (open_columns ext trees g root_c t_aux challenge ≡ ok rcp)
        × OpenedColumns challenge ps rcp
  unfolding open_columns get_drg_parents_columns get_exp_parents_columns
  open_columns-OpenedColumns challenge ps h =
      let few = is.few in
      let word : u32 challenge ≡ challenge = omega arith in
      let (p, opened, rooted, accepted) = into_proof-eq challenge h in
      let (drg, drg_proofs, drg_read, drg_opens, drg_columns) =
        columns_of-Columns ps.base ps.base_low in
      let (exp, exp_proofs, exp_read, exp_opens, exp_columns) =
        columns_of-Columns ps.expanded ps.expanded_low in
      (
        record {
          c_x = record { column = column_node challenge; inclusion_proof = p };
          drg_parents = drg_proofs;
          exp_parents = exp_proofs;
        },
        rw
            (
              sealed.has_tree_c,
              sealed.tree_c_root,
              bytes_eq_refl root_c,
              word,
              column_of-eq challenge h,
              opened,
              ps.base_eq,
              drg_read,
              drg_opens,
              ps.expanded_eq,
              exp_read,
              exp_opens,
            )
            refl,
        record {
          challenge_column = refl;
          challenge_root = rooted;
          challenge_accepted = accepted;
          drg_columns = drg_columns;
          exp_columns = exp_columns;
        },
      )
