-- ===== src/Post/Binding.antt =====
-- What two accepted proofs of one sector have in common (storage-proofs-post/src/fallback/vanilla.rs):
-- the leaves that the challenges open.
use native.Mathlib.Decide.{ℕ_discrete}
use mathlib.Core.List.{List-discrete}
use rust_fil_proofs.Base.{
  ℕ, ◌+◌, ◌≡◌, ◌≢◌, ◌⊎◌, inl, inr, refl, sym, ap, ◌∙◌, subst, true, List, ◌∷◌, ◌++◌, map, All, ok,
  ◌==◌, ==_iff, ◌/◌, le_bytes, bytes_eq, eq_of_bytes_eq, both_true, ◌&&◌,
}
use rust_fil_proofs.Post.Types.{Domain, PublicParams, PublicSector, SectorProof, MerkleTree}
use rust_fil_proofs.Post.Leaves.{node_size}
use rust_fil_proofs.Post.Verify.{inclusion_valid, verify_sector}
use rust_fil_proofs.Post.Complete.{ok_inj, GoodPaths}
use rust_fil_proofs.Post.Sound.{verify_sector-GoodPaths}

-- What the verifier relies on: the length of a path is fixed by the tree, and the leaves of two
-- well-formed proofs for one node, with one root and one length, are equal unless there is a collision.
pub record Binds {Tree Inclusion : Type 0} (merkle : MerkleTree Tree Inclusion)
    (leaf_of : Inclusion → Domain) (WellFormed : Inclusion → Type 0) (Collision : Type 0)
    : Type 0 where
  pub one_length :
      (p q : Inclusion) (nodes : ℕ) → merkle.expected_len p nodes ≡ merkle.expected_len q nodes
  pub one_leaf :
      (p q : Inclusion) (node : ℕ)
      → WellFormed p
      → WellFormed q
      → merkle.root p ≡ merkle.root q
      → merkle.path_len p ≡ merkle.path_len q
      → merkle.validate p node ≡ true
      → merkle.validate q node ≡ true
      → Collision ⊎ (leaf_of p ≡ leaf_of q)

-- Two different pairs with one hash.
pub record PairCollision (hash2 : Domain → Domain → Domain) : Type 0 where
  pub left : Domain × Domain
  pub right : Domain × Domain
  pub differ : left ≢ right
  pub same : hash2 left.0 left.1 ≡ hash2 right.0 right.1

module _ {Tree Inclusion : Type 0} (merkle : MerkleTree Tree Inclusion)
    (leaf_of : Inclusion → Domain) (WellFormed : Inclusion → Type 0) (Collision : Type 0)
    (binds : Binds merkle leaf_of WellFormed Collision) (sha256 : List ℕ → List ℕ)
    (hash2 : Domain → Domain → Domain) (pub_params : PublicParams) where
  record Checked (comm_r_last : Domain) (leaf : ℕ) (proof : Inclusion) : Type 0 where
    root : merkle.root proof ≡ comm_r_last
    len : merkle.expected_len proof (pub_params.sector_size / node_size) ≡ merkle.path_len proof
    valid : merkle.validate proof leaf ≡ true

  checked :
      (comm_r_last : Domain) (leaf : ℕ) (proof : Inclusion)
      → inclusion_valid merkle sha256 hash2 pub_params comm_r_last leaf proof ≡ true
      → Checked comm_r_last leaf proof
  unfolding inclusion_valid
  checked comm_r_last leaf proof h =
      let expected = merkle.expected_len proof (pub_params.sector_size / node_size) in
      let (root, rest) =
        both_true (bytes_eq (merkle.root proof) comm_r_last)
          (expected == merkle.path_len proof && merkle.validate proof leaf) h in
      let (len, valid) =
        both_true (expected == merkle.path_len proof) (merkle.validate proof leaf) rest in
      record {
        root = eq_of_bytes_eq _ _ root;
        len = (==_iff expected (merkle.path_len proof)).0 len;
        valid = valid;
      }

  abbrev Good : List ℕ → ℕ → Domain → ℕ → ℕ → List Inclusion → Type 0
  Good hasher sector_index comm_r_last n count proofs =
      GoodPaths merkle sha256 hash2 (λ leafs arity. 0) 0 pub_params hasher sector_index comm_r_last
        n count proofs

  one_leaf_of :
      (comm_r_last : Domain) (leaf : ℕ) (p q : Inclusion)
      → WellFormed p
      → WellFormed q
      → Checked comm_r_last leaf p
      → Checked comm_r_last leaf q
      → Collision ⊎ (leaf_of p ≡ leaf_of q)
  one_leaf_of comm_r_last leaf p q good_p good_q c d =
      binds.one_leaf p q leaf good_p good_q (c.root ∙ sym d.root)
        (sym c.len ∙ binds.one_length p q (pub_params.sector_size / node_size) ∙ d.len) c.valid
        d.valid

  one_list :
      (p q : Inclusion) (ps qs : List Inclusion)
      → Collision ⊎ (leaf_of p ≡ leaf_of q)
      → Collision ⊎ (map leaf_of ps ≡ map leaf_of qs)
      → Collision ⊎ (map leaf_of (p ∷ ps) ≡ map leaf_of (q ∷ qs))
  one_list p q ps qs (inl collision) rest = inl collision
  one_list p q ps qs (inr first) (inl collision) = inl collision
  one_list p q ps qs (inr first) (inr rest) = inr (rw (first, rest) refl)

  GoodPaths-leaves :
      (hasher : List ℕ) (sector_index : ℕ) (comm_r_last : Domain) (n count : ℕ)
      (ps qs : List Inclusion)
      → All WellFormed ps
      → All WellFormed qs
      → Good hasher sector_index comm_r_last n count ps
      → Good hasher sector_index comm_r_last n count qs
      → Collision ⊎ (map leaf_of ps ≡ map leaf_of qs)
  GoodPaths-leaves hasher sector_index comm_r_last n count ps qs all_p all_q (GoodPaths.done _)
        (GoodPaths.done _) =
      inr refl
  GoodPaths-leaves hasher sector_index comm_r_last n count ps qs all_p all_q
        (GoodPaths.more _ below leaf p ps' drawn valid rest)
        (GoodPaths.more _ _ leaf' q qs' drawn' valid' rest') =
      let same : leaf' ≡ leaf = ok_inj (sym drawn' ∙ drawn) in
      one_list p q ps' qs'
        (one_leaf_of comm_r_last leaf p q all_p.0 all_q.0 (checked comm_r_last leaf p valid)
          (subst (λ l. Checked comm_r_last l q) same (checked comm_r_last leaf' q valid')))
        (GoodPaths-leaves hasher sector_index comm_r_last (n + 1) below ps' qs' all_p.1 all_q.1 rest
          rest')

  -- Two proofs for one sector, of well-formed inclusion proofs, that verify_sector accepts for the same
  -- randomness and place of the sector open the same leaves, challenge for challenge, unless two
  -- different pairs collide under the hash of the roots or the Merkle trees have a collision.
  pub verify_sector-binding :
      (randomness : Domain) (sector_index : ℕ) (pub_sector : PublicSector)
      (proof other : SectorProof Inclusion)
      → All WellFormed proof.inclusion_proofs
      → All WellFormed other.inclusion_proofs
      → verify_sector merkle sha256 hash2 pub_params randomness sector_index (pub_sector, proof)
        ≡ ok true
      → verify_sector merkle sha256 hash2 pub_params randomness sector_index (pub_sector, other)
        ≡ ok true
      → PairCollision hash2
        ⊎ (Collision ⊎ (map leaf_of proof.inclusion_proofs ≡ map leaf_of other.inclusion_proofs))
  verify_sector-binding randomness sector_index pub_sector proof other all_p all_q v w =
      let (first, _, commits, good) =
        verify_sector-GoodPaths merkle sha256 hash2 (λ leafs arity. 0) 0 pub_params randomness
          sector_index pub_sector proof v in
      let (first', _, commits', good') =
        verify_sector-GoodPaths merkle sha256 hash2 (λ leafs arity. 0) 0 pub_params randomness
          sector_index pub_sector other w in
      elim (List-discrete ℕ_discrete (merkle.root first') (merkle.root first)) [
        | yes same ↦ inr (
            GoodPaths-leaves (randomness ++ le_bytes 8 pub_sector.id) sector_index
              (merkle.root first) 0 pub_params.challenge_count proof.inclusion_proofs
              other.inclusion_proofs all_p all_q good
              (subst
                (λ r.
                  Good (randomness ++ le_bytes 8 pub_sector.id) sector_index r 0
                    pub_params.challenge_count other.inclusion_proofs)
                same good'))
        | no differ ↦ inl (record {
          left = (other.comm_c, merkle.root first');
          right = (proof.comm_c, merkle.root first);
          differ = λ e. differ (ap (λ (x : Domain × Domain). x.1) e);
          same = commits' ∙ sym commits;
        })
      ]
