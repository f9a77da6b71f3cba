-- ===== src/Update/Constants.antt =====
-- storage-proofs-update/src/constants.rs: the shape of an update proof for a sector size in nodes.
use rust_fil_proofs.Base.{
  ℕ, Bool, ◌+◌, ◌*◌, List, [], ◌∷◌, Option, none, some, leb, ◌==◌, ◌&&◌, if◌then◌else◌, ◌<<◌, u64,
  replicate, get_elem?, Result, panic, assert,
}

abbrev pub sector_size_1_kib : ℕ
sector_size_1_kib = 1 << 5

abbrev pub sector_size_2_kib : ℕ
sector_size_2_kib = 1 << 6

abbrev pub sector_size_4_kib : ℕ
sector_size_4_kib = 1 << 7

abbrev pub sector_size_8_kib : ℕ
sector_size_8_kib = 1 << 8

abbrev pub sector_size_16_kib : ℕ
sector_size_16_kib = 1 << 9

abbrev pub sector_size_32_kib : ℕ
sector_size_32_kib = 1 << 10

abbrev pub sector_size_8_mib : ℕ
sector_size_8_mib = 1 << 18

abbrev pub sector_size_16_mib : ℕ
sector_size_16_mib = 1 << 19

abbrev pub sector_size_512_mib : ℕ
sector_size_512_mib = 1 << 24

abbrev pub sector_size_32_gib : ℕ
sector_size_32_gib = 1 << 30

abbrev pub sector_size_64_gib : ℕ
sector_size_64_gib = 1 << 31

abbrev pub allowed_sector_sizes : List ℕ
allowed_sector_sizes =
    sector_size_1_kib ∷ sector_size_2_kib ∷ sector_size_4_kib ∷ sector_size_8_kib
    ∷ sector_size_16_kib ∷ sector_size_32_kib ∷ sector_size_8_mib ∷ sector_size_16_mib
    ∷ sector_size_512_mib ∷ sector_size_32_gib ∷ sector_size_64_gib ∷ []

unfoldable pub partition_count : ℕ → ℕ
partition_count sector_nodes =
    if leb sector_nodes sector_size_8_kib
    then 1
    else if leb sector_nodes sector_size_32_kib
    then 2
    else if leb sector_nodes sector_size_16_mib
    then 4
    else 16

unfoldable pub challenge_count : ℕ → ℕ
challenge_count sector_nodes = if leb sector_nodes sector_size_16_mib then 10 else 86

unfoldable pub challenge_count_poseidon : ℕ → ℕ
challenge_count_poseidon sector_nodes =
    u64 (challenge_count sector_nodes * partition_count sector_nodes)

unfoldable pub hs : ℕ → List ℕ
hs sector_nodes =
    if leb sector_nodes sector_size_32_kib then replicate 6 1 else 7 ∷ 8 ∷ 9 ∷ 10 ∷ 11 ∷ 12 ∷ []

-- An index out of range panics; `none` stands for that.
unfoldable pub h_default : ℕ → Option ℕ
h_default sector_nodes = get_elem? (hs sector_nodes) 3

-- `iter().position(|h_allowed| *h_allowed == h)`, counting from `i`.
unfoldable pub position : ℕ → List ℕ → ℕ → Option ℕ
position i [] h = none
position i (h_allowed ∷ rest) h =
    let further = position (i + 1) rest h in if h_allowed == h then some i else further

abbrev pub shift_one : Option ℕ → Option ℕ
shift_one none = none
shift_one (some h_index) = some (u64 (1 << h_index))

-- `none` stands for the panic of `expect`.
unfoldable pub h_select : ℕ → ℕ → Option ℕ
h_select sector_nodes h = shift_one (position 0 (hs sector_nodes) h)

unfoldable pub apex_leaf_count : ℕ → ℕ
apex_leaf_count sector_nodes = if leb sector_nodes sector_size_8_kib then 8 else 128

-- The table of shapes: `none` is `unreachable!()`.
unfoldable pub arities_expected : ℕ → Option (ℕ × ℕ × ℕ)
arities_expected n =
    if n == sector_size_1_kib
    then some (8, 4, 0)
    else if n == sector_size_2_kib
    then some (8, 0, 0)
    else if n == sector_size_4_kib
    then some (8, 2, 0)
    else if n == sector_size_8_kib
    then some (8, 4, 0)
    else if n == sector_size_16_kib
    then some (8, 8, 0)
    else if n == sector_size_32_kib
    then some (8, 8, 2)
    else if n == sector_size_8_mib
    then some (8, 0, 0)
    else if n == sector_size_16_mib
    then some (8, 2, 0)
    else if n == sector_size_512_mib
    then some (8, 0, 0)
    else if n == sector_size_32_gib
    then some (8, 8, 0)
    else if n == sector_size_64_gib
    then some (8, 8, 2)
    else none

abbrev pub shape_eq : ℕ × ℕ × ℕ → ℕ × ℕ × ℕ → Bool
shape_eq (a, b, c) (d, e, f) = a == d && b == e && c == f

abbrev pub check_shape : {E : Type 0} → Option (ℕ × ℕ × ℕ) → ℕ × ℕ × ℕ → Result E (Unit {0})
check_shape none arities = panic
check_shape (some expected) arities = assert (shape_eq arities expected)

unfoldable pub validate_tree_r_shape : {E : Type 0} → ℕ → ℕ × ℕ × ℕ → Result E (Unit {0})
validate_tree_r_shape sector_nodes arities = check_shape (arities_expected sector_nodes) arities
