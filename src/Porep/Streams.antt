-- ===== src/Porep/Streams.antt =====
-- The streams of parents that graph.rs of storage-proofs-porep/src/stacked/vanilla hashes, the repeated
-- parents of proof.rs, and the bytes of a stored label.
use rust_fil_proofs.Base.{
  ℕ, zero, suc, ◌+◌, ◌-◌, ◌*◌, ◌≤◌, ◌<◌, ◌^◌, ◌≡◌, ◌∙◌, refl, sym, ap, arith, min, List, [], ◌∷◌,
  ◌++◌, some, ok, le→leb, u64, length, length-take, take, drop, get_elem?, All,
}
use rust_fil_proofs.Post.Complete.{append_nil, append_assoc}
use rust_fil_proofs.Fr32.Convert.{mask_at}
use rust_fil_proofs.Graph.Bucket.{node_size, data_at_node_offset}
use rust_fil_proofs.Graph.Stacked.{prefetch, read_node, read_nodes, input, finish_with}
use rust_fil_proofs.Graph.Expanded.{slice_of-eq}
use rust_fil_proofs.Porep.Labeling.{Domain, update_all}
use rust_fil_proofs.Porep.Layers.{fill_chunks, repeat_parents}
use rust_fil_proofs.Porep.Opened.{fill_chunks-step}
use rust_fil_proofs.Porep.Labels.{store_label}

-- A node whose data lies within some bytes.
abbrev pub Within : List ℕ → ℕ → Type 0
Within bytes p = p * node_size + node_size ≤ length bytes

pub prefetch-Within : (ps bytes : List ℕ) → All (Within bytes) ps → prefetch ps bytes ≡ ok tt
unfolding prefetch
prefetch-Within [] bytes fit = refl
prefetch-Within (p ∷ ps) bytes (f, fit) =
    let e = slice_of-eq (p * node_size) node_size bytes f in
    rw (e, prefetch-Within ps bytes fit) refl

read_node-left :
    (j : ℕ) (ps others bytes : List ℕ)
    → j < length ps
    → All (Within bytes) ps
    → (n : List ℕ) × (read_node j (ps ++ others) bytes ≡ ok n)
unfolding read_node
read_node-left j [] others bytes h fit = absurd (omega arith)
read_node-left zero (p ∷ ps) others bytes h (f, fit) =
    (_, slice_of-eq (p * node_size) node_size bytes f)
read_node-left (suc j) (p ∷ ps) others bytes h (f, fit) =
    read_node-left j ps others bytes (omega arith) fit

read_node-right :
    (j : ℕ) (ps others bytes : List ℕ)
    → j < length others
    → All (Within bytes) others
    → (n : List ℕ) × (read_node (length ps + j) (ps ++ others) bytes ≡ ok n)
unfolding read_node
read_node-right j [] others bytes h fit =
    let (n, e) = read_node-left j others [] bytes h fit in
    let index_eq : 0 + j ≡ j = omega arith in
    (n, ap2_read (0 + j) j others (others ++ []) index_eq (sym (append_nil others)) ∙ e)
  where
    ap2_read :
        (a b : ℕ) (xs ys : List ℕ) → a ≡ b → xs ≡ ys → read_node a xs bytes ≡ read_node b ys bytes
    ap2_read a b xs ys p q = rw (p, q) refl
read_node-right j (p ∷ ps) others bytes h fit =
    let (n, e) = read_node-right j ps others bytes h fit in
    let index_eq : suc (length ps) + j ≡ suc (length ps + j) = omega arith in
    (n, ap (λ i. read_node i (p ∷ (ps ++ others)) bytes) index_eq ∙ e)

-- The nodes of the first parents and of the others.
pub nodes_left :
    (i count : ℕ) (ps others bytes : List ℕ)
    → i + count ≤ length ps
    → All (Within bytes) ps
    → (ns : List (List ℕ)) × (read_nodes i count (ps ++ others) bytes ≡ ok ns) × (length ns ≡ count)
unfolding read_nodes
nodes_left i zero ps others bytes h fit = ([], refl, refl)
nodes_left i (suc count) ps others bytes h fit =
    let (n, e) = read_node-left i ps others bytes (omega arith) fit in
    let (ns, es, size) = nodes_left (i + 1) count ps others bytes (omega arith) fit in
    (n ∷ ns, rw (e, es) refl, ap suc size)

pub nodes_right :
    (i j count : ℕ) (ps others bytes : List ℕ)
    → i ≡ length ps + j
    → j + count ≤ length others
    → All (Within bytes) others
    → (ns : List (List ℕ)) × (read_nodes i count (ps ++ others) bytes ≡ ok ns) × (length ns ≡ count)
unfolding read_nodes
nodes_right i j zero ps others bytes p h fit = ([], refl, refl)
nodes_right i j (suc count) ps others bytes p h fit =
    let (n, e) = read_node-right j ps others bytes (omega arith) fit in
    let (ns, es, size) =
      nodes_right (i + 1) (j + 1) count ps others bytes (omega (arith, p)) (omega arith) fit in
    let here = ap (λ k. read_node k (ps ++ others) bytes) p ∙ e in
    (n ∷ ns, rw (here, es) refl, ap suc size)

input-update_all :
    (hasher : List ℕ) (nodes : List (List ℕ)) → input hasher nodes ≡ update_all hasher nodes
unfolding input update_all
input-update_all hasher [] = refl
input-update_all hasher (n ∷ nodes) = input-update_all (hasher ++ n) nodes

update_all-append :
    (hasher : List ℕ) (xs ys : List (List ℕ))
    → update_all (update_all hasher xs) ys ≡ update_all hasher (xs ++ ys)
unfolding update_all
update_all-append hasher [] ys = refl
update_all-append hasher (x ∷ xs) ys = update_all-append (hasher ++ x) xs ys

-- The last node of those that are taken.
update_all-last :
    (k : ℕ) (nodes : List (List ℕ)) (hasher : List ℕ)
    → k < length nodes
    → (last : List ℕ) × (get_elem? nodes k ≡ some last)
      × (update_all hasher (take k nodes) ++ last ≡ update_all hasher (take (suc k) nodes))
unfolding update_all
update_all-last k [] hasher h = absurd (omega arith)
update_all-last zero (n ∷ nodes) hasher h = (n, refl, refl)
update_all-last (suc k) (n ∷ nodes) hasher h = update_all-last k nodes (hasher ++ n) (omega arith)

take_whole : (xs : List (List ℕ)) (k : ℕ) → length xs ≡ k → take k xs ≡ xs
take_whole [] zero h = refl
take_whole [] (suc k) h = refl
take_whole (x ∷ xs) zero h = absurd (omega (arith, h))
take_whole (x ∷ xs) (suc k) h = ap (λ t. x ∷ t) (take_whole xs k (omega (arith, h)))

no_chunk : (fuel : ℕ) (data_ : List Domain) → fill_chunks (suc fuel) data_ 0 ≡ ok []
unfolding fill_chunks
no_chunk fuel data_ = refl

-- A chunk of all parents, and the last chunk.
whole_chunk :
    (fuel : ℕ) (data_ : List Domain) (size remaining : ℕ) (out : List Domain)
    → length data_ ≡ size
    → 1 ≤ size
    → size ≤ remaining
    → fill_chunks fuel data_ (remaining - size) ≡ ok out
    → fill_chunks (suc fuel) data_ remaining ≡ ok (data_ ++ out)
whole_chunk fuel data_ size remaining out h some_parents fits e =
    let chunk : min (length data_) remaining ≡ size = omega (arith, h) in
    fill_chunks-step fuel data_ remaining out (omega arith) (rw chunk e)
    ∙ rw (chunk, take_whole data_ size h) refl

last_chunk :
    (fuel : ℕ) (data_ : List Domain) (remaining : ℕ)
    → 1 ≤ remaining
    → remaining < length data_
    → fill_chunks (suc (suc fuel)) data_ remaining ≡ ok (take remaining data_ ++ [])
last_chunk fuel data_ remaining some_left h =
    let chunk : min (length data_) remaining ≡ remaining = omega arith in
    let nothing : remaining - remaining ≡ 0 = omega arith in
    fill_chunks-step (suc fuel) data_ remaining [] some_left
      (rw (chunk, nothing) (no_chunk fuel data_))
    ∙ rw chunk refl

-- The 37 copies of 14 parents, and of 6.
pub repeat_14 :
    (data_ : List Domain)
    → length data_ ≡ 14
    → repeat_parents data_ ≡ ok (data_ ++ (data_ ++ (take 9 data_ ++ [])))
unfolding repeat_parents
repeat_14 data_ h =
    let last = last_chunk 33 data_ 9 (omega arith) (omega (arith, h)) in
    let two = whole_chunk 35 data_ 14 23 (take 9 data_ ++ []) h (omega arith) (omega arith) last in
    let three =
      whole_chunk 36 data_ 14 37 (data_ ++ (take 9 data_ ++ [])) h (omega arith) (omega arith)
        two in
    rw (h, three) refl

abbrev pub six_times : List Domain → List Domain
six_times data_ =
    data_ ++ (data_ ++ (data_ ++ (data_ ++ (data_ ++ (data_ ++ (take 1 data_ ++ []))))))

pub repeat_6 :
    (data_ : List Domain) → length data_ ≡ 6 → repeat_parents data_ ≡ ok (six_times data_)
unfolding repeat_parents
repeat_6 data_ h =
    let a = last_chunk 29 data_ 1 (omega arith) (omega (arith, h)) in
    let b = whole_chunk 31 data_ 6 7 _ h (omega arith) (omega arith) a in
    let c = whole_chunk 32 data_ 6 13 _ h (omega arith) (omega arith) b in
    let d = whole_chunk 33 data_ 6 19 _ h (omega arith) (omega arith) c in
    let e = whole_chunk 34 data_ 6 25 _ h (omega arith) (omega arith) d in
    let f = whole_chunk 35 data_ 6 31 _ h (omega arith) (omega arith) e in
    let g = whole_chunk 36 data_ 6 37 _ h (omega arith) (omega arith) f in rw (h, g) refl

-- What the rounds hash is the list of repeated parents.
pub rounds_14 :
    (sha256 : List ℕ → List ℕ) (hasher : List ℕ) (nodes : List (List ℕ))
    → length nodes ≡ 14
    → finish_with sha256
        (input (input (input hasher nodes) nodes) (take 8 nodes))
        (get_elem? nodes 8)
      ≡ ok (sha256 (update_all hasher (nodes ++ (nodes ++ (take 9 nodes ++ [])))))
unfolding finish_with
rounds_14 sha256 hasher nodes h =
    let twice = update_all (update_all hasher nodes) nodes in
    let (last, found, e) = update_all-last 8 nodes twice (omega (arith, h)) in
    let whole : twice ≡ update_all hasher (nodes ++ nodes) = update_all-append hasher nodes nodes in
    let all_rounds : update_all hasher (nodes ++ (nodes ++ (take 9 nodes ++ [])))
        ≡ update_all twice (take 9 nodes) =
      ap (λ t. update_all hasher (nodes ++ (nodes ++ t))) (append_nil (take 9 nodes))
      ∙ ap (λ t. update_all hasher t) (sym (append_assoc nodes nodes (take 9 nodes)))
      ∙ sym (update_all-append hasher (nodes ++ nodes) (take 9 nodes))
      ∙ ap (λ t. update_all t (take 9 nodes)) (sym whole) in
    rw
      (
        found,
        input-update_all hasher nodes,
        input-update_all (update_all hasher nodes) nodes,
        input-update_all twice (take 8 nodes),
        e,
        all_rounds,
      )
      refl

pub rounds_6 :
    (sha256 : List ℕ → List ℕ) (hasher : List ℕ) (nodes : List (List ℕ))
    → length nodes ≡ 6
    → finish_with sha256
        (input (input (input (input (input (input hasher nodes) nodes) nodes) nodes) nodes) nodes)
        (get_elem? nodes 0)
      ≡ ok (sha256 (update_all hasher (six_times nodes)))
unfolding finish_with update_all
rounds_6 sha256 hasher nodes h =
    let one = update_all hasher nodes in
    let two = update_all one nodes in
    let three = update_all two nodes in
    let four = update_all three nodes in
    let five = update_all four nodes in
    let six = update_all five nodes in
    let (last, found, e) = update_all-last 0 nodes six (omega (arith, h)) in
    let split = λ (r : List ℕ) (more : List (List ℕ)). sym (update_all-append r nodes more) in
    let all_rounds : update_all hasher (six_times nodes) ≡ update_all six (take 1 nodes) =
      split hasher _
      ∙ split one _
      ∙ split two _
      ∙ split three _
      ∙ split four _
      ∙ split five _
      ∙ ap (λ t. update_all six t) (append_nil (take 1 nodes)) in
    rw
      (
        found,
        input-update_all hasher nodes,
        input-update_all one nodes,
        input-update_all two nodes,
        input-update_all three nodes,
        input-update_all four nodes,
        input-update_all five nodes,
        e,
        all_rounds,
      )
      refl

mask_at-append :
    (prefix rest : List ℕ) (k : ℕ)
    → mask_at (length prefix + k) (prefix ++ rest) ≡ prefix ++ mask_at k rest
unfolding mask_at
mask_at-append [] rest k = let e : 0 + k ≡ k = omega arith in ap (λ i. mask_at i rest) e
mask_at-append (x ∷ prefix) rest k =
    let e : suc (length prefix) + k ≡ suc (length prefix + k) = omega arith in
    ap (λ i. mask_at i (x ∷ (prefix ++ rest))) e ∙ ap (λ t. x ∷ t) (mask_at-append prefix rest k)

mask_at-left :
    (k : ℕ) (hash rest : List ℕ)
    → k < length hash
    → mask_at k (hash ++ rest) ≡ mask_at k hash ++ rest
unfolding mask_at
mask_at-left k [] rest h = absurd (omega arith)
mask_at-left zero (x ∷ hash) rest h = refl
mask_at-left (suc k) (x ∷ hash) rest h = ap (λ t. x ∷ t) (mask_at-left k hash rest (omega arith))

-- A label that is stored, with its last byte masked.
pub store_label-eq :
    (node : ℕ) (hash labels : List ℕ)
    → length labels < 2 ^ 64
    → Within labels node
    → length hash ≡ 32
    → store_label node hash labels
      ≡ ok (take (node * 32) labels ++ (mask_at 31 hash ++ drop (node * 32 + 32) labels))
unfolding store_label data_at_node_offset
store_label-eq node hash labels word fits size =
    let start : u64 (node * node_size) ≡ node * 32 = omega arith in
    let fit = le→leb (node * 32 + 32) (length labels) fits in
    let before : length (take (node * 32) labels) ≡ node * 32 =
      length-take (node * 32) labels ∙ omega arith in
    let index : node * 32 + 32 - 1 ≡ length (take (node * 32) labels) + 31 =
      omega (arith, before) in
    let behind = drop (node * 32 + 32) labels in
    let masked = mask_at-append (take (node * 32) labels) (hash ++ behind) 31 in
    let within = mask_at-left 31 hash behind (omega (arith, size)) in
    rw (start, fit, size, index, masked, within) refl
