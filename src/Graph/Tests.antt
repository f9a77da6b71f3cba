-- ===== src/Graph/Tests.antt =====
-- Graphs of few nodes, with toy hashes and random numbers.
use rust_fil_proofs.Base.{
  ℕ, zero, suc, ◌+◌, ◌-◌, ◌*◌, ◌/◌, ◌%◌, ◌^◌, ◌≤◌, ◌<◌, ◌≡◌, refl, arith, List, [], ◌∷◌, ◌++◌, none,
  some, Result, ok, ltb, if◌then◌else◌, length, lt→ltb, ge→ltb, take,
}
use rust_fil_proofs.Api.{v1_0_0, v1_1_0, v1_2_0}
use rust_fil_proofs.Graph.Bucket.{
  draw_parent, draw_parents, place_parents, parents, rem_u64, set_at,
}
use rust_fil_proofs.Graph.Parents.{IsParents, parents-IsParents}
use rust_fil_proofs.Graph.Stacked.{correspondent, stacked_parents}
use rust_fil_proofs.Graph.Expanded.{
  Slot, IsStackedParents, correspondent-Slot, correspondent-first, stacked_parents-IsStackedParents,
}
use rust_fil_proofs.Graph.ToyGraph.{
  toy_hash, log2_search, log2_floor, log2_floor-IsLog2, toy_bucket_graph, toy_graph,
  toy_graph-IsGraph,
}

abbrev buffer_6 : List ℕ
buffer_6 = 0 ∷ 0 ∷ 0 ∷ 0 ∷ 0 ∷ 0 ∷ []

abbrev buffer_14 : List ℕ
buffer_14 = buffer_6 ++ (0 ∷ 0 ∷ buffer_6)

parents-IsParents_example :
    (out : List ℕ) × (parents toy_hash log2_floor (toy_bucket_graph v1_1_0) 7 buffer_6 ≡ ok out)
    × IsParents v1_1_0 6 7 buffer_6 out
parents-IsParents_example =
    parents-IsParents toy_hash log2_floor log2_floor-IsLog2 (toy_bucket_graph v1_1_0) 7 buffer_6
      (omega arith) (omega arith) (omega arith) (omega arith) (omega arith)

correspondent-Slot_example :
    (parent : ℕ) × (correspondent toy_hash (toy_graph v1_1_0) 7 3 ≡ ok parent)
    × (parent < 12)
    × Slot toy_hash (toy_graph v1_1_0) 12 59 parent
correspondent-Slot_example =
    correspondent-Slot toy_hash 12 v1_1_0 (toy_graph v1_1_0) (toy_graph-IsGraph v1_1_0) 7 3
      (λ e. cc) (omega arith) (omega arith)

correspondent-first_example :
    (parent : ℕ) × (correspondent toy_hash (toy_graph v1_0_0) 7 3 ≡ ok parent)
    × (parent < 12)
    × (parent < 2 ^ 29)
correspondent-first_example =
    correspondent-first toy_hash 12 v1_0_0 (toy_graph v1_0_0) (toy_graph-IsGraph v1_0_0) 7 3 refl
      (omega arith) (omega arith)

stacked_parents-IsStackedParents_example :
    (base : List ℕ) × (expanded : List ℕ) × (stacked_parents toy_hash toy_hash log2_floor
        (toy_graph v1_2_0)
        7
        buffer_14
      ≡ ok (base ++ expanded))
    × IsStackedParents toy_hash 12 v1_2_0
        (toy_graph v1_2_0)
        (toy_graph-IsGraph v1_2_0)
        7
        buffer_14
        base
        expanded
stacked_parents-IsStackedParents_example =
    stacked_parents-IsStackedParents toy_hash 12 v1_2_0 (toy_graph v1_2_0)
      (toy_graph-IsGraph v1_2_0) toy_hash log2_floor 7 buffer_14 log2_floor-IsLog2 (omega arith)
      refl

parents_of_node_7 :
    parents toy_hash log2_floor (toy_bucket_graph v1_1_0) 7 buffer_6
    ≡ ok (6 ∷ 4 ∷ 6 ∷ 5 ∷ 3 ∷ 6 ∷ [])
unfolding parents place_parents draw_parents draw_parent rem_u64 set_at log2_search
    rust_fil_proofs.Base.le_bytes
parents_of_node_7 = refl
