-- ===== src/Tsort/Tests.antt =====
-- The example of the source's `main`, and its errors.
use blivet.Prelude.{
  ◌==◌, if◌then◌else◌, arith, out_of_fuel, ◌≢◌, ℕ, ◌≡◌, refl, List, [], ◌∷◌, Result, ok, err,
  cyclic_graph_error, key_error, ◌>>=◌, IsDistinct,
}
use blivet.Tsort.Graph.{
  Edge, create_graph, tsort, zero_counts, count_edges, roots_of, remove_edge, drop_edge, drop_edges,
  visit,
}
use blivet.Tsort.Graph.{Graph, increment, sort_from}
use blivet.Tsort.Fuel.{tsort-ne-out_of_fuel}
use blivet.Tsort.Order.{IsTopological, tsort-IsTopological}
use blivet.Tsort.Complete.{AreNodes, IsRanked, tsort-acyclic}

program : Unit {0}
unfolding create_graph tsort zero_counts count_edges roots_of remove_edge drop_edge drop_edges visit
program = tt

build_and_sort : List ℕ → List Edge → Result (List ℕ)
build_and_sort items edges = create_graph items edges >>= tsort

sort_main :
    build_and_sort (5 ∷ 2 ∷ 3 ∷ 4 ∷ 1 ∷ []) ((1, 2) ∷ (2, 4) ∷ (4, 5) ∷ (3, 2) ∷ [])
    ≡ ok (1 ∷ 3 ∷ 2 ∷ 4 ∷ 5 ∷ [])
unfolding build_and_sort program
sort_main = refl

sort_cycle :
    build_and_sort (1 ∷ 2 ∷ 3 ∷ []) ((1, 2) ∷ (2, 3) ∷ (3, 2) ∷ []) ≡ err cyclic_graph_error
unfolding build_and_sort program
sort_cycle = refl

sort_missing : build_and_sort (1 ∷ []) ((1, 2) ∷ []) ≡ err key_error
unfolding build_and_sort program
sort_missing = refl

-- The nodes and the edges of the source's `main`.
abbrev main_items : List ℕ
main_items = 5 ∷ 2 ∷ 3 ∷ 4 ∷ 1 ∷ []

abbrev main_edges : List Edge
main_edges = (1, 2) ∷ (2, 4) ∷ (4, 5) ∷ (3, 2) ∷ []

main_items-IsDistinct : IsDistinct main_items
main_items-IsDistinct = (refl, (refl, (refl, (refl, (refl, tt)))))

main_graph : (g : Graph) × (create_graph main_items main_edges ≡ ok g)
unfolding create_graph zero_counts count_edges increment
main_graph = (_, refl)

sort_graph : tsort (main_graph.0) ≡ ok (1 ∷ 3 ∷ 2 ∷ 4 ∷ 5 ∷ [])
unfolding main_graph create_graph program tsort zero_counts count_edges increment roots_of
    remove_edge drop_edge drop_edges visit sort_from
sort_graph = refl

tsort-IsTopological_example : IsTopological main_items main_edges (1 ∷ 3 ∷ 2 ∷ 4 ∷ 5 ∷ [])
tsort-IsTopological_example =
    tsort-IsTopological main_items main_edges main_items-IsDistinct main_graph.1 sort_graph

tsort-ne-out_of_fuel_example : tsort main_graph.0 ≢ err out_of_fuel
tsort-ne-out_of_fuel_example = tsort-ne-out_of_fuel main_graph.0

-- The depth of each node.
abbrev depth : ℕ → ℕ
depth n = if n == 2 then 1 else if n == 4 then 2 else if n == 5 then 3 else 0

main_edges-AreNodes : AreNodes main_items main_edges
main_edges-AreNodes f h = ground arith

main_edges-IsRanked : IsRanked depth main_edges
main_edges-IsRanked f h = ground arith

tsort-acyclic_example :
    (result : List ℕ) × ((create_graph main_items main_edges >>= tsort) ≡ ok result)
    × IsTopological main_items main_edges result
tsort-acyclic_example =
    tsort-acyclic main_items main_edges depth main_items-IsDistinct main_edges-AreNodes
      main_edges-IsRanked
