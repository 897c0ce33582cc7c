-- ===== src/DataStructures/DynamicGraph/Tests.antt =====
-- A graph of three nodes: node 0 with two edges, node 1 with one behind them, node 2 with none.
use osrm_backend.Prelude.{ℕ, ◌==◌, if◌then◌else◌, arith, Returns}
use osrm_backend.DataStructures.DynamicGraph.{
  delete_edges_to, Edge, Node, DynamicGraph, insert_edge, delete_edge, find_edge,
}
use osrm_backend.DataStructures.DynamicGraph.Valid.{IsValid}
use osrm_backend.DataStructures.DynamicGraph.Insert.{Inserted, insert_edge_correct}
use osrm_backend.DataStructures.DynamicGraph.Delete.{Deleted, delete_edge_correct}
use osrm_backend.DataStructures.DynamicGraph.DeleteTo.{DeletedTo, delete_edges_to_correct}
use osrm_backend.DataStructures.DynamicGraph.Find.{Found, find_edge_correct}

abbrev edge : ℕ → ℕ → Edge ℕ
edge t d = record { target = t; stored = d }

abbrev node_at : ℕ → Node
node_at u =
    if u == 0
    then record { first_edge = 0; edges = 2 }
    else if u == 1
    then record { first_edge = 2; edges = 1 }
    else record { first_edge = 3; edges = 0 }

abbrev edge_at : ℕ → Edge ℕ
edge_at i = if i == 0 then edge 1 10 else if i == 1 then edge 2 20 else edge 0 30

abbrev roads : DynamicGraph ℕ
roads = record {
  number_of_nodes = 3;
  number_of_edges = 3;
  node_list = record { size = 3; at = node_at };
  edge_list = record { size = 3; at = edge_at };
}

roads-IsValid : IsValid roads
roads-IsValid = record {
  inside = λ u p. ground arith;
  apart = λ u v j p q a b. ground (arith, a, b);
  real = λ u j p w. ground (arith, w);
}

insert_edge_correct_example :
    Returns (λ r. Inserted 0 (edge 2 40) roads r.0 r.1) (insert_edge (edge 0 0) 0 2 40 roads)
insert_edge_correct_example =
    insert_edge_correct 0 2 40 roads roads-IsValid (omega arith) (omega arith) (edge 0 0)

delete_edge_correct_example : Returns (Deleted 0 (edge 1 10) roads) (delete_edge 0 0 roads)
delete_edge_correct_example =
    delete_edge_correct 0 0 roads roads-IsValid (omega arith) (omega arith, omega arith)

find_edge_correct_example : Returns (Found 2 0 2 roads.edge_list) (find_edge 0 2 roads)
find_edge_correct_example = find_edge_correct 0 2 roads roads-IsValid (omega arith)

delete_edges_to_correct_example : Returns (DeletedTo 2 0 roads) (delete_edges_to 0 2 roads)
delete_edges_to_correct_example = delete_edges_to_correct 2 0 roads roads-IsValid (omega arith)
