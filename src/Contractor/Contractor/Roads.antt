-- ===== src/Contractor/Contractor/Roads.antt =====
-- Four nodes in a row, with the roads between them in both directions.
use osrm_backend.Prelude.{ℕ, true, false, arith, ◌==◌, if◌then◌else◌}
use osrm_backend.DataStructures.DynamicGraph.{Edge, DynamicGraph}
use osrm_backend.Contractor.Contractor.{ContractorEdgeData, new_edge_data}
use osrm_backend.Contractor.Contractor.Edges.{Joined}
use osrm_backend.Contractor.Contractor.WitnessSearch.Walks.{NodeGraph}
use osrm_backend.DataStructures.DynamicGraph.Valid.{IsValid}
use osrm_backend.Prelude.{[]}
use osrm_backend.DataStructures.BinaryHeap.{array_storage}
use osrm_backend.Contractor.Contractor.ContractNode.{ContractorThreadData}

abbrev pub road_edge : ℕ → Edge ContractorEdgeData
road_edge target = record { target = target; stored = new_edge_data 1 1 7 false true true }

abbrev pub row : DynamicGraph ContractorEdgeData
row = record {
  number_of_nodes = 4;
  number_of_edges = 6;
  node_list = record {
    size = 4;
    at = λ u.
        if u == 0
        then record { first_edge = 0; edges = 1 }
        else if u == 1
        then record { first_edge = 1; edges = 2 }
        else if u == 2
        then record { first_edge = 3; edges = 2 }
        else record { first_edge = 5; edges = if u == 3 then 1 else 0 };
  };
  edge_list = record {
    size = 6;
    at = λ i. road_edge (
        if i == 0
        then 1
        else if i == 1
        then 0
        else if i == 2
        then 2
        else if i == 3
        then 1
        else if i == 4
        then 3
        else 2);
  };
}

pub row-NodeGraph : NodeGraph row
row-NodeGraph = record {
  inside = λ u p. ground (arith, p);
  targets = λ u j p w. ground (arith, w);
  short = λ u j p w. ground (arith, w);
  few = omega arith;
}

abbrev back : ℕ → ℕ
back j =
    if j == 0
    then 1
    else if j == 1
    then 0
    else if j == 2
    then 3
    else if j == 3
    then 2
    else if j == 4
    then 5
    else 4

pub row_both : (a b : ℕ) → Joined row a b → Joined row b a
row_both a b (j, w, z) =
    (back j, (ground (arith, w, z), ground (arith, w, z)), ground (arith, w, z))

pub row-IsValid : IsValid row
row-IsValid = record {
  inside = λ u p. ground (arith, p);
  apart = λ u v j p q a b. ground (arith, p, q, a, b);
  real = λ u j p a. ground (arith, a);
}

-- The data of a thread that has done nothing yet.
abbrev pub thread : ContractorThreadData
thread = record {
  timestamp = 0;
  heap = record {
    inserted_nodes = record {
      size = 0;
      at = λ _. record {
        node = 0;
        key = 0;
        weight = 0;
        stored = record { hop = 0; target = false };
      };
    };
    heap = record { size = 1; at = λ _. record { index = 0; weight = 0 } };
    node_index = record { kind = array_storage; positions = λ _. 0 };
  };
  inserted_edges = record {
    size = 0;
    at = λ _. record { source = 0; target = 0; stored = new_edge_data 0 0 0 false false false };
  };
  neighbours = [];
}
