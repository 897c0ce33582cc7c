-- ===== src/Contractor/Contractor/ContractNode/Tests.antt =====
-- Three nodes in a row, with the roads between them in both directions. Node 1 in the middle is contracted.
use osrm_backend.Prelude.{
  ℕ, Bool, true, false, some, Option, arith, ◌==◌, if◌then◌else◌, Returns, ◌>>=◌, [],
}
use osrm_backend.DataStructures.DynamicGraph.{Edge, DynamicGraph}
use osrm_backend.DataStructures.BinaryHeap.{array_storage}
use osrm_backend.Contractor.Contractor.{ContractorEdgeData, new_edge_data}
use osrm_backend.Contractor.Contractor.WitnessSearch.Walks.{NodeGraph}
use osrm_backend.Contractor.Contractor.ContractNode.{ContractorThreadData, contract_node, new_stats}
use osrm_backend.Contractor.Contractor.ContractNode.Covers.{Contracted, contract_node_correct}

abbrev road_edge : ℕ → ℕ → Edge ContractorEdgeData
road_edge target distance = record {
  target = target;
  stored = new_edge_data distance 1 7 false true true;
}

abbrev roads : DynamicGraph ContractorEdgeData
roads = record {
  number_of_nodes = 3;
  number_of_edges = 4;
  node_list = record {
    size = 3;
    at = λ u.
        if u == 0
        then record { first_edge = 0; edges = 1 }
        else if u == 1
        then record { first_edge = 1; edges = 2 }
        else record { first_edge = 3; edges = 1 };
  };
  edge_list = record {
    size = 4;
    at = λ i.
        if i == 1
        then road_edge 0 4
        else if i == 2
        then road_edge 2 5
        else if i == 0
        then road_edge 1 4
        else road_edge 1 5;
  };
}

roads-NodeGraph : NodeGraph roads
roads-NodeGraph = record {
  inside = λ u p. ground arith;
  targets = λ u j p w. ground (arith, w);
  short = λ u j p w. ground (arith, w);
  few = omega arith;
}

abbrev thread : ContractorThreadData
thread = record {
  timestamp = 0;
  heap = record {
    inserted_nodes = record {
      size = 0;
      at = λ _. record {
        node = 0;
        key = 0;
        weight = 0;
        stored = record { hop = 0; target = false };
      };
    };
    heap = record { size = 1; at = λ _. record { index = 0; weight = 0 } };
    node_index = record { kind = array_storage; positions = λ _. 0 };
  };
  inserted_edges = record {
    size = 0;
    at = λ _. record { source = 0; target = 0; stored = new_edge_data 0 0 0 false false false };
  };
  neighbours = [];
}

contract_node_correct_example :
    Returns
      (Contracted roads 1 thread.inserted_edges)
      (contract_node false thread 1 new_stats roads)
contract_node_correct_example =
    contract_node_correct roads thread 1 new_stats roads-NodeGraph (omega arith) (omega arith)

-- The shortcut between the nodes 0 and 2 in both directions, as two edges that go both ways.
abbrev contracted : Option (ℕ × ℕ × ℕ × ℕ × Bool × Bool)
contracted = contract_node false thread 1 new_stats roads >>= λ p.
    let e = p.0.inserted_edges.at 0 in
    some (
      p.0.inserted_edges.size, e.source, e.target, e.stored.distance, e.stored.forward,
      e.stored.backward,
    )
