-- ===== src/Contractor/Contractor/Round.antt =====
-- What Run does for a node that it contracts: its shortcuts are noted, the edges to it are deleted, and
-- the shortcuts are inserted. `arrange` is the std::sort between the first two.
pub mod Paths
pub mod Kept
pub mod Distances
pub mod Correct
mod Tests
use osrm_backend.Prelude.{ℕ, false, Option, some, Array, ◌>>=◌}
use osrm_backend.DataStructures.DynamicGraph.{Edge, DynamicGraph}
use osrm_backend.Contractor.Contractor.{ContractorEdgeData, ContractorEdge}
use osrm_backend.Contractor.Contractor.ContractNode.{ContractorThreadData, new_stats, contract_node}
use osrm_backend.Contractor.Contractor.DeleteIncoming.{delete_incoming_edges}
use osrm_backend.Contractor.Contractor.InsertShortcuts.{insert_shortcuts}

pub contract_round :
    (Array ContractorEdge → Array ContractorEdge)
    → Edge ContractorEdgeData
    → ContractorThreadData
    → ℕ
    → DynamicGraph ContractorEdgeData
    → Option (DynamicGraph ContractorEdgeData)
contract_round arrange blank thread node g = do
  (thread', stats) ← contract_node false thread node new_stats g
  let noted = arrange thread'.inserted_edges
  (thread'', remaining) ← delete_incoming_edges (record thread' { inserted_edges = noted }) node g
  insert_shortcuts blank noted.size 0 noted remaining
