-- ===== src/Contractor/Contractor/DeleteIncoming.antt =====
-- DeleteIncomingEdges: a contracted node keeps its edges, and its neighbours lose theirs to it.
pub mod Shrinks
pub mod Emptied
mod Tests
use osrm_backend.Prelude.{ℕ, Option, some, List, [], ◌∷◌, ◌++◌, ◌==◌, if◌then◌else◌, ◌>>=◌}
use mathlib.Core.Bool.{not}
use osrm_backend.DataStructures.DynamicGraph.{Edge, DynamicGraph, delete_edges_to}
use osrm_backend.Contractor.Contractor.{ContractorEdgeData}
use osrm_backend.Contractor.Contractor.Edges.{for_adjacent}
use osrm_backend.Contractor.Contractor.ContractNode.{ContractorThreadData}
use osrm_backend.Contractor.Contractor.Independence.{sort, unique}

-- The body of the loop that finds all neighbours.
pub add_neighbour : ℕ → Edge ContractorEdgeData → List ℕ → Option (List ℕ)
add_neighbour node edge neighbours =
    some (if not (edge.target == node) then neighbours ++ (edge.target ∷ []) else neighbours)

pub delete_from :
    ℕ → List ℕ → DynamicGraph ContractorEdgeData → Option (DynamicGraph ContractorEdgeData)
delete_from node [] g = some g
delete_from node (u ∷ us) g = do (deleted, g') ← delete_edges_to u node g; delete_from node us g'

pub delete_incoming_edges :
    ContractorThreadData
    → ℕ
    → DynamicGraph ContractorEdgeData
    → Option (ContractorThreadData × DynamicGraph ContractorEdgeData)
delete_incoming_edges thread node g = do
  found ← for_adjacent (add_neighbour node) node g []
  let neighbours = unique (sort found)
  g' ← delete_from node neighbours g
  some (record thread { neighbours = neighbours }, g')
