-- ===== src/RoutingAlgorithms/BasicRoutingInterface/PackedPath.antt =====
-- RetrievePackedPathFromSingleHeap and RetrievePackedPathFromHeap: the nodes of a found path, read off
-- the parents that the searches have recorded. `fuel` bounds the rounds of a loop.
pub mod Trails
mod Tests
use osrm_backend.Prelude.{
  ℕ, zero, suc, Bool, Option, none, some, List, [], ◌∷◌, ◌++◌, ◌==◌, if◌then◌else◌, ◌>>=◌,
}
use mathlib.Core.List.{reverse}
use osrm_backend.DataStructures.BinaryHeap.{BinaryHeap, get_data}
use osrm_backend.RoutingAlgorithms.BasicRoutingInterface.Search.{HeapData}

-- `search_heap.GetData(node).parent`
pub parent_of : ℕ → BinaryHeap HeapData → Option ℕ
parent_of node search_heap = do stored ← get_data node search_heap; some stored.parent

pub retrieve_loop : ℕ → ℕ → BinaryHeap HeapData → List ℕ → Option (List ℕ)
retrieve_loop zero current search_heap packed_path = none
retrieve_loop (suc fuel) current search_heap packed_path = do
  parent ← parent_of current search_heap
  let rest = retrieve_loop fuel parent search_heap (packed_path ++ (parent ∷ []))
  if current == parent then some packed_path else rest

pub retrieve_packed_path_from_single_heap : ℕ → BinaryHeap HeapData → ℕ → List ℕ → Option (List ℕ)
retrieve_packed_path_from_single_heap fuel search_heap middle_node_id packed_path =
    retrieve_loop fuel middle_node_id search_heap packed_path

pub retrieve_packed_path_from_heap :
    ℕ → BinaryHeap HeapData → BinaryHeap HeapData → ℕ → List ℕ → Option (List ℕ)
retrieve_packed_path_from_heap fuel forward_heap reverse_heap middle_node_id packed_path = do
  path ← retrieve_packed_path_from_single_heap fuel forward_heap middle_node_id packed_path
  retrieve_packed_path_from_single_heap fuel reverse_heap middle_node_id
      (reverse path ++ (middle_node_id ∷ []))
