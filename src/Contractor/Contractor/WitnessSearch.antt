-- ===== src/Contractor/Contractor/WitnessSearch.antt =====
-- Dijkstra: the search for a witness, a path around the node that is contracted.
pub mod Walks
pub mod Relax
pub mod Settle
use osrm_backend.Prelude.{
  ℕ, zero, suc, ◌+◌, ◌%◌, ◌^◌, Bool, true, false, ◌&&◌, ◌||◌, Option, none, some, ltb, leb, ◌==◌,
  if◌then◌else◌, Array, load, ◌>>=◌,
}
use mathlib.Core.Bool.{not}
use osrm_backend.DataStructures.DynamicGraph.{Edge, DynamicGraph}
use osrm_backend.DataStructures.BinaryHeap.{
  BinaryHeap, delete_min, get_key, get_data, was_inserted, set_data, decrease_key,
}
use osrm_backend.Contractor.Contractor.{ContractorEdgeData, ContractorHeapData}
use osrm_backend.Contractor.Contractor.Index.{insert_new}

-- The body of the loop over the edges. The sum is one of unsigned numbers, taken as an int.
pub relax :
    ℕ
    → ℕ
    → ℕ
    → Edge ContractorEdgeData
    → BinaryHeap ContractorHeapData
    → Option (BinaryHeap ContractorHeapData)
relax middle distance hop edge heap =
    let to = edge.target in
    let to_distance = (distance + edge.stored.distance) % 2 ^ 32 in
    let improve = do
      h ← decrease_key to to_distance heap
      d ← get_data to h
      set_data to (record d { hop = hop }) h
    in let again = do key ← get_key to heap; if ltb to_distance key then improve else some heap
      in let reach =
          if not (was_inserted to heap)
          then insert_new to to_distance (record { hop = hop; target = false }) heap
          else again in
        if not edge.stored.forward then some heap else if middle == to then some heap else reach

pub relax_edges :
    ℕ
    → ℕ
    → ℕ
    → ℕ
    → ℕ
    → Array (Edge ContractorEdgeData)
    → BinaryHeap ContractorHeapData
    → Option (BinaryHeap ContractorHeapData)
relax_edges zero e middle distance hop edges heap = some heap
relax_edges (suc n) e middle distance hop edges heap = do
  edge ← load edges e
  h ← relax middle distance hop edge heap
  relax_edges n (e + 1) middle distance hop edges h

-- What a round does after its node is settled, when it goes on: the edges of the node.
pub expand :
    ℕ
    → ℕ
    → ℕ
    → ℕ
    → DynamicGraph ContractorEdgeData
    → BinaryHeap ContractorHeapData
    → Option (BinaryHeap ContractorHeapData)
expand node middle distance hop g heap = do
  n ← load g.node_list node
  relax_edges n.edges n.first_edge middle distance hop g.edge_list heap

-- The rounds, with `left` nodes to settle until `maxNodes`, and `found` targets found.
pub dijkstra :
    ℕ
    → ℕ
    → ℕ
    → ℕ
    → ℕ
    → DynamicGraph ContractorEdgeData
    → BinaryHeap ContractorHeapData
    → Option (BinaryHeap ContractorHeapData)
dijkstra zero max_distance number_of_targets found middle g heap =
    let last = do
      (node, h) ← delete_min heap
      distance ← get_key node h
      d ← get_data node h
      some h
    in if leb heap.heap.size 1 then some heap else last
dijkstra (suc left) max_distance number_of_targets found middle g heap =
    let round = do
      (node, h) ← delete_min heap
      distance ← get_key node h
      d ← get_data node h
      let found' = if d.target then found + 1 else found
      let next = do
        h' ← expand node middle distance ((d.hop + 1) % 2 ^ 16) g h
        dijkstra left max_distance number_of_targets found' middle g h'
      if ltb max_distance distance || (d.target && leb number_of_targets found')
          then some h
          else next
    in if leb heap.heap.size 1 then some heap else round
