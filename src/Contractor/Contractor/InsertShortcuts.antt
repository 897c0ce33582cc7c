-- ===== src/Contractor/Contractor/InsertShortcuts.antt =====
-- The part of Run that inserts the noted edges into the graph. What the elements of the edge array that
-- are added hold is `blank`.
pub mod Offers
pub mod Step
pub mod Insert
mod Tests
use osrm_backend.Prelude.{
  ℕ, zero, suc, ◌+◌, Bool, ◌&&◌, Option, some, ltb, if◌then◌else◌, Array, load, store, ◌>>=◌,
}
use osrm_backend.DataStructures.DynamicGraph.{
  Edge, DynamicGraph, find_edge, end_edges, get_edge_data, insert_edge,
}
use osrm_backend.Contractor.Contractor.{ContractorEdgeData, ContractorEdge}
use osrm_backend.Contractor.Contractor.ContractNode.{same_flag}

-- `current_data = edge.data`
pub replace_data :
    ℕ
    → ContractorEdgeData
    → DynamicGraph ContractorEdgeData
    → Option (DynamicGraph ContractorEdgeData)
replace_data e new g = do
  edge ← load g.edge_list e
  edges ← store g.edge_list e (record edge { stored = new })
  some (record g { edge_list = edges })

-- The edge is a duplicate with smaller weight.
abbrev pub improves : ContractorEdgeData → ContractorEdgeData → Bool
improves new current =
    current.shortcut
    && (same_flag new.forward current.forward
        && (same_flag new.backward current.backward && ltb new.distance current.distance))

pub insert_shortcut :
    Edge ContractorEdgeData
    → ContractorEdge
    → DynamicGraph ContractorEdgeData
    → Option (DynamicGraph ContractorEdgeData)
insert_shortcut blank edge g =
    let insert = insert_edge blank edge.source edge.target edge.stored g >>= λ p. some p.1 in
    let look = λ (current_edge_id : ℕ). do
      current_data ← get_edge_data current_edge_id g
      let update = replace_data current_edge_id edge.stored g
      if improves edge.stored current_data then update else insert
    in do
      current_edge_id ← find_edge edge.source edge.target g
      end ← end_edges edge.source g
      if ltb current_edge_id end then look current_edge_id else insert

-- The loop over the noted edges, with `n` left from `i` on.
pub insert_shortcuts :
    Edge ContractorEdgeData
    → ℕ
    → ℕ
    → Array ContractorEdge
    → DynamicGraph ContractorEdgeData
    → Option (DynamicGraph ContractorEdgeData)
insert_shortcuts blank zero i edges g = some g
insert_shortcuts blank (suc n) i edges g = do
  edge ← load edges i
  g' ← insert_shortcut blank edge g
  insert_shortcuts blank n (i + 1) edges g'
