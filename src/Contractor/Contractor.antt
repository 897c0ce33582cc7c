-- ===== src/Contractor/Contractor.antt =====
-- Contractor/Contractor.h: the contraction of the road network, node by node.
-- The graph is the dynamic graph. A distance of the heap is an int, and is given like a heap's weight by
-- its position in the range of int: w is the number w + 2 ^ 31. The distance of an edge is unsigned.
-- Where the heap's index storage ends the program is in Index. A `none` is an access out of range, a
-- failed BOOST_ASSERT, or a loop that does not end.
pub mod Edges
pub mod Index
mod Roads
pub mod WitnessSearch
pub mod ContractNode
pub mod Independence
pub mod DeleteIncoming
pub mod InsertShortcuts
pub mod Round
use Prim.Native.Nat.{min}
use osrm_backend.Prelude.{ℕ, ◌-◌, ◌%◌, ◌^◌, Bool, false}
use osrm_backend.DataStructures.DynamicGraph.{InputEdge}

pub record ContractorEdgeData : Type 0 where
  pub distance : ℕ
  pub id : ℕ
  pub original_edges : ℕ
  pub shortcut : Bool
  pub forward : Bool
  pub backward : Bool
  pub is_original_via_node_id : Bool

-- The constructor. The original edges are limited, and kept in a field of 28 bits.
abbrev pub new_edge_data : ℕ → ℕ → ℕ → Bool → Bool → Bool → ContractorEdgeData
new_edge_data distance original_edges id shortcut forward backward = record {
  distance = distance;
  id = id;
  original_edges = min (2 ^ 28) original_edges % 2 ^ 28;
  shortcut = shortcut;
  forward = forward;
  backward = backward;
  is_original_via_node_id = false;
}

-- A hop count is a short, given by its 16 bits.
pub record ContractorHeapData : Type 0 where
  pub hop : ℕ
  pub target : Bool

abbrev pub ContractorEdge : Type 0
ContractorEdge = InputEdge ContractorEdgeData

-- The distances 0 and INT_MAX.
abbrev pub origin : ℕ
origin = 2 ^ 31

abbrev pub int_max : ℕ
int_max = 2 ^ 32 - 1
