-- ===== src/DataStructures/DynamicGraph/Valid.antt =====
-- The edges of a node, and what operations on the graph rely on and keep.
use osrm_backend.Prelude.{ℕ, ◌+◌, ◌≤◌, ◌<◌, ◌≡◌, ◌≢◌, List}
use osrm_backend.DataStructures.DynamicGraph.{Edge, DynamicGraph, no_node}
use osrm_backend.DataStructures.DynamicGraph.Slices.{slice, Within}

module _ {D : Type 0} where
  -- The edges of a node.
  abbrev pub adjacent : ℕ → DynamicGraph D → List (Edge D)
  adjacent u g = slice g.edge_list.at (g.node_list.at u).first_edge (g.node_list.at u).edges

  -- The ranges of the nodes lie in the edge array, meet nowhere, and hold no dummies.
  pub record IsValid (g : DynamicGraph D) : Type 0 where
    pub inside :
        (u : ℕ)
        → u < g.node_list.size
        → (g.node_list.at u).first_edge + (g.node_list.at u).edges ≤ g.edge_list.size
    pub apart :
        (u v j : ℕ)
        → u < g.node_list.size
        → v < g.node_list.size
        → Within (g.node_list.at u) j
        → Within (g.node_list.at v) j
        → u ≡ v
    pub real :
        (u j : ℕ)
        → u < g.node_list.size
        → Within (g.node_list.at u) j
        → (g.edge_list.at j).target ≢ no_node
