-- ===== src/Contractor/Contractor/WitnessSearch/Walks.antt =====
-- What the heap of a witness search records: walks around the node in the middle.
use osrm_backend.Prelude.{ℕ, ◌+◌, ◌^◌, ◌≤◌, ◌<◌, ◌≡◌, ◌≢◌, ◌⊎◌, true, false, some}
use osrm_backend.DataStructures.DynamicGraph.{DynamicGraph}
use osrm_backend.DataStructures.DynamicGraph.Slices.{Within}
use osrm_backend.DataStructures.BinaryHeap.{BinaryHeap}
use osrm_backend.DataStructures.BinaryHeap.Invariant.{IsValid}
use osrm_backend.DataStructures.BinaryHeap.Entries.{Entry, lookup}
use osrm_backend.Contractor.Contractor.{ContractorEdgeData, ContractorHeapData, origin, int_max}

-- The ranges of the nodes lie in the edge array, their edges lead to nodes and are shorter than 2 ^ 29,
-- and there are fewer nodes than the heap's index has cells.
pub record NodeGraph (g : DynamicGraph ContractorEdgeData) : Type 0 where
  pub inside :
      (u : ℕ)
      → u < g.node_list.size
      → (g.node_list.at u).first_edge + (g.node_list.at u).edges ≤ g.edge_list.size
  pub targets :
      (u j : ℕ)
      → u < g.node_list.size
      → Within (g.node_list.at u) j
      → (g.edge_list.at j).target < g.node_list.size
  pub short :
      (u j : ℕ)
      → u < g.node_list.size
      → Within (g.node_list.at u) j
      → (g.edge_list.at j).stored.distance < 2 ^ 29
  pub few : g.node_list.size < 2 ^ 16

module _ (g : DynamicGraph ContractorEdgeData) (source middle : ℕ) where
  -- An edge of the node `u` that leads on to `v`.
  pub record Leads (u v c : ℕ) : Type 0 where
    pub edge : ℕ
    pub within : Within (g.node_list.at u) edge
    pub leads : (g.edge_list.at edge).target ≡ v
    pub flagged : (g.edge_list.at edge).stored.forward ≡ true
    pub weighs : (g.edge_list.at edge).stored.distance ≡ c

  -- A walk from the source that enters the middle nowhere, and its length.
  pub data Walk : ℕ → ℕ → Type 0 where
    start : Walk source 0
    onward : {u v w c : ℕ} → Walk u w → Leads u v c → v ≢ middle → Walk v (w + c)

  -- A node has been reached over a walk, or is a target that has not.
  abbrev pub Records : ℕ → ℕ → Type 0
  Records m weight = ((w : ℕ) × Walk m w × (weight ≡ origin + w)) ⊎ (weight ≡ int_max)

  -- The heap when the search has come to `d`. The nodes that `kept` says have an entry.
  pub record Searches (kept : ℕ → Type 0) (d : ℕ) (h : BinaryHeap ContractorHeapData) : Type 0 where
    pub valid : IsValid h
    pub exists : (m : ℕ) (e : Entry ContractorHeapData) → lookup m h ≡ some e → m < g.node_list.size
    pub records : (m : ℕ) (e : Entry ContractorHeapData) → lookup m h ≡ some e → Records m e.weight
    pub low :
        (m : ℕ) (e : Entry ContractorHeapData)
        → lookup m h ≡ some e
        → e.removed ≡ true
        → e.weight ≤ d
    pub high :
        (m : ℕ) (e : Entry ContractorHeapData)
        → lookup m h ≡ some e
        → e.removed ≡ false
        → d ≤ e.weight
    pub keeps : (m : ℕ) → kept m → (e : Entry ContractorHeapData) × (lookup m h ≡ some e)
