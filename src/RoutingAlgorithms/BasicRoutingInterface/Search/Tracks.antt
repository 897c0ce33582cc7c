-- ===== src/RoutingAlgorithms/BasicRoutingInterface/Search/Tracks.antt =====
-- What the heap of a search records: walks in the graph, and for each node the way it was reached.
use osrm_backend.Prelude.{
  ℕ, ◌+◌, ◌^◌, ◌≤◌, ◌<◌, ◌≡◌, ◌⊎◌, inl, inr, Bool, true, false, none, some, arith,
}
use osrm_backend.Prelude.Int.{pos}
use osrm_backend.DataStructures.StaticGraph.{StaticGraph, special_id}
use osrm_backend.DataStructures.BinaryHeap.{BinaryHeap, get_key, was_inserted}
use osrm_backend.DataStructures.BinaryHeap.Invariant.{IsValid}
use osrm_backend.DataStructures.BinaryHeap.Entries.{Entry, lookup}
use osrm_backend.DataStructures.BinaryHeap.Queries.{queries_correct}
use osrm_backend.RoutingAlgorithms.BasicRoutingInterface.{EdgeData}
use osrm_backend.RoutingAlgorithms.BasicRoutingInterface.Search.{
  HeapData, direction_flag, edge_weight,
}

-- Ranges within the edge array, targets that are nodes, and positive distances of at most 2 ^ 30.
pub record RoadGraph (g : StaticGraph EdgeData) : Type 0 where
  pub ordered : (n : ℕ) → n + 1 < g.node_array.size → g.node_array.at n ≤ g.node_array.at (n + 1)
  pub inside : (n : ℕ) → n < g.node_array.size → g.node_array.at n ≤ g.edge_array.size
  pub few : g.node_array.size ≤ special_id
  pub targets : (j : ℕ) → j < g.edge_array.size → (g.edge_array.at j).target + 1 < g.node_array.size
  pub positive :
      (j : ℕ)
      → j < g.edge_array.size
      → (c : ℕ) × ((g.edge_array.at j).stored.distance ≡ pos c) × (0 < c) × (c ≤ 2 ^ 30)

module _ (g : StaticGraph EdgeData) (forward_direction : Bool) where
  -- An edge of the node `u` that leads to `v` in the direction of the search.
  pub record Leads (u v c : ℕ) : Type 0 where
    pub edge : ℕ
    pub from_first : g.node_array.at u ≤ edge
    pub before_end : edge < g.node_array.at (u + 1)
    pub leads : (g.edge_array.at edge).target ≡ v
    pub flagged : direction_flag forward_direction (g.edge_array.at edge).stored ≡ true
    pub weighs : (g.edge_array.at edge).stored.distance ≡ pos c

  -- A walk from a source to the node, and its length: `start v w` says that the search starts at `v`
  -- with the distance `w`.
  pub data Reached (start : ℕ → ℕ → Type 0) : ℕ → ℕ → Type 0 where
    source : {v w : ℕ} → start v w → Reached start v w
    walk : {u v w c : ℕ} → Reached start u w → Leads u v c → Reached start v (w + c)

  module _ (start : ℕ → ℕ → Type 0) where
    -- The parent is the node itself, where the search starts, or a removed node, whose distance and an
    -- edge's weight make the node's distance.
    abbrev pub HasParent : BinaryHeap HeapData → ℕ → Entry HeapData → Type 0
    HasParent h m e =
        ((e.stored.parent ≡ m) × start m e.weight)
        ⊎ ((p : Entry HeapData) × (c : ℕ) × (lookup e.stored.parent h ≡ some p)
            × (p.removed ≡ true)
            × Leads e.stored.parent m c
            × (0 < c)
            × (e.weight ≡ p.weight + c))

    -- The heap of a search that has come as far as the distance `d`.
    pub record Tracks (d : ℕ) (h : BinaryHeap HeapData) : Type 0 where
      pub valid : IsValid h
      pub exists : (m : ℕ) (e : Entry HeapData) → lookup m h ≡ some e → m + 1 < g.node_array.size
      pub walks : (m : ℕ) (e : Entry HeapData) → lookup m h ≡ some e → Reached start m e.weight
      pub low : (m : ℕ) (e : Entry HeapData) → lookup m h ≡ some e → e.removed ≡ true → e.weight ≤ d
      pub high :
          (m : ℕ) (e : Entry HeapData) → lookup m h ≡ some e → e.removed ≡ false → d ≤ e.weight
      pub tree : (m : ℕ) (e : Entry HeapData) → lookup m h ≡ some e → HasParent h m e

-- The node is recorded at the distance or nearer.
abbrev pub Within : BinaryHeap HeapData → ℕ → ℕ → Type 0
Within h m w = (e : Entry HeapData) × (lookup m h ≡ some e) × (e.weight ≤ w)

-- What is recorded stays recorded, and comes no further away.
abbrev pub NoFurther : BinaryHeap HeapData → BinaryHeap HeapData → Type 0
NoFurther h h' = (m w : ℕ) → Within h m w → Within h' m w

-- The distances lie between - 2 ^ 30 and 2 ^ 30.
pub record Moderate (h : BinaryHeap HeapData) : Type 0 where
  pub above : (m : ℕ) (e : Entry HeapData) → lookup m h ≡ some e → 2 ^ 30 ≤ e.weight
  pub below : (m : ℕ) (e : Entry HeapData) → lookup m h ≡ some e → e.weight < 2 ^ 31 + 2 ^ 30

-- A removed entry is still there, as it was, in the other heap.
abbrev pub KeepsRemoved : BinaryHeap HeapData → BinaryHeap HeapData → Type 0
KeepsRemoved h h' =
    (m : ℕ) (e : Entry HeapData) → lookup m h ≡ some e → e.removed ≡ true → lookup m h' ≡ some e

pub HasParent-keep :
    (g : StaticGraph EdgeData) (dir : Bool) (start : ℕ → ℕ → Type 0) (h h' : BinaryHeap HeapData)
    (m : ℕ) (e : Entry HeapData)
    → KeepsRemoved h h'
    → HasParent g dir start h m e
    → HasParent g dir start h' m e
HasParent-keep g dir start h h' m e k (inl x) = inl x
HasParent-keep g dir start h h' m e k (inr (p, c, found, removed, leads, positive, sum)) =
    inr (p, c, k e.stored.parent p found removed, removed, leads, positive, sum)

pub edge_weight-pos : (d : EdgeData) (c : ℕ) → d.distance ≡ pos c → 0 < c → edge_weight d ≡ some c
unfolding edge_weight
edge_weight-pos d c e p = ground (arith, e)

-- The queries on a recorded node, and on one that is not recorded.
pub get_key-lookup :
    (m : ℕ) (h : BinaryHeap HeapData) (e : Entry HeapData)
    → lookup m h ≡ some e
    → get_key m h ≡ some e.weight
get_key-lookup m h e p = ((queries_correct m h).0 e p).weight

pub was_inserted-lookup :
    (m : ℕ) (h : BinaryHeap HeapData) (e : Entry HeapData)
    → lookup m h ≡ some e
    → was_inserted m h ≡ true
was_inserted-lookup m h e p = ((queries_correct m h).0 e p).inserted

pub was_inserted-none :
    (m : ℕ) (h : BinaryHeap HeapData) → lookup m h ≡ none → was_inserted m h ≡ false
was_inserted-none m h p = (queries_correct m h).1 p
