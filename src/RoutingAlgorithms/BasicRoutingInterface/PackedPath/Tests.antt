-- ===== src/RoutingAlgorithms/BasicRoutingInterface/PackedPath/Tests.antt =====
-- A search that has gone from node 0 to node 1, and one that has gone back from node 2 to node 1.
use osrm_backend.Prelude.{
  ℕ, ◌+◌, ◌<◌, ◌≡◌, ◌⊎◌, refl, Bool, true, false, some, List, [], ◌∷◌, ◌++◌, inl, inr, arith,
  Returns, Bool-cases, ◌==◌, if◌then◌else◌,
}
use mathlib.Core.List.{reverse}
use osrm_backend.Prelude.Int.{pos}
use osrm_backend.DataStructures.StaticGraph.{EdgeArrayEntry, StaticGraph}
use osrm_backend.DataStructures.BinaryHeap.{BinaryHeap, array_storage, was_inserted}
use osrm_backend.DataStructures.BinaryHeap.Entries.{Entry, lookup}
use osrm_backend.RoutingAlgorithms.BasicRoutingInterface.{EdgeData}
use osrm_backend.RoutingAlgorithms.BasicRoutingInterface.Search.{HeapData, origin}
use osrm_backend.RoutingAlgorithms.BasicRoutingInterface.Search.Tracks.{Leads}
use osrm_backend.RoutingAlgorithms.BasicRoutingInterface.PackedPath.{retrieve_packed_path_from_heap}
use osrm_backend.RoutingAlgorithms.BasicRoutingInterface.PackedPath.Trails.{
  Trail, Tree, retrieve_packed_path_correct,
}

abbrev edge : Bool → ℕ → EdgeArrayEntry EdgeData
edge forward distance = record {
  target = 1;
  stored = record {
    id = 0;
    shortcut = false;
    distance = pos distance;
    forward = forward;
    backward = if forward then false else true;
  };
}

abbrev roads : StaticGraph EdgeData
roads = record {
  number_of_nodes = 3;
  number_of_edges = 2;
  node_array = record { size = 4; at = λ u. if u == 0 then 0 else if u == 3 then 2 else 1 };
  edge_array = record { size = 2; at = λ i. if i == 0 then edge true 2 else edge false 3 };
}

-- The heap that holds node 1, reached from the node `from` at the distance `d`, and has removed this
-- node.
abbrev heap_of : ℕ → ℕ → BinaryHeap HeapData
heap_of from d = record {
  inserted_nodes = record {
    size = 2;
    at = λ j.
        if j == 0
        then record { node = from; key = 0; weight = origin; stored = record { parent = from } }
        else record { node = 1; key = 1; weight = origin + d; stored = record { parent = from } };
  };
  heap = record {
    size = 2;
    at = λ i.
        if i == 0
        then record { index = 0; weight = 0 }
        else record { index = 1; weight = origin + d };
  };
  node_index = record { kind = array_storage; positions = λ n. if n == 1 then 1 else 0 };
}

abbrev Start : ℕ → ℕ → ℕ → Type 0
Start from v w = (v ≡ from) × (w ≡ origin)

abbrev from_entry : ℕ → Entry HeapData
from_entry from = record { weight = origin; stored = record { parent = from }; removed = true }

abbrev middle_entry : ℕ → ℕ → Entry HeapData
middle_entry from d = record {
  weight = origin + d;
  stored = record { parent = from };
  removed = false;
}

-- What is recorded, for a source that is not node 1.
entry_cases :
    (from d m : ℕ) (e : Entry HeapData)
    → (1 == from) ≡ false
    → lookup m (heap_of from d) ≡ some e
    → ((m ≡ from) × (e ≡ from_entry from)) ⊎ ((m ≡ 1) × (e ≡ middle_entry from d))
unfolding lookup was_inserted
entry_cases from d m e n p = elim (Bool-cases (m == 1)) [
  | inl y ↦ inr (ground arith, ground (arith, y))
  | inr y ↦ inl (ground (arith, y), ground (arith, y))
]

heap_of-Tree :
    (dir : Bool) (from d : ℕ)
    → (1 == from) ≡ false
    → lookup from (heap_of from d) ≡ some (from_entry from)
    → Leads roads dir from 1 d
    → 0 < d
    → Tree roads dir (Start from) (heap_of from d)
heap_of-Tree dir from d n found leads positive m e p = elim (entry_cases from d m e n p) [
  | inl (a, b) ↦ rw (a, b) (inl (refl, (refl, refl)))
  | inr (a, b) ↦ rw (a, b) (inr (from_entry from, d, found, refl, leads, positive, refl))
]

forward_lem : Leads roads true 0 1 2
forward_lem = record {
  edge = 0;
  from_first = omega arith;
  before_end = omega arith;
  leads = refl;
  flagged = refl;
  weighs = refl;
}

backward_lem : Leads roads false 2 1 3
backward_lem = record {
  edge = 1;
  from_first = omega arith;
  before_end = omega arith;
  leads = refl;
  flagged = refl;
  weighs = refl;
}

lookup_lem :
    (lookup 0 (heap_of 0 2) ≡ some (from_entry 0))
    × (lookup 2 (heap_of 2 3) ≡ some (from_entry 2))
    × (lookup 1 (heap_of 0 2) ≡ some (middle_entry 0 2))
    × (lookup 1 (heap_of 2 3) ≡ some (middle_entry 2 3))
unfolding lookup was_inserted
lookup_lem = (refl, refl, refl, refl)

retrieve_packed_path_correct_example :
    Returns
      (λ path.
        (xs : List ℕ) × (ys : List ℕ) × Trail roads true (Start 0) 1 (origin + 2) xs
        × Trail roads false (Start 2) 1 (origin + 3) ys
        × (path ≡ (reverse xs ++ (1 ∷ [])) ++ ys))
      (retrieve_packed_path_from_heap (origin + 4) (heap_of 0 2) (heap_of 2 3) 1 [])
retrieve_packed_path_correct_example =
    let (a, b, c, d) = lookup_lem in
    retrieve_packed_path_correct roads (Start 0) (Start 2) (heap_of 0 2) (heap_of 2 3)
      (heap_of-Tree true 0 2 refl a forward_lem (omega arith))
      (heap_of-Tree false 2 3 refl b backward_lem (omega arith)) (origin + 4) 1 (middle_entry 0 2)
      (middle_entry 2 3) c d (omega arith) (omega arith)
