-- ===== src/RoutingAlgorithms/BasicRoutingInterface/Search/Tests.antt =====
-- A search from node 0 at the distance 4 over two edges: from 0 to 1 of length 2, from 1 to 2 of
-- length 3. The other search has reached node 0 at the distance 6.
use osrm_backend.Prelude.{
  ℕ, ◌+◌, ◌^◌, ◌≤◌, ◌<◌, ◌≡◌, Bool-cases, refl, true, false, some, inl, inr, arith, Returns, ◌==◌,
  if◌then◌else◌,
}
use osrm_backend.Prelude.Int.{pos}
use osrm_backend.DataStructures.StaticGraph.{EdgeArrayEntry, StaticGraph}
use osrm_backend.DataStructures.BinaryHeap.{BinaryHeap, array_storage, was_inserted}
use osrm_backend.DataStructures.BinaryHeap.Invariant.{IsValid}
use osrm_backend.DataStructures.BinaryHeap.Entries.{Entry, lookup}
use osrm_backend.RoutingAlgorithms.BasicRoutingInterface.{EdgeData}
use osrm_backend.RoutingAlgorithms.BasicRoutingInterface.Search.{HeapData, origin, routing_step}
use osrm_backend.RoutingAlgorithms.BasicRoutingInterface.Search.Tracks.{
  RoadGraph, Moderate, Tracks, source,
}
use osrm_backend.RoutingAlgorithms.BasicRoutingInterface.Search.Step.{Stepped, routing_step_correct}

abbrev edge : ℕ → ℕ → EdgeArrayEntry EdgeData
edge target distance = record {
  target = target;
  stored = record {
    id = 0;
    shortcut = false;
    distance = pos distance;
    forward = true;
    backward = false;
  };
}

abbrev roads : StaticGraph EdgeData
roads = record {
  number_of_nodes = 3;
  number_of_edges = 2;
  node_array = record { size = 4; at = λ u. if u == 0 then 0 else if u == 1 then 1 else 2 };
  edge_array = record { size = 2; at = λ i. if i == 0 then edge 1 2 else edge 2 3 };
}

roads-RoadGraph : RoadGraph roads
roads-RoadGraph = record {
  ordered = λ n p. ground arith;
  inside = λ n p. ground arith;
  few = omega arith;
  targets = λ j p. ground arith;
  positive = λ j p. elim (Bool-cases (j == 0)) [
    | inl y ↦ rw y (2, refl, omega arith, omega arith)
    | inr y ↦ rw y (3, refl, omega arith, omega arith)
  ];
}

-- The heap that holds node 0 alone.
abbrev heap_of : ℕ → BinaryHeap HeapData
heap_of weight = record {
  inserted_nodes = record {
    size = 1;
    at = λ j. record { node = 0; key = 1; weight = weight; stored = record { parent = 0 } };
  };
  heap = record {
    size = 2;
    at = λ i.
        if i == 0 then record { index = 0; weight = 0 } else record { index = 0; weight = weight };
  };
  node_index = record { kind = array_storage; positions = λ n. 0 };
}

abbrev forward_heap : BinaryHeap HeapData
forward_heap = heap_of (origin + 4)

forward_heap-IsValid : IsValid forward_heap
forward_heap-IsValid = record {
  nonempty = omega arith;
  bounded = omega arith;
  sentinel = refl;
  order = λ i p q. ground arith;
  index_lt = λ i p q. ground arith;
  key_index = λ i p q. ground arith;
  weight_index = λ i p q. ground arith;
  key_lt = λ j p n. ground arith;
  index_key = λ j p n. ground arith;
  found = λ j p. ground arith;
}

abbrev Start : ℕ → ℕ → Type 0
Start v w = (v ≡ 0) × (w ≡ origin + 4)

lookup_lem :
    (m : ℕ) (e : Entry HeapData)
    → lookup m forward_heap ≡ some e
    → (m ≡ 0) × (e.weight ≡ origin + 4) × (e.removed ≡ false) × (e.stored.parent ≡ 0)
unfolding lookup was_inserted
lookup_lem m e p = (ground arith, ground arith, ground arith, ground arith)

forward_heap-Tracks : Tracks roads true Start origin forward_heap
forward_heap-Tracks = record {
  valid = forward_heap-IsValid;
  exists = λ m e p. omega (arith, (lookup_lem m e p).0);
  walks = λ m e p. let (a, b, c, d) = lookup_lem m e p in source (a, b);
  low = λ m e p q. let (a, b, c, d) = lookup_lem m e p in cc;
  high = λ m e p q. let (a, b, c, d) = lookup_lem m e p in omega (arith, b);
  tree = λ m e p. let (a, b, c, d) = lookup_lem m e p in inl (cc, (a, b));
}

heap_of-Moderate : (w : ℕ) → 2 ^ 30 ≤ w → w < 2 ^ 31 + 2 ^ 30 → Moderate (heap_of w)
unfolding lookup was_inserted
heap_of-Moderate w p q = record { above = λ m e r. ground arith; below = λ m e r. ground arith }

routing_step_correct_example :
    Returns
      (Stepped roads true Start roads-RoadGraph origin forward_heap
        (heap_of (origin + 6))
        (7, origin + 30)
        (pos 0))
      (routing_step forward_heap (heap_of (origin + 6)) (7, origin + 30) (pos 0) true roads)
routing_step_correct_example =
    routing_step_correct roads true Start roads-RoadGraph origin forward_heap (heap_of (origin + 6))
      (7, origin + 30) (pos 0) forward_heap-Tracks
      (heap_of-Moderate (origin + 4) (omega arith) (omega arith))
      (heap_of-Moderate (origin + 6) (omega arith) (omega arith)) (omega arith) (omega arith)
      (omega arith)
