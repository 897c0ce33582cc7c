-- ===== src/RoutingAlgorithms/BasicRoutingInterface/Tests.antt =====
-- A hierarchy of three nodes: a shortcut from node 0 over node 1 to node 2, and its halves.
use osrm_backend.Prelude.{
  ℕ, ◌*◌, ◌<◌, ◌≡◌, refl, Bool, true, false, Option, some, List, [], ◌∷◌, ◌++◌, arith, Returns,
  ◌==◌, if◌then◌else◌,
}
use osrm_backend.Prelude.Int.{pos}
use osrm_backend.DataStructures.StaticGraph.{EdgeArrayEntry, StaticGraph, begin_edges, end_edges}
use osrm_backend.DataStructures.StaticGraph.Cheapest.{IsValid}
use osrm_backend.RoutingAlgorithms.BasicRoutingInterface.{
  EdgeData, lighter, scan_edges, scan_node, find_arc, unpack_edge,
}
use osrm_backend.RoutingAlgorithms.BasicRoutingInterface.Arcs.{
  Answer, leads_forward, leads_backward, no_edge, find_arc_correct,
}
use osrm_backend.RoutingAlgorithms.BasicRoutingInterface.Unpack.{
  Arc, IsHierarchy, Route, unpack_edge_correct,
}

abbrev edge : ℕ → Bool → ℕ → ℕ → EdgeArrayEntry EdgeData
edge target shortcut id distance = record {
  target = target;
  stored = record {
    id = id;
    shortcut = shortcut;
    distance = pos distance;
    forward = true;
    backward = false;
  };
}

abbrev edge_at : ℕ → EdgeArrayEntry EdgeData
edge_at i =
    if i == 0 then edge 2 true 1 5 else if i == 1 then edge 1 false 70 2 else edge 2 false 71 3

abbrev first_edge : ℕ → ℕ
first_edge u = if u == 0 then 0 else if u == 1 then 2 else 3

abbrev roads : StaticGraph EdgeData
roads = record {
  number_of_nodes = 3;
  number_of_edges = 3;
  node_array = record { size = 4; at = first_edge };
  edge_array = record { size = 3; at = edge_at };
}

roads-IsValid : IsValid (λ (d : EdgeData). d.distance) roads
roads-IsValid = record {
  ordered = λ n p. ground arith;
  inside = λ n p. ground arith;
  few = omega arith;
  light = λ j p. ground arith;
}

find_arc_correct_example : Answer 0 2 roads (find_arc 0 2 roads)
find_arc_correct_example = find_arc_correct 0 2 roads roads-IsValid (omega arith) (omega arith)

shortcut : Arc roads 0 2 5
unfolding find_arc scan_node scan_edges lighter begin_edges end_edges
shortcut = record {
  source_lt = omega arith;
  target_lt = omega arith;
  entry = edge_at 0;
  found = refl;
  weighs = refl;
  positive = omega arith;
}

first_half : Arc roads 0 1 2
unfolding find_arc scan_node scan_edges lighter begin_edges end_edges
first_half = record {
  source_lt = omega arith;
  target_lt = omega arith;
  entry = edge_at 1;
  found = refl;
  weighs = refl;
  positive = omega arith;
}

second_half : Arc roads 1 2 3
unfolding find_arc scan_node scan_edges lighter begin_edges end_edges
second_half = record {
  source_lt = omega arith;
  target_lt = omega arith;
  entry = edge_at 2;
  found = refl;
  weighs = refl;
  positive = omega arith;
}

-- The shortcut is the only one.
only :
    (u v w : ℕ) (e : EdgeArrayEntry EdgeData)
    → u < 3
    → v < 3
    → e.stored.distance ≡ pos w
    → e.stored.shortcut ≡ true
    → (o : Option (EdgeArrayEntry EdgeData)) → o ≡ some e
    → Answer u v roads o
    → (u ≡ 0) × (v ≡ 2) × (w ≡ 5) × (e.stored.id ≡ 1)
only u v w e p q d s o z (leads_forward r l) =
    ground (arith, z, d, s, l.from_first, l.before_end, l.fits)
only u v w e p q d s o z (leads_backward r n l) = ground (arith, l.fits)
only u v w e p q d s o z (no_edge n m) = cc

roads-IsHierarchy : IsHierarchy roads
roads-IsHierarchy u v w a s =
    let k =
      only u v w a.entry (omega (arith, a.source_lt)) (omega (arith, a.target_lt)) a.weighs s
        (find_arc u v roads) a.found
        (find_arc_correct u v roads roads-IsValid a.source_lt a.target_lt) in
    rw (k.0, k.1, k.2, k.3) (2, 3, first_half, second_half, refl)

unpack_edge_correct_example :
    Returns
      (λ path. (xs : List ℕ) × Route roads 0 2 5 xs × (path ≡ xs ++ (2 ∷ [])))
      (unpack_edge (2 * 5) 0 2 roads)
unpack_edge_correct_example = unpack_edge_correct roads roads-IsHierarchy 0 2 5 shortcut
