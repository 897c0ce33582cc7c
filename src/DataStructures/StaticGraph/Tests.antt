-- ===== src/DataStructures/StaticGraph/Tests.antt =====
-- A graph of two nodes: node 0 with three edges to node 1, node 1 with none.
use osrm_backend.Prelude.{
  ℕ, refl, Bool, Array, Bool-cases, inl, inr, some, ◌≡◌, ◌==◌, if◌then◌else◌, arith, Returns,
}
use osrm_backend.Prelude.Int.{ℤ, pos}
use osrm_backend.DataStructures.StaticGraph.{
  EdgeArrayEntry, InputEdge, StaticGraph, input_lt, from_edges, find_edge, find_from, begin_edges,
  end_edges, smaller,
}
use osrm_backend.DataStructures.StaticGraph.Cheapest.{IsValid, Answer, find_cheapest}
use osrm_backend.DataStructures.StaticGraph.Construct.{IsSorted, Represents, from_edges_correct}

abbrev distance : ℕ → ℤ
distance d = pos d

abbrev edge_at : ℕ → EdgeArrayEntry ℕ
edge_at i = record { target = 1; stored = if i == 0 then 7 else if i == 1 then 4 else 9 }

abbrev roads : StaticGraph ℕ
roads = record {
  number_of_nodes = 2;
  number_of_edges = 3;
  node_array = record { size = 3; at = λ n. if n == 0 then 0 else 3 };
  edge_array = record { size = 3; at = edge_at };
}

roads-IsValid : IsValid distance roads
roads-IsValid = record {
  ordered = λ n p. ground arith;
  inside = λ n p. ground arith;
  few = omega arith;
  light = λ j p. ground arith;
}

cheapest_is_1 : find_edge distance 0 1 roads ≡ some 1
unfolding find_edge find_from begin_edges end_edges smaller
cheapest_is_1 = refl

find_cheapest_example : Returns (Answer distance 0 1 roads) (find_edge distance 0 1 roads)
find_cheapest_example = find_cheapest distance 0 1 roads roads-IsValid (omega arith)

-- Sorts arrays of two elements.
abbrev sort_pair : (InputEdge ℕ → InputEdge ℕ → Bool) → Array (InputEdge ℕ) → Array (InputEdge ℕ)
sort_pair lt a =
    if lt (a.at 1) (a.at 0)
    then record { size = a.size; at = λ i. if i == 0 then a.at 1 else a.at 0 }
    else a

-- The edge of node 1 stands before that of node 0.
abbrev two_edges : Array (InputEdge ℕ)
two_edges = record {
  size = 2;
  at = λ i.
      if i == 0
      then record { source = 1; target = 0; stored = 5 }
      else record { source = 0; target = 1; stored = 8 };
}

two_edges-IsSorted : IsSorted input_lt two_edges (sort_pair input_lt two_edges)
unfolding input_lt
two_edges-IsSorted = record {
  size_eq = refl;
  place = λ i. if i == 0 then 1 else 0;
  place_lt = λ i p. ground arith;
  placed = λ i p. ground arith;
  apart = λ i j p q e. ground (arith, e);
  taken = λ k p. elim (Bool-cases (k == 0)) [
    | inl y ↦ (1, omega arith, ground (arith, y))
    | inr y ↦ (0, omega arith, ground (arith, y))
  ];
  ordered = λ i j p q. ground arith;
}

from_edges_correct_example :
    Returns
      (Represents 3 two_edges)
      (from_edges sort_pair (record { target = 0; stored = 0 }) distance 3 two_edges)
from_edges_correct_example =
    from_edges_correct sort_pair (record { target = 0; stored = 0 }) distance 3 two_edges
      two_edges-IsSorted (omega arith) (λ j p. ground arith) (λ j p. ground arith)
