-- ===== src/Contractor/Contractor/Round/Tests.antt =====
-- The second node of the row is contracted.
use osrm_backend.Prelude.{
  ℕ, ◌<◌, ◌==◌, refl, Option, some, arith, Returns, ◌>>=◌, [], List, ◌∷◌, if◌then◌else◌,
}
use osrm_backend.Contractor.Contractor.Roads.{thread, road_edge, row, row-NodeGraph, row-IsValid}
use osrm_backend.DataStructures.DynamicGraph.Slices.{Within}
use osrm_backend.Contractor.Contractor.Round.{contract_round}
use osrm_backend.Contractor.Contractor.Round.Distances.{Mirrored}
use osrm_backend.Contractor.Contractor.Round.Correct.{SameDistances, contract_round_correct}

-- The edge back.
abbrev back : ℕ → ℕ
back j =
    if j == 0
    then 1
    else if j == 1
    then 0
    else if j == 2
    then 3
    else if j == 3
    then 2
    else if j == 4
    then 5
    else 4

row-Mirrored : (u j : ℕ) → u < 4 → Within (row.node_list.at u) j → Mirrored row u j
row-Mirrored u j p w = record {
  edge = back j;
  within = (ground (arith, w), ground (arith, w));
  leads = ground (arith, w);
  forward = refl;
  backward = refl;
  distance = refl;
}

contract_round_correct_example :
    Returns
      (SameDistances row row-NodeGraph row-Mirrored 1 (omega arith))
      (contract_round (λ edges. edges) (road_edge 0) thread 1 row)
contract_round_correct_example =
    contract_round_correct row row-NodeGraph row-Mirrored 1 (omega arith) (λ edges. edges)
      (λ edges. record { from = λ k p. (k, p, refl); to = λ k p. (k, p, refl) }) (road_edge 0)
      thread refl (omega arith) row-IsValid

-- The edges of each node, and the length of the shortcut.
abbrev after : Option (List ℕ)
after = contract_round (λ edges. edges) (road_edge 0) thread 1 row >>= λ g. some (
    (g.node_list.at 0).edges
    ∷ (g.node_list.at 1).edges
    ∷ (g.node_list.at 2).edges
    ∷ (g.node_list.at 3).edges
    ∷ (g.edge_list.at (g.node_list.at 0).first_edge).stored.distance
    ∷ [])
