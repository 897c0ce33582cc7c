-- ===== src/Contractor/Contractor/Independence/Tests.antt =====
-- The two nodes at the ends of the row are independent.
use osrm_backend.Prelude.{ℕ, refl, Bool, true, arith, ltb, ◌==◌, if◌then◌else◌, Array}
use osrm_backend.DataStructures.XorFastHash.{XorFastHash, fast_hash, xor, fill, new_hash}
use osrm_backend.Contractor.Contractor.Edges.{for_adjacent, for_edges}
use osrm_backend.Contractor.Contractor.Roads.{row, row-NodeGraph, row_both}
use osrm_backend.Contractor.Contractor.Independence.{
  is_node_independent, examine_all, examine_second, examine_neighbour, may_go_first, bias, sort,
  unique, insert_sorted,
}
use osrm_backend.DataStructures.XorFastHash.{Filled, new_hash-Filled}
use osrm_backend.Contractor.Contractor.Independence.Apart.{NearBy, independent_nodes_apart}

abbrev row_priorities : Array ℕ
row_priorities = record { size = 4; at = λ u. if u == 0 then 1 else 2 }

abbrev row_hash : XorFastHash
row_hash = new_hash (λ table. table) (λ table. table)

row_hash-Filled : Filled row_hash
row_hash-Filled = new_hash-Filled (λ table. table) (λ table. table) (λ t. refl) (λ t. refl)

abbrev greater : ℕ → ℕ → Bool
greater p q = ltb q p

independent_nodes_apart_example : ¬ (NearBy row 0 3)
unfolding is_node_independent examine_all examine_second examine_neighbour may_go_first bias sort
    unique insert_sorted for_adjacent for_edges fast_hash xor new_hash fill
independent_nodes_apart_example =
    independent_nodes_apart greater (λ p q. p == q) (λ p. true) row_hash row_priorities
      row_hash-Filled (λ u p. refl) (λ a b p q e f. ground (arith, e, f)) row
      (record { inside = row-NodeGraph.inside; targets = row-NodeGraph.targets }) (omega arith)
      row_both 0 3 (omega arith) (omega arith) (λ e. ground (arith, e)) refl refl
