-- ===== src/Contractor/Contractor/DeleteIncoming/Tests.antt =====
-- The edges to an inner node of the row are deleted.
use osrm_backend.Prelude.{ℕ, some, Option, arith, Returns, ◌>>=◌, [], List, ◌∷◌}
use osrm_backend.Contractor.Contractor.Roads.{thread, row, row-NodeGraph, row-IsValid, row_both}
use osrm_backend.Contractor.Contractor.DeleteIncoming.{delete_incoming_edges}
use osrm_backend.Contractor.Contractor.DeleteIncoming.Emptied.{
  Isolated, delete_incoming_edges_correct,
}

delete_incoming_edges_correct_example :
    Returns (λ p. Isolated 1 row p.1) (delete_incoming_edges thread 1 row)
delete_incoming_edges_correct_example =
    delete_incoming_edges_correct 1 thread row row-IsValid row-NodeGraph.targets
      (λ a b p. row_both a b) (omega arith)

abbrev after : Option (List ℕ)
after = delete_incoming_edges thread 1 row >>= λ p. some (
    (p.1.node_list.at 0).edges
    ∷ (p.1.node_list.at 1).edges
    ∷ (p.1.node_list.at 2).edges
    ∷ (p.1.node_list.at 3).edges
    ∷ [])
