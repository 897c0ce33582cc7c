-- ===== src/Contractor/Contractor/InsertShortcuts/Tests.antt =====
-- A shortcut between the first and the third node of the row, which is found again with a smaller weight.
use osrm_backend.Prelude.{
  ℕ, ◌+◌, ◌==◌, Bool, true, false, some, Option, arith, Array, Returns, ◌>>=◌, if◌then◌else◌, List,
  [], ◌∷◌,
}
use osrm_backend.Contractor.Contractor.{ContractorEdge, new_edge_data}
use osrm_backend.Contractor.Contractor.Roads.{road_edge, row, row-IsValid}
use osrm_backend.Contractor.Contractor.InsertShortcuts.{insert_shortcuts}
use osrm_backend.Contractor.Contractor.InsertShortcuts.Insert.{Merged, insert_shortcuts_correct}

abbrev shortcut : ℕ → ℕ → ℕ → Bool → Bool → ContractorEdge
shortcut source target distance forward backward = record {
  source = source;
  target = target;
  stored = new_edge_data distance 2 1 true forward backward;
}

abbrev noted : Array ContractorEdge
noted = record {
  size = 3;
  at = λ i.
      if i == 0
      then shortcut 0 2 5 true false
      else if i == 1
      then shortcut 2 0 5 false true
      else shortcut 0 2 2 true false;
}

insert_shortcuts_correct_example :
    Returns (Merged noted 0 3 row) (insert_shortcuts (road_edge 0) 3 0 noted row)
insert_shortcuts_correct_example =
    insert_shortcuts_correct (road_edge 0) 3 0 noted row row-IsValid
      (record { sources = λ k p. ground (arith, p); targets = λ k p. ground (arith, p) })
      (omega arith)

abbrev after : Option (List ℕ)
after = insert_shortcuts (road_edge 0) 3 0 noted row >>= λ g. some (
    (g.node_list.at 0).edges
    ∷ (g.node_list.at 2).edges
    ∷ (g.edge_list.at ((g.node_list.at 0).first_edge + 1)).stored.distance
    ∷ [])
