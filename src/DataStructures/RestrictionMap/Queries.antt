-- ===== src/DataStructures/RestrictionMap/Queries.antt =====
-- The two queries, against the list of restrictions that the map was built from.
use osrm_backend.Prelude.{ℕ, Bool, false, none, some, List}
use osrm_backend.DataStructures.RestrictionMap.{TurnRestriction, RestrictionMap, special_nodeid}
use osrm_backend.DataStructures.RestrictionMap.Build.{restrictions_at, first_only, leads_to}

-- A turn is reported as restricted exactly when a restriction of the list leads from its first edge
-- to its target and no restriction of that edge is an only-restriction.
abbrev pub is_restricted : ℕ → ℕ → ℕ → List TurnRestriction → Bool
is_restricted u v w rs = elim (first_only (restrictions_at u v rs)) [
  | none ↦ leads_to w (restrictions_at u v rs)
  | some r ↦ false
]

-- The target of the first only-restriction of an edge, or SPECIAL_NODEID.
abbrev pub only_turn : ℕ → ℕ → List TurnRestriction → ℕ
only_turn u v rs = elim (first_only (restrictions_at u v rs)) [
  | none ↦ special_nodeid
  | some r ↦ r.to_node
]
