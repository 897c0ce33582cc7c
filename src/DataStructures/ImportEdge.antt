-- ===== src/DataStructures/ImportEdge.antt =====
-- DataStructures/ImportEdge.cpp and .h: the edges that the contractor reads, and their order.
pub mod Order
use osrm_backend.Prelude.{ℕ, Bool, true, false, ◌&&◌, ◌||◌, ◌==◌, ltb, if◌then◌else◌}
use osrm_backend.Prelude.Int.{ℤ, pos, ltb_ℤ, eq_ℤ}
use mathlib.Core.Bool.{not}

pub record NodeBasedEdge : Type 0 where
  pub source : ℕ
  pub target : ℕ
  pub name_id : ℕ
  pub weight : ℤ
  pub forward : Bool
  pub backward : Bool
  pub roundabout : Bool
  pub in_tiny_cc : Bool
  pub access_restricted : Bool
  pub is_split : Bool
  pub travel_mode : ℕ

pub record EdgeBasedEdge : Type 0 where
  pub source : ℕ
  pub target : ℕ
  pub edge_id : ℕ
  pub weight : ℤ
  pub forward : Bool
  pub backward : Bool

-- `operator<` of NodeBasedEdge.
pub node_lt : NodeBasedEdge → NodeBasedEdge → Bool
node_lt a b =
    if a.source == b.source
    then (if a.target == b.target
        then (if eq_ℤ a.weight b.weight
            then a.forward && a.backward && (not b.forward || not b.backward)
            else ltb_ℤ a.weight b.weight)
        else ltb a.target b.target)
    else ltb a.source b.source

-- `operator<` of EdgeBasedEdge.
pub edge_lt : EdgeBasedEdge → EdgeBasedEdge → Bool
edge_lt a b =
    if a.source == b.source
    then (if a.target == b.target
        then (if eq_ℤ a.weight b.weight
            then a.forward && a.backward && (not b.forward || not b.backward)
            else ltb_ℤ a.weight b.weight)
        else ltb a.target b.target)
    else ltb a.source b.source

-- The default constructor of EdgeBasedEdge.
pub default_edge : EdgeBasedEdge
default_edge = record {
  source = 0;
  target = 0;
  edge_id = 0;
  weight = pos 0;
  forward = false;
  backward = false;
}
