-- ===== src/RoutingAlgorithms/BasicRoutingInterface.antt =====
-- RoutingAlgorithms/BasicRoutingInterface.h: the steps that all searches on the hierarchy share.
-- The facade's graph is the static graph. A stack is a list whose head is the top. A `none` is an
-- access out of range, a failed assertion, or fuel that is used up.
pub mod Arcs
pub mod Unpack
pub mod Search
pub mod PackedPath
mod Tests
use osrm_backend.Prelude.{
  ℕ, zero, suc, ◌+◌, ◌-◌, ◌*◌, ◌^◌, Bool, true, false, ◌&&◌, Option, none, some, List, [], ◌∷◌,
  ◌++◌, ltb, ◌==◌, if◌then◌else◌, Array, load, check, ◌>>=◌, ◌>>◌,
}
use osrm_backend.Prelude.Int.{ℤ, pos, ltb_ℤ, eq_ℤ}
use mathlib.Core.Bool.{not}
use osrm_backend.DataStructures.StaticGraph.{
  EdgeArrayEntry, StaticGraph, special_id, invalid_edge_weight, begin_edges, end_edges,
}

-- QueryEdge::EdgeData. For a shortcut the id is its middle node.
pub record EdgeData : Type 0 where
  pub id : ℕ
  pub shortcut : Bool
  pub distance : ℤ
  pub forward : Bool
  pub backward : Bool

-- The body of the loops that look for the lightest edge with a direction's flag.
pub lighter : (EdgeData → Bool) → ℕ → ℕ → EdgeArrayEntry EdgeData → ℕ × ℤ → ℕ × ℤ
lighter flag to edge entry best =
    if entry.target == to && ltb_ℤ entry.stored.distance best.1 && flag entry.stored
    then (edge, entry.stored.distance)
    else best

pub scan_edges : (EdgeData → Bool) → ℕ → ℕ → ℕ → ℕ × ℤ → StaticGraph EdgeData → Option (ℕ × ℤ)
scan_edges flag zero edge to best g = some best
scan_edges flag (suc n) edge to best g = do
  entry ← load g.edge_array edge
  scan_edges flag n (edge + 1) to (lighter flag to edge entry best) g

-- One of the loops over the edges of `from`.
pub scan_node : (EdgeData → Bool) → ℕ → ℕ → ℕ × ℤ → StaticGraph EdgeData → Option (ℕ × ℤ)
scan_node flag from to best g = do
  first ← begin_edges from g
  end ← end_edges from g
  scan_edges flag (end - first) first to best g

-- The edge from `u` to `v`: an edge of `u` that leads forward, or else one of `v` that leads backward.
pub find_arc : ℕ → ℕ → StaticGraph EdgeData → Option (EdgeArrayEntry EdgeData)
find_arc u v g = do
  forward_best ← scan_node (λ d. d.forward) u v (special_id, invalid_edge_weight) g
  best ←
      if forward_best.0 == special_id
      then scan_node (λ d. d.backward) v u forward_best g
      else some forward_best
  check (not (eq_ℤ best.1 invalid_edge_weight))
  load g.edge_array best.0

-- UnpackEdge: what one round does to the stack below the popped edge and to the path.
pub unpack_arc : ℕ → ℕ → EdgeData → List (ℕ × ℕ) → List ℕ → List (ℕ × ℕ) × List ℕ
unpack_arc u v ed stack path =
    if ed.shortcut then ((u, ed.id) ∷ (ed.id, v) ∷ stack, path) else (stack, path ++ (u ∷ []))

pub unpack_loop : ℕ → List (ℕ × ℕ) → List ℕ → StaticGraph EdgeData → Option (List ℕ)
unpack_loop fuel [] path g = some path
unpack_loop zero ((u, v) ∷ stack) path g = none
unpack_loop (suc fuel) ((u, v) ∷ stack) path g = do
  arc ← find_arc u v g
  let next = unpack_arc u v arc.stored stack path
  unpack_loop fuel next.0 next.1 g

pub unpack_edge : ℕ → ℕ → ℕ → StaticGraph EdgeData → Option (List ℕ)
unpack_edge fuel s t g = do path ← unpack_loop fuel ((s, t) ∷ []) [] g; some (path ++ (t ∷ []))
