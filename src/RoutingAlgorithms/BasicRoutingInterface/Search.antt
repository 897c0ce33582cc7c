-- ===== src/RoutingAlgorithms/BasicRoutingInterface/Search.antt =====
-- RoutingStep: one step of a search on the hierarchy. A distance is an int, and is given like a
-- heap's weight by its position in the range of int: w is the number w + 2 ^ 31. A sum that
-- is no int overflows, which C++ leaves undefined, and is none here. The facade's graph is the static
-- graph.
pub mod Tracks
pub mod Relax
pub mod Expand
pub mod Step
mod Tests
use osrm_backend.Prelude.{
  ℕ, zero, suc, ◌+◌, ◌-◌, ◌*◌, ◌^◌, Bool, true, false, ◌&&◌, Option, none, some, ltb, leb, ◌==◌,
  if◌then◌else◌, Array, load, check, ◌>>=◌, ◌>>◌,
}
use osrm_backend.Prelude.Int.{ℤ, pos, ltb_ℤ, pos_part, neg_part}
use mathlib.Core.Bool.{not}
use osrm_backend.DataStructures.StaticGraph.{EdgeArrayEntry, StaticGraph, begin_edges, end_edges}
use osrm_backend.DataStructures.BinaryHeap.{
  BinaryHeap, delete_min, get_key, was_inserted, delete_all, insert, set_data, decrease_key,
}
use osrm_backend.RoutingAlgorithms.BasicRoutingInterface.{EdgeData}

pub record HeapData : Type 0 where
  pub parent : ℕ

-- The distance 0.
abbrev pub origin : ℕ
origin = 2 ^ 31

-- Whether the number `s` less `offset` is the position of an int.
abbrev pub in_range : ℕ → ℕ → Bool
in_range offset s = leb offset s && ltb s (offset + 2 ^ 32)

-- `forward_direction ? data.forward : data.backward`
abbrev pub direction_flag : Bool → EdgeData → Bool
direction_flag forward_direction d = if forward_direction then d.forward else d.backward

-- `edge_weight`, which is asserted to be positive.
pub edge_weight : EdgeData → Option ℕ
edge_weight d = do check (ltb_ℤ (pos 0) d.distance); some (pos_part d.distance)

-- The meeting of both searches at a node: `middle_node_id` and `upper_bound`.
pub meet : ℕ → ℕ → BinaryHeap HeapData → ℕ × ℕ → Option (ℕ × ℕ)
meet node distance reverse_heap best =
    let met = do
      key ← get_key node reverse_heap
      check (in_range origin (key + distance))
      some (
          if ltb (key + distance) (best.1 + origin) && leb (origin + origin) (key + distance)
          then (node, key + distance - origin)
          else best)
    in if was_inserted node reverse_heap then met else some best

-- The body of the stalling loop: whether the node can be reached for less over this edge.
pub stalls : ℕ → Bool → EdgeArrayEntry EdgeData → BinaryHeap HeapData → Option Bool
stalls distance forward_direction entry heap =
    let look = do
      key ← get_key entry.target heap
      w ← edge_weight entry.stored
      check (in_range 0 (key + w))
      some (ltb (key + w) distance)
    in let known = edge_weight entry.stored >>= λ w.
    if was_inserted entry.target heap then look else some false in
      if direction_flag (not forward_direction) entry.stored then known else some false

pub stalled : ℕ → ℕ → ℕ → Bool → BinaryHeap HeapData → StaticGraph EdgeData → Option Bool
stalled zero edge distance forward_direction heap g = some false
stalled (suc n) edge distance forward_direction heap g = do
  entry ← load g.edge_array edge
  now ← stalls distance forward_direction entry heap
  let rest = stalled n (edge + 1) distance forward_direction heap g
  if now then some true else rest

-- The body of the loop that relaxes an edge.
pub relax :
    ℕ → ℕ → Bool → EdgeArrayEntry EdgeData → BinaryHeap HeapData → Option (BinaryHeap HeapData)
relax node distance forward_direction entry heap =
    let reach = λ (w : ℕ).
      let to = entry.target in
      let to_distance = distance + w in
      let improve = do
        h ← set_data to (record { parent = node }) heap
        decrease_key to to_distance h
      in let again = do key ← get_key to heap; if ltb to_distance key then improve else some heap
        in if not (was_inserted to heap)
          then insert to to_distance (record { parent = node }) heap
          else again in
    if direction_flag forward_direction entry.stored
    then (do w ← edge_weight entry.stored; check (in_range 0 (distance + w)); reach w)
    else some heap

pub relax_edges :
    ℕ → ℕ → ℕ → ℕ → Bool → BinaryHeap HeapData → StaticGraph EdgeData → Option (BinaryHeap HeapData)
relax_edges zero edge node distance forward_direction heap g = some heap
relax_edges (suc n) edge node distance forward_direction heap g = do
  entry ← load g.edge_array edge
  h ← relax node distance forward_direction entry heap
  relax_edges n (edge + 1) node distance forward_direction h g

-- Both loops over the edges of the node.
pub expand :
    ℕ → ℕ → Bool → BinaryHeap HeapData → StaticGraph EdgeData → Option (BinaryHeap HeapData)
expand node distance forward_direction heap g = do
  first ← begin_edges node g
  end ← end_edges node g
  stop ← stalled (end - first) first distance forward_direction heap g
  let relaxed = relax_edges (end - first) first node distance forward_direction heap g
  if stop then some heap else relaxed

-- The forward heap, the middle node and the upper bound after the step.
pub routing_step :
    BinaryHeap HeapData
    → BinaryHeap HeapData
    → ℕ × ℕ
    → ℤ
    → Bool
    → StaticGraph EdgeData
    → Option (BinaryHeap HeapData × ℕ × ℕ)
routing_step forward_heap reverse_heap best min_edge_offset forward_direction g = do
  (node, heap) ← delete_min forward_heap
  distance ← get_key node heap
  met ← meet node distance reverse_heap best
  check (in_range (neg_part min_edge_offset) (distance + pos_part min_edge_offset))
  let finished = delete_all heap
  let expanded = expand node distance forward_direction heap g
  h ←
      if ltb (met.1 + neg_part min_edge_offset) (distance + pos_part min_edge_offset)
      then finished
      else expanded
  some (h, met.0, met.1)
