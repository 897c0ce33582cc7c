-- ===== src/DataStructures/StaticGraph.antt =====
-- DataStructures/StaticGraph.h: the graph that the searches run on. The edges of a node stand in the
-- edge array from its entry in the node array up to the next node's entry.
-- The edge data is a type with a `distance`. A `none` is an access out of range; the shared-memory
-- vectors are arrays. A range whose end comes first, which no graph has, is an empty one here.
pub mod Cheapest
pub mod Fill
pub mod Construct
mod Tests
use osrm_backend.Prelude.{
  ℕ, zero, suc, ◌+◌, ◌-◌, ◌^◌, ◌%◌, Bool, true, false, ◌&&◌, Option, none, some, ltb, ◌==◌,
  if◌then◌else◌, Array, load, store, check, ◌>>=◌, ◌>>◌,
}
use osrm_backend.Prelude.Int.{ℤ, pos, ltb_ℤ}
use mathlib.Core.Bool.{not}

pub record EdgeArrayEntry (D : Type 0) : Type 0 where
  pub target : ℕ
  pub stored : D

pub record InputEdge (D : Type 0) : Type 0 where
  pub source : ℕ
  pub target : ℕ
  pub stored : D

-- The node array holds the index of each node's first edge.
pub record StaticGraph (D : Type 0) : Type 0 where
  pub number_of_nodes : ℕ
  pub number_of_edges : ℕ
  pub node_array : Array ℕ
  pub edge_array : Array (EdgeArrayEntry D)

-- SPECIAL_EDGEID and SPECIAL_NODEID, the largest 32-bit number.
abbrev pub special_id : ℕ
special_id = 2 ^ 32 - 1

-- The largest int.
abbrev pub invalid_edge_weight : ℤ
invalid_edge_weight = pos (2 ^ 31 - 1)

module _ {D : Type 0} where
  -- `operator<` of InputEdge.
  pub input_lt : InputEdge D → InputEdge D → Bool
  input_lt a b = if not (a.source == b.source) then ltb a.source b.source else ltb a.target b.target

  -- The constructor from the two arrays; the node array has one entry more than there are nodes.
  pub from_arrays : Array ℕ → Array (EdgeArrayEntry D) → StaticGraph D
  from_arrays nodes edges = record {
    number_of_nodes = nodes.size - 1;
    number_of_edges = edges.size;
    node_array = nodes;
    edge_array = edges;
  }

  -- The while loop over the edges of a node, with `n` edges left.
  pub skip_edges : ℕ → ℕ → ℕ → Array (InputEdge D) → Option ℕ
  skip_edges zero edge node graph = some edge
  skip_edges (suc n) edge node graph = do
    input ← load graph edge
    let rest = skip_edges n (edge + 1) node graph
    if input.source == node then rest else some edge

  -- The loop that fills the node array, with `n` nodes left. It returns the array and `position`.
  pub fill_nodes : ℕ → ℕ → ℕ → ℕ → Array (InputEdge D) → Array ℕ → Option (Array ℕ × ℕ)
  fill_nodes zero node edge position graph nodes = some (nodes, position)
  fill_nodes (suc n) node edge position graph nodes = do
    next ← skip_edges (graph.size - edge) edge node graph
    written ← store nodes node position
    fill_nodes n (node + 1) next (position + (next - edge)) graph written

  pub entry_of : InputEdge D → EdgeArrayEntry D
  entry_of input = record { target = input.target; stored = input.stored }

  -- The inner loop that fills the edge array, from `i` up to `e`. It returns the array and `edge`.
  pub copy_edges :
      (D → ℤ)
      → ℕ
      → ℕ
      → ℕ
      → ℕ
      → Array (InputEdge D)
      → Array (EdgeArrayEntry D)
      → Option (Array (EdgeArrayEntry D) × ℕ)
  copy_edges distance zero i e edge graph edges = if i == e then some (edges, edge) else none
  copy_edges distance (suc n) i e edge graph edges =
      let more = do
        input ← load graph edge
        written ← store edges i (entry_of input)
        check (ltb_ℤ (pos 0) (distance input.stored))
        copy_edges distance n (i + 1) e (edge + 1) graph written
      in if i == e then some (edges, edge) else more

  -- The loop over the nodes, with `n` nodes left. More rounds of the inner one than the edge array has
  -- places leave it.
  pub fill_edges :
      (D → ℤ)
      → ℕ
      → ℕ
      → ℕ
      → Array (InputEdge D)
      → Array ℕ
      → Array (EdgeArrayEntry D)
      → Option (Array (EdgeArrayEntry D))
  fill_edges distance zero node edge graph nodes edges = some edges
  fill_edges distance (suc n) node edge graph nodes edges = do
    e ← load nodes (node + 1)
    i ← load nodes node
    copied ← copy_edges distance edges.size i e edge graph edges
    fill_edges distance n (node + 1) copied.1 graph nodes copied.0

  -- The constructor from input edges. `sort` is tbb::parallel_sort, and `blank` is what resizing fills in.
  -- The number of edges is narrowed to 32 bits, and the loops see no edge beyond it.
  pub from_edges :
      ((InputEdge D → InputEdge D → Bool) → Array (InputEdge D) → Array (InputEdge D))
      → EdgeArrayEntry D
      → (D → ℤ)
      → ℕ
      → Array (InputEdge D)
      → Option (StaticGraph D)
  from_edges sort blank distance nodes input = do
    let sorted = sort input_lt input
    let number_of_edges = sorted.size % 2 ^ 32
    let graph = record sorted { size = number_of_edges }
    filled ← fill_nodes (nodes + 1) 0 0 0 graph (record { size = nodes + 1; at = λ _. 0 })
    edges ←
        fill_edges distance nodes 0 0 graph filled.0 (record { size = filled.1; at = λ _. blank })
    some (record {
      number_of_nodes = nodes;
      number_of_edges = number_of_edges;
      node_array = filled.0;
      edge_array = edges;
    })

  pub get_number_of_nodes : StaticGraph D → ℕ
  get_number_of_nodes g = g.number_of_nodes

  pub get_number_of_edges : StaticGraph D → ℕ
  get_number_of_edges g = g.number_of_edges

  unfoldable pub begin_edges : ℕ → StaticGraph D → Option ℕ
  begin_edges n g = load g.node_array n

  unfoldable pub end_edges : ℕ → StaticGraph D → Option ℕ
  end_edges n g = load g.node_array (n + 1)

  pub get_out_degree : ℕ → StaticGraph D → Option ℕ
  get_out_degree n g = do first ← begin_edges n g; end ← end_edges n g; some (end - first)

  pub get_target : ℕ → StaticGraph D → Option ℕ
  get_target e g = do edge ← load g.edge_array e; some edge.target

  pub get_edge_data : ℕ → StaticGraph D → Option D
  get_edge_data e g = do edge ← load g.edge_array e; some edge.stored

module _ {D : Type 0} (distance : D → ℤ) where
  -- The body of FindEdge's loop: the smallest edge so far and its weight.
  pub smaller : ℕ → ℕ → EdgeArrayEntry D → ℕ × ℤ → ℕ × ℤ
  smaller to edge entry best =
      if entry.target == to && ltb_ℤ (distance entry.stored) best.1
      then (edge, distance entry.stored)
      else best

  -- The loop of FindEdge, with `n` edges left from `edge` on.
  pub find_from : ℕ → ℕ → ℕ → ℕ × ℤ → StaticGraph D → Option (ℕ × ℤ)
  find_from zero edge to best g = some best
  find_from (suc n) edge to best g = do
    entry ← load g.edge_array edge
    find_from n (edge + 1) to (smaller to edge entry best) g

  pub find_edge : ℕ → ℕ → StaticGraph D → Option ℕ
  find_edge from to g = do
    first ← begin_edges from g
    end ← end_edges from g
    best ← find_from (end - first) first to (special_id, invalid_edge_weight) g
    some best.0

  pub find_edge_in_either_direction : ℕ → ℕ → StaticGraph D → Option ℕ
  find_edge_in_either_direction from to g = find_edge from to g >>= λ tmp.
      if not (tmp == special_id) then some tmp else find_edge to from g

  -- The result and what the call leaves in `result`.
  pub find_edge_indicate_if_reverse : ℕ → ℕ → Bool → StaticGraph D → Option (ℕ × Bool)
  find_edge_indicate_if_reverse from to result g =
      let reverse = do
        edge ← find_edge to from g
        some (edge, if not (edge == special_id) then true else result)
      in find_edge from to g >>= λ edge. if edge == special_id then reverse else some (edge, result)
