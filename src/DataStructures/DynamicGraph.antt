-- ===== src/DataStructures/DynamicGraph.antt =====
-- DataStructures/DynamicGraph.h: the graph that the contractor changes, with the edges of each node
-- in a range of one edge array.
-- DeallocatingVector is an array. The doubles of the growth formula are exact for the numbers of
-- edges that occur, so `edges * 1.1 + 2` is the number below, and reserve changes nothing here.
-- 32-bit counters are taken not to overflow. A `none` is an access out of range or a failed
-- BOOST_ASSERT.
pub mod Slices
pub mod Room
pub mod Valid
pub mod Insert
pub mod Delete
pub mod Drop
pub mod DeleteTo
pub mod Find
pub mod Nodes
mod Tests
use osrm_backend.Prelude.{
  ℕ, zero, suc, ◌+◌, ◌-◌, ◌*◌, ◌/◌, ◌^◌, Bool, true, false, ◌&&◌, ◌||◌, Option, none, some, List,
  [], ◌∷◌, ltb, leb, ◌==◌, if◌then◌else◌, Array, load, store, check, ◌>>=◌, ◌>>◌,
}
use mathlib.Core.Bool.{not}

pub record Node : Type 0 where
  pub first_edge : ℕ
  pub edges : ℕ

pub record Edge (D : Type 0) : Type 0 where
  pub target : ℕ
  pub stored : D

pub record InputEdge (D : Type 0) : Type 0 where
  pub source : ℕ
  pub target : ℕ
  pub stored : D

pub record DynamicGraph (D : Type 0) : Type 0 where
  pub number_of_nodes : ℕ
  pub number_of_edges : ℕ
  pub node_list : Array Node
  pub edge_list : Array (Edge D)

abbrev pub no_node : ℕ
no_node = 2 ^ 32 - 1

-- `node.edges * 1.1 + 2`
abbrev pub new_size : ℕ → ℕ
new_size edges = edges * 11 / 10 + 2

module _ {D : Type 0} where
  -- `operator<` of InputEdge.
  pub input_lt : InputEdge D → InputEdge D → Bool
  input_lt a b = if not (a.source == b.source) then ltb a.source b.source else ltb a.target b.target

  -- The constructor of a graph with nodes and no edges, with as many unused elements `blank`.
  pub new_graph : Edge D → ℕ → DynamicGraph D
  new_graph blank nodes = record {
    number_of_nodes = nodes;
    number_of_edges = 0;
    node_list = record { size = nodes; at = λ u. record { first_edge = 0; edges = 0 } };
    edge_list = record { size = nodes; at = λ i. blank };
  }

  pub get_number_of_nodes : DynamicGraph D → ℕ
  get_number_of_nodes g = g.number_of_nodes

  pub get_number_of_edges : DynamicGraph D → ℕ
  get_number_of_edges g = g.number_of_edges

  pub get_out_degree : ℕ → DynamicGraph D → Option ℕ
  get_out_degree n g = do node ← load g.node_list n; some node.edges

  -- The loop of GetDirectedOutDegree, with `n` edges left.
  pub count_forward : (D → Bool) → ℕ → ℕ → ℕ → Array (Edge D) → Option ℕ
  count_forward forward zero e degree edges = some degree
  count_forward forward (suc n) e degree edges = do
    edge ← load edges e
    count_forward forward n (e + 1) (if forward edge.stored then degree + 1 else degree) edges

  pub get_directed_out_degree : (D → Bool) → ℕ → DynamicGraph D → Option ℕ
  get_directed_out_degree forward n g = do
    node ← load g.node_list n
    count_forward forward node.edges node.first_edge 0 g.edge_list

  pub begin_edges : ℕ → DynamicGraph D → Option ℕ
  begin_edges n g = do node ← load g.node_list n; some node.first_edge

  unfoldable pub end_edges : ℕ → DynamicGraph D → Option ℕ
  end_edges n g = do node ← load g.node_list n; some (node.first_edge + node.edges)

  pub get_target : ℕ → DynamicGraph D → Option ℕ
  get_target e g = do edge ← load g.edge_list e; some edge.target

  unfoldable pub get_edge_data : ℕ → DynamicGraph D → Option D
  get_edge_data e g = do edge ← load g.edge_list e; some edge.stored

  pub set_target : ℕ → ℕ → DynamicGraph D → Option (DynamicGraph D)
  set_target e n g = do
    edge ← load g.edge_list e
    edges ← store g.edge_list e (record edge { target = n })
    some (record g { edge_list = edges })

  -- A copy of the last node, its edges included.
  pub insert_node : DynamicGraph D → Option (ℕ × DynamicGraph D)
  insert_node g = do
    last ← load g.node_list (g.node_list.size - 1)
    let nodes : Array Node = record {
      size = g.node_list.size + 1;
      at = λ i. if i == g.node_list.size then last else g.node_list.at i;
    }
    some (
      g.number_of_nodes + 1,
      record g { node_list = nodes; number_of_nodes = g.number_of_nodes + 1 },
    )

  pub is_dummy : ℕ → Array (Edge D) → Option Bool
  is_dummy e edges = do edge ← load edges e; some (edge.target == no_node)

  pub make_dummy : ℕ → Array (Edge D) → Option (Array (Edge D))
  make_dummy e edges = do edge ← load edges e; store edges e (record edge { target = no_node })

  -- `edge_list[b] = edge_list[a]`
  pub copy_edge : ℕ → ℕ → Array (Edge D) → Option (Array (Edge D))
  copy_edge a b edges = do edge ← load edges a; store edges b edge

  -- The loop that moves the edges of a node, with `n` rounds left.
  pub move_edges : ℕ → ℕ → ℕ → Array (Edge D) → Option (Array (Edge D))
  move_edges zero a b edges = some edges
  move_edges (suc n) a b edges = do
    copied ← copy_edge a b edges
    cleared ← make_dummy a copied
    move_edges n (a + 1) (b + 1) cleared

  pub make_dummies : ℕ → ℕ → Array (Edge D) → Option (Array (Edge D))
  make_dummies zero a edges = some edges
  make_dummies (suc n) a edges = do cleared ← make_dummy a edges; make_dummies n (a + 1) cleared

  -- The branch of InsertEdge that moves the node's edges behind all others. What the new elements
  -- hold is `blank`.
  pub relocate : Edge D → Node → Array (Edge D) → Option (ℕ × Array (Edge D))
  relocate blank node edges = do
    let size = edges.size
    let grown : Array (Edge D) = record {
      size = size + new_size node.edges;
      at = λ i. if ltb i size then edges.at i else blank;
    }
    moved ← move_edges node.edges node.first_edge size grown
    marked ← make_dummies (new_size node.edges - (node.edges + 1)) (size + (node.edges + 1)) moved
    some (size, marked)

  -- Where the node's edges begin when there is room for one more behind them.
  pub make_room : Edge D → Node → Array (Edge D) → Option (ℕ × Array (Edge D))
  make_room blank node edges =
      let behind = node.edges + node.first_edge in
      let shift = do
        copied ← copy_edge (node.first_edge - 1 + node.edges) (node.first_edge - 1) edges
        some (node.first_edge - 1, copied)
      in let look_before =
          if node.first_edge == 0
          then relocate blank node edges
          else is_dummy (node.first_edge - 1) edges >>= λ free.
              if free then shift else relocate blank node edges in
        if leb edges.size behind
        then look_before
        else is_dummy behind edges >>= λ free.
            if free then some (node.first_edge, edges) else look_before

  pub insert_edge : Edge D → ℕ → ℕ → D → DynamicGraph D → Option (ℕ × DynamicGraph D)
  insert_edge blank from to d g = do
    node ← load g.node_list from
    (first, edges) ← make_room blank node g.edge_list
    written ← store edges (first + node.edges) (record { target = to; stored = d })
    nodes ← store g.node_list from (record { first_edge = first; edges = node.edges + 1 })
    some (
      first + (node.edges + 1),
      record g { number_of_edges = g.number_of_edges + 1; node_list = nodes; edge_list = written },
    )

  pub delete_edge : ℕ → ℕ → DynamicGraph D → Option (DynamicGraph D)
  delete_edge source e g = do
    node ← load g.node_list source
    check (ltb 0 node.edges)
    let last = node.first_edge + (node.edges - 1)
    copied ← copy_edge last e g.edge_list
    cleared ← make_dummy last copied
    nodes ← store g.node_list source (record node { edges = node.edges - 1 })
    some (record g {
      number_of_edges = g.number_of_edges - 1;
      node_list = nodes;
      edge_list = cleared;
    })

  -- The inner loop of DeleteEdgesTo. `end` is `iend - deleted`; each round lowers it, so that fuel for
  -- the edges from `i` on is enough.
  pub drop_run : ℕ → ℕ → ℕ → ℕ → Array (Edge D) → Option (ℕ × Array (Edge D))
  drop_run zero i end target edges = none
  drop_run (suc fuel) i end target edges = do
    copied ← copy_edge (end - 1) i edges
    cleared ← make_dummy (end - 1) copied
    let again = drop_run fuel i (end - 1) target cleared
    let look =
        load cleared i >>= λ edge. if edge.target == target then again else some (end - 1, cleared)
    if ltb i (end - 1) then look else some (end - 1, cleared)

  -- The outer loop, with the same `end`.
  pub drop_to : ℕ → ℕ → ℕ → ℕ → Array (Edge D) → Option (ℕ × Array (Edge D))
  drop_to zero i end target edges = if ltb i end then none else some (end, edges)
  drop_to (suc fuel) i end target edges =
      let next = drop_to fuel (i + 1) end target edges in
      let drop = do
        (end', edges') ← drop_run (end - i) i end target edges
        drop_to fuel (i + 1) end' target edges'
      in let look = load edges i >>= λ edge. if edge.target == target then drop else next in
        if ltb i end then look else some (end, edges)

  -- The number of edges it has removed, and the graph.
  pub delete_edges_to : ℕ → ℕ → DynamicGraph D → Option (ℕ × DynamicGraph D)
  delete_edges_to source target g = do
    node ← load g.node_list source
    let iend = node.first_edge + node.edges
    (end, edges) ← drop_to node.edges node.first_edge iend target g.edge_list
    nodes ← store g.node_list source (record node { edges = node.edges - (iend - end) })
    some (
      iend - end,
      record g {
        number_of_edges = g.number_of_edges - (iend - end);
        node_list = nodes;
        edge_list = edges;
      },
    )

  -- FindEdge: the loop over the range, with `n` edges left.
  pub find_from : ℕ → ℕ → ℕ → Array (Edge D) → Option ℕ
  find_from zero i to edges = some i
  find_from (suc n) i to edges = load edges i >>= λ edge.
      let rest = find_from n (i + 1) to edges in if to == edge.target then some i else rest

  pub find_edge : ℕ → ℕ → DynamicGraph D → Option ℕ
  find_edge from to g = do
    node ← load g.node_list from
    find_from node.edges node.first_edge to g.edge_list
