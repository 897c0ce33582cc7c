-- ===== src/DataStructures/DynamicGraph/Nodes.antt =====
-- The constructor of an empty graph, and InsertNode.
use osrm_backend.Prelude.{
  ℕ, ◌+◌, ◌-◌, ◌<◌, ◌≡◌, refl, ap, ◌∙◌, [], true, ltb, ◌==◌, if◌then◌else◌, arith, Returns, done,
  Bool-cases, inl, inr,
}
use osrm_backend.DataStructures.DynamicGraph.{Edge, Node, DynamicGraph, new_graph, insert_node}
use osrm_backend.DataStructures.DynamicGraph.Slices.{slice, Within}
use osrm_backend.DataStructures.DynamicGraph.Valid.{adjacent, IsValid}

module _ {D : Type 0} where
  -- The new graph is valid, has the given number of nodes, and none of its nodes has an edge.
  new_graph_correct :
      (blank : Edge D) (nodes : ℕ)
      → IsValid (new_graph blank nodes)
        × ((new_graph blank nodes).node_list.size ≡ nodes)
        × ((u : ℕ) → adjacent u (new_graph blank nodes) ≡ [])
  unfolding new_graph
  new_graph_correct blank nodes = (
    record {
      inside = λ u p. omega arith;
      apart = λ u v j p q a b. absurd (omega (arith, a));
      real = λ u j p w. absurd (omega (arith, w));
    },
    refl,
    λ u. refl,
  )

  pub record NodeAdded (g g' : DynamicGraph D) : Type 0 where
    pub valid : IsValid g'
    pub one_more : g'.node_list.size ≡ g.node_list.size + 1
    pub isolated : adjacent g.node_list.size g' ≡ []
    pub unchanged : (u : ℕ) → u < g.node_list.size → adjacent u g' ≡ adjacent u g

  module _ (g : DynamicGraph D) (val : IsValid g) (some_node : 0 < g.node_list.size)
      (last_empty : (g.node_list.at (g.node_list.size - 1)).edges ≡ 0) where
    abbrev copied : ℕ → Node
    copied i =
        if i == g.node_list.size then g.node_list.at (g.node_list.size - 1) else g.node_list.at i

    abbrev result : DynamicGraph D
    result = record g {
      number_of_nodes = g.number_of_nodes + 1;
      node_list = record { size = g.node_list.size + 1; at = copied };
    }

    old :
        (u j : ℕ)
        → u < g.node_list.size + 1
        → Within (copied u) j
        → (u < g.node_list.size) × Within (g.node_list.at u) j
    old u j p w = elim (Bool-cases (u == g.node_list.size)) [
      | inl t ↦ absurd (ground (arith, t, w, last_empty))
      | inr t ↦ (ground (arith, t), ground (arith, t, w))
    ]

    same : (u : ℕ) → u < g.node_list.size → copied u ≡ g.node_list.at u
    same u p = ground arith

    new : copied g.node_list.size ≡ g.node_list.at (g.node_list.size - 1)
    new = ground arith

    -- In a valid graph whose last node has no edges, InsertNode returns the new number of nodes, keeps
    -- the graph valid, adds a node without edges, and leaves the edges of all other nodes.
    insert_node_correct :
        Returns (λ r. (r.0 ≡ g.number_of_nodes + 1) × NodeAdded g r.1) (insert_node g)
    unfolding insert_node
    insert_node_correct =
        let a : ltb (g.node_list.size - 1) g.node_list.size ≡ true = ground arith in
        rw a (
          done (
            refl,
            record {
              valid = record {
                inside = λ u p. elim (Bool-cases (u == g.node_list.size)) [
                  | inl t ↦ ground (arith, val.inside (g.node_list.size - 1))
                  | inr t ↦ ground (arith, val.inside u)
                ];
                apart = λ u v j p q b c.
                    let (u', b') = old u j p b in
                    let (v', c') = old v j q c in val.apart u v j u' v' b' c';
                real = λ u j p w. let (u', w') = old u j p w in val.real u j u' w';
              };
              one_more = refl;
              isolated =
                  ap (λ n. slice g.edge_list.at n.first_edge n.edges) new
                  ∙ ap (slice g.edge_list.at (g.node_list.at (g.node_list.size - 1)).first_edge)
                      last_empty;
              unchanged = λ u p. ap (λ n. slice g.edge_list.at n.first_edge n.edges) (same u p);
            },
          ))
