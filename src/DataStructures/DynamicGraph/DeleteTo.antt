-- ===== src/DataStructures/DynamicGraph/DeleteTo.antt =====
-- DeleteEdgesTo, on the edges of each node as a list without order.
use osrm_backend.Prelude.{
  ℕ, ◌+◌, ◌-◌, ◌≤◌, ◌<◌, ◌≡◌, ◌≢◌, refl, ◌∙◌, ap, true, List, ◌++◌, ◌==◌, ltb, update, arith,
  length, Array, Returns, done, Returns->>=, Bool-cases, inl, inr,
}
use mathlib.Core.List.{Perm}
use osrm_backend.DataStructures.DynamicGraph.{Edge, Node, DynamicGraph, delete_edges_to}
use osrm_backend.DataStructures.DynamicGraph.Slices.{slice, slice-ext, Within}
use osrm_backend.DataStructures.DynamicGraph.Valid.{adjacent, IsValid}
use osrm_backend.DataStructures.DynamicGraph.Drop.{LeadAway, Dropped, drop_to_lem}

module _ {D : Type 0} (target : ℕ) where
  pub record DeletedTo (source : ℕ) (g : DynamicGraph D) (p : ℕ × DynamicGraph D) : Type 0 where
    pub valid : IsValid p.1
    pub gone : List (Edge D)
    pub lead : LeadAway target gone
    pub split : Perm (gone ++ adjacent source p.1) (adjacent source g)
    pub left : (j : ℕ) → Within (p.1.node_list.at source) j → (p.1.edge_list.at j).target ≢ target
    pub number : p.0 ≡ length gone
    pub unchanged : (v : ℕ) → v < g.node_list.size → v ≢ source → adjacent v p.1 ≡ adjacent v g
    pub same_nodes : p.1.node_list.size ≡ g.node_list.size
    pub count : p.1.number_of_edges ≡ g.number_of_edges - p.0

  module _ (source : ℕ) (g : DynamicGraph D) (val : IsValid g) (s : source < g.node_list.size) where
    abbrev node : Node
    node = g.node_list.at source

    abbrev iend : ℕ
    iend = node.first_edge + node.edges

    abbrev result : ℕ × Array (Edge D) → DynamicGraph D
    result r = record g {
      number_of_edges = g.number_of_edges - (iend - r.0);
      node_list = record (g.node_list) {
        at = update g.node_list.at source (record node { edges = node.edges - (iend - r.0) });
      };
      edge_list = r.1;
    }

    narrows :
        (r : ℕ × Array (Edge D)) (u j : ℕ)
        → Within ((result r).node_list.at u) j
        → Within (g.node_list.at u) j
    narrows r u j a = elim (Bool-cases (u == source)) [
      | inl t ↦ ground (arith, a)
      | inr t ↦ ground (arith, a)
    ]

    untouched :
        (r : ℕ × Array (Edge D)) (v j : ℕ)
        → Dropped target node.first_edge node.first_edge iend g.edge_list r
        → v < g.node_list.size
        → v ≢ source
        → Within (g.node_list.at v) j
        → r.1.at j ≡ g.edge_list.at j
    untouched r v j d p n a = elim (Bool-cases (ltb j node.first_edge)) [
      | inl y ↦ d.before j (ground (arith, y))
      | inr y ↦
          d.behind j (ground (arith, y, (λ (q : Within node j). n (val.apart v source j p s a q))))
    ]

    Dropped-DeletedTo :
        (r : ℕ × Array (Edge D))
        → Dropped target node.first_edge node.first_edge iend g.edge_list r
        → ((j : ℕ) → node.first_edge ≤ j → j < r.0 → (r.1.at j).target ≢ target)
        → DeletedTo source g (iend - r.0, result r)
    Dropped-DeletedTo r d left =
        let own : (result r).node_list.at source
            ≡ record { first_edge = node.first_edge; edges = node.edges - (iend - r.0) } =
          ground arith in
        let size : node.edges - (iend - r.0) ≡ r.0 - node.first_edge =
          omega (arith, d.le, d.first_le) in
        let here : adjacent source (result r)
            ≡ slice r.1.at node.first_edge (r.0 - node.first_edge) =
          ap (λ n. slice r.1.at n.first_edge n.edges) own
          ∙ ap (slice r.1.at node.first_edge) size in
        let whole : iend - node.first_edge ≡ node.edges = omega arith in
        record {
          valid = record {
            inside = λ u p. elim (Bool-cases (u == source)) [
              | inl t ↦ ground (arith, val.inside source s, d.size_eq)
              | inr t ↦ ground (arith, val.inside u p, d.size_eq)
            ];
            apart = λ u v j p q a b. val.apart u v j p q (narrows r u j a) (narrows r v j b);
            real = λ u j p a. elim (Bool-cases (u == source)) [
              | inl t ↦
                  let (k, b, c, e) =
                    d.from j (ground (arith, a, t)) (ground (arith, a, t, size, d.first_le)) in
                  rw e (val.real source k s (b, c))
              | inr t ↦
                  let n : u ≢ source = ground (arith, t) in
                  rw (untouched r u j d p n (narrows r u j a)) (val.real u j p (narrows r u j a))
            ];
          };
          gone = d.gone;
          lead = d.lead;
          split = rw (here, ← whole) d.same;
          left = λ j w. left j (ground (arith, w)) (ground (arith, w, size, d.first_le));
          number = omega (arith, d.count);
          unchanged = λ v p n.
              let other : (result r).node_list.at v ≡ g.node_list.at v = ground (arith, n) in
              ap (λ n. slice r.1.at n.first_edge n.edges) other
              ∙ slice-ext _ _ _ _ _ (λ i q. untouched r v _ d p n (omega arith, omega arith));
          same_nodes = refl;
          count = refl;
        }

    -- In a valid graph, DeleteEdgesTo returns, keeps the graph valid, takes from the node's edges those
    -- that lead to the target, all of them and no others, returns their number, and leaves the edges of
    -- all other nodes.
    pub delete_edges_to_correct : Returns (DeletedTo source g) (delete_edges_to source target g)
    unfolding delete_edges_to
    delete_edges_to_correct =
        let a : ltb source g.node_list.size ≡ true = ground (arith, s) in
        rw a (
          Returns->>=
            (drop_to_lem target node.first_edge node.edges node.first_edge iend g.edge_list
              (omega arith) (omega arith) (omega arith) (val.inside source s))
            (λ r (d, left). done (Dropped-DeletedTo r d left)))
