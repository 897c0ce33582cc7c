-- ===== src/DataStructures/DynamicGraph/Delete.antt =====
-- DeleteEdge, on the edges of each node as a list without order.
use osrm_backend.Prelude.{
  ℕ, zero, suc, ◌+◌, ◌-◌, ◌≤◌, ◌<◌, ◌≡◌, ◌≢◌, refl, ◌∙◌, ap, sym, some, ◌∷◌, ◌==◌, update, arith,
  Returns, done, Bool-cases, inl, inr,
}
use mathlib.Core.List.{Perm, perm_append_singleton}
use mathlib.Core.List.Perm as Perm
use mathlib.Core.Path.{subst}
use osrm_backend.DataStructures.DynamicGraph.{
  Edge, Node, DynamicGraph, no_node, make_dummy, copy_edge, delete_edge,
}
use osrm_backend.DataStructures.DynamicGraph.Slices.{slice, dummy, slice-ext, slice-snoc, Within}
use osrm_backend.DataStructures.DynamicGraph.Valid.{adjacent, IsValid}

module _ {D : Type 0} where
  -- One element leaves a slice: the last one takes its place.
  pub drop-Perm :
      (f g : ℕ → Edge D) (a n k : ℕ)
      → k ≤ n
      → ((j : ℕ) → j < n → j ≢ k → g (a + j) ≡ f (a + j))
      → (k < n → g (a + k) ≡ f (a + n))
      → Perm (f (a + k) ∷ slice g a n) (slice f a (suc n))
  drop-Perm f g a zero zero p h m = let z : a + 0 ≡ a = omega arith in rw z Perm.rfl
  drop-Perm f g a zero (suc k) p h m = absurd (omega arith)
  drop-Perm f g a (suc n) zero p h m =
      let z : a + 0 ≡ a = omega arith in
      let y : a + suc n ≡ a + 1 + n = omega arith in
      let same : slice g (a + 1) n ≡ slice f (a + 1) n =
        slice-ext g f (a + 1) (a + 1) n (λ i q. ground (arith, h (i + 1))) in
      let first : g a ≡ f (a + 1 + n) = ground (arith, m) in
      rw (z, first, same, slice-snoc f (a + 1) n)
        (Perm.cons (f a) (Perm.symm (perm_append_singleton (f (a + 1 + n)) (slice f (a + 1) n))))
  drop-Perm f g a (suc n) (suc k) p h m =
      let z : a + suc k ≡ a + 1 + k = omega arith in
      let first : g a ≡ f a = ground (arith, h 0) in
      rw (z, first)
        (Perm.trans (Perm.swap (f a) (f (a + 1 + k)) (slice g (a + 1) n)) (
          Perm.cons (f a) (
            drop-Perm f g (a + 1) n k (omega arith) (λ j q r. ground (arith, h (j + 1)))
              (λ q. ground (arith, m)))))

  pub record Deleted (source : ℕ) (e : Edge D) (g g' : DynamicGraph D) : Type 0 where
    pub valid : IsValid g'
    pub removed : Perm (e ∷ adjacent source g') (adjacent source g)
    pub unchanged : (v : ℕ) → v < g.node_list.size → v ≢ source → adjacent v g' ≡ adjacent v g
    pub same_nodes : g'.node_list.size ≡ g.node_list.size
    pub count : g'.number_of_edges ≡ g.number_of_edges - 1

  module _ (source e : ℕ) (g : DynamicGraph D) (val : IsValid g) (s : source < g.node_list.size)
      (w : Within (g.node_list.at source) e) where
    abbrev node : Node
    node = g.node_list.at source

    abbrev last : ℕ
    last = node.first_edge + (node.edges - 1)

    abbrev swapped : ℕ → Edge D
    swapped = update g.edge_list.at e (g.edge_list.at last)

    abbrev result : DynamicGraph D
    result = record g {
      number_of_edges = g.number_of_edges - 1;
      node_list = record (g.node_list) {
        at = update g.node_list.at source (record node { edges = node.edges - 1 });
      };
      edge_list = record (g.edge_list) { at = update swapped last (dummy (swapped last)) };
    }

    own :
        result.node_list.at source ≡ record { first_edge = node.first_edge; edges = node.edges - 1 }
    own = ground arith

    other : (v : ℕ) → v ≢ source → result.node_list.at v ≡ g.node_list.at v
    other v n = ground arith

    narrows : (u j : ℕ) → Within (result.node_list.at u) j → Within (g.node_list.at u) j
    narrows u j a = elim (Bool-cases (u == source)) [
      | inl t ↦ ground (arith, a)
      | inr t ↦ ground (arith, a)
    ]

    off_last : (u j : ℕ) → u < g.node_list.size → Within (result.node_list.at u) j → j ≢ last
    off_last u j p a z =
        let here : Within (g.node_list.at source) j = ground (arith, z, w) in
        let same = val.apart u source j p s (narrows u j a) here in ground (arith, a, z, own, same)

    untouched :
        (v j : ℕ)
        → v < g.node_list.size
        → v ≢ source
        → Within (g.node_list.at v) j
        → result.edge_list.at j ≡ g.edge_list.at j
    untouched v j p n a =
        let out : ¬ Within node j = λ q. n (val.apart v source j p s a q) in ground (arith, out, w)

    valid_real :
        (u j : ℕ)
        → u < g.node_list.size
        → Within (result.node_list.at u) j
        → (result.edge_list.at j).target ≢ no_node
    valid_real u j p a =
        ground (arith, off_last u j p a, val.real u j p (narrows u j a), val.real source last s, w)

    removes : Perm (g.edge_list.at e ∷ adjacent source result) (adjacent source g)
    removes =
        let split : node.edges ≡ suc (node.edges - 1) = omega (arith, w.1, w.0) in
        let place : e ≡ node.first_edge + (e - node.first_edge) = omega (arith, w.0) in
        let here : adjacent source result
            ≡ slice result.edge_list.at node.first_edge (node.edges - 1) =
          ap (λ n. slice result.edge_list.at n.first_edge n.edges) own in
        let dropped =
          drop-Perm g.edge_list.at result.edge_list.at node.first_edge (node.edges - 1)
            (e - node.first_edge) (omega (arith, w.0, w.1)) (λ j p q. ground (arith, w))
            (λ p. ground (arith, w)) in
        let left : g.edge_list.at e ∷ adjacent source result
            ≡ g.edge_list.at (node.first_edge + (e - node.first_edge))
              ∷ slice result.edge_list.at node.first_edge (node.edges - 1) =
          cc (ap g.edge_list.at place, here) in
        let right : slice g.edge_list.at node.first_edge (suc (node.edges - 1))
            ≡ adjacent source g =
          ap (slice g.edge_list.at node.first_edge) (sym split) in
        rw left (
          subst
            (λ xs.
              Perm
                (g.edge_list.at (node.first_edge + (e - node.first_edge))
                  ∷ slice result.edge_list.at node.first_edge (node.edges - 1))
                xs)
            right dropped)

    -- In a valid graph, DeleteEdge of an edge in the range of its node returns, keeps the graph
    -- valid, takes exactly this edge from the node's edges, and leaves the edges of all other nodes.
    pub delete_edge_correct : Returns (Deleted source (g.edge_list.at e) g) (delete_edge source e g)
    unfolding delete_edge copy_edge make_dummy
    delete_edge_correct =
        let inside = val.inside source s in
        let eq : delete_edge source e g ≡ some result = ground (arith, w, inside) in
        rw eq (
          done (record {
            valid = record {
              inside = λ u p. elim (Bool-cases (u == source)) [
                | inl t ↦ ground (arith, inside)
                | inr t ↦ ground (arith, val.inside u p)
              ];
              apart = λ u v j p q a b. val.apart u v j p q (narrows u j a) (narrows v j b);
              real = valid_real;
            };
            removed = removes;
            unchanged = λ v p n.
                ap (λ n. slice result.edge_list.at n.first_edge n.edges) (other v n)
                ∙ slice-ext _ _ _ _ _ (λ i q. untouched v _ p n (omega arith, omega arith));
            same_nodes = refl;
            count = refl;
          }))
