-- ===== src/DataStructures/DynamicGraph/Insert.antt =====
-- InsertEdge, on the edges of each node as a list without order.
use osrm_backend.Prelude.{
  ℕ, suc, ◌+◌, ◌-◌, ◌<◌, ◌≡◌, ◌≢◌, refl, ◌∙◌, ap, sym, true, [], ◌∷◌, ◌++◌, ltb, ◌==◌, Array,
  update, arith, Returns, done, Returns->>=, Bool-cases, inl, inr, ◌⊎◌,
}
use mathlib.Core.List.{Perm, perm_append_singleton}
use mathlib.Core.List.Perm as Perm
use mathlib.Core.Path.{subst}
use osrm_backend.DataStructures.DynamicGraph.{Edge, Node, DynamicGraph, no_node, insert_edge}
use osrm_backend.DataStructures.DynamicGraph.Slices.{slice, slice-ext, slice-snoc, Within}
use osrm_backend.DataStructures.DynamicGraph.Room.{Room, make_room_lem}
use osrm_backend.DataStructures.DynamicGraph.Valid.{adjacent, IsValid}

module _ {D : Type 0} where
  pub record Inserted (from : ℕ) (e : Edge D) (g : DynamicGraph D) (end : ℕ) (g' : DynamicGraph D)
      : Type 0 where
    pub valid : IsValid g'
    pub added : Perm (adjacent from g') (e ∷ adjacent from g)
    pub unchanged : (v : ℕ) → v < g.node_list.size → v ≢ from → adjacent v g' ≡ adjacent v g
    pub same_nodes : g'.node_list.size ≡ g.node_list.size
    pub count : g'.number_of_edges ≡ g.number_of_edges + 1
    pub last : g'.edge_list.at (end - 1) ≡ e
    pub is_end : end ≡ (g'.node_list.at from).first_edge + (g'.node_list.at from).edges

  module _ (from to : ℕ) (d : D) (g : DynamicGraph D) (val : IsValid g)
      (f : from < g.node_list.size) (t : to ≢ no_node) where
    abbrev new : Edge D
    new = record { target = to; stored = d }

    abbrev node : Node
    node = g.node_list.at from

    abbrev result : ℕ → Array (Edge D) → DynamicGraph D
    result first e = record g {
      number_of_edges = g.number_of_edges + 1;
      node_list = record (g.node_list) {
        at = update g.node_list.at from (record { first_edge = first; edges = node.edges + 1 });
      };
      edge_list = record e { at = update e.at (first + node.edges) new };
    }

    -- An edge of another node is neither moved nor written.
    untouched :
        {first : ℕ} {e : Array (Edge D)}
        → Room node g.edge_list first e
        → (v j : ℕ) → v < g.node_list.size
        → v ≢ from
        → Within (g.node_list.at v) j
        → ((result first e).edge_list.at j ≡ g.edge_list.at j)
          × ((j < first) ⊎ (first + node.edges < j))
    untouched {first} {e} r v j p n w =
        let real = val.real v j p w in
        let a : j < g.edge_list.size = omega (arith, val.inside v p, w.1) in
        let out : ¬ Within node j = λ q. n (val.apart v from j p f w q) in
        let o = r.others j a out real in
        let clear : (j < first) ⊎ (first + node.edges < j) = ground (arith, r.free j, out) in
        (ground (arith, o, clear), clear)

    own :
        (first : ℕ) (e : Array (Edge D))
        → (result first e).node_list.at from ≡ record { first_edge = first; edges = node.edges + 1 }
    own first e = ground arith

    other :
        (first : ℕ) (e : Array (Edge D)) (v : ℕ)
        → v ≢ from
        → (result first e).node_list.at v ≡ g.node_list.at v
    other first e v n = ground arith

    meets :
        {first : ℕ} {e : Array (Edge D)}
        → Room node g.edge_list first e
        → (v j : ℕ) → v < g.node_list.size
        → Within ((result first e).node_list.at from) j
        → Within ((result first e).node_list.at v) j
        → v ≡ from
    meets {first} {e} r v j p a b = elim (Bool-cases (v == from)) [
      | inl s ↦ ground arith
      | inr s ↦
          let n : v ≢ from = ground arith in
          let w : Within (g.node_list.at v) j = ground (arith, b) in
          let clear = (untouched r v j p n w).1 in ground (arith, clear, own first e, a)
    ]

    valid_apart :
        {first : ℕ} {e : Array (Edge D)}
        → Room node g.edge_list first e
        → (u v j : ℕ) → u < g.node_list.size
        → v < g.node_list.size
        → Within ((result first e).node_list.at u) j
        → Within ((result first e).node_list.at v) j
        → u ≡ v
    valid_apart {first} {e} r u v j p q a b = elim (Bool-cases (u == from)) [
      | inl s ↦
          let z : u ≡ from = ground arith in
          let a' : Within ((result first e).node_list.at from) j =
            subst (λ x. Within ((result first e).node_list.at x) j) z a in
          z ∙ sym (meets r v j q a' b)
      | inr s ↦ elim (Bool-cases (v == from)) [
        | inl t ↦
            let z : v ≡ from = ground arith in
            let b' : Within ((result first e).node_list.at from) j =
              subst (λ x. Within ((result first e).node_list.at x) j) z b in
            meets r u j p b' a ∙ sym z
        | inr t ↦ val.apart u v j p q (ground (arith, a)) (ground (arith, b))
      ]
    ]

    valid_real :
        {first : ℕ} {e : Array (Edge D)}
        → Room node g.edge_list first e
        → (u j : ℕ) → u < g.node_list.size
        → Within ((result first e).node_list.at u) j
        → ((result first e).edge_list.at j).target ≢ no_node
    valid_real {first} {e} r u j p w = elim (Bool-cases (u == from)) [
      | inl s ↦ let old = r.real (λ i. val.real from i f) j in ground (arith, w, old, t)
      | inr s ↦
          let n : u ≢ from = ground arith in
          let w' : Within (g.node_list.at u) j = ground (arith, w) in
          rw ((untouched r u j p n w').0) (val.real u j p w')
    ]

    adds :
        {first : ℕ} {e : Array (Edge D)}
        → Room node g.edge_list first e
        → Perm (adjacent from (result first e)) (new ∷ adjacent from g)
    adds {first} {e} r =
        let old : slice (result first e).edge_list.at first node.edges
            ≡ slice e.at first node.edges =
          slice-ext _ _ first first node.edges (λ i p. ground arith) in
        let last : (result first e).edge_list.at (first + node.edges) ≡ new = ground arith in
        let one : node.edges + 1 ≡ suc node.edges = omega arith in
        let here : adjacent from (result first e) ≡ slice e.at first node.edges ++ (new ∷ []) =
          ap (λ n. slice (result first e).edge_list.at n.first_edge n.edges) (own first e)
          ∙ ap (slice (result first e).edge_list.at first) one
          ∙ slice-snoc (result first e).edge_list.at first node.edges
          ∙ rw (old, last) refl in
        rw here (
          Perm.trans (perm_append_singleton new (slice e.at first node.edges))
            (Perm.cons new r.same))

    keeps :
        {first : ℕ} {e : Array (Edge D)}
        → Room node g.edge_list first e
        → (v : ℕ) → v < g.node_list.size
        → v ≢ from
        → adjacent v (result first e) ≡ adjacent v g
    keeps {first} {e} r v p n =
        ap (λ n. slice (result first e).edge_list.at n.first_edge n.edges) (other first e v n)
        ∙ slice-ext _ _ _ _ _ (λ i q. (untouched r v _ p n (omega arith, omega arith)).0)

    inserted_lem :
        {first : ℕ} {e : Array (Edge D)}
        → Room node g.edge_list first e
        → Inserted from new g (first + (node.edges + 1)) (result first e)
    inserted_lem {first} {e} r = record {
      valid = record {
        inside = λ u p. ground (arith, val.inside u p, r.fits, r.grows);
        apart = valid_apart r;
        real = valid_real r;
      };
      added = adds r;
      unchanged = keeps r;
      same_nodes = refl;
      count = refl;
      last = ground arith;
      is_end = ground arith;
    }

    -- In a valid graph, InsertEdge at an existing node, with a target that is not the dummy's,
    -- returns, keeps the graph valid, adds exactly the new edge to the node's edges, and leaves the
    -- edges of all other nodes. The result is the end of the node's range; the new edge is before it.
    pub insert_edge_correct :
        (blank : Edge D)
        → Returns (λ r. Inserted from new g r.0 r.1) (insert_edge blank from to d g)
    unfolding insert_edge
    insert_edge_correct blank =
        let a : ltb from g.node_list.size ≡ true = ground arith in
        rw a (
          Returns->>= (make_room_lem blank node g.edge_list (val.inside from f)) (λ (first, e) r.
            let b : ltb (first + node.edges) e.size ≡ true = ground (arith, r.fits) in
            rw b (done (inserted_lem r))))
