-- ===== src/Contractor/Contractor/Round/Correct.antt =====
-- The round as a whole.
use osrm_backend.Prelude.{
  ℕ, ◌+◌, ◌≤◌, ◌<◌, ◌≡◌, ◌≢◌, inl, inr, ◌∙◌, arith, Array, Returns, Returns-weaken, Returns->>=,
}
use mathlib.Core.Path.{subst}
use osrm_backend.DataStructures.DynamicGraph.{Edge, DynamicGraph}
use osrm_backend.DataStructures.DynamicGraph.Slices.{Within}
use osrm_backend.DataStructures.DynamicGraph.Valid.{IsValid}
use osrm_backend.Contractor.Contractor.{ContractorEdgeData, ContractorEdge}
use osrm_backend.DataStructures.XorFastHashStorage.{unsigned_max}
use osrm_backend.Contractor.Contractor.Edges.{Joined}
use osrm_backend.Contractor.Contractor.WitnessSearch.Walks.{NodeGraph}
use osrm_backend.Contractor.Contractor.ContractNode.{ContractorThreadData, new_stats}
use osrm_backend.Contractor.Contractor.ContractNode.Shortcuts.{edge_at, Sound, Covered}
use osrm_backend.Contractor.Contractor.ContractNode.Covers.{contract_node_correct}
use osrm_backend.Contractor.Contractor.DeleteIncoming.Emptied.{delete_incoming_edges_correct}
use osrm_backend.Contractor.Contractor.InsertShortcuts.Insert.{insert_shortcuts_correct}
use osrm_backend.Contractor.Contractor.Round.{contract_round}
use osrm_backend.Contractor.Contractor.Round.Paths.{Route, Around}
use osrm_backend.Contractor.Contractor.Round.Distances.{
  Mirrored, Arranged, Parts, Route-Near, Around-Origin,
}

module _ (g : DynamicGraph ContractorEdgeData) (road : NodeGraph g)
    (mirror : (u j : ℕ) → u < g.node_list.size → Within (g.node_list.at u) j → Mirrored g u j)
    (node : ℕ) (real : node < g.node_list.size) where
  -- The ends of the noted edges are nodes.
  Sound-ends :
      (e : ContractorEdge)
      → Sound g node e
      → (e.source < g.node_list.size) × (e.target < g.node_list.size)
  Sound-ends e sound =
      let reached : (j : ℕ) (v : ℕ)
          → Within (g.node_list.at node) j
          → (g.edge_list.at j).target ≡ v
          → v < g.node_list.size =
        λ j v w z. subst (λ a. a < g.node_list.size) z (road.targets node j real w) in
      elim sound.way [
        | inl f ↦
            let via = sound.forth f in
            (
              reached via.in_edge _ via.incoming.0 via.from,
              reached via.out_edge _ via.outgoing.0 via.to,
            )
        | inr f ↦
            let via = sound.back f in
            (
              reached via.out_edge _ via.outgoing.0 via.to,
              reached via.in_edge _ via.incoming.0 via.from,
            )
      ]

  Mirrored-Joined : (a b : ℕ) → a < g.node_list.size → Joined g a b → Joined g b a
  Mirrored-Joined a b p (j, w, z) =
      let m = mirror a j p w in
      (m.edge, subst (λ x. Within (g.node_list.at x) m.edge) z m.within, m.leads)

  -- Between all other nodes there is a path within a distance in the one graph when there is one in the
  -- other graph that does not come to the node.
  pub record SameDistances (final : DynamicGraph ContractorEdgeData) : Type 0 where
    pub valid : IsValid final
    pub same_nodes : final.node_list.size ≡ g.node_list.size
    pub after :
        (s t w : ℕ)
        → s < g.node_list.size
        → s ≢ node
        → t ≢ node
        → Route g s t w
        → (x : ℕ) × (x ≤ w) × Around final s node t x
    pub before :
        (s t w : ℕ)
        → s < g.node_list.size
        → s ≢ node
        → Around final s node t w
        → (x : ℕ) × (x ≤ w) × Route g s t x

  Parts-SameDistances :
      (noted sorted : Array ContractorEdge) (middle final : DynamicGraph ContractorEdgeData)
      → Parts g node noted sorted middle final
      → SameDistances final
  Parts-SameDistances noted sorted middle final parts = record {
    valid = parts.merged.valid;
    same_nodes = parts.merged.same_nodes ∙ parts.isolated.same_nodes;
    after = λ s t w p other away r.
        elim (Route-Near g road mirror node real noted sorted middle final parts s p other r) [
          | inl reach ↦ (reach.length, reach.le, reach.along)
          | inr (z, b) ↦ absurd (away z)
        ];
    before = λ s t w p other a.
        let o = Around-Origin g road mirror node real noted sorted middle final parts s p a in
        (o.length, o.le, o.along);
  }

  -- In a valid graph with fewer than 2 ^ 16 nodes and with edges shorter than 2 ^ 29 between them, each of
  -- which has an edge back of the same length with the flags exchanged, with no edges noted before,
  -- and when the timestamp of the heap's index is below 2 ^ 32 - 1 by more than the node's number of
  -- edges: contracting a node, with a sort that keeps the edges, returns. The graph stays valid, and
  -- keeps its distances: for each path between two other nodes there is one that does not come to the
  -- node and is no longer in the new graph, and for each of these in the new graph there is one no
  -- longer in the old graph.
  pub contract_round_correct :
      (arrange : Array ContractorEdge → Array ContractorEdge)
      → ((edges : Array ContractorEdge) → Arranged edges (arrange edges))
      → (blank : Edge ContractorEdgeData) (thread : ContractorThreadData)
      → thread.inserted_edges.size ≡ 0
      → thread.timestamp + (g.node_list.at node).edges < unsigned_max
      → IsValid g
      → Returns SameDistances (contract_round arrange blank thread node g)
  unfolding contract_round
  contract_round_correct arrange sorts blank thread none time val =
      Returns->>= (contract_node_correct g thread node new_stats road real time) (λ c contracted.
        let noted = c.0.inserted_edges in
        let sorted = arrange noted in
        let sound : (k : ℕ) → k < noted.size → Sound g node (noted.at k) =
          λ k p. contracted.sound k (omega (arith, none)) p in
        Returns->>=
          (delete_incoming_edges_correct node (record (c.0) { inserted_edges = sorted }) g val
            road.targets Mirrored-Joined real)
          (λ d isolated.
            let ends : (k : ℕ)
                → k < sorted.size
                → ((sorted.at k).source < g.node_list.size)
                  × ((sorted.at k).target < g.node_list.size) =
              λ k p.
                (let (j, q, same) = (sorts noted).from k p in
                  Sound-ends (sorted.at k) (subst (λ e. Sound g node e) same (sound j q))) in
            Returns-weaken
              (insert_shortcuts_correct blank sorted.size 0 sorted d.1 isolated.valid
                (record {
                  sources = λ k p. omega (arith, (ends k p).0, isolated.same_nodes);
                  targets = λ k p e. omega (arith, (ends k p).1, road.few, e);
                })
                (omega arith))
              (λ final merged. Parts-SameDistances noted sorted d.1 final (record {
                covered = λ i j a b.
                    subst
                      (λ x.
                        Covered g node x noted (edge_at g node i).target (edge_at g node j).target
                          ((edge_at g node i).stored.distance + (edge_at g node j).stored.distance))
                      none (contracted.covered i j a b);
                sound = sound;
                arranged = sorts noted;
                isolated = isolated;
                merged = merged;
              }))))
