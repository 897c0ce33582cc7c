-- ===== src/Contractor/Contractor/Edges.antt =====
-- The loop over the edges of a node, `for (auto e : contractor_graph->GetAdjacentEdgeRange(node))`.
use osrm_backend.Prelude.{
  ℕ, zero, suc, ◌+◌, ◌≤◌, ◌<◌, ◌≡◌, true, Option, some, arith, ltb, Array, load, Returns, done,
  Returns->>=, Returns-weaken, ◌>>=◌,
}
use mathlib.Core.Path.{subst}
use osrm_backend.DataStructures.DynamicGraph.{Edge, DynamicGraph}
use osrm_backend.DataStructures.DynamicGraph.Slices.{Within}
use osrm_backend.Contractor.Contractor.{ContractorEdgeData}

module _ {S : Type 0} where
  -- `n` edges, from `e` on.
  unfoldable pub for_edges :
      (Edge ContractorEdgeData → S → Option S)
      → ℕ
      → ℕ
      → Array (Edge ContractorEdgeData)
      → S
      → Option S
  for_edges step zero e edges s = some s
  for_edges step (suc n) e edges s = do
    edge ← load edges e
    s' ← step edge s
    for_edges step n (e + 1) edges s'

  unfoldable pub for_adjacent :
      (Edge ContractorEdgeData → S → Option S) → ℕ → DynamicGraph ContractorEdgeData → S → Option S
  for_adjacent step node g s = do
    n ← load g.node_list node
    for_edges step n.edges n.first_edge g.edge_list s

  -- What each step takes on to the next edge holds at the end.
  for_edges_lem :
      (step : Edge ContractorEdgeData → S → Option S) (Holds : ℕ → S → Type 0) (n e : ℕ)
      (edges : Array (Edge ContractorEdgeData)) (s : S)
      → e + n ≤ edges.size
      → ((j : ℕ) (t : S)
          → e ≤ j
          → j < e + n
          → Holds j t
          → Returns (Holds (j + 1)) (step (edges.at j) t))
      → Holds e s
      → Returns (Holds (e + n)) (for_edges step n e edges s)
  unfolding for_edges
  for_edges_lem step Holds zero e edges s p next h =
      let z : e ≡ e + 0 = omega arith in done (subst (λ x. Holds x s) z h)
  for_edges_lem step Holds (suc n) e edges s p next h =
      let a : ltb e edges.size ≡ true = ground (arith, p) in
      let z : e + 1 + n ≡ e + suc n = omega arith in
      rw a (
        Returns->>= (next e s (omega arith) (omega arith) h) (λ s' h'.
          Returns-weaken
            (for_edges_lem step Holds n (e + 1) edges s' (omega (arith, p))
              (λ j t q r. next j t (omega (arith, q)) (omega (arith, r))) h')
            (λ s'' h''. subst (λ x. Holds x s'') z h'')))

  pub for_adjacent_lem :
      (step : Edge ContractorEdgeData → S → Option S) (Holds : ℕ → S → Type 0) (node : ℕ)
      (g : DynamicGraph ContractorEdgeData) (s : S)
      → node < g.node_list.size
      → (g.node_list.at node).first_edge + (g.node_list.at node).edges ≤ g.edge_list.size
      → ((j : ℕ) (t : S)
          → Within (g.node_list.at node) j
          → Holds j t
          → Returns (Holds (j + 1)) (step (g.edge_list.at j) t))
      → Holds (g.node_list.at node).first_edge s
      → Returns
          (Holds ((g.node_list.at node).first_edge + (g.node_list.at node).edges))
          (for_adjacent step node g s)
  unfolding for_adjacent
  for_adjacent_lem step Holds node g s real inside next h =
      let a : ltb node g.node_list.size ≡ true = ground (arith, real) in
      let n = g.node_list.at node in
      rw a (
        for_edges_lem step Holds n.edges n.first_edge g.edge_list s inside
          (λ j t p q. next j t (p, q)) h)

-- An edge from the one node to the other.
abbrev pub Joined : DynamicGraph ContractorEdgeData → ℕ → ℕ → Type 0
Joined g a b = (j : ℕ) × Within (g.node_list.at a) j × ((g.edge_list.at j).target ≡ b)

-- The ranges of the nodes lie in the edge array, and their edges lead to nodes.
pub record Enclosed (g : DynamicGraph ContractorEdgeData) : Type 0 where
  pub inside :
      (u : ℕ)
      → u < g.node_list.size
      → (g.node_list.at u).first_edge + (g.node_list.at u).edges ≤ g.edge_list.size
  pub targets :
      (u j : ℕ)
      → u < g.node_list.size
      → Within (g.node_list.at u) j
      → (g.edge_list.at j).target < g.node_list.size
