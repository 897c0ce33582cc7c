-- ===== src/Contractor/Contractor/ContractNode/Covers.antt =====
-- ContractNode as a whole.
use osrm_backend.Prelude.{
  ℕ, ◌+◌, ◌-◌, ◌≤◌, ◌<◌, ◌≡◌, inl, inr, refl, ◌∙◌, Bool, false, arith, Array, Returns, done,
  Returns->>=,
}
use osrm_backend.DataStructures.DynamicGraph.{DynamicGraph}
use osrm_backend.Contractor.Contractor.{ContractorEdgeData, ContractorEdge}
use osrm_backend.DataStructures.XorFastHashStorage.{unsigned_max}
use osrm_backend.Contractor.Contractor.Edges.{for_adjacent_lem}
use osrm_backend.Contractor.Contractor.WitnessSearch.Walks.{NodeGraph}
use osrm_backend.Contractor.Contractor.ContractNode.{
  ContractorThreadData, ContractionStats, contract_in_edge, contract_node,
}
use osrm_backend.Contractor.Contractor.ContractNode.Shortcuts.{
  edge_at, Incoming, Outgoing, Noted, goes_forward, goes_backward, Sound, Covered, Collected,
}
use osrm_backend.Contractor.Contractor.ContractNode.InEdge.{Outer, Timely, contract_in_edge_lem}
use osrm_backend.Contractor.Contractor.ContractNode.Merge.{LiveNoted}
use osrm_backend.Contractor.Contractor.ContractNode.Merged.{merge_edges_lem}

-- The edges that were noted before the call, and the node's shortcuts behind them.
pub record Contracted (g : DynamicGraph ContractorEdgeData) (node : ℕ)
    (first : Array ContractorEdge) (p : ContractorThreadData × ContractionStats) : Type 0 where
  pub start_le : first.size ≤ p.0.inserted_edges.size
  pub before : (k : ℕ) → k < first.size → p.0.inserted_edges.at k ≡ first.at k
  pub sound :
      (k : ℕ)
      → first.size ≤ k
      → k < p.0.inserted_edges.size
      → Sound g node (p.0.inserted_edges.at k)
  pub covered :
      (i j : ℕ)
      → Incoming g node i
      → Outgoing g node j
      → Covered g node first.size p.0.inserted_edges
          (edge_at g node i).target
          (edge_at g node j).target
          ((edge_at g node i).stored.distance + (edge_at g node j).stored.distance)

Noted-LiveNoted :
    (flag : ContractorEdge → Bool) (start : ℕ) (edges : Array ContractorEdge) (u v d : ℕ)
    → Noted flag start edges u v d
    → LiveNoted flag start start start edges u v d
Noted-LiveNoted flag start edges u v d (k, a, b, s, t, w, c, f) = (k, inr (a, b), s, t, w, c, f)

-- In a graph with fewer than 2 ^ 16 nodes and with edges shorter than 2 ^ 29 between them, and when the
-- timestamp of the heap's index is below 2 ^ 32 - 1 by more than the node's number of edges, ContractNode
-- of an existing node returns and keeps the edges noted before. For each path of two edges over the node there is then a
-- path around the node that is no longer, or a shortcut of its length is noted in both directions;
-- and each new edge stands for such a path in each direction that it has.
pub contract_node_correct :
    (g : DynamicGraph ContractorEdgeData) (thread : ContractorThreadData) (node : ℕ)
    (stats : ContractionStats)
    → NodeGraph g
    → node < g.node_list.size
    → thread.timestamp + (g.node_list.at node).edges < unsigned_max
    → Returns (Contracted g node thread.inserted_edges) (contract_node false thread node stats g)
unfolding contract_node Timely
contract_node_correct g thread node stats road real time =
    let first = thread.inserted_edges in
    let n = g.node_list.at node in
    Returns->>=
      (for_adjacent_lem (contract_in_edge false node g)
        (λ e c.
          Timely g road node real first e c
          × Collected g node first (Outer e) c.notes.inserted_edges)
        node g
        (record {
          timestamp = thread.timestamp;
          heap = thread.heap;
          notes = record { inserted_edges = first; stats = stats };
        })
        real (road.inside node real)
        (λ i c w t. contract_in_edge_lem g road node real first i c w t.0 t.1)
        (
          omega (arith, time),
          record {
            start_le = omega arith;
            before = λ k p. refl;
            sound = λ k p q. absurd (omega (arith, p, q));
            covered = λ i j p a b. absurd (omega (arith, p, a.0.0));
          },
        ))
      (λ c (t, h).
        let edges = c.notes.inserted_edges in
        Returns->>=
          (merge_edges_lem g node first.size (edges.size - first.size) first.size first.size edges
            (omega (arith, h.start_le)) (omega arith) (omega arith)
            (λ k live. elim live [
              | inl (a, b) ↦ absurd (omega (arith, a, b))
              | inr (a, b) ↦ h.sound k a b
            ]))
          (λ r m. done (record {
            start_le = m.start_le;
            before = λ k p. m.before k p ∙ h.before k p;
            sound = m.sound;
            covered = λ i j a b. elim (h.covered i j a.0.1 a b) [
              | inl w ↦ inl w
              | inr (f, t) ↦ inr (
                m.forth _ _ _ (Noted-LiveNoted goes_forward first.size edges _ _ _ f),
                m.back _ _ _ (Noted-LiveNoted goes_backward first.size edges _ _ _ t),
              )
            ];
          })))
