-- ===== src/Contractor/Contractor/ContractNode/InEdge.antt =====
-- One incoming edge: its witness search, and its shortcuts.
use osrm_backend.Prelude.{
  ℕ, ◌+◌, ◌-◌, ◌^◌, ◌≤◌, ◌<◌, ◌≡◌, ◌⊎◌, inl, inr, refl, true, false, arith, ltb, ◌==◌, Returns,
  done, Returns->>=, Bool-cases, Array,
}
use osrm_backend.DataStructures.DynamicGraph.{DynamicGraph}
use osrm_backend.DataStructures.DynamicGraph.Slices.{Within}
use osrm_backend.DataStructures.BinaryHeap.{BinaryHeap}
use osrm_backend.DataStructures.BinaryHeap.Queries.{queries_correct}
use osrm_backend.Contractor.Contractor.{
  ContractorEdgeData, ContractorHeapData, ContractorEdge, origin,
}
use osrm_backend.DataStructures.XorFastHashStorage.{unsigned_max}
use osrm_backend.Contractor.Contractor.Edges.{for_adjacent_lem}
use osrm_backend.Contractor.Contractor.Index.{clear_heap_lem}
use osrm_backend.Contractor.Contractor.WitnessSearch.Walks.{NodeGraph}
use osrm_backend.Contractor.Contractor.WitnessSearch.Settle.{Searched, dijkstra_lem}
use osrm_backend.Contractor.Contractor.ContractNode.{
  Notes, Contraction, add_shortcut, contract_in_edge, path_distance,
}
use osrm_backend.Contractor.Contractor.ContractNode.AddTargets.{Targeted, source_lem, targets_lem}
use osrm_backend.Contractor.Contractor.ContractNode.Shortcuts.{
  edge_at, Incoming, Witnessed, Collected, Collected_witness, note_shortcut-Collected,
}

-- The pairs of edges before an incoming edge, and with it before an outgoing one.
abbrev pub Outer : ℕ → ℕ → ℕ → Type 0
Outer i a b = a < i

abbrev Inner : ℕ → ℕ → ℕ → ℕ → Type 0
Inner i e a b = (a < i) ⊎ ((a ≡ i) × (b < e))

Inner-next : (i j a b : ℕ) → Inner i (j + 1) a b → Inner i j a b ⊎ ((a ≡ i) × (b ≡ j))
Inner-next i j a b (inl p) = inl (inl p)
Inner-next i j a b (inr (p, q)) = elim (Bool-cases (b == j)) [
  | inl y ↦ inr (p, ground (arith, y))
  | inr y ↦ inl (inr (p, ground (arith, y, q)))
]

module _ (g : DynamicGraph ContractorEdgeData) (road : NodeGraph g) (node : ℕ)
    (real : node < g.node_list.size) (first : Array ContractorEdge) where
  abbrev end : ℕ
  end = (g.node_list.at node).first_edge + (g.node_list.at node).edges

  add_shortcut_lem :
      (i : ℕ) (heap : BinaryHeap ContractorHeapData)
      → Incoming g node i
      → Searched g (edge_at g node i).target node (Targeted g road node real end) heap
      → (j : ℕ) (notes : Notes) → Within (g.node_list.at node) j
      → Collected g node first (Inner i j) notes.inserted_edges
      → Returns
          (λ n. Collected g node first (Inner i (j + 1)) n.inserted_edges)
          (add_shortcut false node
            (edge_at g node i).target
            (edge_at g node i).stored
            heap
            (edge_at g node j)
            notes)
  unfolding add_shortcut
  add_shortcut_lem i heap in_i s j notes within c =
      let a = (edge_at g node i).stored in
      let out = edge_at g node j in
      let short_a : a.distance < 2 ^ 29 = road.short node i real in_i.0 in
      let short_b : out.stored.distance < 2 ^ 29 = road.short node j real within in
      elim (Bool-cases out.stored.forward) [
        | inr f ↦ rw f (
            done (
              Collected_witness g node first (Inner i j) (Inner i (j + 1)) notes.inserted_edges c
                (λ m n p in_m out_n. elim (Inner-next i j m n p) [
                  | inl p' ↦ inl p'
                  | inr (x, y) ↦ let z : out.stored.forward ≡ true = rw (← y) out_n.1 in cc
                ])))
        | inl f ↦
            let (e, found) = s.keeps out.target (j, within, within.1, f, refl) in
            let answers = (queries_correct out.target heap).0 e found in
            rw (f, answers.weight)
              (elim (Bool-cases (ltb (path_distance a out.stored) e.weight)) [
                | inl l ↦ rw l (
                    done (
                      note_shortcut-Collected g node first (Inner i j) (Inner i (j + 1)) i j
                        notes.inserted_edges in_i (within, f) (omega (arith, short_a, short_b)) c
                        (Inner-next i j)))
                | inr l ↦
                    let near : e.weight ≤ origin + (a.distance + out.stored.distance) =
                      ground (arith, l, short_a, short_b) in
                    let witness : Witnessed g node (edge_at g node i).target out.target
                        (a.distance + out.stored.distance) =
                      elim (s.records out.target e found) [
                        | inl (w, walk, at) ↦ (w, walk, omega (arith, at, near))
                        | inr far ↦ absurd (omega (arith, far, near, short_a, short_b))
                      ] in
                    rw l (
                      done (
                        Collected_witness g node first (Inner i j) (Inner i (j + 1))
                          notes.inserted_edges c
                          (λ m n p in_m out_n. elim (Inner-next i j m n p) [
                            | inl p' ↦ inl p'
                            | inr (x, y) ↦ rw (x, y) (inr witness)
                          ])))
              ])
      ]

  -- The timestamp leaves room for a Clear for each edge from `i` on.
  unfoldable pub Timely : ℕ → Contraction → Type 0
  Timely i c = c.timestamp + (end - i) < unsigned_max

  pub contract_in_edge_lem :
      (i : ℕ) (c : Contraction)
      → Within (g.node_list.at node) i
      → Timely i c
      → Collected g node first (Outer i) c.notes.inserted_edges
      → Returns
          (λ c'. Timely (i + 1) c' × Collected g node first (Outer (i + 1)) c'.notes.inserted_edges)
          (contract_in_edge false node g (edge_at g node i) c)
  unfolding contract_in_edge Timely
  contract_in_edge_lem i c within timely h =
      let source = (edge_at g node i).target in
      let a = (edge_at g node i).stored in
      let n = g.node_list.at node in
      elim (Bool-cases a.backward) [
        | inr f ↦ rw f (
            done (
              omega (arith, timely),
              Collected_witness g node first (Outer i) (Outer (i + 1)) c.notes.inserted_edges h
                  (λ m k p in_m out_k. elim (Bool-cases (m == i)) [
                    | inl y ↦
                        let z : m ≡ i = ground (arith, y) in
                        let x : a.backward ≡ true = rw (← z) in_m.1 in cc
                    | inr y ↦ inl (ground (arith, y, p))
                  ]),
            ))
        | inl f ↦
            let short_a : a.distance < 2 ^ 29 = road.short node i real within in
            let go = clear_heap_lem c.timestamp c.heap (omega (arith, timely, within.1)) in
            rw (f, go)
              (Returns->>=
                (source_lem g road node real source c.heap (road.targets node i real within))
                (λ h₁ r₁.
                  Returns->>=
                    (targets_lem g road node real source a
                      (record { heap = h₁; max_distance = origin; number_of_targets = 0 }) short_a
                      r₁)
                    (λ t (s, near).
                      Returns->>=
                        (dijkstra_lem g source node (Targeted g road node real end) 2000
                          t.max_distance t.number_of_targets 0 origin t.heap road near s)
                        (λ heap s'.
                          Returns->>=
                            (for_adjacent_lem (add_shortcut false node source a heap)
                              (λ e n. Collected g node first (Inner i e) n.inserted_edges) node g
                              c.notes real (road.inside node real)
                              (add_shortcut_lem i heap (within, f) s')
                              (Collected_witness g node first (Outer i) (Inner i n.first_edge)
                                c.notes.inserted_edges h
                                (λ m k p in_m out_k. elim p [
                                  | inl x ↦ inl x
                                  | inr (x, y) ↦ absurd (omega (arith, y, out_k.0.0))
                                ])))
                            (λ notes c'. done (
                              omega (arith, timely, within.1),
                              Collected_witness g node first (Inner i end) (Outer (i + 1))
                                  notes.inserted_edges c'
                                  (λ m k p in_m out_k. elim (Bool-cases (m == i)) [
                                    | inl y ↦ inl (inr (ground (arith, y), out_k.0.1))
                                    | inr y ↦ inl (inl (ground (arith, y, p)))
                                  ]),
                            ))))))
      ]
