-- ===== src/Contractor/Contractor/ContractNode/AddTargets.antt =====
-- The heap that the witness search of an incoming edge starts with.
use Prim.Native.Nat.{max}
use osrm_backend.Prelude.{
  ℕ, ◌+◌, ◌^◌, ◌<◌, ◌≡◌, ◌⊎◌, inl, inr, refl, sym, true, false, some, arith, ◌==◌, Returns, done,
  Returns-weaken, Returns->>=, Bool-cases, Option-cases,
}
use osrm_backend.DataStructures.DynamicGraph.{DynamicGraph}
use osrm_backend.DataStructures.DynamicGraph.Slices.{Within}
use osrm_backend.DataStructures.BinaryHeap.{BinaryHeap, clear, was_inserted}
use osrm_backend.DataStructures.BinaryHeap.Entries.{Entry, lookup}
use osrm_backend.DataStructures.BinaryHeap.Queries.{queries_correct, clear_correct}
use osrm_backend.Contractor.Contractor.Index.{insert_new, insert_new_lem}
use osrm_backend.Contractor.Contractor.{ContractorEdgeData, ContractorHeapData, origin, int_max}
use osrm_backend.Contractor.Contractor.Edges.{for_adjacent, for_adjacent_lem}
use osrm_backend.Contractor.Contractor.WitnessSearch.Walks.{NodeGraph, start, Searches}
use osrm_backend.Contractor.Contractor.WitnessSearch.Relax.{added-Searches}
use osrm_backend.Contractor.Contractor.ContractNode.{Targets, add_target, path_distance}

-- Other nodes that are known to have an entry.
Searches-rekeep :
    (g : DynamicGraph ContractorEdgeData) (source middle : ℕ) (kept kept' : ℕ → Type 0) (d : ℕ)
    (h : BinaryHeap ContractorHeapData)
    → Searches g source middle kept d h
    → ((m : ℕ) → kept' m → (e : Entry ContractorHeapData) × (lookup m h ≡ some e))
    → Searches g source middle kept' d h
Searches-rekeep g source middle kept kept' d h s k = record {
  valid = s.valid;
  exists = s.exists;
  records = s.records;
  low = s.low;
  high = s.high;
  keeps = k;
}

module _ (g : DynamicGraph ContractorEdgeData) (road : NodeGraph g) (node : ℕ)
    (real : node < g.node_list.size) where
  -- The node is the target of an outgoing edge before the edge `e`.
  abbrev pub Targeted : ℕ → ℕ → Type 0
  Targeted e m =
      (j : ℕ) × Within (g.node_list.at node) j
      × (j < e)
      × ((g.edge_list.at j).stored.forward ≡ true)
      × ((g.edge_list.at j).target ≡ m)

  Targeted-next :
      (e m : ℕ)
      → Targeted (e + 1) m
      → ((g.edge_list.at e).stored.forward ≡ true) × ((g.edge_list.at e).target ≡ m) ⊎ Targeted e m
  Targeted-next e m (j, w, l, f, t) = elim (Bool-cases (j == e)) [
    | inl y ↦ let z : j ≡ e = ground (arith, y) in inl (rw (← z) f, rw (← z) t)
    | inr y ↦ inr (j, w, ground (arith, y, l), f, t)
  ]

  -- The heap is ready for the targets before the edge `e`.
  abbrev pub Ready : ℕ → ℕ → Targets → Type 0
  Ready source e t =
      Searches g source node (Targeted e) origin t.heap × (t.max_distance < origin + 2 ^ 30)

  add_target_lem :
      (source : ℕ) (in_data : ContractorEdgeData)
      → in_data.distance < 2 ^ 29
      → (j : ℕ) (t : Targets) → Within (g.node_list.at node) j
      → Ready source j t
      → Returns (Ready source (j + 1)) (add_target in_data (g.edge_list.at j) t)
  unfolding add_target
  add_target_lem source in_data short j t within (s, near) =
      let out = g.edge_list.at j in
      let c : out.stored.distance < 2 ^ 29 = road.short node j real within in
      let near' : max t.max_distance (path_distance in_data out.stored) < origin + 2 ^ 30 =
        omega (arith, near, c, short) in
      elim (Bool-cases out.stored.forward) [
        | inr f ↦ rw f (
            done (
              Searches-rekeep g source node (Targeted j) (Targeted (j + 1)) origin t.heap s
                  (λ m k. elim (Targeted-next j m k) [ inl (a, b) ↦ cc | inr k' ↦ s.keeps m k' ]),
              near,
            ))
        | inl f ↦ elim (Option-cases (lookup out.target t.heap)) [
          | inr (e, found) ↦
              let known = ((queries_correct out.target t.heap).0 e found).inserted in
              rw (f, known)
                (done (
                  Searches-rekeep g source node (Targeted j) (Targeted (j + 1)) origin t.heap s
                      (λ m k. elim (Targeted-next j m k) [
                        | inl (a, b) ↦ (e, rw (← b) found)
                        | inr k' ↦ s.keeps m k'
                      ]),
                  near',
                ))
          | inl n ↦
              let fresh : was_inserted out.target t.heap ≡ false =
                (queries_correct out.target t.heap).1 n in
              rw (f, fresh)
                (Returns->>=
                  (insert_new_lem g.node_list.size out.target int_max
                    (record { hop = 0; target = true }) s.valid s.exists road.few fresh)
                  (λ h' i. done (
                    added-Searches g source node (Targeted j) (Targeted (j + 1)) out.target origin
                        int_max (record { hop = 0; target = true }) t.heap h' s
                        (λ m k. elim (Targeted-next j m k) [
                          | inl (a, b) ↦ inl (sym b)
                          | inr k' ↦ inr k'
                        ])
                        (inr refl) (omega arith) (road.targets node j real within) i.valid
                        i.entries,
                    near',
                  )))
        ]
      ]

  -- Clear, and the insertion of the source.
  pub source_lem :
      (source : ℕ) (h : BinaryHeap ContractorHeapData)
      → source < g.node_list.size
      → Returns
          (λ h₁.
            Ready source
              (g.node_list.at node).first_edge
              (record { heap = h₁; max_distance = origin; number_of_targets = 0 }))
          (insert_new source origin (record { hop = 0; target = false }) (clear h))
  source_lem source h source_lt =
      let (valid, empty) = clear_correct h in
      let fresh : was_inserted source (clear h) ≡ false =
        (queries_correct source (clear h)).1 (empty source) in
      let nothing : Searches g source node (λ m. ⊥) origin (clear h) = record {
        valid = valid;
        exists = λ m e q. cc (empty m);
        records = λ m e q. cc (empty m);
        low = λ m e q. cc (empty m);
        high = λ m e q. cc (empty m);
        keeps = λ m k. absurd k;
      } in
      Returns-weaken
        (insert_new_lem g.node_list.size source origin (record { hop = 0; target = false }) valid
          nothing.exists road.few fresh)
        (λ h₁ i. (
          added-Searches g source node (λ m. ⊥) (Targeted (g.node_list.at node).first_edge) source
              origin origin (record { hop = 0; target = false }) (clear h) h₁ nothing
              (λ m (j, w, l, f, t). absurd (omega (arith, w.0, l))) (inl (0, start, omega arith))
              (omega arith) source_lt i.valid i.entries,
          omega arith,
        ))

  pub targets_lem :
      (source : ℕ) (in_data : ContractorEdgeData) (t : Targets)
      → in_data.distance < 2 ^ 29
      → Ready source (g.node_list.at node).first_edge t
      → Returns
          (Ready source ((g.node_list.at node).first_edge + (g.node_list.at node).edges))
          (for_adjacent (add_target in_data) node g t)
  targets_lem source in_data t short r =
      for_adjacent_lem (add_target in_data) (Ready source) node g t real (road.inside node real)
        (add_target_lem source in_data short) r
