-- ===== src/Contractor/Contractor/WitnessSearch/Relax.antt =====
-- Relaxing the edges of a settled node keeps what the heap records true.
use osrm_backend.Prelude.{
  ℕ, zero, suc, ◌+◌, ◌-◌, ◌%◌, ◌^◌, ◌≤◌, ◌<◌, ◌≡◌, ◌≢◌, ◌⊎◌, inl, inr, refl, ◌∙◌, true, false, some,
  arith, ◌==◌, if◌then◌else◌, Returns, done, Returns-weaken, Returns->>=, Bool-cases, Option-cases,
  ltb, ◌>>=◌,
}
use mathlib.Core.Path.{subst}
use osrm_backend.DataStructures.DynamicGraph.{DynamicGraph}
use osrm_backend.DataStructures.DynamicGraph.Slices.{Within}
use osrm_backend.DataStructures.BinaryHeap.{
  BinaryHeap, get_data, was_inserted, set_data, decrease_key,
}
use osrm_backend.DataStructures.BinaryHeap.Invariant.{IsValid}
use osrm_backend.DataStructures.BinaryHeap.Entries.{Entry, lookup}
use osrm_backend.DataStructures.BinaryHeap.Decrease.{decrease_key_correct}
use osrm_backend.DataStructures.BinaryHeap.SetData.{set_data_lem}
use osrm_backend.DataStructures.BinaryHeap.Queries.{queries_correct}
use osrm_backend.Contractor.Contractor.Index.{insert_new_lem}
use osrm_backend.Contractor.Contractor.{ContractorEdgeData, ContractorHeapData, origin}
use osrm_backend.Contractor.Contractor.WitnessSearch.{relax, relax_edges, expand}
use osrm_backend.Contractor.Contractor.WitnessSearch.Walks.{
  NodeGraph, Walk, onward, Records, Searches,
}

-- A node is recorded anew; all other entries stay.
pub added-Searches :
    (g : DynamicGraph ContractorEdgeData) (source middle : ℕ) (kept kept' : ℕ → Type 0)
    (to d weight : ℕ) (x : ContractorHeapData) (h h' : BinaryHeap ContractorHeapData)
    → Searches g source middle kept d h
    → ((m : ℕ) → kept' m → (m ≡ to) ⊎ kept m)
    → Records g source middle to weight
    → d ≤ weight
    → to < g.node_list.size
    → IsValid h'
    → ((m : ℕ)
        → lookup m h' ≡ (
            if m == to
            then some (record { weight = weight; stored = x; removed = false })
            else lookup m h))
    → Searches g source middle kept' d h'
added-Searches g source middle kept kept' to d weight x h h' s wider rec far real v entries =
    record {
      valid = v;
      exists = λ m e q. elim (Bool-cases (m == to)) [
        | inl y ↦ ground (arith, real)
        | inr y ↦ s.exists m e (ground (arith, entries m, y))
      ];
      records = λ m e q. elim (Bool-cases (m == to)) [
        | inl y ↦
            let z : m ≡ to = ground arith in
            let w : weight ≡ e.weight = ground (arith, entries m, y, q) in
            subst (Records g source middle m) w (rw z rec)
        | inr y ↦ s.records m e (ground (arith, entries m, y))
      ];
      low = λ m e q r. elim (Bool-cases (m == to)) [
        | inl y ↦ ground (arith, entries m, y, q)
        | inr y ↦ s.low m e (ground (arith, entries m, y)) r
      ];
      high = λ m e q r. elim (Bool-cases (m == to)) [
        | inl y ↦ ground (arith, entries m, y, q)
        | inr y ↦ s.high m e (ground (arith, entries m, y)) r
      ];
      keeps = λ m k. elim (wider m k) [
        | inl z ↦ (
          record { weight = weight; stored = x; removed = false },
          entries m ∙ rw z (ground arith),
        )
        | inr k' ↦ elim (Bool-cases (m == to)) [
          | inl y ↦ (record { weight = weight; stored = x; removed = false }, entries m ∙ rw y refl)
          | inr y ↦ let (e, found) = s.keeps m k' in (e, entries m ∙ rw y found)
        ]
      ];
    }

module _ (g : DynamicGraph ContractorEdgeData) (road : NodeGraph g) (source middle : ℕ)
    (kept : ℕ → Type 0) where
  -- DecreaseKey and then the hop.
  improved :
      (to weight hop : ℕ) (h : BinaryHeap ContractorHeapData) (e : Entry ContractorHeapData)
      → IsValid h
      → to ≢ 2 ^ 32 - 1
      → lookup to h ≡ some e
      → e.removed ≡ false
      → weight ≤ e.weight
      → Returns
          (λ h'.
            IsValid h'
            × ((m : ℕ)
                → lookup m h' ≡ (
                    if m == to
                    then some (record {
                      weight = weight;
                      stored = record (e.stored) { hop = hop };
                      removed = false;
                    })
                    else lookup m h)))
          (decrease_key to weight h >>= λ h₁.
            get_data to h₁ >>= λ d. set_data to (record d { hop = hop }) h₁)
  improved to weight hop h e v real found waits less =
      Returns->>= (decrease_key_correct to weight e.weight v (e, found, refl, waits) less real)
        (λ h₁ r.
          let here : lookup to h₁ ≡ some (record e { weight = weight }) =
            ground (arith, r.entries to, found) in
          let d : get_data to h₁ ≡ some e.stored =
            ((queries_correct to h₁).0 (record e { weight = weight }) here).stored in
          rw d (
            Returns-weaken
              (set_data_lem to (record (e.stored) { hop = hop }) h₁ (record e { weight = weight })
                r.valid here)
              (λ h₂ s. (s.valid, λ m. ground (arith, s.entries m, r.entries m, found, waits)))))

  relax_lem :
      (node d w hop j : ℕ) (h : BinaryHeap ContractorHeapData)
      → node < g.node_list.size
      → Within (g.node_list.at node) j
      → Walk g source middle node w
      → d ≡ origin + w
      → w < 2 ^ 30
      → Searches g source middle kept d h
      → Returns (Searches g source middle kept d) (relax middle d hop (g.edge_list.at j) h)
  unfolding relax
  relax_lem node d w hop j h real within walk at_d near s =
      let edge = g.edge_list.at j in
      let to = edge.target in
      let c = edge.stored.distance in
      let short : c < 2 ^ 29 = road.short node j real within in
      let exact : (d + c) % 2 ^ 32 ≡ origin + (w + c) = omega (arith, short, near, at_d) in
      let to_lt : to < g.node_list.size = road.targets node j real within in
      let far : d ≤ origin + (w + c) = omega (arith, at_d) in
      elim (Bool-cases edge.stored.forward) [
        | inr f ↦ rw f (done s)
        | inl f ↦ elim (Bool-cases (middle == to)) [
          | inl y ↦ rw (f, y) (done s)
          | inr y ↦
              let walk' : Walk g source middle to (w + c) =
                onward walk
                  (record { edge = j; within = within; leads = refl; flagged = f; weighs = refl })
                  (ground (arith, y)) in
              elim (Option-cases (lookup to h)) [
                | inl n ↦
                    let fresh : was_inserted to h ≡ false = (queries_correct to h).1 n in
                    rw (f, y, fresh, exact)
                      (Returns-weaken
                        (insert_new_lem g.node_list.size to (origin + (w + c))
                          (record { hop = hop; target = false }) s.valid s.exists road.few fresh)
                        (λ h' i.
                          added-Searches g source middle kept kept to d (origin + (w + c))
                            (record { hop = hop; target = false }) h h' s (λ m k. inr k)
                            (inl (w + c, walk', refl)) far to_lt i.valid i.entries))
                | inr (e, found) ↦
                    let answers = (queries_correct to h).0 e found in
                    elim (Bool-cases (ltb (origin + (w + c)) e.weight)) [
                      | inr l ↦ rw (f, y, answers.inserted, answers.weight, exact, l) (done s)
                      | inl l ↦
                          let less : origin + (w + c) < e.weight = ground (arith, l) in
                          let waits : e.removed ≡ false = elim (Bool-cases e.removed) [
                            | inl r ↦ absurd (omega (arith, s.low to e found r, less, far))
                            | inr r ↦ r
                          ] in
                          rw (f, y, answers.inserted, answers.weight, exact, l)
                            (Returns-weaken
                              (improved to (origin + (w + c)) hop h e s.valid
                                (λ z. absurd (omega (arith, z, to_lt, road.few))) found waits
                                (omega (arith, less)))
                              (λ h' r.
                                added-Searches g source middle kept kept to d (origin + (w + c))
                                  (record (e.stored) { hop = hop }) h h' s (λ m k. inr k)
                                  (inl (w + c, walk', refl)) far to_lt r.0 r.1))
                    ]
              ]
        ]
      ]

  relax_edges_lem :
      (n node d w hop j : ℕ) (h : BinaryHeap ContractorHeapData)
      → node < g.node_list.size
      → (g.node_list.at node).first_edge ≤ j
      → j + n ≤ (g.node_list.at node).first_edge + (g.node_list.at node).edges
      → Walk g source middle node w
      → d ≡ origin + w
      → w < 2 ^ 30
      → Searches g source middle kept d h
      → Returns (Searches g source middle kept d) (relax_edges n j middle d hop g.edge_list h)
  unfolding relax_edges
  relax_edges_lem zero node d w hop j h real first end walk at_d near s = done s
  relax_edges_lem (suc n) node d w hop j h real first end walk at_d near s =
      let a : ltb j g.edge_list.size ≡ true = ground (arith, road.inside node real, end) in
      rw a (
        Returns->>= (relax_lem node d w hop j h real (first, omega (arith, end)) walk at_d near s)
          (λ h' s'.
            relax_edges_lem n node d w hop (j + 1) h' real (omega (arith, first))
              (omega (arith, end)) walk at_d near s'))

  pub expand_lem :
      (node d w hop : ℕ) (h : BinaryHeap ContractorHeapData)
      → node < g.node_list.size
      → Walk g source middle node w
      → d ≡ origin + w
      → w < 2 ^ 30
      → Searches g source middle kept d h
      → Returns (Searches g source middle kept d) (expand node middle d hop g h)
  unfolding expand
  expand_lem node d w hop h real walk at_d near s =
      let a : ltb node g.node_list.size ≡ true = ground (arith, real) in
      let n = g.node_list.at node in
      rw a (
        relax_edges_lem n.edges node d w hop n.first_edge h real (omega arith) (omega arith) walk
          at_d near s)
