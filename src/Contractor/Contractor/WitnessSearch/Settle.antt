-- ===== src/Contractor/Contractor/WitnessSearch/Settle.antt =====
-- The rounds of the witness search.
use osrm_backend.Prelude.{
  ℕ, zero, suc, ◌+◌, ◌%◌, ◌^◌, ◌≤◌, ◌<◌, ◌≡◌, inl, inr, refl, sym, Bool, true, false, ◌&&◌, ◌||◌,
  Option, none, some, arith, ◌==◌, if◌then◌else◌, Returns, done, Returns->>=, Bool-cases, ltb, leb,
}
use mathlib.Core.Path.{subst}
use osrm_backend.DataStructures.DynamicGraph.{DynamicGraph}
use osrm_backend.DataStructures.BinaryHeap.{BinaryHeap}
use osrm_backend.DataStructures.BinaryHeap.Invariant.{IsValid, wt}
use osrm_backend.DataStructures.BinaryHeap.Entries.{Entry, lookup}
use osrm_backend.DataStructures.BinaryHeap.Remove.{Removed, mark_removed, delete_min_correct}
use osrm_backend.DataStructures.BinaryHeap.Queries.{queries_correct}
use osrm_backend.Contractor.Contractor.{ContractorEdgeData, ContractorHeapData, origin}
use osrm_backend.Contractor.Contractor.WitnessSearch.{dijkstra}
use osrm_backend.Contractor.Contractor.WitnessSearch.Walks.{NodeGraph, Records, Searches}
use osrm_backend.Contractor.Contractor.WitnessSearch.Relax.{expand_lem}

mark_removed-some :
    {D : Type 0} (o : Option (Entry D)) (e : Entry D)
    → mark_removed o ≡ some e
    → (e' : Entry D) × (o ≡ some e') × (e'.weight ≡ e.weight)
mark_removed-some none e h = cc
mark_removed-some (some e') e h = (e', refl, ground arith)

-- What the test of a round says when the search goes on.
going : (a b : ℕ) (c : Bool) → (ltb a b || c) ≡ false → b ≤ a
going a b c z = ground arith

module _ (g : DynamicGraph ContractorEdgeData) (source middle : ℕ) (kept : ℕ → Type 0) where
  -- The heap when the search is over.
  pub record Searched (h : BinaryHeap ContractorHeapData) : Type 0 where
    pub valid : IsValid h
    pub records :
        (m : ℕ) (e : Entry ContractorHeapData)
        → lookup m h ≡ some e
        → Records g source middle m e.weight
    pub keeps : (m : ℕ) → kept m → (e : Entry ContractorHeapData) × (lookup m h ≡ some e)

  Searches-Searched :
      (d : ℕ) (h : BinaryHeap ContractorHeapData) → Searches g source middle kept d h → Searched h
  Searches-Searched d h s = record { valid = s.valid; records = s.records; keeps = s.keeps }

  Removed-Searches :
      (d : ℕ) (h : BinaryHeap ContractorHeapData) (p : ℕ × BinaryHeap ContractorHeapData)
      → Searches g source middle kept d h
      → Removed h p
      → Searches g source middle kept (wt h 1) p.1
        × ((e : Entry ContractorHeapData) × (lookup p.0 p.1 ≡ some e) × (e.weight ≡ wt h 1))
  Removed-Searches d h p s r =
      let (e₀, found, weight, waits) = r.waited in
      let level : d ≤ wt h 1 = omega (arith, s.high p.0 e₀ found waits, weight) in
      (
        record {
          valid = r.valid;
          exists = λ m e q. let (e', o, w) = before m e q in s.exists m e' o;
          records = λ m e q.
              let (e', o, w) = before m e q in
              subst (Records g source middle m) w (s.records m e' o);
          low = λ m e q y. elim (Bool-cases (m == p.0)) [
            | inl z ↦ ground (arith, r.entries m, q, z, found, weight)
            | inr z ↦ omega (arith, s.low m e (ground (arith, r.entries m, z)) y, level)
          ];
          high = λ m e q y. elim (Bool-cases (m == p.0)) [
            | inl z ↦ ground (arith, r.entries m, q, z, found, y)
            | inr z ↦ r.least m e.weight (e, ground (arith, r.entries m, z), refl, y)
          ];
          keeps = λ m k.
              let (e, o) = s.keeps m k in
              elim (Bool-cases (m == p.0)) [
                | inl z ↦ (record e { removed = true }, ground (arith, r.entries m, z, o))
                | inr z ↦ (e, ground (arith, r.entries m, z, o))
              ];
        },
        (record e₀ { removed = true }, ground (arith, r.entries p.0, found), weight),
      )
    where
      before :
          (m : ℕ) (e : Entry ContractorHeapData)
          → lookup m p.1 ≡ some e
          → (e' : Entry ContractorHeapData) × (lookup m h ≡ some e') × (e'.weight ≡ e.weight)
      before m e q = elim (Bool-cases (m == p.0)) [
        | inl z ↦ mark_removed-some (lookup m h) e (ground (arith, r.entries m, z))
        | inr z ↦ (e, ground (arith, r.entries m, z), refl)
      ]

  -- The search ends, and its heap records walks around the middle.
  pub dijkstra_lem :
      (left max_distance number_of_targets found d : ℕ) (h : BinaryHeap ContractorHeapData)
      → NodeGraph g
      → max_distance < origin + 2 ^ 30
      → Searches g source middle kept d h
      → Returns Searched (dijkstra left max_distance number_of_targets found middle g h)
  unfolding dijkstra
  dijkstra_lem zero max_distance number_of_targets found d h road near s =
      elim (Bool-cases (leb h.heap.size 1)) [
        | inl y ↦ rw y (done (Searches-Searched d h s))
        | inr y ↦ rw y (
            Returns->>= (delete_min_correct s.valid (ground (arith, y))) (λ p r.
              let (s', (e, here, weight)) = Removed-Searches d h p s r in
              let answers = (queries_correct p.0 p.1).0 e here in
              rw (answers.weight, answers.stored) (done (Searches-Searched (wt h 1) p.1 s'))))
      ]
  dijkstra_lem (suc left) max_distance number_of_targets found d h road near s =
      elim (Bool-cases (leb h.heap.size 1)) [
        | inl y ↦ rw y (done (Searches-Searched d h s))
        | inr y ↦ rw y (
            Returns->>= (delete_min_correct s.valid (ground (arith, y))) (λ p r.
              let (s', (e, here, weight)) = Removed-Searches d h p s r in
              let answers = (queries_correct p.0 p.1).0 e here in
              let found' = if e.stored.target then found + 1 else found in
              let stop =
                ltb max_distance e.weight || (e.stored.target && leb number_of_targets found') in
              let real = s'.exists p.0 e here in
              rw (answers.weight, answers.stored)
                (elim (Bool-cases stop) [
                  | inl z ↦ rw z (done (Searches-Searched (wt h 1) p.1 s'))
                  | inr z ↦ rw z (elim (s'.records p.0 e here) [
                    | inr far ↦ absurd (omega (arith, near, far, (going max_distance e.weight _ z)))
                    | inl (w, walk, at) ↦
                        let by : wt h 1 ≡ e.weight = sym weight in
                        Returns->>=
                          (expand_lem g road source middle kept p.0 e.weight w
                            ((e.stored.hop + 1) % 2 ^ 16) p.1 real walk at
                            (omega (arith, near, at, (going max_distance e.weight _ z)))
                            (subst (λ x. Searches g source middle kept x p.1) by s'))
                          (λ h' s''.
                            dijkstra_lem left max_distance number_of_targets found' e.weight h' road
                              near s'')
                  ])
                ])))
      ]
