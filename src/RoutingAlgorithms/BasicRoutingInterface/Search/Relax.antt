-- ===== src/RoutingAlgorithms/BasicRoutingInterface/Search/Relax.antt =====
-- Relaxing the edges of the node that the search has just removed.
use osrm_backend.Prelude.{
  ℕ, zero, suc, ◌+◌, ◌-◌, ◌^◌, ◌≤◌, ◌<◌, ◌≡◌, ◌≢◌, inl, inr, refl, ◌∙◌, sym, ap, Bool, true, false,
  some, arith, ◌==◌, if◌then◌else◌, Returns, done, Returns-weaken, Returns->>=, Bool-cases,
  Option-cases, ltb, ◌>>=◌,
}
use osrm_backend.Prelude.Int.{pos}
use mathlib.Core.Path.{subst}
use osrm_backend.DataStructures.StaticGraph.{StaticGraph}
use osrm_backend.DataStructures.BinaryHeap.{BinaryHeap, set_data, decrease_key}
use osrm_backend.DataStructures.BinaryHeap.Invariant.{IsValid}
use osrm_backend.DataStructures.BinaryHeap.Entries.{Entry, lookup}
use osrm_backend.DataStructures.BinaryHeap.Insert.{insert_correct}
use osrm_backend.DataStructures.BinaryHeap.Decrease.{decrease_key_correct}
use osrm_backend.DataStructures.BinaryHeap.SetData.{set_data_lem}
use osrm_backend.RoutingAlgorithms.BasicRoutingInterface.{EdgeData}
use osrm_backend.RoutingAlgorithms.BasicRoutingInterface.Search.{
  HeapData, in_range, direction_flag, relax, relax_edges,
}
use osrm_backend.RoutingAlgorithms.BasicRoutingInterface.Search.Tracks.{
  RoadGraph, Leads, Within, NoFurther, walk, HasParent, Tracks, KeepsRemoved, HasParent-keep,
  edge_weight-pos, get_key-lookup, was_inserted-lookup, was_inserted-none,
}

module _ (g : StaticGraph EdgeData) (dir : Bool) (start : ℕ → ℕ → Type 0) (road : RoadGraph g)
    (node d : ℕ) where
  -- The node is removed, at the distance that the search has come to.
  abbrev pub Settled : BinaryHeap HeapData → Type 0
  Settled h = (p : Entry HeapData) × (lookup node h ≡ some p) × (p.removed ≡ true) × (p.weight ≡ d)

  -- The heap when the `k` edges from `edge` on are relaxed.
  pub record Relaxed (edge k : ℕ) (h h' : BinaryHeap HeapData) : Type 0 where
    pub tracks : Tracks g dir start d h'
    pub settled : Settled h'
    pub keeps : KeepsRemoved h h'
    pub no_further : NoFurther h h'
    pub reached :
        (v c : ℕ) (l : Leads g dir node v c)
        → edge ≤ l.edge
        → l.edge < edge + k
        → Within h' v (d + c)
    pub size_le : h'.heap.size ≤ h.heap.size + k

  -- The entry of a node that is reached over an edge of weight `c`.
  abbrev reached_entry : ℕ → Entry HeapData
  reached_entry c = record { weight = d + c; stored = record { parent = node }; removed = false }

  -- The only edge from `j` to `j + 1` is `j`.
  only :
      (j c : ℕ) (h : BinaryHeap HeapData)
      → (g.edge_array.at j).stored.distance ≡ pos c
      → Within h (g.edge_array.at j).target (d + c)
      → (v c' : ℕ) (l : Leads g dir node v c') → j ≤ l.edge
      → l.edge < j + 1
      → Within h v (d + c')
  only j c h weighs w v c' l p q =
      let z : l.edge ≡ j = omega arith in
      let y : v ≡ (g.edge_array.at j).target =
        sym l.leads ∙ ap (λ x. (g.edge_array.at x).target) z in
      let x : pos c' ≡ pos c =
        sym l.weighs ∙ ap (λ x. (g.edge_array.at x).stored.distance) z ∙ weighs in
      let u : c' ≡ c = cc in rw (y, u) w

  added-Relaxed :
      (j c : ℕ) (h h' : BinaryHeap HeapData)
      → Tracks g dir start d h
      → Settled h
      → Leads g dir node (g.edge_array.at j).target c
      → (g.edge_array.at j).stored.distance ≡ pos c
      → 0 < c
      → (g.edge_array.at j).target + 1 < g.node_array.size
      → ((e : Entry HeapData)
          → lookup (g.edge_array.at j).target h ≡ some e
          → (e.removed ≡ false) × (d + c < e.weight))
      → IsValid h'
      → ((m : ℕ)
          → lookup m h'
            ≡ (if m == (g.edge_array.at j).target then some (reached_entry c) else lookup m h))
      → h'.heap.size ≤ h.heap.size + 1
      → Relaxed j 1 h h'
  added-Relaxed j c h h' t s leads weighs positive real waits v entries size =
      let to = (g.edge_array.at j).target in
      let (p, found, removed, weight) = s in
      let keep : KeepsRemoved h h' = λ m e q r. elim (Bool-cases (m == to)) [
        | inl y ↦
            let z : m ≡ to = ground arith in
            let w = (waits e (subst (λ x. lookup x h ≡ some e) z q)).0 in cc
        | inr y ↦ entries m ∙ rw y q
      ] in
      record {
        tracks = record {
          valid = v;
          exists = λ m e q. elim (Bool-cases (m == to)) [
            | inl y ↦ ground (arith, real)
            | inr y ↦ t.exists m e (ground (arith, entries m, y))
          ];
          walks = λ m e q. elim (Bool-cases (m == to)) [
            | inl y ↦
                let z : m ≡ to = ground arith in
                let w : e.weight ≡ d + c = ground (arith, entries m, y, q) in
                rw (z, w) (walk (rw (← weight) (t.walks node p found)) leads)
            | inr y ↦ t.walks m e (ground (arith, entries m, y))
          ];
          low = λ m e q r. elim (Bool-cases (m == to)) [
            | inl y ↦ ground (arith, entries m, y, q)
            | inr y ↦ t.low m e (ground (arith, entries m, y)) r
          ];
          high = λ m e q r. elim (Bool-cases (m == to)) [
            | inl y ↦ ground (arith, entries m, y, q)
            | inr y ↦ t.high m e (ground (arith, entries m, y)) r
          ];
          tree = λ m e q. elim (Bool-cases (m == to)) [
            | inl y ↦
                let z : m ≡ to = ground arith in
                let new : reached_entry c ≡ e = ground (arith, entries m, y, q) in
                subst (λ x. HasParent g dir start h' m x) new
                  (inr (
                    p,
                    c,
                    keep node p found removed,
                    removed,
                    subst (λ x. Leads g dir node x c) (sym z) leads,
                    positive,
                    ground (arith, weight),
                  ))
            | inr y ↦
                HasParent-keep g dir start h h' m e keep (t.tree m e (ground (arith, entries m, y)))
          ];
        };
        settled = (p, keep node p found removed, removed, weight);
        keeps = keep;
        no_further = λ m w (e, q, le). elim (Bool-cases (m == to)) [
          | inl y ↦
              let z : m ≡ to = ground arith in
              let less = (waits e (subst (λ x. lookup x h ≡ some e) z q)).1 in
              (reached_entry c, ground (arith, entries m, y), omega (arith, less, le))
          | inr y ↦ (e, entries m ∙ rw y q, le)
        ];
        reached = only j c h' weighs (reached_entry c, ground (arith, entries to), omega arith);
        size_le = size;
      }

  -- A node that is reached for less than it was: its data and its weight are written.
  improved :
      (to c : ℕ) (h : BinaryHeap HeapData) (e : Entry HeapData)
      → Tracks g dir start d h
      → to ≢ 2 ^ 32 - 1
      → lookup to h ≡ some e
      → e.removed ≡ false
      → d + c < e.weight
      → Returns
          (λ h'.
            IsValid h'
            × ((m : ℕ) → lookup m h' ≡ (if m == to then some (reached_entry c) else lookup m h))
            × (h'.heap.size ≡ h.heap.size))
          (set_data to (record { parent = node }) h >>= λ h₁. decrease_key to (d + c) h₁)
  improved to c h e t real found waits less =
      Returns->>= (set_data_lem to (record { parent = node }) h e t.valid found) (λ h₁ s.
        let here : lookup to h₁ ≡ some (record e { stored = record { parent = node } }) =
          ground (arith, s.entries to, found) in
        Returns-weaken
          (decrease_key_correct to (d + c) e.weight s.valid
            (record e { stored = record { parent = node } }, here, refl, waits)
            (omega (arith, less)) real)
          (λ h₂ r. (
            r.valid,
            (λ m. ground (arith, r.entries m, s.entries m, found, waits)),
            r.same_size ∙ ap (λ a. a.size) s.same_heap,
          )))

  relax_lem :
      (j : ℕ) (h : BinaryHeap HeapData)
      → g.node_array.at node ≤ j
      → j < g.node_array.at (node + 1)
      → j < g.edge_array.size
      → Tracks g dir start d h
      → Settled h
      → h.heap.size + 1 < 2 ^ 31
      → d < 2 ^ 31 + 2 ^ 30
      → Returns (Relaxed j 1 h) (relax node d dir (g.edge_array.at j) h)
  unfolding relax
  relax_lem j h first end inside t s room far =
      let entry = g.edge_array.at j in
      let to = entry.target in
      let (c, weighs, positive, short) = road.positive j inside in
      let target_lt = road.targets j inside in
      let same : ((v c' : ℕ) (l : Leads g dir node v c')
            → j ≤ l.edge
            → l.edge < j + 1
            → Within h v (d + c'))
          → Relaxed j 1 h h =
        λ near. record {
          tracks = t;
          settled = s;
          keeps = λ m e p q. p;
          no_further = λ m w x. x;
          reached = near;
          size_le = omega arith;
        } in
      elim (Bool-cases (direction_flag dir entry.stored)) [
        | inr f ↦ rw f (
            done (
              same (λ v c' l p q.
                let z : l.edge ≡ j = omega arith in
                let y = ap (λ x. direction_flag dir (g.edge_array.at x).stored) z in
                let flagged = l.flagged in cc)))
        | inl f ↦
            let leads : Leads g dir node to c = record {
              edge = j;
              from_first = first;
              before_end = end;
              leads = refl;
              flagged = f;
              weighs = weighs;
            } in
            let w = edge_weight-pos entry.stored c weighs positive in
            let i : in_range 0 (d + c) ≡ true = ground (arith, short, far) in
            rw (f, w, i)
              (elim (Option-cases (lookup to h)) [
                | inl n ↦
                    let fresh = was_inserted-none to h n in
                    rw fresh (
                      Returns-weaken
                        (insert_correct to (d + c) (record { parent = node }) t.valid fresh room)
                        (λ h' i.
                          added-Relaxed j c h h' t s leads weighs positive target_lt (λ e q. cc)
                            i.valid i.entries (omega (arith, i.larger))))
                | inr (e, found) ↦
                    let known = was_inserted-lookup to h e found in
                    let key = get_key-lookup to h e found in
                    rw (known, key)
                      (elim (Bool-cases (ltb (d + c) e.weight)) [
                        | inr l ↦
                            let near : e.weight ≤ d + c = ground (arith, l) in
                            rw l (done (same (only j c h weighs (e, found, near))))
                        | inl l ↦
                            let less : d + c < e.weight = ground (arith, l) in
                            let waits : e.removed ≡ false = elim (Bool-cases e.removed) [
                              | inl r ↦ absurd (omega (arith, t.low to e found r, less))
                              | inr r ↦ r
                            ] in
                            rw l (
                              Returns-weaken
                                (improved to c h e t
                                  (λ z. absurd (omega (arith, z, target_lt, road.few))) found waits
                                  less)
                                (λ h' r.
                                  added-Relaxed j c h h' t s leads weighs positive target_lt
                                    (λ e' q. (
                                      ground (arith, q, found, waits),
                                      ground (arith, q, found, less),
                                    ))
                                    r.0 r.1 (omega (arith, r.2))))
                      ])
              ])
      ]

  pub relax_edges_lem :
      (n edge : ℕ) (h : BinaryHeap HeapData)
      → g.node_array.at node ≤ edge
      → edge + n ≤ g.node_array.at (node + 1)
      → edge + n ≤ g.edge_array.size
      → Tracks g dir start d h
      → Settled h
      → h.heap.size + n + 1 < 2 ^ 31
      → d < 2 ^ 31 + 2 ^ 30
      → Returns (Relaxed edge n h) (relax_edges n edge node d dir h g)
  unfolding relax_edges
  relax_edges_lem zero edge h first end inside t s room far = done (record {
    tracks = t;
    settled = s;
    keeps = λ m e p q. p;
    no_further = λ m w x. x;
    reached = λ v c l p q. absurd (omega arith);
    size_le = omega arith;
  })
  relax_edges_lem (suc n) edge h first end inside t s room far =
      let a : ltb edge g.edge_array.size ≡ true = ground arith in
      rw a (
        Returns->>= (relax_lem edge h first (omega arith) (omega arith) t s (omega arith) far)
          (λ h₁ r.
            Returns-weaken
              (relax_edges_lem n (edge + 1) h₁ (omega arith) (omega arith) (omega arith) r.tracks
                r.settled (omega (arith, r.size_le)) far)
              (λ h₂ q. record {
                tracks = q.tracks;
                settled = q.settled;
                keeps = λ m e x y. q.keeps m e (r.keeps m e x y) y;
                no_further = λ m w x. q.no_further m w (r.no_further m w x);
                reached = λ v c l a b. elim (Bool-cases (ltb edge l.edge)) [
                  | inl y ↦ q.reached v c l (ground arith) (omega arith)
                  | inr y ↦ q.no_further v (d + c) (r.reached v c l a (ground arith))
                ];
                size_le = omega (arith, r.size_le, q.size_le);
              })))
