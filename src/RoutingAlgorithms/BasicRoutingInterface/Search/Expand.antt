-- ===== src/RoutingAlgorithms/BasicRoutingInterface/Search/Expand.antt =====
-- Removing a node from the heap, stalling it and relaxing its edges, and emptying the heap.
use osrm_backend.Prelude.{
  ℕ, zero, suc, ◌+◌, ◌-◌, ◌^◌, ◌≤◌, ◌<◌, ◌≡◌, ◌⊎◌, inl, inr, refl, ◌∙◌, sym, ap, Bool, true, false,
  Option, none, some, arith, ◌==◌, Returns, done, Returns-weaken, Returns->>=, Bool-cases,
  Option-cases, ltb,
}
use osrm_backend.Prelude.Int.{pos}
use mathlib.Core.Bool.{not}
use mathlib.Core.Path.{subst}
use osrm_backend.DataStructures.StaticGraph.{StaticGraph, begin_edges, end_edges}
use osrm_backend.DataStructures.BinaryHeap.{BinaryHeap}
use osrm_backend.DataStructures.BinaryHeap.Invariant.{IsValid, wt}
use osrm_backend.DataStructures.BinaryHeap.Entries.{Entry, lookup}
use osrm_backend.DataStructures.BinaryHeap.Remove.{Removed, mark_removed}
use osrm_backend.DataStructures.BinaryHeap.Queries.{AllRemoved}
use osrm_backend.RoutingAlgorithms.BasicRoutingInterface.{EdgeData}
use osrm_backend.RoutingAlgorithms.BasicRoutingInterface.Search.{
  HeapData, in_range, direction_flag, stalls, stalled, expand,
}
use osrm_backend.RoutingAlgorithms.BasicRoutingInterface.Search.Tracks.{
  RoadGraph, Leads, Within, NoFurther, Moderate, Reached, HasParent, Tracks, KeepsRemoved,
  HasParent-keep, edge_weight-pos, get_key-lookup, was_inserted-lookup, was_inserted-none,
}
use osrm_backend.RoutingAlgorithms.BasicRoutingInterface.Search.Relax.{Settled, relax_edges_lem}

-- The node is stalled: over an edge that leads back, a node is recorded from which it is nearer.
abbrev pub Stalled : StaticGraph EdgeData → Bool → ℕ → ℕ → BinaryHeap HeapData → Type 0
Stalled g dir node d h =
    (v c : ℕ) × Leads g (not dir) node v c
    × ((e : Entry HeapData) × (lookup v h ≡ some e) × (e.weight + c < d))

-- No edge from `edge` to `end` stalls the node.
abbrev Unstalled : StaticGraph EdgeData → Bool → ℕ → ℕ → BinaryHeap HeapData → ℕ → ℕ → Type 0
Unstalled g dir node d h edge end =
    (v c : ℕ) (l : Leads g (not dir) node v c)
    → edge ≤ l.edge
    → l.edge < end
    → (e : Entry HeapData) → lookup v h ≡ some e
    → d ≤ e.weight + c

module _ (g : StaticGraph EdgeData) (dir : Bool) (node d : ℕ) (h : BinaryHeap HeapData)
    (road : RoadGraph g) (near : Moderate h) where
  -- What the stalling test finds out from the edge `edge` to `end`.
  abbrev StallTest : ℕ → ℕ → Bool → Type 0
  StallTest edge end b =
      ((b ≡ true) × Stalled g dir node d h) ⊎ ((b ≡ false) × Unstalled g dir node d h edge end)

  -- An edge that stalls no node.
  not_stalling :
      (j : ℕ)
      → ((c : ℕ) (e : Entry HeapData)
          → (g.edge_array.at j).stored.distance ≡ pos c
          → direction_flag (not dir) (g.edge_array.at j).stored ≡ true
          → lookup (g.edge_array.at j).target h ≡ some e
          → d ≤ e.weight + c)
      → Unstalled g dir node d h j (j + 1)
  not_stalling j f v c l p q e found =
      let z : l.edge ≡ j = omega arith in
      let y : (g.edge_array.at j).target ≡ v =
        ap (λ x. (g.edge_array.at x).target) (sym z) ∙ l.leads in
      f c e (ap (λ x. (g.edge_array.at x).stored.distance) (sym z) ∙ l.weighs)
        (ap (λ x. direction_flag (not dir) (g.edge_array.at x).stored) (sym z) ∙ l.flagged)
        (ap (λ x. lookup x h) y ∙ found)

  stalls_lem :
      (j : ℕ)
      → g.node_array.at node ≤ j
      → j < g.node_array.at (node + 1)
      → j < g.edge_array.size
      → Returns (StallTest j (j + 1)) (stalls d dir (g.edge_array.at j) h)
  unfolding stalls
  stalls_lem j first last inside =
      let entry = g.edge_array.at j in
      let (c, weighs, positive, short) = road.positive j inside in
      elim (Bool-cases (direction_flag (not dir) entry.stored)) [
        | inr f ↦ rw f (done (inr (refl, not_stalling j (λ c' e p q r. cc))))
        | inl f ↦
            rw (f, edge_weight-pos entry.stored c weighs positive)
              (elim (Option-cases (lookup entry.target h)) [
                | inl n ↦
                    rw (was_inserted-none entry.target h n)
                      (done (inr (refl, not_stalling j (λ c' e p q r. cc))))
                | inr (e, found) ↦
                    let fits : in_range 0 (e.weight + c) ≡ true =
                      ground (arith, short, near.below entry.target e found) in
                    rw
                      (
                        was_inserted-lookup entry.target h e found,
                        get_key-lookup entry.target h e found,
                        fits,
                      )
                      (done (elim (Bool-cases (ltb (e.weight + c) d)) [
                        | inl y ↦ inl (
                          y,
                          (
                            entry.target,
                            c,
                            record {
                              edge = j;
                              from_first = first;
                              before_end = last;
                              leads = refl;
                              flagged = f;
                              weighs = weighs;
                            },
                            (e, found, ground (arith, y)),
                          ),
                        )
                        | inr y ↦ inr (
                          y,
                          not_stalling j (λ c' e' p q r.
                              let u : pos c' ≡ pos c = sym p ∙ weighs in
                              let same : c' ≡ c = cc in
                              let s : some e' ≡ some e = sym r ∙ found in
                              let w : e'.weight ≡ e.weight = ground (arith, s) in
                              ground (arith, same, w, y)),
                        )
                      ]))
              ])
      ]

  stalled_lem :
      (n edge : ℕ)
      → g.node_array.at node ≤ edge
      → edge + n ≤ g.node_array.at (node + 1)
      → edge + n ≤ g.edge_array.size
      → Returns (StallTest edge (edge + n)) (stalled n edge d dir h g)
  unfolding stalled
  stalled_lem zero edge first last inside = done (inr (refl, λ v c l p q e r. absurd (omega arith)))
  stalled_lem (suc n) edge first last inside =
      let a : ltb edge g.edge_array.size ≡ true = ground arith in
      rw a (
        Returns->>= (stalls_lem edge first (omega arith) (omega arith)) (λ now u. elim u [
          | inl (y, s) ↦ rw y (done (inl (refl, s)))
          | inr (y, s) ↦ rw y (
              Returns-weaken (stalled_lem n (edge + 1) (omega arith) (omega arith) (omega arith))
                (λ b r. elim r [
                  | inl x ↦ inl x
                  | inr (x, t) ↦ inr (
                    x,
                    λ v c l p q e found. elim (Bool-cases (ltb edge l.edge)) [
                      | inl k ↦ t v c l (ground arith) (omega arith) e found
                      | inr k ↦ s v c l p (ground arith) e found
                    ],
                  )
                ]))
        ]))

-- An entry that is marked as removed keeps its weight and its data.
mark_removed-some :
    (o : Option (Entry HeapData)) (e : Entry HeapData)
    → mark_removed o ≡ some e
    → (e' : Entry HeapData) × (o ≡ some e')
      × (e'.weight ≡ e.weight)
      × (e'.stored ≡ e.stored)
      × (e.removed ≡ true)
mark_removed-some none e h = cc
mark_removed-some (some e') e h = (e', refl, ground arith, ground arith, ground arith)

module _ (g : StaticGraph EdgeData) (dir : Bool) (start : ℕ → ℕ → Type 0) (road : RoadGraph g) where
  -- The search is over: the heap is empty, and what it records is still true.
  pub record Finished (h : BinaryHeap HeapData) : Type 0 where
    pub valid : IsValid h
    pub emptied : h.heap.size ≡ 1
    pub walks : (m : ℕ) (e : Entry HeapData) → lookup m h ≡ some e → Reached g dir start m e.weight
    pub tree : (m : ℕ) (e : Entry HeapData) → lookup m h ≡ some e → HasParent g dir start h m e

  HasParent-same :
      (h : BinaryHeap HeapData) (m : ℕ) (e e' : Entry HeapData)
      → e.weight ≡ e'.weight
      → e.stored ≡ e'.stored
      → HasParent g dir start h m e
      → HasParent g dir start h m e'
  HasParent-same h m e e' w s (inl (a, b)) =
      inl (sym (ap (λ x. x.parent) s) ∙ a, subst (λ x. start m x) w b)
  HasParent-same h m e e' w s (inr (p, c, found, removed, leads, positive, sum)) =
      let q : e.stored.parent ≡ e'.stored.parent = ap (λ x. x.parent) s in
      inr (
        p,
        c,
        subst (λ x. lookup x h ≡ some p) q found,
        removed,
        subst (λ x. Leads g dir x m c) q leads,
        positive,
        sym w ∙ sum,
      )

  pub Removed-Moderate :
      (h : BinaryHeap HeapData) (p : ℕ × BinaryHeap HeapData)
      → Removed h p
      → Moderate h
      → Moderate p.1
  Removed-Moderate h p r near = record {
    above = λ m e q. let (e', o, w) = before m e q in omega (arith, near.above m e' o, w);
    below = λ m e q. let (e', o, w) = before m e q in omega (arith, near.below m e' o, w);
  }
    where
      before :
          (m : ℕ) (e : Entry HeapData)
          → lookup m p.1 ≡ some e
          → (e' : Entry HeapData) × (lookup m h ≡ some e') × (e'.weight ≡ e.weight)
      before m e q = elim (Bool-cases (m == p.0)) [
        | inl z ↦
            let (e', o, w, s, y) =
              mark_removed-some (lookup m h) e (ground (arith, r.entries m, z)) in
            (e', o, w)
        | inr z ↦ (e, ground (arith, r.entries m, z), refl)
      ]

  -- DeleteMin takes the search to the distance of the node that it removes.
  pub Removed-Tracks :
      (lvl : ℕ) (h : BinaryHeap HeapData) (p : ℕ × BinaryHeap HeapData)
      → Tracks g dir start lvl h
      → Removed h p
      → Tracks g dir start (wt h 1) p.1 × Settled g dir start road p.0 (wt h 1) p.1 × (lvl ≤ wt h 1)
  Removed-Tracks lvl h p t r =
      let (e₀, found, weight, waits) = r.waited in
      let level : lvl ≤ wt h 1 = omega (arith, t.high p.0 e₀ found waits, weight) in
      let keep : KeepsRemoved h p.1 = λ m e q y. ground (arith, r.entries m, q, y, found, waits) in
      (
        record {
          valid = r.valid;
          exists = λ m e q. let (e', o, w, s) = before m e q in t.exists m e' o;
          walks = λ m e q.
              let (e', o, w, s) = before m e q in
              subst (λ x. Reached g dir start m x) w (t.walks m e' o);
          low = λ m e q y. elim (Bool-cases (m == p.0)) [
            | inl z ↦ ground (arith, r.entries m, q, z, found, weight)
            | inr z ↦ omega (arith, t.low m e (ground (arith, r.entries m, z)) y, level)
          ];
          high = λ m e q y. elim (Bool-cases (m == p.0)) [
            | inl z ↦ ground (arith, r.entries m, q, z, found, y)
            | inr z ↦ r.least m e.weight (e, ground (arith, r.entries m, z), refl, y)
          ];
          tree = λ m e q.
              let (e', o, w, s) = before m e q in
              HasParent-same p.1 m e' e w s
                (HasParent-keep g dir start h p.1 m e' keep (t.tree m e' o));
        },
        (record e₀ { removed = true }, ground (arith, r.entries p.0, found), refl, weight),
        level,
      )
    where
      before :
          (m : ℕ) (e : Entry HeapData)
          → lookup m p.1 ≡ some e
          → (e' : Entry HeapData) × (lookup m h ≡ some e')
            × (e'.weight ≡ e.weight)
            × (e'.stored ≡ e.stored)
      before m e q = elim (Bool-cases (m == p.0)) [
        | inl z ↦
            let (e', o, w, s, y) =
              mark_removed-some (lookup m h) e (ground (arith, r.entries m, z)) in
            (e', o, w, s)
        | inr z ↦ (e, ground (arith, r.entries m, z), refl, refl)
      ]

  -- DeleteAll ends the search.
  pub AllRemoved-Finished :
      (d : ℕ) (h h' : BinaryHeap HeapData) → Tracks g dir start d h → AllRemoved h h' → Finished h'
  AllRemoved-Finished d h h' t r = record {
    valid = r.valid;
    emptied = r.emptied;
    walks = λ m e q.
        let (e', o, w, s, y) = mark_removed-some (lookup m h) e (sym (r.entries m) ∙ q) in
        subst (λ x. Reached g dir start m x) w (t.walks m e' o);
    tree = λ m e q.
        let (e', o, w, s, y) = mark_removed-some (lookup m h) e (sym (r.entries m) ∙ q) in
        HasParent-same h' m e' e w s (
          HasParent-keep g dir start h h' m e' (λ k x a b. ground (arith, r.entries k, a, b))
            (t.tree m e' o));
  }

  -- What the loops over the edges of the node leave: the heap as it was, if the node is stalled, and
  -- otherwise every node that an edge leads to within that distance.
  pub record Expanded (node d : ℕ) (h h' : BinaryHeap HeapData) : Type 0 where
    pub tracks : Tracks g dir start d h'
    pub settled : Settled g dir start road node d h'
    pub loops :
        (Stalled g dir node d h × (h' ≡ h))
        ⊎ (((v c : ℕ)
              → Leads g (not dir) node v c
              → (e : Entry HeapData) → lookup v h ≡ some e
              → d ≤ e.weight + c)
            × ((v c : ℕ) → Leads g dir node v c → Within h' v (d + c))
            × NoFurther h h')

  pub expand_lem :
      (node d : ℕ) (h : BinaryHeap HeapData)
      → Tracks g dir start d h
      → Settled g dir start road node d h
      → h.heap.size + g.edge_array.size + 1 < 2 ^ 31
      → Moderate h
      → Returns (Expanded node d h) (expand node d dir h g)
  unfolding expand begin_edges end_edges
  expand_lem node d h t s room near =
      let (p, found, removed, weight) = s in
      let real = t.exists node p found in
      let a : ltb node g.node_array.size ≡ true = ground arith in
      let b : ltb (node + 1) g.node_array.size ≡ true = ground arith in
      let first = g.node_array.at node in
      let end = g.node_array.at (node + 1) in
      let o : first ≤ end = road.ordered node real in
      let i : end ≤ g.edge_array.size = road.inside (node + 1) real in
      rw (a, b)
        (Returns->>=
          (stalled_lem g dir node d h road near (end - first) first (omega arith) (omega (arith, o))
            (omega (arith, o, i)))
          (λ stop u. elim u [
            | inl (y, x) ↦ rw y (done (record { tracks = t; settled = s; loops = inl (x, refl) }))
            | inr (y, x) ↦ rw y (
                Returns-weaken
                  (relax_edges_lem g dir start road node d (end - first) first h (omega arith)
                    (omega (arith, o)) (omega (arith, o, i)) t s (omega (arith, i))
                    (omega (arith, near.below node p found, weight)))
                  (λ h' r. record {
                    tracks = r.tracks;
                    settled = r.settled;
                    loops = inr (
                      (λ v c l e q. x v c l l.from_first (omega (arith, l.before_end, o)) e q),
                      (λ v c l. r.reached v c l l.from_first (omega (arith, l.before_end, o))),
                      r.no_further,
                    );
                  }))
          ]))
