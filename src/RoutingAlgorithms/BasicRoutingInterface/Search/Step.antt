-- ===== src/RoutingAlgorithms/BasicRoutingInterface/Search/Step.antt =====
-- RoutingStep keeps what the heap records true, and takes only real meetings.
use osrm_backend.Prelude.{
  ℕ, ◌+◌, ◌^◌, ◌≤◌, ◌<◌, ◌≡◌, ◌⊎◌, inl, inr, refl, ◌∙◌, ap, Bool, true, false, ◌&&◌, Option, some,
  arith, Returns, done, Returns->>=, Bool-cases, Option-cases, ltb, leb,
}
use osrm_backend.Prelude.Int.{ℤ, pos_part, neg_part}
use mathlib.Core.Bool.{not}
use mathlib.Core.Path.{subst}
use osrm_backend.DataStructures.StaticGraph.{StaticGraph}
use osrm_backend.DataStructures.BinaryHeap.{BinaryHeap, get_key}
use osrm_backend.DataStructures.BinaryHeap.Invariant.{wt}
use osrm_backend.DataStructures.BinaryHeap.Entries.{Entry, lookup}
use osrm_backend.DataStructures.BinaryHeap.Remove.{Removed, delete_min_correct}
use osrm_backend.DataStructures.BinaryHeap.Queries.{AllRemoved, delete_all_correct}
use osrm_backend.RoutingAlgorithms.BasicRoutingInterface.{EdgeData}
use osrm_backend.RoutingAlgorithms.BasicRoutingInterface.Search.{
  HeapData, origin, in_range, meet, routing_step,
}
use osrm_backend.RoutingAlgorithms.BasicRoutingInterface.Search.Tracks.{
  RoadGraph, Leads, Within, NoFurther, Moderate, Tracks, get_key-lookup, was_inserted-lookup,
  was_inserted-none,
}
use osrm_backend.RoutingAlgorithms.BasicRoutingInterface.Search.Relax.{Settled}
use osrm_backend.RoutingAlgorithms.BasicRoutingInterface.Search.Expand.{
  Stalled, Finished, Removed-Moderate, Removed-Tracks, AllRemoved-Finished, expand_lem,
}

-- The meeting test at a node with the distance `d`.
pub record Met (node d : ℕ) (reverse : BinaryHeap HeapData) (best best' : ℕ × ℕ) : Type 0 where
  pub real :
      (best' ≡ best)
      ⊎ ((e : Entry HeapData) × (lookup node reverse ≡ some e)
          × (best'.0 ≡ node)
          × (best'.1 + origin ≡ e.weight + d)
          × (origin ≤ best'.1)
          × (best'.1 < best.1))
  pub least :
      (e : Entry HeapData)
      → lookup node reverse ≡ some e
      → origin + origin ≤ e.weight + d
      → best'.1 + origin ≤ e.weight + d

-- Whether the sum `s` of both distances is taken for the bound `b`.
abbrev taken : ℕ → ℕ → Bool
taken s b = ltb s (b + origin) && leb (origin + origin) s

taken-true : (s b : ℕ) → taken s b ≡ true → (s < b + origin) × (origin + origin ≤ s)
taken-true s b y = (ground arith, ground arith)

taken-false : (s b : ℕ) → taken s b ≡ false → origin + origin ≤ s → b + origin ≤ s
taken-false s b y p = ground arith

same_weight :
    {o : Option (Entry HeapData)} {e e' : Entry HeapData}
    → o ≡ some e
    → o ≡ some e'
    → e'.weight ≡ e.weight
same_weight p q = ground (arith, p, q)

meet_lem :
    (node d : ℕ) (reverse : BinaryHeap HeapData) (best : ℕ × ℕ)
    → Moderate reverse
    → 2 ^ 30 ≤ d
    → d < 2 ^ 31 + 2 ^ 30
    → Returns (Met node d reverse best) (meet node d reverse best)
unfolding meet
meet_lem node d reverse best near low high = elim (Option-cases (lookup node reverse)) [
  | inl n ↦
      rw (was_inserted-none node reverse n) (done (record { real = inl refl; least = λ e q. cc }))
  | inr (e, found) ↦
      let fits : in_range origin (e.weight + d) ≡ true =
        ground (arith, near.above node e found, near.below node e found, low, high) in
      rw (was_inserted-lookup node reverse e found, get_key-lookup node reverse e found, fits)
        (done (elim (Bool-cases (taken (e.weight + d) best.1)) [
          | inl y ↦
              let (below, above) = taken-true (e.weight + d) best.1 y in
              rw y (record {
                real = inr (e, found, refl, omega arith, omega arith, omega arith);
                least = λ e' q p.
                    let w : e'.weight ≡ e.weight = same_weight found q in omega (arith, w);
              })
          | inr y ↦ rw y (record {
            real = inl refl;
            least = λ e' q p.
                let w : e'.weight ≡ e.weight = same_weight found q in
                rw w
                  (taken-false (e.weight + d) best.1 y (subst (λ x. origin + origin ≤ x + d) w p));
          })
        ]))
]

module _ (g : StaticGraph EdgeData) (dir : Bool) (start : ℕ → ℕ → Type 0) (road : RoadGraph g) where
  AllRemoved-Settled :
      (node d : ℕ) (h h' : BinaryHeap HeapData)
      → Settled g dir start road node d h
      → AllRemoved h h'
      → Settled g dir start road node d h'
  AllRemoved-Settled node d h h' (p, found, removed, weight) a =
      (p, ground (arith, a.entries node, found, removed), removed, weight)

  pub record Stepped (lvl : ℕ) (h reverse : BinaryHeap HeapData) (best : ℕ × ℕ)
      (min_edge_offset : ℤ) (r : BinaryHeap HeapData × ℕ × ℕ) : Type 0 where
    pub node : ℕ
    -- The heap behind DeleteMin.
    pub rest : BinaryHeap HeapData
    pub removed : Removed h (node, rest)
    pub settled : Settled g dir start road node (wt h 1) r.0
    pub onward : lvl ≤ wt h 1
    pub met : Met node (wt h 1) reverse best (r.1, r.2)
    pub heap :
        ((r.2 + neg_part min_edge_offset < wt h 1 + pos_part min_edge_offset)
          × Finished g dir start road r.0)
        ⊎ ((wt h 1 + pos_part min_edge_offset ≤ r.2 + neg_part min_edge_offset)
            × Tracks g dir start (wt h 1) r.0
            × ((Stalled g dir node (wt h 1) rest × (r.0 ≡ rest))
                ⊎ (((v c : ℕ)
                      → Leads g (not dir) node v c
                      → (e : Entry HeapData) → lookup v rest ≡ some e
                      → wt h 1 ≤ e.weight + c)
                    × ((v c : ℕ) → Leads g dir node v c → Within r.0 v (wt h 1 + c))
                    × NoFurther rest r.0)))

  -- On a graph whose ranges are in order and inside the edge array, whose targets are nodes, whose
  -- nodes' indices are below SPECIAL_EDGEID and whose distances are positive and at most 2 ^ 30,
  -- RoutingStep on a heap that is not empty, records true walks and with the edges has fewer than 2 ^ 31
  -- elements overflows no int and returns, when both heaps' distances lie between - 2 ^ 30 and 2 ^ 30
  -- and the offset's amount is at most 2 ^ 30. It removes a node at the least distance, which has not
  -- gone down. It takes the meeting with the other search exactly when it is not negative and below the
  -- bound. It empties the heap exactly when the distance with the offset passes the bound. Otherwise the
  -- heap records true walks, whose waiting nodes are no nearer than the removed one. Then either an edge
  -- that leads back shows a nearer way to the node, and the heap stays as it was behind DeleteMin, or
  -- no such edge does, every node that an edge leads to is recorded at that distance or nearer, and no
  -- recorded node comes further away.
  pub routing_step_correct :
      (lvl : ℕ) (h reverse : BinaryHeap HeapData) (best : ℕ × ℕ) (min_edge_offset : ℤ)
      → Tracks g dir start lvl h
      → Moderate h
      → Moderate reverse
      → neg_part min_edge_offset + pos_part min_edge_offset ≤ 2 ^ 30
      → 1 < h.heap.size
      → h.heap.size + g.edge_array.size < 2 ^ 31
      → Returns
          (Stepped lvl h reverse best min_edge_offset)
          (routing_step h reverse best min_edge_offset dir g)
  unfolding routing_step
  routing_step_correct lvl h reverse best m t near near' small some_left room =
      Returns->>= (delete_min_correct t.valid some_left) (λ p r.
        let (t', s, level) = Removed-Tracks g dir start road lvl h p t r in
        let (e, found, removed, weight) = s in
        let d : e.weight ≡ wt h 1 = weight in
        let near₁ = Removed-Moderate g dir start road h p r near in
        let low : 2 ^ 30 ≤ wt h 1 = omega (arith, near₁.above p.0 e found, d) in
        let high : wt h 1 < 2 ^ 31 + 2 ^ 30 = omega (arith, near₁.below p.0 e found, d) in
        let fits : in_range (neg_part m) (wt h 1 + pos_part m) ≡ true =
          ground (arith, low, high, small) in
        let key : get_key p.0 p.1 ≡ some (wt h 1) = get_key-lookup p.0 p.1 e found ∙ ap some d in
        rw key (
          Returns->>= (meet_lem p.0 (wt h 1) reverse best near' low high) (λ b met.
            rw fits (elim (Bool-cases (ltb (b.1 + neg_part m) (wt h 1 + pos_part m))) [
              | inl y ↦ rw y (
                  Returns->>= (delete_all_correct t'.valid) (λ h' a. done (record {
                    node = p.0;
                    rest = p.1;
                    removed = r;
                    settled = AllRemoved-Settled p.0 (wt h 1) p.1 h' s a;
                    onward = level;
                    met = met;
                    heap =
                        inl
                          (ground arith, AllRemoved-Finished g dir start road (wt h 1) p.1 h' t' a);
                  })))
              | inr y ↦ rw y (
                  Returns->>=
                    (expand_lem g dir start road p.0 (wt h 1) p.1 t' s
                      (omega (arith, r.smaller, room)) near₁)
                    (λ h' x. done (record {
                      node = p.0;
                      rest = p.1;
                      removed = r;
                      settled = x.settled;
                      onward = level;
                      met = met;
                      heap = inr (ground arith, x.tracks, x.loops);
                    })))
            ]))))
