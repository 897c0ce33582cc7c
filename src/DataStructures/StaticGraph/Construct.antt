-- ===== src/DataStructures/StaticGraph/Construct.antt =====
-- The constructor of StaticGraph from a list of edges.
use osrm_backend.Prelude.{
  ℕ, ◌+◌, ◌^◌, ◌%◌, ◌≤◌, ◌<◌, ◌≡◌, refl, ◌∙◌, sym, Bool, true, false, arith, ltb, Array, Returns,
  done, Returns->>=, Bool-cases, inl, inr,
}
use osrm_backend.Prelude.Int.{ℤ, pos, ltb_ℤ}
use osrm_backend.DataStructures.StaticGraph.{
  EdgeArrayEntry, InputEdge, StaticGraph, input_lt, entry_of, from_edges,
}
use osrm_backend.DataStructures.StaticGraph.Fill.{
  Splits, Splits-mono, Splits-zero, Splits-size, Holds, input_lt-false, fill_nodes_lem,
  fill_edges_lem,
}

-- The second array holds the elements of the first one in order: `place` says where each one went.
pub record IsSorted {A : Type 0} (lt : A → A → Bool) (a b : Array A) : Type 0 where
  pub size_eq : b.size ≡ a.size
  pub place : ℕ → ℕ
  pub place_lt : (i : ℕ) → i < a.size → place i < a.size
  pub placed : (i : ℕ) → i < a.size → b.at (place i) ≡ a.at i
  pub apart : (i j : ℕ) → i < a.size → j < a.size → place i ≡ place j → i ≡ j
  pub taken : (k : ℕ) → k < a.size → (i : ℕ) × (i < a.size) × (place i ≡ k)
  pub ordered : (i j : ℕ) → i < j → j < b.size → lt (b.at j) (b.at i) ≡ false

module _ {D : Type 0} where
  -- What holds of the edges before the sort holds of those after it.
  IsSorted_all :
      (P : InputEdge D → Type 0) (a b : Array (InputEdge D))
      → IsSorted input_lt a b
      → ((j : ℕ) → j < a.size → P (a.at j))
      → (k : ℕ) → k < b.size
      → P (b.at k)
  IsSorted_all P a b s h k p =
      let (i, q, z) = s.taken k (omega (arith, p, s.size_eq)) in rw (← z, s.placed i q) (h i q)

  -- The graph of the input edges: `place` says where each edge went.
  pub record Represents (nodes : ℕ) (input : Array (InputEdge D)) (g : StaticGraph D) : Type 0 where
    pub node_count : g.number_of_nodes ≡ nodes
    pub edge_count : g.number_of_edges ≡ input.size
    pub node_size : g.node_array.size ≡ nodes + 1
    pub edge_size : g.edge_array.size ≡ input.size
    pub ordered : (n : ℕ) → n + 1 < g.node_array.size → g.node_array.at n ≤ g.node_array.at (n + 1)
    pub inside : (n : ℕ) → n < g.node_array.size → g.node_array.at n ≤ g.edge_array.size
    pub place : ℕ → ℕ
    pub from_first : (j : ℕ) → j < input.size → g.node_array.at (input.at j).source ≤ place j
    pub before_end : (j : ℕ) → j < input.size → place j < g.node_array.at ((input.at j).source + 1)
    pub entry : (j : ℕ) → j < input.size → g.edge_array.at (place j) ≡ entry_of (input.at j)
    pub apart : (i j : ℕ) → i < input.size → j < input.size → place i ≡ place j → i ≡ j
    pub taken : (k : ℕ) → k < g.edge_array.size → (j : ℕ) × (j < input.size) × (place j ≡ k)

  Splits-Represents :
      (nodes : ℕ) (input graph : Array (InputEdge D)) (array : Array ℕ)
      (edges : Array (EdgeArrayEntry D))
      → IsSorted input_lt input graph
      → ((j : ℕ) → j < input.size → (input.at j).source < nodes)
      → array.size ≡ nodes + 1
      → ((m : ℕ) → m < nodes + 1 → Splits graph m (array.at m))
      → ((m : ℕ) → m + 1 < nodes + 1 → array.at m ≤ array.at (m + 1))
      → edges.size ≡ graph.size
      → Holds graph graph.size edges
      → Represents nodes input (record {
        number_of_nodes = nodes;
        number_of_edges = graph.size;
        node_array = array;
        edge_array = edges;
      })
  Splits-Represents nodes input graph array edges s real size splits up count h = record {
    node_count = refl;
    edge_count = s.size_eq;
    node_size = size;
    edge_size = count ∙ s.size_eq;
    ordered = λ n p. up n (omega (arith, p, size));
    inside = λ n p. omega (arith, (splits n (omega (arith, p, size))).le, count);
    place = s.place;
    from_first = λ j p.
        let t = splits (input.at j).source (omega (arith, real j p)) in
        elim (Bool-cases (ltb (s.place j) (array.at (input.at j).source))) [
          | inl y ↦
              let less : (graph.at (s.place j)).source < (input.at j).source =
                t.before (s.place j) (ground (arith, y)) in
              let same : (graph.at (s.place j)).source ≡ (input.at j).source =
                rw (s.placed j p) refl in
              omega (arith, less, same)
          | inr y ↦ ground (arith, y)
        ];
    before_end = λ j p.
        let t = splits ((input.at j).source + 1) (omega (arith, real j p)) in
        elim (Bool-cases (ltb (s.place j) (array.at ((input.at j).source + 1)))) [
          | inl y ↦ ground (arith, y)
          | inr y ↦
              let more : (input.at j).source + 1 ≤ (graph.at (s.place j)).source =
                t.behind (s.place j) (ground (arith, y))
                  (omega (arith, s.place_lt j p, s.size_eq)) in
              let same : (graph.at (s.place j)).source ≡ (input.at j).source =
                rw (s.placed j p) refl in
              omega (arith, more, same)
        ];
    entry =
        λ j p. h (s.place j) (omega (arith, s.place_lt j p, s.size_eq)) ∙ rw (s.placed j p) refl;
    apart = s.apart;
    taken = λ k p. s.taken k (omega (arith, p, count, s.size_eq));
  }

  -- When the sort brings the edges in order, there are fewer than 2 ^ 32 edges, which the narrowed number
  -- of edges relies on, the sources are nodes and the distances positive, the
  -- constructor returns a graph in which each input edge stands, once, among the edges of its source.
  pub from_edges_correct :
      (sort : (InputEdge D → InputEdge D → Bool) → Array (InputEdge D) → Array (InputEdge D))
      (blank : EdgeArrayEntry D) (distance : D → ℤ) (nodes : ℕ) (input : Array (InputEdge D))
      → IsSorted input_lt input (sort input_lt input)
      → input.size < 2 ^ 32
      → ((j : ℕ) → j < input.size → (input.at j).source < nodes)
      → ((j : ℕ) → j < input.size → ltb_ℤ (pos 0) (distance (input.at j).stored) ≡ true)
      → Returns (Represents nodes input) (from_edges sort blank distance nodes input)
  unfolding from_edges
  from_edges_correct sort blank distance nodes input s few real positive =
      let graph = sort input_lt input in
      let exact : graph.size % 2 ^ 32 ≡ graph.size = omega (arith, few, s.size_eq) in
      let in_order : (i j : ℕ)
          → i < j
          → j < graph.size
          → (graph.at i).source ≤ (graph.at j).source =
        λ i j p q. input_lt-false (graph.at j) (graph.at i) (s.ordered i j p q) in
      rw exact (
        Returns->>=
          (fill_nodes_lem graph in_order (nodes + 1) 0 0 (record { size = nodes + 1; at = λ _. 0 })
            (omega arith)
            (record {
              le = omega arith;
              before = λ k p. omega (arith, p);
              behind = λ k p q. omega arith;
            })
            (λ m p. omega (arith, p)))
          (λ r (size, last, splits).
            let array = r.0 in
            let all_real = IsSorted_all (λ e. e.source < nodes) input graph s real in
            let all_positive =
              IsSorted_all (λ e. ltb_ℤ (pos 0) (distance e.stored) ≡ true) input graph s positive in
            let up : (m : ℕ) → m + 1 < nodes + 1 → array.at m ≤ array.at (m + 1) = λ m p.
              Splits-mono graph m (array.at m) (array.at (m + 1)) (splits m (omega (arith, p)))
                (splits (m + 1) p) in
            let first : array.at 0 ≡ 0 = Splits-zero graph (array.at 0) (splits 0 (omega arith)) in
            let whole : r.1 ≡ graph.size =
              Splits-size graph (nodes + 1) r.1 (λ k p. omega (arith, all_real k p)) last in
            let full : array.at (0 + nodes) ≡ graph.size =
              let z : 0 + nodes ≡ nodes = omega arith in
              rw z
                (Splits-size graph nodes (array.at nodes) all_real (splits nodes (omega arith))) in
            Returns->>=
              (fill_edges_lem distance graph all_positive nodes 0 0 array
                (record { size = r.1; at = λ _. blank }) (omega (arith, size))
                (λ m p. up m (omega (arith, p, size)))
                (λ m p. (splits m (omega (arith, p, size))).le) whole (sym first)
                (λ k p. elim p [ ]))
              (λ edges (count, held). done (
                Splits-Represents nodes input graph array edges s real size splits up
                  (count ∙ whole) (rw full at held)))))
