-- ===== src/DataStructures/StaticGraph/Fill.antt =====
-- The loops of StaticGraph's constructor, on sorted edges.
use osrm_backend.Prelude.{
  ℕ, zero, suc, ◌+◌, ◌-◌, ◌≤◌, ◌<◌, ◌≡◌, ◌≢◌, refl, ◌∙◌, true, false, arith, ltb, ◌==◌, Array,
  update, Returns, done, Returns-weaken, Returns->>=, Bool-cases, inl, inr,
}
use osrm_backend.Prelude.Int.{ℤ, pos, ltb_ℤ}
use osrm_backend.DataStructures.StaticGraph.{
  EdgeArrayEntry, InputEdge, input_lt, skip_edges, fill_nodes, entry_of, copy_edges, fill_edges,
}

module _ {D : Type 0} where
  pub input_lt-false : (a b : InputEdge D) → input_lt a b ≡ false → b.source ≤ a.source
  unfolding input_lt
  input_lt-false a b p = ground arith

  -- The edges before `p` are those of nodes before `m`.
  pub record Splits (graph : Array (InputEdge D)) (m p : ℕ) : Type 0 where
    pub le : p ≤ graph.size
    pub before : (k : ℕ) → k < p → (graph.at k).source < m
    pub behind : (k : ℕ) → p ≤ k → k < graph.size → m ≤ (graph.at k).source

  pub Splits-mono :
      (graph : Array (InputEdge D)) (m p q : ℕ) → Splits graph m p → Splits graph (m + 1) q → p ≤ q
  Splits-mono graph m p q s t = elim (Bool-cases (ltb q p)) [
    | inl y ↦
        let small = s.before q (ground (arith, y)) in
        let large = t.behind q (omega arith) (ground (arith, y, s.le)) in
        omega (arith, small, large)
    | inr y ↦ ground (arith, y)
  ]

  pub Splits-zero : (graph : Array (InputEdge D)) (p : ℕ) → Splits graph 0 p → p ≡ 0
  Splits-zero graph zero s = refl
  Splits-zero graph (suc p) s = omega (arith, s.before p (omega arith))

  pub Splits-size :
      (graph : Array (InputEdge D)) (m p : ℕ)
      → ((k : ℕ) → k < graph.size → (graph.at k).source < m)
      → Splits graph m p
      → p ≡ graph.size
  Splits-size graph m p real s = elim (Bool-cases (ltb p graph.size)) [
    | inl y ↦
        omega (arith, s.behind p (omega arith) (ground (arith, y)), real p (ground (arith, y)))
    | inr y ↦ ground (arith, y, s.le)
  ]

  module _ (graph : Array (InputEdge D))
      (sorted : (i j : ℕ)
        → i < j
        → j < graph.size
        → (graph.at i).source ≤ (graph.at j).source) where
    skip_edges_lem :
        (n edge node : ℕ)
        → edge + n ≡ graph.size
        → Returns
            (λ e.
              (edge ≤ e)
              × (e ≤ graph.size)
              × ((k : ℕ) → edge ≤ k → k < e → (graph.at k).source ≡ node)
              × (e < graph.size → (graph.at e).source ≢ node))
            (skip_edges n edge node graph)
    unfolding skip_edges
    skip_edges_lem zero edge node p =
        done (omega arith, omega arith, (λ k a b. omega (arith, a, b)), (λ a. omega (arith, a, p)))
    skip_edges_lem (suc n) edge node p =
        let room : ltb edge graph.size ≡ true = ground (arith, p) in
        elim (Bool-cases ((graph.at edge).source == node)) [
          | inl y ↦
              rw (room, y)
                (Returns-weaken (skip_edges_lem n (edge + 1) node (omega arith)) (λ e (a, b, c, d).
                  (
                    omega (arith, a),
                    b,
                    (λ k q r. elim (Bool-cases (k == edge)) [
                      | inl z ↦ let w : k ≡ edge = ground (arith, z) in rw w (ground (arith, y))
                      | inr z ↦ c k (ground (arith, z, q)) r
                    ]),
                    d,
                  )))
          | inr y ↦
              rw (room, y)
                (done (
                  omega arith,
                  omega arith,
                  (λ k a b. omega (arith, a, b)),
                  (λ a q. ground (arith, y, q)),
                ))
        ]

    pub fill_nodes_lem :
        (n node edge : ℕ) (nodes : Array ℕ)
        → node + n ≡ nodes.size
        → Splits graph node edge
        → ((m : ℕ) → m < node → Splits graph m (nodes.at m))
        → Returns
            (λ r.
              (r.0.size ≡ nodes.size)
              × Splits graph nodes.size r.1
              × ((m : ℕ) → m < nodes.size → Splits graph m (r.0.at m)))
            (fill_nodes n node edge edge graph nodes)
    unfolding fill_nodes
    fill_nodes_lem zero node edge nodes p here earlier =
        let w : node ≡ nodes.size = omega (arith, p) in
        done (refl, rw (← w) here, (λ m q. earlier m (omega (arith, q, w))))
    fill_nodes_lem (suc n) node edge nodes p here earlier =
        Returns->>= (skip_edges_lem (graph.size - edge) edge node (omega (arith, here.le)))
          (λ e (a, b, c, d).
            let room : ltb node nodes.size ≡ true = ground (arith, p) in
            let on : edge + (e - edge) ≡ e = omega (arith, a) in
            rw (room, on)
              (fill_nodes_lem n (node + 1) e (record nodes { at = update nodes.at node edge })
                (omega (arith, p))
                (record {
                  le = b;
                  before = λ k q. elim (Bool-cases (ltb k edge)) [
                    | inl y ↦ omega (arith, here.before k (ground (arith, y)))
                    | inr y ↦ omega (arith, c k (ground (arith, y)) q)
                  ];
                  behind = λ k q r.
                      let low : node ≤ (graph.at e).source =
                        here.behind e a (omega (arith, q, r)) in
                      let other : (graph.at e).source ≢ node = d (omega (arith, q, r)) in
                      elim (Bool-cases (e == k)) [
                        | inl y ↦
                            let w : e ≡ k = ground (arith, y) in
                            rw (← w) (omega (arith, low, other))
                        | inr y ↦ omega (arith, low, other, sorted e k (ground (arith, y, q)) r)
                      ];
                })
                (λ m q. elim (Bool-cases (m == node)) [
                  | inl y ↦ let w : m ≡ node = ground (arith, y) in rw (y, w) here
                  | inr y ↦ rw y (earlier m (ground (arith, y, q)))
                ])))

  -- An edge array that holds the first `p` edges.
  abbrev pub Holds : Array (InputEdge D) → ℕ → Array (EdgeArrayEntry D) → Type 0
  Holds graph p edges = (k : ℕ) → k < p → edges.at k ≡ entry_of (graph.at k)

  module _ (distance : D → ℤ) (graph : Array (InputEdge D))
      (positive : (k : ℕ)
        → k < graph.size
        → ltb_ℤ (pos 0) (distance (graph.at k).stored) ≡ true) where
    copy_edges_lem :
        (n i e : ℕ) (edges : Array (EdgeArrayEntry D))
        → i ≤ e
        → e ≤ i + n
        → e ≤ graph.size
        → e ≤ edges.size
        → Holds graph i edges
        → Returns
            (λ r. (r.0.size ≡ edges.size) × (r.1 ≡ e) × Holds graph e r.0)
            (copy_edges distance n i e i graph edges)
    unfolding copy_edges
    copy_edges_lem zero i e edges p q r s h =
        let w : i ≡ e = omega (arith, p, q) in
        let z : (i == e) ≡ true = ground (arith, w) in
        rw z (done (refl, w, (λ k a. h k (omega (arith, a, w)))))
    copy_edges_lem (suc n) i e edges p q r s h = elim (Bool-cases (i == e)) [
      | inl y ↦
          let w : i ≡ e = ground (arith, y) in
          rw y (done (refl, w, (λ k a. h k (omega (arith, a, w)))))
      | inr y ↦
          let a : ltb i graph.size ≡ true = ground (arith, y, p, r) in
          let b : ltb i edges.size ≡ true = ground (arith, y, p, s) in
          let c = positive i (ground (arith, a)) in
          rw (y, a, b, c)
            (copy_edges_lem n (i + 1) e
              (record edges { at = update edges.at i (entry_of (graph.at i)) })
              (ground (arith, y, p)) (omega (arith, q)) r s
              (λ k t. elim (Bool-cases (k == i)) [
                | inl z ↦ let w : k ≡ i = ground (arith, z) in rw (z, w) refl
                | inr z ↦ rw z (h k (ground (arith, z, t)))
              ]))
    ]

    pub fill_edges_lem :
        (n node edge : ℕ) (nodes : Array ℕ) (edges : Array (EdgeArrayEntry D))
        → node + n + 1 ≡ nodes.size
        → ((m : ℕ) → m + 1 < nodes.size → nodes.at m ≤ nodes.at (m + 1))
        → ((m : ℕ) → m < nodes.size → nodes.at m ≤ graph.size)
        → edges.size ≡ graph.size
        → edge ≡ nodes.at node
        → Holds graph edge edges
        → Returns
            (λ r. (r.size ≡ edges.size) × Holds graph (nodes.at (node + n)) r)
            (fill_edges distance n node edge graph nodes edges)
    unfolding fill_edges
    fill_edges_lem zero node edge nodes edges p up inside size here h =
        let w : node + 0 ≡ node = omega arith in done (refl, rw (w, ← here) h)
    fill_edges_lem (suc n) node edge nodes edges p up inside size here h =
        let a : ltb (node + 1) nodes.size ≡ true = ground (arith, p) in
        let b : ltb node nodes.size ≡ true = ground (arith, p) in
        let le : nodes.at node ≤ nodes.at (node + 1) = up node (omega (arith, p)) in
        let top : nodes.at (node + 1) ≤ graph.size = inside (node + 1) (omega (arith, p)) in
        rw (a, b, ← here)
          (Returns->>=
            (copy_edges_lem edges.size edge (nodes.at (node + 1)) edges (omega (arith, here, le))
              (omega (arith, top, size)) top (omega (arith, top, size)) h)
            (λ c (s, on, held).
              let w : node + suc n ≡ node + 1 + n = omega arith in
              rw w (
                Returns-weaken
                  (fill_edges_lem n (node + 1) c.1 nodes c.0 (omega (arith, p)) up inside (s ∙ size)
                    on (rw on held))
                  (λ r (t, u). (t ∙ s, u)))))
