-- ===== src/Contractor/Contractor/ContractNode/Shortcuts.antt =====
-- The loops over the incoming and the outgoing edges: each path over the node gets a witness or a shortcut.
use osrm_backend.Prelude.{
  ℕ, ◌+◌, ◌%◌, ◌^◌, ◌≤◌, ◌<◌, ◌≡◌, ◌⊎◌, inl, inr, refl, sym, Bool, true, arith, ◌==◌, Bool-cases,
  Array, push_back,
}
use osrm_backend.DataStructures.DynamicGraph.{Edge, DynamicGraph}
use osrm_backend.DataStructures.DynamicGraph.Slices.{Within}
use osrm_backend.Contractor.Contractor.{ContractorEdgeData, ContractorEdge}
use osrm_backend.Contractor.Contractor.WitnessSearch.Walks.{Walk}
use osrm_backend.Contractor.Contractor.ContractNode.{note_shortcut}

-- Among the edges from `start` on is one from `u` to `v` of this length with this flag.
abbrev pub Noted : (ContractorEdge → Bool) → ℕ → Array ContractorEdge → ℕ → ℕ → ℕ → Type 0
Noted flag start edges u v d =
    (k : ℕ) × (start ≤ k)
    × (k < edges.size)
    × ((edges.at k).source ≡ u)
    × ((edges.at k).target ≡ v)
    × ((edges.at k).stored.distance ≡ d)
    × ((edges.at k).stored.shortcut ≡ true)
    × (flag (edges.at k) ≡ true)

abbrev pub goes_forward : ContractorEdge → Bool
goes_forward e = e.stored.forward

abbrev pub goes_backward : ContractorEdge → Bool
goes_backward e = e.stored.backward

Noted-push_back :
    (flag : ContractorEdge → Bool) (start : ℕ) (edges : Array ContractorEdge) (e : ContractorEdge)
    (u v d : ℕ)
    → Noted flag start edges u v d
    → Noted flag start (push_back edges e) u v d
Noted-push_back flag start edges e u v d (k, a, b, s, t, l, c, f) =
    let old : (push_back edges e).at k ≡ edges.at k = ground (arith, b) in
    (k, a, omega (arith, b), rw old s, rw old t, rw old l, rw old c, rw old f)

module _ (g : DynamicGraph ContractorEdgeData) (node : ℕ) where
  abbrev pub edge_at : ℕ → Edge ContractorEdgeData
  edge_at j = g.edge_list.at j

  -- The edge can be taken to the node, or from it.
  abbrev pub Incoming : ℕ → Type 0
  Incoming i = Within (g.node_list.at node) i × ((edge_at i).stored.backward ≡ true)

  abbrev pub Outgoing : ℕ → Type 0
  Outgoing j = Within (g.node_list.at node) j × ((edge_at j).stored.forward ≡ true)

  -- A path of two edges from `u` over the node to `v`, and its length.
  pub record Via (u v d : ℕ) : Type 0 where
    pub in_edge : ℕ
    pub incoming : Incoming in_edge
    pub from : (edge_at in_edge).target ≡ u
    pub out_edge : ℕ
    pub outgoing : Outgoing out_edge
    pub to : (edge_at out_edge).target ≡ v
    pub length : (edge_at in_edge).stored.distance + (edge_at out_edge).stored.distance ≡ d

  abbrev pub Witnessed : ℕ → ℕ → ℕ → Type 0
  Witnessed u v d = (w : ℕ) × Walk g u node v w × (w ≤ d)

  -- A shortcut of the node stands for a path over it, in each direction that it has.
  pub record Sound (e : ContractorEdge) : Type 0 where
    pub middle : e.stored.id ≡ node
    pub shortcut : e.stored.shortcut ≡ true
    pub way : (e.stored.forward ≡ true) ⊎ (e.stored.backward ≡ true)
    pub forth : e.stored.forward ≡ true → Via e.source e.target e.stored.distance
    pub back : e.stored.backward ≡ true → Via e.target e.source e.stored.distance

  abbrev pub Covered : ℕ → Array ContractorEdge → ℕ → ℕ → ℕ → Type 0
  Covered start edges u v d =
      Witnessed u v d
      ⊎ (Noted goes_forward start edges u v d × Noted goes_backward start edges v u d)

  -- The edges that were there first, and the shortcuts of the pairs in `Pairs`.
  pub record Collected (first : Array ContractorEdge) (Pairs : ℕ → ℕ → Type 0)
      (edges : Array ContractorEdge) : Type 0 where
    pub start_le : first.size ≤ edges.size
    pub before : (k : ℕ) → k < first.size → edges.at k ≡ first.at k
    pub sound : (k : ℕ) → first.size ≤ k → k < edges.size → Sound (edges.at k)
    pub covered :
        (i j : ℕ)
        → Pairs i j
        → Incoming i
        → Outgoing j
        → Covered first.size edges
            (edge_at i).target
            (edge_at j).target
            ((edge_at i).stored.distance + (edge_at j).stored.distance)

  -- The same edges, when a pair that is new has a witness.
  pub Collected_witness :
      (first : Array ContractorEdge) (Pairs Pairs' : ℕ → ℕ → Type 0) (edges : Array ContractorEdge)
      → Collected first Pairs edges
      → ((i j : ℕ)
          → Pairs' i j
          → Incoming i
          → Outgoing j
          → Pairs i j
            ⊎ Witnessed
                (edge_at i).target
                (edge_at j).target
                ((edge_at i).stored.distance + (edge_at j).stored.distance))
      → Collected first Pairs' edges
  Collected_witness first Pairs Pairs' edges c new = record {
    start_le = c.start_le;
    before = c.before;
    sound = c.sound;
    covered = λ i j p a b. elim (new i j p a b) [ inl p' ↦ c.covered i j p' a b | inr w ↦ inl w ];
  }

  pub note_shortcut-Collected :
      (first : Array ContractorEdge) (Pairs Pairs' : ℕ → ℕ → Type 0) (i j : ℕ)
      (edges : Array ContractorEdge)
      → Incoming i
      → Outgoing j
      → (edge_at i).stored.distance + (edge_at j).stored.distance < 2 ^ 32
      → Collected first Pairs edges
      → ((a b : ℕ) → Pairs' a b → Pairs a b ⊎ ((a ≡ i) × (b ≡ j)))
      → Collected first Pairs'
          (note_shortcut node (edge_at i).target (edge_at i).stored (edge_at j) edges)
  unfolding note_shortcut
  note_shortcut-Collected first Pairs Pairs' i j edges a b fits c new =
      let exact : ((edge_at i).stored.distance + (edge_at j).stored.distance) % 2 ^ 32
          ≡ (edge_at i).stored.distance + (edge_at j).stored.distance =
        omega (arith, fits) in
      let via : Via (edge_at i).target (edge_at j).target
          (((edge_at i).stored.distance + (edge_at j).stored.distance) % 2 ^ 32) =
        record {
          in_edge = i;
          incoming = a;
          from = refl;
          out_edge = j;
          outgoing = b;
          to = refl;
          length = sym exact;
        } in
      record {
        start_le = omega (arith, c.start_le);
        before = λ k p. ground (arith, c.before k p, c.start_le, p);
        sound = λ k p q. elim (Bool-cases (k == edges.size + 1)) [
          | inl y ↦
              let z : k ≡ edges.size + 1 = ground (arith, y) in
              rw y (record {
                middle = refl;
                shortcut = refl;
                way = inr refl;
                forth = λ f. cc;
                back = λ f. via;
              })
          | inr y ↦ elim (Bool-cases (k == edges.size)) [
            | inl x ↦
                rw (y, x)
                  (record {
                    middle = refl;
                    shortcut = refl;
                    way = inl refl;
                    forth = λ f. via;
                    back = λ f. cc;
                  })
            | inr x ↦ rw (y, x) (c.sound k p (ground (arith, x, y, q)))
          ]
        ];
        covered = λ m n p in_m out_n. elim (new m n p) [
          | inl p' ↦ elim (c.covered m n p' in_m out_n) [
            | inl w ↦ inl w
            | inr (f, r) ↦ inr (
              Noted-push_back goes_forward first.size _ _ _ _ _
                  (Noted-push_back goes_forward first.size _ _ _ _ _ f),
              Noted-push_back goes_backward first.size _ _ _ _ _
                  (Noted-push_back goes_backward first.size _ _ _ _ _ r),
            )
          ]
          | inr (e, f) ↦
              rw (e, f)
                (inr (
                  (
                    edges.size,
                    c.start_le,
                    omega arith,
                    ground arith,
                    ground arith,
                    ground (arith, exact),
                    ground arith,
                    ground arith,
                  ),
                  (
                    edges.size + 1,
                    omega (arith, c.start_le),
                    omega arith,
                    ground arith,
                    ground arith,
                    ground (arith, exact),
                    ground arith,
                    ground arith,
                  ),
                ))
        ];
      }
