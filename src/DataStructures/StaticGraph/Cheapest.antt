-- ===== src/DataStructures/StaticGraph/Cheapest.antt =====
-- FindEdge and the two searches in both directions find the cheapest edge.
use osrm_backend.Prelude.{
  ℕ, zero, suc, ◌+◌, ◌-◌, ◌≤◌, ◌<◌, ◌≡◌, ◌≢◌, ◌⊎◌, inl, inr, refl, ◌==◌, ◌&&◌, Bool, true, false,
  ltb, arith, Returns, done, Returns-weaken, Returns->>=, Bool-cases,
}
use osrm_backend.Prelude.Int.{ℤ, ltb_ℤ}
use mathlib.Core.Path.{subst, ap}
use osrm_backend.DataStructures.StaticGraph.{
  StaticGraph, special_id, invalid_edge_weight, begin_edges, end_edges, smaller, find_from,
  find_edge, find_edge_in_either_direction, find_edge_indicate_if_reverse,
}

module _ {D : Type 0} (distance : D → ℤ) where
  abbrev pub weight : StaticGraph D → ℕ → ℤ
  weight g j = distance (g.edge_array.at j).stored

  -- Node entries that never decrease and stay in the edge array, ids below the special one, and
  -- weights below the invalid one.
  pub record IsValid (g : StaticGraph D) : Type 0 where
    pub ordered : (n : ℕ) → n + 1 < g.node_array.size → g.node_array.at n ≤ g.node_array.at (n + 1)
    pub inside : (n : ℕ) → n < g.node_array.size → g.node_array.at n ≤ g.edge_array.size
    pub few : g.edge_array.size ≤ special_id
    pub light : (j : ℕ) → j < g.edge_array.size → ltb_ℤ (weight g j) invalid_edge_weight ≡ true

  -- No edge of the range leads to the node.
  abbrev pub NoEdge : ℕ → ℕ → ℕ → StaticGraph D → Type 0
  NoEdge to first end g = (j : ℕ) → first ≤ j → j < end → (g.edge_array.at j).target ≢ to

  -- The first of the lightest edges of the range that lead to the node.
  pub record IsCheapest (to first end : ℕ) (g : StaticGraph D) (r : ℕ) : Type 0 where
    pub from_first : first ≤ r
    pub before_end : r < end
    pub leads : (g.edge_array.at r).target ≡ to
    pub lightest :
        (j : ℕ)
        → first ≤ j
        → j < end
        → (g.edge_array.at j).target ≡ to
        → ltb_ℤ (weight g j) (weight g r) ≡ false
    pub earliest :
        (j : ℕ)
        → first ≤ j
        → j < r
        → (g.edge_array.at j).target ≡ to
        → ltb_ℤ (weight g r) (weight g j) ≡ true

  -- What the loop has found in the edges before `end`.
  abbrev Best : ℕ → ℕ → ℕ → StaticGraph D → ℕ × ℤ → Type 0
  Best to first end g b =
      ((b ≡ (special_id, invalid_edge_weight)) × NoEdge to first end g)
      ⊎ ((b.1 ≡ weight g b.0) × IsCheapest to first end g b.0)

  smaller-Best :
      (to first edge : ℕ) (g : StaticGraph D) (b : ℕ × ℤ)
      → first ≤ edge
      → ltb_ℤ (weight g edge) invalid_edge_weight ≡ true
      → Best to first edge g b
      → Best to first (edge + 1) g (smaller distance to edge (g.edge_array.at edge) b)
  unfolding smaller
  smaller-Best to first edge g b p q (inl (e, none_yet)) =
      elim (Bool-cases ((g.edge_array.at edge).target == to)) [
        | inl t ↦
            let eq : smaller distance to edge (g.edge_array.at edge) b ≡ (edge, weight g edge) =
              ground (arith, e, t, q) in
            rw eq (
              inr (
                refl,
                record {
                  from_first = p;
                  before_end = omega arith;
                  leads = ground arith;
                  lightest = λ j a c z. ground (arith, none_yet j);
                  earliest = λ j a c z. absurd (none_yet j a c z);
                },
              ))
        | inr t ↦
            let eq : smaller distance to edge (g.edge_array.at edge) b ≡ b = ground (arith, t) in
            rw eq (inl (e, λ j a c. ground (arith, none_yet j, t)))
      ]
  smaller-Best to first edge g b p q (inr (e, c)) =
      elim (Bool-cases ((g.edge_array.at edge).target == to && ltb_ℤ (weight g edge) b.1)) [
        | inl t ↦
            let eq : smaller distance to edge (g.edge_array.at edge) b ≡ (edge, weight g edge) =
              ground (arith, t) in
            rw eq (
              inr (
                refl,
                record {
                  from_first = p;
                  before_end = omega arith;
                  leads = ground arith;
                  lightest = λ j a d z. ground (arith, e, t, c.lightest j);
                  earliest = λ j a d z. ground (arith, e, t, c.lightest j);
                },
              ))
        | inr t ↦
            let eq : smaller distance to edge (g.edge_array.at edge) b ≡ b = ground (arith, t) in
            rw eq (
              inr (
                e,
                record {
                  from_first = c.from_first;
                  before_end = omega (arith, c.before_end);
                  leads = c.leads;
                  lightest = λ j a d z. ground (arith, e, t, c.lightest j);
                  earliest = c.earliest;
                },
              ))
      ]

  find_from_lem :
      (n edge to first : ℕ) (b : ℕ × ℤ) (g : StaticGraph D)
      → IsValid g
      → first ≤ edge
      → edge + n ≤ g.edge_array.size
      → Best to first edge g b
      → Returns (Best to first (edge + n) g) (find_from distance n edge to b g)
  unfolding find_from
  find_from_lem zero edge to first b g val p q h =
      let z : edge + 0 ≡ edge = omega arith in rw z (done h)
  find_from_lem (suc n) edge to first b g val p q h =
      let a : ltb edge g.edge_array.size ≡ true = ground arith in
      let z : edge + suc n ≡ edge + 1 + n = omega arith in
      rw (a, z)
        (find_from_lem n (edge + 1) to first _ g val (omega arith) (omega arith)
          (smaller-Best to first edge g b p (val.light edge (omega arith)) h))

  -- No edge of the node leads to the other.
  abbrev pub Unlinked : ℕ → ℕ → StaticGraph D → Type 0
  Unlinked from to g = NoEdge to (g.node_array.at from) (g.node_array.at (from + 1)) g

  abbrev pub Cheapest : ℕ → ℕ → StaticGraph D → ℕ → Type 0
  Cheapest from to g r = IsCheapest to (g.node_array.at from) (g.node_array.at (from + 1)) g r

  abbrev pub Answer : ℕ → ℕ → StaticGraph D → ℕ → Type 0
  Answer from to g r =
      ((r ≡ special_id) × Unlinked from to g) ⊎ ((r ≢ special_id) × Cheapest from to g r)

  -- In a valid graph, FindEdge at an existing node returns the first of the lightest edges that lead
  -- to the target, or SPECIAL_EDGEID when none does.
  pub find_cheapest :
      (from to : ℕ) (g : StaticGraph D)
      → IsValid g
      → from + 1 < g.node_array.size
      → Returns (Answer from to g) (find_edge distance from to g)
  unfolding find_edge begin_edges end_edges
  find_cheapest from to g val f =
      let a : ltb from g.node_array.size ≡ true = ground arith in
      let b : ltb (from + 1) g.node_array.size ≡ true = ground arith in
      let first = g.node_array.at from in
      let end = g.node_array.at (from + 1) in
      let o : first ≤ end = val.ordered from f in
      let z : first + (end - first) ≡ end = omega (arith, o) in
      let i = val.inside (from + 1) f in
      rw (a, b)
        (Returns->>=
          (find_from_lem (end - first) first to first (special_id, invalid_edge_weight) g val
            (omega arith) (omega (arith, i, z)) (inl (refl, λ j p q. absurd (omega arith))))
          (λ best h. done (answer best (subst (λ x. Best to first x g best) z h))))
    where
      answer :
          (best : ℕ × ℤ)
          → Best to (g.node_array.at from) (g.node_array.at (from + 1)) g best
          → Answer from to g best.0
      answer best (inl (e, n)) = inl (ap (λ x. x.0) e, n)
      answer best (inr (e, c)) =
          inr ((λ x. absurd (omega (arith, x, c.before_end, val.inside (from + 1) f, val.few))), c)

  -- In a valid graph, FindEdgeInEitherDirection returns the cheapest edge to the target, or, when there is none, what
  -- FindEdge returns for the way back.
  either_direction_lem :
      (from to : ℕ) (g : StaticGraph D)
      → IsValid g
      → from + 1 < g.node_array.size
      → to + 1 < g.node_array.size
      → Returns
          (λ r.
            ((r ≢ special_id) × Cheapest from to g r) ⊎ (Unlinked from to g × Answer to from g r))
          (find_edge_in_either_direction distance from to g)
  unfolding find_edge_in_either_direction
  either_direction_lem from to g val f t = Returns->>= (find_cheapest from to g val f) (λ r h.
      elim h [
        | inl (e, n) ↦
            let a : (r == special_id) ≡ true = ground (arith, e) in
            rw a (Returns-weaken (find_cheapest to from g val t) (λ x y. inr (n, y)))
        | inr (e, c) ↦
            let a : (r == special_id) ≡ false = ground (arith, e) in rw a (done (inl (e, c)))
      ])

  -- In a valid graph, FindEdgeIndicateIfReverse returns the cheapest edge to the target, or, when
  -- there is none, the cheapest of the way back; it sets the flag exactly in this second case, when
  -- an edge is found.
  indicate_reverse_lem :
      (from to : ℕ) (result : Bool) (g : StaticGraph D)
      → IsValid g
      → from + 1 < g.node_array.size
      → to + 1 < g.node_array.size
      → Returns
          (λ p.
            ((p.0 ≢ special_id) × Cheapest from to g p.0 × (p.1 ≡ result))
            ⊎ (Unlinked from to g
                × (((p.0 ≡ special_id) × Unlinked to from g × (p.1 ≡ result))
                    ⊎ ((p.0 ≢ special_id) × Cheapest to from g p.0 × (p.1 ≡ true)))))
          (find_edge_indicate_if_reverse distance from to result g)
  unfolding find_edge_indicate_if_reverse
  indicate_reverse_lem from to result g val f t =
      Returns->>= (find_cheapest from to g val f) (λ r h. elim h [
        | inl (e, n) ↦
            let a : (r == special_id) ≡ true = ground (arith, e) in
            rw a (
              Returns->>= (find_cheapest to from g val t) (λ x y. elim y [
                | inl (d, m) ↦
                    let b : (x == special_id) ≡ true = ground (arith, d) in
                    rw b (done (inr (n, inl (d, m, refl))))
                | inr (d, c) ↦
                    let b : (x == special_id) ≡ false = ground (arith, d) in
                    rw b (done (inr (n, inr (d, c, refl))))
              ]))
        | inr (e, c) ↦
            let a : (r == special_id) ≡ false = ground (arith, e) in rw a (done (inl (e, c, refl)))
      ])
