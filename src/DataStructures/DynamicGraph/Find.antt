-- ===== src/DataStructures/DynamicGraph/Find.antt =====
-- FindEdge.
use osrm_backend.Prelude.{
  ℕ, zero, suc, ◌+◌, ◌≤◌, ◌<◌, ◌≡◌, ◌≢◌, ◌==◌, ltb, true, Array, arith, Returns, done,
  Returns-weaken, Bool-cases, inl, inr, some,
}
use osrm_backend.DataStructures.DynamicGraph.{Edge, DynamicGraph, find_from, find_edge}
use osrm_backend.DataStructures.DynamicGraph.Valid.{IsValid}

module _ {D : Type 0} where
  pub record Found (to first n : ℕ) (e : Array (Edge D)) (r : ℕ) : Type 0 where
    pub from_first : first ≤ r
    pub to_end : r ≤ first + n
    pub before : (j : ℕ) → first ≤ j → j < r → (e.at j).target ≢ to
    pub hit : r < first + n → (e.at r).target ≡ to

  find_from_lem :
      (n first to : ℕ) (e : Array (Edge D))
      → first + n ≤ e.size
      → Returns (Found to first n e) (find_from n first to e)
  unfolding find_from
  find_from_lem zero first to e p = done (record {
    from_first = omega arith;
    to_end = omega arith;
    before = λ j a b. absurd (omega arith);
    hit = λ a. absurd (omega arith);
  })
  find_from_lem (suc n) first to e p =
      let a : ltb first e.size ≡ true = ground arith in
      elim (Bool-cases (to == (e.at first).target)) [
        | inl t ↦
            let eq : find_from (suc n) first to e ≡ some first = ground (arith, a, t) in
            rw eq (
              done (record {
                from_first = omega arith;
                to_end = omega arith;
                before = λ j a b. absurd (omega arith);
                hit = λ b. ground arith;
              }))
        | inr t ↦
            let eq : find_from (suc n) first to e ≡ find_from n (first + 1) to e =
              ground (arith, a, t) in
            rw eq (
              Returns-weaken (find_from_lem n (first + 1) to e (omega arith)) (λ r f. record {
                from_first = omega (arith, f.from_first);
                to_end = omega (arith, f.to_end);
                before = λ j a b. ground (arith, f.before j, t);
                hit = λ b. f.hit (omega arith);
              }))
      ]

  -- In a valid graph, FindEdge at an existing node returns the first edge of the node's range that
  -- leads to the target, or the range's end when none does.
  pub find_edge_correct :
      (from to : ℕ) (g : DynamicGraph D)
      → IsValid g
      → from < g.node_list.size
      → Returns
          (Found to (g.node_list.at from).first_edge (g.node_list.at from).edges g.edge_list)
          (find_edge from to g)
  unfolding find_edge
  find_edge_correct from to g val f =
      let a : ltb from g.node_list.size ≡ true = ground arith in
      rw a (find_from_lem _ _ to g.edge_list (val.inside from f))
