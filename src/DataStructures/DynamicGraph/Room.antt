-- ===== src/DataStructures/DynamicGraph/Room.antt =====
-- InsertEdge: how the edge array gets room for one more edge behind those of a node.
use osrm_backend.Prelude.{
  ℕ, zero, suc, ◌+◌, ◌-◌, ◌≤◌, ◌<◌, ◌≡◌, ◌≢◌, refl, Bool, true, ◌&&◌, some, ltb, ◌==◌, Array,
  update, arith, Returns, done, Returns-weaken, Returns->>=, Bool-cases, inl, inr,
}
use mathlib.Core.List.{Perm, perm_append_singleton}
use mathlib.Core.List.Perm as Perm
use osrm_backend.DataStructures.DynamicGraph.{
  Edge, Node, no_node, new_size, is_dummy, make_dummy, copy_edge, make_dummies, relocate, make_room,
}
use osrm_backend.DataStructures.DynamicGraph.Slices.{
  slice, dummy, slice-ext, slice-snoc, move_edges_lem, Within,
}

module _ {D : Type 0} where
  pub record Cleared (n a : ℕ) (e e' : Array (Edge D)) : Type 0 where
    pub size_eq : e'.size ≡ e.size
    pub before : (j : ℕ) → j < a → e'.at j ≡ e.at j

  pub make_dummies_lem :
      (n a : ℕ) (e : Array (Edge D)) → a + n ≤ e.size → Returns (Cleared n a e) (make_dummies n a e)
  unfolding make_dummies make_dummy
  make_dummies_lem zero a e p = done (record { size_eq = refl; before = λ j h. refl })
  make_dummies_lem (suc n) a e p =
      let x : ltb a e.size ≡ true = ground arith in
      let next : Array (Edge D) = record e { at = update e.at a (dummy (e.at a)) } in
      let eq : make_dummies (suc n) a e ≡ make_dummies n (a + 1) next = ground (arith, x) in
      rw eq (
        Returns-weaken (make_dummies_lem n (a + 1) next (omega arith))
          (λ e' c. record { size_eq = c.size_eq; before = λ j h. ground (arith, c.before j) }))

  -- The node's edges stand from `first` on, in some order, with a place behind them that no other
  -- edge takes.
  pub record Room (node : Node) (e : Array (Edge D)) (first : ℕ) (e' : Array (Edge D))
      : Type 0 where
    pub grows : e.size ≤ e'.size
    pub fits : first + node.edges < e'.size
    pub same : Perm (slice e'.at first node.edges) (slice e.at node.first_edge node.edges)
    pub others :
        (j : ℕ) → j < e.size → ¬ Within node j → (e.at j).target ≢ no_node → e'.at j ≡ e.at j
    pub free :
        (j : ℕ)
        → j < e.size
        → first ≤ j
        → j ≤ first + node.edges
        → (e.at j).target ≢ no_node
        → Within node j
    pub real :
        ((j : ℕ) → Within node j → (e.at j).target ≢ no_node)
        → (j : ℕ) → first ≤ j
        → j < first + node.edges
        → (e'.at j).target ≢ no_node

  abbrev pub Grants : Node → Array (Edge D) → ℕ × Array (Edge D) → Type 0
  Grants node e r = Room node e r.0 r.1

  pub relocate_lem :
      (blank : Edge D) (node : Node) (e : Array (Edge D))
      → node.first_edge + node.edges ≤ e.size
      → Returns (Grants node e) (relocate blank node e)
  unfolding relocate
  relocate_lem blank node e p =
      Returns->>= (move_edges_lem node.edges node.first_edge e.size _ p (omega arith)) (λ e₁ m.
        Returns->>=
          (make_dummies_lem (new_size node.edges - (node.edges + 1)) (e.size + (node.edges + 1)) e₁
            (omega (arith, m.size_eq)))
          (λ e₂ c. done (record {
            grows = omega (arith, m.size_eq, c.size_eq);
            fits = omega (arith, m.size_eq, c.size_eq);
            same =
                rw
                  (slice-ext e₂.at e.at e.size node.first_edge node.edges
                    (λ i q. ground (arith, c.before (e.size + i), m.target (e.size + i))))
                  Perm.rfl;
            others = λ j a b t. ground (arith, c.before j, m.between j, m.others j);
            free = λ j a b t u. absurd (omega arith);
            real = λ h j a b.
                ground (arith, c.before j, m.target j, h (node.first_edge + (j - e.size)));
          })))

  shift-Perm :
      (f n : ℕ) (g : ℕ → Edge D)
      → 0 < f
      → Perm (slice (update g (f - 1) (g (f - 1 + n))) (f - 1) n) (slice g f n)
  shift-Perm f zero g p = Perm.rfl
  shift-Perm f (suc n) g p =
      let a : update g (f - 1) (g (f - 1 + suc n)) (f - 1) ≡ g (f + n) = ground arith in
      let b : slice (update g (f - 1) (g (f - 1 + suc n))) (f - 1 + 1) n ≡ slice g f n =
        slice-ext _ g (f - 1 + 1) f n (λ i q. ground arith) in
      rw (a, b, slice-snoc g f n) (Perm.symm (perm_append_singleton (g (f + n)) (slice g f n)))

  pub shift_lem :
      (node : Node) (e : Array (Edge D))
      → node.first_edge + node.edges ≤ e.size
      → 0 < node.first_edge
      → (e.at (node.first_edge - 1)).target ≡ no_node
      → Room node e (node.first_edge - 1) (record e {
        at = update e.at (node.first_edge - 1) (e.at (node.first_edge - 1 + node.edges));
      })
  shift_lem node e p q d = record {
    grows = omega arith;
    fits = omega arith;
    same = shift-Perm node.first_edge node.edges e.at q;
    others = λ j a b t. ground arith;
    free = λ j a b t u. (ground arith, ground arith);
    real = λ h j a b. ground (arith, h j, h (node.first_edge - 1 + node.edges));
  }

  stay_lem :
      (node : Node) (e : Array (Edge D))
      → node.first_edge + node.edges < e.size
      → (e.at (node.first_edge + node.edges)).target ≡ no_node
      → Room node e node.first_edge e
  stay_lem node e p d = record {
    grows = omega arith;
    fits = omega arith;
    same = Perm.rfl;
    others = λ j a b t. refl;
    free = λ j a b t u. (ground arith, ground arith);
    real = λ h j a b. h j (a, b);
  }

  behind_free : Node → Array (Edge D) → Bool
  behind_free node e =
      ltb (node.first_edge + node.edges) e.size
      && ((e.at (node.first_edge + node.edges)).target == no_node)

  before_free : Node → Array (Edge D) → Bool
  before_free node e = ltb 0 node.first_edge && ((e.at (node.first_edge - 1)).target == no_node)

  -- There is room afterwards, whichever of the three ways is taken.
  pub make_room_lem :
      (blank : Edge D) (node : Node) (e : Array (Edge D))
      → node.first_edge + node.edges ≤ e.size
      → Returns (Grants node e) (make_room blank node e)
  unfolding make_room is_dummy copy_edge behind_free before_free
  make_room_lem blank node e p = elim (Bool-cases (behind_free node e)) [
    | inl s ↦
        let eq : make_room blank node e ≡ some (node.first_edge, e) = ground (arith, s) in
        rw eq (done (stay_lem node e (ground arith) (ground arith)))
    | inr s ↦ elim (Bool-cases (before_free node e)) [
      | inl t ↦
          let shifted : Array (Edge D) = record e {
            at = update e.at (node.first_edge - 1) (e.at (node.first_edge - 1 + node.edges));
          } in
          let eq : make_room blank node e ≡ some (node.first_edge - 1, shifted) =
            ground (arith, s, t) in
          rw eq (done (shift_lem node e p (ground arith) (ground arith)))
      | inr t ↦
          let eq : make_room blank node e ≡ relocate blank node e = ground (arith, s, t) in
          rw eq (relocate_lem blank node e p)
    ]
  ]
