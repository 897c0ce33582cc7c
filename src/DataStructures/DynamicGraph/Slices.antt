-- ===== src/DataStructures/DynamicGraph/Slices.antt =====
-- The edges of a node as a list, and what the loops of InsertEdge do to the edge array.
use osrm_backend.Prelude.{
  ℕ, zero, suc, ◌+◌, ◌-◌, ◌≤◌, ◌<◌, ◌≡◌, refl, true, List, [], ◌∷◌, ◌++◌, ltb, Array, update, arith,
  Returns, done, Returns-weaken,
}
use osrm_backend.DataStructures.DynamicGraph.{
  Edge, Node, no_node, make_dummy, copy_edge, move_edges,
}

abbrev pub Within : Node → ℕ → Type 0
Within node j = (node.first_edge ≤ j) × (j < node.first_edge + node.edges)

module _ {D : Type 0} where
  -- The elements from `a` on, `n` of them.
  abbrev pub slice : (ℕ → Edge D) → ℕ → ℕ → List (Edge D)
  slice f a zero = []
  slice f a (suc n) = f a ∷ slice f (a + 1) n

  abbrev pub dummy : Edge D → Edge D
  dummy e = record e { target = no_node }

  pub slice-ext :
      (f g : ℕ → Edge D) (a b n : ℕ)
      → ((i : ℕ) → i < n → f (a + i) ≡ g (b + i))
      → slice f a n ≡ slice g b n
  slice-ext f g a b zero h = refl
  slice-ext f g a b (suc n) h =
      ground (arith, h 0, slice-ext f g (a + 1) (b + 1) n (λ i p. ground (arith, h (i + 1))))

  pub slice-snoc : (f : ℕ → Edge D) (a n : ℕ) → slice f a (suc n) ≡ slice f a n ++ (f (a + n) ∷ [])
  slice-snoc f a zero = ground arith
  slice-snoc f a (suc n) = ground (arith, slice-snoc f (a + 1) n)

  -- What the moving loop leaves in the array.
  pub record Moved (n a b : ℕ) (e e' : Array (Edge D)) : Type 0 where
    pub size_eq : e'.size ≡ e.size
    pub target : (j : ℕ) → b ≤ j → j < b + n → e'.at j ≡ e.at (a + (j - b))
    pub source : (j : ℕ) → a ≤ j → j < a + n → e'.at j ≡ dummy (e.at j)
    pub others : (j : ℕ) → ((j < a) × (j < b)) → e'.at j ≡ e.at j
    pub between : (j : ℕ) → a + n ≤ j → j < b → e'.at j ≡ e.at j
    pub behind : (j : ℕ) → b + n ≤ j → e'.at j ≡ e.at j

  pub move_edges_lem :
      (n a b : ℕ) (e : Array (Edge D))
      → a + n ≤ b
      → b + n ≤ e.size
      → Returns (Moved n a b e) (move_edges n a b e)
  unfolding move_edges copy_edge make_dummy
  move_edges_lem zero a b e p q = done (record {
    size_eq = refl;
    target = λ j h k. absurd (omega arith);
    source = λ j h k. absurd (omega arith);
    others = λ j h. refl;
    between = λ j h k. refl;
    behind = λ j h. refl;
  })
  move_edges_lem (suc n) a b e p q =
      let x : ltb a e.size ≡ true = ground arith in
      let y : ltb b e.size ≡ true = ground arith in
      let next : Array (Edge D) = record e {
        at = update (update e.at b (e.at a)) a (dummy (update e.at b (e.at a) a));
      } in
      let eq : move_edges (suc n) a b e ≡ move_edges n (a + 1) (b + 1) next =
        ground (arith, x, y) in
      rw eq (
        Returns-weaken (move_edges_lem n (a + 1) (b + 1) next (omega arith) (omega arith)) (λ e' m.
          record {
            size_eq = m.size_eq;
            target = λ j h k. ground (arith, m.target j, m.between j);
            source = λ j h k. ground (arith, m.source j, m.others j);
            others = λ j h. ground (arith, m.others j);
            between = λ j h k. ground (arith, m.between j);
            behind = λ j h. ground (arith, m.behind j);
          }))
