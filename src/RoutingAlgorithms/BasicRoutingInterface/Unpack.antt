-- ===== src/RoutingAlgorithms/BasicRoutingInterface/Unpack.antt =====
-- UnpackEdge ends, and returns the original edges that a shortcut stands for.
use osrm_backend.Prelude.{
  ℕ, suc, ◌+◌, ◌-◌, ◌*◌, ◌≤◌, ◌<◌, ◌≡◌, refl, ◌∙◌, ap, true, false, some, List, [], ◌∷◌, ◌++◌,
  arith, Returns, done, Bool-cases, inl, inr,
}
use osrm_backend.Prelude.Int.{pos}
use osrm_backend.Prelude.Order.{lt_wf}
use mathlib.Core.WellFounded
use mathlib.Core.List.{append_assoc}
use osrm_backend.DataStructures.StaticGraph.{EdgeArrayEntry, StaticGraph}
use osrm_backend.RoutingAlgorithms.BasicRoutingInterface.{
  EdgeData, find_arc, unpack_arc, unpack_loop, unpack_edge,
}

module _ (g : StaticGraph EdgeData) where
  -- Between these nodes of the graph the search finds an edge of this weight.
  pub record Arc (u v w : ℕ) : Type 0 where
    pub source_lt : u + 1 < g.node_array.size
    pub target_lt : v + 1 < g.node_array.size
    pub entry : EdgeArrayEntry EdgeData
    pub found : find_arc u v g ≡ some entry
    pub weighs : entry.stored.distance ≡ pos w
    pub positive : 0 < w

  -- The two halves of a shortcut are there, and weigh together what it weighs.
  abbrev pub IsHierarchy : Type 0
  IsHierarchy =
      (u v w : ℕ) (a : Arc u v w)
      → a.entry.stored.shortcut ≡ true
      → (w₁ : ℕ) × (w₂ : ℕ) × Arc u a.entry.stored.id w₁
        × Arc a.entry.stored.id v w₂
        × (w ≡ w₁ + w₂)

  -- A path of original edges, given by the nodes that the edges leave, and its weight.
  pub data Route : ℕ → ℕ → ℕ → List ℕ → Type 0 where
    one : {u v w : ℕ} (a : Arc u v w) → a.entry.stored.shortcut ≡ false → Route u v w (u ∷ [])
    more :
        {u m v w x : ℕ} {xs : List ℕ} (a : Arc u m w)
        → a.entry.stored.shortcut ≡ false
        → Route m v x xs
        → Route u v (w + x) (u ∷ xs)

  Route-append :
      {u m v w x : ℕ} {xs ys : List ℕ}
      → Route u m w xs
      → Route m v x ys
      → Route u v (w + x) (xs ++ ys)
  Route-append (one a o) r = more a o r
  Route-append {x = y} (more {w} {x} a o s) r =
      let z : w + x + y ≡ w + (x + y) = omega arith in rw z (more a o (Route-append s r))

  -- `n` rounds of the loop turn the edge from `u` to `v` into the path.
  data Unpacks : ℕ → ℕ → ℕ → ℕ → List ℕ → Type 0 where
    original :
        {u v w : ℕ} (a : Arc u v w) → a.entry.stored.shortcut ≡ false → Unpacks u v w 1 (u ∷ [])
    halves :
        {u v w w₁ w₂ n₁ n₂ : ℕ} {xs ys : List ℕ} (a : Arc u v w)
        → a.entry.stored.shortcut ≡ true
        → w ≡ w₁ + w₂
        → Unpacks u a.entry.stored.id w₁ n₁ xs
        → Unpacks a.entry.stored.id v w₂ n₂ ys
        → Unpacks u v w (suc (n₁ + n₂)) (xs ++ ys)

  Unpacks-Route : {u v w n : ℕ} {xs : List ℕ} → Unpacks u v w n xs → Route u v w xs
  Unpacks-Route (original a o) = one a o
  Unpacks-Route (halves a s e p q) = rw e (Route-append (Unpacks-Route p) (Unpacks-Route q))

  Unpacks-bound : {u v w n : ℕ} {xs : List ℕ} → Unpacks u v w n xs → n + 1 ≤ 2 * w
  Unpacks-bound (original a o) = omega (arith, a.positive)
  Unpacks-bound (halves a s e p q) = omega (arith, Unpacks-bound p, Unpacks-bound q)

  unpack_loop-Unpacks :
      {u v w n : ℕ} {xs : List ℕ}
      → Unpacks u v w n xs
      → (fuel : ℕ) (stack : List (ℕ × ℕ)) (path : List ℕ)
      → unpack_loop (n + fuel) ((u, v) ∷ stack) path g ≡ unpack_loop fuel stack (path ++ xs) g
  unfolding unpack_loop unpack_arc
  unpack_loop-Unpacks {u} {v} (original a o) fuel stack path =
      let z : 1 + fuel ≡ suc fuel = omega arith in rw (z, a.found, o) refl
  unpack_loop-Unpacks {u} {v} (halves {n₁} {n₂} {xs} {ys} a s e p q) fuel stack path =
      let z : suc (n₁ + n₂) + fuel ≡ suc (n₁ + (n₂ + fuel)) = omega arith in
      rw (z, a.found, s)
        (unpack_loop-Unpacks p (n₂ + fuel) ((a.entry.stored.id, v) ∷ stack) path
          ∙ unpack_loop-Unpacks q fuel stack (path ++ xs)
          ∙ ap (λ l. unpack_loop fuel stack l g) (append_assoc path xs ys))

  unpacks : IsHierarchy → (w u v : ℕ) → Arc u v w → (n : ℕ) × (xs : List ℕ) × Unpacks u v w n xs
  unpacks h w =
      WellFounded.induction lt_wf
        {C = λ w. (u v : ℕ) → Arc u v w → (n : ℕ) × (xs : List ℕ) × Unpacks u v w n xs} w
        (λ w ih u v a. elim (Bool-cases a.entry.stored.shortcut) [
          | inl s ↦
              let (w₁, w₂, p, q, e) = h u v w a s in
              let (n₁, xs, x) = ih w₁ (omega (arith, q.positive)) u a.entry.stored.id p in
              let (n₂, ys, y) = ih w₂ (omega (arith, p.positive)) a.entry.stored.id v q in
              (suc (n₁ + n₂), xs ++ ys, halves a s e x y)
          | inr o ↦ (1, u ∷ [], original a o)
        ])

  -- UnpackEdge of an edge that the search finds in a hierarchy returns, in fewer rounds than twice the
  -- edge's weight, a path of original edges from its source to its target with the same weight; the
  -- path ends with the target.
  pub unpack_edge_correct :
      IsHierarchy
      → (s t w : ℕ) → Arc s t w
      → Returns
          (λ path. (xs : List ℕ) × Route s t w xs × (path ≡ xs ++ (t ∷ [])))
          (unpack_edge (2 * w) s t g)
  unfolding unpack_edge unpack_loop
  unpack_edge_correct h s t w a =
      let (n, xs, u) = unpacks h w s t a in
      let z : 2 * w ≡ n + (2 * w - n) = omega (arith, Unpacks-bound u) in
      rw (z, unpack_loop-Unpacks u (2 * w - n) [] []) (done (xs, Unpacks-Route u, refl))
