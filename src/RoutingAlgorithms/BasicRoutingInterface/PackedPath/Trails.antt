-- ===== src/RoutingAlgorithms/BasicRoutingInterface/PackedPath/Trails.antt =====
-- Following the parents ends at a source, and gives the nodes of a path.
use osrm_backend.Prelude.{
  ℕ, zero, suc, ◌+◌, ◌<◌, ◌≡◌, refl, sym, ◌∙◌, Bool, true, false, some, List, [], ◌∷◌, ◌++◌, arith,
  Returns, done, Returns->>=, Returns-weaken, Bool-cases, inl, inr, ◌==◌,
}
use mathlib.Core.List.{reverse, append_assoc, append-nil}
use mathlib.Core.Path.{subst}
use osrm_backend.DataStructures.StaticGraph.{StaticGraph}
use osrm_backend.DataStructures.BinaryHeap.{BinaryHeap}
use osrm_backend.DataStructures.BinaryHeap.Entries.{Entry, lookup}
use osrm_backend.DataStructures.BinaryHeap.Queries.{queries_correct}
use osrm_backend.RoutingAlgorithms.BasicRoutingInterface.{EdgeData}
use osrm_backend.RoutingAlgorithms.BasicRoutingInterface.Search.{HeapData}
use osrm_backend.RoutingAlgorithms.BasicRoutingInterface.Search.Tracks.{Leads, HasParent}
use osrm_backend.RoutingAlgorithms.BasicRoutingInterface.PackedPath.{
  parent_of, retrieve_loop, retrieve_packed_path_from_single_heap, retrieve_packed_path_from_heap,
}

module _ (g : StaticGraph EdgeData) where
  -- A path from a source to the node, its length, and the nodes before the node, the last one first.
  pub data Trail (dir : Bool) (start : ℕ → ℕ → Type 0) : ℕ → ℕ → List ℕ → Type 0 where
    at_start : {v w : ℕ} → start v w → Trail dir start v w []
    onward :
        {u v w c : ℕ} {xs : List ℕ}
        → Trail dir start u w xs
        → Leads g dir u v c
        → Trail dir start v (w + c) (u ∷ xs)

  -- What a search keeps of the ways to the nodes.
  abbrev pub Tree : Bool → (ℕ → ℕ → Type 0) → BinaryHeap HeapData → Type 0
  Tree dir start h =
      (m : ℕ) (e : Entry HeapData) → lookup m h ≡ some e → HasParent g dir start h m e

  parent_of-lookup :
      (m : ℕ) (h : BinaryHeap HeapData) (e : Entry HeapData)
      → lookup m h ≡ some e
      → parent_of m h ≡ some e.stored.parent
  unfolding parent_of
  parent_of-lookup m h e p = rw (((queries_correct m h).0 e p).stored) refl

  -- A node that was reached over an edge is not its own parent.
  differs :
      (m : ℕ) (e p : Entry HeapData) (h : BinaryHeap HeapData) (c : ℕ)
      → lookup m h ≡ some e
      → lookup e.stored.parent h ≡ some p
      → 0 < c
      → e.weight ≡ p.weight + c
      → (m == e.stored.parent) ≡ false
  differs m e p h c found parent positive sum = elim (Bool-cases (m == e.stored.parent)) [
    | inl y ↦
        let z : m ≡ e.stored.parent = ground arith in
        let w : lookup m h ≡ some p = subst (λ x. lookup x h ≡ some p) (sym z) parent in
        ground (arith, found, w, positive, sum)
    | inr y ↦ y
  ]

  retrieve_loop_lem :
      (dir : Bool) (start : ℕ → ℕ → Type 0) (h : BinaryHeap HeapData)
      → Tree dir start h
      → (fuel m : ℕ) (e : Entry HeapData) (path : List ℕ) → lookup m h ≡ some e
      → e.weight < fuel
      → Returns
          (λ r. (xs : List ℕ) × Trail dir start m e.weight xs × (r ≡ path ++ xs))
          (retrieve_loop fuel m h path)
  unfolding retrieve_loop
  retrieve_loop_lem dir start h t zero m e path found enough = elim enough [ ]
  retrieve_loop_lem dir start h t (suc fuel) m e path found enough =
      rw (parent_of-lookup m h e found) (elim (t m e found) [
        | inl (own, source) ↦
            let same : (m == e.stored.parent) ≡ true = ground arith in
            rw same (done ([], at_start source, sym (append-nil path)))
        | inr (p, c, parent, removed, leads, positive, sum) ↦
            let other : (m == e.stored.parent) ≡ false =
              differs m e p h c found parent positive sum in
            rw other (
              Returns-weaken
                (retrieve_loop_lem dir start h t fuel e.stored.parent p
                  (path ++ (e.stored.parent ∷ [])) parent (omega (arith, positive, sum)))
                (λ r (xs, trail, z). (
                  e.stored.parent ∷ xs,
                  rw sum (onward trail leads),
                  z ∙ append_assoc path (e.stored.parent ∷ []) xs,
                )))
      ])

  -- When the searches in both directions have reached the middle node, and the fuel is more than both of
  -- its distances, RetrievePackedPathFromHeap returns the nodes of a path from a source of the one
  -- search over the middle node to a source of the other, whose halves have these distances.
  pub retrieve_packed_path_correct :
      (start finish : ℕ → ℕ → Type 0) (forward_heap reverse_heap : BinaryHeap HeapData)
      → Tree true start forward_heap
      → Tree false finish reverse_heap
      → (fuel middle : ℕ) (e e' : Entry HeapData) → lookup middle forward_heap ≡ some e
      → lookup middle reverse_heap ≡ some e'
      → e.weight < fuel
      → e'.weight < fuel
      → Returns
          (λ path.
            (xs : List ℕ) × (ys : List ℕ) × Trail true start middle e.weight xs
            × Trail false finish middle e'.weight ys
            × (path ≡ (reverse xs ++ (middle ∷ [])) ++ ys))
          (retrieve_packed_path_from_heap fuel forward_heap reverse_heap middle [])
  unfolding retrieve_packed_path_from_heap retrieve_packed_path_from_single_heap
  retrieve_packed_path_correct start finish f r t t' fuel middle e e' found found' enough enough' =
      Returns->>= (retrieve_loop_lem true start f t fuel middle e [] found enough)
        (λ path (xs, trail, z).
          Returns-weaken
            (retrieve_loop_lem false finish r t' fuel middle e' (reverse path ++ (middle ∷ []))
              found' enough')
            (λ whole (ys, trail', z'). (
              xs,
              ys,
              trail,
              trail',
              subst (λ x. whole ≡ (reverse x ++ (middle ∷ [])) ++ ys) z z',
            )))
