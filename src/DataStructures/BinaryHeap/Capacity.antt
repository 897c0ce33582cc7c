-- ===== src/DataStructures/BinaryHeap/Capacity.antt =====
-- A heap of nodes below a bound is no larger than the bound.
use osrm_backend.Prelude.{ℕ, ◌+◌, ◌-◌, ◌≤◌, ◌<◌, ◌≡◌, some, arith, ◌∙◌, sym, ap}
use osrm_backend.Prelude.Pigeonhole.{pigeonhole}
use osrm_backend.DataStructures.BinaryHeap.{BinaryHeap, was_inserted}
use osrm_backend.DataStructures.BinaryHeap.Invariant.{IsValid, ix, ky}
use osrm_backend.DataStructures.BinaryHeap.Entries.{Entry, lookup, entry_of}

module _ {D : Type 0} (n : ℕ) {h : BinaryHeap D} (v : IsValid h)
    (below : (m : ℕ) (e : Entry D) → lookup m h ≡ some e → m < n) where
  -- The node at a position of the heap.
  abbrev node_at : ℕ → ℕ
  node_at i = (h.inserted_nodes.at (ix h (i + 1))).node

  recorded : (j : ℕ) → j < h.inserted_nodes.size → (h.inserted_nodes.at j).node < n
  unfolding lookup was_inserted
  recorded j p =
      below (h.inserted_nodes.at j).node (entry_of (h.inserted_nodes.at j))
        (ground (arith, p, v.found j p))

  pub heap_size_le : h.heap.size ≤ n + 1
  heap_size_le =
      let few : h.heap.size - 1 ≤ n =
        pigeonhole (h.heap.size - 1) n node_at
          (λ i p. recorded (ix h (i + 1)) (v.index_lt (i + 1) (omega arith) (omega (arith, p))))
          (λ i j p q e.
            let a = v.index_lt (i + 1) (omega arith) (omega (arith, p)) in
            let b = v.index_lt (j + 1) (omega arith) (omega (arith, q)) in
            let same : ix h (i + 1) ≡ ix h (j + 1) =
              sym (v.found (ix h (i + 1)) a)
              ∙ ap h.node_index.positions e
              ∙ v.found (ix h (j + 1)) b in
            let next : i + 1 ≡ j + 1 =
              sym (v.key_index (i + 1) (omega arith) (omega (arith, p)))
              ∙ ap (ky h) same
              ∙ v.key_index (j + 1) (omega arith) (omega (arith, q)) in
            omega (arith, next)) in
      omega (arith, few)

  -- So are the recorded nodes.
  pub inserted_size_le : h.inserted_nodes.size ≤ n
  inserted_size_le =
      pigeonhole h.inserted_nodes.size n (λ j. (h.inserted_nodes.at j).node) recorded
        (λ i j p q e. sym (v.found i p) ∙ ap h.node_index.positions e ∙ v.found j q)
