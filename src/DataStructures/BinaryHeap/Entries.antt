-- ===== src/DataStructures/BinaryHeap/Entries.antt =====
-- The heap as a finite map from nodes to entries, which is what its clients rely on.
use osrm_backend.Prelude.{
  ℕ, zero, suc, ◌+◌, ◌-◌, ◌/◌, ◌≤◌, ◌<◌, ◌≡◌, ◌≢◌, refl, Bool, true, false, Option, none, some,
  arith, ◌==◌, if◌then◌else◌, Bool-cases, inl, inr,
}
use osrm_backend.DataStructures.BinaryHeap.{
  HeapNode, BinaryHeap, was_inserted, check_heap, check_from,
}
use osrm_backend.DataStructures.BinaryHeap.Invariant.{wt, IsValid, Kept}
use osrm_backend.DataStructures.BinaryHeap.Sift.{Closed}

pub record Entry (D : Type 0) : Type 0 where
  pub weight : ℕ
  pub stored : D
  pub removed : Bool

module _ {D : Type 0} where
  abbrev pub entry_of : HeapNode D → Entry D
  entry_of n = record { weight = n.weight; stored = n.stored; removed = n.key == 0 }

  -- What the heap knows of a node.
  unfoldable pub lookup : ℕ → BinaryHeap D → Option (Entry D)
  unfolding was_inserted
  lookup node h =
      if was_inserted node h
      then some (entry_of (h.inserted_nodes.at (h.node_index.positions node)))
      else none

  -- A node waits in the heap with this weight.
  abbrev pub Waits : BinaryHeap D → ℕ → ℕ → Type 0
  Waits h node weight =
      (e : Entry D) × (lookup node h ≡ some e) × (e.weight ≡ weight) × (e.removed ≡ false)

  -- Sifting changes no entry but, at most, that of the placed node `r`.
  pub lookup-Kept :
      {r : ℕ} {h h' : BinaryHeap D} (m : ℕ)
      → Kept r h h'
      → (h.node_index.positions m ≡ r → (h.inserted_nodes.at r).node ≢ m)
      → lookup m h' ≡ lookup m h
  unfolding lookup
  lookup-Kept {r} {h} {h' = h'} m k n =
      let j = h.node_index.positions m in
      let p : h'.node_index.positions m ≡ j = cc (k.index_eq) in
      elim (Bool-cases (j == r)) [
        | inl e ↦ ground (arith, p, k.count_eq, k.node_eq j, n)
        | inr e ↦
            rw
              (p, k.count_eq, k.node_eq j, k.weight_eq j, k.stored_eq j, k.zero_eq j (ground arith))
      ]

  check_from_lem :
      (n i : ℕ) (h : BinaryHeap D)
      → ((m : ℕ) → i ≤ m → m < i + n → wt h (m / 2) ≤ wt h m)
      → check_from n i h ≡ true
  unfolding check_from
  check_from_lem zero i h o = refl
  check_from_lem (suc n) i h o =
      ground (arith, o i, check_from_lem n (i + 1) h (λ m p q. o m (omega arith) (omega arith)))

  pub check_heap_lem :
      (h : BinaryHeap D)
      → ((i : ℕ) → 2 ≤ i → i < h.heap.size → wt h (i / 2) ≤ wt h i)
      → check_heap h ≡ true
  unfolding check_heap
  check_heap_lem h o = check_from_lem (h.heap.size - 2) 2 h (λ m p q. o m p (omega arith))

  pub Closed-IsValid :
      {h : BinaryHeap D} {x : ℕ}
      → Closed h x
      → h.inserted_nodes.size ≤ x
      → ((j : ℕ)
          → j < h.inserted_nodes.size
          → h.node_index.positions (h.inserted_nodes.at j).node ≡ j)
      → IsValid h
  Closed-IsValid c p f = record {
    nonempty = c.nonempty;
    bounded = c.bounded;
    sentinel = c.sentinel;
    order = c.order;
    index_lt = c.index_lt;
    key_index = c.key_index;
    weight_index = c.weight_index;
    key_lt = λ j q n. c.key_lt j q (omega arith) n;
    index_key = λ j q n. c.index_key j q (omega arith) n;
    found = f;
  }
