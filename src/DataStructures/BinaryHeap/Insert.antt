-- ===== src/DataStructures/BinaryHeap/Insert.antt =====
-- Insert.
use osrm_backend.Prelude.{
  ℕ, ◌+◌, ◌^◌, ◌<◌, ◌≡◌, ◌≢◌, false, some, arith, ◌==◌, if◌then◌else◌, push_back, Returns, done,
  Returns->>=, Bool-cases, inl, inr,
}
use osrm_backend.DataStructures.BinaryHeap.{BinaryHeap, was_inserted, insert, assign}
use osrm_backend.DataStructures.BinaryHeap.Invariant.{IsValid, Linked, Ordered}
use osrm_backend.DataStructures.BinaryHeap.Loops.{Placed, upheap_places}
use osrm_backend.DataStructures.BinaryHeap.Entries.{
  lookup, lookup-Kept, check_heap_lem, Closed-IsValid,
}

module _ {D : Type 0} (node weight : ℕ) (d : D) {h : BinaryHeap D} (v : IsValid h) where
  -- The heap that Insert hands to Upheap.
  abbrev pushed : BinaryHeap D
  pushed = record {
    heap = push_back h.heap (record { index = h.inserted_nodes.size; weight = weight });
    inserted_nodes =
        push_back h.inserted_nodes
          (record { node = node; key = h.heap.size; weight = weight; stored = d });
    node_index = assign h.node_index node h.inserted_nodes.size;
  }

  pushed-Linked : Linked pushed h.heap.size h.inserted_nodes.size (h.inserted_nodes.size + 1)
  pushed-Linked = record {
    positive = v.nonempty;
    inside = omega arith;
    waiting = omega arith;
    index_lt = λ i p q n. ground (arith, v.index_lt i);
    index_ne = λ i p q n. ground (arith, v.index_lt i);
    key_index = λ i p q n. ground (arith, v.key_index i, v.index_lt i);
    weight_index = λ i p q n. ground (arith, v.weight_index i, v.index_lt i);
    key_lt = λ j p m n q. ground (arith, v.key_lt j);
    index_key = λ j p m n q. ground (arith, v.key_lt j, v.index_key j);
  }

  pushed-Ordered : h.heap.size + 1 < 2 ^ 31 → Ordered pushed h.heap.size
  pushed-Ordered b = record {
    bounded = b;
    sentinel = ground (arith, v.sentinel, v.nonempty);
    order = λ i p q m n. ground (arith, v.order i);
    across = λ i p e q. absurd (omega arith);
  }

  pushed_found :
      was_inserted node h ≡ false
      → (j : ℕ) → j < h.inserted_nodes.size + 1
      → pushed.node_index.positions (pushed.inserted_nodes.at j).node ≡ j
  unfolding was_inserted
  pushed_found fresh j p = ground (arith, v.found j)

  lookup-pushed : was_inserted node h ≡ false → (m : ℕ) → m ≢ node → lookup m pushed ≡ lookup m h
  unfolding lookup
  lookup-pushed fresh m n = ground (arith, v.found (h.node_index.positions m))

module _ {D : Type 0} where
  -- The heap after Insert.
  pub record Inserted (node weight : ℕ) (d : D) (h h' : BinaryHeap D) : Type 0 where
    pub valid : IsValid h'
    pub entries :
        (m : ℕ)
        → lookup m h' ≡ (
            if m == node
            then some (record { weight = weight; stored = d; removed = false })
            else lookup m h)
    pub larger : h'.heap.size ≡ h.heap.size + 1
    pub index_eq : h'.node_index ≡ assign h.node_index node h.inserted_nodes.size

module _ {D : Type 0} (node weight : ℕ) (d : D) {h : BinaryHeap D} (v : IsValid h) where
  Placed-Inserted :
      {h' : BinaryHeap D}
      → was_inserted node h ≡ false
      → Placed h.inserted_nodes.size (h.inserted_nodes.size + 1) (pushed node weight d v) h'
      → Inserted node weight d h h'
  unfolding lookup
  Placed-Inserted {h'} fresh s =
      let k = s.kept in
      let p = pushed node weight d v in
      record {
        valid = Closed-IsValid s.closed (omega (arith, k.count_eq)) (λ j q.
            ground
              (arith, k.count_eq, k.index_eq, k.node_eq j, pushed_found node weight d v fresh j));
        entries = λ m. elim (Bool-cases (m == node)) [
          | inl e ↦ ground (
            arith,
            k.count_eq,
            k.index_eq,
            k.node_eq h.inserted_nodes.size,
            k.weight_eq h.inserted_nodes.size,
            k.stored_eq h.inserted_nodes.size,
            s.in_heap,
          )
          | inr e ↦ ground (
            arith,
            lookup-Kept m k (λ q. ground arith),
            lookup-pushed node weight d v fresh m (ground arith),
          )
        ];
        larger = k.size_eq;
        index_eq = k.index_eq;
      }

  -- Insert of a node that is not in the records of a valid heap with fewer than 2 ^ 31 - 1 elements, the
  -- sentinel among them, returns, keeps the invariant, records exactly the node with its weight and
  -- its data as waiting, and changes no other node's entry.
  pub insert_correct :
      was_inserted node h ≡ false
      → h.heap.size + 1 < 2 ^ 31
      → Returns (Inserted node weight d h) (insert node weight d h)
  unfolding insert
  insert_correct fresh b =
      Returns->>=
        (upheap_places {w = weight} (pushed-Linked node weight d v)
          (pushed-Ordered node weight d v b) (ground arith) (omega arith) (ground arith)
          (λ i p q s. absurd (omega arith)))
        (λ h' s. rw (check_heap_lem h' s.closed.order) (done (Placed-Inserted fresh s)))
