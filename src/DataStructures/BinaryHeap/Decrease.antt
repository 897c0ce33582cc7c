-- ===== src/DataStructures/BinaryHeap/Decrease.antt =====
-- DecreaseKey.
use osrm_backend.Prelude.{
  ℕ, ◌-◌, ◌^◌, ◌≤◌, ◌<◌, ◌≡◌, ◌≢◌, ◌∙◌, true, false, Option, none, some, arith, ltb, ◌==◌,
  if◌then◌else◌, update, Returns, done, Returns->>=, Bool-cases, inl, inr,
}
use osrm_backend.DataStructures.BinaryHeap.{BinaryHeap, decrease_key}
use osrm_backend.DataStructures.BinaryHeap.Invariant.{wt, ix, ky, IsValid, Linked, Ordered}
use osrm_backend.DataStructures.BinaryHeap.Sift.{Below}
use osrm_backend.DataStructures.BinaryHeap.Loops.{Placed, upheap_places}
use osrm_backend.DataStructures.BinaryHeap.Entries.{
  Entry, lookup, Waits, lookup-Kept, check_heap_lem, Closed-IsValid,
}

module _ {D : Type 0} where
  abbrev pub set_weight : ℕ → Option (Entry D) → Option (Entry D)
  set_weight w none = none
  set_weight w (some e) = some (record e { weight = w })

  -- The heap after DecreaseKey.
  pub record Decreased (node weight : ℕ) (h h' : BinaryHeap D) : Type 0 where
    pub valid : IsValid h'
    pub entries :
        (m : ℕ) → lookup m h' ≡ (if m == node then set_weight weight (lookup m h) else lookup m h)
    pub same_size : h'.heap.size ≡ h.heap.size

module _ {D : Type 0} (node weight old : ℕ) {h : BinaryHeap D} (v : IsValid h)
    (waits : Waits h node old) (less : weight ≤ old) where
  abbrev index : ℕ
  index = h.node_index.positions node

  abbrev key : ℕ
  key = ky h index

  -- What the entry says of the arrays.
  position :
      (index < h.inserted_nodes.size)
      × ((h.inserted_nodes.at index).node ≡ node)
      × (key ≢ 0)
      × (wt h key ≡ old)
      × (ix h key ≡ index)
      × (key < h.heap.size)
  unfolding lookup
  position =
      ground
        (arith, waits.1, waits.2, waits.3, v.key_lt index, v.index_key index, v.weight_index key)

  -- The heap that DecreaseKey hands to Upheap.
  abbrev lowered : BinaryHeap D
  lowered = record h {
    heap = record (h.heap) {
      at = update h.heap.at key (record (h.heap.at key) { weight = weight });
    };
    inserted_nodes = record (h.inserted_nodes) {
      at =
          update h.inserted_nodes.at index (record (h.inserted_nodes.at index) { weight = weight });
    };
  }

  lowered-Linked : Linked lowered key index h.inserted_nodes.size
  lowered-Linked =
      let p = position in
      record {
        positive = omega (arith, p.2);
        inside = p.5;
        waiting = p.0;
        index_lt = λ i a b n. ground (arith, v.index_lt i);
        index_ne = λ i a b n. ground (arith, v.index_lt i, v.key_index i);
        key_index = λ i a b n. ground (arith, v.key_index i);
        weight_index = λ i a b n. ground (arith, v.weight_index i, v.key_index i);
        key_lt = λ j a m n b. ground (arith, v.key_lt j, v.index_key j, p.4);
        index_key = λ j a m n b. ground (arith, v.index_key j, v.key_lt j, p.4);
      }

  lowered-Ordered : Ordered lowered key
  lowered-Ordered =
      let p = position in
      record {
        bounded = v.bounded;
        sentinel = ground (arith, v.sentinel, p.2);
        order = λ i a b m n. ground (arith, v.order i);
        across = λ i a e b. ground (arith, v.order i, v.order key, p.5);
      }

  lowered-Below : Below lowered key weight
  lowered-Below i a e b = let p = position in ground (arith, v.order i, p.3, less)

  lookup-lowered :
      (m : ℕ)
      → lookup m lowered ≡ (if m == node then set_weight weight (lookup m h) else lookup m h)
  unfolding lookup
  lookup-lowered m = let p = position in ground (arith, p.0, p.1, v.found index)

  lookup-Placed :
      {h' : BinaryHeap D} (m : ℕ)
      → Placed index h.inserted_nodes.size lowered h'
      → lookup m h' ≡ lookup m lowered
  unfolding lookup
  lookup-Placed {h'} m s =
      let k = s.kept in
      let p = position in
      elim (Bool-cases (m == node)) [
        | inl e ↦ ground (
          arith,
          k.index_eq,
          k.count_eq,
          k.node_eq index,
          k.weight_eq index,
          k.stored_eq index,
          s.in_heap,
        )
        | inr e ↦ lookup-Kept m k (λ q. ground (arith, p.1))
      ]

  Placed-Decreased :
      {h' : BinaryHeap D}
      → Placed index h.inserted_nodes.size lowered h'
      → Decreased node weight h h'
  Placed-Decreased {h'} s =
      let k = s.kept in
      let p = position in
      record {
        valid =
            Closed-IsValid s.closed (omega (arith, k.count_eq))
              (λ j q. ground (arith, k.count_eq, k.index_eq, k.node_eq j, v.found j));
        entries = λ m. lookup-Placed m s ∙ lookup-lowered m;
        same_size = k.size_eq;
      }

  -- DecreaseKey of a waiting node other than 2 ^ 32 - 1, in a valid heap, to a weight that is no larger
  -- returns, keeps the invariant, gives the node the new weight, and changes nothing else of any
  -- entry.
  pub decrease_key_correct :
      node ≢ 2 ^ 32 - 1 → Returns (Decreased node weight h) (decrease_key node weight h)
  unfolding decrease_key
  decrease_key_correct real =
      let p = position in
      let valid_id : (node == 2 ^ 32 - 1) ≡ false = ground arith in
      let a : ltb index h.inserted_nodes.size ≡ true = ground arith in
      let b : ltb key h.heap.size ≡ true = ground arith in
      rw (valid_id, a, b)
        (Returns->>=
          (upheap_places {w = weight} lowered-Linked lowered-Ordered (ground (arith, p.4))
            (omega (arith, p.0)) (ground arith) lowered-Below)
          (λ h' s. rw (check_heap_lem h' s.closed.order) (done (Placed-Decreased s))))
