-- ===== src/DataStructures/BinaryHeap/Remove.antt =====
-- DeleteMin.
use osrm_backend.Prelude.{
  ℕ, zero, suc, ◌+◌, ◌-◌, ◌/◌, ◌≤◌, ◌<◌, ◌≡◌, refl, true, false, Option, none, some, arith, ltb,
  ◌==◌, if◌then◌else◌, update, Returns, done, Returns->>=, Returns-weaken, Bool-cases, inl, inr,
}
use osrm_backend.DataStructures.BinaryHeap.{BinaryHeap, downheap, delete_min, drop_index}
use osrm_backend.DataStructures.BinaryHeap.Invariant.{
  wt, ix, ky, IsValid, Kept, Kept-refl, Linked, Ordered, set_key_lem,
}
use osrm_backend.DataStructures.BinaryHeap.Sift.{Closed}
use osrm_backend.DataStructures.BinaryHeap.Loops.{Placed, downheap_places}
use osrm_backend.DataStructures.BinaryHeap.Entries.{Entry, lookup, Waits, check_heap_lem}

module _ {D : Type 0} where
  root_least_below :
      (k : ℕ) (h : BinaryHeap D) (i : ℕ)
      → IsValid h
      → i < k
      → 1 ≤ i
      → i < h.heap.size
      → wt h 1 ≤ wt h i
  root_least_below zero h i v f p q = absurd (omega arith)
  root_least_below (suc k) h i v f p q = ground (arith, v.order i, root_least_below k h (i / 2) v)

  -- No waiting node weighs less than the first element.
  pub root_least : {h : BinaryHeap D} (m w : ℕ) → IsValid h → Waits h m w → wt h 1 ≤ w
  unfolding lookup
  root_least {h} m w v (e, found, weight, waits) =
      let j = h.node_index.positions m in
      let p = ky h j in
      ground (arith, v.key_lt j, v.index_key j, v.weight_index p, root_least_below (suc p) h p v)

  abbrev pub mark_removed : Option (Entry D) → Option (Entry D)
  mark_removed none = none
  mark_removed (some e) = some (record e { removed = true })

  -- What DeleteMin returns: a waiting node of the least weight, and the heap without it.
  pub record Removed (h : BinaryHeap D) (p : ℕ × BinaryHeap D) : Type 0 where
    pub valid : IsValid p.1
    pub waited : Waits h p.0 (wt h 1)
    pub least : (m w : ℕ) → Waits h m w → wt h 1 ≤ w
    pub entries :
        (m : ℕ) → lookup m p.1 ≡ (if m == p.0 then mark_removed (lookup m h) else lookup m h)
    pub smaller : p.1.heap.size + 1 ≡ h.heap.size

  module _ {h : BinaryHeap D} (v : IsValid h) (some_left : 1 < h.heap.size) where
    abbrev last : ℕ
    last = h.heap.size - 1

    -- The last element has taken the first position, and the vector is one shorter.
    abbrev popped : BinaryHeap D
    popped = record h { heap = record { size = last; at = update h.heap.at 1 (h.heap.at last) } }

    popped-Linked : 1 < last → Linked popped 1 (ix h last) (ix h 1)
    popped-Linked b = record {
      positive = omega arith;
      inside = b;
      waiting = v.index_lt last (omega arith) (omega arith);
      index_lt = λ i p q n. ground (arith, v.index_lt i);
      index_ne = λ i p q n. ground (arith, v.key_index i, v.key_index 1, v.key_index last);
      key_index = λ i p q n. ground (arith, v.key_index i);
      weight_index = λ i p q n. ground (arith, v.weight_index i);
      key_lt = λ j p m n q. ground (arith, v.key_lt j, v.index_key j);
      index_key = λ j p m n q. ground (arith, v.key_lt j, v.index_key j);
    }

    popped-Ordered : Ordered popped 1
    popped-Ordered = record {
      bounded = omega (arith, v.bounded);
      sentinel = ground (arith, v.sentinel);
      order = λ i p q m n. ground (arith, v.order i);
      across = λ i p e q. absurd (omega arith);
    }

    -- The heap when the removed node is the last: nothing is sifted.
    popped-Closed : last ≡ 1 → Closed popped (ix h 1)
    popped-Closed e = record {
      nonempty = omega arith;
      bounded = omega (arith, v.bounded);
      sentinel = ground (arith, v.sentinel);
      order = λ i p q. absurd (omega arith);
      index_lt = λ i p q. absurd (omega arith);
      index_ne = λ i p q. absurd (omega arith);
      key_index = λ i p q. absurd (omega arith);
      weight_index = λ i p q. absurd (omega arith);
      key_lt = λ j p m q. ground (arith, v.key_lt j, v.index_key j);
      index_key = λ j p m q. ground (arith, v.key_lt j, v.index_key j);
    }

    -- The heap before the removed node's key is cleared: every other position is right, and of
    -- the entries nothing has changed.
    record Sifted (h' : BinaryHeap D) : Type 0 where
      closed : Closed h' (ix h 1)
      kept : Kept h.inserted_nodes.size popped h'

    Placed-Sifted :
        {h' : BinaryHeap D} → 1 < last → Placed (ix h last) (ix h 1) popped h' → Sifted h'
    Placed-Sifted {h'} b s =
        let k = s.kept in
        let key : ky h (ix h last) ≡ last = v.key_index last (omega arith) (omega arith) in
        record {
          closed = s.closed;
          kept = record {
            size_eq = k.size_eq;
            count_eq = k.count_eq;
            index_eq = k.index_eq;
            node_eq = k.node_eq;
            weight_eq = k.weight_eq;
            stored_eq = k.stored_eq;
            zero_eq = λ j n. ground (arith, k.zero_eq j, key, s.in_heap);
          };
        }

    sift_popped : Returns Sifted (if ltb 1 last then downheap 1 popped else some popped)
    sift_popped = elim (Bool-cases (ltb 1 last)) [
      | inl e ↦
          let b : 1 < last = ground arith in
          rw e (
            Returns-weaken
              (downheap_places {w = wt h last} (popped-Linked b) popped-Ordered (ground arith)
                (ground (arith, v.key_index 1, v.key_index last))
                (v.weight_index last (omega arith) (omega arith)) (λ p. absurd (omega arith)))
              (λ h' s. Placed-Sifted b s))
      | inr e ↦ rw e (
          done (record {
            closed = popped-Closed (ground arith);
            kept = Kept-refl h.inserted_nodes.size popped;
          }))
    ]

    -- The removed node's key becomes 0.
    abbrev cleared : BinaryHeap D → BinaryHeap D
    cleared h' = record h' {
      inserted_nodes = record (h'.inserted_nodes) {
        at =
            update h'.inserted_nodes.at (ix h 1)
              (record (h'.inserted_nodes.at (ix h 1)) { key = 0 });
      };
    }

    abbrev removed_node : ℕ
    removed_node = (h.inserted_nodes.at (ix h 1)).node

    -- The first element's node waits with the first element's weight.
    pub first-Waits : Waits h removed_node (wt h 1)
    unfolding lookup
    first-Waits = (
      record { weight = wt h 1; stored = (h.inserted_nodes.at (ix h 1)).stored; removed = false },
      ground (arith, v.index_lt 1, v.found (ix h 1), v.weight_index 1, v.key_index 1),
      refl,
      refl,
    )

    removed_lt : ix h 1 < h.inserted_nodes.size
    removed_lt = v.index_lt 1 (omega arith) some_left

    module _ {h' : BinaryHeap D} (s : Sifted h') where
      cleared-IsValid : IsValid (cleared h')
      cleared-IsValid =
          let c = s.closed in
          let k = s.kept in
          record {
            nonempty = c.nonempty;
            bounded = c.bounded;
            sentinel = c.sentinel;
            order = c.order;
            index_lt = c.index_lt;
            key_index = λ i p q. ground (arith, c.key_index i, c.index_ne i);
            weight_index = λ i p q. ground (arith, c.weight_index i);
            key_lt = λ j p n. ground (arith, c.key_lt j);
            index_key = λ j p n. ground (arith, c.index_key j);
            found = λ j p. ground (arith, k.index_eq, k.node_eq j, k.count_eq, v.found j);
          }

      cleared-lookup :
          (m : ℕ)
          → lookup m (cleared h')
            ≡ (if m == removed_node then mark_removed (lookup m h) else lookup m h)
      unfolding lookup
      cleared-lookup m =
          let k = s.kept in
          let j = h.node_index.positions m in
          ground (
            arith,
            k.index_eq,
            k.count_eq,
            k.node_eq j,
            k.weight_eq j,
            k.stored_eq j,
            k.zero_eq j,
            v.found (ix h 1),
            removed_lt,
          )

      cleared-Removed : Removed h (removed_node, cleared h')
      cleared-Removed = record {
        valid = cleared-IsValid;
        waited = first-Waits;
        least = λ m w. root_least m w v;
        entries = cleared-lookup;
        smaller = omega (arith, s.kept.size_eq);
      }

      drop_index_lem : drop_index (ix h 1) h' ≡ some (removed_node, cleared h')
      unfolding drop_index
      drop_index_lem =
          let k = s.kept in
          let p : ix h 1 < h'.inserted_nodes.size = omega (arith, removed_lt, k.count_eq) in
          rw (set_key_lem h' (ix h 1) 0 p, check_heap_lem (cleared h') s.closed.order)
            (ground (arith, k.node_eq (ix h 1)))

    -- DeleteMin of a heap that is not empty returns a waiting node of the least weight. It keeps the
    -- invariant, marks exactly this node as removed, and changes no other node's entry.
    pub delete_min_correct : Returns (Removed h) (delete_min h)
    unfolding delete_min
    delete_min_correct =
        let first : ltb 1 h.heap.size ≡ true = ground arith in
        let back : ltb last h.heap.size ≡ true = ground arith in
        rw (first, back)
          (Returns->>= sift_popped (λ h' s. rw (drop_index_lem s) (done (cleared-Removed s))))
