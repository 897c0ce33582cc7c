-- ===== src/DataStructures/BinaryHeap/Queries.antt =====
-- The constructor, Clear, DeleteAll and the methods that only read.
use osrm_backend.Prelude.{
  ℕ, zero, suc, ◌+◌, ◌-◌, ◌≤◌, ◌<◌, ◌≡◌, refl, true, false, none, some, arith, ltb, update, Returns,
  done, Returns->>=, Returns-weaken,
}
use osrm_backend.DataStructures.BinaryHeap.{
  BinaryHeap, clear, was_inserted, was_removed, get_key, get_data, min, delete_from, delete_all,
}
use osrm_backend.DataStructures.BinaryHeap.Invariant.{wt, ix, ky, IsValid, set_key_lem}
use osrm_backend.DataStructures.BinaryHeap.Entries.{Entry, lookup, Waits}
use osrm_backend.DataStructures.BinaryHeap.Remove.{mark_removed, first-Waits}

module _ {D : Type 0} where
  -- Clear of any heap, valid or not and whatever the storage keeps, gives a valid heap that holds and remembers no node.
  pub clear_correct : (h : BinaryHeap D) → IsValid (clear h) × ((m : ℕ) → lookup m (clear h) ≡ none)
  unfolding clear lookup
  clear_correct h = (
    record {
      nonempty = omega arith;
      bounded = omega arith;
      sentinel = refl;
      order = λ i p q. absurd (omega arith);
      index_lt = λ i p q. absurd (omega arith);
      key_index = λ i p q. absurd (omega arith);
      weight_index = λ i p q. absurd (omega arith);
      key_lt = λ j p n. absurd (omega arith);
      index_key = λ j p n. absurd (omega arith);
      found = λ j p. absurd (omega arith);
    },
    λ m. ground arith,
  )

  -- What the reading methods answer about an entry.
  pub record Answers (m : ℕ) (h : BinaryHeap D) (e : Entry D) : Type 0 where
    pub inserted : was_inserted m h ≡ true
    pub removed : was_removed m h ≡ some e.removed
    pub weight : get_key m h ≡ some e.weight
    pub stored : get_data m h ≡ some e.stored

  -- For a node with an entry WasInserted is true, and WasRemoved, GetKey and GetData return what
  -- the entry says; for any other node WasInserted is false.
  pub queries_correct :
      (m : ℕ) (h : BinaryHeap D)
      → ((e : Entry D) → lookup m h ≡ some e → Answers m h e)
        × (lookup m h ≡ none → was_inserted m h ≡ false)
  unfolding lookup was_removed get_key get_data
  queries_correct m h = (
    (λ e p. record {
      inserted = ground arith;
      removed = ground arith;
      weight = ground arith;
      stored = ground arith;
    }),
    (λ p. ground arith),
  )

  -- Min of a heap that is not empty returns a node that waits with the least weight of all.
  min_correct :
      (h : BinaryHeap D) → IsValid h → 1 < h.heap.size → Returns (λ n. Waits h n (wt h 1)) (min h)
  unfolding min
  min_correct h v p =
      let a : ltb 1 h.heap.size ≡ true = ground arith in
      let q = v.index_lt 1 (omega arith) p in
      let b : ltb (ix h 1) h.inserted_nodes.size ≡ true = ground arith in
      rw (a, b) (done (first-Waits v p))

  -- The positions from `i` on that the loop of DeleteAll has still to visit.
  abbrev LinkedFrom : ℕ → ℕ → BinaryHeap D → Type 0
  LinkedFrom n i h =
      (p : ℕ)
      → i ≤ p
      → p < i + n
      → (p < h.heap.size) × (ix h p < h.inserted_nodes.size) × (ky h (ix h p) ≡ p)

  -- What the loop does: the keys that it visits become 0, and nothing else changes.
  record Deleted (n i : ℕ) (h h' : BinaryHeap D) : Type 0 where
    heap_eq : h'.heap ≡ h.heap
    index_eq : h'.node_index ≡ h.node_index
    count_eq : h'.inserted_nodes.size ≡ h.inserted_nodes.size
    node_eq : (j : ℕ) → (h'.inserted_nodes.at j).node ≡ (h.inserted_nodes.at j).node
    weight_eq : (j : ℕ) → (h'.inserted_nodes.at j).weight ≡ (h.inserted_nodes.at j).weight
    stored_eq : (j : ℕ) → (h'.inserted_nodes.at j).stored ≡ (h.inserted_nodes.at j).stored
    visited : (p : ℕ) → i ≤ p → p < i + n → ky h' (ix h p) ≡ 0
    zero_kept : (j : ℕ) → ky h j ≡ 0 → ky h' j ≡ 0

  delete_from_clears :
      (n i : ℕ) (h : BinaryHeap D)
      → 1 ≤ i
      → LinkedFrom n i h
      → Returns (Deleted n i h) (delete_from n i h)
  unfolding delete_from
  delete_from_clears zero i h pos l = done (record {
    heap_eq = refl;
    index_eq = refl;
    count_eq = refl;
    node_eq = λ j. refl;
    weight_eq = λ j. refl;
    stored_eq = λ j. refl;
    visited = λ p a b. absurd (omega arith);
    zero_kept = λ j e. e;
  })
  delete_from_clears (suc n) i h pos l =
      let (a, b, c) = l i (omega arith) (omega arith) in
      let inside : ltb i h.heap.size ≡ true = ground arith in
      let next = record h {
        inserted_nodes = record (h.inserted_nodes) {
          at =
              update h.inserted_nodes.at (ix h i)
                (record (h.inserted_nodes.at (ix h i)) { key = 0 });
        };
      } in
      rw (inside, set_key_lem h (ix h i) 0 b)
        (Returns-weaken
          (delete_from_clears n (i + 1) next (omega arith) (λ p q r. ground (arith, l p)))
          (λ h' s. record {
            heap_eq = s.heap_eq;
            index_eq = s.index_eq;
            count_eq = s.count_eq;
            node_eq = λ j. ground (arith, s.node_eq j);
            weight_eq = λ j. ground (arith, s.weight_eq j);
            stored_eq = λ j. ground (arith, s.stored_eq j);
            visited = λ p q r. ground (arith, s.visited p, s.zero_kept (ix h i));
            zero_kept = λ j e. ground (arith, s.zero_kept j);
          }))

  -- DeleteAll marks every node of the heap as removed, and keeps the records.
  pub record AllRemoved (h h' : BinaryHeap D) : Type 0 where
    pub valid : IsValid h'
    pub emptied : h'.heap.size ≡ 1
    pub entries : (m : ℕ) → lookup m h' ≡ mark_removed (lookup m h)

  Deleted-AllRemoved :
      {h h' h'' : BinaryHeap D}
      → IsValid h
      → Deleted (h.heap.size - 1) 1 h h'
      → h''.inserted_nodes ≡ h'.inserted_nodes
      → h''.node_index ≡ h'.node_index
      → h''.heap.size ≡ 1
      → wt h'' 0 ≡ 0
      → AllRemoved h h''
  unfolding lookup
  Deleted-AllRemoved {h} {h'} {h''} v s a b c d =
      let gone : (j : ℕ) → j < h.inserted_nodes.size → ky h'' j ≡ 0 =
        λ j p. ground (arith, v.key_lt j, v.index_key j, s.visited (ky h j), s.zero_kept j) in
      record {
        valid = record {
          nonempty = omega arith;
          bounded = omega arith;
          sentinel = d;
          order = λ i p q. absurd (omega arith);
          index_lt = λ i p q. absurd (omega arith);
          key_index = λ i p q. absurd (omega arith);
          weight_index = λ i p q. absurd (omega arith);
          key_lt = λ j p n. ground (arith, gone j, s.count_eq);
          index_key = λ j p n. ground (arith, gone j, s.count_eq);
          found = λ j p. ground (arith, v.found j, s.count_eq, s.index_eq, s.node_eq j);
        };
        emptied = c;
        entries = λ m.
            let j = h.node_index.positions m in
            ground
              (arith, gone j, s.count_eq, s.index_eq, s.node_eq j, s.weight_eq j, s.stored_eq j);
      }

  -- DeleteAll of a valid heap empties it, keeps the invariant, marks every recorded node as
  -- removed, and changes nothing else of any entry.
  pub delete_all_correct : {h : BinaryHeap D} → IsValid h → Returns (AllRemoved h) (delete_all h)
  unfolding delete_all
  delete_all_correct {h} v =
      Returns->>=
        (delete_from_clears (h.heap.size - 1) 1 h (omega arith)
          (λ p a b. ground (arith, v.index_lt p, v.key_index p)))
        (λ h' s. done (Deleted-AllRemoved v s refl refl refl refl))
