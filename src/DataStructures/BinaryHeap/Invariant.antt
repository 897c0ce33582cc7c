-- ===== src/DataStructures/BinaryHeap/Invariant.antt =====
-- The invariant of the heap, and of a heap with a hole in which an element waits to be placed.
use osrm_backend.Prelude.{ℕ, ◌/◌, ◌^◌, ◌≤◌, ◌<◌, ◌≡◌, ◌≢◌, refl, some, arith, ◌==◌, update}
use osrm_backend.DataStructures.BinaryHeap.{HeapElement, BinaryHeap, settle, set_key}

module _ {D : Type 0} where
  -- The weight and the index at a position of the heap, and the key of an inserted node.
  abbrev pub wt : BinaryHeap D → ℕ → ℕ
  wt h i = (h.heap.at i).weight

  abbrev pub ix : BinaryHeap D → ℕ → ℕ
  ix h i = (h.heap.at i).index

  abbrev pub ky : BinaryHeap D → ℕ → ℕ
  ky h j = (h.inserted_nodes.at j).key

  -- The heap is small enough for `key << 1`, and starts with a sentinel of the least weight.
  -- A parent weighs no more than its children. The positions from 1 on and the inserted nodes of a
  -- key other than 0 point at each other and agree on the weight. The storage finds each node.
  pub record IsValid (h : BinaryHeap D) : Type 0 where
    pub nonempty : 1 ≤ h.heap.size
    pub bounded : h.heap.size < 2 ^ 31
    pub sentinel : wt h 0 ≡ 0
    pub order : (i : ℕ) → 2 ≤ i → i < h.heap.size → wt h (i / 2) ≤ wt h i
    pub index_lt : (i : ℕ) → 1 ≤ i → i < h.heap.size → ix h i < h.inserted_nodes.size
    pub key_index : (i : ℕ) → 1 ≤ i → i < h.heap.size → ky h (ix h i) ≡ i
    pub weight_index :
        (i : ℕ) → 1 ≤ i → i < h.heap.size → (h.inserted_nodes.at (ix h i)).weight ≡ wt h i
    pub key_lt : (j : ℕ) → j < h.inserted_nodes.size → ky h j ≢ 0 → ky h j < h.heap.size
    pub index_key : (j : ℕ) → j < h.inserted_nodes.size → ky h j ≢ 0 → ix h (ky h j) ≡ j
    pub found :
        (j : ℕ)
        → j < h.inserted_nodes.size
        → h.node_index.positions (h.inserted_nodes.at j).node ≡ j

  -- The position `key` waits for the inserted node `r`; the node `x` is about to leave the heap.
  pub record Linked (h : BinaryHeap D) (key r x : ℕ) : Type 0 where
    pub positive : 1 ≤ key
    pub inside : key < h.heap.size
    pub waiting : r < h.inserted_nodes.size
    pub index_lt : (i : ℕ) → 1 ≤ i → i < h.heap.size → i ≢ key → ix h i < h.inserted_nodes.size
    pub index_ne : (i : ℕ) → 1 ≤ i → i < h.heap.size → i ≢ key → (ix h i ≢ r) × (ix h i ≢ x)
    pub key_index : (i : ℕ) → 1 ≤ i → i < h.heap.size → i ≢ key → ky h (ix h i) ≡ i
    pub weight_index :
        (i : ℕ) → 1 ≤ i → i < h.heap.size → i ≢ key → (h.inserted_nodes.at (ix h i)).weight ≡ wt h i
    pub key_lt :
        (j : ℕ)
        → j < h.inserted_nodes.size
        → j ≢ r
        → j ≢ x
        → ky h j ≢ 0
        → (ky h j < h.heap.size) × (ky h j ≢ key)
    pub index_key :
        (j : ℕ) → j < h.inserted_nodes.size → j ≢ r → j ≢ x → ky h j ≢ 0 → ix h (ky h j) ≡ j

  -- The order off the hole, and across it.
  pub record Ordered (h : BinaryHeap D) (key : ℕ) : Type 0 where
    pub bounded : h.heap.size < 2 ^ 31
    pub sentinel : wt h 0 ≡ 0
    pub order : (i : ℕ) → 2 ≤ i → i < h.heap.size → i ≢ key → i / 2 ≢ key → wt h (i / 2) ≤ wt h i
    pub across : (i : ℕ) → i < h.heap.size → i / 2 ≡ key → 2 ≤ key → wt h (key / 2) ≤ wt h i

  -- What sifting keeps: all of each inserted node but its key, and whether the key is 0.
  pub record Kept (r : ℕ) (h h' : BinaryHeap D) : Type 0 where
    pub size_eq : h'.heap.size ≡ h.heap.size
    pub count_eq : h'.inserted_nodes.size ≡ h.inserted_nodes.size
    pub index_eq : h'.node_index ≡ h.node_index
    pub node_eq : (j : ℕ) → (h'.inserted_nodes.at j).node ≡ (h.inserted_nodes.at j).node
    pub weight_eq : (j : ℕ) → (h'.inserted_nodes.at j).weight ≡ (h.inserted_nodes.at j).weight
    pub stored_eq : (j : ℕ) → (h'.inserted_nodes.at j).stored ≡ (h.inserted_nodes.at j).stored
    pub zero_eq : (j : ℕ) → j ≢ r → ((ky h' j) == 0) ≡ ((ky h j) == 0)

  pub Kept-refl : (r : ℕ) (h : BinaryHeap D) → Kept r h h
  Kept-refl r h = record {
    size_eq = refl;
    count_eq = refl;
    index_eq = refl;
    node_eq = λ j. refl;
    weight_eq = λ j. refl;
    stored_eq = λ j. refl;
    zero_eq = λ j n. refl;
  }

  pub Kept-trans : {r : ℕ} {h h' h'' : BinaryHeap D} → Kept r h h' → Kept r h' h'' → Kept r h h''
  Kept-trans a b = record {
    size_eq = cc (a.size_eq, b.size_eq);
    count_eq = cc (a.count_eq, b.count_eq);
    index_eq = cc (a.index_eq, b.index_eq);
    node_eq = λ j. cc (a.node_eq j, b.node_eq j);
    weight_eq = λ j. cc (a.weight_eq j, b.weight_eq j);
    stored_eq = λ j. cc (a.stored_eq j, b.stored_eq j);
    zero_eq = λ j n. cc (a.zero_eq j n, b.zero_eq j n);
  }

  -- The element at `i` moves to the position `key`.
  abbrev pub put : BinaryHeap D → ℕ → HeapElement → BinaryHeap D
  put h key e = record h {
    heap = record (h.heap) { at = update h.heap.at key e };
    inserted_nodes = record (h.inserted_nodes) {
      at = update h.inserted_nodes.at e.index (record (h.inserted_nodes.at e.index) { key = key });
    };
  }

  abbrev pub moved : BinaryHeap D → ℕ → ℕ → BinaryHeap D
  moved h key i = put h key (h.heap.at i)

  pub set_key_lem :
      (h : BinaryHeap D) (j key : ℕ)
      → j < h.inserted_nodes.size
      → set_key h.inserted_nodes j key
        ≡ some (record (h.inserted_nodes) {
          at = update h.inserted_nodes.at j (record (h.inserted_nodes.at j) { key = key });
        })
  unfolding set_key
  set_key_lem h j key p = ground arith

  pub settle_lem :
      (key : ℕ) (e : HeapElement) (h : BinaryHeap D)
      → key < h.heap.size
      → e.index < h.inserted_nodes.size
      → settle key e h ≡ some (put h key e)
  unfolding settle
  settle_lem key e h p q = ground (arith, set_key_lem h e.index key)

  module _ {h : BinaryHeap D} {key r x : ℕ} (l : Linked h key r x) (i : ℕ) where
    pub moved-Kept : 1 ≤ i → i < h.heap.size → i ≢ key → Kept r h (moved h key i)
    moved-Kept p q n = record {
      size_eq = refl;
      count_eq = refl;
      index_eq = refl;
      node_eq = λ j. ground arith;
      weight_eq = λ j. ground arith;
      stored_eq = λ j. ground arith;
      zero_eq = λ j m. ground (arith, l.key_index i p q n, l.positive);
    }

    pub moved-Linked : 1 ≤ i → i < h.heap.size → i ≢ key → Linked (moved h key i) i r x
    moved-Linked p q n = record {
      positive = p;
      inside = q;
      waiting = l.waiting;
      index_lt = λ m a b c. ground (arith, l.index_lt m, l.index_lt i);
      index_ne = λ m a b c. ground (arith, l.index_ne m, l.index_ne i);
      key_index = λ m a b c. ground (arith, l.key_index m, l.key_index i);
      weight_index = λ m a b c. ground (arith, l.weight_index m, l.weight_index i);
      key_lt = λ j a b c d. ground (arith, l.key_lt j, l.index_key j, l.inside, l.positive);
      index_key = λ j a b c d. ground (arith, l.key_lt j, l.index_key j);
    }
