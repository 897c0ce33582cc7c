-- ===== src/DataStructures/BinaryHeap.antt =====
-- DataStructures/BinaryHeap.h: the addressable binary heap of the path searches and the contractor.
-- Weights are only compared, so a weight is given by its position in the range of its type: 0 is
-- std::numeric_limits<Weight>::min(). Keys and node ids are 32-bit unsigned numbers.
-- An operation is `none` where an access leaves its array or a BOOST_ASSERT fails.
pub mod Invariant
pub mod Sift
pub mod Loops
pub mod Entries
pub mod Insert
pub mod Remove
pub mod Decrease
pub mod Queries
pub mod SetData
pub mod Capacity
mod Tests
use osrm_backend.Prelude.{
  ℕ, zero, suc, ◌+◌, ◌-◌, ◌*◌, ◌/◌, ◌%◌, ◌^◌, Bool, true, false, ◌&&◌, Option, none, some, ltb, leb,
  ◌==◌, if◌then◌else◌, Array, load, store, push_back, pop_back, check, ◌>>=◌, ◌>>◌,
}
use mathlib.Core.Bool.{not}

pub record HeapNode (D : Type 0) : Type 0 where
  pub node : ℕ
  pub key : ℕ
  pub weight : ℕ
  pub stored : D

pub record HeapElement : Type 0 where
  pub index : ℕ
  pub weight : ℕ

-- ArrayStorage, MapStorage and UnorderedMapStorage: each answers 0 for a node that was never
-- written, and they differ in what Clear does.
pub data StorageKind : Type 0 where
  array_storage map_storage unordered_map_storage : StorageKind

pub record IndexStorage : Type 0 where
  pub kind : StorageKind
  pub positions : ℕ → ℕ

pub new_storage : StorageKind → IndexStorage
new_storage k = record { kind = k; positions = λ _. 0 }

-- `storage[node] = key`
abbrev pub assign : IndexStorage → ℕ → ℕ → IndexStorage
assign s node key = record s { positions = λ n. if n == node then key else s.positions n }

-- ArrayStorage::Clear does nothing.
clear_as : StorageKind → (ℕ → ℕ) → ℕ → ℕ
clear_as array_storage f = f
clear_as map_storage f = λ _. 0
clear_as unordered_map_storage f = λ _. 0

pub clear_storage : IndexStorage → IndexStorage
unfolding clear_as
clear_storage s = record s { positions = clear_as s.kind s.positions }

pub record BinaryHeap (D : Type 0) : Type 0 where
  pub inserted_nodes : Array (HeapNode D)
  pub heap : Array HeapElement
  pub node_index : IndexStorage

-- `key << 1` on 32 bits.
abbrev pub shl1 : ℕ → ℕ
shl1 key = key * 2 % 2 ^ 32

module _ {D : Type 0} where
  -- Clear. Only `heap[0].weight` is written; the index of the sentinel is never read.
  pub clear : BinaryHeap D → BinaryHeap D
  clear h = record {
    inserted_nodes = record (h.inserted_nodes) { size = 0 };
    heap = record {
      size = 1;
      at = λ i. if i == 0 then record (h.heap.at 0) { weight = 0 } else h.heap.at i;
    };
    node_index = clear_storage h.node_index;
  }

  -- The constructor. `blank` fills the memory that no vector element occupies yet.
  pub new_heap : StorageKind → HeapNode D → BinaryHeap D
  new_heap kind blank = clear (record {
    inserted_nodes = record { size = 0; at = λ _. blank };
    heap = record { size = 0; at = λ _. record { index = 0; weight = 0 } };
    node_index = new_storage kind;
  })

  pub size : BinaryHeap D → ℕ
  size h = h.heap.size - 1

  pub empty : BinaryHeap D → Bool
  empty h = 0 == size h

  -- `inserted_nodes[j].key = key`
  pub set_key : Array (HeapNode D) → ℕ → ℕ → Option (Array (HeapNode D))
  set_key nodes j key = do n ← load nodes j; store nodes j (record n { key = key })

  pub upheap_loop : ℕ → ℕ → ℕ → BinaryHeap D → Option (ℕ × BinaryHeap D)
  upheap_loop zero key weight h = none
  upheap_loop (suc fuel) key weight h =
      let next_key = key / 2 in
      let rise = λ (parent : HeapElement). do
        check (not (next_key == 0))
        heap ← store h.heap key parent
        nodes ← set_key h.inserted_nodes parent.index key
        upheap_loop fuel next_key weight (record h { heap = heap; inserted_nodes = nodes })
      in load h.heap next_key >>= λ parent.
      if ltb weight parent.weight then rise parent else some (key, h)

  -- What both sifting loops end with.
  pub settle : ℕ → HeapElement → BinaryHeap D → Option (BinaryHeap D)
  settle key e h = do
    heap ← store h.heap key e
    nodes ← set_key h.inserted_nodes e.index key
    some (record h { heap = heap; inserted_nodes = nodes })

  -- The key is halved in each round.
  pub upheap : ℕ → BinaryHeap D → Option (BinaryHeap D)
  upheap key h = do
    e ← load h.heap key
    (key', h') ← upheap_loop (key + 1) key e.weight h
    settle key' e h'

  -- `nextKeyOther` is looked at only if it is in the heap.
  pub smaller_child : ℕ → BinaryHeap D → Option ℕ
  smaller_child next_key h =
      let other = next_key + 1 in
      if ltb other h.heap.size
      then (do
        a ← load h.heap next_key
        b ← load h.heap other
        some (if ltb b.weight a.weight then other else next_key))
      else some next_key

  pub downheap_loop : ℕ → ℕ → ℕ → BinaryHeap D → Option (ℕ × BinaryHeap D)
  downheap_loop zero key weight h = none
  downheap_loop (suc fuel) key weight h =
      let sink = λ (next_key : ℕ) (child : HeapElement). do
        heap ← store h.heap key child
        nodes ← set_key h.inserted_nodes child.index key
        downheap_loop fuel next_key weight (record h { heap = heap; inserted_nodes = nodes })
      in let round = do
        next_key ← smaller_child (shl1 key) h
        child ← load h.heap next_key
        if leb weight child.weight then some (key, h) else sink next_key child
        in if ltb (shl1 key) h.heap.size then round else some (key, h)

  -- The key grows in each round, below the size.
  pub downheap : ℕ → BinaryHeap D → Option (BinaryHeap D)
  downheap key h = do
    e ← load h.heap key
    (key', h') ← downheap_loop (h.heap.size + 1) key e.weight h
    settle key' e h'

  -- CheckHeap: the loop over `i` from 2, with `n` rounds left.
  pub check_from : ℕ → ℕ → BinaryHeap D → Bool
  check_from zero i h = true
  check_from (suc n) i h =
      leb (h.heap.at (i / 2)).weight (h.heap.at i).weight && check_from n (i + 1) h

  pub check_heap : BinaryHeap D → Bool
  unfolding check_from
  check_heap h = check_from (h.heap.size - 2) 2 h

  pub insert : ℕ → ℕ → D → BinaryHeap D → Option (BinaryHeap D)
  insert node weight d h = do
    let element : HeapElement = record { index = h.inserted_nodes.size; weight = weight }
    let key = h.heap.size
    let entry : HeapNode D = record { node = node; key = key; weight = weight; stored = d }
    h' ← upheap key (record {
      heap = push_back h.heap element;
      inserted_nodes = push_back h.inserted_nodes entry;
      node_index = assign h.node_index node element.index;
    })
    check (check_heap h')
    some h'

  pub get_data : ℕ → BinaryHeap D → Option D
  get_data node h = do n ← load h.inserted_nodes (h.node_index.positions node); some n.stored

  -- `GetData(node) = d`
  pub set_data : ℕ → D → BinaryHeap D → Option (BinaryHeap D)
  set_data node d h = do
    n ← load h.inserted_nodes (h.node_index.positions node)
    nodes ← store h.inserted_nodes (h.node_index.positions node) (record n { stored = d })
    some (record h { inserted_nodes = nodes })

  pub get_key : ℕ → BinaryHeap D → Option ℕ
  get_key node h = do n ← load h.inserted_nodes (h.node_index.positions node); some n.weight

  unfoldable pub was_inserted : ℕ → BinaryHeap D → Bool
  was_inserted node h =
      let index = h.node_index.positions node in
      if leb h.inserted_nodes.size index then false else (h.inserted_nodes.at index).node == node

  pub was_removed : ℕ → BinaryHeap D → Option Bool
  was_removed node h = do
    check (was_inserted node h)
    n ← load h.inserted_nodes (h.node_index.positions node)
    some (n.key == 0)

  pub min : BinaryHeap D → Option ℕ
  min h = do
    check (ltb 1 h.heap.size)
    e ← load h.heap 1
    n ← load h.inserted_nodes e.index
    some n.node

  -- The end of DeleteMin: the removed node's key becomes 0, and its id is returned.
  pub drop_index : ℕ → BinaryHeap D → Option (ℕ × BinaryHeap D)
  drop_index removed_index h = do
    nodes ← set_key h.inserted_nodes removed_index 0
    let h' = record h { inserted_nodes = nodes }
    check (check_heap h')
    n ← load nodes removed_index
    some (n.node, h')

  pub delete_min : BinaryHeap D → Option (ℕ × BinaryHeap D)
  delete_min h = do
    check (ltb 1 h.heap.size)
    removed ← load h.heap 1
    last ← load h.heap (h.heap.size - 1)
    heap ← store h.heap 1 last
    let popped = record h { heap = pop_back heap }
    h' ← if ltb 1 popped.heap.size then downheap 1 popped else some popped
    drop_index removed.index h'

  -- DeleteAll: the loop over the heap from `i`, with `n` rounds left.
  pub delete_from : ℕ → ℕ → BinaryHeap D → Option (BinaryHeap D)
  delete_from zero i h = some h
  delete_from (suc n) i h = do
    e ← load h.heap i
    nodes ← set_key h.inserted_nodes e.index 0
    delete_from n (i + 1) (record h { inserted_nodes = nodes })

  pub delete_all : BinaryHeap D → Option (BinaryHeap D)
  delete_all h = do
    h' ← delete_from (h.heap.size - 1) 1 h
    let at = λ (i : ℕ). if i == 0 then record (h'.heap.at 0) { weight = 0 } else h'.heap.at i
    some (record h' { heap = record { size = 1; at = at } })

  pub decrease_key : ℕ → ℕ → BinaryHeap D → Option (BinaryHeap D)
  decrease_key node weight h = do
    check (not (node == 2 ^ 32 - 1))
    let index = h.node_index.positions node
    n ← load h.inserted_nodes index
    nodes ← store h.inserted_nodes index (record n { weight = weight })
    e ← load h.heap n.key
    heap ← store h.heap n.key (record e { weight = weight })
    h' ← upheap n.key (record h { heap = heap; inserted_nodes = nodes })
    check (check_heap h')
    some h'
