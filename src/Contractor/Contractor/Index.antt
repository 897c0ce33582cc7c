-- ===== src/Contractor/Contractor/Index.antt =====
-- Where the index of the contractor's heap, an XORFastHashStorage, limits the heap. Its operator[] ends
-- for a node that has no cell only while fewer than 2 ^ 16 nodes have one, and after Clear only
-- while the timestamp is below 2 ^ 32 - 1 (DataStructures/XorFastHashStorage); within these limits it is a
-- map, as the storages of the binary heap are. A node has a cell when it is recorded: an access of
-- a node that is not recorded comes before its insertion. An access that does not end is `none`.
use osrm_backend.Prelude.{
  ℕ, ◌+◌, ◌<◌, ◌≡◌, true, false, Option, some, arith, ltb, check, Returns, ◌>>◌,
}
use osrm_backend.DataStructures.BinaryHeap.{BinaryHeap, insert, clear, was_inserted}
use osrm_backend.DataStructures.BinaryHeap.Invariant.{IsValid}
use osrm_backend.DataStructures.BinaryHeap.Entries.{Entry, lookup}
use osrm_backend.DataStructures.BinaryHeap.Insert.{Inserted, insert_correct}
use osrm_backend.DataStructures.BinaryHeap.Capacity.{heap_size_le, inserted_size_le}
use osrm_backend.DataStructures.XorFastHashStorage.{rounds, unsigned_max}
use osrm_backend.Contractor.Contractor.{ContractorHeapData}

-- Insert, of a node that is not recorded.
pub insert_new :
    ℕ
    → ℕ
    → ContractorHeapData
    → BinaryHeap ContractorHeapData
    → Option (BinaryHeap ContractorHeapData)
insert_new node weight d heap =
    check (ltb heap.inserted_nodes.size rounds) >> insert node weight d heap

-- Clear, and the timestamp of the index.
pub clear_heap : ℕ → BinaryHeap ContractorHeapData → Option (ℕ × BinaryHeap ContractorHeapData)
clear_heap timestamp heap =
    check (ltb (timestamp + 1) unsigned_max) >> some (timestamp + 1, clear heap)

pub insert_new_lem :
    (n : ℕ) (node weight : ℕ) (d : ContractorHeapData) {h : BinaryHeap ContractorHeapData}
    → IsValid h
    → ((m : ℕ) (e : Entry ContractorHeapData) → lookup m h ≡ some e → m < n)
    → n < rounds
    → was_inserted node h ≡ false
    → Returns (Inserted node weight d h) (insert_new node weight d h)
unfolding insert_new
insert_new_lem n node weight d {h} v below few fresh =
    let size = heap_size_le n v below in
    let recorded = inserted_size_le n v below in
    let room : ltb h.inserted_nodes.size rounds ≡ true = ground (arith, recorded, few) in
    rw room (insert_correct node weight d v fresh (omega (arith, size, few)))

pub clear_heap_lem :
    (timestamp : ℕ) (h : BinaryHeap ContractorHeapData)
    → timestamp + 1 < unsigned_max
    → clear_heap timestamp h ≡ some (timestamp + 1, clear h)
unfolding clear_heap
clear_heap_lem timestamp h p =
    let go : ltb (timestamp + 1) unsigned_max ≡ true = ground (arith, p) in rw go
