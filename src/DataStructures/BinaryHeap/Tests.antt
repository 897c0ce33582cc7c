-- ===== src/DataStructures/BinaryHeap/Tests.antt =====
-- Concrete runs of the heap, and its theorems at a concrete heap.
use osrm_backend.Prelude.{
  ℕ, ◌≡◌, refl, false, Option, some, arith, ◌==◌, if◌then◌else◌, ◌>>=◌, Returns,
}
use osrm_backend.DataStructures.BinaryHeap.{
  HeapNode, array_storage, BinaryHeap, new_heap, clear, insert, delete_min, decrease_key,
  was_inserted, delete_all, upheap, upheap_loop, downheap, downheap_loop, smaller_child, settle,
  set_key, check_heap, drop_index, new_storage, clear_storage,
}
use osrm_backend.DataStructures.BinaryHeap.Invariant.{IsValid}
use osrm_backend.DataStructures.BinaryHeap.Entries.{lookup, Waits}
use osrm_backend.DataStructures.BinaryHeap.Insert.{Inserted, insert_correct}
use osrm_backend.DataStructures.BinaryHeap.Remove.{Removed, delete_min_correct}
use osrm_backend.DataStructures.BinaryHeap.Decrease.{Decreased, decrease_key_correct}
use osrm_backend.DataStructures.BinaryHeap.Queries.{AllRemoved, delete_all_correct}

abbrev entry : ℕ → ℕ → ℕ → HeapNode ℕ
entry node key weight = record { node = node; key = key; weight = weight; stored = node }

abbrev fresh : BinaryHeap ℕ
fresh = new_heap array_storage (entry 0 0 0)

-- Three inserts, a decrease and the removal of all nodes, in order of weight.
abbrev session : Option (ℕ × ℕ × ℕ)
session = do
  a ← insert 40 9 40 fresh
  b ← insert 20 5 20 a
  c ← insert 30 7 30 b
  d ← decrease_key 40 6 c
  (x, e) ← delete_min d
  (y, f) ← delete_min e
  (z, g) ← delete_min f
  some (x, y, z)

session_lem : session ≡ some (20, 40, 30)
unfolding new_heap clear insert delete_min decrease_key upheap upheap_loop downheap downheap_loop
    smaller_child settle set_key check_heap drop_index new_storage clear_storage
session_lem = refl

-- Two waiting nodes: 40 of weight 9 in the second position, 20 of weight 5 in the first.
abbrev sample : BinaryHeap ℕ
sample = record {
  inserted_nodes = record { size = 2; at = λ j. if j == 0 then entry 40 2 9 else entry 20 1 5 };
  heap = record {
    size = 3;
    at = λ i.
        if i == 0
        then record { index = 0; weight = 0 }
        else if i == 1
        then record { index = 1; weight = 5 }
        else record { index = 0; weight = 9 };
  };
  node_index = record { kind = array_storage; positions = λ n. if n == 20 then 1 else 0 };
}

sample-IsValid : IsValid sample
sample-IsValid = record {
  nonempty = omega arith;
  bounded = omega arith;
  sentinel = refl;
  order = λ i p q. ground arith;
  index_lt = λ i p q. ground arith;
  key_index = λ i p q. ground arith;
  weight_index = λ i p q. ground arith;
  key_lt = λ j p n. ground arith;
  index_key = λ j p n. ground arith;
  found = λ j p. ground arith;
}

insert_correct_example : Returns (Inserted 30 7 30 sample) (insert 30 7 30 sample)
unfolding was_inserted
insert_correct_example = insert_correct 30 7 30 sample-IsValid refl (omega arith)

delete_min_correct_example : Returns (Removed sample) (delete_min sample)
delete_min_correct_example = delete_min_correct sample-IsValid (omega arith)

Waits-40 : Waits sample 40 9
unfolding lookup
Waits-40 = (record { weight = 9; stored = 40; removed = false }, refl, refl, refl)

decrease_key_correct_example : Returns (Decreased 40 6 sample) (decrease_key 40 6 sample)
decrease_key_correct_example =
    decrease_key_correct 40 6 9 sample-IsValid Waits-40 (omega arith) (omega arith)

delete_all_correct_example : Returns (AllRemoved sample) (delete_all sample)
delete_all_correct_example = delete_all_correct sample-IsValid
