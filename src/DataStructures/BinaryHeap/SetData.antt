-- ===== src/DataStructures/BinaryHeap/SetData.antt =====
-- A write through the reference that GetData returns.
use osrm_backend.Prelude.{
  ℕ, ◌≡◌, refl, true, Option, none, some, arith, ltb, ◌==◌, if◌then◌else◌, Returns, done,
}
use osrm_backend.DataStructures.BinaryHeap.{BinaryHeap, set_data}
use osrm_backend.DataStructures.BinaryHeap.Invariant.{IsValid}
use osrm_backend.DataStructures.BinaryHeap.Entries.{Entry, lookup}

module _ {D : Type 0} where
  abbrev pub set_stored : D → Option (Entry D) → Option (Entry D)
  set_stored d none = none
  set_stored d (some e) = some (record e { stored = d })

  pub record DataSet (node : ℕ) (d : D) (h h' : BinaryHeap D) : Type 0 where
    pub valid : IsValid h'
    pub entries :
        (m : ℕ) → lookup m h' ≡ (if m == node then set_stored d (lookup m h) else lookup m h)
    pub same_heap : h'.heap ≡ h.heap

  -- The write to a recorded node's data changes nothing but this data.
  pub set_data_lem :
      (node : ℕ) (d : D) (h : BinaryHeap D) (e : Entry D)
      → IsValid h
      → lookup node h ≡ some e
      → Returns (DataSet node d h) (set_data node d h)
  unfolding set_data lookup
  set_data_lem node d h e v found =
      let j = h.node_index.positions node in
      let a : ltb j h.inserted_nodes.size ≡ true = ground arith in
      rw a (
        done (record {
          valid = record {
            nonempty = v.nonempty;
            bounded = v.bounded;
            sentinel = v.sentinel;
            order = v.order;
            index_lt = v.index_lt;
            key_index = λ i p q. ground (arith, v.key_index i);
            weight_index = λ i p q. ground (arith, v.weight_index i);
            key_lt = λ k p n. ground (arith, v.key_lt k);
            index_key = λ k p n. ground (arith, v.index_key k);
            found = λ k p. ground (arith, v.found k);
          };
          entries = λ m. ground (arith, v.found j, v.found (h.node_index.positions m));
          same_heap = refl;
        }))
