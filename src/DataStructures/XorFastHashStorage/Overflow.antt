-- ===== src/DataStructures/XorFastHashStorage/Overflow.antt =====
-- Clear when the timestamp comes to its last value, the one that new cells have.
use osrm_backend.Prelude.{
  ℕ, zero, suc, ◌+◌, ◌-◌, ◌%◌, ◌^◌, ◌<◌, ◌≡◌, ◌≢◌, refl, true, false, none, arith, ltb, ◌==◌,
  value_of,
}
use osrm_backend.DataStructures.XorFastHash.{table_size, Filled, fast_hash_lem}
use osrm_backend.DataStructures.XorFastHashStorage.{
  XorFastHashStorage, unsigned_max, new_cells, find, access, clear,
}

-- The loop does not end when all cells are new and are taken to be in use.
find_endless :
    (fuel node position : ℕ) (s : XorFastHashStorage)
    → s.current_timestamp ≡ unsigned_max
    → node ≢ unsigned_max
    → position < 2 ^ 16
    → find fuel node position (record s { positions = new_cells }) ≡ none
unfolding find
find_endless zero node position s now other p = refl
find_endless (suc fuel) node position s now other p =
    let inside : ltb position table_size ≡ true = ground (arith, p) in
    let busy : (unsigned_max == s.current_timestamp) ≡ true = ground (arith, now) in
    let apart : (unsigned_max == node) ≡ false = ground (arith, other) in
    rw (inside, busy, apart)
      (find_endless fuel node ((position + 1) % 2 ^ 16 % table_size) s now other (omega arith))

-- When Clear brings the timestamp to 2 ^ 32 - 1, the loop of operator[] on the storage that it leaves
-- ends within no number of rounds, for every node but 2 ^ 32 - 1.
pub access_endless :
    (fuel node : ℕ) (s : XorFastHashStorage)
    → Filled s.fast_hasher
    → s.current_timestamp ≡ unsigned_max - 1
    → node ≢ unsigned_max
    → access fuel node (clear s) ≡ none
unfolding access clear
access_endless fuel node s filled now other =
    let (h, e, p) = value_of (fast_hash_lem s.fast_hasher node filled.table1_le filled.table2_le) in
    let last : (s.current_timestamp + 1) % 2 ^ 32 ≡ unsigned_max = rw now refl in
    let stuck =
      find_endless fuel node h (record s { current_timestamp = unsigned_max }) refl other p in
    rw (last, e, stuck) refl
