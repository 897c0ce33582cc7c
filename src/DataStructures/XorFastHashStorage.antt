-- ===== src/DataStructures/XorFastHashStorage.antt =====
-- DataStructures/XORFastHashStorage.h: the index storage of the contractor's heaps, a hash table with
-- open addressing. A position is an unsigned short, so that `++position %= (2 << 16)` goes from
-- 2 ^ 16 - 1 to 0 and the second half of the table is never used. The loop of operator[] runs on fuel:
-- after 2 ^ 16 rounds it has seen every position it can come to.
pub mod Probe
pub mod Cells
pub mod Access
pub mod Replay
pub mod Overflow
mod Tests
use osrm_backend.Prelude.{
  ℕ, zero, suc, ◌+◌, ◌-◌, ◌%◌, ◌^◌, Bool, ◌&&◌, Option, none, some, List, [], ◌∷◌, ◌==◌,
  if◌then◌else◌, Array, load, store, ◌>>=◌,
}
use mathlib.Core.Bool.{not}
use osrm_backend.DataStructures.XorFastHash.{XorFastHash, table_size, fast_hash}

pub record HashCell : Type 0 where
  pub key : ℕ
  pub id : ℕ
  pub time : ℕ

abbrev pub unsigned_max : ℕ
unsigned_max = 2 ^ 32 - 1

abbrev pub new_cells : Array HashCell
new_cells = record {
  size = table_size;
  at = λ i. record { key = unsigned_max; id = unsigned_max; time = unsigned_max };
}

pub record XorFastHashStorage : Type 0 where
  pub positions : Array HashCell
  pub fast_hasher : XorFastHash
  pub current_timestamp : ℕ

abbrev pub new_storage : XorFastHash → XorFastHashStorage
new_storage hasher = record { positions = new_cells; fast_hasher = hasher; current_timestamp = 0 }

-- The condition of the loop.
abbrev pub taken : ℕ → XorFastHashStorage → HashCell → Bool
taken node s cell = cell.time == s.current_timestamp && not (cell.id == node)

pub find : ℕ → ℕ → ℕ → XorFastHashStorage → Option ℕ
find zero node position s = none
find (suc fuel) node position s = do
  cell ← load s.positions position
  let next = find fuel node ((position + 1) % 2 ^ 16 % table_size) s
  if taken node s cell then next else some position

-- `operator[]`: the position of the cell that it returns.
pub access : ℕ → ℕ → XorFastHashStorage → Option (ℕ × XorFastHashStorage)
access fuel node s = do
  hash ← fast_hash s.fast_hasher node
  position ← find fuel node hash s
  cell ← load s.positions position
  cells ← store s.positions position (record cell { id = node; time = s.current_timestamp })
  some (position, record s { positions = cells })

abbrev pub rounds : ℕ
rounds = 2 ^ 16

-- `storage[node] = key`
pub set : ℕ → ℕ → XorFastHashStorage → Option XorFastHashStorage
set node key s = do
  (position, s') ← access rounds node s
  cell ← load s'.positions position
  cells ← store s'.positions position (record cell { key = key })
  some (record s' { positions = cells })

-- `Key key = storage[node]`
pub get : ℕ → XorFastHashStorage → Option (ℕ × XorFastHashStorage)
get node s = do
  (position, s') ← access rounds node s
  cell ← load s'.positions position
  some (cell.key, s')

pub clear : XorFastHashStorage → XorFastHashStorage
clear s =
    let now = (s.current_timestamp + 1) % 2 ^ 32 in
    if unsigned_max == now
    then record s { positions = new_cells; current_timestamp = now }
    else record s { current_timestamp = now }
