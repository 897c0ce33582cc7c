-- ===== src/DataStructures/RangeTable/Tests.antt =====
-- A table of 18 parts: a full block and the first part of the next one, which is empty.
use osrm_backend.Prelude.{
  ℕ, ◌+◌, ◌≤◌, ◌<◌, zero, suc, Bool, true, ◌&&◌, leb, ◌≡◌, refl, some, none, List, [], ◌∷◌, ◌++◌,
  arith, ltb, if◌then◌else◌, length, get_or, Returns,
}
use osrm_backend.DataStructures.RangeTable.{get_range, new_table}
use osrm_backend.DataStructures.RangeTable.Push.{total}
use osrm_backend.DataStructures.RangeTable.Stream.{read_table, write_table, read_table-new_table}
use osrm_backend.DataStructures.RangeTable.Lookup.{get_range-new_table}

abbrev parts : List ℕ
parts = 3 ∷ 0 ∷ 255 ∷ 7 ∷ 1 ∷ 1 ∷ 1 ∷ 1 ∷ 1 ∷ 1 ∷ 1 ∷ 1 ∷ 1 ∷ 1 ∷ 1 ∷ 1 ∷ 20 ∷ 0 ∷ []

all_le : List ℕ → Bool
all_le [] = true
all_le (x ∷ xs) = leb x 255 && all_le xs

get_or_le : (ls : List ℕ) → all_le ls ≡ true → (i : ℕ) → get_or ls i 0 ≤ 255
unfolding all_le
get_or_le [] p i = omega arith
get_or_le (x ∷ xs) p zero = ground arith
get_or_le (x ∷ xs) p (suc i) = get_or_le xs (ground arith) i

parts_le : all_le parts ≡ true
unfolding all_le
parts_le = refl

get_range-new_table_example :
    Returns
      (λ t.
        (i : ℕ)
        → i < 18
        → get_range i t ≡ (
            if ltb (total (λ i. get_or parts i 0) i) (total (λ i. get_or parts i 0) (length parts))
            then some (total (λ i. get_or parts i 0) i, total (λ i. get_or parts i 0) (i + 1))
            else none))
      (new_table (λ i. 99) parts)
get_range-new_table_example =
    get_range-new_table (λ i. 99) parts (get_or_le parts parts_le) (omega arith)

read_table-new_table_example :
    Returns
      (λ t.
        Returns
          (λ r. ((i : ℕ) → i < length parts → get_range i r.0 ≡ get_range i t) × (r.1 ≡ 8 ∷ 9 ∷ []))
          (read_table (write_table t ++ (8 ∷ 9 ∷ []))))
      (new_table (λ i. 99) parts)
read_table-new_table_example =
    read_table-new_table (λ i. 99) parts (8 ∷ 9 ∷ []) (get_or_le parts parts_le) (omega arith)
      (omega arith)
