-- ===== src/DataStructures/LruCache/Tests.antt =====
-- A concrete cache, and the theorems at it.
use osrm_backend.Prelude.{ℕ, ◌+◌, ◌≡◌, ◌≢◌, refl, none, some, [], ◌∷◌, arith, ◌==◌, if◌then◌else◌}
use osrm_backend.DataStructures.LruCache.{CacheEntry, LruCache, new_cache, insert, fetch}
use osrm_backend.DataStructures.LruCache.Laws.{Behind, Answers, new_front, fetch_twice}

abbrev entry : ℕ → CacheEntry ℕ
entry k = record { id = k; key = k + 10; value = k + 100 }

abbrev three : LruCache ℕ
three = insert 12 102 (insert 11 101 (insert 10 100 (new_cache 3)))

-- The three entries that the inserts leave.
abbrev sample : LruCache ℕ
sample = record {
  capacity = 3;
  items_in_cache = entry 2 ∷ entry 1 ∷ entry 0 ∷ [];
  position_map =
      λ k. if k == 12 then some 2 else if k == 11 then some 1 else if k == 10 then some 0 else none;
  next_id = 3;
}

three_items : three.items_in_cache ≡ sample.items_in_cache
unfolding insert new_cache
three_items = refl

oldest : Behind 10 (entry 2) (entry 0) (entry 1 ∷ entry 0 ∷ []) sample
oldest = record { items = refl; position = refl; found = refl; not_front = omega arith }

fetch_twice_example :
    Answers 10 100 101 (fetch 10 sample) × ((new_front (entry 2) 0 (entry 1 ∷ entry 0 ∷ [])).id ≢ 0)
fetch_twice_example = fetch_twice oldest
