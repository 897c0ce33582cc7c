-- ===== src/DataStructures/LruCache.antt =====
-- DataStructures/LRUCache.h. Each element of the std::list has an id, which stands for the iterators
-- that point at it: an id stays with its element when the list is spliced. A use of an iterator
-- whose element is gone is `none`.
pub mod Laws
mod Tests
use osrm_backend.Prelude.{
  ℕ, ◌+◌, ◌≡◌, Bool, true, false, Option, none, some, List, [], ◌∷◌, ◌++◌, ltb, ◌==◌, if◌then◌else◌,
  length, ◌>>=◌,
}

pub record CacheEntry (V : Type 0) : Type 0 where
  pub id : ℕ
  pub key : ℕ
  pub value : V

pub record LruCache (V : Type 0) : Type 0 where
  pub capacity : ℕ
  pub items_in_cache : List (CacheEntry V)
  pub position_map : ℕ → Option ℕ
  pub next_id : ℕ

-- `positionMap.insert` leaves a key that is there alone.
abbrev pub insert_position : ℕ → ℕ → (ℕ → Option ℕ) → ℕ → Option ℕ
insert_position key i f k =
    if k == key then elim (f key) [ none ↦ some i | some j ↦ some j ] else f k

abbrev pub erase : ℕ → (ℕ → Option ℕ) → ℕ → Option ℕ
erase key f k = if k == key then none else f k

module _ {V : Type 0} where
  pub new_cache : ℕ → LruCache V
  new_cache c = record { capacity = c; items_in_cache = []; position_map = λ k. none; next_id = 0 }

  pub holds : ℕ → LruCache V → Bool
  holds key c = elim (c.position_map key) [ none ↦ false | some i ↦ true ]

  pub size : LruCache V → ℕ
  size c = length c.items_in_cache

  -- `items.back()` and `items.pop_back()`
  abbrev pub last_key : CacheEntry V → List (CacheEntry V) → ℕ
  last_key e [] = e.key
  last_key e (x ∷ xs) = last_key x xs

  abbrev pub pop_back : CacheEntry V → List (CacheEntry V) → List (CacheEntry V)
  pop_back e [] = []
  pop_back e (x ∷ xs) = e ∷ pop_back x xs

  pub insert : ℕ → V → LruCache V → LruCache V
  insert key value c =
      let e : CacheEntry V = record { id = c.next_id; key = key; value = value } in
      let map = insert_position key c.next_id c.position_map in
      if ltb c.capacity (length c.items_in_cache + 1)
      then record {
        capacity = c.capacity;
        items_in_cache = pop_back e c.items_in_cache;
        position_map = erase (last_key e c.items_in_cache) map;
        next_id = c.next_id + 1;
      }
      else record {
        capacity = c.capacity;
        items_in_cache = e ∷ c.items_in_cache;
        position_map = map;
        next_id = c.next_id + 1;
      }

  -- The element that an iterator points at.
  abbrev pub entry_at : ℕ → List (CacheEntry V) → Option (CacheEntry V)
  entry_at i [] = none
  entry_at i (x ∷ xs) = if x.id == i then some x else entry_at i xs

  -- `x` goes before the element `i`.
  abbrev pub put_before : CacheEntry V → ℕ → List (CacheEntry V) → List (CacheEntry V)
  put_before x i [] = x ∷ []
  put_before x i (y ∷ ys) = if y.id == i then x ∷ y ∷ ys else y ∷ put_before x i ys

  -- `items.splice(i, items, items.begin())`: the first element goes before the element `i`.
  abbrev pub splice_first : ℕ → List (CacheEntry V) → List (CacheEntry V)
  splice_first i [] = []
  splice_first i (x ∷ xs) = if x.id == i then x ∷ xs else put_before x i xs

  -- `items.begin()`
  abbrev pub first_id : List (CacheEntry V) → Option ℕ
  first_id [] = none
  first_id (x ∷ xs) = some x.id

  -- The result is `none` for a return of false.
  pub fetch : ℕ → LruCache V → Option (Option V × LruCache V)
  fetch key c = elim (c.position_map key) [
    | none ↦ some (none, c)
    | some i ↦ (do
      e ← entry_at i c.items_in_cache
      let items = splice_first i c.items_in_cache
      front ← first_id items
      some (
        some e.value,
        record c {
          items_in_cache = items;
          position_map = λ k. if k == key then some front else c.position_map k;
        },
      ))
  ]
