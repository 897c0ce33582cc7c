-- ===== src/DataStructures/LruCache/Laws.antt =====
-- What the cache keeps to, and what Fetch does to it.
use osrm_backend.Prelude.{
  ℕ, suc, ◌+◌, ◌≤◌, ◌<◌, ◌≡◌, ◌≢◌, refl, true, Option, none, some, List, [], ◌∷◌, ltb, ◌==◌,
  if◌then◌else◌, length, arith, Bool-cases, inl, inr, Returns, done,
}
use osrm_backend.DataStructures.LruCache.{
  CacheEntry, LruCache, insert, fetch, entry_at, put_before, first_id, pop_back, size,
}

module _ {V : Type 0} where
  length-pop_back :
      (e : CacheEntry V) (xs : List (CacheEntry V)) → length (pop_back e xs) ≡ length xs
  length-pop_back e [] = refl
  length-pop_back e (x ∷ xs) = omega (arith, length-pop_back x xs)

  length-put_before :
      (x : CacheEntry V) (i : ℕ) (xs : List (CacheEntry V))
      → length (put_before x i xs) ≡ suc (length xs)
  length-put_before x i [] = refl
  length-put_before x i (y ∷ ys) = ground (arith, length-put_before x i ys)

  -- Insert never lets the cache outgrow its capacity, and adds exactly one entry while there is room.
  size-insert :
      (key : ℕ) (value : V) (c : LruCache V)
      → size c ≤ c.capacity
      → (size (insert key value c) ≤ c.capacity)
        × (size c < c.capacity → size (insert key value c) ≡ size c + 1)
  unfolding insert size
  size-insert key value c h = elim (Bool-cases (ltb c.capacity (length c.items_in_cache + 1))) [
    | inl e ↦ ground (
      arith,
      length-pop_back (record { id = c.next_id; key = key; value = value }) c.items_in_cache,
    )
    | inr e ↦ ground arith
  ]

  -- The front entry, an entry behind it, and the position map of the cache agree.
  pub record Behind (key : ℕ) (front e : CacheEntry V) (rest : List (CacheEntry V)) (c : LruCache V)
      : Type 0 where
    pub items : c.items_in_cache ≡ front ∷ rest
    pub position : c.position_map key ≡ some e.id
    pub found : entry_at e.id rest ≡ some e
    pub not_front : front.id ≢ e.id

  -- The entry that is in front after `front` has been put before the element `e`.
  abbrev pub new_front : CacheEntry V → ℕ → List (CacheEntry V) → CacheEntry V
  new_front front i [] = front
  new_front front i (y ∷ ys) = if y.id == i then front else y

  head_found :
      (front : CacheEntry V) (i : ℕ) (rest : List (CacheEntry V))
      → (first_id (put_before front i rest) ≡ some (new_front front i rest).id)
        × (entry_at (new_front front i rest).id (put_before front i rest)
            ≡ some (new_front front i rest))
  head_found front i [] = (refl, ground arith)
  head_found front i (y ∷ ys) = elim (Bool-cases (y.id == i)) [
    | inl e ↦ ground arith
    | inr e ↦ ground arith
  ]

  -- The value of a first call of Fetch, and that of a second one for the same key.
  pub Answers : ℕ → V → V → Option (Option V × LruCache V) → Type 0
  Answers key a b none = ⊥
  Answers key a b (some (r, c)) = (r ≡ some a) × Returns (λ p. p.0 ≡ some b) (fetch key c)

  -- Fetch of a key whose entry is not in front returns the entry's value, but a second Fetch of the
  -- same key returns the value of another entry: of the one that the first call has left in front.
  pub fetch_twice :
      {key : ℕ} {front e : CacheEntry V} {rest : List (CacheEntry V)} {c : LruCache V}
      → Behind key front e rest c
      → Answers key e.value (new_front front e.id rest).value (fetch key c)
        × ((new_front front e.id rest).id ≢ e.id)
  unfolding fetch Answers
  fetch_twice {key} {front} {e} {rest} {c} b =
      (rw one (refl, second (head_found front e.id rest)), other rest)
    where
      items : List (CacheEntry V)
      items = put_before front e.id rest

      after : ℕ → List (CacheEntry V) → LruCache V
      after i xs = record {
        capacity = c.capacity;
        items_in_cache = xs;
        position_map = λ k. if k == key then some i else c.position_map k;
        next_id = c.next_id;
      }

      n : ℕ
      n = (new_front front e.id rest).id

      one : fetch key c ≡ some (some e.value, after n items)
      one =
          ground (arith, b.position, b.items, b.found, b.not_front, (head_found front e.id rest).0)

      second :
          (first_id (put_before front e.id rest) ≡ some (new_front front e.id rest).id)
            × (entry_at (new_front front e.id rest).id (put_before front e.id rest)
                ≡ some (new_front front e.id rest))
          → Returns (λ p. p.0 ≡ some (new_front front e.id rest).value) (fetch key (after n items))
      second (f, g) = go (put_before front e.id rest) f g
        where
          go :
              (xs : List (CacheEntry V))
              → first_id xs ≡ some (new_front front e.id rest).id
              → entry_at (new_front front e.id rest).id xs ≡ some (new_front front e.id rest)
              → Returns (λ p. p.0 ≡ some (new_front front e.id rest).value) (fetch key (after n xs))
          go [] p q = cc
          go (x ∷ xs) p q =
              let here : (key == key) ≡ true = ground arith in
              let first : (x.id == n) ≡ true = ground (arith, p) in
              rw (here, fetch, q, first) (done refl)

      other : (xs : List (CacheEntry V)) → (new_front front e.id xs).id ≢ e.id
      other [] = b.not_front
      other (y ∷ ys) = ground (arith, b.not_front)
