-- ===== src/Contractor/GeometryCompressor/Serialize.antt =====
-- What SerializeInternalVector writes: where the start and the nodes of each bucket stand.
use osrm_backend.Prelude.{
  ℕ, zero, suc, ◌+◌, ◌^◌, ◌%◌, ◌==◌, ◌≤◌, ◌<◌, ◌≡◌, refl, ap, true, false, some, List, [], ◌∷◌,
  ◌++◌, map, arith, length, get_elem?, take, drop, Array, length-append, length-map,
}
use osrm_backend.Contractor.GeometryCompressor.{
  CompressedNode, GeometryCompressor, write_indices, write_nodes, serialize_internal_vector,
  unsigned_max,
}

-- Where each of `n` lists starts, without bounds on the numbers.
pub indices_of : ℕ → ℕ → ℕ → Array (List CompressedNode) → List ℕ
indices_of zero i prefix_sum geometries = prefix_sum ∷ []
indices_of (suc n) i prefix_sum geometries =
    prefix_sum ∷ indices_of n (i + 1) (prefix_sum + length (geometries.at i)) geometries

-- The sum of the lengths of `n` lists, from `i` on.
unfoldable pub sum_lengths : ℕ → ℕ → ℕ → Array (List CompressedNode) → ℕ
sum_lengths zero i prefix_sum geometries = prefix_sum
sum_lengths (suc n) i prefix_sum geometries =
    sum_lengths n (i + 1) (prefix_sum + length (geometries.at i)) geometries

pub nodes_of : ℕ → ℕ → Array (List CompressedNode) → List ℕ
nodes_of zero i geometries = []
nodes_of (suc n) i geometries = map (λ c. c.node) (geometries.at i) ++ nodes_of n (i + 1) geometries

take-map_append :
    (xs : List CompressedNode) (ys : List ℕ)
    → take (length xs) (map (λ c. c.node) xs ++ ys) ≡ map (λ c. c.node) xs
take-map_append [] ys = refl
take-map_append (x ∷ xs) ys = ap (◌∷◌ x.node) (take-map_append xs ys)

drop-map_append :
    (xs : List CompressedNode) (m : ℕ) (ys : List ℕ)
    → drop (length xs + m) (map (λ c. c.node) xs ++ ys) ≡ drop m ys
drop-map_append [] m ys = let z : 0 + m ≡ m = omega arith in rw z refl
drop-map_append (x ∷ xs) m ys =
    let z : suc (length xs) + m ≡ suc (length xs + m) = omega arith in
    rw z (drop-map_append xs m ys)

module _ (geo : Array (List CompressedNode)) where
  sum_lengths_lem : (n i p : ℕ) → sum_lengths n i p geo ≡ p + sum_lengths n i 0 geo
  unfolding sum_lengths
  sum_lengths_lem zero i p = omega arith
  sum_lengths_lem (suc n) i p = omega (
    arith,
    sum_lengths_lem n (i + 1) (p + length (geo.at i)),
    sum_lengths_lem n (i + 1) (0 + length (geo.at i)),
  )

  pub length-indices_of : (n i p : ℕ) → length (indices_of n i p geo) ≡ n + 1
  unfolding indices_of
  length-indices_of zero i p = refl
  length-indices_of (suc n) i p = omega (arith, length-indices_of n (i + 1) (p + length (geo.at i)))

  pub length-nodes_of : (n i : ℕ) → length (nodes_of n i geo) ≡ sum_lengths n i 0 geo
  unfolding nodes_of sum_lengths
  length-nodes_of zero i = refl
  length-nodes_of (suc n) i = omega (
    arith,
    length-append {0} (map (λ c. c.node) (geo.at i)) (nodes_of n (i + 1) geo),
    length-map {0, 0} (geo.at i) (λ c. c.node),
    length-nodes_of n (i + 1),
    sum_lengths_lem n (i + 1) (0 + length (geo.at i)),
  )

  pub index_at :
      (n i p k : ℕ) → k ≤ n → get_elem? (indices_of n i p geo) k ≡ some (sum_lengths k i p geo)
  unfolding indices_of sum_lengths
  index_at zero i p zero h = refl
  index_at zero i p (suc k) h = absurd (omega arith)
  index_at (suc n) i p zero h = refl
  index_at (suc n) i p (suc k) h = index_at n (i + 1) (p + length (geo.at i)) k (omega arith)

  -- The next bucket begins where this one ends.
  pub sum_lengths-suc :
      (k i : ℕ) → sum_lengths (suc k) i 0 geo ≡ sum_lengths k i 0 geo + length (geo.at (i + k))
  unfolding sum_lengths
  sum_lengths-suc zero i = let z : i + 0 ≡ i = omega arith in rw z refl
  sum_lengths-suc (suc k) i =
      let z : i + suc k ≡ i + 1 + k = omega arith in
      rw z (
        omega (
          arith,
          sum_lengths_lem (suc k) (i + 1) (0 + length (geo.at i)),
          sum_lengths_lem k (i + 1) (0 + length (geo.at i)),
          sum_lengths-suc k (i + 1),
        ))

  pub sum_lengths_mono : (k n i : ℕ) → k ≤ n → sum_lengths k i 0 geo ≤ sum_lengths n i 0 geo
  unfolding sum_lengths
  sum_lengths_mono zero n i h = omega arith
  sum_lengths_mono (suc k) zero i h = absurd (omega arith)
  sum_lengths_mono (suc k) (suc n) i h = omega (
    arith,
    sum_lengths_lem k (i + 1) (0 + length (geo.at i)),
    sum_lengths_lem n (i + 1) (0 + length (geo.at i)),
    sum_lengths_mono k n (i + 1) (omega arith),
  )

  pub nodes_at :
      (n i k : ℕ)
      → k < n
      → take (length (geo.at (i + k))) (drop (sum_lengths k i 0 geo) (nodes_of n i geo))
        ≡ map (λ c. c.node) (geo.at (i + k))
  unfolding nodes_of sum_lengths
  nodes_at zero i k h = absurd (omega arith)
  nodes_at (suc n) i zero h =
      let z : i + 0 ≡ i = omega arith in rw z (take-map_append (geo.at i) (nodes_of n (i + 1) geo))
  nodes_at (suc n) i (suc k) h =
      let z : i + suc k ≡ i + 1 + k = omega arith in
      let y : sum_lengths k (i + 1) (0 + length (geo.at i)) geo
          ≡ length (geo.at i) + sum_lengths k (i + 1) 0 geo =
        omega (arith, sum_lengths_lem k (i + 1) (0 + length (geo.at i))) in
      rw (z, y, drop-map_append (geo.at i) (sum_lengths k (i + 1) 0 geo) (nodes_of n (i + 1) geo))
        (nodes_at n (i + 1) k (omega arith))

  -- The numbers that are written, when they fit.
  write_indices-indices_of :
      (n i p : ℕ)
      → p + sum_lengths n i 0 geo < unsigned_max
      → write_indices n i p geo ≡ some (indices_of n i p geo, sum_lengths n i p geo)
  unfolding write_indices indices_of sum_lengths
  write_indices-indices_of zero i p fits = refl
  write_indices-indices_of (suc n) i p fits =
      let l = length (geo.at i) in
      let rest = sum_lengths_lem n (i + 1) (0 + l) in
      let exact : l % 2 ^ 32 ≡ l = omega (arith, rest, fits) in
      let sum : (p + l) % 2 ^ 32 ≡ p + l = omega (arith, rest, fits) in
      let short : (l == unsigned_max) ≡ false = ground (arith, rest, fits) in
      rw (exact, sum, short, write_indices-indices_of n (i + 1) (p + l) (omega (arith, rest, fits)))
        refl

  write_nodes-nodes_of :
      (n i p : ℕ)
      → p + sum_lengths n i 0 geo < unsigned_max
      → write_nodes n i p geo ≡ some (nodes_of n i geo, sum_lengths n i p geo)
  unfolding write_nodes nodes_of sum_lengths
  write_nodes-nodes_of zero i p fits = refl
  write_nodes-nodes_of (suc n) i p fits =
      let l = length (geo.at i) in
      let rest = sum_lengths_lem n (i + 1) (0 + l) in
      let exact : l % 2 ^ 32 ≡ l = omega (arith, rest, fits) in
      let sum : (p + l) % 2 ^ 32 ≡ p + l = omega (arith, rest, fits) in
      let short : (l == unsigned_max) ≡ false = ground (arith, rest, fits) in
      rw (exact, sum, short, write_nodes-nodes_of n (i + 1) (p + l) (omega (arith, rest, fits)))
        refl

-- The text of the file, when the numbers fit.
pub serialize_lem :
    (g : GeometryCompressor)
    → g.compressed_geometries.size + 1 < unsigned_max
    → sum_lengths g.compressed_geometries.size 0 0 g.compressed_geometries < unsigned_max
    → serialize_internal_vector g
      ≡ some (
          ((g.compressed_geometries.size + 1)
            ∷ indices_of g.compressed_geometries.size 0 0 g.compressed_geometries)
          ++ (sum_lengths g.compressed_geometries.size 0 0 g.compressed_geometries
              ∷ nodes_of g.compressed_geometries.size 0 g.compressed_geometries))
unfolding serialize_internal_vector
serialize_lem g few fits =
    let geo = g.compressed_geometries in
    let n = geo.size in
    let a = write_indices-indices_of geo n 0 0 (omega (arith, fits)) in
    let b = write_nodes-nodes_of geo n 0 0 (omega (arith, fits)) in
    let exact : (n + 1) % 2 ^ 32 ≡ n + 1 = omega (arith, few) in
    let short : ((n + 1) == unsigned_max) ≡ false = ground (arith, few) in
    let same : (sum_lengths n 0 0 geo == sum_lengths n 0 0 geo) ≡ true = ground arith in
    rw (exact, short, a, b, same) refl
